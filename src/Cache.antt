-- ===== src/Cache.antt =====
-- The cache index of src/cache.rs and its eviction: `reserve_capacity_locked`, `cleanup_expired`
-- and the index's part of `admit`.
--
-- Keys are numbers, and a record has the columns that these operations read. The order in which the
-- database and `retention_score` (on floats) offer the records is a parameter, as are the two
-- watermarks, `max_cache_bytes` times a float each. The files of objects stand in
-- `Objects`; of the database's failures only those of the writes of hits are modelled.
pub mod Table
pub mod Reservation
pub mod Flush
pub mod Evict
pub mod Reserve
pub mod Admit
pub mod Hits
pub mod Counted
pub mod Objects
pub mod Agree
pub mod Served
pub mod Expire
pub mod Expiry
pub mod Recent
pub mod Cleanup
mod Examples
use donkey.Base.{
  ℕ, zero, suc, ◌+◌, ◌-◌, max, Bool, true, false, not, ◌||◌, Option, none, some, List, [], ◌∷◌, any,
  keep, length, ltb, leb, ◌==◌, if◌then◌else◌, saturating_add, sub64, Result, ok, err,
}
use donkey.Error.{AppError, ApiResult, bad_request}

pub record CacheRecord : Type 0 where
  pub key : ℕ
  pub size_bytes : ℕ
  pub hit_count : ℕ
  pub last_accessed_at : ℕ

abbrev pub Table : Type 0
Table = List CacheRecord

pub record CacheRuntimeConfig : Type 0 where
  pub max_cache_bytes : ℕ
  pub high : ℕ
  pub low : ℕ

-- The sum of the sizes that `aggregate` asks the database for, after its flush.
unfoldable pub total : Table → ℕ
total [] = 0
total (r ∷ table) = r.size_bytes + total table

unfoldable pub find_record : ℕ → Table → Option CacheRecord
find_record key [] = none
find_record key (r ∷ table) = if r.key == key then some r else find_record key table

unfoldable pub delete_record : ℕ → Table → Table
delete_record key = keep (λ r. not (r.key == key))

-- `INSERT … ON CONFLICT DO UPDATE` on the key: of these columns a row that is there keeps its hits.
unfoldable pub insert_record : CacheRecord → Table → Table
insert_record new [] = new ∷ []
insert_record new (r ∷ table) =
    if r.key == new.key
    then record new { hit_count = r.hit_count } ∷ table
    else r ∷ insert_record new table
