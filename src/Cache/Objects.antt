-- ===== src/Cache/Objects.antt =====
-- The cache of src/cache.rs with the files of its objects: `get`, `remove`, `clear_all`,
-- `reconcile_startup` and `cleanup_expired`.
--
-- The file of a key is its size, `none` where there is none; it lies where the key says. Deletions
-- work. The form of a key is not tested, since keys are numbers here.

use donkey.Base.{
  ℕ, Bool, false, Option, none, some, List, [], ◌∷◌, any, keep, ◌==◌, if◌then◌else◌, saturating_add,
  ok, ◌>>=◌,
}
use donkey.Error.{ApiResult}
use donkey.Cache.{CacheRecord, Table, find_record, delete_record}
use donkey.Cache.Hits.{Pending, HitState, record_hit, discard_pending}

pub record CacheState : Type 0 where
  pub table : Table
  pub pending : Pending
  pub files : ℕ → Option ℕ

abbrev pub is_size : Option ℕ → ℕ → Bool
is_size none size = false
is_size (some n) size = n == size

abbrev pub without : ℕ → (ℕ → Option ℕ) → ℕ → Option ℕ
without key files k = if k == key then none else files k

abbrev pub counters : CacheState → HitState
counters s = record { table = s.table; pending = s.pending }

-- The answer is the record that was hit.
abbrev pub answer_hit :
    CacheState
    → CacheRecord
    → HitState × ApiResult (Unit {0})
    → CacheState × ApiResult (Option CacheRecord)
answer_hit s r (h, result) =
    (record s { table = h.table; pending = h.pending }, result >>= (λ done. ok (some r)))

unfoldable pub get : (ℕ → Bool) → ℕ → ℕ → CacheState → CacheState × ApiResult (Option CacheRecord)
get works now key s = elim (find_record key s.table) [
  | none ↦ (s, ok none)
  | some r ↦
      if is_size (s.files key) r.size_bytes
      then answer_hit s r (record_hit works now key (counters s))
      else (record s { table = delete_record key s.table }, ok none)
]

-- `discard_pending_hits`, and then the file and the record.
unfoldable pub remove : ℕ → CacheState → CacheState
remove key s = record {
  table = delete_record key s.table;
  pending = discard_pending key s.pending;
  files = without key s.files;
}

abbrev pub in_flight : List ℕ → ℕ → Bool
in_flight flights key = any (λ k. k == key) flights

-- The loop of `clear_all` over the records.
unfoldable pub clear_entries : List ℕ → Table → CacheState → ℕ → CacheState × ℕ
clear_entries flights [] s freed = (s, freed)
clear_entries flights (r ∷ entries) s freed =
    let skipped = clear_entries flights entries s freed in
    let cleared =
      clear_entries flights entries (remove r.key s) (saturating_add freed r.size_bytes) in
    if in_flight flights r.key then skipped else cleared

-- Every object's file goes that is not in flight.
abbrev pub prune_orphans : List ℕ → (ℕ → Option ℕ) → ℕ → Option ℕ
prune_orphans flights files k = if in_flight flights k then files k else none

abbrev pub pruned : List ℕ → CacheState × ℕ → CacheState × ℕ
pruned flights (s, freed) = (record s { files = prune_orphans flights s.files }, freed)

-- `idle` tells whether the maintenance lock is free.
unfoldable pub clear_all : Bool → List ℕ → CacheState → CacheState × ℕ
clear_all idle flights s =
    if idle then pruned flights (clear_entries flights s.table s 0) else (s, 0)

-- A record is valid if its file has its size.
abbrev pub is_valid : (ℕ → Option ℕ) → CacheRecord → Bool
is_valid files r = is_size (files r.key) r.size_bytes

abbrev pub has_record : ℕ → Table → Bool
has_record key = any (λ r. r.key == key)

unfoldable pub reconcile_startup : CacheState → CacheState
reconcile_startup s =
    let valid = keep (is_valid s.files) s.table in
    record {
      table = valid;
      pending = s.pending;
      files = λ k. if has_record k valid then s.files k else none;
    }
