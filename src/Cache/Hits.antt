-- ===== src/Cache/Hits.antt =====
-- The hits of cached objects, which src/cache/repository.rs counts in memory before it adds them to
-- the table: `record_hit`, `flush_hits` and `discard_pending_hits`, with `add_cache_hits` of
-- src/db.rs.
--
-- A write to the database may fail: `works` tells, for each key, whether it does not.
use donkey.Base.{
  ℕ, ◌+◌, ◌-◌, ◌^◌, min, Bool, true, false, not, List, [], ◌∷◌, keep, ltb, leb, ◌==◌, if◌then◌else◌,
  saturating_add, ok, err,
}
use donkey.Error.{ApiResult, database}
use donkey.Cache.{CacheRecord, Table}

-- The map from keys to buffered hits.
abbrev pub Pending : Type 0
Pending = List (ℕ × ℕ)

pub record HitState : Type 0 where
  pub table : Table
  pub pending : Pending

abbrev pub i64_max : ℕ
i64_max = 2 ^ 63 - 1

abbrev pub flush_threshold : ℕ
flush_threshold = 32

unfoldable pub pending_of : ℕ → Pending → ℕ
pending_of key [] = 0
pending_of key ((k, n) ∷ pending) = if k == key then n else pending_of key pending

-- `entry(key)` set to a count.
unfoldable pub put_pending : ℕ → ℕ → Pending → Pending
put_pending key n [] = (key, n) ∷ []
put_pending key n ((k, m) ∷ pending) =
    if k == key then (key, n) ∷ pending else (k, m) ∷ put_pending key n pending

unfoldable pub discard_pending : ℕ → Pending → Pending
discard_pending key = keep (λ (e : ℕ × ℕ). not (e.0 == key))

abbrev pub counted : ℕ → ℕ → CacheRecord → CacheRecord
counted count now r = record r {
  hit_count = r.hit_count + min count i64_max;
  last_accessed_at = now;
}

-- `UPDATE … WHERE key`: where there is no such record nothing is changed.
unfoldable pub add_cache_hits : ℕ → ℕ → ℕ → Table → Table
add_cache_hits key count now [] = []
add_cache_hits key count now (r ∷ table) =
    (if r.key == key then counted count now r else r) ∷ add_cache_hits key count now table

-- What a failed write took from the map is put back.
abbrev pub write_hits : Bool → ℕ → ℕ → ℕ → Table → Pending → HitState × ApiResult (Unit {0})
write_hits true key count now table pending =
    (record { table = add_cache_hits key count now table; pending = pending }, ok tt)
write_hits false key count now table pending = (
  record {
    table = table;
    pending = put_pending key (saturating_add (pending_of key pending) count) pending;
  },
  err database,
)

unfoldable pub record_hit : (ℕ → Bool) → ℕ → ℕ → HitState → HitState × ApiResult (Unit {0})
record_hit works now key s =
    let count = saturating_add (pending_of key s.pending) 1 in
    if leb flush_threshold count
    then write_hits (works key) key count now s.table (put_pending key 0 s.pending)
    else (record s { pending = put_pending key count s.pending }, ok tt)

-- The keys with hits, as they stand when a flush starts.
unfoldable pub keys_to_flush : Pending → List ℕ
keys_to_flush [] = []
keys_to_flush ((k, n) ∷ pending) =
    if ltb 0 n then k ∷ keys_to_flush pending else keys_to_flush pending

abbrev pub flush_next :
    (HitState → HitState × ApiResult (Unit {0}))
    → HitState × ApiResult (Unit {0})
    → HitState × ApiResult (Unit {0})
flush_next next (s, ok done) = next s
flush_next next (s, err error) = (s, err error)

unfoldable pub flush_keys : (ℕ → Bool) → ℕ → List ℕ → HitState → HitState × ApiResult (Unit {0})
flush_keys works now [] s = (s, ok tt)
flush_keys works now (key ∷ keys) s =
    let count = pending_of key s.pending in
    let rest = discard_pending key s.pending in
    let flushed =
      flush_next (flush_keys works now keys) (write_hits (works key) key count now s.table rest) in
    let skipped = flush_keys works now keys (record s { pending = rest }) in
    if ltb 0 count then flushed else skipped

unfoldable pub flush_hits : (ℕ → Bool) → ℕ → HitState → HitState × ApiResult (Unit {0})
flush_hits works now s = flush_keys works now (keys_to_flush s.pending) s

-- One call, with the writes that work during it and its time.
pub data HitStep : Type 0 where
  hit : (ℕ → Bool) → ℕ → ℕ → HitStep
  flush : (ℕ → Bool) → ℕ → HitStep

unfoldable pub hit_step : HitStep → HitState → HitState
hit_step (hit works now key) s = (record_hit works now key s).0
hit_step (flush works now) s = (flush_hits works now s).0

unfoldable pub run_hits : List HitStep → HitState → HitState
run_hits [] s = s
run_hits (step ∷ steps) s = run_hits steps (hit_step step s)
