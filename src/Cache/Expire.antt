-- ===== src/Cache/Expire.antt =====
-- `cleanup_expired` of src/cache.rs: what is older than the time to live is removed.
--
-- `expired` is the query for a batch of the records that were last accessed before a time.
use donkey.Base.{
  ℕ, zero, suc, ◌-◌, Bool, true, false, Option, none, some, List, [], ◌∷◌, length, if◌then◌else◌,
  saturating_add, ok, err,
}
use donkey.Error.{ApiResult}
use donkey.Cache.{Table}
use donkey.Cache.Hits.{HitState, flush_hits}
use donkey.Cache.Objects.{CacheState, counters, remove, in_flight}

-- The `for` loop over a batch: the cache, the bytes freed, and whether a record was removed.
unfoldable pub expire_batch : List ℕ → Table → CacheState → ℕ → Bool → CacheState × ℕ × Bool
expire_batch flights [] s freed removed = (s, freed, removed)
expire_batch flights (r ∷ batch) s freed removed =
    let skipped = expire_batch flights batch s freed removed in
    let expired =
      expire_batch flights batch (remove r.key s) (saturating_add freed r.size_bytes) true in
    if in_flight flights r.key then skipped else expired

abbrev pub is_none_left : Table → Bool
is_none_left [] = true
is_none_left (r ∷ table) = false

-- The outer loop; `none` means that the fuel ran out.
unfoldable pub expire_loop : (Table → Table) → List ℕ → ℕ → CacheState → ℕ → Option (CacheState × ℕ)
expire_loop expired flights zero s freed = none
expire_loop expired flights (suc fuel) s freed =
    let (s', freed', removed) = expire_batch flights (expired s.table) s freed false in
    let rest = expire_loop expired flights fuel s' freed' in
    if is_none_left (expired s.table)
    then some (s, freed)
    else if removed
    then rest
    else some (s', freed')

abbrev pub freed_bytes : Option (CacheState × ℕ) → Option (CacheState × ApiResult ℕ)
freed_bytes none = none
freed_bytes (some (s, freed)) = some (s, ok freed)

abbrev pub after_flush :
    (CacheState → Option (CacheState × ApiResult ℕ))
    → CacheState
    → HitState × ApiResult (Unit {0})
    → Option (CacheState × ApiResult ℕ)
after_flush next s (h, ok done) = next (record s { table = h.table; pending = h.pending })
after_flush next s (h, err error) =
    some (record s { table = h.table; pending = h.pending }, err error)

-- Each round but the last removes a record, so one more than there are records is enough fuel. No
-- time lies before 0, so that a cutoff before it is 0.
unfoldable pub cleanup_expired :
    (ℕ → Table → Table)
    → (ℕ → Bool)
    → List ℕ
    → Option ℕ
    → ℕ
    → CacheState
    → Option (CacheState × ApiResult ℕ)
cleanup_expired expired works flights none now s = some (s, ok 0)
cleanup_expired expired works flights (some ttl) now s =
    after_flush
      (λ t. freed_bytes (expire_loop (expired (now - ttl)) flights (suc (length t.table)) t 0)) s
      (flush_hits works now (counters s))
