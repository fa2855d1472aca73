-- ===== src/Cache/Reservation.antt =====
-- The reservation of room for a new object in src/cache.rs, and the index's part of `admit`.
use donkey.Base.{
  ℕ, zero, suc, ◌-◌, max, Bool, true, false, ◌||◌, Option, none, some, List, [], ◌∷◌, any, length,
  ltb, leb, ◌==◌, if◌then◌else◌, saturating_add, ok, err,
}
use donkey.Error.{ApiResult, bad_request}
use donkey.Cache.{CacheRecord, Table, CacheRuntimeConfig, total, delete_record, insert_record}
use donkey.Cache.Hits.{HitState, discard_pending, flush_hits}

-- A record that must stay: the key that is to be admitted, or one in flight.
abbrev pub is_safe : ℕ → List ℕ → ℕ → Bool
is_safe protected flights key = key == protected || any (λ k. k == key) flights

-- `remove`, as far as the records and their hits go.
abbrev pub forget : ℕ → HitState → HitState
forget key s = record { table = delete_record key s.table; pending = discard_pending key s.pending }

-- One batch of candidates: the cache, the bytes freed, and whether a record was removed.
unfoldable pub evict_batch : (ℕ → Bool) → ℕ → Table → HitState → ℕ → Bool → HitState × ℕ × Bool
evict_batch safe need [] s freed removed = (s, freed, removed)
evict_batch safe need (r ∷ batch) s freed removed =
    let skipped = evict_batch safe need batch s freed removed in
    let s' = forget r.key s in
    let freed' = saturating_add freed r.size_bytes in
    let evicted = evict_batch safe need batch s' freed' true in
    if safe r.key then skipped else if leb need freed' then (s', freed', true) else evicted

-- The `while freed < need_to_free` loop; `none` means that the fuel ran out.
unfoldable pub evict_loop :
    (Table → Table) → (ℕ → Bool) → ℕ → ℕ → HitState → ℕ → Option (HitState × ℕ)
evict_loop candidates safe need zero s freed = none
evict_loop candidates safe need (suc fuel) s freed =
    let (s', freed', removed) = evict_batch safe need (candidates s.table) s freed false in
    let rest = evict_loop candidates safe need fuel s' freed' in
    if leb need freed then some (s, freed) else if removed then rest else some (s', freed')

-- What a call leaves and answers; `none` for want of fuel.
abbrev pub Reply : Type 0
Reply = Option (HitState × ApiResult (Unit {0}))

abbrev pub conclude : ℕ → Option (HitState × ℕ) → Reply
conclude need none = none
conclude need (some (s, freed)) = some (
  s,
  if ltb freed need
      then err (bad_request "cache is full and no safe eviction candidates are available")
      else ok tt,
)

-- After the size of the cache is known. Every round but the last removes a record, so one round
-- more than there are records is enough.
unfoldable pub make_room : (Table → Table) → List ℕ → CacheRuntimeConfig → ℕ → ℕ → HitState → Reply
make_room candidates flights runtime incoming protected s =
    let current = total s.table in
    let wanted = saturating_add current incoming in
    let need = wanted - max runtime.low incoming in
    let evicted =
      evict_loop candidates (is_safe protected flights) need (suc (length s.table)) s 0 in
    if leb wanted runtime.high then some (s, ok tt) else conclude need evicted

-- `aggregate` flushes the buffered hits, which may fail.
abbrev pub after_aggregate : (HitState → Reply) → HitState × ApiResult (Unit {0}) → Reply
after_aggregate next (s, ok done) = next s
after_aggregate next (s, err error) = some (s, err error)

unfoldable pub reserve_capacity_locked :
    (Table → Table) → (ℕ → Bool) → List ℕ → CacheRuntimeConfig → HitState → ℕ → ℕ → ℕ → Reply
reserve_capacity_locked candidates works flights runtime s incoming protected now =
    if ltb runtime.max_cache_bytes incoming
    then some (s, err (bad_request "object exceeds the configured cache capacity"))
    else after_aggregate (make_room candidates flights runtime incoming protected)
        (flush_hits works now s)

abbrev pub index : CacheRecord → Reply → Reply
index new none = none
index new (some (s, err error)) = some (s, err error)
index new (some (s, ok done)) = some (record s { table = insert_record new s.table }, ok tt)

-- The index's part of `admit`, after the object's file was committed with the size it was measured
-- to have.
unfoldable pub admit :
    (Table → Table) → (ℕ → Bool) → List ℕ → CacheRuntimeConfig → HitState → ℕ → ℕ → ℕ → Reply
admit candidates works flights runtime s incoming key now =
    index (record { key = key; size_bytes = incoming; hit_count = 0; last_accessed_at = now })
      (reserve_capacity_locked candidates works flights runtime s incoming key now)
