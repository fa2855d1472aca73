-- ===== src/Cache/Examples.antt =====
-- The theorems on admissions at a concrete index: of three records, one is in flight.
use donkey.Base.{
  ℕ, ◌-◌, ◌≤◌, ◌<◌, ◌≡◌, refl, Bool, true, false, Option, some, List, [], ◌∷◌, All, All-keep, arith,
  ok, keep, ltb, ltb→lt, ◌==◌, if◌then◌else◌, Bool-cases, inl, inr,
}
use donkey.Error.{ApiResult}
use donkey.Cache.{
  CacheRecord, Table, CacheRuntimeConfig, total, find_record, delete_record, insert_record,
}
use donkey.Cache.Reservation.{admit, reserve_capacity_locked, make_room, evict_loop, evict_batch}
use donkey.Cache.Table.{Unique, has_key}
use donkey.Cache.Evict.{Selects}
use donkey.Cache.Hits.{
  HitState, HitStep, hit, flush, run_hits, hit_step, record_hit, flush_hits, flush_keys,
  keys_to_flush, pending_of, put_pending, discard_pending, add_cache_hits,
}
use donkey.Cache.Counted.{row_hits, hits, run_hits_lem}
use donkey.Cache.Objects.{CacheState, counters, clear_all, clear_entries, remove, reconcile_startup}
use donkey.Cache.Agree.{size_of, Agrees, Unique-keep}
use donkey.Cache.Served.{run_cache, removes, Answered, run_cache_get}
use donkey.Cache.Expire.{cleanup_expired}
use donkey.Cache.Expiry.{Queries}
use donkey.Cache.Cleanup.{IsProtected, cleanup_expired_lem}
use donkey.Cache.Admit.{admit_total, admit-fits, admit-in_flight, admit-hits}

abbrev entry : ℕ → ℕ → CacheRecord
entry key size = record { key = key; size_bytes = size; hit_count = 0; last_accessed_at = 10 }

abbrev table_3 : Table
table_3 = entry 1 40 ∷ entry 2 30 ∷ entry 3 20 ∷ []

abbrev small_cache : CacheRuntimeConfig
small_cache = record { max_cache_bytes = 100; high = 90; low = 80 }

-- The whole table, in its own order.
abbrev in_order : Table → Table
in_order table = table

found_more :
    (x : CacheRecord) (batch table : Table)
    → has_key x.key batch ≡ false
    → All (λ r. find_record r.key table ≡ some r) batch
    → All (λ r. find_record r.key (x ∷ table) ≡ some r) batch
unfolding find_record
found_more x [] table h found = tt
found_more x (r ∷ batch) table h (now, later) =
    (ground arith, found_more x batch table (ground arith) later)

found_self : (table : Table) → Unique table → All (λ r. find_record r.key table ≡ some r) table
unfolding find_record
found_self [] u = tt
found_self (x ∷ table) (here, u) =
    (ground arith, found_more x table table here (found_self table u))

in_order-Selects : Selects in_order
in_order-Selects = record { batch = λ table u. (u, found_self table u) }

abbrev all_work : ℕ → Bool
all_work k = true

-- Five buffered hits of the first object.
abbrev counted_3 : HitState
counted_3 = record { table = table_3; pending = (1, 5) ∷ [] }

-- The first record has its hits, and the other two are evicted, as the first is in flight.
abbrev admitted_9 : HitState
admitted_9 = record {
  table =
      record { key = 1; size_bytes = 40; hit_count = 5; last_accessed_at = 50 }
      ∷ record { key = 9; size_bytes = 25; hit_count = 0; last_accessed_at = 50 }
      ∷ [];
  pending = [];
}

admitted : admit in_order all_work (1 ∷ []) small_cache counted_3 25 9 50 ≡ some (admitted_9, ok tt)
unfolding admit reserve_capacity_locked make_room evict_loop evict_batch total delete_record
    insert_record flush_hits flush_keys keys_to_flush pending_of discard_pending add_cache_hits
admitted = refl

admit_total_example :
    (after : HitState) × (answer : ApiResult (Unit {0})) × (admit in_order all_work
        (1 ∷ [])
        small_cache
        counted_3
        25
        9
        50
      ≡ some (after, answer))
unfolding total
admit_total_example =
    admit_total in_order all_work (1 ∷ []) small_cache counted_3 25 9 50 in_order-Selects
      (refl, (refl, (refl, tt))) (omega arith) (omega arith) (omega arith)

admit-fits_example :
    (total admitted_9.table ≤ 100)
    × Unique admitted_9.table
    × ((r : CacheRecord) × (find_record 9 admitted_9.table ≡ some r)
        × (r.size_bytes ≡ 25)
        × (r.last_accessed_at ≡ 50))
unfolding total
admit-fits_example =
    admit-fits in_order all_work (1 ∷ []) small_cache counted_3 25 9 50 in_order-Selects
      (refl, (refl, (refl, tt))) (omega arith) (omega arith) (omega arith) admitted_9 admitted

admit-in_flight_example :
    size_of (find_record 1 admitted_9.table) ≡ size_of (find_record 1 counted_3.table)
unfolding total
admit-in_flight_example =
    admit-in_flight in_order all_work (1 ∷ []) small_cache counted_3 25 9 50 in_order-Selects
      (refl, (refl, (refl, tt))) (omega arith) (omega arith) (omega arith) admitted_9 (ok tt) 1
      admitted refl refl

admit-hits_example : hits 1 admitted_9 ≡ hits 1 counted_3
unfolding total row_hits pending_of
admit-hits_example =
    admit-hits in_order all_work (1 ∷ []) small_cache counted_3 25 9 50 in_order-Selects
      (refl, (refl, (refl, tt))) (omega arith) (omega arith) (omega arith) admitted_9 (ok tt) 1
      admitted refl refl (omega arith)

-- Five buffered hits of the second object; the third is in flight, and the first file is damaged.
abbrev files_3 : ℕ → Option ℕ
files_3 k =
    if k == 1 then some 39 else if k == 2 then some 30 else if k == 3 then some 20 else some 7

abbrev cache_3 : CacheState
cache_3 = record { table = table_3; pending = (2, 5) ∷ []; files = files_3 }

table_3-Unique : Unique table_3
table_3-Unique = (refl, (refl, (refl, tt)))

-- A write fails, a later flush works.
abbrev hit_steps : List HitStep
hit_steps =
    hit all_work 20 2
    ∷ flush (λ k. false) 21
    ∷ hit all_work 22 1
    ∷ hit all_work 23 2
    ∷ flush all_work 24
    ∷ []

run_hits_lem_example : hits 2 (run_hits hit_steps (counters cache_3)) ≡ 7
unfolding row_hits pending_of
run_hits_lem_example = run_hits_lem 2 hit_steps (counters cache_3) refl (omega arith)

hits_flushed : row_hits 2 (run_hits hit_steps (counters cache_3)).table ≡ 7
unfolding row_hits run_hits hit_step record_hit flush_hits flush_keys keys_to_flush pending_of
    put_pending discard_pending add_cache_hits
hits_flushed = refl

cleared_bytes : (clear_all true (3 ∷ []) cache_3).1 ≡ 70
unfolding clear_all clear_entries remove delete_record
cleared_bytes = refl

run_cache_get_example :
    Agrees
      (run_cache (removes 3 ∷ []) (reconcile_startup cache_3)).table
      (run_cache (removes 3 ∷ []) (reconcile_startup cache_3)).files
    × Answered all_work 30 2
        (run_cache (removes 3 ∷ []) (reconcile_startup cache_3))
        (find_record 2 (run_cache (removes 3 ∷ []) (reconcile_startup cache_3)).table)
run_cache_get_example = run_cache_get (removes 3 ∷ []) cache_3 all_work 30 2 table_3-Unique

abbrev older : ℕ → Table → Table
older cutoff = keep (λ r. ltb r.last_accessed_at cutoff)

older_old :
    (cutoff : ℕ) (table : Table) → All (λ r. r.last_accessed_at < cutoff) (older cutoff table)
older_old cutoff [] = tt
older_old cutoff (r ∷ table) = elim (Bool-cases (ltb r.last_accessed_at cutoff)) [
  | inl e ↦ rw e (ltb→lt r.last_accessed_at cutoff e, older_old cutoff table)
  | inr e ↦ rw e (older_old cutoff table)
]

older-Queries : Queries older
older-Queries = record {
  selects = λ cutoff. record {
    batch = λ table u. (
      Unique-keep (λ r. ltb r.last_accessed_at cutoff) table u,
      All-keep (λ r. find_record r.key table ≡ some r) (λ r. ltb r.last_accessed_at cutoff) table
          (found_self table u),
    );
  };
  old = older_old;
}

cleanup_expired_lem_example :
    (t : CacheState) × (bytes : ℕ) × (cleanup_expired older all_work (3 ∷ []) (some 50) 100 cache_3
      ≡ some (t, ok bytes))
    × ((key : ℕ) (r : CacheRecord)
        → find_record key cache_3.table ≡ some r
        → IsProtected (3 ∷ []) (100 - 50) cache_3 key r
        → has_key key t.table ≡ true)
cleanup_expired_lem_example =
    cleanup_expired_lem older all_work (3 ∷ []) 50 100 cache_3 older-Queries (λ k. refl)
      table_3-Unique
