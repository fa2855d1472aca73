-- ===== src/Cache/Counted.antt =====
-- No hit is lost between memory and table: the buffered hits of src/cache/repository.rs.
use donkey.Base.{
  ℕ, ◌+◌, ◌≤◌, min, Bool, true, false, List, [], ◌∷◌, ltb, leb, ◌==◌, if◌then◌else◌, ◌≡◌, refl, ◌∙◌,
  inl, inr, Bool-cases, arith, saturating_add, ok, err,
}
use donkey.Error.{ApiResult}
use donkey.Cache.{Table}
use donkey.Cache.Table.{has_key}
use donkey.Cache.Hits.{
  Pending, HitState, i64_max, flush_threshold, pending_of, put_pending, discard_pending,
  add_cache_hits, write_hits, record_hit, keys_to_flush, flush_next, flush_keys, flush_hits,
  HitStep, hit, flush, hit_step, run_hits,
}

-- The hits of the record of a key.
unfoldable pub row_hits : ℕ → Table → ℕ
row_hits key [] = 0
row_hits key (r ∷ table) = if r.key == key then r.hit_count else row_hits key table

-- The hits of a key in all.
abbrev pub hits : ℕ → HitState → ℕ
hits key s = row_hits key s.table + pending_of key s.pending

-- `n` for one key, 0 for the others.
abbrev pub at : ℕ → ℕ → ℕ → ℕ
at key j n = if key == j then n else 0

pending_of-put_pending :
    (j key n : ℕ) (pending : Pending)
    → pending_of j (put_pending key n pending) ≡ (if key == j then n else pending_of j pending)
unfolding pending_of put_pending
pending_of-put_pending j key n [] = refl
pending_of-put_pending j key n ((k, m) ∷ pending) =
    ground (arith, pending_of-put_pending j key n pending)

pub pending_of-discard_pending :
    (j key : ℕ) (pending : Pending)
    → pending_of j (discard_pending key pending) ≡ (if key == j then 0 else pending_of j pending)
unfolding pending_of discard_pending
pending_of-discard_pending j key [] = ground arith
pending_of-discard_pending j key ((k, m) ∷ pending) =
    ground (arith, pending_of-discard_pending j key pending)

pub has_key-add_cache_hits :
    (j key count now : ℕ) (table : Table)
    → has_key j (add_cache_hits key count now table) ≡ has_key j table
unfolding add_cache_hits
has_key-add_cache_hits j key count now [] = refl
has_key-add_cache_hits j key count now (r ∷ table) =
    ground (arith, has_key-add_cache_hits j key count now table)

row_hits-add_cache_hits :
    (j key count now : ℕ) (table : Table)
    → has_key j table ≡ true
    → row_hits j (add_cache_hits key count now table)
      ≡ row_hits j table + at key j (min count i64_max)
unfolding row_hits add_cache_hits
row_hits-add_cache_hits j key count now [] h = cc
row_hits-add_cache_hits j key count now (r ∷ table) h =
    ground (arith, row_hits-add_cache_hits j key count now table)

-- A write keeps the record's key, and the sum, whether it works or not.
abbrev pub Keeps : ℕ → ℕ → HitState → Type 0
Keeps j total s = (has_key j s.table ≡ true) × (hits j s ≡ total)

write_hits-Keeps :
    (works : Bool) (j key count now : ℕ) (table : Table) (pending : Pending)
    → has_key j table ≡ true
    → row_hits j table + pending_of j pending + at key j count ≤ i64_max
    → Keeps j
        (row_hits j table + pending_of j pending + at key j count)
        (write_hits works key count now table pending).0
write_hits-Keeps true j key count now table pending h small = (
  has_key-add_cache_hits j key count now table ∙ h,
  ground (arith, row_hits-add_cache_hits j key count now table),
)
write_hits-Keeps false j key count now table pending h small = (
  h,
  ground
      (arith, pending_of-put_pending j key (saturating_add (pending_of key pending) count) pending),
)

record_hit-Keeps :
    (works : ℕ → Bool) (j now key : ℕ) (s : HitState)
    → has_key j s.table ≡ true
    → hits j s + at key j 1 ≤ i64_max
    → Keeps j (hits j s + at key j 1) (record_hit works now key s).0
unfolding record_hit
record_hit-Keeps works j now key s h small =
    let count = saturating_add (pending_of key s.pending) 1 in
    let written =
      write_hits-Keeps (works key) j key count now s.table (put_pending key 0 s.pending) h in
    elim (Bool-cases (leb flush_threshold count)) [
      | inl e ↦ rw e (elim (Bool-cases (key == j)) [
        | inl same ↦
            let (kept, sum) = written (ground (arith, pending_of-put_pending j key 0 s.pending)) in
            (kept, ground (arith, pending_of-put_pending j key 0 s.pending, sum))
        | inr other ↦
            let (kept, sum) = written (ground (arith, pending_of-put_pending j key 0 s.pending)) in
            (kept, ground (arith, pending_of-put_pending j key 0 s.pending, sum))
      ])
      | inr e ↦ rw e (h, ground (arith, pending_of-put_pending j key count s.pending))
    ]

flush_next-Keeps :
    (j total : ℕ) (next : HitState → HitState × ApiResult (Unit {0}))
    (r : HitState × ApiResult (Unit {0}))
    → Keeps j total r.0
    → ((s : HitState) → Keeps j total s → Keeps j total (next s).0)
    → Keeps j total (flush_next next r).0
flush_next-Keeps j total next (s, ok done) k later = later s k
flush_next-Keeps j total next (s, err error) k later = k

pub flush_keys-Keeps :
    (works : ℕ → Bool) (j now total : ℕ) (keys : List ℕ) (s : HitState)
    → total ≤ i64_max
    → Keeps j total s
    → Keeps j total (flush_keys works now keys s).0
unfolding flush_keys
flush_keys-Keeps works j now total [] s small k = k
flush_keys-Keeps works j now total (key ∷ keys) s small (h, sum) =
    let count = pending_of key s.pending in
    let rest = discard_pending key s.pending in
    let removed = pending_of-discard_pending j key s.pending in
    let same : row_hits j s.table + pending_of j rest + at key j count ≡ total = ground arith in
    elim (Bool-cases (ltb 0 count)) [
      | inl e ↦
          let (kept, written) =
            write_hits-Keeps (works key) j key count now s.table rest h (omega arith) in
          rw e (
            flush_next-Keeps j total (flush_keys works now keys)
              (write_hits (works key) key count now s.table rest) (kept, written ∙ same)
              (λ t k. flush_keys-Keeps works j now total keys t small k))
      | inr e ↦
          let empty : at key j count ≡ 0 = ground arith in
          rw e (
            flush_keys-Keeps works j now total keys (record s { pending = rest }) small
              (h, omega arith))
    ]

-- How often a history hits a key.
abbrev pub hits_in : ℕ → List HitStep → ℕ
hits_in j [] = 0
hits_in j (hit works now key ∷ steps) = at key j 1 + hits_in j steps
hits_in j (flush works now ∷ steps) = hits_in j steps

-- No hit is lost or counted twice: over any history of hits and flushes, whichever writes to the
-- database fail, the hits of a cached object in the table and in memory together grow by just the
-- hits of the history. The object stays in the table, and its hits do not reach 2^63.
pub run_hits_lem :
    (j : ℕ) (steps : List HitStep) (s : HitState)
    → has_key j s.table ≡ true
    → hits j s + hits_in j steps ≤ i64_max
    → hits j (run_hits steps s) ≡ hits j s + hits_in j steps
unfolding run_hits hit_step flush_hits
run_hits_lem j [] s h small = omega arith
run_hits_lem j (hit works now key ∷ steps) s h small =
    let (kept, sum) = record_hit-Keeps works j now key s h (omega arith) in
    let rest = run_hits_lem j steps (record_hit works now key s).0 kept (omega arith) in omega arith
run_hits_lem j (flush works now ∷ steps) s h small =
    let (kept, sum) =
      flush_keys-Keeps works j now (hits j s) (keys_to_flush s.pending) s (omega arith) (h, refl) in
    let rest = run_hits_lem j steps (flush_hits works now s).0 kept (omega arith) in omega arith
