-- ===== src/Cache/Evict.antt =====
-- The eviction loop of `reserve_capacity_locked` in src/cache.rs: what it counts as freed, which
-- records it leaves, and that it ends.
use donkey.Base.{
  ℕ, zero, suc, ◌+◌, ◌≤◌, ◌<◌, ◌≡◌, refl, sym, ◌∙◌, inl, inr, ◌⊎◌, Bool, true, false, some, [], ◌∷◌,
  length, All, leb, arith, Bool-cases, ==_iff, ◌==◌, saturating_add, u64_max,
}
use donkey.Cache.{CacheRecord, Table, total, find_record, delete_record}
use donkey.Cache.Hits.{HitState, pending_of}
use donkey.Cache.Counted.{pending_of-discard_pending}
use donkey.Cache.Reservation.{forget, evict_batch, evict_loop}
use donkey.Cache.Table.{
  has_key, Unique, total-delete_record, length-delete_record, find_record-delete_record,
  Unique-delete_record,
}

abbrev pub IsBatch : Table → Table → Type 0
IsBatch batch table = Unique batch × All (λ r. find_record r.key table ≡ some r) batch

-- What `SELECT … LIMIT` and a sort give: rows of the table, none of them twice.
pub record Selects (candidates : Table → Table) : Type 0 where
  pub batch : (table : Table) → Unique table → IsBatch (candidates table) table

-- Between two states exactly the freed bytes were removed, and no safe record and no hits of one.
pub record Evicted (safe : ℕ → Bool) (before after : HitState) (freed freed' : ℕ) : Type 0 where
  pub unique : Unique after.table
  pub sum : total after.table + freed' ≡ total before.table + freed
  pub kept :
      (key : ℕ) → safe key ≡ true → find_record key after.table ≡ find_record key before.table
  pub kept_hits :
      (key : ℕ) → safe key ≡ true → pending_of key after.pending ≡ pending_of key before.pending

Evicted-refl :
    (safe : ℕ → Bool) (s : HitState) (freed : ℕ) → Unique s.table → Evicted safe s s freed freed
Evicted-refl safe s freed u = record {
  unique = u;
  sum = refl;
  kept = λ key h. refl;
  kept_hits = λ key h. refl;
}

Evicted-trans :
    (safe : ℕ → Bool) (a b c : HitState) (i j k : ℕ)
    → Evicted safe a b i j
    → Evicted safe b c j k
    → Evicted safe a c i k
Evicted-trans safe a b c i j k x y = record {
  unique = y.unique;
  sum = let p = x.sum in let q = y.sum in omega arith;
  kept = λ key h. y.kept key h ∙ x.kept key h;
  kept_hits = λ key h. y.kept_hits key h ∙ x.kept_hits key h;
}

Evicted-delete :
    (safe : ℕ → Bool) (s : HitState) (freed : ℕ) (r : CacheRecord)
    → Unique s.table
    → find_record r.key s.table ≡ some r
    → total s.table + freed ≤ u64_max
    → safe r.key ≡ false
    → Evicted safe s (forget r.key s) freed (saturating_add freed r.size_bytes)
Evicted-delete safe s freed r u found small unsafe =
    let gone = total-delete_record r.key s.table r u found in
    let apart : (key : ℕ) → safe key ≡ true → (r.key == key) ≡ false = λ key h.
      elim (Bool-cases (r.key == key)) [
        | inr ne ↦ ne
        | inl same ↦ let k = (==_iff r.key key).0 same in let q = rw k at unsafe in cc
      ] in
    record {
      unique = Unique-delete_record r.key s.table u;
      sum = omega arith;
      kept = λ key h. find_record-delete_record r.key key s.table (apart key h);
      kept_hits = λ key h. pending_of-discard_pending key r.key s.pending ∙ rw (apart key h) refl;
    }

pub All-found :
    (key : ℕ) (batch table : Table)
    → has_key key batch ≡ false
    → All (λ r. find_record r.key table ≡ some r) batch
    → All (λ r. find_record r.key (delete_record key table) ≡ some r) batch
All-found key [] table h found = tt
All-found key (r ∷ batch) table h (now, later) = (
  find_record-delete_record key r.key table (ground arith) ∙ now,
  All-found key batch table (ground arith) later,
)

-- After a batch the table has either lost a record or the flag is as it was.
pub evict_batch-Evicted :
    (safe : ℕ → Bool) (need : ℕ) (batch : Table) (s : HitState) (freed : ℕ) (removed : Bool)
    → Unique s.table
    → IsBatch batch s.table
    → total s.table + freed ≤ u64_max
    → let (s', freed', removed') = evict_batch safe need batch s freed removed in
      Evicted safe s s' freed freed'
      × ((removed' ≡ removed) ⊎ (length s'.table < length s.table))
      × (length s'.table ≤ length s.table)
unfolding evict_batch
evict_batch-Evicted safe need [] s freed removed u b small =
    (Evicted-refl safe s freed u, inl refl, omega arith)
evict_batch-Evicted safe need (r ∷ batch) s freed removed u ((fresh, distinct), (now, later))
      small =
    elim (Bool-cases (safe r.key)) [
      | inl skip ↦
          rw skip (evict_batch-Evicted safe need batch s freed removed u (distinct, later) small)
      | inr evict ↦
          let freed' = saturating_add freed r.size_bytes in
          let s' = forget r.key s in
          let one = Evicted-delete safe s freed r u now small evict in
          let shorter = length-delete_record r.key s.table r now in
          elim (Bool-cases (leb need freed')) [
            | inl enough ↦ rw (evict, enough) (one, inr shorter, omega arith)
            | inr more ↦
                let sum = one.sum in
                let (rest, flag, le) =
                  evict_batch-Evicted safe need batch s' freed' true one.unique
                    (distinct, All-found r.key batch s.table fresh later) (omega arith) in
                rw (evict, more)
                  (
                    Evicted-trans safe s s' _ freed freed' _ one rest,
                    inr (omega arith),
                    omega arith,
                  )
          ]
    ]

-- With as much fuel as there are records, and one more, the loop ends; what it reports as freed was
-- removed, and every safe record is where it was.
pub evict_loop-Evicted :
    (candidates : Table → Table) (safe : ℕ → Bool) (need fuel : ℕ) (s : HitState) (freed : ℕ)
    → Selects candidates
    → Unique s.table
    → length s.table < fuel
    → total s.table + freed ≤ u64_max
    → (s' : HitState) × (freed' : ℕ) × (evict_loop candidates safe need fuel s freed
        ≡ some (s', freed'))
      × Evicted safe s s' freed freed'
unfolding evict_loop
evict_loop-Evicted candidates safe need zero s freed c u fuel small = absurd (omega arith)
evict_loop-Evicted candidates safe need (suc n) s freed c u fuel small =
    let step = evict_batch safe need (candidates s.table) s freed false in
    let (one, flag, le) =
      evict_batch-Evicted safe need (candidates s.table) s freed false u (c.batch s.table u)
        small in
    elim (Bool-cases (leb need freed)) [
      | inl done ↦ (s, freed, rw done refl, Evicted-refl safe s freed u)
      | inr more ↦ elim (Bool-cases step.2) [
        | inr stuck ↦ (step.0, step.1, rw (more, stuck) refl, one)
        | inl again ↦
            let sum = one.sum in
            let shorter : length step.0.table < length s.table = elim flag [
              | inl f ↦ absurd (let no : true ≡ false = sym again ∙ f in cc)
              | inr l ↦ l
            ] in
            let (s', freed', run, rest) =
              evict_loop-Evicted candidates safe need n step.0 step.1 c one.unique (omega arith)
                (omega arith) in
            (
              s',
              freed',
              rw (more, again) run,
              Evicted-trans safe s step.0 s' freed step.1 freed' one rest,
            )
      ]
    ]
