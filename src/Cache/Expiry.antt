-- ===== src/Cache/Expiry.antt =====
-- Which objects `cleanup_expired` of src/cache.rs spares, and that it ends.

use donkey.Base.{
  ℕ, zero, suc, ◌≤◌, ◌<◌, Bool, true, false, some, List, [], ◌∷◌, length, ◌==◌, ==_iff, ◌≡◌, refl,
  sym, ap, ◌∙◌, subst, inl, inr, ◌⊎◌, All, Bool-cases, arith, saturating_add, some-inj,
}
use donkey.Cache.{CacheRecord, Table, find_record}
use donkey.Cache.Table.{
  Unique, find_record-delete_record, Unique-delete_record, length-delete_record,
}
use donkey.Cache.Evict.{IsBatch, Selects, All-found}
use donkey.Cache.Objects.{CacheState, remove, in_flight}
use donkey.Cache.Expire.{expire_batch, expire_loop, is_none_left}

-- The query for expired records: rows of the table, each once, all of them older than the time.
pub record Queries (expired : ℕ → Table → Table) : Type 0 where
  pub selects : (cutoff : ℕ) → Selects (expired cutoff)
  pub old :
      (cutoff : ℕ) (table : Table) → All (λ r. r.last_accessed_at < cutoff) (expired cutoff table)

-- The record of a key stays if it is in flight or was accessed since the cutoff.
abbrev IsSpared : List ℕ → ℕ → CacheRecord → Type 0
IsSpared flights cutoff r = (in_flight flights r.key ≡ true) ⊎ (cutoff ≤ r.last_accessed_at)

module _ (flights : List ℕ) (cutoff : ℕ) (key : ℕ) (mine : CacheRecord) (named : mine.key ≡ key)
    (spared : IsSpared flights cutoff mine) where
  -- A record that is removed is another one.
  other_key :
      (r : CacheRecord) (table : Table)
      → find_record key table ≡ some mine
      → find_record r.key table ≡ some r
      → in_flight flights r.key ≡ false
      → r.last_accessed_at < cutoff
      → (r.key == key) ≡ false
  other_key r table here found idle old = elim (Bool-cases (r.key == key)) [
    | inr ne ↦ ne
    | inl same ↦ absurd (
        let e : r.key ≡ key = (==_iff r.key key).0 same in
        let twin : r ≡ mine = some-inj (sym found ∙ ap (λ k. find_record k table) e ∙ here) in
        elim spared [
          | inl flying ↦
              let q = subst (λ (x : CacheRecord). in_flight flights x.key ≡ false) twin idle in cc
          | inr recent ↦
              let q = subst (λ (x : CacheRecord). x.last_accessed_at < cutoff) twin old in
              omega arith
        ])
  ]

  expire_batch-spares :
      (batch : Table) (s : CacheState) (freed : ℕ) (removed : Bool)
      → Unique s.table
      → IsBatch batch s.table
      → All (λ r. r.last_accessed_at < cutoff) batch
      → find_record key s.table ≡ some mine
      → find_record key (expire_batch flights batch s freed removed).0.table ≡ some mine
  unfolding expire_batch remove
  expire_batch-spares [] s freed removed u b old here = here
  expire_batch-spares (r ∷ batch) s freed removed u ((fresh, distinct), (now, later)) (o, old)
        here =
      elim (Bool-cases (in_flight flights r.key)) [
        | inl e ↦ rw e (expire_batch-spares batch s freed removed u (distinct, later) old here)
        | inr e ↦
            let apart = other_key r s.table here now e o in
            rw e (
              expire_batch-spares batch (remove r.key s) (saturating_add freed r.size_bytes) true
                (Unique-delete_record r.key s.table u)
                (distinct, All-found r.key batch s.table fresh later) old
                (find_record-delete_record r.key key s.table apart ∙ here))
      ]

-- A batch leaves the table in order, and shorter if it removes a record.
expire_batch-shrinks :
    (flights : List ℕ) (batch : Table) (s : CacheState) (freed : ℕ) (removed : Bool)
    → Unique s.table
    → IsBatch batch s.table
    → let (t, freed', removed') = expire_batch flights batch s freed removed in
      Unique t.table
      × ((removed' ≡ removed) ⊎ (length t.table < length s.table))
      × (length t.table ≤ length s.table)
unfolding expire_batch remove
expire_batch-shrinks flights [] s freed removed u b = (u, inl refl, omega arith)
expire_batch-shrinks flights (r ∷ batch) s freed removed u ((fresh, distinct), (now, later)) =
    elim (Bool-cases (in_flight flights r.key)) [
      | inl e ↦ rw e (expire_batch-shrinks flights batch s freed removed u (distinct, later))
      | inr e ↦
          let shorter = length-delete_record r.key s.table r now in
          let (u', _, le) =
            expire_batch-shrinks flights batch (remove r.key s) (saturating_add freed r.size_bytes)
              true (Unique-delete_record r.key s.table u)
              (distinct, All-found r.key batch s.table fresh later) in
          rw e (u', inr (omega arith), omega arith)
    ]

-- Every record that must stay does.
abbrev pub Spares : List ℕ → ℕ → Table → Table → Type 0
Spares flights cutoff before after =
    (key : ℕ) (mine : CacheRecord)
    → mine.key ≡ key
    → IsSpared flights cutoff mine
    → find_record key before ≡ some mine
    → find_record key after ≡ some mine

-- With one round more than there are records the loop ends.
pub expire_loop-Spares :
    (expired : ℕ → Table → Table) (flights : List ℕ) (cutoff fuel : ℕ) (s : CacheState) (freed : ℕ)
    → Queries expired
    → Unique s.table
    → length s.table < fuel
    → (t : CacheState) × (freed' : ℕ) × (expire_loop (expired cutoff) flights fuel s freed
        ≡ some (t, freed'))
      × Spares flights cutoff s.table t.table
unfolding expire_loop
expire_loop-Spares expired flights cutoff zero s freed q u fuel = absurd (omega arith)
expire_loop-Spares expired flights cutoff (suc n) s freed q u fuel =
    let batch = expired cutoff s.table in
    let selected = (q.selects cutoff).batch s.table u in
    let step = expire_batch flights batch s freed false in
    let (u', flag, le) = expire_batch-shrinks flights batch s freed false u selected in
    let one : Spares flights cutoff s.table step.0.table = λ key mine named spared here.
      expire_batch-spares flights cutoff key mine named spared batch s freed false u selected
        (q.old cutoff s.table) here in
    elim (Bool-cases (is_none_left batch)) [
      | inl e ↦ (s, freed, rw e refl, λ key mine named spared here. here)
      | inr e ↦ elim (Bool-cases step.2) [
        | inr stuck ↦ (step.0, step.1, rw (e, stuck) refl, one)
        | inl again ↦
            let shorter : length step.0.table < length s.table = elim flag [
              | inl f ↦ absurd (let no : true ≡ false = sym again ∙ f in cc)
              | inr l ↦ l
            ] in
            let (t, freed', run, rest) =
              expire_loop-Spares expired flights cutoff n step.0 step.1 q u' (omega arith) in
            (
              t,
              freed',
              rw (e, again) run,
              λ key mine named spared here.
                  rest key mine named spared (one key mine named spared here),
            )
      ]
    ]
