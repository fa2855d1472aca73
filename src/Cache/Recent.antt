-- ===== src/Cache/Recent.antt =====
-- Objects with buffered hits are recent: the flush at the start of `cleanup_expired` in
-- src/cache.rs.

use donkey.Base.{
  lt→ltb, ℕ, ◌≤◌, ◌<◌, Bool, true, false, some, List, [], ◌∷◌, any, ltb, ◌==◌, ==_iff,
  if◌then◌else◌, ◌≡◌, refl, sym, ap, ◌∙◌, subst, inl, inr, Bool-cases, arith, ok, err, some-inj,
}
use donkey.Error.{ApiResult}
use donkey.Cache.{CacheRecord, Table, find_record}
use donkey.Cache.Hits.{
  HitState, Pending, pending_of, discard_pending, counted, add_cache_hits, write_hits,
  keys_to_flush, flush_next, flush_keys,
}
use donkey.Cache.Counted.{pending_of-discard_pending}

-- A key's record, accessed since the cutoff.
abbrev pub IsFresh : ℕ → ℕ → Table → Type 0
IsFresh cutoff key table =
    (r : CacheRecord) × (find_record key table ≡ some r) × (cutoff ≤ r.last_accessed_at)

find_record-counted :
    (j key count now : ℕ) (table : Table) (r : CacheRecord)
    → find_record j table ≡ some r
    → find_record j (add_cache_hits key count now table)
      ≡ some (if key == j then counted count now r else r)
unfolding find_record add_cache_hits
find_record-counted j key count now [] r h = cc
find_record-counted j key count now (x ∷ table) r h = elim (Bool-cases (x.key == key)) [
  | inl q ↦ elim (Bool-cases (x.key == j)) [
    | inl e ↦
        let same : x ≡ r = some-inj (rw e at h) in
        let mine : (key == j) ≡ true = ground arith in
        rw (q, e, mine) (ap (λ y. some (counted count now y)) same)
    | inr e ↦ rw (q, e) (find_record-counted j key count now table r (rw e at h))
  ]
  | inr q ↦ elim (Bool-cases (x.key == j)) [
    | inl e ↦
        let same : x ≡ r = some-inj (rw e at h) in
        let other : (key == j) ≡ false = ground arith in rw (q, e, other) (ap some same)
    | inr e ↦ rw (q, e) (find_record-counted j key count now table r (rw e at h))
  ]
]

counted-IsFresh :
    (cutoff j key count now : ℕ) (table : Table)
    → cutoff ≤ now
    → IsFresh cutoff j table
    → IsFresh cutoff j (add_cache_hits key count now table)
counted-IsFresh cutoff j key count now table le (r, here, recent) = (
  (if key == j then counted count now r else r),
  find_record-counted j key count now table r here,
  ground arith,
)

-- A record that gets its hits is fresh.
hit-IsFresh :
    (cutoff key count now : ℕ) (table : Table) (r : CacheRecord)
    → cutoff ≤ now
    → find_record key table ≡ some r
    → IsFresh cutoff key (add_cache_hits key count now table)
hit-IsFresh cutoff key count now table r le here = (
  (if key == key then counted count now r else r),
  find_record-counted key key count now table r here,
  ground arith,
)

flush_next-IsFresh :
    (cutoff j : ℕ) (next : HitState → HitState × ApiResult (Unit {0}))
    (r : HitState × ApiResult (Unit {0}))
    → IsFresh cutoff j r.0.table
    → ((s : HitState) → IsFresh cutoff j s.table → IsFresh cutoff j (next s).0.table)
    → IsFresh cutoff j (flush_next next r).0.table
flush_next-IsFresh cutoff j next (s, ok done) f later = later s f
flush_next-IsFresh cutoff j next (s, err error) f later = f

write_hits-IsFresh :
    (works : Bool) (cutoff j key count now : ℕ) (table : Table) (pending : Pending)
    → cutoff ≤ now
    → IsFresh cutoff j table
    → IsFresh cutoff j (write_hits works key count now table pending).0.table
write_hits-IsFresh true cutoff j key count now table pending le f =
    counted-IsFresh cutoff j key count now table le f
write_hits-IsFresh false cutoff j key count now table pending le f = f

pub flush_keys-IsFresh :
    (works : ℕ → Bool) (cutoff j now : ℕ) (keys : List ℕ) (s : HitState)
    → cutoff ≤ now
    → IsFresh cutoff j s.table
    → IsFresh cutoff j (flush_keys works now keys s).0.table
unfolding flush_keys
flush_keys-IsFresh works cutoff j now [] s le f = f
flush_keys-IsFresh works cutoff j now (key ∷ keys) s le f =
    let count = pending_of key s.pending in
    let rest = discard_pending key s.pending in
    elim (Bool-cases (ltb 0 count)) [
      | inl e ↦ rw e (
          flush_next-IsFresh cutoff j (flush_keys works now keys)
            (write_hits (works key) key count now s.table rest)
            (write_hits-IsFresh (works key) cutoff j key count now s.table rest le f)
            (λ t g. flush_keys-IsFresh works cutoff j now keys t le g))
      | inr e ↦ rw e (flush_keys-IsFresh works cutoff j now keys (record s { pending = rest }) le f)
    ]

abbrev pub has : ℕ → List ℕ → Bool
has key = any (λ k. k == key)

pub keys_to_flush-has :
    (key : ℕ) (pending : Pending)
    → 0 < pending_of key pending
    → has key (keys_to_flush pending) ≡ true
unfolding pending_of keys_to_flush
keys_to_flush-has key [] p = absurd (omega arith)
keys_to_flush-has key ((k, n) ∷ pending) p = ground (arith, keys_to_flush-has key pending)

-- Where all writes work, a buffered key's record is fresh after the flush.
pub flushed-IsFresh :
    (works : ℕ → Bool) (cutoff j now : ℕ) (keys : List ℕ) (s : HitState) (r : CacheRecord)
    → cutoff ≤ now
    → ((k : ℕ) → works k ≡ true)
    → has j keys ≡ true
    → 0 < pending_of j s.pending
    → find_record j s.table ≡ some r
    → IsFresh cutoff j (flush_keys works now keys s).0.table
unfolding flush_keys
flushed-IsFresh works cutoff j now [] s r le all_work h p here = cc
flushed-IsFresh works cutoff j now (key ∷ keys) s r le all_work h p here =
    let count = pending_of key s.pending in
    let rest = discard_pending key s.pending in
    let gone = pending_of-discard_pending j key s.pending in
    elim (Bool-cases (key == j)) [
      | inl e ↦
          let mine : key ≡ j = (==_iff key j).0 e in
          let some_hits : ltb 0 count ≡ true = rw mine (lt→ltb 0 (pending_of j s.pending) p) in
          rw (some_hits, all_work key)
            (flush_keys-IsFresh works cutoff j now keys
              (record { table = add_cache_hits key count now s.table; pending = rest }) le
              (subst (λ k. IsFresh cutoff j (add_cache_hits k count now s.table)) (sym mine)
                (hit-IsFresh cutoff j count now s.table r le here)))
      | inr e ↦
          let later : has j keys ≡ true = rw e at h in
          let left : 0 < pending_of j rest = ground arith in
          elim (Bool-cases (ltb 0 count)) [
            | inl busy ↦
                let kept = find_record-counted j key count now s.table r here in
                rw (busy, all_work key)
                  (flushed-IsFresh works cutoff j now keys
                    (record { table = add_cache_hits key count now s.table; pending = rest }) r le
                    all_work later left (kept ∙ rw e refl))
            | inr empty ↦ rw empty (
                flushed-IsFresh works cutoff j now keys (record s { pending = rest }) r le all_work
                  later left here)
          ]
    ]
