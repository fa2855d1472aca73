-- ===== src/Cache/Admit.antt =====
-- `admit` of src/cache.rs, as far as the index goes.
use donkey.Base.{
  ==_self, some-inj, ℕ, ◌+◌, ◌≤◌, ◌≡◌, refl, ap, subst, sym, ◌∙◌, inl, inr, Bool, true, false,
  Option, none, some, List, [], ◌∷◌, any, arith, Bool-cases, ==_iff, ◌==◌, ◌||◌, u64_max, ok, err,
}
use donkey.Error.{ApiResult}
use donkey.Cache.{CacheRecord, Table, CacheRuntimeConfig, total, find_record, insert_record}
use donkey.Cache.Table.{has_key, Unique}
use donkey.Cache.Hits.{HitState, flush_hits, i64_max}
use donkey.Cache.Counted.{row_hits, hits}
use donkey.Cache.Agree.{size_of}
use donkey.Cache.Flush.{flush_hits-Flushed, flush_hits-Keeps}
use donkey.Cache.Evict.{Selects}
use donkey.Cache.Reservation.{is_safe, admit, index}
use donkey.Cache.Reserve.{
  Reserved, Steps, too_large, not_flushed, made, reserve_capacity_locked-Steps,
}

total-insert-le :
    (new : CacheRecord) (table : Table)
    → total (insert_record new table) ≤ total table + new.size_bytes
unfolding total insert_record
total-insert-le new [] = omega arith
total-insert-le new (r ∷ table) = ground (arith, total-insert-le new table)

find_record-insert :
    (new : CacheRecord) (key : ℕ) (table : Table)
    → (new.key == key) ≡ false
    → find_record key (insert_record new table) ≡ find_record key table
unfolding find_record insert_record
find_record-insert new key [] ne = rw ne refl
find_record-insert new key (r ∷ table) ne = ground (arith, find_record-insert new key table)

-- The record of the object: its new size and time.
abbrev Indexed : CacheRecord → Table → Type 0
Indexed new table =
    (r : CacheRecord) × (find_record new.key table ≡ some r)
    × (r.size_bytes ≡ new.size_bytes)
    × (r.last_accessed_at ≡ new.last_accessed_at)

insert-Indexed : (new : CacheRecord) (table : Table) → Indexed new (insert_record new table)
unfolding find_record insert_record
insert-Indexed new [] = (new, rw (==_self new.key) refl, refl, refl)
insert-Indexed new (r ∷ table) = elim (Bool-cases (r.key == new.key)) [
  | inl hit ↦ rw hit (record new { hit_count = r.hit_count }, rw (==_self new.key) refl, refl, refl)
  | inr miss ↦
      let (x, found, size, at) = insert-Indexed new table in rw miss (x, rw miss found, size, at)
]

-- An insertion changes nobody's hits.
row_hits-insert :
    (new : CacheRecord) (key : ℕ) (table : Table)
    → new.hit_count ≡ 0
    → row_hits key (insert_record new table) ≡ row_hits key table
unfolding row_hits insert_record
row_hits-insert new key [] zero_hits = ground arith
row_hits-insert new key (r ∷ table) zero_hits = ground (arith, row_hits-insert new key table)

abbrev hits_of : Option CacheRecord → ℕ
hits_of none = 0
hits_of (some r) = r.hit_count

row_hits_lem : (key : ℕ) (table : Table) → row_hits key table ≡ hits_of (find_record key table)
unfolding row_hits find_record
row_hits_lem key [] = refl
row_hits_lem key (r ∷ table) = ground (arith, row_hits_lem key table)

has_key-insert :
    (new : CacheRecord) (key : ℕ) (table : Table)
    → (new.key == key) ≡ false
    → has_key key table ≡ false
    → has_key key (insert_record new table) ≡ false
unfolding insert_record
has_key-insert new key [] ne h = ground arith
has_key-insert new key (r ∷ table) ne h = ground (arith, has_key-insert new key table)

Unique-insert :
    (new : CacheRecord) (table : Table) → Unique table → Unique (insert_record new table)
unfolding insert_record
Unique-insert new [] u = (refl, tt)
Unique-insert new (r ∷ table) (here, u) = elim (Bool-cases (r.key == new.key)) [
  | inl hit ↦ let k = (==_iff r.key new.key).0 hit in rw hit (rw k at here, u)
  | inr miss ↦
      rw miss (has_key-insert new r.key table (ground arith) here, Unique-insert new table u)
]

module _ (works : ℕ → Bool) (flights : List ℕ) (runtime : CacheRuntimeConfig) (s : HitState)
    (incoming key now : ℕ) where
  -- No hit of an object that has to stay is lost.
  abbrev pub KeepsHits : HitState → Type 0
  KeepsHits after =
      (other : ℕ)
      → is_safe key flights other ≡ true
      → has_key other s.table ≡ true
      → hits other s ≤ i64_max
      → hits other after ≡ hits other s

  -- What a reservation, and then an admission, leaves behind.
  record Kept (after : HitState) : Type 0 where
    pub unique : Unique after.table
    pub sum : total after.table ≤ total s.table
    pub sizes :
        (other : ℕ)
        → is_safe key flights other ≡ true
        → size_of (find_record other after.table) ≡ size_of (find_record other s.table)
    pub counted : KeepsHits after

  Steps-Kept :
      (after : HitState) (answer : ApiResult (Unit {0}))
      → Unique s.table
      → Steps works flights runtime s incoming key now after answer
      → Kept after
  Steps-Kept after answer u too_large = record {
    unique = u;
    sum = omega arith;
    sizes = λ other safe. refl;
    counted = λ other safe there small. refl;
  }
  Steps-Kept after answer u not_flushed =
      let f = flush_hits-Flushed works now s u in
      record {
        unique = f.unique;
        sum = let e = f.sum in omega arith;
        sizes = λ other safe. f.sizes other;
        counted = λ other safe there small. (flush_hits-Keeps works now other s there small).1;
      }
  Steps-Kept after answer u (made fits r) =
      let f = flush_hits-Flushed works now s u in
      record {
        unique = r.unique;
        sum = let e = f.sum in let le = r.shrinks in omega arith;
        sizes = λ other safe. ap size_of (r.kept other safe).0 ∙ f.sizes other;
        counted = λ other safe there small.
            let flushed = (flush_hits works now s).0 in
            let (row, buffer) = r.kept other safe in
            let same : row_hits other after.table ≡ row_hits other flushed.table =
              row_hits_lem other after.table
              ∙ ap hits_of row
              ∙ sym (row_hits_lem other flushed.table) in
            let kept = (flush_hits-Keeps works now other s there small).1 in omega arith;
      }

  abbrev new_record : CacheRecord
  new_record = record { key = key; size_bytes = incoming; hit_count = 0; last_accessed_at = now }

  abbrev Fit : ApiResult (Unit {0}) → HitState → Type 0
  Fit (err error) after = Unit
  Fit (ok done) after =
      (total after.table ≤ runtime.max_cache_bytes) × Indexed new_record after.table

  record Admitted (after : HitState) (answer : ApiResult (Unit {0})) : Type 0 where
    pub unique : Unique after.table
    pub in_flight :
        (other : ℕ)
        → any (λ k. k == other) flights ≡ true
        → (key == other) ≡ false
        → size_of (find_record other after.table) ≡ size_of (find_record other s.table)
    pub counted : KeepsHits after
    pub fits : Fit answer after

  made_room :
      (after : HitState)
      → Steps works flights runtime s incoming key now after (ok tt)
      → (incoming ≤ runtime.max_cache_bytes)
        × Reserved flights runtime incoming key (flush_hits works now s).0 after (ok tt)
  made_room after (made fits r) = (fits, r)

  index-Admitted :
      (after : HitState) (answer : ApiResult (Unit {0}))
      → Unique s.table
      → runtime.high ≤ runtime.max_cache_bytes
      → runtime.low ≤ runtime.max_cache_bytes
      → Steps works flights runtime s incoming key now after answer
      → (last : HitState) × (reply : ApiResult (Unit {0})) × (index new_record
            (some (after, answer))
          ≡ some (last, reply))
        × Admitted last reply
  index-Admitted after (err error) u high low steps =
      let k = Steps-Kept after (err error) u steps in
      (
        after,
        err error,
        refl,
        record {
          unique = k.unique;
          in_flight = λ other f ne. k.sizes other (ground arith);
          counted = k.counted;
          fits = tt;
        },
      )
  index-Admitted after (ok done) u high low steps =
      let k = Steps-Kept after (ok tt) u steps in
      let (small, r) = made_room after steps in
      let grown = total-insert-le new_record after.table in
      let room = r.room refl in
      (
        record after { table = insert_record new_record after.table },
        ok tt,
        refl,
        record {
          unique = Unique-insert new_record after.table k.unique;
          in_flight = λ other f ne.
              ap size_of (find_record-insert new_record other after.table ne)
              ∙ k.sizes other (ground arith);
          counted = λ other safe there le.
              let same = row_hits-insert new_record other after.table refl in
              let kept = k.counted other safe there le in omega arith;
          fits = (omega arith, insert-Indexed new_record after.table);
        },
      )

module _ (candidates : Table → Table) (works : ℕ → Bool) (flights : List ℕ)
    (runtime : CacheRuntimeConfig) (s : HitState) (incoming key now : ℕ) (rows : Selects candidates)
    (u : Unique s.table) (small : total s.table + incoming ≤ u64_max)
    (high : runtime.high ≤ runtime.max_cache_bytes)
    (low : runtime.low ≤ runtime.max_cache_bytes) where
  admit_lem :
      (after : HitState) × (answer : ApiResult (Unit {0})) × (admit candidates works flights runtime
          s incoming key now
        ≡ some (after, answer))
      × Admitted works flights runtime s incoming key now after answer
  unfolding admit
  admit_lem =
      let (after, answer, run, steps) =
        reserve_capacity_locked-Steps candidates works flights runtime s incoming key now rows u
          small in
      let (last, reply, e, a) =
        index-Admitted works flights runtime s incoming key now after answer u high low steps in
      (
        last,
        reply,
        ap
              (index (record {
                key = key;
                size_bytes = incoming;
                hit_count = 0;
                last_accessed_at = now;
              }))
              run
            ∙ e,
        a,
      )

  -- The one outcome of an admission.
  admit-Admitted :
      (after : HitState) (answer : ApiResult (Unit {0}))
      → admit candidates works flights runtime s incoming key now ≡ some (after, answer)
      → Admitted works flights runtime s incoming key now after answer
  admit-Admitted after answer h =
      let (after', answer', run, a) = admit_lem in
      let e = some-inj (sym run ∙ h) in
      subst
        (λ (p : HitState × ApiResult (Unit {0})).
          Admitted works flights runtime s incoming key now p.0 p.1)
        e a

  -- An admission ends, whether the writes of hits work or not and whatever is in flight: if the
  -- records that are offered for eviction are rows of the table, each once, no key stands twice in
  -- it, its sizes and the object's together fit 64 bits, and the watermarks are at most the
  -- configured size.
  pub admit_total :
      (after : HitState) × (answer : ApiResult (Unit {0})) × (admit candidates works flights runtime
          s incoming key now
        ≡ some (after, answer))
  admit_total = let (after, answer, run, a) = admit_lem in (after, answer, run)

  -- After a successful admission all the records together fit the configured size, no key stands
  -- twice, and the object is found under its key, with its new size and time. The records that are
  -- offered for eviction are rows of the table, each once, no key stands twice in it, its sizes and
  -- the object's together fit 64 bits, and the watermarks are at most the configured size.
  pub admit-fits :
      (after : HitState)
      → admit candidates works flights runtime s incoming key now ≡ some (after, ok tt)
      → (total after.table ≤ runtime.max_cache_bytes)
        × Unique after.table
        × ((r : CacheRecord) × (find_record key after.table ≡ some r)
            × (r.size_bytes ≡ incoming)
            × (r.last_accessed_at ≡ now))
  admit-fits after h = let a = admit-Admitted after (ok tt) h in (a.fits.0, a.unique, a.fits.1)

  -- Whatever an admission answers, every other object in flight has a record if it had one, with
  -- the size that it had. The records that are offered for eviction are rows of the table, each
  -- once, no key stands twice in it, its sizes and the object's together fit 64 bits, and the
  -- watermarks are at most the configured size.
  pub admit-in_flight :
      (after : HitState) (answer : ApiResult (Unit {0})) (other : ℕ)
      → admit candidates works flights runtime s incoming key now ≡ some (after, answer)
      → any (λ k. k == other) flights ≡ true
      → (key == other) ≡ false
      → size_of (find_record other after.table) ≡ size_of (find_record other s.table)
  admit-in_flight after answer other h f ne = (admit-Admitted after answer h).in_flight other f ne

  -- Whatever an admission answers, and whichever writes fail, no hit is lost of an object that has
  -- a record and is in flight or admitted again: its hits in the table and in memory together stay,
  -- while they do not reach 2^63. The records that are offered for eviction are rows of the table,
  -- each once, no key stands twice in it, its sizes and the object's together fit 64 bits, and the
  -- watermarks are at most the configured size.
  pub admit-hits :
      (after : HitState) (answer : ApiResult (Unit {0})) (other : ℕ)
      → admit candidates works flights runtime s incoming key now ≡ some (after, answer)
      → ((other == key) || any (λ k. k == other) flights) ≡ true
      → has_key other s.table ≡ true
      → hits other s ≤ i64_max
      → hits other after ≡ hits other s
  admit-hits after answer other h safe there le =
      (admit-Admitted after answer h).counted other safe there le
