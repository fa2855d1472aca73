-- ===== src/Cache/Flush.antt =====
-- What a flush of buffered hits in src/cache/repository.rs leaves alone: keys, sizes and their sum.
use donkey.Base.{
  ℕ, ◌≤◌, ◌≡◌, refl, ◌∙◌, inl, inr, Bool, true, false, List, [], ◌∷◌, ltb, Bool-cases, arith, ok,
  err,
}
use donkey.Error.{ApiResult}
use donkey.Cache.{Table, total, find_record}
use donkey.Cache.Table.{has_key, Unique}
use donkey.Cache.Hits.{
  HitState, Pending, pending_of, discard_pending, add_cache_hits, write_hits, keys_to_flush,
  flush_next, flush_keys, flush_hits, i64_max,
}
use donkey.Cache.Counted.{hits, Keeps, flush_keys-Keeps}
use donkey.Cache.Agree.{size_of}
use donkey.Cache.Served.{Unique-add_cache_hits, size_of-add_cache_hits}

module _ (P : Table → Type 0)
    (counts : (key count now : ℕ) (table : Table)
      → P table
      → P (add_cache_hits key count now table)) where
  write_hits-holds :
      (works : Bool) (key count now : ℕ) (table : Table) (pending : Pending)
      → P table
      → P (write_hits works key count now table pending).0.table
  write_hits-holds true key count now table pending h = counts key count now table h
  write_hits-holds false key count now table pending h = h

  flush_next-holds :
      (next : HitState → HitState × ApiResult (Unit {0})) (r : HitState × ApiResult (Unit {0}))
      → P r.0.table
      → ((s : HitState) → P s.table → P (next s).0.table)
      → P (flush_next next r).0.table
  flush_next-holds next (s, ok done) h later = later s h
  flush_next-holds next (s, err error) h later = h

  flush_keys-holds :
      (works : ℕ → Bool) (now : ℕ) (keys : List ℕ) (s : HitState)
      → P s.table
      → P (flush_keys works now keys s).0.table
  unfolding flush_keys
  flush_keys-holds works now [] s h = h
  flush_keys-holds works now (key ∷ keys) s h =
      let count = pending_of key s.pending in
      let rest = discard_pending key s.pending in
      elim (Bool-cases (ltb 0 count)) [
        | inl e ↦ rw e (
            flush_next-holds (flush_keys works now keys)
              (write_hits (works key) key count now s.table rest)
              (write_hits-holds (works key) key count now s.table rest h)
              (λ t k. flush_keys-holds works now keys t k))
        | inr e ↦ rw e (flush_keys-holds works now keys (record s { pending = rest }) h)
      ]

total-add_cache_hits :
    (key count now : ℕ) (table : Table) → total (add_cache_hits key count now table) ≡ total table
unfolding total add_cache_hits
total-add_cache_hits key count now [] = refl
total-add_cache_hits key count now (r ∷ table) =
    ground (arith, total-add_cache_hits key count now table)

-- A flush leaves the same keys with the same sizes.
pub record Flushed (before after : HitState) : Type 0 where
  pub unique : Unique after.table
  pub sum : total after.table ≡ total before.table
  pub sizes :
      (key : ℕ) → size_of (find_record key after.table) ≡ size_of (find_record key before.table)

pub flush_hits-Flushed :
    (works : ℕ → Bool) (now : ℕ) (s : HitState)
    → Unique s.table
    → Flushed s (flush_hits works now s).0
unfolding flush_hits
flush_hits-Flushed works now s u =
    let keys = keys_to_flush s.pending in
    record {
      unique = flush_keys-holds Unique Unique-add_cache_hits works now keys s u;
      sum =
          flush_keys-holds (λ t. total t ≡ total s.table)
            (λ key count at t h. total-add_cache_hits key count at t ∙ h) works now keys s refl;
      sizes = λ j.
          flush_keys-holds (λ t. size_of (find_record j t) ≡ size_of (find_record j s.table))
            (λ key count at t h. size_of-add_cache_hits j key count at t ∙ h) works now keys s refl;
    }

pub flush_hits-Keeps :
    (works : ℕ → Bool) (now j : ℕ) (s : HitState)
    → has_key j s.table ≡ true
    → hits j s ≤ i64_max
    → Keeps j (hits j s) (flush_hits works now s).0
unfolding flush_hits
flush_hits-Keeps works now j s h small =
    flush_keys-Keeps works j now (hits j s) (keys_to_flush s.pending) s small (h, refl)
