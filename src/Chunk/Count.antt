-- ===== src/Chunk/Count.antt =====
-- How many ranges `chunks` of src/scheduler.rs makes: the `num_chunks` that src/blob_planner.rs
-- announces, `size.div_ceil(chunk_size)`.
use native.Mathlib.Nat.{
  div_self, mod_self, div-eq-sub-div, div-eq_of_lt, mod-eq_of_lt, mod-eq-sub-mod, zero-mod,
  zero-div,
}
use donkey.Base.{
  ℕ, suc, ◌+◌, ◌-◌, ◌≤◌, ◌<◌, u64_mod, div_ceil, ◌≡◌, sym, ap, ◌∙◌, inl, inr, some, List, [], ◌∷◌,
  length, arith, lt_or_le,
}
use donkey.Chunk.{Chunk, chunks}
use donkey.Chunk.Cover.{Tiles, chunks-Tiles}

div_ceil_one : (t n : ℕ) → 0 < t → t ≤ n → div_ceil t n ≡ 1
div_ceil_one t n p h = elim (lt_or_le t n) [
  | inl lt ↦ ground (arith, div-eq_of_lt lt, mod-eq_of_lt lt)
  | inr ge ↦
      let same : t ≡ n = omega arith in
      rw same (ground (arith, mod_self n, div_self {n = n} (omega arith)))
]

div_ceil_step : (t n : ℕ) → 0 < n → n ≤ t → div_ceil t n ≡ suc (div_ceil (t - n) n)
div_ceil_step t n p h = ground (arith, div-eq-sub-div p h, mod-eq-sub-mod h)

div_ceil_zero : (n : ℕ) → div_ceil 0 n ≡ 0
div_ceil_zero n = ground (arith, zero-mod n, zero-div n)

-- From `start` on a tiling has as many chunks as the bytes left, divided by the size, rounded up.
Tiles-length :
    (total size index start : ℕ) (cs : List Chunk)
    → 0 < size
    → start ≤ total
    → Tiles total size index start cs
    → length cs ≡ div_ceil (total - start) size
Tiles-length total size index start [] p le e =
    let z : total - start ≡ 0 = omega arith in rw z (sym (div_ceil_zero size))
Tiles-length total size index start (c ∷ cs) p le (_, _, lt, fin, _, tiles) =
    let ih = Tiles-length total size (suc index) (c.end + 1) cs p (omega arith) tiles in
    elim (lt_or_le (total - start) size) [
      | inl last ↦
          let z : total - (c.end + 1) ≡ 0 = omega arith in
          ap suc (ih ∙ ap (λ k. div_ceil k size) z ∙ div_ceil_zero size)
          ∙ sym (div_ceil_one (total - start) size (omega arith) (omega arith))
      | inr more ↦
          let z : total - (c.end + 1) ≡ total - start - size = omega arith in
          ap suc (ih ∙ ap (λ k. div_ceil k size) z)
          ∙ sym (div_ceil_step (total - start) size p more)
    ]

-- The number of chunks is the planner's `num_chunks`.
pub length-chunks :
    (total size : ℕ)
    → 0 < size
    → total + size ≤ u64_mod
    → (cs : List Chunk) × (chunks total size ≡ some cs) × (length cs ≡ div_ceil total size)
length-chunks total size p h =
    let (cs, run, tiles) = chunks-Tiles total size p h in
    let n : total - 0 ≡ total = omega arith in
    (cs, run, Tiles-length total size 0 0 cs p (omega arith) tiles ∙ ap (λ k. div_ceil k size) n)
