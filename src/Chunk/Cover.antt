-- ===== src/Chunk/Cover.antt =====
-- The list that `chunks` of src/scheduler.rs returns tiles the blob: no gap, no overlap, in order.
use donkey.Base.{
  ℕ, zero, suc, ◌+◌, ◌-◌, ◌≤◌, ◌<◌, min, u64_mod, add64, ◌≡◌, refl, sym, ap, ◌∙◌, inl, inr, some,
  List, [], ◌∷◌, ◌++◌, length, take, drop, take-append-drop, drop-drop, drop_all, arith, lt_or_le,
  lt→ltb, le→ltb_false,
}
use donkey.Chunk.{Chunk, next_chunk, chunk_end, chunk_loop, chunks}

-- The bytes `start ..= end` of a blob: what a Range request asks for.
abbrev pub slice {ℓ} : {A : Type ℓ} → List A → ℕ → ℕ → List A
slice blob start end = take (end + 1 - start) (drop start blob)

-- From `start` on the chunks are numbered in order, each begins where the last ended, none is
-- longer than `size`, only the last one is shorter, and they end with the blob.
abbrev pub Tiles : ℕ → ℕ → ℕ → ℕ → List Chunk → Type 0
Tiles total size index start [] = start ≡ total
Tiles total size index start (c ∷ cs) =
    (c.index ≡ index)
    × (c.start ≡ start)
    × (start < total)
    × (c.end + 1 ≡ min (start + size) total)
    × (c.total_size ≡ total)
    × Tiles total size (suc index) (c.end + 1) cs

chunk_end_lem :
    (total size start : ℕ)
    → 0 < size
    → total + size ≤ u64_mod
    → start < total
    → chunk_end total size start + 1 ≡ min (start + size) total
unfolding chunk_end
chunk_end_lem total size start p h lt = omega arith

chunk_loop_step :
    (fuel total size index start : ℕ) (cs : List Chunk)
    → start < total
    → chunk_end total size start < total
    → total < u64_mod
    → chunk_loop fuel total size (suc index) (chunk_end total size start + 1) ≡ some cs
    → chunk_loop (suc fuel) total size index start ≡ some (next_chunk total size index start ∷ cs)
unfolding chunk_loop
chunk_loop_step fuel total size index start cs more fits small run =
    let next : add64 (chunk_end total size start) 1 ≡ chunk_end total size start + 1 =
      omega arith in
    rw (lt→ltb start total more, next, run)

chunk_loop-Tiles :
    (fuel total size index start : ℕ)
    → 0 < size
    → total + size ≤ u64_mod
    → start ≤ total
    → total - start < fuel
    → (cs : List Chunk) × (chunk_loop fuel total size index start ≡ some cs)
      × Tiles total size index start cs
unfolding chunk_loop
chunk_loop-Tiles zero total size index start p h le f = elim f [ ]
chunk_loop-Tiles (suc fuel) total size index start p h le f = elim (lt_or_le start total) [
  | inl more ↦
      let e = chunk_end_lem total size start p h more in
      let (cs, run, tiles) =
        chunk_loop-Tiles fuel total size (suc index) (chunk_end total size start + 1) p h
          (omega arith) (omega arith) in
      (
        next_chunk total size index start ∷ cs,
        chunk_loop_step fuel total size index start cs more (omega arith) (omega arith) run,
        (refl, refl, more, e, refl, tiles),
      )
  | inr done ↦ ([], rw (le→ltb_false start total done), omega arith)
]

-- With chunks of a byte at least and no overflow the loop ends, and its chunks tile the blob.
pub chunks-Tiles :
    (total size : ℕ)
    → 0 < size
    → total + size ≤ u64_mod
    → (cs : List Chunk) × (chunks total size ≡ some cs) × Tiles total size 0 0 cs
unfolding chunks
chunks-Tiles total size p h =
    chunk_loop-Tiles (suc total) total size 0 0 p h (omega arith) (omega arith)

-- The bytes of the chunks, one after the other: what `download_parallel` writes out.
abbrev pub assemble {ℓ} : {A : Type ℓ} → List A → List Chunk → List A
assemble blob [] = []
assemble blob (c ∷ cs) = slice blob c.start c.end ++ assemble blob cs

module _ {ℓ} {A : Type ℓ} (blob : List A) where
  slice-append-drop : (s e : ℕ) → s ≤ e + 1 → slice blob s e ++ drop (e + 1) blob ≡ drop s blob
  slice-append-drop s e h =
      let sum : s + (e + 1 - s) ≡ e + 1 = omega arith in
      ap (λ r. slice blob s e ++ r) (sym (drop-drop (e + 1 - s) s blob ∙ ap (λ k. drop k blob) sum))
      ∙ take-append-drop (e + 1 - s) (drop s blob)

  pub assemble-Tiles :
      (size index start : ℕ) (cs : List Chunk)
      → Tiles (length blob) size index start cs
      → assemble blob cs ≡ drop start blob
  assemble-Tiles size index start [] e = sym (drop_all start blob (omega arith))
  assemble-Tiles size index start (c ∷ cs) (_, e, lt, fin, _, tiles) =
      ap (λ r. slice blob c.start c.end ++ r) (assemble-Tiles size (suc index) (c.end + 1) cs tiles)
      ∙ slice-append-drop c.start c.end (omega arith)
      ∙ ap (λ k. drop k blob) e

-- The ranges that the downloader asks for, put together in order, are the whole blob: for chunks
-- of a byte at least, and a blob for which `start + chunk_size` does not overflow a `u64`.
pub chunks-assemble :
    (size : ℕ) (blob : List ℕ)
    → 0 < size
    → length blob + size ≤ u64_mod
    → (cs : List Chunk) × (chunks (length blob) size ≡ some cs) × (assemble blob cs ≡ blob)
chunks-assemble size blob p h =
    let (cs, run, tiles) = chunks-Tiles (length blob) size p h in
    (cs, run, assemble-Tiles blob size 0 0 cs tiles)
