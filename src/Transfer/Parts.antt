-- ===== src/Transfer/Parts.antt =====
-- The end of `download_parallel` in src/scheduler.rs: results in any order make the whole blob.
use donkey.Base.{
  ℕ, zero, suc, ◌+◌, ◌≤◌, ◌<◌, u64_mod, ◌≡◌, subst, refl, ◌∙◌, inl, inr, ◌⊎◌, none, some, List, [],
  ◌∷◌, length, ◌≢◌, get_elem?, set, replicate, arith, ok, err, Option, All, ok_parts,
}
use mathlib.Core.Option.{some-injective}
use donkey.Error.{ApiResult}
use donkey.Chunk.{Chunk, chunks}
use donkey.Chunk.Cover.{slice, assemble, Tiles, chunks-Tiles, assemble-Tiles}
use donkey.Transfer.{File, place_parts, merge_parts, merge_results, merged}

-- Every filled slot holds the bytes of its chunk.
abbrev pub Placed : List ℕ → List Chunk → List (Option File) → Type 0
Placed blob [] [] = Unit
Placed blob [] (_ ∷ _) = ⊥
Placed blob (_ ∷ _) [] = ⊥
Placed blob (c ∷ cs) (none ∷ slots) = Placed blob cs slots
Placed blob (c ∷ cs) (some part ∷ slots) =
    (part ≡ some (slice blob c.start c.end)) × Placed blob cs slots

-- A result that names a chunk and brings a part brings the bytes of that chunk.
abbrev pub Brings : List ℕ → List Chunk → ApiResult (ℕ × File) → Type 0
Brings blob cs (err e) = Unit
Brings blob cs (ok (index, part)) =
    (c : Chunk) → get_elem? cs index ≡ some c → part ≡ some (slice blob c.start c.end)

module _ (blob : List ℕ) where
  replicate-Placed : (cs : List Chunk) → Placed blob cs (replicate (length cs) none)
  replicate-Placed [] = tt
  replicate-Placed (c ∷ cs) = replicate-Placed cs

  set-Placed :
      (cs : List Chunk) (slots : List (Option File)) (index : ℕ) (part : File)
      → Placed blob cs slots
      → ((c : Chunk) → get_elem? cs index ≡ some c → part ≡ some (slice blob c.start c.end))
      → Placed blob cs (set slots index (some part))
  set-Placed [] [] index part p h = tt
  set-Placed [] (_ ∷ slots) index part p h = elim p [ ]
  set-Placed (c ∷ cs) [] index part p h = elim p [ ]
  set-Placed (c ∷ cs) (none ∷ slots) zero part p h = (h c refl, p)
  set-Placed (c ∷ cs) (some old ∷ slots) zero part (_, p) h = (h c refl, p)
  set-Placed (c ∷ cs) (none ∷ slots) (suc index) part p h = set-Placed cs slots index part p h
  set-Placed (c ∷ cs) (some old ∷ slots) (suc index) part (e, p) h =
      (e, set-Placed cs slots index part p h)

  place_parts-Placed :
      (cs : List Chunk) (slots placed : List (Option File)) (results : List (ApiResult (ℕ × File)))
      → Placed blob cs slots
      → All (Brings blob cs) results
      → place_parts slots results ≡ some (ok placed)
      → Placed blob cs placed
  unfolding place_parts
  place_parts-Placed cs slots placed [] p h e =
      let same : slots ≡ placed = cc in subst (Placed blob cs) same p
  place_parts-Placed cs slots placed (err x ∷ results) p h e = cc
  place_parts-Placed cs slots placed (ok (index, part) ∷ results) p (b, h) e =
      place_parts-Placed cs (set slots index (some part)) placed results
        (set-Placed cs slots index part p b) h (ground arith)

  merge_parts-assemble :
      (cs : List Chunk) (slots : List (Option File)) (bytes : List ℕ)
      → Placed blob cs slots
      → merge_parts slots ≡ ok bytes
      → bytes ≡ assemble blob cs
  unfolding merge_parts
  merge_parts-assemble [] [] bytes p e = ground arith
  merge_parts-assemble [] (_ ∷ slots) bytes p e = elim p [ ]
  merge_parts-assemble (c ∷ cs) [] bytes p e = elim p [ ]
  merge_parts-assemble (c ∷ cs) (none ∷ slots) bytes p e = cc
  merge_parts-assemble (c ∷ cs) (some none ∷ slots) bytes p e = cc
  merge_parts-assemble (c ∷ cs) (some (some content) ∷ slots) bytes (q, p) e =
      let (rest, (merged, same)) = ok_parts _ (merge_parts slots) e in
      ground (arith, merge_parts-assemble cs slots rest p merged)

-- A result of `place_parts` lists slots, or nothing can be merged from it.
place-cases :
    (r : Option (ApiResult (List (Option File))))
    → ((placed : List (Option File)) × (r ≡ some (ok placed)))
      ⊎ ((bytes : List ℕ) → merged r ≢ some (ok bytes))
place-cases none = inr (λ bytes q. cc)
place-cases (some (ok placed)) = inl (placed, refl)
place-cases (some (err x)) = inr (λ bytes q. cc)

-- Whatever the order in which the streams of the chunks end: if the download of the chunks of a
-- blob succeeds, and every stream that brought a part brought its chunk's bytes, then the merged
-- file is the blob, byte for byte.
pub merge_results-blob :
    (size : ℕ) (blob bytes : List ℕ) (cs : List Chunk) (results : List (ApiResult (ℕ × File)))
    → 0 < size
    → length blob + size ≤ u64_mod
    → chunks (length blob) size ≡ some cs
    → All (Brings blob cs) results
    → merge_results (length cs) results ≡ some (ok bytes)
    → bytes ≡ blob
unfolding merge_results
merge_results-blob size blob bytes cs results p small run h e =
    let (cs', run', tiles) = chunks-Tiles (length blob) size p small in
    let same : cs' ≡ cs = cc (run, run') in
    elim (place-cases (place_parts (replicate (length cs) none) results)) [
      | inl (placed, q) ↦
          merge_parts-assemble blob cs placed bytes
            (place_parts-Placed blob cs (replicate (length cs) none) placed results
              (replicate-Placed blob cs) h q)
            (some-injective _ _ (rw q at e))
          ∙ assemble-Tiles blob size 0 0 cs (subst (Tiles (length blob) size 0 0) same tiles)
      | inr other ↦ absurd (other bytes e)
    ]
