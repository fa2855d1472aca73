-- ===== src/Transfer/Retry.antt =====
-- The candidate loop, the waits for capacity and the resumption of `download_chunk` in
-- src/scheduler.rs, for any schedule of answers.
use donkey.Base.{
  ℕ, ◌+◌, ◌-◌, ◌≤◌, ◌<◌, u64_max, ◌≡◌, refl, inl, inr, none, some, List, [], ◌∷◌, length, arith, ok,
  err, Bool-cases, Option, ◌==◌, All, ◌≢◌,
}
use donkey.Error.{AppError, ApiResult, integrity}
use donkey.Chunk.{Chunk}
use donkey.Chunk.Cover.{slice}
use donkey.Transfer.{
  File, Reply, try_node, after_error, resolve, Progress, fetched, failed, untried, try_candidates,
  end_pass, download_chunk, fetch_part,
}
use donkey.Transfer.Begins.{IsPart, IsHonestVisit, Good, GoodPass, GoodChunk, full_part}
use donkey.Transfer.Attempt.{try_node-Good}

module _ (blob : List ℕ) (chunk : Chunk) (small : chunk.end + 1 < u64_max) where
  after_error-IsPart :
      (e : AppError) (destination : File)
      → IsPart blob chunk destination
      → IsPart blob chunk (after_error e destination)
  after_error-IsPart integrity destination part = tt
  after_error-IsPart _ destination part = part

  resolve-Good :
      (next : File → Progress → File × Progress) (r : File × ApiResult (Unit {0}))
      → Good blob chunk r
      → ((file : File) (e : AppError)
          → IsPart blob chunk file
          → GoodPass blob chunk (next file (failed e)))
      → GoodPass blob chunk (resolve next r)
  resolve-Good next (file, ok u) (part, full) later = (part, λ _. full refl)
  resolve-Good next (file, err e) (part, _) later =
      later (after_error e file) e (after_error-IsPart e file part)

  try_candidates-Good :
      (le : chunk.start ≤ chunk.end) (destination : File) (progress : Progress)
      (candidates : List (Option Reply))
      → progress ≢ fetched
      → IsPart blob chunk destination
      → All (IsHonestVisit blob) candidates
      → GoodPass blob chunk (try_candidates chunk destination progress candidates)
  unfolding try_candidates
  try_candidates-Good le destination progress [] new part _ = (part, λ e. absurd (new e))
  try_candidates-Good le destination progress (none ∷ rest) new part (_, h) =
      try_candidates-Good le destination progress rest new part h
  try_candidates-Good le destination progress (some reply ∷ rest) new part (honest, h) =
      resolve-Good (λ file state. try_candidates chunk file state rest)
        (try_node chunk destination reply)
        (try_node-Good blob chunk small destination reply le part honest)
        (λ file e kept. try_candidates-Good le file (failed e) rest (λ q. cc) kept h)

  end_pass-Good :
      (wait : File → File × Option (ApiResult (Unit {0}))) (r : File × Progress)
      → GoodPass blob chunk r
      → ((file : File) → IsPart blob chunk file → GoodChunk blob chunk (wait file))
      → GoodChunk blob chunk (end_pass wait r)
  end_pass-Good wait (file, fetched) (part, full) later = (part, λ _. full refl)
  end_pass-Good wait (file, failed e) (part, full) later = (part, λ q. cc)
  end_pass-Good wait (file, untried) (part, full) later = later file part

  download_chunk-Good :
      (le : chunk.start ≤ chunk.end) (destination : File) (schedule : List (List (Option Reply)))
      → IsPart blob chunk destination
      → All (All (IsHonestVisit blob)) schedule
      → GoodChunk blob chunk (download_chunk chunk destination schedule)
  unfolding download_chunk
  download_chunk-Good le destination [] part h = (part, λ q. cc)
  download_chunk-Good le destination (candidates ∷ later) part (now, h) =
      end_pass-Good (λ file. download_chunk chunk file later)
        (try_candidates chunk destination untried candidates)
        (try_candidates-Good le destination untried candidates (λ q. cc) part now)
        (λ file kept. download_chunk-Good le file later kept h)

  fetch_part-Good :
      (le : chunk.start ≤ chunk.end) (destination : File) (schedule : List (List (Option Reply)))
      → IsPart blob chunk destination
      → All (All (IsHonestVisit blob)) schedule
      → GoodChunk blob chunk (fetch_part chunk destination schedule)
  unfolding fetch_part
  fetch_part-Good le none schedule part h = download_chunk-Good le none schedule part h
  fetch_part-Good le (some content) schedule part h =
      elim (Bool-cases (length content == (chunk.end - chunk.start + 1))) [
        | inl full ↦
            rw full
              (part, λ _. full_part blob chunk (some content) part (ground arith) (ground arith))
        | inr other ↦ rw other (download_chunk-Good le (some content) schedule part h)
      ]

-- However the candidates are ordered, leased, broken off and retried, and whatever an earlier
-- download left of the same range: once the download of a chunk returns without an error its part
-- file holds exactly the chunk's bytes of the blob. The nodes' 206 responses are honest, the part
-- file was a beginning of the range, and the range ends below the largest `u64`.
pub fetch_part-slice :
    (blob : List ℕ) (chunk : Chunk) (destination : File) (schedule : List (List (Option Reply)))
    → chunk.start ≤ chunk.end
    → chunk.end + 1 < u64_max
    → IsPart blob chunk destination
    → All (All (IsHonestVisit blob)) schedule
    → (fetch_part chunk destination schedule).1 ≡ some (ok tt)
    → (fetch_part chunk destination schedule).0 ≡ some (slice blob chunk.start chunk.end)
fetch_part-slice blob chunk destination schedule le small part h =
    (fetch_part-Good blob chunk small le destination schedule part h).1

-- Under the same conditions, whatever the outcome, errors and interruptions included, the part file
-- is left a beginning of the chunk's bytes or is removed, so that a later download may resume it.
pub fetch_part-IsPart :
    (blob : List ℕ) (chunk : Chunk) (destination : File) (schedule : List (List (Option Reply)))
    → chunk.start ≤ chunk.end
    → chunk.end + 1 < u64_max
    → IsPart blob chunk destination
    → All (All (IsHonestVisit blob)) schedule
    → IsPart blob chunk (fetch_part chunk destination schedule).0
fetch_part-IsPart blob chunk destination schedule le small part h =
    (fetch_part-Good blob chunk small le destination schedule part h).0
