-- ===== src/Fetch/Verified.antt =====
-- What the end of `fetch_uncached` in src/scheduler.rs lets into the cache.
use donkey.Base.{
  ℕ, ◌≡◌, refl, inl, inr, Bool, true, false, Option, none, some, List, [], ◌∷◌, drop, length, ltb,
  arith, Bool-cases, ◌==◌, if◌then◌else◌, ok, err,
}
use donkey.Error.{AppError, integrity, ApiResult}
use donkey.Transfer.{File, Reply}
use donkey.Fetch.{
  Outcome, download_whole, same_bytes, is_sha256, verify_file, if_verified, after_whole,
  recover_loop, recover_verified_blob, and_then, check_size, retry_if, check_digest, settle,
}

same_bytes-eq : (a b : List ℕ) → same_bytes a b ≡ true → a ≡ b
unfolding same_bytes
same_bytes-eq [] [] h = refl
same_bytes-eq [] (y ∷ b) h = cc
same_bytes-eq (x ∷ a) [] h = cc
same_bytes-eq (x ∷ a) (y ∷ b) h = ground (arith, same_bytes-eq a b)

module _ (hash : List ℕ → List ℕ) where
  -- The file's bytes have that digest, which is a well-formed SHA-256.
  abbrev pub HasDigest : File → List ℕ → Type 0
  HasDigest file digest =
      (content : List ℕ) × (file ≡ some content)
      × (hash content ≡ drop 7 digest)
      × (is_sha256 digest ≡ true)

  verify_file-HasDigest :
      (file : File) (digest : List ℕ) → verify_file hash file digest ≡ ok tt → HasDigest file digest
  unfolding verify_file
  verify_file-HasDigest none digest h = absurd (ground arith)
  verify_file-HasDigest (some content) digest h = elim (Bool-cases (is_sha256 digest)) [
    | inr bad ↦ let no = rw bad at h in cc
    | inl good ↦ elim (Bool-cases (same_bytes (hash content) (drop 7 digest))) [
      | inr other ↦ let no = rw (good, other) at h in cc
      | inl same ↦ (content, refl, same_bytes-eq (hash content) (drop 7 digest) same, good)
    ]
  ]

  if_verified-HasDigest :
      (digest : List ℕ) (next : File → AppError → Outcome) (file : File)
      (result : ApiResult (Unit {0}))
      → ((f : File) (e : AppError) → (next f e).1 ≡ some (ok tt) → HasDigest (next f e).0 digest)
      → verify_file hash file digest ≡ result
      → (if_verified hash next file result).1 ≡ some (ok tt)
      → HasDigest (if_verified hash next file result).0 digest
  if_verified-HasDigest digest next file (ok done) n e h = verify_file-HasDigest file digest e
  if_verified-HasDigest digest next file (err error) n e h = n none error h

  after_whole-HasDigest :
      (digest : List ℕ) (next : File → AppError → Outcome) (o : Outcome)
      → ((f : File) (e : AppError) → (next f e).1 ≡ some (ok tt) → HasDigest (next f e).0 digest)
      → (after_whole hash digest next o).1 ≡ some (ok tt)
      → HasDigest (after_whole hash digest next o).0 digest
  after_whole-HasDigest digest next (file, none) n h = cc
  after_whole-HasDigest digest next (file, some (ok done)) n h =
      if_verified-HasDigest digest next file (verify_file hash file digest) n refl h
  after_whole-HasDigest digest next (file, some (err error)) n h = n none error h

  recover_loop-HasDigest :
      (total : Option ℕ) (digest : List ℕ) (file : File) (last : AppError)
      (nodes : List (List (List (Option Reply))))
      → (recover_loop hash total digest file last nodes).1 ≡ some (ok tt)
      → HasDigest (recover_loop hash total digest file last nodes).0 digest
  unfolding recover_loop
  recover_loop-HasDigest total digest file last [] h = cc
  recover_loop-HasDigest total digest file last (node ∷ nodes) h =
      after_whole-HasDigest digest (λ f e. recover_loop hash total digest f e nodes)
        (download_whole total file (node ∷ []))
        (λ f e. recover_loop-HasDigest total digest f e nodes) h

  retry_if-HasDigest :
      (total : Option ℕ) (digest : List ℕ) (nodes : List (List (List (Option Reply)))) (many : Bool)
      (file : File) (result : ApiResult (Unit {0}))
      → verify_file hash file digest ≡ result
      → (retry_if hash many (λ f. recover_verified_blob hash total digest f nodes) file result).1
        ≡ some (ok tt)
      → HasDigest
          (retry_if hash many (λ f. recover_verified_blob hash total digest f nodes) file result).0
          digest
  unfolding recover_verified_blob
  retry_if-HasDigest total digest nodes many file (ok done) e h =
      verify_file-HasDigest file digest e
  retry_if-HasDigest total digest nodes true file (err error) e h =
      recover_loop-HasDigest total digest file integrity nodes h
  retry_if-HasDigest total digest nodes false file (err error) e h = cc

  and_then-HasDigest :
      (total : Option ℕ) (digest : List ℕ) (fallbacks : ℕ)
      (nodes : List (List (List (Option Reply)))) (o : Outcome)
      → (and_then hash (check_digest hash total (some digest) fallbacks nodes) o).1 ≡ some (ok tt)
      → HasDigest (and_then hash (check_digest hash total (some digest) fallbacks nodes) o).0 digest
  unfolding check_digest
  and_then-HasDigest total digest fallbacks nodes (file, none) h = cc
  and_then-HasDigest total digest fallbacks nodes (file, some (ok done)) h =
      retry_if-HasDigest total digest nodes (ltb 1 fallbacks) file (verify_file hash file digest)
        refl h
  and_then-HasDigest total digest fallbacks nodes (file, some (err error)) h = cc

  -- Where a blob is asked for by its digest, only a file whose bytes have that digest is admitted,
  -- whatever was downloaded, in how many attempts, and whatever the fallback nodes answer.
  pub settle-HasDigest :
      (total : Option ℕ) (digest : List ℕ) (fallbacks : ℕ)
      (first_round second_round : List (List (List (Option Reply)))) (file : File)
      → (settle hash total (some digest) fallbacks first_round second_round file).1 ≡ some (ok tt)
      → (content : List ℕ) × ((settle hash total
            (some digest)
            fallbacks
            first_round
            second_round
            file).0
          ≡ some content)
        × (hash content ≡ drop 7 digest)
        × (is_sha256 digest ≡ true)
  unfolding settle
  settle-HasDigest total digest fallbacks first_round second_round file h =
      and_then-HasDigest total digest fallbacks second_round
        (check_size hash total (some digest) fallbacks first_round file) h

  -- Where no digest is known, a file of an announced size is admitted exactly as it was downloaded,
  -- if it has that size, and refused as an integrity error otherwise.
  pub settle-sized :
      (size fallbacks : ℕ) (first_round second_round : List (List (List (Option Reply))))
      (content : List ℕ)
      → settle hash (some size) none fallbacks first_round second_round (some content) ≡ (
          if size == length content
          then (some content, some (ok tt))
          else (some content, some (err integrity)))
  unfolding settle check_size check_digest
  settle-sized size fallbacks first_round second_round content =
      elim (Bool-cases (size == length content)) [ inl e ↦ rw e refl | inr e ↦ rw e refl ]
