-- ===== src/Fetch/Resumed.antt =====
-- What `download_resume` of src/scheduler.rs makes of a partial file.
use donkey.Base.{
  some-inj, ℕ, ◌+◌, ◌-◌, ◌≤◌, ◌<◌, u64_max, ◌≡◌, refl, ap, ◌∙◌, subst, inl, inr, true, false, not,
  ◌||◌, Option, none, some, List, [], ◌∷◌, length, take_all, arith, ok, err, Bool-cases, leb, ltb,
  ◌==◌, ==_iff, All, if◌then◌else◌, or_left, or_right, not-false,
}
use donkey.Error.{upstream, AppError, ApiResult, integrity}
use donkey.Chunk.{Chunk}
use donkey.Chunk.Cover.{slice}
use donkey.Transfer.{
  File, Response, Reply, file_size, content_range_matches, save_range, after_error, is_range,
  stream_response_to_file, append_response_to_file,
}
use donkey.Transfer.Frames.{sent}
use donkey.Transfer.Begins.{Begins, IsPart, IsHonest, IsHonestVisit, Good, full_part}
use donkey.Transfer.Attempt.{save-Good}
use donkey.Fetch.{Outcome}
use donkey.Fetch.Resume.{
  receive_resume, Verdict, returned, tried, idle, resume_result, resume_candidates, unless_idle,
  resume_group, after_group, resume_groups, download_resume,
}

-- The whole blob as one range.
abbrev pub whole : List ℕ → Chunk
whole blob = record { index = 0; start = 0; end = length blob - 1; total_size = length blob }

-- The file holds a beginning of the blob, or does not exist.
abbrev pub IsBeginning : List ℕ → File → Type 0
IsBeginning blob = IsPart blob (whole blob)

slice-whole : (blob : List ℕ) → 0 < length blob → slice blob 0 (length blob - 1) ≡ blob
slice-whole blob p = take_all (length blob - 1 + 1 - 0) blob (omega arith)

module _ (blob : List ℕ) (some_bytes : 0 < length blob) (small : length blob < u64_max) where
  abbrev total : ℕ
  total = length blob

  -- The two writers are those of a range, with the same expectations.
  saves :
      (destination : File) (response : Response)
      → file_size destination < total
      → (if file_size destination == 0
          then stream_response_to_file response destination (some total)
          else append_response_to_file response destination (total - file_size destination))
        ≡ save_range (whole blob) (file_size destination) destination response
  unfolding save_range
  saves destination response p =
      let n = file_size destination in
      let rest : total - 1 - (0 + n) + 1 ≡ total - n = omega arith in
      elim (Bool-cases (n == 0)) [
        | inl e ↦
            let z : n ≡ 0 = (==_iff n 0).0 e in
            let all_of : total - 1 - (0 + n) + 1 ≡ total = omega arith in
            let fresh : ltb 0 n ≡ false = ground arith in rw (e, fresh, all_of) refl
        | inr e ↦ let more : ltb 0 n ≡ true = ground arith in rw (e, more, rest) refl
      ]

  receive_resume-Good :
      (destination : File) (reply : Reply)
      → IsBeginning blob destination
      → file_size destination < total
      → IsHonest blob reply
      → Good blob (whole blob) (receive_resume total (file_size destination) destination reply)
  unfolding receive_resume content_range_matches
  receive_resume-Good destination (err error) part p h = (part, λ e. cc)
  receive_resume-Good destination (ok response) part p h =
      let n = file_size destination in
      let from_start : n ≡ 0 + n = omega arith in
      let bad =
        not (response.status == 206) || not (is_range response.content_range n (total - 1) total) in
      elim (Bool-cases bad) [
        | inl e ↦ rw e (part, λ q. cc)
        | inr e ↦
            let partial = not-false _ (or_left (not (response.status == 206)) _ e) in
            let matched = not-false _ (or_right (not (response.status == 206)) _ e) in
            rw e (
              rw (saves destination response p) (
                save-Good blob (whole blob) (omega arith) response destination part (omega arith) (
                  subst (λ k. Begins (sent response.body) (slice blob k (total - 1))) from_start
                    (h n (total - 1) total ((==_iff _ _).0 partial) matched))))
      ]

  -- A verdict of success comes only with the whole blob.
  abbrev pub GoodVerdict : File × Verdict → Type 0
  GoodVerdict r = IsBeginning blob r.0 × (r.1 ≡ returned (ok tt) → r.0 ≡ some blob)

  full_file :
      (destination : File)
      → IsBeginning blob destination
      → total ≤ file_size destination
      → destination ≡ some blob
  full_file destination part h =
      full_part blob (whole blob) destination part (omega arith) (omega arith)
      ∙ ap some (slice-whole blob some_bytes)

  after_error-IsBeginning :
      (error : AppError) (file : File)
      → IsBeginning blob file
      → IsBeginning blob (after_error error file)
  after_error-IsBeginning integrity file part = tt
  after_error-IsBeginning _ file part = part

  resume_result-Good :
      (next : File → AppError → File × Verdict) (r : File × ApiResult (Unit {0}))
      → Good blob (whole blob) r
      → ((file : File) (error : AppError) → IsBeginning blob file → GoodVerdict (next file error))
      → GoodVerdict (resume_result next r)
  resume_result-Good next (file, ok done) (part, full) later =
      (part, λ q. full refl ∙ ap some (slice-whole blob some_bytes))
  resume_result-Good next (file, err error) (part, full) later =
      later (after_error error file) error (after_error-IsBeginning error file part)

  resume_candidates-Good :
      (destination : File) (verdict : Verdict) (candidates : List (Option Reply))
      → (verdict ≡ returned (ok tt) → ⊥)
      → IsBeginning blob destination
      → All (IsHonestVisit blob) candidates
      → GoodVerdict (resume_candidates total destination verdict candidates)
  unfolding resume_candidates
  resume_candidates-Good destination verdict [] new part h = (part, λ q. absurd (new q))
  resume_candidates-Good destination verdict (none ∷ candidates) new part (_, h) =
      resume_candidates-Good destination verdict candidates new part h
  resume_candidates-Good destination verdict (some reply ∷ candidates) new part (honest, h) =
      elim (Bool-cases (leb total (file_size destination))) [
        | inl e ↦ rw e (part, λ q. full_file destination part (ground arith))
        | inr e ↦ rw e (
            resume_result-Good (λ file error. resume_candidates total file (tried error) candidates)
              (receive_resume total (file_size destination) destination reply)
              (receive_resume-Good destination reply part (ground arith) honest)
              (λ file error kept.
                resume_candidates-Good file (tried error) candidates (λ q. cc) kept h))
      ]

  abbrev GoodGroup : File × Option Verdict → Type 0
  GoodGroup r = IsBeginning blob r.0 × (r.1 ≡ some (returned (ok tt)) → r.0 ≡ some blob)

  unless_idle-Good :
      (wait : File → File × Option Verdict) (r : File × Verdict)
      → GoodVerdict r
      → ((file : File) → IsBeginning blob file → GoodGroup (wait file))
      → GoodGroup (unless_idle wait r)
  unless_idle-Good wait (file, returned answer) (part, full) later = (part, λ q. full (some-inj q))
  unless_idle-Good wait (file, tried error) (part, full) later = (part, λ q. cc)
  unless_idle-Good wait (file, idle) (part, full) later = later file part

  resume_group-Good :
      (destination : File) (passes : List (List (Option Reply)))
      → IsBeginning blob destination
      → All (All (IsHonestVisit blob)) passes
      → GoodGroup (resume_group total destination passes)
  unfolding resume_group
  resume_group-Good destination [] part h = (part, λ q. cc)
  resume_group-Good destination (candidates ∷ later) part (now, h) =
      elim (Bool-cases (leb total (file_size destination))) [
        | inl e ↦ rw e (part, λ q. full_file destination part (ground arith))
        | inr e ↦ rw e (
            unless_idle-Good (λ file. resume_group total file later)
              (resume_candidates total destination idle candidates)
              (resume_candidates-Good destination idle candidates (λ q. cc) part now)
              (λ file kept. resume_group-Good file later kept h))
      ]

  abbrev GoodResume : Outcome → Type 0
  GoodResume r = IsBeginning blob r.0 × (r.1 ≡ some (ok tt) → r.0 ≡ some blob)

  after_group-Good :
      (next : File → AppError → Outcome) (r : File × Option Verdict)
      → GoodGroup r
      → ((file : File) (error : AppError) → IsBeginning blob file → GoodResume (next file error))
      → GoodResume (after_group next r)
  after_group-Good next (file, none) (part, full) later = (part, λ q. cc)
  after_group-Good next (file, some (returned answer)) (part, full) later =
      (part, λ q. full (ap (λ a. some (returned a)) (some-inj q)))
  after_group-Good next (file, some (tried error)) (part, full) later = later file error part
  after_group-Good next (file, some idle) (part, full) later = (part, λ q. cc)

  resume_groups-Good :
      (destination : File) (last : AppError) (groups : List (List (List (Option Reply))))
      → IsBeginning blob destination
      → All (All (All (IsHonestVisit blob))) groups
      → GoodResume (resume_groups total destination last groups)
  unfolding resume_groups
  resume_groups-Good destination last [] part h = (part, λ q. cc)
  resume_groups-Good destination last (group ∷ groups) part (now, h) =
      after_group-Good (λ file error. resume_groups total file error groups)
        (resume_group total destination group) (resume_group-Good destination group part now)
        (λ file error kept. resume_groups-Good file error groups kept h)

-- Resuming a download that left a beginning of the blob keeps it one or removes it, whatever the
-- outcome, and if it returns without an error the file is the blob, byte for byte: with nodes whose
-- 206 responses are honest, and a blob of a byte at least that is shorter than the largest u64.
pub download_resume_lem :
    (blob : List ℕ) (destination : File) (groups : List (List (List (Option Reply))))
    → 0 < length blob
    → length blob < u64_max
    → IsBeginning blob destination
    → All (All (All (IsHonestVisit blob))) groups
    → IsBeginning blob (download_resume (length blob) destination groups).0
      × ((download_resume (length blob) destination groups).1 ≡ some (ok tt)
          → (download_resume (length blob) destination groups).0 ≡ some blob)
unfolding download_resume
download_resume_lem blob destination groups some_bytes small part h =
    resume_groups-Good blob some_bytes small destination (upstream "all nodes failed resume") groups
      part h
