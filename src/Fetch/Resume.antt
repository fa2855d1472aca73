-- ===== src/Fetch/Resume.antt =====
-- `download_resume` of src/scheduler.rs: the rest of a blob, appended to what an earlier download
-- left, from one node after the other. The nodes' answers and the waits are lists, as in
-- `Transfer`.
use donkey.Base.{
  ℕ, ◌-◌, not, ◌||◌, Option, none, some, List, [], ◌∷◌, leb, ◌==◌, if◌then◌else◌, ok, err,
}
use donkey.Error.{AppError, integrity, upstream, ApiResult}
use donkey.Transfer.{
  File, Reply, file_size, stream_response_to_file, append_response_to_file, content_range_matches,
  after_error,
}
use donkey.Fetch.{Outcome}

-- The `async` block of one attempt, on a file of `offset` bytes.
unfoldable pub receive_resume : ℕ → ℕ → File → Reply → File × ApiResult (Unit {0})
receive_resume total offset destination (err error) = (destination, err error)
receive_resume total offset destination (ok response) =
    if not (response.status == 206) || not (content_range_matches response offset (total - 1) total)
    then (destination, err integrity)
    else if offset == 0
    then stream_response_to_file response destination (some total)
    else append_response_to_file response destination (total - offset)

-- Where the candidate loop stands: the function has returned, or the last error, if a node was
-- tried.
pub data Verdict : Type 0 where
  returned : ApiResult (Unit {0}) → Verdict
  tried : AppError → Verdict
  idle : Verdict

abbrev pub resume_result :
    (File → AppError → File × Verdict) → File × ApiResult (Unit {0}) → File × Verdict
resume_result next (file, ok done) = (file, returned (ok tt))
resume_result next (file, err error) = next (after_error error file) error

-- A file that is complete, or too long, ends the function at once.
abbrev pub complete : ℕ → ℕ → ApiResult (Unit {0})
complete total offset = if offset == total then ok tt else err integrity

-- One pass over the ordered candidates; `none` is a node without a free lease.
unfoldable pub resume_candidates : ℕ → File → Verdict → List (Option Reply) → File × Verdict
resume_candidates total destination verdict [] = (destination, verdict)
resume_candidates total destination verdict (none ∷ candidates) =
    resume_candidates total destination verdict candidates
resume_candidates total destination verdict (some reply ∷ candidates) =
    let offset = file_size destination in
    let attempt =
      resume_result (λ file error. resume_candidates total file (tried error) candidates)
        (receive_resume total offset destination reply) in
    if leb total offset then (destination, returned (complete total offset)) else attempt

abbrev pub unless_idle : (File → File × Option Verdict) → File × Verdict → File × Option Verdict
unless_idle wait (file, idle) = wait file
unless_idle wait (file, verdict) = (file, some verdict)

-- The passes over one group, until a node of it was tried; `none` means that it still waits.
unfoldable pub resume_group : ℕ → File → List (List (Option Reply)) → File × Option Verdict
resume_group total destination [] = (destination, none)
resume_group total destination (candidates ∷ later) =
    let pass =
      unless_idle (λ file. resume_group total file later)
        (resume_candidates total destination idle candidates) in
    if leb total (file_size destination) then (destination, some (returned (ok tt))) else pass

abbrev pub after_group : (File → AppError → Outcome) → File × Option Verdict → Outcome
after_group next (file, none) = (file, none)
after_group next (file, some (returned answer)) = (file, some answer)
after_group next (file, some (tried error)) = next file error
after_group next (file, some idle) = (file, none)

-- The groups that have nodes; `last` is the last error.
unfoldable pub resume_groups : ℕ → File → AppError → List (List (List (Option Reply))) → Outcome
resume_groups total destination last [] = (destination, some (err last))
resume_groups total destination last (group ∷ groups) =
    after_group (λ file error. resume_groups total file error groups)
      (resume_group total destination group)

unfoldable pub download_resume : ℕ → File → List (List (List (Option Reply))) → Outcome
download_resume total destination groups =
    resume_groups total destination (upstream "all nodes failed resume") groups
