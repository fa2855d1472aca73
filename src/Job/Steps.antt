-- ===== src/Job/Steps.antt =====
-- Histories of the job table: every operation of src/image_tools.rs, src/image_tools/job_store.rs
-- and src/db.rs that writes a job, as one step, in any order and by any worker, with the writes
-- that ask for no owner (`Direct`). A step carries what its worker read earlier (a status, a cancel
-- flag, a token), which may be stale by then.
use Prim.Native.String.{String}
use donkey.Base.{
  ℕ, Bool, false, Option, none, List, [], ◌∷◌, any, snoc, ◌==◌, if◌then◌else◌, Result, ok, err,
}
use donkey.Error.{ApiResult}
use donkey.Job.{JobStatus, pending, JobRow}
use donkey.Job.Store.{
  Db, claim_image_job, renew_image_job, update_image_job_manifest_owned,
  update_image_job_progress_owned, update_image_job_stage_owned, update_image_job_artifact_owned,
  finish_image_job_owned,
}
use donkey.Job.Direct.{DirectWrite, write_direct}
use donkey.Job.Service.{
  JobOutcome, lease_until, stage_of, recover_abandoned_jobs, finish_request, cancel_update,
  retry_job, purge_job,
}

pub data JobStep : Type 0 where
  submit : ℕ → ℕ → JobStep
  claim : ℕ → ℕ → ℕ → JobStep
  renew : ℕ → ℕ → ℕ → ℕ → JobStep
  manifest : ℕ → ℕ → ℕ → String → Option String → ℕ → ℕ → JobStep
  progress : ℕ → ℕ → ℕ → String → ℕ → ℕ → ℕ → JobStep
  stage : ℕ → ℕ → ℕ → String → ℕ → JobStep
  artifact : ℕ → ℕ → ℕ → String → String → ℕ → JobStep
  finish : ℕ → ℕ → ℕ → ℕ → Bool → Result JobOutcome String → JobStep
  recover : ℕ → JobStep
  cancel : ℕ → JobStatus → ℕ → JobStep
  retry : ℕ → ℕ → JobStep
  purge : ℕ → JobStep
  direct : ℕ → DirectWrite → JobStep

-- The row that `pending_job` makes.
abbrev pub pending_job : ℕ → ℕ → JobRow
pending_job id now = record {
  id = id;
  status = pending;
  stage = stage_of pending;
  progress_bytes = 0;
  total_bytes = 0;
  resolved_digest = none;
  index_digest = none;
  artifact_path = none;
  artifact_name = none;
  error = none;
  cancel_requested = false;
  lease_until = none;
  created_at = now;
  updated_at = now;
  started_at = none;
  finished_at = none;
}

-- The insertion fails on an identifier that is taken.
unfoldable pub submit_job : Db → JobRow → Db
submit_job db row =
    if any (λ r. r.id == row.id) db.jobs then db else record db { jobs = snoc db.jobs row }

-- A refused operation leaves the database alone.
abbrev pub or_same : Db → ApiResult Db → Db
or_same db (ok db') = db'
or_same db (err e) = db

abbrev pub or_same_with : Db → ApiResult (Db × ℕ) → Db
or_same_with db (ok (db', rows)) = db'
or_same_with db (err e) = db

unfoldable pub step : Db → JobStep → Db
step db (submit id now) = submit_job db (pending_job id now)
step db (claim job worker now) = (claim_image_job db job worker now (lease_until now)).0
step db (renew job worker attempt now) =
    (renew_image_job db job worker attempt now (lease_until now)).0
step db (manifest job worker attempt digest index total now) =
    (update_image_job_manifest_owned db job worker attempt digest index total now).0
step db (progress job worker attempt text current total now) =
    (update_image_job_progress_owned db job worker attempt text current total (lease_until now)
      now).0
step db (stage job worker attempt text now) =
    (update_image_job_stage_owned db job worker attempt text (lease_until now) now).0
step db (artifact job worker attempt path name now) =
    (update_image_job_artifact_owned db job worker attempt path name now).0
step db (finish job worker attempt now flag result) =
    (finish_image_job_owned db (finish_request job worker attempt now flag result)).0
step db (recover now) = (recover_abandoned_jobs db now).0
step db (cancel job status now) = or_same_with db (cancel_update db job status now)
step db (retry job now) = or_same db (retry_job db job now)
step db (purge job) = or_same db (purge_job db job)
step db (direct job write) = write_direct db job write

unfoldable pub run : Db → List JobStep → Db
run db [] = db
run db (s ∷ steps) = run (step db s) steps
