-- ===== src/Job/Service.antt =====
-- The operations on image jobs of src/image_tools.rs and src/image_tools/job_store.rs, over the
-- statements of `Job.Store`. Times are in seconds.
use Prim.Native.String.{String}
use donkey.Base.{
  ◌∷◌, [], ℕ, ◌+◌, ◌*◌, Bool, true, false, ◌&&◌, ◌||◌, not, Option, none, some, List, any, keep,
  leb, ◌==◌, if◌then◌else◌, Result, ok, err, ◌>>=◌, ◌>>◌, refuse_if, ok_or,
}
use donkey.Error.{ApiResult, bad_request, not_found, conflict}
use donkey.Job.{
  JobStatus, pending, running, completed, skipped, failed, cancelled, JobRow, as_str, same_status,
  can_transition_to,
}
use donkey.Job.Store.{
  Owner, Db, update_where, rows_affected, find_job, find_owner, ImageJobFinish,
  finish_image_job_owned,
}

-- `JOB_LEASE_MINUTES` is 10.
abbrev pub lease_until : ℕ → ℕ
lease_until now = now + 10 * 60

abbrev pub stage_of : JobStatus → String
stage_of pending = "queued"
stage_of running = "resolving"
stage_of to = as_str to

abbrev pub entered : JobStatus → ℕ → Option String → JobRow → JobRow
entered running now error r = record r {
  status = running;
  stage = stage_of running;
  error = error;
  updated_at = now;
  started_at = some now;
  finished_at = none;
  lease_until = some (lease_until now);
  cancel_requested = false;
}
entered pending now error r = record r {
  status = pending;
  stage = stage_of pending;
  error = error;
  updated_at = now;
  progress_bytes = 0;
  total_bytes = 0;
  started_at = none;
  finished_at = none;
  lease_until = none;
  cancel_requested = false;
}
entered to now error r = record r {
  status = to;
  stage = stage_of to;
  error = error;
  updated_at = now;
  finished_at = some now;
  lease_until = none;
  cancel_requested = same_status to cancelled;
}

-- `transition_update`: the change of the rows in state `from`, or a refusal.
unfoldable pub transition_update :
    JobStatus → JobStatus → ℕ → Option String → ApiResult (JobRow → JobRow)
transition_update from to now error =
    if not (can_transition_to from to)
    then err (bad_request "illegal image job transition")
    else ok (entered to now error)

abbrev pub abandoned_lease : ℕ → JobRow → Bool
abandoned_lease now r = elim r.lease_until [ none ↦ true | some lease ↦ leb lease now ]

abbrev pub abandoned : ℕ → JobRow → Bool
abandoned now r = same_status r.status running && abandoned_lease now r

abbrev pub recovered : ℕ → JobRow → JobRow
recovered now r = record r {
  status = pending;
  stage = "recovered";
  error = none;
  cancel_requested = false;
  lease_until = none;
  started_at = none;
  finished_at = none;
  updated_at = now;
}

-- The two statements of `recover_abandoned_jobs`.
unfoldable pub cancel_abandoned : ℕ → List JobRow → List JobRow
cancel_abandoned now =
    update_where (λ r. abandoned now r && r.cancel_requested) (entered cancelled now none)

unfoldable pub requeue_abandoned : ℕ → List JobRow → List JobRow
requeue_abandoned now =
    update_where (λ r. abandoned now r && not r.cancel_requested) (recovered now)

unfoldable pub recover_abandoned_jobs : Db → ℕ → Db × ℕ
recover_abandoned_jobs db now =
    let cancels = rows_affected (λ r. abandoned now r && r.cancel_requested) db.jobs in
    let jobs = cancel_abandoned now db.jobs in
    let requeues = rows_affected (λ r. abandoned now r && not r.cancel_requested) jobs in
    if any (abandoned now) db.jobs
    then (record db { jobs = requeue_abandoned now jobs }, cancels + requeues)
    else (db, 0)

pub data JobOutcome : Type 0 where
  done skip : JobOutcome

-- The state and the error text that `finish_job` writes, from the cancel flag that it read.
abbrev pub finish_target : Bool → Result JobOutcome String → JobStatus × Option String
finish_target true result = (cancelled, none)
finish_target false (ok done) = (completed, none)
finish_target false (ok skip) = (skipped, none)
finish_target false (err error) = (failed, some error)

abbrev pub finish_request : ℕ → ℕ → ℕ → ℕ → Bool → Result JobOutcome String → ImageJobFinish
finish_request job worker attempt now flag result = record {
  job_id = job;
  worker_id = worker;
  attempt = attempt;
  status = (finish_target flag result).0;
  error = (finish_target flag result).1;
  now = now;
  cancel_requested = flag;
}

abbrev pub is_owner : Option Owner → ℕ → ℕ → Bool
is_owner none worker attempt = false
is_owner (some o) worker attempt = o.worker_id == worker && o.attempt == attempt

-- `JobStore::owns`.
unfoldable pub owns : Db → ℕ → ℕ → ℕ → Bool
owns db job worker attempt = is_owner (find_owner job db.owners) worker attempt

-- `finish_job`, whose ownership check, read and update are three transactions: each sees the
-- database as other workers have left it by then.
unfoldable pub finish_job :
    Db → Db → Db → ℕ → ℕ → ℕ → ℕ → Result JobOutcome String → Db × ApiResult (Unit {0})
finish_job checked read db job worker attempt now result =
    if not (owns checked job worker attempt)
    then (db, err (conflict "image job ownership has changed"))
    else elim (find_job job read.jobs) [
      | none ↦ (db, err (not_found "image job"))
      | some current ↦
          let (db', finished) =
            finish_image_job_owned db
              (finish_request job worker attempt now current.cancel_requested result) in
          if finished
          then (db', ok tt)
          else (db', err (bad_request "image job is no longer in a finishable state"))
    ]

abbrev pub requested : ℕ → JobRow → JobRow
requested now r = record r { cancel_requested = true; updated_at = now }

-- The update of one round of `cancel_job_from_status`, with the rows that it changed.
unfoldable pub cancel_update : Db → ℕ → JobStatus → ℕ → ApiResult (Db × ℕ)
cancel_update db job pending now = do
  change ← transition_update pending cancelled now none
  let filter = λ (r : JobRow). same_status r.status pending && r.id == job
  ok (record db { jobs = update_where filter change db.jobs }, rows_affected filter db.jobs)
cancel_update db job running now =
    let filter = λ (r : JobRow). r.id == job && same_status r.status running in
    ok (
      record db { jobs = update_where filter (requested now) db.jobs },
      rows_affected filter db.jobs,
    )
cancel_update db job _ now = err (bad_request "image job cannot be cancelled")

-- What follows a round that changed no row: the row is read again, and either its cancellation is
-- under way or the next round starts from its state.
unfoldable pub after_missed :
    (JobStatus → Db × Option (ApiResult (Unit {0})))
    → Db
    → Option JobRow
    → Db × Option (ApiResult (Unit {0}))
after_missed next db none = (db, some (err (not_found "image job")))
after_missed next db (some row) =
    if same_status row.status running && row.cancel_requested
    then (db, some (ok tt))
    else next row.status

unfoldable pub after_update :
    (JobStatus → Db → Db × Option (ApiResult (Unit {0})))
    → (Db → Db)
    → ℕ
    → Db
    → ApiResult (Db × ℕ)
    → Db × Option (ApiResult (Unit {0}))
after_update next others job db (err error) = (db, some (err error))
after_update next others job db (ok (db', rows)) =
    let read = others db' in
    if rows == 1
    then (db', some (ok tt))
    else after_missed (λ status. next status read) read (find_job job read.jobs)

-- The loop of `cancel_job_from_status`: in each round others change the database before the update
-- and before the row is read again. `none` means that the rounds ran out.
unfoldable pub cancel_job_from_status :
    ℕ → ℕ → List ((Db → Db) × (Db → Db)) → JobStatus → Db → Db × Option (ApiResult (Unit {0}))
cancel_job_from_status job now [] status db = (db, none)
cancel_job_from_status job now ((before, between) ∷ rounds) status db =
    after_update (cancel_job_from_status job now rounds) between job (before db)
      (cancel_update (before db) job status now)

-- `retry_job`, its read and its update without an interruption.
unfoldable pub retry_job : Db → ℕ → ℕ → ApiResult Db
retry_job db job now = do
  row ← ok_or (find_job job db.jobs) (not_found "image job")
  refuse_if (not (can_transition_to row.status pending)) (bad_request "image job cannot be retried")
  change ← transition_update row.status pending now none
  ok (record db {
    jobs = update_where (λ r. same_status r.status row.status && r.id == job) change db.jobs;
  })

-- `remove_job_storage` forgets the artifact, and the row's deletion takes its owner and its lineage
-- along (`ON DELETE CASCADE`).
unfoldable pub purge_job : Db → ℕ → ApiResult Db
purge_job db job = do
  row ← ok_or (find_job job db.jobs) (not_found "image job")
  refuse_if (same_status row.status pending || same_status row.status running)
      (bad_request "running image jobs must be cancelled first")
  ok (record db {
    jobs = keep (λ r. not (r.id == job)) db.jobs;
    owners = keep (λ o. not (o.job_id == job)) db.owners;
    lineage = keep (λ l. not (l.0 == job)) db.lineage;
  })
