-- ===== src/Job/Takeover.antt =====
-- The takeover of a job by another worker: the old attempt's token stays out of the owner table, so
-- what the old worker still writes is refused.

use donkey.Base.{
  and_left, ==_self, ℕ, ◌+◌, ◌<◌, min, ◌≡◌, refl, inl, true, false, some, List, any, arith, ◌==◌,
}
use donkey.Job.{pending, JobRow, same_status}
use donkey.Job.Store.{
  Owner, Db, rows_affected, find_job, find_owner, i64_max, claim_filter, claim_image_job,
}
use donkey.Job.Service.{lease_until}
use donkey.Job.Moves.{step-Moved}
use donkey.Job.Requests.{find_job_id}
use donkey.Job.Changes.{is_purge, is_retry}
use donkey.Job.Fencing.{token_of, step_absent}
use donkey.Job.Keys.{Single, affected-Single, step-Single}
use donkey.Job.Steps.{JobStep, claim, step, run}
use donkey.Job.Owners.{Newer, is_held, is_held-put_self, Newer-absent, put_only}
use donkey.Job.Fence.{run-Fenced}
use donkey.Job.Guard.{Fenced}

claim_over :
    (db : Db) (job worker now : ℕ) (o : Owner)
    → (rows_affected (claim_filter job) db.jobs == 1) ≡ true
    → find_owner job db.owners ≡ some o
    → rows_affected (λ x. x.job_id == job) db.owners ≡ 1
    → o.attempt < i64_max
    → Newer job o.attempt (claim_image_job db job worker now (lease_until now)).0.owners
      × (is_held job (claim_image_job db job worker now (lease_until now)).0.owners ≡ true)
unfolding claim_image_job
claim_over db job worker now o picked owner unique m =
    let attempt = min (o.attempt + 1) i64_max in
    rw (picked, owner)
      (
        put_only job o.attempt worker attempt db.owners (omega arith) unique,
        is_held-put_self job (record { job_id = job; worker_id = worker; attempt = attempt })
            db.owners refl,
      )

claimed-Fenced :
    (db : Db) (job worker now : ℕ) (o : Owner) (r : JobRow)
    → find_job job db.jobs ≡ some r
    → r.status ≡ pending
    → Single job db.jobs
    → find_owner job db.owners ≡ some o
    → rows_affected (λ x. x.job_id == job) db.owners ≡ 1
    → o.attempt < i64_max
    → Fenced job o.attempt (step db (claim job worker now))
claimed-Fenced db job worker now o r found waits single owner unique m =
    let (r', found', moved) = step-Moved db (claim job worker now) job r found refl in
    let count =
      affected-Single job (claim_filter job) db.jobs r
        (λ x c. and_left (x.id == job) (same_status x.status pending) c) single found in
    let own : r.id ≡ job = find_job_id job db.jobs r found in
    let picked : (rows_affected (claim_filter job) db.jobs == 1) ≡ true =
      rw (count, waits, own, ==_self job) refl in
    let over = claim_over db job worker now o picked owner unique m in
    record {
      row = r';
      found = found';
      single = step-Single db (claim job worker now) job refl single;
      newer = unfold step in over.0;
      held = inl (unfold step in over.1);
    }

-- Once another worker has claimed a pending job over the owner row of an earlier attempt, no write
-- under that attempt changes anything again, at any point of any history that neither retries nor
-- purges the job: renewals, manifests, progress, stages, artifacts and finishes of the old worker
-- are all refused. The owner row and the job's row are unique by their primary keys.
pub takeover :
    (db : Db) (job worker now : ℕ) (o : Owner) (r : JobRow) (steps : List JobStep) (late : JobStep)
    → find_job job db.jobs ≡ some r
    → r.status ≡ pending
    → Single job db.jobs
    → find_owner job db.owners ≡ some o
    → rows_affected (λ x. x.job_id == job) db.owners ≡ 1
    → o.attempt < i64_max
    → any (is_purge job) steps ≡ false
    → any (is_retry job) steps ≡ false
    → token_of late ≡ some (job, o.worker_id, o.attempt)
    → step (run (step db (claim job worker now)) steps) late
      ≡ run (step db (claim job worker now)) steps
takeover db job worker now o r steps late found waits single owner unique m p q t =
    let fenced =
      run-Fenced job o.attempt steps (step db (claim job worker now)) m p q
        (claimed-Fenced db job worker now o r found waits single owner unique m) in
    step_absent (run (step db (claim job worker now)) steps) late job o.worker_id o.attempt t (
      Newer-absent job o.attempt o.worker_id o.attempt
        (run (step db (claim job worker now)) steps).owners (omega arith) fenced.newer)
