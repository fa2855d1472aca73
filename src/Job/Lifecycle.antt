-- ===== src/Job/Lifecycle.antt =====
-- The life of an image job in src/image_tools.rs: which columns fit which state, whatever the
-- workers and the users do, and in whatever order.
use donkey.Base.{
  and_left, and_right, All-keep, All-snoc, ℕ, ◌≡◌, ◌≢◌, refl, inl, inr, Bool, true, false, ◌&&◌,
  Option, none, some, List, [], ◌∷◌, All, any, Bool-cases, Option-cases, Result, ok, err, ◌==◌, not,
  ◌||◌,
}
use donkey.Job.{
  JobStatus, pending, running, completed, skipped, failed, cancelled, JobRow, can_transition_to,
  same_status,
}
use donkey.Job.Store.{
  Db, update_where, claim_filter, claimed, update_owned, owned_filter, renew_image_job,
  update_image_job_manifest_owned, update_image_job_progress_owned, update_image_job_stage_owned,
  update_image_job_artifact_owned, finish_image_job_owned, finish_filter, finished, find_job,
  renewed, with_manifest, with_progress, with_stage, with_artifact, is_token, rows_affected,
}
use donkey.Job.Direct.{
  DirectWrite, sets_manifest, sets_progress, sets_stage, sets_artifact, forgets_storage,
  direct_filter, direct_change, write_direct,
}
use donkey.Job.Service.{
  JobOutcome, lease_until, entered, abandoned, recovered, transition_update, cancel_abandoned,
  requeue_abandoned, recover_abandoned_jobs, finish_request, cancel_update, retry_job, purge_job,
  requested, done, skip,
}
use donkey.Job.Rows.{All-update_where, same_status-eq, same_bool-eq, claim_image_job-jobs}
use donkey.Job.Steps.{
  JobStep, submit, claim, renew, manifest, progress, stage, artifact, finish, recover, cancel,
  retry, purge, direct, pending_job, submit_job, step, run, or_same, or_same_with,
}
use Prim.Native.String.{String}

-- The columns of a row that belong to its state. A pending job has no times and no lease; a running
-- one has a start and a lease; an ended one has an end and no lease, and it is cancelled exactly if
-- its cancellation was requested.
abbrev pub Fits : JobStatus → JobRow → Type 0
Fits pending r =
    (r.lease_until ≡ none)
    × (r.started_at ≡ none)
    × (r.finished_at ≡ none)
    × (r.cancel_requested ≡ false)
Fits running r = (r.lease_until ≢ none) × (r.started_at ≢ none) × (r.finished_at ≡ none)
Fits cancelled r = (r.lease_until ≡ none) × (r.finished_at ≢ none) × (r.cancel_requested ≡ true)
Fits _ r = (r.lease_until ≡ none) × (r.finished_at ≢ none) × (r.cancel_requested ≡ false)

abbrev pub IsWellFormed : JobRow → Type 0
IsWellFormed r = Fits r.status r

claimed-IsWellFormed :
    (now lease : ℕ) (r : JobRow)
    → r.status ≡ pending
    → IsWellFormed r
    → IsWellFormed (claimed now lease r)
claimed-IsWellFormed now lease r e w = let w' = rw e at w in ((λ q. cc), (λ q. cc), w'.2)

update_owned-jobs :
    (change : JobRow → JobRow) (db : Db) (job worker attempt : ℕ)
    → ((r : JobRow) → r.status ≡ running → IsWellFormed r → IsWellFormed (change r))
    → All IsWellFormed db.jobs
    → All IsWellFormed (update_owned change db job worker attempt).0.jobs
unfolding update_owned
update_owned-jobs change db job worker attempt keeps h =
    All-update_where IsWellFormed (owned_filter db job worker attempt) change db.jobs
      (λ r w e.
        keeps r
          (same_status-eq r.status running (
            and_right (r.id == job) _ (and_left _ (any (is_token job worker attempt) db.owners) e)))
          w)
      h

-- What a step does to the rows, given that it picks rows in one state only.
update_status :
    (s : JobStatus) (p : JobRow → Bool) (f : JobRow → JobRow) (rows : List JobRow)
    → ((r : JobRow) → p r ≡ true → same_status r.status s ≡ true)
    → ((r : JobRow) → r.status ≡ s → IsWellFormed r → IsWellFormed (f r))
    → All IsWellFormed rows
    → All IsWellFormed (update_where p f rows)
update_status s p f rows picks keeps h =
    All-update_where IsWellFormed p f rows
      (λ r w e. keeps r (same_status-eq r.status s (picks r e)) w) h

-- A transition gives its target state every column that belongs to it.
entered-IsWellFormed :
    (to : JobStatus) (now : ℕ) (error : Option String) (r : JobRow)
    → IsWellFormed (entered to now error r)
entered-IsWellFormed pending now error r = (refl, refl, refl, refl)
entered-IsWellFormed running now error r = ((λ q. cc), (λ q. cc), refl)
entered-IsWellFormed completed now error r = (refl, (λ q. cc), refl)
entered-IsWellFormed skipped now error r = (refl, (λ q. cc), refl)
entered-IsWellFormed failed now error r = (refl, (λ q. cc), refl)
entered-IsWellFormed cancelled now error r = (refl, (λ q. cc), refl)

recover-jobs :
    (db : Db) (now : ℕ)
    → All IsWellFormed db.jobs
    → All IsWellFormed (recover_abandoned_jobs db now).0.jobs
unfolding recover_abandoned_jobs cancel_abandoned requeue_abandoned
recover-jobs db now h = elim (Bool-cases (any (abandoned now) db.jobs)) [
  | inl e ↦ rw e (
      All-update_where IsWellFormed (λ r. abandoned now r && not r.cancel_requested) (recovered now)
        (update_where (λ r. abandoned now r && r.cancel_requested) (entered cancelled now none)
          db.jobs)
        (λ r w q. (refl, refl, refl, refl))
        (All-update_where IsWellFormed (λ r. abandoned now r && r.cancel_requested)
          (entered cancelled now none) db.jobs (λ r w q. entered-IsWellFormed cancelled now none r)
          h))
  | inr e ↦ rw e h
]

finished-IsWellFormed :
    (job worker attempt now : ℕ) (flag : Bool) (result : Result JobOutcome String) (r : JobRow)
    → r.cancel_requested ≡ flag
    → IsWellFormed (finished (finish_request job worker attempt now flag result) r)
finished-IsWellFormed job worker attempt now true result r e = (refl, (λ q. cc), e)
finished-IsWellFormed job worker attempt now false (ok done) r e = (refl, (λ q. cc), e)
finished-IsWellFormed job worker attempt now false (ok skip) r e = (refl, (λ q. cc), e)
finished-IsWellFormed job worker attempt now false (err error) r e = (refl, (λ q. cc), e)

finish-jobs :
    (db : Db) (job worker attempt now : ℕ) (flag : Bool) (result : Result JobOutcome String)
    → All IsWellFormed db.jobs
    → All IsWellFormed
        (finish_image_job_owned db (finish_request job worker attempt now flag result)).0.jobs
unfolding finish_image_job_owned
finish-jobs db job worker attempt now flag result h =
    let f = finish_request job worker attempt now flag result in
    let picked : All IsWellFormed (update_where (finish_filter db f) (finished f) db.jobs) =
      All-update_where IsWellFormed (finish_filter db f) (finished f) db.jobs
        (λ r w e. finished-IsWellFormed job worker attempt now flag result r (
          same_bool-eq r.cancel_requested flag
            (and_right (owned_filter db job worker attempt r) _ e)))
        h in
    elim (Bool-cases (rows_affected (finish_filter db f) db.jobs == 1)) [
      | inl e ↦ rw e picked
      | inr e ↦ rw e picked
    ]

cancel-jobs :
    (db : Db) (job : ℕ) (s : JobStatus) (now : ℕ)
    → All IsWellFormed db.jobs
    → All IsWellFormed (or_same_with db (cancel_update db job s now)).jobs
unfolding cancel_update transition_update can_transition_to
cancel-jobs db job pending now h =
    All-update_where IsWellFormed (λ r. same_status r.status pending && r.id == job)
      (entered cancelled now none) db.jobs (λ r w q. entered-IsWellFormed cancelled now none r) h
cancel-jobs db job running now h =
    update_status running (λ r. r.id == job && same_status r.status running) (requested now) db.jobs
      (λ r e. and_right (r.id == job) _ e) (λ r e w. let w' = rw e at w in rw e w') h
cancel-jobs db job _ now h = h

retry-jobs :
    (db : Db) (job now : ℕ)
    → All IsWellFormed db.jobs
    → All IsWellFormed (or_same db (retry_job db job now)).jobs
unfolding retry_job transition_update
retry-jobs db job now h = elim (Option-cases (find_job job db.jobs)) [
  | inl e ↦ rw e h
  | inr (row, e) ↦ elim (Bool-cases (can_transition_to row.status pending)) [
    | inl t ↦
        rw (e, t)
          (All-update_where IsWellFormed (λ r. same_status r.status row.status && r.id == job)
            (entered pending now none) db.jobs (λ r w q. entered-IsWellFormed pending now none r) h)
    | inr t ↦ rw (e, t) h
  ]
]

purge-jobs :
    (db : Db) (job : ℕ)
    → All IsWellFormed db.jobs
    → All IsWellFormed (or_same db (purge_job db job)).jobs
unfolding purge_job
purge-jobs db job h = elim (Option-cases (find_job job db.jobs)) [
  | inl e ↦ rw e h
  | inr (row, e) ↦
      elim (Bool-cases (same_status row.status pending || same_status row.status running)) [
        | inl t ↦ rw (e, t) h
        | inr t ↦ rw (e, t) (All-keep IsWellFormed (λ r. not (r.id == job)) db.jobs h)
      ]
]

submit-jobs :
    (db : Db) (id now : ℕ)
    → All IsWellFormed db.jobs
    → All IsWellFormed (submit_job db (pending_job id now)).jobs
unfolding submit_job
submit-jobs db id now h = elim (Bool-cases (any (λ r. r.id == id) db.jobs)) [
  | inl e ↦ rw e h
  | inr e ↦ rw e (All-snoc IsWellFormed db.jobs (pending_job id now) (refl, refl, refl, refl) h)
]

-- The digests, the total size and the artifact belong to no state.
noted-Fits :
    (s : JobStatus) (r : JobRow) (total : ℕ) (digest index path name : Option String)
    → Fits s r
    → Fits s (record r {
      resolved_digest = digest;
      index_digest = index;
      total_bytes = total;
      artifact_path = path;
      artifact_name = name;
    })
noted-Fits pending r total digest index path name w = w
noted-Fits running r total digest index path name w = w
noted-Fits cancelled r total digest index path name w = w
noted-Fits completed r total digest index path name w = w
noted-Fits skipped r total digest index path name w = w
noted-Fits failed r total digest index path name w = w

direct_change-IsWellFormed :
    (job : ℕ) (write : DirectWrite) (r : JobRow)
    → IsWellFormed r
    → direct_filter job write r ≡ true
    → IsWellFormed (direct_change write r)
direct_change-IsWellFormed job (sets_manifest digest index total) r w h =
    noted-Fits r.status r total (some digest) index r.artifact_path r.artifact_name w
direct_change-IsWellFormed job (sets_progress text current total now) r w h =
    let e = same_status-eq r.status running (and_right (r.id == job) _ h) in
    let w' = rw e at w in rw e ((λ q. cc), w'.1, w'.2)
direct_change-IsWellFormed job (sets_stage text now) r w h =
    let e = same_status-eq r.status running (and_right (r.id == job) _ h) in
    let w' = rw e at w in rw e ((λ q. cc), w'.1, w'.2)
direct_change-IsWellFormed job (sets_artifact path name) r w h =
    noted-Fits r.status r r.total_bytes r.resolved_digest r.index_digest (some path) (some name) w
direct_change-IsWellFormed job forgets_storage r w h =
    noted-Fits r.status r r.total_bytes r.resolved_digest r.index_digest none none w

direct-jobs :
    (db : Db) (job : ℕ) (write : DirectWrite)
    → All IsWellFormed db.jobs
    → All IsWellFormed (write_direct db job write).jobs
unfolding write_direct
direct-jobs db job write h =
    All-update_where IsWellFormed (direct_filter job write) (direct_change write) db.jobs
      (λ r w e. direct_change-IsWellFormed job write r w e) h

-- Every step keeps the columns of every row in agreement with its state.
pub step-IsWellFormed :
    (db : Db) (s : JobStep) → All IsWellFormed db.jobs → All IsWellFormed (step db s).jobs
unfolding step renew_image_job update_image_job_manifest_owned update_image_job_progress_owned
    update_image_job_stage_owned update_image_job_artifact_owned
step-IsWellFormed db (submit id now) h = submit-jobs db id now h
step-IsWellFormed db (claim job worker now) h =
    rw (claim_image_job-jobs db job worker now (lease_until now)) (
      update_status pending (claim_filter job) (claimed now (lease_until now)) db.jobs
        (λ r e. and_right (r.id == job) _ e) (claimed-IsWellFormed now (lease_until now)) h)
step-IsWellFormed db (renew job worker attempt now) h =
    update_owned-jobs (renewed now (lease_until now)) db job worker attempt
      (λ r e w. let w' = rw e at w in rw e ((λ q. cc), w'.1, w'.2)) h
step-IsWellFormed db (manifest job worker attempt digest index total now) h =
    update_owned-jobs (with_manifest digest index total now) db job worker attempt
      (λ r e w. let w' = rw e at w in rw e w') h
step-IsWellFormed db (progress job worker attempt text current total now) h =
    update_owned-jobs (with_progress text current total (lease_until now) now) db job worker attempt
      (λ r e w. let w' = rw e at w in rw e ((λ q. cc), w'.1, w'.2)) h
step-IsWellFormed db (stage job worker attempt text now) h =
    update_owned-jobs (with_stage text (lease_until now) now) db job worker attempt
      (λ r e w. let w' = rw e at w in rw e ((λ q. cc), w'.1, w'.2)) h
step-IsWellFormed db (artifact job worker attempt path name now) h =
    update_owned-jobs (with_artifact path name now) db job worker attempt
      (λ r e w. let w' = rw e at w in rw e w') h
step-IsWellFormed db (finish job worker attempt now flag result) h =
    finish-jobs db job worker attempt now flag result h
step-IsWellFormed db (recover now) h = recover-jobs db now h
step-IsWellFormed db (cancel job s now) h = cancel-jobs db job s now h
step-IsWellFormed db (retry job now) h = retry-jobs db job now h
step-IsWellFormed db (purge job) h = purge-jobs db job h
step-IsWellFormed db (direct job write) h = direct-jobs db job write h

-- Every history keeps, for every job, the columns in agreement with the state: whatever workers,
-- users and restarts do, in whatever order and with whatever stale reads.
pub run-IsWellFormed :
    (steps : List JobStep) (db : Db)
    → All IsWellFormed db.jobs
    → All IsWellFormed (run db steps).jobs
unfolding run
run-IsWellFormed [] db h = h
run-IsWellFormed (s ∷ steps) db h = run-IsWellFormed steps (step db s) (step-IsWellFormed db s h)
