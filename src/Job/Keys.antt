-- ===== src/Job/Keys.antt =====
-- The primary key of the job table of src/db.rs: one row for an identifier, in every history.
use donkey.Base.{
  ℕ, ◌≡◌, refl, sym, ◌∙◌, inl, inr, Bool, true, false, ◌&&◌, ◌||◌, not, none, some, List, [], ◌∷◌,
  any, keep, arith, Bool-cases, Option-cases, ==_iff, ◌==◌, if◌then◌else◌, snoc,
}
use donkey.Job.{JobStatus, pending, running, cancelled, JobRow, can_transition_to, same_status}
use donkey.Job.Store.{
  Db, update_where, rows_affected, find_job, owned_filter, update_owned, renew_image_job,
  update_image_job_manifest_owned, update_image_job_progress_owned, update_image_job_stage_owned,
  update_image_job_artifact_owned, ImageJobFinish, finish_filter, renewed, with_manifest,
  with_progress, with_stage, with_artifact, finished, finish_image_job_owned, claim_filter, claimed,
}
use donkey.Job.Direct.{direct_filter, direct_change, write_direct}
use donkey.Job.Changes.{direct_change-id}
use donkey.Job.Service.{
  finish_request, lease_until, abandoned, cancel_abandoned, requeue_abandoned,
  recover_abandoned_jobs, cancel_update, retry_job, purge_job, transition_update, entered,
  recovered, requested,
}
use donkey.Job.Rows.{claim_image_job-jobs}
use donkey.Job.Changes.{is_purge}
use donkey.Job.Steps.{
  JobStep, submit, claim, renew, manifest, progress, stage, artifact, finish, recover, cancel,
  retry, purge, direct, step, submit_job, pending_job, or_same, or_same_with,
}

-- The primary key: one row carries the identifier.
abbrev pub Single : ℕ → List JobRow → Type 0
Single job rows = rows_affected (λ r. r.id == job) rows ≡ 1

pub affected_none {ℓ} :
    {A : Type ℓ} (p q : A → Bool) (rows : List A)
    → ((r : A) → p r ≡ true → q r ≡ true)
    → rows_affected q rows ≡ 0
    → rows_affected p rows ≡ 0
unfolding rows_affected
affected_none p q [] h e = refl
affected_none p q (r ∷ rows) h e = ground (arith, h r, affected_none p q rows h)

-- A statement on one job changes a row exactly if it picks the job's row.
pub affected-Single :
    (job : ℕ) (p : JobRow → Bool) (rows : List JobRow) (r : JobRow)
    → ((x : JobRow) → p x ≡ true → (x.id == job) ≡ true)
    → Single job rows
    → find_job job rows ≡ some r
    → rows_affected p rows ≡ (if p r then 1 else 0)
unfolding rows_affected find_job
affected-Single job p [] r h u e = cc
affected-Single job p (x ∷ rows) r h u e = elim (Bool-cases (x.id == job)) [
  | inl hit ↦ ground (arith, affected_none p (λ y. y.id == job) rows h, h x)
  | inr miss ↦ ground (arith, h x, affected-Single job p rows r h)
]

Single-update :
    (job : ℕ) (p : JobRow → Bool) (f : JobRow → JobRow) (rows : List JobRow)
    → ((x : JobRow) → (f x).id ≡ x.id)
    → rows_affected (λ x. x.id == job) (update_where p f rows)
      ≡ rows_affected (λ x. x.id == job) rows
unfolding rows_affected update_where
Single-update job p f [] ids = refl
Single-update job p f (x ∷ rows) ids = ground (arith, ids x, Single-update job p f rows ids)

Single-keep :
    (job j : ℕ) (rows : List JobRow)
    → (j == job) ≡ false
    → rows_affected (λ x. x.id == job) (keep (λ x. not (x.id == j)) rows)
      ≡ rows_affected (λ x. x.id == job) rows
unfolding rows_affected
Single-keep job j [] h = refl
Single-keep job j (x ∷ rows) h = ground (arith, Single-keep job j rows h)

Single-any : (job : ℕ) (rows : List JobRow) → Single job rows → any (λ x. x.id == job) rows ≡ true
unfolding rows_affected
Single-any job [] u = absurd (omega arith)
Single-any job (x ∷ rows) u = ground (arith, Single-any job rows)

affected_snoc :
    (job : ℕ) (rows : List JobRow) (new : JobRow)
    → (new.id == job) ≡ false
    → rows_affected (λ x. x.id == job) (snoc rows new) ≡ rows_affected (λ x. x.id == job) rows
unfolding rows_affected
affected_snoc job [] new h = ground arith
affected_snoc job (x ∷ rows) new h = ground (arith, affected_snoc job rows new)

submit-Single :
    (db : Db) (id now job : ℕ)
    → Single job db.jobs
    → Single job (submit_job db (pending_job id now)).jobs
unfolding submit_job
submit-Single db id now job u = elim (Bool-cases (any (λ x. x.id == id) db.jobs)) [
  | inl q ↦ rw q u
  | inr q ↦ elim (Bool-cases (id == job)) [
    | inl e ↦
        let same : id ≡ job = (==_iff id job).0 e in
        let there = Single-any job db.jobs u in
        let gone = rw same at q in absurd (let no : true ≡ false = sym there ∙ gone in cc)
    | inr e ↦ rw q (affected_snoc job db.jobs (pending_job id now) e ∙ u)
  ]
]

recover-Single :
    (db : Db) (now job : ℕ) → Single job db.jobs → Single job (recover_abandoned_jobs db now).0.jobs
unfolding recover_abandoned_jobs cancel_abandoned requeue_abandoned
recover-Single db now job u = elim (Bool-cases (any (abandoned now) db.jobs)) [
  | inl q ↦ rw q (
      Single-update job (λ r. abandoned now r && not r.cancel_requested) (recovered now)
        (update_where (λ r. abandoned now r && r.cancel_requested) (entered cancelled now none)
          db.jobs)
        (λ x. refl)
      ∙ Single-update job (λ r. abandoned now r && r.cancel_requested) (entered cancelled now none)
          db.jobs (λ x. refl)
      ∙ u)
  | inr q ↦ rw q u
]

retry-Single :
    (db : Db) (j now job : ℕ)
    → Single job db.jobs
    → Single job (or_same db (retry_job db j now)).jobs
unfolding retry_job transition_update
retry-Single db j now job u = elim (Option-cases (find_job j db.jobs)) [
  | inl q ↦ rw q u
  | inr (row, q) ↦ elim (Bool-cases (can_transition_to row.status pending)) [
    | inr t ↦ rw (q, t) u
    | inl t ↦
        rw (q, t)
          (Single-update job (λ x. same_status x.status row.status && x.id == j)
              (entered pending now none) db.jobs (λ x. refl)
            ∙ u)
  ]
]

purge-Single :
    (db : Db) (j job : ℕ)
    → (j == job) ≡ false
    → Single job db.jobs
    → Single job (or_same db (purge_job db j)).jobs
unfolding purge_job
purge-Single db j job h u = elim (Option-cases (find_job j db.jobs)) [
  | inl q ↦ rw q u
  | inr (row, q) ↦
      elim (Bool-cases (same_status row.status pending || same_status row.status running)) [
        | inl t ↦ rw (q, t) u
        | inr t ↦ rw (q, t) (Single-keep job j db.jobs h ∙ u)
      ]
]

finish-Single :
    (db : Db) (f : ImageJobFinish) (job : ℕ)
    → Single job db.jobs
    → Single job (finish_image_job_owned db f).0.jobs
unfolding finish_image_job_owned
finish-Single db f job u =
    let kept = Single-update job (finish_filter db f) (finished f) db.jobs (λ x. refl) ∙ u in
    elim (Bool-cases (rows_affected (finish_filter db f) db.jobs == 1)) [
      | inl q ↦ rw q kept
      | inr q ↦ rw q kept
    ]

owned-Single :
    (f : JobRow → JobRow) (db : Db) (j w a job : ℕ)
    → ((x : JobRow) → (f x).id ≡ x.id)
    → Single job db.jobs
    → Single job (update_owned f db j w a).0.jobs
unfolding update_owned
owned-Single f db j w a job ids u = Single-update job (owned_filter db j w a) f db.jobs ids ∙ u

cancel-Single :
    (db : Db) (j : ℕ) (from : JobStatus) (now job : ℕ)
    → Single job db.jobs
    → Single job (or_same_with db (cancel_update db j from now)).jobs
unfolding cancel_update transition_update can_transition_to
cancel-Single db j pending now job u =
    Single-update job (λ x. same_status x.status pending && x.id == j) (entered cancelled now none)
      db.jobs (λ x. refl)
    ∙ u
cancel-Single db j running now job u =
    Single-update job (λ x. x.id == j && same_status x.status running) (requested now) db.jobs
      (λ x. refl)
    ∙ u
cancel-Single db j _ now job u = u

-- No step makes a second row for a job or, other than by a purge of it, takes its row away.
pub step-Single :
    (db : Db) (s : JobStep) (job : ℕ)
    → is_purge job s ≡ false
    → Single job db.jobs
    → Single job (step db s).jobs
unfolding step renew_image_job update_image_job_manifest_owned update_image_job_progress_owned
    update_image_job_stage_owned update_image_job_artifact_owned write_direct
step-Single db (submit id now) job h u = submit-Single db id now job u
step-Single db (claim j w now) job h u =
    rw (claim_image_job-jobs db j w now (lease_until now))
      (Single-update job (claim_filter j) (claimed now (lease_until now)) db.jobs (λ x. refl) ∙ u)
step-Single db (renew j w a now) job h u =
    owned-Single (renewed now (lease_until now)) db j w a job (λ x. refl) u
step-Single db (manifest j w a digest index total now) job h u =
    owned-Single (with_manifest digest index total now) db j w a job (λ x. refl) u
step-Single db (progress j w a text current total now) job h u =
    owned-Single (with_progress text current total (lease_until now) now) db j w a job (λ x. refl) u
step-Single db (stage j w a text now) job h u =
    owned-Single (with_stage text (lease_until now) now) db j w a job (λ x. refl) u
step-Single db (artifact j w a path name now) job h u =
    owned-Single (with_artifact path name now) db j w a job (λ x. refl) u
step-Single db (finish j w a now flag result) job h u =
    finish-Single db (finish_request j w a now flag result) job u
step-Single db (recover now) job h u = recover-Single db now job u
step-Single db (cancel j from now) job h u = cancel-Single db j from now job u
step-Single db (retry j now) job h u = retry-Single db j now job u
step-Single db (purge j) job h u = purge-Single db j job h u
step-Single db (direct j write) job h u =
    Single-update job (direct_filter j write) (direct_change write) db.jobs (direct_change-id write)
    ∙ u

update_none :
    (p q : JobRow → Bool) (f : JobRow → JobRow) (rows : List JobRow)
    → ((x : JobRow) → p x ≡ true → q x ≡ true)
    → rows_affected q rows ≡ 0
    → update_where p f rows ≡ rows
unfolding update_where rows_affected
update_none p q f [] h u = refl
update_none p q f (x ∷ rows) h u = ground (arith, h x, update_none p q f rows h)

-- A statement on one job that misses the job's row changes nothing.
pub update_missed :
    (job : ℕ) (p : JobRow → Bool) (f : JobRow → JobRow) (rows : List JobRow) (r : JobRow)
    → ((x : JobRow) → p x ≡ true → (x.id == job) ≡ true)
    → Single job rows
    → find_job job rows ≡ some r
    → p r ≡ false
    → update_where p f rows ≡ rows
unfolding update_where rows_affected find_job
update_missed job p f [] r h u e miss = refl
update_missed job p f (x ∷ rows) r h u e miss =
    ground (arith, h x, update_none p (λ y. y.id == job) f rows h, update_missed job p f rows r h)
