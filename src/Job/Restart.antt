-- ===== src/Job/Restart.antt =====
-- What becomes of a job's attempt number when the job ends and is retried, in src/db.rs and
-- src/image_tools.rs.
use Prim.Native.String.{String}
use mathlib.Core.Option
use donkey.Base.{
  and_left, ==_self, ℕ, ◌≡◌, refl, ◌∙◌, ap, inl, inr, Bool, true, false, ◌&&◌, not, none, some,
  List, [], ◌∷◌, any, keep, arith, Bool-cases, ◌==◌, err, subst,
}
use donkey.Job.{JobStatus, pending, running, JobRow, can_transition_to, same_status}
use donkey.Job.Store.{
  Owner, Db, rows_affected, find_job, find_owner, drop_owner, is_token, ImageJobFinish,
  finish_filter, finished, finish_image_job_owned, claim_filter, claim_image_job,
}
use donkey.Job.Service.{finish_request, owns, entered, retry_job, transition_update, lease_until}
use donkey.Job.Rows.{find_job-update_where, change_if}
use donkey.Job.Finish.{finish_accepted}
use donkey.Job.Requests.{find_job_id}
use donkey.Job.Keys.{Single, affected-Single, step-Single}
use donkey.Job.Fence.{retry-owners}
use donkey.Job.Steps.{finish, retry, step, or_same}

same_self : (s : JobStatus) → same_status s s ≡ true
same_self pending = refl
same_self _ = refl

no_owner :
    (job : ℕ) (p : Owner → Bool) (owners : List Owner)
    → rows_affected (λ o. o.job_id == job) owners ≡ 0
    → find_owner job (keep p owners) ≡ none
unfolding rows_affected find_owner
no_owner job p [] u = refl
no_owner job p (o ∷ owners) u = ground (arith, no_owner job p owners)

none_token :
    (job worker attempt : ℕ) (owners : List Owner)
    → rows_affected (λ o. o.job_id == job) owners ≡ 0
    → any (is_token job worker attempt) owners ≡ false
unfolding rows_affected
none_token job worker attempt [] u = refl
none_token job worker attempt (o ∷ owners) u = ground (arith, none_token job worker attempt owners)

dropped :
    (job worker attempt : ℕ) (owners : List Owner)
    → rows_affected (λ o. o.job_id == job) owners ≡ 1
    → any (is_token job worker attempt) owners ≡ true
    → find_owner job (drop_owner job worker attempt owners) ≡ none
unfolding drop_owner rows_affected find_owner
dropped job worker attempt [] u h = cc
dropped job worker attempt (o ∷ owners) u h = elim (Bool-cases (o.job_id == job)) [
  | inl hit ↦ ground (
    arith,
    no_owner job (λ o. not (is_token job worker attempt o)) owners,
    none_token job worker attempt owners,
  )
  | inr miss ↦ ground (arith, dropped job worker attempt owners)
]

affected_any {ℓ} :
    {A : Type ℓ} (p : A → Bool) (b : Bool) (rows : List A)
    → ((r : A) → p r ≡ true → b ≡ true)
    → (rows_affected p rows == 1) ≡ true
    → b ≡ true
unfolding rows_affected
affected_any p b [] h e = cc
affected_any p b (r ∷ rows) h e = ground (arith, h r, affected_any p b rows h)

-- A finish that is accepted removes the job's owner row, and with it the number of its attempt.
pub finish_forgets_owner :
    (db : Db) (f : ImageJobFinish)
    → rows_affected (λ o. o.job_id == f.job_id) db.owners ≡ 1
    → (finish_image_job_owned db f).1 ≡ true
    → find_owner f.job_id (finish_image_job_owned db f).0.owners ≡ none
unfolding finish_image_job_owned
finish_forgets_owner db f u done =
    elim (Bool-cases (rows_affected (finish_filter db f) db.jobs == 1)) [
      | inl q ↦ rw q (
          dropped f.job_id f.worker_id f.attempt db.owners u (
            affected_any (finish_filter db f)
              (any (is_token f.job_id f.worker_id f.attempt) db.owners) db.jobs
              (λ r c. ground arith) q))
      | inr q ↦ absurd (let no = rw q at done in cc)
    ]

retried_row :
    (db : Db) (job now : ℕ) (r : JobRow)
    → find_job job db.jobs ≡ some r
    → can_transition_to r.status pending ≡ true
    → find_job job (or_same db (retry_job db job now)).jobs ≡ some (entered pending now none r)
unfolding retry_job transition_update
retried_row db job now r found can =
    let p = λ (x : JobRow). same_status x.status r.status && x.id == job in
    let after =
      find_job-update_where job p (entered pending now none) db.jobs (λ x. refl)
      ∙ ap (Option.map (change_if p (entered pending now none))) found in
    let own : r.id ≡ job = find_job_id job db.jobs r found in
    let picked : p r ≡ true = rw (same_self r.status) (rw own (==_self job)) in
    rw (found, can) (rw picked at after)

-- A job without an owner row that is retried and claimed starts at attempt 1.
retry_claim :
    (db : Db) (job worker now later : ℕ) (r : JobRow)
    → find_job job db.jobs ≡ some r
    → Single job db.jobs
    → can_transition_to r.status pending ≡ true
    → find_owner job db.owners ≡ none
    → (claim_image_job (step db (retry job now)) job worker later (lease_until later)).1 ≡ some 1
unfolding claim_image_job
retry_claim db job worker now later r found single can none_yet =
    let rows = (step db (retry job now)).jobs in
    let found' : find_job job rows ≡ some (entered pending now none r) =
      unfold step in retried_row db job now r found can in
    let owners : (step db (retry job now)).owners ≡ db.owners =
      unfold step in retry-owners db job now in
    let count =
      affected-Single job (claim_filter job) rows (entered pending now none r)
        (λ x c. and_left (x.id == job) (same_status x.status pending) c)
        (step-Single db (retry job now) job refl single) found' in
    let own : r.id ≡ job = find_job_id job db.jobs r found in
    let picked : (rows_affected (claim_filter job) rows == 1) ≡ true =
      rw (count, own, ==_self job) refl in
    rw (picked, owners, none_yet) refl

-- The numbers of one job's attempts do not only rise: whatever its number, an attempt at a running
-- job that ends with an error leaves none behind, so that after a retry the next claim, by any
-- worker, gets number 1 again. The job's row and its owner row are unique, and no cancellation was
-- requested.
pub retry_claim_restarts :
    (db : Db) (job worker attempt other ended retried claimed_at : ℕ) (text : String) (r : JobRow)
    → find_job job db.jobs ≡ some r
    → Single job db.jobs
    → r.status ≡ running
    → r.cancel_requested ≡ false
    → owns db job worker attempt ≡ true
    → rows_affected (λ o. o.job_id == job) db.owners ≡ 1
    → let failed_db = step db (finish job worker attempt ended false (err text)) in
      let queued_db = step failed_db (retry job retried) in
      (claim_image_job queued_db job other claimed_at (lease_until claimed_at)).1 ≡ some 1
unfolding step can_transition_to
retry_claim_restarts db job worker attempt other ended retried claimed_at text r found single runs
      calm own unique =
    let f = finish_request job worker attempt ended false (err text) in
    let as_read = λ (b : Bool). finish_request job worker attempt ended b (err text) in
    let (accepted, row, gone) =
      finish_accepted db job worker attempt ended (err text) r found single runs own in
    let done : (finish_image_job_owned db f).1 ≡ true =
      subst (λ b. (finish_image_job_owned db (as_read b)).1 ≡ true) calm accepted in
    let here : find_job job (finish_image_job_owned db f).0.jobs ≡ some (finished f r) =
      subst
        (λ b.
          find_job job (finish_image_job_owned db (as_read b)).0.jobs
          ≡ some (finished (as_read b) r))
        calm row in
    retry_claim (finish_image_job_owned db f).0 job other retried claimed_at (finished f r) here
      (step-Single db (finish job worker attempt ended false (err text)) job refl single) refl
      (finish_forgets_owner db f unique done)
