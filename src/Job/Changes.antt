-- ===== src/Job/Changes.antt =====
-- How the statements on jobs of src/db.rs change one job's row: claims, owned updates and finishes.
use Prim.Native.String.{String}
use mathlib.Core.Option
use donkey.Base.{
  and_left, and_right, ℕ, ◌≡◌, refl, ap, ◌∙◌, inl, inr, ◌⊎◌, Bool, true, false, ◌&&◌, ◌||◌, some,
  List, any, Bool-cases, Result, ok, err, ◌==◌,
}
use donkey.Job.{JobStatus, pending, running, JobRow, can_transition_to, same_status}
use donkey.Job.Store.{
  Db, update_where, find_job, rows_affected, claim_filter, claimed, claim_image_job, update_owned,
  owned_filter, finish_image_job_owned, finish_filter, finished, is_token,
}
use donkey.Job.Service.{JobOutcome, done, skip, lease_until, finish_request, finish_target}
use donkey.Job.Rows.{find_job-update_where, change_if, same_status-eq, claim_image_job-jobs}
use donkey.Job.Direct.{
  DirectWrite, sets_manifest, sets_progress, sets_stage, sets_artifact, forgets_storage,
  direct_filter, direct_change, write_direct,
}
use donkey.Job.Steps.{JobStep, claim, finish, retry, purge, direct}

-- Whether a step is an explicit retry, or a purge, of that job.
abbrev pub is_retry : ℕ → JobStep → Bool
is_retry job (retry j now) = j == job
is_retry job _ = false

abbrev pub is_purge : ℕ → JobStep → Bool
is_purge job (purge j) = j == job
is_purge job _ = false

abbrev pub is_active : JobStatus → Bool
is_active s = same_status s pending || same_status s running

-- A state is kept, changes along the state machine, or goes back to the queue by a recovery.
abbrev pub may_move : JobStatus → JobStatus → Bool
may_move s t =
    same_status s t || can_transition_to s t || (same_status s running && same_status t pending)

-- The rows differ at most in the digests, the total size and the artifact, which may be written on
-- a job in any state.
abbrev pub Noted : JobRow → JobRow → Type 0
Noted r r' = r' ≡ record r {
  resolved_digest = r'.resolved_digest;
  index_digest = r'.index_digest;
  total_bytes = r'.total_bytes;
  artifact_path = r'.artifact_path;
  artifact_name = r'.artifact_name;
}

-- A row that changed in more was active, or it was retried from a state that allows it; its state
-- moved as it may.
abbrev pub Moved : ℕ → JobStep → JobRow → JobRow → Type 0
Moved job s r r' =
    Noted r r'
    ⊎ ((may_move r.status r'.status ≡ true)
        × ((is_active r.status ≡ true)
            ⊎ ((is_retry job s ≡ true) × (can_transition_to r.status pending ≡ true))))

abbrev pub Next : ℕ → JobStep → JobRow → List JobRow → Type 0
Next job s r rows = (r' : JobRow) × (find_job job rows ≡ some r') × Moved job s r r'

pub by_update :
    (job : ℕ) (s : JobStep) (p : JobRow → Bool) (f : JobRow → JobRow) (rows : List JobRow)
    (r : JobRow)
    → ((x : JobRow) → (f x).id ≡ x.id)
    → (p r ≡ true → Moved job s r (f r))
    → find_job job rows ≡ some r
    → Next job s r (update_where p f rows)
by_update job s p f rows r ids moves e =
    let found : find_job job (update_where p f rows) ≡ some (change_if p f r) =
      find_job-update_where job p f rows ids ∙ ap (Option.map (change_if p f)) e in
    elim (Bool-cases (p r)) [
      | inl hit ↦ (f r, rw hit at found, moves hit)
      | inr miss ↦ (r, rw miss at found, inl refl)
    ]

pub same :
    (job : ℕ) (s : JobStep) (r : JobRow) (rows : List JobRow)
    → find_job job rows ≡ some r
    → Next job s r rows
same job s r rows e = (r, e, inl refl)

-- A running row may become what the test allows.
pub from_running :
    (job : ℕ) (s : JobStep) (r r' : JobRow)
    → r.status ≡ running
    → may_move running r'.status ≡ true
    → Moved job s r r'
from_running job s r r' e m = inr (rw e m, inl (rw e refl))

pub by_owned :
    (job : ℕ) (s : JobStep) (f : JobRow → JobRow) (db : Db) (j worker attempt : ℕ) (r : JobRow)
    → ((x : JobRow) → (f x).id ≡ x.id)
    → ((x : JobRow) → (f x).status ≡ x.status)
    → find_job job db.jobs ≡ some r
    → Next job s r (update_owned f db j worker attempt).0.jobs
unfolding update_owned can_transition_to
by_owned job s f db j worker attempt r ids states e =
    by_update job s (owned_filter db j worker attempt) f db.jobs r ids
      (λ h.
        let e' : r.status ≡ running =
          same_status-eq r.status running
            (and_right (r.id == j) _ (and_left _ (any (is_token j worker attempt) db.owners) h)) in
        from_running job s r (f r) e' (rw (states r, e') refl))
      e

pub finish_may_move :
    (flag : Bool) (result : Result JobOutcome String)
    → may_move running (finish_target flag result).0 ≡ true
unfolding can_transition_to
finish_may_move true result = refl
finish_may_move false (ok done) = refl
finish_may_move false (ok skip) = refl
finish_may_move false (err error) = refl

pub by_finish :
    (job j worker attempt now : ℕ) (flag : Bool) (result : Result JobOutcome String) (db : Db)
    (r : JobRow)
    → find_job job db.jobs ≡ some r
    → Next job
        (finish j worker attempt now flag result)
        r
        (finish_image_job_owned db (finish_request j worker attempt now flag result)).0.jobs
unfolding finish_image_job_owned
by_finish job j worker attempt now flag result db r e =
    let s = finish j worker attempt now flag result in
    let f = finish_request j worker attempt now flag result in
    let next : Next job s r (update_where (finish_filter db f) (finished f) db.jobs) =
      by_update job s (finish_filter db f) (finished f) db.jobs r (λ x. refl)
        (λ h.
          from_running job s r (finished f r)
            (same_status-eq r.status running (
              and_right (r.id == j) _ (
                and_left _ (any (is_token j worker attempt) db.owners)
                  (and_left (owned_filter db j worker attempt r) _ h))))
            (finish_may_move flag result))
        e in
    elim (Bool-cases (rows_affected (finish_filter db f) db.jobs == 1)) [
      | inl q ↦ rw q next
      | inr q ↦ rw q next
    ]

pub by_claim :
    (job j worker now : ℕ) (db : Db) (r : JobRow)
    → find_job job db.jobs ≡ some r
    → Next job (claim j worker now) r (claim_image_job db j worker now (lease_until now)).0.jobs
unfolding can_transition_to
by_claim job j worker now db r e = rw (claim_image_job-jobs db j worker now (lease_until now)) (
    by_update job (claim j worker now) (claim_filter j) (claimed now (lease_until now)) db.jobs r
      (λ x. refl)
      (λ h.
        let q : r.status ≡ pending = same_status-eq r.status pending (and_right (r.id == j) _ h) in
        inr (rw q refl, inl (rw q refl)))
      e)

direct_change-Moved :
    (job j : ℕ) (write : DirectWrite) (r : JobRow)
    → direct_filter j write r ≡ true
    → Moved job (direct j write) r (direct_change write r)
unfolding can_transition_to
direct_change-Moved job j (sets_manifest digest index total) r h = inl refl
direct_change-Moved job j (sets_progress text current total now) r h =
    let e = same_status-eq r.status running (and_right (r.id == j) _ h) in
    from_running job (direct j (sets_progress text current total now)) r
      (direct_change (sets_progress text current total now) r) e (rw e refl)
direct_change-Moved job j (sets_stage text now) r h =
    let e = same_status-eq r.status running (and_right (r.id == j) _ h) in
    from_running job (direct j (sets_stage text now)) r (direct_change (sets_stage text now) r) e
      (rw e refl)
direct_change-Moved job j (sets_artifact path name) r h = inl refl
direct_change-Moved job j forgets_storage r h = inl refl

pub direct_change-id : (write : DirectWrite) (r : JobRow) → (direct_change write r).id ≡ r.id
direct_change-id (sets_manifest digest index total) r = refl
direct_change-id (sets_progress text current total now) r = refl
direct_change-id (sets_stage text now) r = refl
direct_change-id (sets_artifact path name) r = refl
direct_change-id forgets_storage r = refl

pub by_direct :
    (job j : ℕ) (write : DirectWrite) (db : Db) (r : JobRow)
    → find_job job db.jobs ≡ some r
    → Next job (direct j write) r (write_direct db j write).jobs
unfolding write_direct
by_direct job j write db r e =
    by_update job (direct j write) (direct_filter j write) (direct_change write) db.jobs r
      (direct_change-id write) (direct_change-Moved job j write r) e
