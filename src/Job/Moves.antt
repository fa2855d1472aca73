-- ===== src/Job/Moves.antt =====
-- How a job's row may change, step by step, and which rows stay as they are.

use donkey.Base.{
  or_left, or_right, ℕ, ◌≡◌, refl, ap, ◌∙◌, inl, inr, false, some, List, [], ◌∷◌, any,
}
use donkey.Job.{completed, JobRow, can_transition_to}
use donkey.Job.Store.{
  Db, find_job, renew_image_job, update_image_job_manifest_owned, update_image_job_progress_owned,
  update_image_job_stage_owned, update_image_job_artifact_owned, renewed, with_manifest,
  with_progress, with_stage, with_artifact,
}
use donkey.Job.Service.{lease_until}
use donkey.Job.Steps.{
  JobStep, submit, claim, renew, manifest, progress, stage, artifact, finish, recover, cancel,
  retry, purge, direct, step, run,
}
use donkey.Job.Changes.{
  is_retry, is_purge, is_active, Moved, by_owned, by_finish, by_claim, by_direct, Noted,
}
use donkey.Job.Requests.{by_recover, by_cancel, by_retry, by_purge, by_submit}

-- One step, other than a purge of the job, changes of its row at most the digests, the total size
-- and the artifact, or it moves its state as the state machine and the recovery of abandoned jobs
-- allow; an ended row it changes in more only by a retry of the job from a state that can be
-- retried.
pub step-Moved :
    (db : Db) (s : JobStep) (job : ℕ) (r : JobRow)
    → find_job job db.jobs ≡ some r
    → is_purge job s ≡ false
    → (r' : JobRow) × (find_job job (step db s).jobs ≡ some r') × Moved job s r r'
unfolding step renew_image_job update_image_job_manifest_owned update_image_job_progress_owned
    update_image_job_stage_owned update_image_job_artifact_owned
step-Moved db (submit id now) job r e h = by_submit job id now db r e
step-Moved db (claim j worker now) job r e h = by_claim job j worker now db r e
step-Moved db (renew j worker attempt now) job r e h =
    by_owned job (renew j worker attempt now) (renewed now (lease_until now)) db j worker attempt r
      (λ x. refl) (λ x. refl) e
step-Moved db (manifest j worker attempt digest index total now) job r e h =
    by_owned job (manifest j worker attempt digest index total now)
      (with_manifest digest index total now) db j worker attempt r (λ x. refl) (λ x. refl) e
step-Moved db (progress j worker attempt text current total now) job r e h =
    by_owned job (progress j worker attempt text current total now)
      (with_progress text current total (lease_until now) now) db j worker attempt r (λ x. refl)
      (λ x. refl) e
step-Moved db (stage j worker attempt text now) job r e h =
    by_owned job (stage j worker attempt text now) (with_stage text (lease_until now) now) db j
      worker attempt r (λ x. refl) (λ x. refl) e
step-Moved db (artifact j worker attempt path name now) job r e h =
    by_owned job (artifact j worker attempt path name now) (with_artifact path name now) db j worker
      attempt r (λ x. refl) (λ x. refl) e
step-Moved db (finish j worker attempt now flag result) job r e h =
    by_finish job j worker attempt now flag result db r e
step-Moved db (recover now) job r e h = by_recover job now db r e
step-Moved db (cancel j from now) job r e h = by_cancel job j from now db r e
step-Moved db (retry j now) job r e h = by_retry job j now db r e
step-Moved db (purge j) job r e h = by_purge job j db r h e
step-Moved db (direct j write) job r e h = by_direct job j write db r e

-- The status is not among the columns that differ.
pub Noted-status : (r r' : JobRow) → Noted r r' → r'.status ≡ r.status
Noted-status r r' n = ap (λ (x : JobRow). x.status) n

Noted-trans : (r s t : JobRow) → Noted r s → Noted s t → Noted r t
Noted-trans r s t n m =
    m
    ∙ ap
        (λ (x : JobRow). record x {
          resolved_digest = t.resolved_digest;
          index_digest = t.index_digest;
          total_bytes = t.total_bytes;
          artifact_path = t.artifact_path;
          artifact_name = t.artifact_name;
        })
        n

-- A step that is no retry of the job leaves an ended row alone, up to its notes.
pub Moved-ended :
    (job : ℕ) (s : JobStep) (r r' : JobRow)
    → is_active r.status ≡ false
    → is_retry job s ≡ false
    → Moved job s r r'
    → Noted r r'
Moved-ended job s r r' ended q (inl kept) = kept
Moved-ended job s r r' ended q (inr (_, inl a)) = cc
Moved-ended job s r r' ended q (inr (_, inr (t, _))) = cc

-- Without a purge of the job, and without a retry of it, a history leaves the row of an ended job
-- (completed, skipped, failed or cancelled) as it is, but for the digests, the total size and the
-- artifact.
pub run-ended :
    (steps : List JobStep) (db : Db) (job : ℕ) (r : JobRow)
    → find_job job db.jobs ≡ some r
    → is_active r.status ≡ false
    → any (is_purge job) steps ≡ false
    → any (is_retry job) steps ≡ false
    → (r' : JobRow) × (find_job job (run db steps).jobs ≡ some r') × Noted r r'
unfolding run
run-ended [] db job r e ended p q = (r, e, refl)
run-ended (s ∷ steps) db job r e ended p q =
    let (r', e', moved) = step-Moved db s job r e (or_left _ (any (is_purge job) steps) p) in
    let kept = Moved-ended job s r r' ended (or_left _ (any (is_retry job) steps) q) moved in
    let (last, found, noted) =
      run-ended steps (step db s) job r' e' (rw (Noted-status r r' kept) ended)
        (or_right (is_purge job s) _ p) (or_right (is_retry job s) _ q) in
    (last, found, Noted-trans r r' last kept noted)

-- A completed job's row is final, but for its digests, its total size and its artifact: no history
-- without a purge of the job changes its state, its error, its flag, its times, its lease, its
-- stage or its progress, whatever retries, cancellations, recoveries, cleanups of the storage and
-- late workers it holds.
pub run-completed :
    (steps : List JobStep) (db : Db) (job : ℕ) (r : JobRow)
    → find_job job db.jobs ≡ some r
    → r.status ≡ completed
    → any (is_purge job) steps ≡ false
    → (r' : JobRow) × (find_job job (run db steps).jobs ≡ some r') × Noted r r'
unfolding run can_transition_to
run-completed [] db job r e ended p = (r, e, refl)
run-completed (s ∷ steps) db job r e ended p =
    let (r', e', moved) = step-Moved db s job r e (or_left _ (any (is_purge job) steps) p) in
    let kept : Noted r r' = elim moved [
      | inl k ↦ k
      | inr m ↦ elim m.1 [
        | inl a ↦ let a' = rw ended at a in cc
        | inr (_, t) ↦ let t' = rw ended at t in cc
      ]
    ] in
    let (last, found, noted) =
      run-completed steps (step db s) job r' e' (Noted-status r r' kept ∙ ended)
        (or_right (is_purge job s) _ p) in
    (last, found, Noted-trans r r' last kept noted)
