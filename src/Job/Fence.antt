-- ===== src/Job/Fence.antt =====
-- The fence that a claim puts up against earlier attempts at a job, kept by every step that neither
-- retries nor purges it.

use donkey.Base.{
  or_left, or_right, ℕ, ◌<◌, ◌≡◌, refl, sym, ◌∙◌, inl, inr, Bool, true, false, List, [], ◌∷◌, any,
  arith,
}
use donkey.Job.{JobStatus, pending, running, JobRow, can_transition_to}
use donkey.Job.Store.{
  Db, update_owned, i64_max, renew_image_job, update_image_job_manifest_owned,
  update_image_job_progress_owned, update_image_job_stage_owned, update_image_job_artifact_owned,
}
use donkey.Job.Direct.{write_direct}
use donkey.Job.Service.{recover_abandoned_jobs, cancel_update, retry_job, transition_update}
use donkey.Job.Moves.{step-Moved, Moved-ended, Noted-status}
use donkey.Job.Changes.{is_purge, is_retry}
use donkey.Job.Keys.{step-Single}
use donkey.Job.Steps.{
  JobStep, submit, claim, finish, recover, cancel, retry, purge, direct, step, run, submit_job,
  pending_job, or_same, or_same_with,
}
use donkey.Job.Guard.{Fenced, purge_fence, claim_fence, finish_fence, finish_held}

recover-owners : (db : Db) (now : ℕ) → (recover_abandoned_jobs db now).0.owners ≡ db.owners
unfolding recover_abandoned_jobs
recover-owners db now = ground arith

cancel-owners :
    (db : Db) (j : ℕ) (from : JobStatus) (now : ℕ)
    → (or_same_with db (cancel_update db j from now)).owners ≡ db.owners
unfolding cancel_update transition_update can_transition_to
cancel-owners db j pending now = refl
cancel-owners db j running now = refl
cancel-owners db j _ now = refl

pub retry-owners : (db : Db) (j now : ℕ) → (or_same db (retry_job db j now)).owners ≡ db.owners
unfolding retry_job transition_update
retry-owners db j now = ground arith

submit-owners : (db : Db) (row : JobRow) → (submit_job db row).owners ≡ db.owners
unfolding submit_job
submit-owners db row = ground arith

abbrev writes_owners : JobStep → Bool
writes_owners (claim j w now) = true
writes_owners (finish j w a now flag result) = true
writes_owners (purge j) = true
writes_owners _ = false

step-owners : (db : Db) (s : JobStep) → writes_owners s ≡ false → (step db s).owners ≡ db.owners
unfolding step renew_image_job update_image_job_manifest_owned update_image_job_progress_owned
    update_image_job_stage_owned update_image_job_artifact_owned update_owned write_direct
step-owners db (submit id now) h = submit-owners db (pending_job id now)
step-owners db (recover now) h = recover-owners db now
step-owners db (cancel j from now) h = cancel-owners db j from now
step-owners db (retry j now) h = retry-owners db j now
step-owners db (claim j w now) h = cc
step-owners db (finish j w a now flag result) h = cc
step-owners db (purge j) h = cc
step-owners db (direct j write) h = refl
step-owners db _ h = refl

-- The row after a step, with what the fence needs of it where the owners stay.
quiet-Fenced :
    (job a : ℕ) (db : Db) (s : JobStep)
    → (step db s).owners ≡ db.owners
    → is_purge job s ≡ false
    → is_retry job s ≡ false
    → Fenced job a db
    → Fenced job a (step db s)
quiet-Fenced job a db s owners p q h =
    let (r', found, moved) = step-Moved db s job h.row h.found p in
    record {
      row = r';
      found = found;
      single = step-Single db s job p h.single;
      newer = rw owners h.newer;
      held = elim h.held [
        | inl there ↦ inl (rw owners there)
        | inr ended ↦
            inr (rw (Noted-status h.row r' (Moved-ended job s h.row r' ended q moved)) ended)
      ];
    }

pub step-Fenced :
    (job a : ℕ) (db : Db) (s : JobStep)
    → a < i64_max
    → is_purge job s ≡ false
    → is_retry job s ≡ false
    → Fenced job a db
    → Fenced job a (step db s)
step-Fenced job a db (claim j w now) m p q h =
    let (r', found, moved) = step-Moved db (claim j w now) job h.row h.found p in
    let fence = claim_fence job a j w now db m h in
    record {
      row = r';
      found = found;
      single = step-Single db (claim j w now) job p h.single;
      newer = unfold step in fence.0;
      held = elim h.held [
        | inl there ↦ elim fence.1 [
          | inl kept ↦ unfold step in inl kept
          | inr gone ↦ absurd (let no : true ≡ false = sym there ∙ gone in cc)
        ]
        | inr ended ↦ inr (
            rw (Noted-status h.row r' (Moved-ended job (claim j w now) h.row r' ended q moved))
              ended)
      ];
    }
step-Fenced job a db (finish j w at now flag result) m p q h =
    let s = finish j w at now flag result in
    let (r', found, moved) = step-Moved db s job h.row h.found p in
    record {
      row = r';
      found = found;
      single = step-Single db s job p h.single;
      newer = unfold step in finish_fence job a j w at now flag result db h;
      held = elim h.held [
        | inl there ↦ unfold step in finish_held job a j w at now flag result db r' h there found
        | inr ended ↦
            inr (rw (Noted-status h.row r' (Moved-ended job s h.row r' ended q moved)) ended)
      ];
    }
step-Fenced job a db (purge j) m p q h =
    let (r', found, moved) = step-Moved db (purge j) job h.row h.found p in
    let (newer, same) = purge_fence job a j db p h.newer in
    record {
      row = r';
      found = found;
      single = step-Single db (purge j) job p h.single;
      newer = unfold step in newer;
      held = elim h.held [
        | inl there ↦ unfold step in inl (same ∙ there)
        | inr ended ↦
            inr
              (rw (Noted-status h.row r' (Moved-ended job (purge j) h.row r' ended q moved)) ended)
      ];
    }
step-Fenced job a db s m p q h = quiet-Fenced job a db s (step-owners db s refl) p q h

pub run-Fenced :
    (job a : ℕ) (steps : List JobStep) (db : Db)
    → a < i64_max
    → any (is_purge job) steps ≡ false
    → any (is_retry job) steps ≡ false
    → Fenced job a db
    → Fenced job a (run db steps)
unfolding run
run-Fenced job a [] db m p q h = h
run-Fenced job a (s ∷ steps) db m p q h =
    run-Fenced job a steps (step db s) m (or_right (is_purge job s) _ p)
      (or_right (is_retry job s) _ q)
      (step-Fenced job a db s m (or_left _ (any (is_purge job) steps) p)
        (or_left _ (any (is_retry job) steps) q) h)
