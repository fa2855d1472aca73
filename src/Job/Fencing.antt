-- ===== src/Job/Fencing.antt =====
-- The attempt token of src/db.rs and src/image_tools/job_store.rs: writes under a token that is no
-- longer in `image_job_owners` change nothing.
use donkey.Base.{some-inj, ℕ, ◌≡◌, refl, sym, subst, ap, false, Option, none, some, any, arith}
use donkey.Job.{JobRow}
use donkey.Job.Store.{
  Db, is_token, owned_filter, update_owned, renew_image_job, update_image_job_manifest_owned,
  update_image_job_progress_owned, update_image_job_stage_owned, update_image_job_artifact_owned,
  ImageJobFinish, finish_filter, finished, finish_image_job_owned, renewed, with_manifest,
  with_progress, with_stage, with_artifact,
}
use donkey.Job.Service.{finish_request, lease_until}
use donkey.Job.Rows.{update_where_none, rows_affected_none}
use donkey.Job.Steps.{JobStep, renew, manifest, progress, stage, artifact, finish, step}

-- The token (job, worker and attempt) under which a step writes.
abbrev pub token_of : JobStep → Option (ℕ × ℕ × ℕ)
token_of (renew j w a now) = some (j, w, a)
token_of (manifest j w a digest index total now) = some (j, w, a)
token_of (progress j w a text current total now) = some (j, w, a)
token_of (stage j w a text now) = some (j, w, a)
token_of (artifact j w a path name now) = some (j, w, a)
token_of (finish j w a now flag result) = some (j, w, a)
token_of _ = none

absent_filter :
    (db : Db) (job worker attempt : ℕ)
    → any (is_token job worker attempt) db.owners ≡ false
    → (r : JobRow) → owned_filter db job worker attempt r ≡ false
absent_filter db job worker attempt h r = ground arith

update_owned_absent :
    (change : JobRow → JobRow) (db : Db) (job worker attempt : ℕ)
    → any (is_token job worker attempt) db.owners ≡ false
    → update_owned change db job worker attempt ≡ (db, false)
unfolding update_owned
update_owned_absent change db job worker attempt h =
    let no = absent_filter db job worker attempt h in
    rw
      (
        update_where_none (owned_filter db job worker attempt) change db.jobs no,
        rows_affected_none (owned_filter db job worker attempt) db.jobs no,
      )
      refl

finish_absent :
    (db : Db) (f : ImageJobFinish)
    → any (is_token f.job_id f.worker_id f.attempt) db.owners ≡ false
    → finish_image_job_owned db f ≡ (db, false)
unfolding finish_image_job_owned
finish_absent db f h =
    let no : (r : JobRow) → finish_filter db f r ≡ false =
      λ r. rw (absent_filter db f.job_id f.worker_id f.attempt h r) refl in
    rw
      (
        rows_affected_none (finish_filter db f) db.jobs no,
        update_where_none (finish_filter db f) (finished f) db.jobs no,
      )
      refl

moved_token :
    (db : Db) {s t : ℕ × ℕ × ℕ}
    → some s ≡ some t
    → any (is_token t.0 t.1 t.2) db.owners ≡ false
    → any (is_token s.0 s.1 s.2) db.owners ≡ false
moved_token db e h = subst (λ k. any (is_token k.0 k.1 k.2) db.owners ≡ false) (sym (some-inj e)) h

-- A write under a token that is not in the owner table changes nothing at all.
pub step_absent :
    (db : Db) (s : JobStep) (job worker attempt : ℕ)
    → token_of s ≡ some (job, worker, attempt)
    → any (is_token job worker attempt) db.owners ≡ false
    → step db s ≡ db
unfolding step renew_image_job update_image_job_manifest_owned update_image_job_progress_owned
    update_image_job_stage_owned update_image_job_artifact_owned
step_absent db (renew j w a now) job worker attempt t h =
    ap (λ r. r.0)
      (update_owned_absent (renewed now (lease_until now)) db j w a (moved_token db t h))
step_absent db (manifest j w a digest index total now) job worker attempt t h =
    ap (λ r. r.0)
      (update_owned_absent (with_manifest digest index total now) db j w a (moved_token db t h))
step_absent db (progress j w a text current total now) job worker attempt t h =
    ap (λ r. r.0)
      (update_owned_absent (with_progress text current total (lease_until now) now) db j w a
        (moved_token db t h))
step_absent db (stage j w a text now) job worker attempt t h =
    ap (λ r. r.0)
      (update_owned_absent (with_stage text (lease_until now) now) db j w a (moved_token db t h))
step_absent db (artifact j w a path name now) job worker attempt t h =
    ap (λ r. r.0) (update_owned_absent (with_artifact path name now) db j w a (moved_token db t h))
step_absent db (finish j w a now flag result) job worker attempt t h =
    ap (λ r. r.0) (finish_absent db (finish_request j w a now flag result) (moved_token db t h))
step_absent db _ job worker attempt t h = cc
