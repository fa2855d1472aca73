-- ===== src/Job/Finish.antt =====
-- `finish_job` of src/image_tools.rs: its ownership check, its read of the row and its guarded
-- update, and what comes between them.
use Prim.Native.String.{String}
use mathlib.Core.Option
use donkey.Base.{
  and_false, ==_self, ℕ, ◌≡◌, refl, ◌∙◌, ap, inl, inr, Bool, true, false, none, some, List, [], ◌∷◌,
  any, arith, Bool-cases, ◌==◌, Result, ok, err,
}
use donkey.Error.{bad_request}
use donkey.Job.{running, completed, skipped, failed, cancelled, JobRow}
use donkey.Job.Store.{
  Owner, Db, update_where, rows_affected, find_job, find_owner, drop_owner, is_token, owned_filter,
  same_bool, finish_filter, finished, finish_image_job_owned,
}
use donkey.Job.Service.{JobOutcome, done, skip, finish_job, finish_request, owns, is_owner}
use donkey.Job.Rows.{find_job-update_where, change_if}
use donkey.Job.Requests.{find_job_id}
use donkey.Job.Keys.{Single, update_missed, affected-Single}

found_token :
    (job worker attempt : ℕ) (owners : List Owner)
    → is_owner (find_owner job owners) worker attempt ≡ true
    → any (is_token job worker attempt) owners ≡ true
unfolding find_owner
found_token job worker attempt [] h = cc
found_token job worker attempt (o ∷ owners) h =
    ground (arith, found_token job worker attempt owners)

token_gone :
    (job worker attempt : ℕ) (owners : List Owner)
    → any (is_token job worker attempt) (drop_owner job worker attempt owners) ≡ false
unfolding drop_owner
token_gone job worker attempt [] = refl
token_gone job worker attempt (o ∷ owners) = elim (Bool-cases (is_token job worker attempt o)) [
  | inl e ↦ rw e (token_gone job worker attempt owners)
  | inr e ↦ rw e (rw e (token_gone job worker attempt owners))
]

same_bool_self : (b : Bool) → same_bool b b ≡ true
same_bool_self true = refl
same_bool_self false = refl

-- How a job ends: cancelled where that was requested, whatever came out; otherwise completed,
-- skipped, or failed with its error's text.
abbrev pub EndsAs : Bool → Result JobOutcome String → JobRow → Type 0
EndsAs true result r = (r.status ≡ cancelled) × (r.error ≡ none)
EndsAs false (ok done) r = (r.status ≡ completed) × (r.error ≡ none)
EndsAs false (ok skip) r = (r.status ≡ skipped) × (r.error ≡ none)
EndsAs false (err text) r = (r.status ≡ failed) × (r.error ≡ some text)

-- It has an end and no lease, and all else is as it was.
abbrev pub Ended : Bool → Result JobOutcome String → ℕ → JobRow → JobRow → Type 0
Ended requested result now r r' =
    EndsAs requested result r'
    × (r' ≡ record r {
      status = r'.status;
      error = r'.error;
      lease_until = none;
      finished_at = some now;
      updated_at = now;
    })

finished-Ended :
    (job worker attempt now : ℕ) (requested : Bool) (result : Result JobOutcome String) (r : JobRow)
    → Ended requested result now r
        (finished (finish_request job worker attempt now requested result) r)
finished-Ended job worker attempt now true result r = ((refl, refl), refl)
finished-Ended job worker attempt now false (ok done) r = ((refl, refl), refl)
finished-Ended job worker attempt now false (ok skip) r = ((refl, refl), refl)
finished-Ended job worker attempt now false (err error) r = ((refl, refl), refl)

-- The guarded update hits the row.
pub finish_accepted :
    (db : Db) (job worker attempt now : ℕ) (result : Result JobOutcome String) (r : JobRow)
    → find_job job db.jobs ≡ some r
    → Single job db.jobs
    → r.status ≡ running
    → owns db job worker attempt ≡ true
    → let f = finish_request job worker attempt now r.cancel_requested result in
      ((finish_image_job_owned db f).1 ≡ true)
      × (find_job job (finish_image_job_owned db f).0.jobs ≡ some (finished f r))
      × (any (is_token job worker attempt) (finish_image_job_owned db f).0.owners ≡ false)
unfolding finish_image_job_owned owns
finish_accepted db job worker attempt now result r found single runs own =
    let f = finish_request job worker attempt now r.cancel_requested result in
    let count =
      affected-Single job (finish_filter db f) db.jobs r (λ x c. ground arith) single found in
    let mine : r.id ≡ job = find_job_id job db.jobs r found in
    let token = found_token job worker attempt db.owners own in
    let hit : finish_filter db f r ≡ true =
      rw (mine, ==_self job, runs, token) (same_bool_self r.cancel_requested) in
    let picked : (rows_affected (finish_filter db f) db.jobs == 1) ≡ true = rw (count, hit) refl in
    let after =
      find_job-update_where job (finish_filter db f) (finished f) db.jobs (λ x. refl)
      ∙ ap (Option.map (change_if (finish_filter db f) (finished f))) found in
    rw picked (refl, rw hit at after, token_gone job worker attempt db.owners)

-- A worker that owns a running job and is not interrupted finishes it: the call succeeds, the row
-- ends as the cancel flag and the result ask (cancelled, completed, skipped, or failed with the
-- error text), with an end and no lease and all else as it was, and the token is used up.
pub finish_job_uninterrupted :
    (db : Db) (job worker attempt now : ℕ) (result : Result JobOutcome String) (r : JobRow)
    → find_job job db.jobs ≡ some r
    → Single job db.jobs
    → r.status ≡ running
    → owns db job worker attempt ≡ true
    → let (after, answer) = finish_job db db db job worker attempt now result in
      (answer ≡ ok tt)
      × ((r' : JobRow) × (find_job job after.jobs ≡ some r')
          × Ended r.cancel_requested result now r r')
      × (any (is_token job worker attempt) after.owners ≡ false)
unfolding finish_job
finish_job_uninterrupted db job worker attempt now result r found single runs own =
    let f = finish_request job worker attempt now r.cancel_requested result in
    let (accepted, row, gone) =
      finish_accepted db job worker attempt now result r found single runs own in
    rw (own, found, accepted)
      (
        refl,
        (finished f r, row, finished-Ended job worker attempt now r.cancel_requested result r),
        gone,
      )

-- A cancellation that comes between the read of the row and the update is not lost: the finish is
-- refused, and it leaves the row and the token for the worker to finish again.
pub finish_job_raced :
    (checked read db : Db) (job worker attempt now : ℕ) (result : Result JobOutcome String)
    (seen r : JobRow)
    → owns checked job worker attempt ≡ true
    → find_job job read.jobs ≡ some seen
    → find_job job db.jobs ≡ some r
    → Single job db.jobs
    → same_bool r.cancel_requested seen.cancel_requested ≡ false
    → finish_job checked read db job worker attempt now result
      ≡ (db, err (bad_request "image job is no longer in a finishable state"))
unfolding finish_job finish_image_job_owned
finish_job_raced checked read db job worker attempt now result seen r own saw found single differs =
    let f = finish_request job worker attempt now seen.cancel_requested result in
    let miss : finish_filter db f r ≡ false =
      rw differs (and_false (owned_filter db job worker attempt r)) in
    let count : rows_affected (finish_filter db f) db.jobs ≡ 0 =
      affected-Single job (finish_filter db f) db.jobs r (λ x c. ground arith) single found
      ∙ rw miss refl in
    let kept : update_where (finish_filter db f) (finished f) db.jobs ≡ db.jobs =
      update_missed job (finish_filter db f) (finished f) db.jobs r (λ x c. ground arith) single
        found miss in
    rw (own, saw, count, kept) refl
