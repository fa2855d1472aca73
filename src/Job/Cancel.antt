-- ===== src/Job/Cancel.antt =====
-- `cancel_job_from_status` of src/image_tools.rs.
use mathlib.Core.Option
use donkey.Base.{
  and_left, and_right, and_false, ==_self, ℕ, ◌≡◌, refl, ◌∙◌, ap, inl, inr, ◌⊎◌, true, false, ◌&&◌,
  none, some, List, [], ◌∷◌, Bool-cases, ◌==◌, ok,
}
use donkey.Job.{JobStatus, pending, running, cancelled, JobRow, same_status, can_transition_to}
use donkey.Job.Store.{Db, rows_affected, find_job}
use donkey.Job.Service.{
  entered, requested, cancel_update, after_missed, after_update, cancel_job_from_status,
  transition_update,
}
use donkey.Job.Rows.{find_job-update_where, change_if, same_status-eq}
use donkey.Job.Requests.{find_job_id}
use donkey.Job.Changes.{is_active}
use donkey.Job.Keys.{Single, affected-Single, update_missed}

abbrev pub alone : Db → Db
alone db = db

-- The database after the update of a job's only row, by the cancellation of a pending job or by the
-- request to a running one.
abbrev pub cancelled_row : JobStatus → ℕ → JobRow → JobRow
cancelled_row pending now r = entered cancelled now none r
cancelled_row _ now r = requested now r

-- A round from the row's own state succeeds.
round_hits :
    (db : Db) (job now : ℕ) (s : JobStatus) (r : JobRow) (rounds : List ((Db → Db) × (Db → Db)))
    → find_job job db.jobs ≡ some r
    → Single job db.jobs
    → r.status ≡ s
    → is_active s ≡ true
    → ((cancel_job_from_status job now ((alone, alone) ∷ rounds) s db).1 ≡ some (ok tt))
      × (find_job job (cancel_job_from_status job now ((alone, alone) ∷ rounds) s db).0.jobs
          ≡ some (cancelled_row s now r))
unfolding cancel_job_from_status after_update cancel_update transition_update can_transition_to
round_hits db job now pending r rounds found single here active =
    let p = λ (x : JobRow). same_status x.status pending && x.id == job in
    let count =
      affected-Single job p db.jobs r (λ x c. and_right (same_status x.status pending) _ c) single
        found in
    let own : r.id ≡ job = find_job_id job db.jobs r found in
    let hit : p r ≡ true = rw (here, own, ==_self job) refl in
    let one : (rows_affected p db.jobs == 1) ≡ true = rw (count, hit) refl in
    let after =
      find_job-update_where job p (entered cancelled now none) db.jobs (λ x. refl)
      ∙ ap (Option.map (change_if p (entered cancelled now none))) found in
    rw one (refl, rw hit at after)
round_hits db job now running r rounds found single here active =
    let p = λ (x : JobRow). x.id == job && same_status x.status running in
    let count = affected-Single job p db.jobs r (λ x c. and_left (x.id == job) _ c) single found in
    let own : r.id ≡ job = find_job_id job db.jobs r found in
    let hit : p r ≡ true = rw (here, own, ==_self job) refl in
    let one : (rows_affected p db.jobs == 1) ≡ true = rw (count, hit) refl in
    let after =
      find_job-update_where job p (requested now) db.jobs (λ x. refl)
      ∙ ap (Option.map (change_if p (requested now))) found in
    rw one (refl, rw hit at after)
round_hits db job now _ r rounds found single here active = cc

-- A round from the other active state changes nothing and reads the row again.
round_misses :
    (db : Db) (job now : ℕ) (stale : JobStatus) (r : JobRow) (rounds : List ((Db → Db) × (Db → Db)))
    → find_job job db.jobs ≡ some r
    → Single job db.jobs
    → is_active stale ≡ true
    → same_status r.status stale ≡ false
    → cancel_job_from_status job now ((alone, alone) ∷ rounds) stale db
      ≡ after_missed (λ s. cancel_job_from_status job now rounds s db) db (some r)
unfolding cancel_job_from_status after_update cancel_update transition_update can_transition_to
round_misses db job now pending r rounds found single active differs =
    let p = λ (x : JobRow). same_status x.status pending && x.id == job in
    let only = λ (x : JobRow) (c : p x ≡ true). and_right (same_status x.status pending) _ c in
    let miss : p r ≡ false = rw differs refl in
    let kept = update_missed job p (entered cancelled now none) db.jobs r only single found miss in
    let count = affected-Single job p db.jobs r only single found in
    rw (kept, count, miss, found) refl
round_misses db job now running r rounds found single active differs =
    let p = λ (x : JobRow). x.id == job && same_status x.status running in
    let only = λ (x : JobRow) (c : p x ≡ true). and_left (x.id == job) _ c in
    let miss : p r ≡ false = rw differs (and_false (r.id == job)) in
    let kept = update_missed job p (requested now) db.jobs r only single found miss in
    let count = affected-Single job p db.jobs r only single found in
    rw (kept, count, miss, found) refl
round_misses db job now _ r rounds found single active differs = cc

-- What has become of a row that was pending or running: the job is cancelled, or it runs on with
-- the request to stop.
abbrev pub Stopped : JobStatus → ℕ → JobRow → JobRow → Type 0
Stopped pending now r r' =
    (r'.status ≡ cancelled)
    × (r'.cancel_requested ≡ true)
    × (r'.finished_at ≡ some now)
    × (r'.lease_until ≡ none)
Stopped _ now r r' = r' ≡ record r { cancel_requested = true; updated_at = now }

cancelled_row-Stopped :
    (s : JobStatus) (now : ℕ) (r : JobRow)
    → is_active s ≡ true
    → Stopped s now r (cancelled_row s now r)
cancelled_row-Stopped pending now r active = (refl, refl, refl, refl)
cancelled_row-Stopped running now r active = refl
cancelled_row-Stopped _ now r active = cc

-- Cancelling an active job from a state that was read earlier, and may have changed between the
-- active states since, takes at most two rounds without interruption, and it succeeds: a pending
-- job is cancelled, with an end and no lease, and a running one carries the request to stop, by
-- this call, which changes nothing else but its time, or already, and then nothing changes. The
-- job's row is unique.
pub cancel_job_from_status_lem :
    (db : Db) (job now : ℕ) (stale : JobStatus) (r : JobRow)
    → find_job job db.jobs ≡ some r
    → Single job db.jobs
    → is_active stale ≡ true
    → is_active r.status ≡ true
    → let (db', answer) =
        cancel_job_from_status job now ((alone, alone) ∷ (alone, alone) ∷ []) stale db in
      (answer ≡ some (ok tt))
      × (((r' : JobRow) × (find_job job db'.jobs ≡ some r') × Stopped r.status now r r')
          ⊎ ((r.status ≡ running) × (r.cancel_requested ≡ true) × (db' ≡ db)))
cancel_job_from_status_lem db job now stale r found single active live =
    elim (Bool-cases (same_status r.status stale)) [
      | inl same ↦
          let here = same_status-eq r.status stale same in
          let hits =
            round_hits db job now r.status r ((alone, alone) ∷ []) found single refl live in
          rw (← here) (
            hits.0,
            inl (cancelled_row r.status now r, hits.1, cancelled_row-Stopped r.status now r live),
          )
      | inr differs ↦
          rw (round_misses db job now stale r ((alone, alone) ∷ []) found single active differs)
            (elim (Bool-cases (same_status r.status running && r.cancel_requested)) [
              | inl asked ↦
                  unfold after_missed in
                  rw asked (
                    refl,
                    inr (
                      same_status-eq r.status running (and_left _ r.cancel_requested asked),
                      and_right (same_status r.status running) _ asked,
                      refl,
                    ),
                  )
              | inr quiet ↦
                  unfold after_missed in
                  rw quiet (
                    let hits = round_hits db job now r.status r [] found single refl live in
                    (
                      hits.0,
                      inl (
                        cancelled_row r.status now r,
                        hits.1,
                        cancelled_row-Stopped r.status now r live,
                      ),
                    ))
            ])
    ]
