-- ===== src/Job/Requests.antt =====
-- How the operations of src/image_tools.rs change one job's row: recoveries, cancellations,
-- retries, purges and submissions.
use mathlib.Core.Option
use donkey.Base.{
  and_left, and_right, ℕ, ◌≡◌, refl, ap, ◌∙◌, inl, inr, true, false, ◌&&◌, ◌||◌, not, none, some,
  List, [], ◌∷◌, any, keep, snoc, arith, Bool-cases, Option-cases, ◌==◌,
}
use donkey.Job.{
  JobStatus, pending, running, completed, cancelled, JobRow, can_transition_to, same_status,
}
use donkey.Job.Store.{Db, update_where, find_job}
use donkey.Job.Service.{
  entered, abandoned, recovered, transition_update, cancel_abandoned, requeue_abandoned,
  abandoned_lease, recover_abandoned_jobs, cancel_update, retry_job, purge_job, requested,
}
use donkey.Job.Rows.{find_job-update_where, find_job-append_none, change_if, same_status-eq}
use donkey.Job.Steps.{
  submit, recover, cancel, retry, purge, pending_job, submit_job, or_same, or_same_with,
}
use donkey.Job.Changes.{may_move, Next, by_update, same, from_running}

pub by_recover :
    (job now : ℕ) (db : Db) (r : JobRow)
    → find_job job db.jobs ≡ some r
    → Next job (recover now) r (recover_abandoned_jobs db now).0.jobs
unfolding recover_abandoned_jobs cancel_abandoned requeue_abandoned can_transition_to
by_recover job now db r e =
    let p1 = λ (x : JobRow). abandoned now x && x.cancel_requested in
    let f1 = entered cancelled now none in
    let p2 = λ (x : JobRow). abandoned now x && not x.cancel_requested in
    let rows1 = update_where p1 f1 db.jobs in
    let found1 : find_job job rows1 ≡ some (change_if p1 f1 r) =
      find_job-update_where job p1 f1 db.jobs (λ x. refl) ∙ ap (Option.map (change_if p1 f1)) e in
    let found2 : find_job job (update_where p2 (recovered now) rows1)
        ≡ some (change_if p2 (recovered now) (change_if p1 f1 r)) =
      find_job-update_where job p2 (recovered now) rows1 (λ x. refl)
      ∙ ap (Option.map (change_if p2 (recovered now))) found1 in
    let running_if : abandoned now r ≡ true → r.status ≡ running =
      λ h. same_status-eq r.status running (and_left _ (abandoned_lease now r) h) in
    elim (Bool-cases (any (abandoned now) db.jobs)) [
      | inr q ↦ rw q (same job (recover now) r db.jobs e)
      | inl q ↦ rw q (elim (Bool-cases (p1 r)) [
        | inl h ↦ (
          f1 r,
          rw h at found2,
          from_running job (recover now) r (f1 r) (running_if (and_left _ r.cancel_requested h))
              refl,
        )
        | inr h ↦ elim (Bool-cases (p2 r)) [
          | inl h' ↦ (
            recovered now r,
            rw (h, h') at found2,
            from_running job (recover now) r (recovered now r)
                (running_if (and_left _ (not r.cancel_requested) h')) refl,
          )
          | inr h' ↦ (r, rw (h, h') at found2, inl refl)
        ]
      ])
    ]

pub by_cancel :
    (job j : ℕ) (from : JobStatus) (now : ℕ) (db : Db) (r : JobRow)
    → find_job job db.jobs ≡ some r
    → Next job (cancel j from now) r (or_same_with db (cancel_update db j from now)).jobs
unfolding cancel_update transition_update can_transition_to
by_cancel job j pending now db r e =
    by_update job (cancel j pending now) (λ x. same_status x.status pending && x.id == j)
      (entered cancelled now none) db.jobs r (λ x. refl)
      (λ h.
        let q : r.status ≡ pending = same_status-eq r.status pending (and_left _ (r.id == j) h) in
        inr (rw q refl, inl (rw q refl)))
      e
by_cancel job j running now db r e =
    by_update job (cancel j running now) (λ x. x.id == j && same_status x.status running)
      (requested now) db.jobs r (λ x. refl)
      (λ h.
        let q : r.status ≡ running = same_status-eq r.status running (and_right (r.id == j) _ h) in
        from_running job (cancel j running now) r (requested now r) q (rw q refl))
      e
by_cancel job j from now db r e = same job (cancel j from now) r db.jobs e

pub find_job_id :
    (job : ℕ) (rows : List JobRow) (r : JobRow) → find_job job rows ≡ some r → r.id ≡ job
unfolding find_job
find_job_id job [] r e = cc
find_job_id job (x ∷ rows) r e = ground (arith, find_job_id job rows r)

pub may_requeue : (s : JobStatus) → can_transition_to s pending ≡ true → may_move s pending ≡ true
unfolding can_transition_to
may_requeue pending e = refl
may_requeue running e = cc
may_requeue completed e = cc
may_requeue _ e = refl

pub by_retry :
    (job j now : ℕ) (db : Db) (r : JobRow)
    → find_job job db.jobs ≡ some r
    → Next job (retry j now) r (or_same db (retry_job db j now)).jobs
unfolding retry_job transition_update
by_retry job j now db r e = elim (Option-cases (find_job j db.jobs)) [
  | inl q ↦ rw q (same job (retry j now) r db.jobs e)
  | inr (row, q) ↦ elim (Bool-cases (can_transition_to row.status pending)) [
    | inr t ↦ rw (q, t) (same job (retry j now) r db.jobs e)
    | inl t ↦
        rw (q, t)
          (by_update job (retry j now) (λ x. same_status x.status row.status && x.id == j)
            (entered pending now none) db.jobs r (λ x. refl)
            (λ h.
              let here : r.status ≡ row.status =
                same_status-eq r.status row.status (and_left _ (r.id == j) h) in
              let mine : (r.id == j) ≡ true = and_right (same_status r.status row.status) _ h in
              let owner : r.id ≡ job = find_job_id job db.jobs r e in
              inr (rw here (may_requeue row.status t), inr (ground arith, rw here t)))
            e)
  ]
]

pub find_job-keep :
    (job j : ℕ) (rows : List JobRow)
    → (j == job) ≡ false
    → find_job job (keep (λ r. not (r.id == j)) rows) ≡ find_job job rows
unfolding find_job
find_job-keep job j [] h = refl
find_job-keep job j (x ∷ rows) h = ground (arith, find_job-keep job j rows)

pub by_purge :
    (job j : ℕ) (db : Db) (r : JobRow)
    → (j == job) ≡ false
    → find_job job db.jobs ≡ some r
    → Next job (purge j) r (or_same db (purge_job db j)).jobs
unfolding purge_job
by_purge job j db r h e = elim (Option-cases (find_job j db.jobs)) [
  | inl q ↦ rw q (same job (purge j) r db.jobs e)
  | inr (row, q) ↦
      elim (Bool-cases (same_status row.status pending || same_status row.status running)) [
        | inl t ↦ rw (q, t) (same job (purge j) r db.jobs e)
        | inr t ↦
            rw (q, t)
              (same job (purge j) r (keep (λ x. not (x.id == j)) db.jobs)
                (find_job-keep job j db.jobs h ∙ e))
      ]
]

pub by_submit :
    (job id now : ℕ) (db : Db) (r : JobRow)
    → find_job job db.jobs ≡ some r
    → Next job (submit id now) r (submit_job db (pending_job id now)).jobs
unfolding submit_job
by_submit job id now db r e = elim (Bool-cases (any (λ x. x.id == id) db.jobs)) [
  | inl q ↦ rw q (same job (submit id now) r db.jobs e)
  | inr q ↦ rw q (
      same job (submit id now) r (snoc db.jobs (pending_job id now))
        (find_job-append_none job db.jobs (pending_job id now) r e))
]
