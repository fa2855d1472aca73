-- ===== src/Job/Guard.antt =====
-- What claims, finishes and purges of src/db.rs do to a job whose earlier attempts are over.
use Prim.Native.String.{String}
use mathlib.Core.Option
use donkey.Base.{
  and_left, ℕ, ◌<◌, ◌≡◌, refl, sym, ◌∙◌, ap, inl, inr, ◌⊎◌, Bool, true, false, ◌||◌, not, some,
  arith, Bool-cases, Option-cases, ==_iff, ◌==◌, Result, ok, err,
}
use donkey.Job.{pending, running, JobRow, same_status}
use donkey.Job.Store.{
  Owner, Db, update_where, rows_affected, find_job, find_owner, drop_owner, is_token, finish_filter,
  finished, finish_image_job_owned, next_attempt, i64_max, claim_filter, claim_image_job,
  ImageJobFinish,
}
use donkey.Job.Service.{
  JobOutcome, done, skip, finish_request, finish_target, lease_until, purge_job,
}
use donkey.Job.Rows.{find_job-update_where, change_if}
use donkey.Job.Changes.{is_active}
use donkey.Job.Keys.{Single, affected-Single}
use donkey.Job.Steps.{or_same}
use donkey.Job.Owners.{
  Newer, is_held, Newer-put_owner, is_held-put_owner, find_owner_held, Newer-keep, is_held-keep,
}

-- The attempts up to `a` of the job are over: its row is unique, its owner rows are newer, and
-- unless an owner row holds it, it has ended.
pub record Fenced (job a : ℕ) (db : Db) : Type 0 where
  pub row : JobRow
  pub found : find_job job db.jobs ≡ some row
  pub single : Single job db.jobs
  pub newer : Newer job a db.owners
  pub held : (is_held job db.owners ≡ true) ⊎ (is_active row.status ≡ false)

pub purge_fence :
    (job a j : ℕ) (db : Db)
    → (j == job) ≡ false
    → Newer job a db.owners
    → Newer job a (or_same db (purge_job db j)).owners
      × (is_held job (or_same db (purge_job db j)).owners ≡ is_held job db.owners)
unfolding purge_job
purge_fence job a j db ne n = elim (Option-cases (find_job j db.jobs)) [
  | inl q ↦ rw q (n, refl)
  | inr (row, q) ↦
      elim (Bool-cases (same_status row.status pending || same_status row.status running)) [
        | inl t ↦ rw (q, t) (n, refl)
        | inr t ↦
            rw (q, t)
              (
                Newer-keep job a (λ o. not (o.job_id == j)) db.owners n,
                is_held-keep job (λ o. not (o.job_id == j)) db.owners (λ o e. ground arith),
              )
      ]
]

-- An ended job is claimed by nobody.
pub ended_unclaimed :
    (job a j : ℕ) (db : Db)
    → Fenced job a db
    → is_held job db.owners ≡ false
    → j ≡ job
    → (rows_affected (claim_filter j) db.jobs == 1) ≡ true
    → ⊥
ended_unclaimed job a j db h gone e q =
    let count =
      affected-Single job (claim_filter job) db.jobs h.row
        (λ x c. and_left (x.id == job) (same_status x.status pending) c) h.single h.found in
    let q' = rw (e, count) at q in
    elim h.held [ inl there ↦ cc | inr ended ↦ absurd (ground arith) ]

pub finish_ended :
    (flag : Bool) (result : Result JobOutcome String)
    → is_active (finish_target flag result).0 ≡ false
finish_ended true result = refl
finish_ended false (ok done) = refl
finish_ended false (ok skip) = refl
finish_ended false (err error) = refl

-- The job that a finish took the owner of has ended.
pub finish_ends :
    (job a : ℕ) (f : ImageJobFinish) (db : Db) (r' : JobRow)
    → Fenced job a db
    → is_active f.status ≡ false
    → f.job_id ≡ job
    → (rows_affected (finish_filter db f) db.jobs == 1) ≡ true
    → find_job job (update_where (finish_filter db f) (finished f) db.jobs) ≡ some r'
    → is_active r'.status ≡ false
finish_ends job a f db r' h ends mine q found =
    let count =
      affected-Single job (finish_filter db f) db.jobs h.row (λ x c. ground arith) h.single
        h.found in
    let after =
      find_job-update_where job (finish_filter db f) (finished f) db.jobs (λ x. refl)
      ∙ ap (Option.map (change_if (finish_filter db f) (finished f))) h.found in
    elim (Bool-cases (finish_filter db f h.row)) [
      | inr miss ↦ let q' = rw (count, miss) at q in absurd (ground arith)
      | inl hit ↦
          let same = sym found ∙ rw hit at after in let e : r' ≡ finished f h.row = cc in rw e ends
    ]

pub claim_fence :
    (job a j worker now : ℕ) (db : Db)
    → a < i64_max
    → Fenced job a db
    → Newer job a (claim_image_job db j worker now (lease_until now)).0.owners
      × ((is_held job (claim_image_job db j worker now (lease_until now)).0.owners ≡ true)
          ⊎ (is_held job db.owners ≡ false))
unfolding claim_image_job
claim_fence job a j worker now db m h = elim (Bool-cases (is_held job db.owners)) [
  | inl there ↦ elim (Bool-cases (rows_affected (claim_filter j) db.jobs == 1)) [
    | inr q ↦ rw q (h.newer, inl there)
    | inl q ↦
        let new : Owner = record {
          job_id = j;
          worker_id = worker;
          attempt = next_attempt (find_owner j db.owners);
        } in
        rw q (
          Newer-put_owner job a new db.owners
              (λ e. rw e (find_owner_held job a db.owners there h.newer m)) h.newer,
          inl (is_held-put_owner job new db.owners there),
        )
  ]
  | inr gone ↦ elim (Bool-cases (rows_affected (claim_filter j) db.jobs == 1)) [
    | inr q ↦ rw q (h.newer, inr gone)
    | inl q ↦
        let new : Owner = record {
          job_id = j;
          worker_id = worker;
          attempt = next_attempt (find_owner j db.owners);
        } in
        rw q (
          Newer-put_owner job a new db.owners (λ e. absurd (ended_unclaimed job a j db h gone e q))
              h.newer,
          inr gone,
        )
  ]
]

pub finish_fence :
    (job a j worker attempt now : ℕ) (flag : Bool) (result : Result JobOutcome String) (db : Db)
    → Fenced job a db
    → Newer job a
        (finish_image_job_owned db (finish_request j worker attempt now flag result)).0.owners
unfolding finish_image_job_owned drop_owner
finish_fence job a j worker attempt now flag result db h =
    let f = finish_request j worker attempt now flag result in
    elim (Bool-cases (rows_affected (finish_filter db f) db.jobs == 1)) [
      | inl q ↦ rw q (Newer-keep job a (λ o. not (is_token j worker attempt o)) db.owners h.newer)
      | inr q ↦ rw q h.newer
    ]

pub finish_held :
    (job a j worker attempt now : ℕ) (flag : Bool) (result : Result JobOutcome String) (db : Db)
    (r' : JobRow)
    → Fenced job a db
    → is_held job db.owners ≡ true
    → find_job job
        (finish_image_job_owned db (finish_request j worker attempt now flag result)).0.jobs
      ≡ some r'
    → (is_held job
          (finish_image_job_owned db (finish_request j worker attempt now flag result)).0.owners
        ≡ true)
      ⊎ (is_active r'.status ≡ false)
unfolding finish_image_job_owned drop_owner
finish_held job a j worker attempt now flag result db r' h there found =
    let f = finish_request j worker attempt now flag result in
    elim (Bool-cases (rows_affected (finish_filter db f) db.jobs == 1)) [
      | inr q ↦ rw q (inl there)
      | inl q ↦ elim (Bool-cases (j == job)) [
        | inr ne ↦ rw q (
            inl (
              is_held-keep job (λ o. not (is_token j worker attempt o)) db.owners
                (λ o e. ground arith)
              ∙ there))
        | inl mine ↦ inr (
            finish_ends job a f db r' h (finish_ended flag result) ((==_iff j job).0 mine) q
              (rw q at found))
      ]
    ]
