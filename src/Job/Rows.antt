-- ===== src/Job/Rows.antt =====
-- Updates of the job table of src/db.rs, row by row.
use mathlib.Core.Option
use donkey.Base.{
  ℕ, ◌≡◌, refl, ap, inl, inr, Bool, true, false, some, List, [], ◌∷◌, All, arith, Bool-cases,
  if◌then◌else◌, snoc, sym,
}
use donkey.Job.{
  JobRow, JobStatus, pending, running, completed, skipped, failed, cancelled, same_status,
}
use donkey.Job.Store.{
  Db, update_where, rows_affected, find_job, same_bool, claim_filter, claimed, claim_image_job,
}

module _ {ℓ} {A : Type ℓ} where
  -- What a changed row keeps, the whole table keeps.
  pub All-update_where {κ} :
      (P : A → Type κ) (p : A → Bool) (f : A → A) (rows : List A)
      → ((r : A) → P r → p r ≡ true → P (f r))
      → All P rows
      → All P (update_where p f rows)
  unfolding update_where
  All-update_where P p f [] h a = tt
  All-update_where P p f (r ∷ rows) h (now, later) = elim (Bool-cases (p r)) [
    | inl hit ↦ rw hit (h r now hit, All-update_where P p f rows h later)
    | inr miss ↦ rw miss (now, All-update_where P p f rows h later)
  ]

  -- A filter that no row meets changes nothing.
  pub update_where_none :
      (p : A → Bool) (f : A → A) (rows : List A)
      → ((r : A) → p r ≡ false)
      → update_where p f rows ≡ rows
  unfolding update_where
  update_where_none p f [] h = refl
  update_where_none p f (r ∷ rows) h =
      rw (h r) (ap (λ more. r ∷ more) (update_where_none p f rows h))

  pub rows_affected_none :
      (p : A → Bool) (rows : List A) → ((r : A) → p r ≡ false) → rows_affected p rows ≡ 0
  unfolding rows_affected
  rows_affected_none p [] h = refl
  rows_affected_none p (r ∷ rows) h = ground (arith, h r, rows_affected_none p rows h)

abbrev pub change_if : (JobRow → Bool) → (JobRow → JobRow) → JobRow → JobRow
change_if p f r = if p r then f r else r

-- A job is found after an update exactly where it was found before, changed if the filter picks it.
pub find_job-update_where :
    (job : ℕ) (p : JobRow → Bool) (f : JobRow → JobRow) (rows : List JobRow)
    → ((r : JobRow) → (f r).id ≡ r.id)
    → find_job job (update_where p f rows) ≡ Option.map (change_if p f) (find_job job rows)
unfolding find_job update_where
find_job-update_where job p f [] h = refl
find_job-update_where job p f (r ∷ rows) h =
    ground (arith, h r, find_job-update_where job p f rows h)

pub find_job-append_none :
    (job : ℕ) (rows : List JobRow) (new r : JobRow)
    → find_job job rows ≡ some r
    → find_job job (snoc rows new) ≡ some r
unfolding find_job
find_job-append_none job [] new r e = cc
find_job-append_none job (x ∷ rows) new r e = ground (arith, find_job-append_none job rows new r)

-- Tests on a state, as equations.
pub same_status-eq : (s t : JobStatus) → same_status s t ≡ true → s ≡ t
same_status-eq pending pending e = refl
same_status-eq running running e = refl
same_status-eq completed completed e = refl
same_status-eq skipped skipped e = refl
same_status-eq failed failed e = refl
same_status-eq cancelled cancelled e = refl
same_status-eq s t e = ground arith

pub same_bool-eq : (a b : Bool) → same_bool a b ≡ true → a ≡ b
same_bool-eq true b e = sym e
same_bool-eq false true e = cc
same_bool-eq false false e = refl

pub claim_image_job-jobs :
    (db : Db) (job worker now lease : ℕ)
    → (claim_image_job db job worker now lease).0.jobs
      ≡ update_where (claim_filter job) (claimed now lease) db.jobs
unfolding claim_image_job
claim_image_job-jobs db job worker now lease = ground arith
