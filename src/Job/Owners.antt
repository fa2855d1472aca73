-- ===== src/Job/Owners.antt =====
-- The owner table of src/db.rs: the attempts of one job, and what its statements do to them.

use donkey.Base.{
  ℕ, ◌≤◌, ◌<◌, ◌≡◌, refl, inl, inr, Bool, true, false, List, [], ◌∷◌, All, any, keep, arith,
  Bool-cases, ==_iff, ◌==◌,
}
use donkey.Job.Store.{Owner, rows_affected, find_owner, put_owner, is_token, next_attempt, i64_max}

-- Every owner row of the job has an attempt above `a`.
abbrev pub Newer : ℕ → ℕ → List Owner → Type 0
Newer job a owners = All (λ o. o.job_id ≡ job → a < o.attempt) owners

abbrev pub is_held : ℕ → List Owner → Bool
is_held job = any (λ o. o.job_id == job)

pub Newer-put_owner :
    (job a : ℕ) (new : Owner) (owners : List Owner)
    → (new.job_id ≡ job → a < new.attempt)
    → Newer job a owners
    → Newer job a (put_owner new owners)
unfolding put_owner
Newer-put_owner job a new [] h n = (h, tt)
Newer-put_owner job a new (o ∷ owners) h (now, later) = elim (Bool-cases (o.job_id == new.job_id)) [
  | inl e ↦ rw e (h, later)
  | inr e ↦ rw e (now, Newer-put_owner job a new owners h later)
]

pub is_held-put_owner :
    (job : ℕ) (new : Owner) (owners : List Owner)
    → is_held job owners ≡ true
    → is_held job (put_owner new owners) ≡ true
unfolding put_owner
is_held-put_owner job new [] h = cc
is_held-put_owner job new (o ∷ owners) h = ground (arith, is_held-put_owner job new owners)

pub is_held-put_self :
    (job : ℕ) (new : Owner) (owners : List Owner)
    → new.job_id ≡ job
    → is_held job (put_owner new owners) ≡ true
unfolding put_owner
is_held-put_self job new [] h = ground arith
is_held-put_self job new (o ∷ owners) h = ground (arith, is_held-put_self job new owners)

pub find_owner_held :
    (job a : ℕ) (owners : List Owner)
    → is_held job owners ≡ true
    → Newer job a owners
    → a < i64_max
    → a < next_attempt (find_owner job owners)
unfolding find_owner
find_owner_held job a [] h n m = cc
find_owner_held job a (o ∷ owners) h (now, later) m = elim (Bool-cases (o.job_id == job)) [
  | inl e ↦ let p = now ((==_iff o.job_id job).0 e) in rw e (omega arith)
  | inr e ↦ rw e (find_owner_held job a owners (rw e at h) later m)
]

pub Newer-keep :
    (job a : ℕ) (p : Owner → Bool) (owners : List Owner)
    → Newer job a owners
    → Newer job a (keep p owners)
Newer-keep job a p [] n = tt
Newer-keep job a p (o ∷ owners) (now, later) = elim (Bool-cases (p o)) [
  | inl e ↦ rw e (now, Newer-keep job a p owners later)
  | inr e ↦ rw e (Newer-keep job a p owners later)
]

pub is_held-keep :
    (job : ℕ) (p : Owner → Bool) (owners : List Owner)
    → ((o : Owner) → (o.job_id == job) ≡ true → p o ≡ true)
    → is_held job (keep p owners) ≡ is_held job owners
is_held-keep job p [] h = refl
is_held-keep job p (o ∷ owners) h = ground (arith, h o, is_held-keep job p owners h)

pub Newer-absent :
    (job a worker attempt : ℕ) (owners : List Owner)
    → attempt ≤ a
    → Newer job a owners
    → any (is_token job worker attempt) owners ≡ false
Newer-absent job a worker attempt [] le n = refl
Newer-absent job a worker attempt (o ∷ owners) le (now, later) =
    ground (arith, now, Newer-absent job a worker attempt owners le later)

pub none-Newer :
    (job a : ℕ) (owners : List Owner)
    → rows_affected (λ o. o.job_id == job) owners ≡ 0
    → Newer job a owners
unfolding rows_affected
none-Newer job a [] u = tt
none-Newer job a (o ∷ owners) u = elim (Bool-cases (o.job_id == job)) [
  | inl hit ↦ let u' = rw hit at u in absurd (omega arith)
  | inr miss ↦ ((λ q. ground arith), none-Newer job a owners (rw miss at u))
]

pub put_only :
    (job a worker attempt : ℕ) (owners : List Owner)
    → a < attempt
    → rows_affected (λ o. o.job_id == job) owners ≡ 1
    → Newer job a
        (put_owner (record { job_id = job; worker_id = worker; attempt = attempt }) owners)
unfolding put_owner rows_affected
put_only job a worker attempt [] lt u = ((λ q. lt), tt)
put_only job a worker attempt (o ∷ owners) lt u = elim (Bool-cases (o.job_id == job)) [
  | inl hit ↦ rw hit ((λ q. lt), none-Newer job a owners (let u' = rw hit at u in omega arith))
  | inr miss ↦ rw miss ((λ q. ground arith), put_only job a worker attempt owners lt (rw miss at u))
]
