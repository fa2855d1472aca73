-- ===== src/Auth/Window.antt =====
-- The sliding window of login attempts in src/auth.rs, against the list of all accepted attempts.
use donkey.Base.{
  ℕ, ◌+◌, ◌-◌, ◌≤◌, ◌<◌, ◌≡◌, refl, sym, ap, ◌∙◌, inl, inr, Bool, true, false, List, [], ◌∷◌, All,
  keep, snoc, length, ltb, leb, arith, Bool-cases, if◌then◌else◌, ok, err,
}
use donkey.Error.{ApiResult, rate_limited}
use donkey.Auth.{failed_attempt_window, max_failed_attempts, prune, reserve_login_attempt}

abbrev pub is_recent : ℕ → ℕ → Bool
is_recent now time = leb (now - time) failed_attempt_window

abbrev pub Ascending : List ℕ → Type 0
Ascending [] = Unit {0}
Ascending (time ∷ times) = All (λ t. time ≤ t) times × Ascending times

abbrev pub accept : List ℕ → ℕ → ApiResult (Unit {0}) → List ℕ
accept accepted now (ok done) = snoc accepted now
accept accepted now (err error) = accepted

-- The attempts of one key, one after another, with the list of those that were accepted.
pub attempt_step : List ℕ × List ℕ → ℕ → List ℕ × List ℕ
attempt_step (attempts, accepted) now =
    let (attempts', answer) = reserve_login_attempt now attempts in
    (attempts', accept accepted now answer)

pub run_attempts : List ℕ × List ℕ → List ℕ → List ℕ × List ℕ
run_attempts state [] = state
run_attempts state (now ∷ later) = run_attempts (attempt_step state now) later

keep-All : (p : ℕ → Bool) (times : List ℕ) → All (λ t. p t ≡ true) times → keep p times ≡ times
keep-All p [] h = refl
keep-All p (t ∷ times) (now, later) = ground (arith, keep-All p times later)

recent_later :
    (now time : ℕ) (times : List ℕ)
    → is_recent now time ≡ true
    → All (λ t. time ≤ t) times
    → All (λ t. is_recent now t ≡ true) times
recent_later now time [] h a = tt
recent_later now time (t ∷ times) h (le, later) =
    (ground arith, recent_later now time times h later)

prune-keep :
    (now : ℕ) (times : List ℕ) → Ascending times → prune now times ≡ keep (is_recent now) times
unfolding prune
prune-keep now [] a = refl
prune-keep now (time ∷ times) (above, a) = elim (Bool-cases (is_recent now time)) [
  | inl recent ↦
      let all_recent = keep-All (is_recent now) times (recent_later now time times recent above) in
      ground arith
  | inr old ↦ ground (arith, prune-keep now times a)
]

keep-keep :
    (last now : ℕ) (times : List ℕ)
    → last ≤ now
    → keep (is_recent now) (keep (is_recent last) times) ≡ keep (is_recent now) times
keep-keep last now [] h = refl
keep-keep last now (t ∷ times) h = ground (arith, keep-keep last now times h)

All-keep :
    (p : ℕ → Bool) (low : ℕ) (times : List ℕ)
    → All (λ t. low ≤ t) times
    → All (λ t. low ≤ t) (keep p times)
All-keep p low [] a = tt
All-keep p low (t ∷ times) (le, a) = elim (Bool-cases (p t)) [
  | inl e ↦ rw e (le, All-keep p low times a)
  | inr e ↦ rw e (All-keep p low times a)
]

Ascending-keep : (p : ℕ → Bool) (times : List ℕ) → Ascending times → Ascending (keep p times)
Ascending-keep p [] a = tt
Ascending-keep p (t ∷ times) (above, a) = elim (Bool-cases (p t)) [
  | inl e ↦ rw e (All-keep p t times above, Ascending-keep p times a)
  | inr e ↦ rw e (Ascending-keep p times a)
]

All-snoc :
    (low : ℕ) (times : List ℕ) (now : ℕ)
    → low ≤ now
    → All (λ t. low ≤ t) times
    → All (λ t. low ≤ t) (snoc times now)
All-snoc low [] now h a = (h, tt)
All-snoc low (t ∷ times) now h (le, a) = (le, All-snoc low times now h a)

Ascending-snoc :
    (times : List ℕ) (now : ℕ)
    → All (λ t. t ≤ now) times
    → Ascending times
    → Ascending (snoc times now)
Ascending-snoc [] now below a = (tt, tt)
Ascending-snoc (t ∷ times) now (le, below) (above, a) =
    (All-snoc t times now le above, Ascending-snoc times now below a)

All-snoc-le :
    (times : List ℕ) (last now : ℕ)
    → last ≤ now
    → All (λ t. t ≤ last) times
    → All (λ t. t ≤ now) (snoc times now)
All-snoc-le [] last now h a = (omega arith, tt)
All-snoc-le (t ∷ times) last now h (le, a) = (omega arith, All-snoc-le times last now h a)

All-le :
    (times : List ℕ) (last now : ℕ)
    → last ≤ now
    → All (λ t. t ≤ last) times
    → All (λ t. t ≤ now) times
All-le [] last now h a = tt
All-le (t ∷ times) last now h (le, a) = (omega arith, All-le times last now h a)

keep-snoc :
    (p : ℕ → Bool) (times : List ℕ) (now : ℕ)
    → p now ≡ true
    → keep p (snoc times now) ≡ snoc (keep p times) now
keep-snoc p [] now h = ground arith
keep-snoc p (t ∷ times) now h = elim (Bool-cases (p t)) [
  | inl e ↦ rw e (ap (λ r. t ∷ r) (keep-snoc p times now h))
  | inr e ↦ rw e (keep-snoc p times now h)
]

length-snoc : (times : List ℕ) (now : ℕ) → length (snoc times now) ≡ length times + 1
length-snoc [] now = refl
length-snoc (t ∷ times) now = omega (arith, length-snoc times now)

-- The deque holds the accepted attempts that were in the window at the last attempt.
pub record Windowed (last : ℕ) (attempts accepted : List ℕ) : Type 0 where
  pub window : attempts ≡ keep (is_recent last) accepted
  pub ascending : Ascending accepted
  pub past : All (λ t. t ≤ last) accepted
  pub few : length attempts ≤ max_failed_attempts

pruned_window :
    (last now : ℕ) (attempts accepted : List ℕ)
    → last ≤ now
    → Windowed last attempts accepted
    → prune now attempts ≡ keep (is_recent now) accepted
pruned_window last now attempts accepted le w =
    let a = Ascending-keep (is_recent last) accepted w.ascending in
    ap (prune now) w.window
    ∙ prune-keep now (keep (is_recent last) accepted) a
    ∙ keep-keep last now accepted le

length-prune : (now : ℕ) (times : List ℕ) → length (prune now times) ≤ length times
unfolding prune
length-prune now [] = omega arith
length-prune now (t ∷ times) = ground (arith, length-prune now times)

room : (n : ℕ) → leb max_failed_attempts n ≡ false → n < max_failed_attempts
room n h = ground arith

abbrev pub allowed : ℕ → List ℕ → ApiResult (Unit {0})
allowed now accepted =
    if ltb (length (keep (is_recent now) accepted)) max_failed_attempts
    then ok tt
    else err rate_limited

attempt-Windowed :
    (last now : ℕ) (attempts accepted : List ℕ)
    → last ≤ now
    → Windowed last attempts accepted
    → ((reserve_login_attempt now attempts).1 ≡ allowed now accepted)
      × Windowed now
          (attempt_step (attempts, accepted) now).0
          (attempt_step (attempts, accepted) now).1
unfolding reserve_login_attempt attempt_step
attempt-Windowed last now attempts accepted le w =
    let pruned = pruned_window last now attempts accepted le w in
    let same_length = ap length pruned in
    elim (Bool-cases (leb max_failed_attempts (length (prune now attempts)))) [
      | inl full ↦ rw full (
        ground arith,
        record {
          window = pruned;
          ascending = w.ascending;
          past = All-le accepted last now le w.past;
          few = omega (arith, length-prune now attempts, w.few);
        },
      )
      | inr free ↦ rw free (
        ground arith,
        record {
          window =
              ap (λ l. snoc l now) pruned
              ∙ sym (keep-snoc (is_recent now) accepted now (ground arith));
          ascending = Ascending-snoc accepted now (All-le accepted last now le w.past) w.ascending;
          past = All-snoc-le accepted last now le w.past;
          few = omega (
            arith,
            length-snoc (prune now attempts) now,
            room (length (prune now attempts)) free,
          );
        },
      )
    ]

run-Windowed :
    (times : List ℕ) (last now : ℕ) (attempts accepted : List ℕ)
    → Ascending (last ∷ snoc times now)
    → Windowed last attempts accepted
    → (before : ℕ) × (before ≤ now)
      × Windowed before
          (run_attempts (attempts, accepted) times).0
          (run_attempts (attempts, accepted) times).1
unfolding run_attempts
run-Windowed [] last now attempts accepted ((le, _), _) w = (last, le, w)
run-Windowed (t ∷ times) last now attempts accepted ((le, _), a) w =
    let (answer, next) = attempt-Windowed last t attempts accepted le w in
    run-Windowed times t now (attempt_step (attempts, accepted) t).0
      (attempt_step (attempts, accepted) t).1 a next

-- After any attempts at a login with one key, at times that do not go back, and with no success in
-- between, the next attempt is accepted exactly if fewer than five attempts were accepted in the
-- fifteen minutes before it, and refused as rate limited otherwise.
pub reserve_login_attempt-allowed :
    (times : List ℕ) (now : ℕ)
    → Ascending (0 ∷ snoc times now)
    → (reserve_login_attempt now (run_attempts ([], []) times).0).1 ≡ (
        if ltb (length (keep (is_recent now) (run_attempts ([], []) times).1)) max_failed_attempts
        then ok tt
        else err rate_limited)
reserve_login_attempt-allowed times now a =
    let (before, le, w) =
      run-Windowed times 0 now [] [] a
        (record { window = refl; ascending = tt; past = tt; few = omega arith }) in
    (attempt-Windowed before now (run_attempts ([], []) times).0 (run_attempts ([], []) times).1 le
      w).0
