-- ===== src/Auth/Examples.antt =====
-- The theorems on logins and returns at concrete inputs.
use donkey.Base.{ℕ, ◌≡◌, refl, List, [], ◌∷◌, keep, length, ltb, arith, if◌then◌else◌, ok, err}
use donkey.Error.{rate_limited}
use donkey.Auth.{max_failed_attempts, reserve_login_attempt, slash, safe_return_to}
use donkey.Auth.Window.{is_recent, run_attempts, reserve_login_attempt-allowed}
use donkey.Auth.Returning.{safe_return_to_backslash}

abbrev five_tries : List ℕ
five_tries = 100 ∷ 101 ∷ 102 ∷ 103 ∷ 104 ∷ []

reserve_login_attempt-allowed_example :
    (reserve_login_attempt 200 (run_attempts ([], []) five_tries).0).1 ≡ (
      if ltb
        (length (keep (is_recent 200) (run_attempts ([], []) five_tries).1))
        max_failed_attempts
      then ok tt
      else err rate_limited)
reserve_login_attempt-allowed_example = reserve_login_attempt-allowed five_tries 200 (omega arith)

safe_return_to_backslash_example :
    safe_return_to (slash ∷ 92 ∷ 101 ∷ 46 ∷ 120 ∷ []) ≡ slash ∷ 92 ∷ 101 ∷ 46 ∷ 120 ∷ []
safe_return_to_backslash_example = safe_return_to_backslash (101 ∷ 46 ∷ 120 ∷ []) refl (omega arith)
