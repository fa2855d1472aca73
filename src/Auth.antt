-- ===== src/Auth.antt =====
-- `reserve_login_attempt` and `safe_return_to` of src/auth.rs. Times are in seconds, and a text is
-- its bytes.
pub mod Window
pub mod Returning
mod Examples
use donkey.Base.{
  starts_with, ℕ, ◌-◌, ◌*◌, Bool, true, false, not, ◌&&◌, ◌||◌, List, [], ◌∷◌, any, snoc, length,
  ltb, leb, ◌==◌, if◌then◌else◌, ok, err,
}
use donkey.Error.{ApiResult, rate_limited}

abbrev pub failed_attempt_window : ℕ
failed_attempt_window = 15 * 60

abbrev pub max_failed_attempts : ℕ
max_failed_attempts = 5

-- The `while` loop that drops what has left the window from the front.
pub prune : ℕ → List ℕ → List ℕ
prune now [] = []
prune now (time ∷ times) =
    let rest = prune now times in
    if ltb failed_attempt_window (now - time) then rest else time ∷ times

-- The attempts of one key, oldest first.
pub reserve_login_attempt : ℕ → List ℕ → List ℕ × ApiResult (Unit {0})
reserve_login_attempt now attempts =
    let values = prune now attempts in
    if leb max_failed_attempts (length values)
    then (values, err rate_limited)
    else (snoc values now, ok tt)

abbrev pub slash : ℕ
slash = 47

abbrev pub is_line_break : ℕ → Bool
is_line_break c = c == 13 || c == 10

pub is_safe_return : List ℕ → Bool
is_safe_return value =
    starts_with (slash ∷ []) value
    && not (starts_with (slash ∷ slash ∷ []) value)
    && not (any is_line_break value)
    && leb (length value) 1024

unfoldable pub safe_return_to : List ℕ → List ℕ
unfolding is_safe_return
safe_return_to value = if is_safe_return value then value else slash ∷ []
