-- ===== src/Auth/Returning.antt =====
-- What `safe_return_to` of src/auth.rs lets through.
use donkey.Base.{ℕ, suc, ◌≤◌, ◌≡◌, refl, true, false, List, ◌∷◌, any, length, leb, arith}
use donkey.Auth.{slash, is_line_break, is_safe_return, safe_return_to}

-- A target that begins with a slash and a backslash is let through, which browsers take for the
-- start of another host's name: whatever follows, if it has no line break and is not too long.
pub safe_return_to_backslash :
    (rest : List ℕ)
    → any is_line_break rest ≡ false
    → length rest ≤ 1022
    → safe_return_to (slash ∷ 92 ∷ rest) ≡ slash ∷ 92 ∷ rest
unfolding safe_return_to is_safe_return
safe_return_to_backslash rest plain short =
    let fits : leb (suc (suc (length rest))) 1024 ≡ true = ground arith in rw (plain, fits) refl
