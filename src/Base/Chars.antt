-- ===== src/Base/Chars.antt =====
-- Texts as lists of code points, with the operations of Rust's `str` that the source uses.
use Prim.Native.Char.{code}
use Prim.Native.String.{String}
use Prim.Native.Nat.{ℕ, suc, ◌+◌}
use mathlib.Core.Path.{◌≡◌, refl, subst}
use mathlib.Core.Logic.{inl, inr}
use mathlib.Core.Bool.{Bool, true, false, ◌&&◌, ◌||◌}
use mathlib.Core.List.{List, [], ◌∷◌, ◌++◌, map}
use mathlib.Core.Option.{Option, none, some}
use native.Mathlib.Omega.{arith}
use donkey.Base.Tests.{
  some-inj, ltb, leb, ◌==◌, if◌then◌else◌, Bool-cases, ==_iff, ==_self, and_left, and_right,
}
use donkey.Base.Lists.{drop}

abbrev pub Text : Type 0
Text = List ℕ

abbrev pub codes : String → Text
codes String.[] = []
codes (String.◌∷◌ c s) = code c ∷ codes s

-- `==` on texts.
unfoldable pub same_codes : Text → Text → Bool
same_codes [] [] = true
same_codes (a ∷ s) (b ∷ t) = a == b && same_codes s t
same_codes _ _ = false

abbrev pub is_within : ℕ → ℕ → ℕ → Bool
is_within lo hi c = leb lo c && leb c hi

abbrev pub is_ascii_digit : ℕ → Bool
is_ascii_digit = is_within 48 57

abbrev pub is_ascii_lowercase : ℕ → Bool
is_ascii_lowercase = is_within 97 122

abbrev pub is_ascii_uppercase : ℕ → Bool
is_ascii_uppercase = is_within 65 90

abbrev pub is_ascii_alphanumeric : ℕ → Bool
is_ascii_alphanumeric c = is_ascii_digit c || is_ascii_lowercase c || is_ascii_uppercase c

-- `u8::is_ascii_whitespace`: tab, line feed, form feed, carriage return, space.
abbrev pub is_ascii_whitespace : ℕ → Bool
is_ascii_whitespace c = c == 9 || c == 10 || c == 12 || c == 13 || c == 32

-- `char::is_whitespace`: Unicode's White_Space.
unfoldable pub is_whitespace : ℕ → Bool
is_whitespace c =
    is_within 9 13 c
    || c == 32
    || c == 133
    || c == 160
    || c == 5760
    || is_within 8192 8202 c
    || c == 8232
    || c == 8233
    || c == 8239
    || c == 8287
    || c == 12288

abbrev pub lowercase : ℕ → ℕ
lowercase c = if is_ascii_uppercase c then c + 32 else c

abbrev pub to_ascii_lowercase : Text → Text
to_ascii_lowercase = map lowercase

-- The bytes of one code point in UTF-8.
abbrev pub len_utf8 : ℕ → ℕ
len_utf8 c = if ltb c 128 then 1 else if ltb c 2048 then 2 else if ltb c 65536 then 3 else 4

-- `str::len` counts bytes.
unfoldable pub len : Text → ℕ
len [] = 0
len (c ∷ s) = len_utf8 c + len s

abbrev pub trim_start : (ℕ → Bool) → Text → Text
trim_start p [] = []
trim_start p (c ∷ s) = let rest = trim_start p s in if p c then rest else c ∷ s

-- A code point that is dropped has nothing but such behind it.
abbrev pub trim_end : (ℕ → Bool) → Text → Text
trim_end p [] = []
trim_end p (c ∷ s) = elim (trim_end p s) [ [] ↦ if p c then [] else c ∷ [] | d ∷ t ↦ c ∷ d ∷ t ]

unfoldable pub trim : Text → Text
trim s = trim_end is_whitespace (trim_start is_whitespace s)

abbrev pub is_empty : Text → Bool
is_empty [] = true
is_empty (c ∷ s) = false

abbrev pub starts_with : Text → Text → Bool
starts_with [] s = true
starts_with (c ∷ prefix) [] = false
starts_with (c ∷ prefix) (d ∷ s) = c == d && starts_with prefix s

unfoldable pub strip_prefix : Text → Text → Option Text
strip_prefix [] s = some s
strip_prefix (c ∷ prefix) [] = none
strip_prefix (c ∷ prefix) (d ∷ s) =
    let rest = strip_prefix prefix s in if c == d then rest else none

-- The last code point, `bytes().last()`.
abbrev pub last : Text → Option ℕ
last [] = none
last (c ∷ s) = elim (last s) [ none ↦ some c | some d ↦ some d ]

abbrev pub first : Text → Option ℕ
first [] = none
first (c ∷ s) = some c

abbrev pub is_some_and : (ℕ → Bool) → Option ℕ → Bool
is_some_and p none = false
is_some_and p (some c) = p c

-- `strip_suffix` of one code point, with `unwrap_or` of the text itself.
abbrev pub without_last : ℕ → Text → Text
without_last k [] = []
without_last k (c ∷ []) = if c == k then [] else c ∷ []
without_last k (c ∷ d ∷ s) = c ∷ without_last k (d ∷ s)

abbrev pub extend_first : ℕ → List Text → List Text
extend_first c [] = (c ∷ []) ∷ []
extend_first c (part ∷ parts) = (c ∷ part) ∷ parts

-- `split` on one code point: one part more than there are separators.
unfoldable pub split : ℕ → Text → List Text
split k [] = [] ∷ []
split k (c ∷ s) = if c == k then [] ∷ split k s else extend_first c (split k s)

abbrev pub found_at : Option ℕ → Bool → Option ℕ
found_at (some i) here = some (suc i)
found_at none true = some 0
found_at none false = none

-- `rfind`: where the last occurrence starts.
unfoldable pub rfind : Text → Text → Option ℕ
rfind p [] = found_at none (starts_with p [])
rfind p (c ∷ s) = found_at (rfind p s) (starts_with p (c ∷ s))

pub same_codes_self : (s : Text) → same_codes s s ≡ true
unfolding same_codes
same_codes_self [] = refl
same_codes_self (c ∷ s) = rw (==_self c, same_codes_self s)

pub same_codes_eq : (s t : Text) → same_codes s t ≡ true → s ≡ t
unfolding same_codes
same_codes_eq [] [] h = refl
same_codes_eq [] (b ∷ t) h = cc
same_codes_eq (a ∷ s) [] h = cc
same_codes_eq (a ∷ s) (b ∷ t) h =
    let e : a ≡ b = (==_iff a b).0 (and_left _ _ h) in
    let r : s ≡ t = same_codes_eq s t (and_right (a == b) _ h) in cc

pub same_codes_comm : (s t : Text) → same_codes s t ≡ same_codes t s
unfolding same_codes
same_codes_comm [] [] = refl
same_codes_comm [] (b ∷ t) = refl
same_codes_comm (a ∷ s) [] = refl
same_codes_comm (a ∷ s) (b ∷ t) = ground (arith, same_codes_comm s t)

pub strip_prefix-append : (p s : Text) → strip_prefix p (p ++ s) ≡ some s
unfolding strip_prefix
strip_prefix-append [] s = refl
strip_prefix-append (c ∷ p) s = rw (==_self c, strip_prefix-append p s)

pub strip_prefix_eq : (p s t : Text) → strip_prefix p s ≡ some t → s ≡ p ++ t
unfolding strip_prefix
strip_prefix_eq [] s t h = cc
strip_prefix_eq (c ∷ p) [] t h = cc
strip_prefix_eq (c ∷ p) (d ∷ s) t h = elim (Bool-cases (c == d)) [
  | inl e ↦
      let q : c ≡ d = (==_iff c d).0 e in
      let r : s ≡ p ++ t = strip_prefix_eq p s t (rw e at h) in cc
  | inr e ↦ absurd (let q = rw e at h in cc)
]

pub starts_with_eq : (p s : Text) → starts_with p s ≡ true → (t : Text) × (s ≡ p ++ t)
starts_with_eq [] s h = (s, refl)
starts_with_eq (c ∷ p) [] h = cc
starts_with_eq (c ∷ p) (d ∷ s) h =
    let e : c ≡ d = (==_iff c d).0 (and_left _ _ h) in
    let (t, r) = starts_with_eq p s (and_right (c == d) _ h) in (t, cc)

found_at-drop :
    (p s : Text) (c i : ℕ) (later : Option ℕ) (here : Bool)
    → starts_with p (c ∷ s) ≡ here
    → ((j : ℕ) → later ≡ some j → starts_with p (drop j s) ≡ true)
    → found_at later here ≡ some i
    → starts_with p (drop i (c ∷ s)) ≡ true
found_at-drop p s c i (some j) here e ih h =
    subst (λ k. starts_with p (drop k (c ∷ s)) ≡ true) (some-inj h) (ih j refl)
found_at-drop p s c i none true e ih h =
    subst (λ k. starts_with p (drop k (c ∷ s)) ≡ true) (some-inj h) e
found_at-drop p s c i none false e ih h = cc

-- Where `rfind` finds a text, it stands.
pub rfind-starts_with : (p s : Text) (i : ℕ) → rfind p s ≡ some i → starts_with p (drop i s) ≡ true
unfolding rfind
rfind-starts_with [] [] i h = refl
rfind-starts_with (c ∷ p) [] i h = cc
rfind-starts_with p (c ∷ s) i h = found_at-drop p s c i (rfind p s) _ refl (rfind-starts_with p s) h
