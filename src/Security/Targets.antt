-- ===== src/Security/Targets.antt =====
-- The names that `validate_connect_target_syntax` of src/security.rs accepts.
use donkey.Base.{
  same_codes_eq, passed_last, not-false, ◌≤◌, ℕ, Bool, true, false, not, ◌||◌, Option, none, List,
  [], ◌∷◌, any, all, ltb, ◌==◌, ◌≡◌, refl, inl, inr, ok, passed_guard, Bool-cases, arith, Text,
  codes, same_codes, is_empty, is_whitespace, len, trim, split, extend_first, without_last, or_left,
  or_right, and_left, and_right, or_true,
}
use donkey.Security.{
  IpAddr, bad_target, wrong_type, is_delimiter, is_host_char, is_bad_label, is_bad_host,
  validate_connect_target_syntax,
}

-- A letter, a digit, a hyphen or a dot.
abbrev pub is_name_char : ℕ → Bool
is_name_char c = is_host_char c || c == 46

abbrev is_bad_part : Text → Bool
is_bad_part part = not (all is_host_char part)

extend_first-all :
    (c : ℕ) (parts : List Text)
    → any is_bad_part (extend_first c parts) ≡ false
    → (is_host_char c ≡ true) × (any is_bad_part parts ≡ false)
extend_first-all c [] h = ground arith
extend_first-all c (part ∷ parts) h = ground arith

split-all : (s : Text) → any is_bad_part (split 46 s) ≡ false → all is_name_char s ≡ true
unfolding split
split-all [] h = refl
split-all (c ∷ s) h = elim (Bool-cases (c == 46)) [
  | inl e ↦ rw (e, or_true (is_host_char c)) (split-all s (or_right false _ (rw e at h)))
  | inr e ↦
      let (here, rest) = extend_first-all c (split 46 s) (rw e at h) in
      rw (here, split-all s rest) refl
]

bad_label-bad_part :
    (parts : List Text) → any is_bad_label parts ≡ false → any is_bad_part parts ≡ false
bad_label-bad_part [] h = refl
bad_label-bad_part (part ∷ parts) h =
    let here = or_left (is_bad_label part) _ h in
    let rest = bad_label-bad_part parts (or_right (is_bad_label part) _ h) in
    rw (or_right _ (is_bad_part part) here, rest) refl

without_last-all :
    (s : Text) → all is_name_char (without_last 46 s) ≡ true → all is_name_char s ≡ true
without_last-all [] h = refl
without_last-all (c ∷ []) h = elim (Bool-cases (c == 46)) [
  | inl e ↦ rw (e, or_true (is_host_char c)) refl
  | inr e ↦ rw e at h
]
without_last-all (c ∷ d ∷ s) h =
    rw (and_left (is_name_char c) _ h, without_last-all (d ∷ s) (and_right (is_name_char c) _ h))
      refl

-- A name that is accepted as a connection override, whatever the parser of addresses takes for an
-- address, was declared a domain and has at most 253 bytes, all of them letters, digits, hyphens
-- and dots: it cannot bring a port, a path, a user or another host along.
pub validate_connect_target_syntax_name :
    (parse_ip : Text → Option IpAddr) (raw target_type : Text)
    → parse_ip (trim raw) ≡ none
    → validate_connect_target_syntax parse_ip raw target_type ≡ ok tt
    → (all is_name_char (trim raw) ≡ true) × (len (trim raw) ≤ 253) × (target_type ≡ codes "domain")
unfolding validate_connect_target_syntax
validate_connect_target_syntax_name parse_ip raw target_type name h =
    let value = trim raw in
    let host = without_last 46 value in
    let (fits, h1) =
      passed_guard (is_empty value || ltb 253 (len value) || any is_whitespace value) bad_target _
        h in
    let (domain, h2) =
      passed_guard (not (same_codes target_type (codes "domain"))) wrong_type _
        (rw (name, validate_connect_target_syntax) at h1) in
    let good = passed_last (is_bad_host host) bad_target h2 in
    let labels =
      or_right (is_empty host || any is_delimiter host) (any is_bad_label (split 46 host)) good in
    let short =
      or_right (is_empty value) (ltb 253 (len value))
        (or_left (is_empty value || ltb 253 (len value)) _ fits) in
    (
      without_last-all value (split-all host (bad_label-bad_part (split 46 host) labels)),
      ground arith,
      same_codes_eq target_type (codes "domain") (not-false _ domain),
    )
