-- ===== src/Route/Names.antt =====
-- What `normalize_input` of src/registry_routes.rs lets through, and the form of the table's rows.
use Prim.Native.String.{String}
use donkey.Base.{
  length, some-inj, sym, All, same_codes, ℕ, true, false, ◌&&◌, ◌||◌, Option, none, some, [], ◌∷◌,
  all, leb, ltb, ◌≡◌, refl, inl, inr, ok, Bool-cases, arith, Text, and_left, and_right, ok_parts,
  ok-inj, passed_guard, subst, is_whitespace, lowercase, to_ascii_lowercase, len, trim, trim_start,
  trim_end, ap, is_empty, is_ascii_alphanumeric, ◌∙◌,
}
use donkey.Error.{bad_request}
use donkey.Route.{
  NormalizedRouteInput, RegistryRouteInput, RegistryRoute, Parsers, is_identifier,
  is_identifier_char, normalize_identifier, normalize_prefix, normalize_input,
  normalize_registry_authority, parse_mode, mode_str, is_none, differ, docker_hub_library,
  passthrough, RepositoryMode,
}

lowercase_idem : (c : ℕ) → lowercase (lowercase c) ≡ lowercase c
lowercase_idem c = ground arith

to_ascii_lowercase_idem :
    (s : Text) → to_ascii_lowercase (to_ascii_lowercase s) ≡ to_ascii_lowercase s
to_ascii_lowercase_idem [] = refl
to_ascii_lowercase_idem (c ∷ s) = cc (lowercase_idem c, to_ascii_lowercase_idem s)

-- Every character is printed: trimming does nothing.
abbrev IsPlain : Text → Type 0
IsPlain = All (λ c. is_whitespace c ≡ false)

trim_end_plain : (s : Text) → IsPlain s → trim_end is_whitespace s ≡ s
trim_end_plain [] h = refl
trim_end_plain (c ∷ []) h = rw h.0 refl
trim_end_plain (c ∷ d ∷ s) h = rw (trim_end_plain (d ∷ s) h.1) refl

trim_start_plain : (s : Text) → IsPlain s → trim_start is_whitespace s ≡ s
trim_start_plain [] h = refl
trim_start_plain (c ∷ s) h = rw h.0 refl

trim_plain : (s : Text) → IsPlain s → trim s ≡ s
unfolding trim
trim_plain s h = rw (trim_start_plain s h) (trim_end_plain s h)

plain_char : (c : ℕ) → is_identifier_char c ≡ true → is_whitespace c ≡ false
unfolding is_whitespace
plain_char c h = ground arith

plain_first : (c : ℕ) → is_ascii_alphanumeric c ≡ true → is_whitespace c ≡ false
unfolding is_whitespace
plain_first c h = ground arith

all-IsPlain : (s : Text) → all is_identifier_char s ≡ true → IsPlain s
all-IsPlain [] h = tt
all-IsPlain (c ∷ s) h = (
  plain_char c (and_left (is_identifier_char c) _ h),
  all-IsPlain s (and_right (is_identifier_char c) _ h),
)

is_identifier-IsPlain : (s : Text) → is_identifier s ≡ true → IsPlain s
unfolding is_identifier
is_identifier-IsPlain [] h = tt
is_identifier-IsPlain (c ∷ s) h = (
  plain_first c (
      and_left (is_ascii_alphanumeric c) (leb (len (c ∷ s)) 32)
        (and_left (is_ascii_alphanumeric c && leb (len (c ∷ s)) 32) (all is_identifier_char s) h)),
  all-IsPlain s
      (and_right (is_ascii_alphanumeric c && leb (len (c ∷ s)) 32) (all is_identifier_char s) h),
)

-- What an identifier is normalised to: the lower case of the trimmed text.
normalize_identifier_inv :
    (value : Text) (label : String) {t : Text}
    → normalize_identifier value label ≡ ok t
    → (is_identifier t ≡ true) × (to_ascii_lowercase (trim value) ≡ t)
unfolding normalize_identifier
normalize_identifier_inv value label h =
    elim (Bool-cases (is_identifier (to_ascii_lowercase (trim value)))) [
      | inl e ↦
          let q = rw e at h in
          let same : to_ascii_lowercase (trim value) ≡ _ = ok-inj q in
          (subst (λ t. is_identifier t ≡ true) same e, same)
      | inr e ↦ absurd (let q = rw e at h in cc)
    ]

-- A key or path prefix that was accepted is accepted again, as it is: normalisation is idempotent.
pub normalize_identifier_idem :
    (value : Text) (label : String) {t : Text}
    → normalize_identifier value label ≡ ok t
    → normalize_identifier t label ≡ ok t
unfolding normalize_identifier
normalize_identifier_idem value label {t} h =
    let (good, e) = normalize_identifier_inv value label h in
    let lower : to_ascii_lowercase t ≡ t =
      ap to_ascii_lowercase (sym e) ∙ to_ascii_lowercase_idem (trim value) ∙ e in
    let kept : to_ascii_lowercase (trim t) ≡ t =
      ap to_ascii_lowercase (trim_plain t (is_identifier-IsPlain t good)) ∙ lower in
    rw (kept, good) refl

-- The form of a row, which the code's lookups rely on: its key and its prefix are identifiers, its
-- mode is known, and it is the default exactly when it has no prefix.
abbrev pub IsRoute : RegistryRoute → Type 0
IsRoute r =
    (is_identifier r.key ≡ true)
    × (elim r.path_prefix [ none ↦ true | some p ↦ is_identifier p ] ≡ true)
    × (differ r.is_default (is_none r.path_prefix) ≡ false)
    × ((mode : RepositoryMode) × (parse_mode r.repository_mode ≡ ok mode))

pub parse_mode-mode_str : (mode : RepositoryMode) → parse_mode (mode_str mode) ≡ ok mode
unfolding parse_mode mode_str same_codes
parse_mode-mode_str docker_hub_library = refl
parse_mode-mode_str passthrough = refl

-- What `normalize_input` accepts.
abbrev pub IsNormalized : NormalizedRouteInput → Type 0
IsNormalized input =
    (is_identifier input.key ≡ true)
    × (elim input.path_prefix [ none ↦ true | some p ↦ is_identifier p ] ≡ true)
    × (differ input.is_default (is_none input.path_prefix) ≡ false)

normalize_prefix_inv :
    (raw prefix : Option Text)
    → normalize_prefix raw ≡ ok prefix
    → elim prefix [ none ↦ true | some p ↦ is_identifier p ] ≡ true
unfolding normalize_prefix
normalize_prefix_inv none none h = refl
normalize_prefix_inv none (some p) h = cc
normalize_prefix_inv (some value) none h = refl
normalize_prefix_inv (some value) (some p) h = elim (Bool-cases (is_empty (trim value))) [
  | inl e ↦ absurd (let q = rw e at h in cc)
  | inr e ↦
      let q = rw e at h in
      let (t, (named, e')) =
        ok_parts (λ (t : Text). ok (some t))
          (normalize_identifier (trim value) "Registry route path prefix") q in
      let same : some t ≡ some p = ok-inj e' in
      let (good, _) = normalize_identifier_inv (trim value) "Registry route path prefix" named in
      subst (λ x. is_identifier x ≡ true) (some-inj same) good
]

pub normalize_input-IsNormalized :
    (parsers : Parsers) (raw : RegistryRouteInput) {input : NormalizedRouteInput}
    → normalize_input parsers raw ≡ ok input
    → IsNormalized input
unfolding normalize_input
normalize_input-IsNormalized parsers raw h =
    let (key, (keyed, h1)) = ok_parts _ (normalize_identifier raw.key "Registry route key") h in
    let (_, h2) =
      passed_guard (is_empty (trim raw.name) || ltb 80 (length (trim raw.name)))
        (bad_request "name must be between 1 and 80 characters") _ h1 in
    let (registry, (_, h3)) =
      ok_parts _ (normalize_registry_authority parsers raw.canonical_registry) h2 in
    let (prefix, (prefixed, h4)) = ok_parts _ (normalize_prefix raw.path_prefix) h3 in
    let (agrees, h5) =
      passed_guard (differ raw.is_default (is_none prefix))
        (bad_request "only the default Registry route may omit a path prefix") _ h4 in
    let (mode, (_, e)) = ok_parts _ (parse_mode raw.repository_mode) h5 in
    subst IsNormalized (ok-inj e) (
      (normalize_identifier_inv raw.key "Registry route key" keyed).0,
      normalize_prefix_inv raw.path_prefix prefix prefixed,
      agrees,
    )
