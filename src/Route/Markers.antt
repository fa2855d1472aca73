-- ===== src/Route/Markers.antt =====
-- The last of the markers /manifests/, /blobs/ and /tags/ in a path, which `route_registry_path` of
-- src/registry.rs looks for.
use donkey.Base.{
  or_right, or_true, ℕ, zero, suc, ◌+◌, ◌-◌, ◌≤◌, Bool, true, false, ◌||◌, Option, none, some, [],
  ◌∷◌, drop, drop-drop, ◌≡◌, refl, sym, ap, ◌∙◌, subst, inl, inr, ◌⊎◌, Option-cases, Bool-cases,
  arith, Text, starts_with, rfind, rfind-starts_with, found_at, leb, some-inj,
}
use donkey.Route.Paths.{later, last_marker, manifests_marker, blobs_marker, tags_marker}

abbrev pub is_marked : Text → Bool
is_marked suffix =
    starts_with manifests_marker suffix
    || starts_with blobs_marker suffix
    || starts_with tags_marker suffix

-- Whether a text stands somewhere in another.
unfoldable pub occurs : Text → Text → Bool
occurs p [] = starts_with p []
occurs p (c ∷ s) = starts_with p (c ∷ s) || occurs p s

abbrev pub has_marker : Text → Bool
has_marker s = occurs manifests_marker s || occurs blobs_marker s || occurs tags_marker s

found_at-none : (o : Option ℕ) (here : Bool) → found_at o here ≡ none → (o ≡ none) × (here ≡ false)
found_at-none (some i) here h = cc
found_at-none none true h = cc
found_at-none none false h = (refl, refl)

rfind-none : (p s : Text) → rfind p s ≡ none → occurs p s ≡ false
unfolding rfind occurs
rfind-none p [] h = (found_at-none none (starts_with p []) h).1
rfind-none p (c ∷ s) h =
    let (later, here) = found_at-none (rfind p s) (starts_with p (c ∷ s)) h in
    rw here (rfind-none p s later)

occurs-drop : (p : Text) (n : ℕ) (s : Text) → occurs p s ≡ false → occurs p (drop n s) ≡ false
unfolding occurs
occurs-drop p zero s h = h
occurs-drop p (suc n) [] h = h
occurs-drop p (suc n) (c ∷ s) h = occurs-drop p n s (or_right (starts_with p (c ∷ s)) _ h)

rfind-last :
    (p s : Text) (i : ℕ)
    → starts_with p [] ≡ false
    → rfind p s ≡ some i
    → occurs p (drop (suc i) s) ≡ false
unfolding rfind
rfind-last p [] i filled h = absurd (let q = rw filled at h in cc)
rfind-last p (c ∷ s) i filled h = elim (Option-cases (rfind p s)) [
  | inr (j, e) ↦
      let next : suc j ≡ i = some-inj (rw e at h) in
      subst (λ k. occurs p (drop k s) ≡ false) next (rfind-last p s j filled e)
  | inl e ↦ elim (Bool-cases (starts_with p (c ∷ s))) [
    | inl here ↦
        let first : 0 ≡ i = some-inj (rw (e, here) at h) in
        subst (λ k. occurs p (drop k s) ≡ false) first (rfind-none p s e)
    | inr away ↦ absurd (let q = rw (e, away) at h in cc)
  ]
]

abbrev Before : Option ℕ → ℕ → Type 0
Before none i = Unit
Before (some k) i = k ≤ i

later-Before : (a b : Option ℕ) (i : ℕ) → Before (later a b) i → Before a i × Before b i
later-Before none b i h = (tt, h)
later-Before (some k) none i h = (h, tt)
later-Before (some k) (some j) i h = elim (Bool-cases (leb k j)) [
  | inl e ↦ let h' = rw e at h in (ground arith, h')
  | inr e ↦ let h' = rw e at h in (h', ground arith)
]

none_behind :
    (p rest : Text) (i : ℕ) (found : Option ℕ)
    → starts_with p [] ≡ false
    → rfind p rest ≡ found
    → Before found i
    → occurs p (drop (suc i) rest) ≡ false
none_behind p rest i none filled e b = occurs-drop p (suc i) rest (rfind-none p rest e)
none_behind p rest i (some k) filled e b =
    let there : suc k + (i - k) ≡ suc i = omega arith in
    subst (λ s. occurs p s ≡ false) (drop-drop (i - k) (suc k) rest ∙ ap (λ n. drop n rest) there)
      (occurs-drop p (i - k) (drop (suc k) rest) (rfind-last p rest k filled e))

-- Behind the last marker there is none.
pub last_marker-last :
    (rest : Text) (i : ℕ) → last_marker rest ≡ some i → has_marker (drop 1 (drop i rest)) ≡ false
unfolding last_marker
last_marker-last rest i h =
    let m = rfind manifests_marker rest in
    let b = rfind blobs_marker rest in
    let t = rfind tags_marker rest in
    let (mb, in_t) = later-Before (later m b) t i (subst (λ o. Before o i) (sym h) (omega arith)) in
    let (in_m, in_b) = later-Before m b i mb in
    let there : i + 1 ≡ suc i = omega arith in
    subst (λ s. has_marker s ≡ false) (sym (drop-drop 1 i rest ∙ ap (λ n. drop n rest) there))
      (rw
        (
          none_behind manifests_marker rest i m refl refl in_m,
          none_behind blobs_marker rest i b refl refl in_b,
          none_behind tags_marker rest i t refl refl in_t,
        )
        refl)

later-none : (a b : Option ℕ) → later a b ≡ none → (a ≡ none) × (b ≡ none)
later-none none b h = (refl, h)
later-none (some i) none h = cc
later-none (some i) (some j) h = elim (Bool-cases (leb i j)) [
  | inl e ↦ absurd (let q = rw e at h in cc)
  | inr e ↦ absurd (let q = rw e at h in cc)
]

pub last_marker-none : (rest : Text) → last_marker rest ≡ none → has_marker rest ≡ false
unfolding last_marker
last_marker-none rest h =
    let m = rfind manifests_marker rest in
    let b = rfind blobs_marker rest in
    let (mb, t) = later-none (later m b) (rfind tags_marker rest) h in
    let (in_m, in_b) = later-none m b mb in
    rw
      (
        rfind-none manifests_marker rest in_m,
        rfind-none blobs_marker rest in_b,
        rfind-none tags_marker rest t,
      )
      refl

later_cases : (a b : Option ℕ) {i : ℕ} → later a b ≡ some i → (a ≡ some i) ⊎ (b ≡ some i)
later_cases none b h = inr h
later_cases (some i) none h = inl h
later_cases (some i) (some j) h = ground arith

pub last_marker-is_marked :
    (rest : Text) (i : ℕ) → last_marker rest ≡ some i → is_marked (drop i rest) ≡ true
unfolding last_marker
last_marker-is_marked rest i h =
    let m = rfind manifests_marker rest in
    let b = rfind blobs_marker rest in
    elim (later_cases (later m b) (rfind tags_marker rest) h) [
      | inr t ↦ rw (rfind-starts_with tags_marker rest i t) (or_true _)
      | inl mb ↦ elim (later_cases m b mb) [
        | inl e ↦ rw (rfind-starts_with manifests_marker rest i e) refl
        | inr e ↦ rw (rfind-starts_with blobs_marker rest i e) (ground arith)
      ]
    ]
