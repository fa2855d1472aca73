-- ===== src/Route/Chosen.antt =====
-- The route that `choose_route` of src/registry.rs takes for a repository, and the default route.
use donkey.Base.{
  ok_or-some, Bool, true, Option, none, some, [], ◌∷◌, ◌++◌, ◌≡◌, ap, ◌∙◌, subst, inl, inr, ◌⊎◌, ok,
  Bool-cases, Option-cases, Text, codes, strip_prefix, strip_prefix_eq, ok_parts, ok-inj, some-inj,
  ok_or, All,
}
use donkey.Error.{internal}
use donkey.Route.{RegistryRoute}
use donkey.Route.Store.{Table, find_first, by_path_prefix, has_prefix}
use donkey.Route.Service.{default_route}
use donkey.Route.Names.{IsRoute}
use donkey.Route.Histories.{IsWellFormed, find_first-holds}
use donkey.Route.Paths.{first_segment, strip_route, choose_route, no_repository}

abbrev pub IsIn : RegistryRoute → Table → Type 0
IsIn r [] = ⊥
IsIn r (x ∷ table) = (x ≡ r) ⊎ IsIn r table

pub find_first-IsIn :
    (p : RegistryRoute → Bool) (table : Table) {r : RegistryRoute}
    → find_first p table ≡ some r
    → IsIn r table
unfolding find_first
find_first-IsIn p [] h = cc
find_first-IsIn p (x ∷ table) h = elim (Bool-cases (p x)) [
  | inl e ↦ inl (some-inj (rw e at h))
  | inr e ↦ inr (find_first-IsIn p table (rw e at h))
]

pub IsIn-IsRoute :
    (r : RegistryRoute) (table : Table) → All IsRoute table → IsIn r table → IsRoute r
IsIn-IsRoute r [] h m = absurd m
IsIn-IsRoute r (x ∷ table) (here, h) (inl e) = subst IsRoute e here
IsIn-IsRoute r (x ∷ table) (here, h) (inr m) = IsIn-IsRoute r table h m

-- The name that a client uses for a repository of a route.
abbrev pub client_name : Option Text → Text → Text
client_name none name = name
client_name (some prefix) name = prefix ++ (codes "/" ++ name)

strip_route_eq :
    (prefix repository name : Text)
    → strip_route prefix repository ≡ some name
    → repository ≡ prefix ++ (codes "/" ++ name)
strip_route_eq prefix repository name h = elim (Option-cases (strip_prefix prefix repository)) [
  | inl e ↦ absurd (let q = rw (e, strip_route) at h in cc)
  | inr (value, e) ↦
      let q = rw (e, strip_route) at h in
      strip_prefix_eq prefix repository value e
      ∙ ap (λ t. prefix ++ t) (strip_prefix_eq (codes "/") value name q)
]

pub default_route_inv :
    (table : Table) {r : RegistryRoute}
    → IsWellFormed table
    → default_route table ≡ ok r
    → IsIn r table × (r.is_default ≡ true) × (r.path_prefix ≡ none)
unfolding default_route
default_route_inv table {r} w h =
    elim (Option-cases (find_first (λ (x : RegistryRoute). x.is_default) table)) [
      | inl e ↦ absurd (let q = rw e at h in cc)
      | inr (x, e) ↦
          let q = rw e at h in
          let same : x ≡ r = ok-inj q in
          let found : find_first (λ (y : RegistryRoute). y.is_default) table ≡ some r =
            rw same at e in
          let inside = find_first-IsIn _ table found in
          let default = find_first-holds _ table found in
          let form = IsIn-IsRoute r table w.rows inside in
          (
            inside,
            default,
            elim (Option-cases r.path_prefix) [
              | inl none_there ↦ none_there
              | inr (p, some_there) ↦
                  absurd (let d = form.2 in let q2 = rw (default, some_there) at d in cc)
            ],
          )
    ]

abbrev pub Chosen : Table → Text → Text → RegistryRoute → Type 0
Chosen table repository name r = IsIn r table × (repository ≡ client_name r.path_prefix name)

default-Chosen :
    (table : Table) (repository name : Text) (x r : RegistryRoute)
    → IsWellFormed table
    → default_route table ≡ ok x
    → ◌≡◌ {A = Text × RegistryRoute} (repository, x) (name, r)
    → Chosen table repository name r
default-Chosen table repository name x r w found e =
    let same : x ≡ r = ap (λ p. p.1) e in
    let (inside, _, bare) =
      default_route_inv table w (subst (λ y. default_route table ≡ ok y) same found) in
    (inside, rw bare (ap (λ p. p.0) e))

prefixed-Chosen :
    (table : Table) (first repository value prefix name : Text) (x r : RegistryRoute)
    → find_first (has_prefix first) table ≡ some x
    → x.path_prefix ≡ some prefix
    → strip_route prefix repository ≡ some value
    → ◌≡◌ {A = Text × RegistryRoute} (value, x) (name, r)
    → Chosen table repository name r
prefixed-Chosen table first repository value prefix name x r found here stripped e =
    let same : x ≡ r = ap (λ p. p.1) e in
    let names : value ≡ name = ap (λ p. p.0) e in
    (
      subst (λ y. IsIn y table) same (find_first-IsIn (has_prefix first) table found),
      subst (λ (y : RegistryRoute). repository ≡ client_name y.path_prefix name) same
          (rw here (
            subst (λ n. repository ≡ client_name (some prefix) n) names
              (strip_route_eq prefix repository value stripped))),
    )

pub choose_route_inv :
    (table : Table) (repository : Text) {name : Text} {r : RegistryRoute}
    → IsWellFormed table
    → choose_route table repository ≡ ok (name, r)
    → Chosen table repository name r
unfolding choose_route by_path_prefix
choose_route_inv table repository {name} {r} w h =
    let first = first_segment repository in
    elim (Option-cases (find_first (has_prefix first) table)) [
      | inl e ↦
          let q = rw (e, by_path_prefix, choose_route) at h in
          let (x, (found, e')) = ok_parts _ (default_route table) q in
          default-Chosen table repository name x r w found (ok-inj e')
      | inr (x, e) ↦
          let q = rw (e, by_path_prefix, choose_route) at h in
          let (prefix, (here, q1)) = ok_parts _ (ok_or x.path_prefix internal) q in
          let (value, (stripped, e')) =
            ok_parts _ (ok_or (strip_route prefix repository) no_repository) q1 in
          prefixed-Chosen table first repository value prefix name x r e
            (ok_or-some x.path_prefix internal here)
            (ok_or-some (strip_route prefix repository) no_repository stripped) (ok-inj e')
    ]
