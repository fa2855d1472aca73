-- ===== src/Route/Resolved.antt =====
-- What `route_registry_path` of src/registry.rs makes of a request's path.
use donkey.Base.{
  strip_prefix-append, some-inj, false, [], Option, any, ◌==◌, Bool-cases, passed_then, ℕ, true,
  none, some, ◌++◌, take, drop, ◌≡◌, refl, sym, ap, ◌∙◌, subst, inl, inr, ◌⊎◌, ok, Option-cases,
  Text, codes, is_empty, strip_prefix, strip_prefix_eq, ok_parts, ok-inj, passed_guard,
  take-append-drop,
}
use donkey.Error.{bad_request, unavailable}
use donkey.Route.{RegistryRoute, RepositoryMode, docker_hub_library, passthrough, parse_mode}
use donkey.Route.Store.{Table}
use donkey.Route.Service.{default_route}
use donkey.Route.Histories.{IsWellFormed}
use donkey.Route.Paths.{
  Uri, ResolvedRegistryPath, whole_path, require_enabled_route, last_marker, choose_route,
  namespaced, query_part, resolve_repository, resolve_default, route_registry_path,
}
use donkey.Route.Markers.{
  is_marked, has_marker, last_marker-is_marked, last_marker-last, last_marker-none,
}
use donkey.Route.Chosen.{IsIn, client_name, default_route_inv, choose_route_inv}

-- The registry's own name for a repository: in the mode of Docker Hub, a name without a namespace
-- gets library/.
abbrev pub IsOwnName : RepositoryMode → Text → Text → Type 0
IsOwnName docker_hub_library name own =
    ((any (λ c. c == 47) name ≡ true) × (own ≡ name))
    ⊎ ((any (λ c. c == 47) name ≡ false) × (own ≡ codes "library/" ++ name))
IsOwnName passthrough name own = own ≡ name

namespaced-IsOwnName :
    (mode : RepositoryMode) (name : Text) → IsOwnName mode name (namespaced mode name)
namespaced-IsOwnName docker_hub_library name = elim (Bool-cases (any (λ c. c == 47) name)) [
  | inl e ↦ inl (e, rw e refl)
  | inr e ↦ inr (e, rw e refl)
]
namespaced-IsOwnName passthrough name = refl

abbrev pub IsQuery : Option Text → Text → Type 0
IsQuery none tail = tail ≡ []
IsQuery (some query) tail = tail ≡ codes "?" ++ query

query_part-IsQuery : (query : Option Text) → IsQuery query (query_part query)
query_part-IsQuery none = refl
query_part-IsQuery (some query) = refl

-- A request's path and its parts: a route's repository, as the client names it, and what follows
-- from the last marker on: a marker stands at its start, and none behind it. The upstream path has
-- the registry's own name for it, and the query.
pub record Rewrites (uri : Uri) (r : ResolvedRegistryPath) : Type 0 where
  pub name : Text
  pub suffix : Text
  pub mode : RepositoryMode
  pub marked : is_marked suffix ≡ true
  pub last : has_marker (drop 1 suffix) ≡ false
  pub known : parse_mode r.route.repository_mode ≡ ok mode
  pub asked : uri.path ≡ codes "/v2/" ++ (client_name r.route.path_prefix name ++ suffix)
  pub own : Text
  pub tail : Text
  pub named : IsOwnName mode name own
  pub queried : IsQuery uri.query tail
  pub sent : r.upstream_path ≡ codes "/v2/" ++ (own ++ (suffix ++ tail))

-- A path that is not below /v2/, or has no marker there.
abbrev pub IsPlain : Uri → Type 0
IsPlain uri = (rest : Text) → uri.path ≡ codes "/v2/" ++ rest → has_marker rest ≡ false

abbrev pub Passes : Uri → ResolvedRegistryPath → Type 0
Passes uri r = IsPlain uri × (r.route.is_default ≡ true) × (r.upstream_path ≡ whole_path uri)

enabled_inv :
    (found : RegistryRoute) {r : RegistryRoute}
    → require_enabled_route found ≡ ok r
    → (found ≡ r) × (r.enabled ≡ true)
unfolding require_enabled_route
enabled_inv found {r} h =
    let (on, e) =
      passed_then found.enabled (unavailable "Registry route is disabled") (ok found) h in
    let same : found ≡ r = ok-inj e in
    (same, subst (λ (x : RegistryRoute). x.enabled ≡ true) same on)

abbrev pub Serves : Table → Uri → ResolvedRegistryPath → Type 0
Serves table uri r = IsIn r.route table × (r.route.enabled ≡ true) × (Rewrites uri r ⊎ Passes uri r)

resolve_default_inv :
    (table : Table) (uri : Uri) {r : ResolvedRegistryPath}
    → IsWellFormed table
    → IsPlain uri
    → resolve_default table uri ≡ ok r
    → Serves table uri r
unfolding resolve_default
resolve_default_inv table uri {r} w plain h =
    let (found, (default, h1)) = ok_parts _ (default_route table) h in
    let (route, (able, e)) = ok_parts _ (require_enabled_route found) h1 in
    let (same, enabled) = enabled_inv found able in
    let (inside, is_def, _) =
      default_route_inv table w (subst (λ y. default_route table ≡ ok y) same default) in
    subst (Serves table uri) (ok-inj e) (inside, enabled, inr (plain, is_def, refl))

resolve_repository_inv :
    (table : Table) (uri : Uri) (rest : Text) (index : ℕ) {r : ResolvedRegistryPath}
    → IsWellFormed table
    → uri.path ≡ codes "/v2/" ++ rest
    → last_marker rest ≡ some index
    → resolve_repository table uri.query rest index ≡ ok r
    → Serves table uri r
unfolding resolve_repository
resolve_repository_inv table uri rest index {r} w path marker h =
    let ((name, found), (chosen, h1)) = ok_parts _ (choose_route table (take index rest)) h in
    let (route, (able, h2)) = ok_parts _ (require_enabled_route found) h1 in
    let (mode, (known, h3)) = ok_parts _ (parse_mode route.repository_mode) h2 in
    let (_, e) =
      passed_guard (is_empty (namespaced mode name)) (bad_request "Registry repository is empty") _
        h3 in
    let (same, enabled) = enabled_inv found able in
    let (inside, cut) =
      choose_route_inv table (take index rest) w
        (subst (λ y. choose_route table (take index rest) ≡ ok (name, y)) same chosen) in
    let asked : uri.path ≡ codes "/v2/" ++ (client_name route.path_prefix name ++ drop index rest) =
      path
      ∙ ap (λ t. codes "/v2/" ++ t)
          (sym (take-append-drop index rest) ∙ ap (λ t. t ++ drop index rest) cut) in
    subst (Serves table uri) (ok-inj e) (
      inside,
      enabled,
      inl (record {
        name = name;
        suffix = drop index rest;
        mode = mode;
        marked = last_marker-is_marked rest index marker;
        last = last_marker-last rest index marker;
        known = known;
        asked = asked;
        own = namespaced mode name;
        tail = query_part uri.query;
        named = namespaced-IsOwnName mode name;
        queried = query_part-IsQuery uri.query;
        sent = refl;
      }),
    )

outside : (uri : Uri) → strip_prefix (codes "/v2/") uri.path ≡ none → IsPlain uri
outside uri e rest path =
    let found : strip_prefix (codes "/v2/") uri.path ≡ some rest =
      ap (strip_prefix (codes "/v2/")) path ∙ strip_prefix-append (codes "/v2/") rest in
    cc

unmarked :
    (uri : Uri) (rest : Text)
    → strip_prefix (codes "/v2/") uri.path ≡ some rest
    → last_marker rest ≡ none
    → IsPlain uri
unmarked uri rest e bare other path =
    let found : strip_prefix (codes "/v2/") uri.path ≡ some other =
      ap (strip_prefix (codes "/v2/")) path ∙ strip_prefix-append (codes "/v2/") other in
    let same : rest ≡ other = some-inj (sym e ∙ found) in
    subst (λ t. has_marker t ≡ false) same (last_marker-none rest bare)

-- On a table in order, a request that is resolved goes to an enabled route of the table, with just
-- the repository that the client named: its name without the route's prefix (with the namespace
-- library/ for an official image of Docker Hub), and then, unchanged, all from the last marker
-- /manifests/, /blobs/ or /tags/ on, and the query; or the path has no marker below /v2/, and it
-- goes to the default route as it is.
pub route_registry_path_lem :
    (table : Table) (uri : Uri) {r : ResolvedRegistryPath}
    → IsWellFormed table
    → route_registry_path table uri ≡ ok r
    → Serves table uri r
unfolding route_registry_path
route_registry_path_lem table uri w h = elim (Option-cases (strip_prefix (codes "/v2/") uri.path)) [
  | inl e ↦ resolve_default_inv table uri w (outside uri e) (rw (e, route_registry_path) at h)
  | inr (rest, e) ↦ elim (Option-cases (last_marker rest)) [
    | inl bare ↦
        resolve_default_inv table uri w (unmarked uri rest e bare)
          (rw (e, bare, route_registry_path) at h)
    | inr (index, marker) ↦
        resolve_repository_inv table uri rest index w
          (strip_prefix_eq (codes "/v2/") uri.path rest e) marker
          (rw (e, marker, route_registry_path) at h)
  ]
]
