-- ===== src/Route/Refusals.antt =====
-- What `route_registry_path` of src/registry.rs refuses, and what it does not.
use donkey.Base.{
  split, true, Option, none, some, [], ◌∷◌, ◌++◌, if◌then◌else◌, ◌≡◌, refl, inl, inr, ok, err,
  Option-cases, Text, codes, strip_prefix-append, same_codes, ap, All,
}
use donkey.Error.{unavailable}
use donkey.Route.{RegistryRoute, parse_mode, docker_hub_library, is_identifier}
use donkey.Route.Store.{Table, find_first, by_path_prefix, has_prefix}
use donkey.Route.Service.{default_route}
use donkey.Route.Names.{IsRoute}
use donkey.Route.Histories.{IsWellFormed}
use donkey.Route.Paths.{
  Uri, last_marker, query_part, require_enabled_route, choose_route, resolve_repository,
  route_registry_path,
}

-- No route has the empty prefix.
empty_prefix : (table : Table) → All IsRoute table → find_first (has_prefix []) table ≡ none
unfolding find_first same_codes is_identifier
empty_prefix [] h = refl
empty_prefix (r ∷ table) ((key, prefix, agrees, mode), h) = elim (Option-cases r.path_prefix) [
  | inl e ↦ rw e (empty_prefix table h)
  | inr ([], e) ↦ absurd (let q = rw e at prefix in cc)
  | inr (c ∷ p, e) ↦ rw e (empty_prefix table h)
]

enabled_ok : (route : RegistryRoute) → route.enabled ≡ true → require_enabled_route route ≡ ok route
unfolding require_enabled_route
enabled_ok route e =
    ap (λ b. if b then ok route else err (unavailable "Registry route is disabled")) e

chosen_empty :
    (table : Table) (route : RegistryRoute)
    → All IsRoute table
    → default_route table ≡ ok route
    → choose_route table [] ≡ ok ([], route)
unfolding choose_route by_path_prefix split
chosen_empty table route rows default =
    rw (empty_prefix table rows, choose_route, by_path_prefix) (rw default refl)

resolved_empty :
    (table : Table) (query : Option Text) (rest : Text) (route : RegistryRoute)
    → All IsRoute table
    → default_route table ≡ ok route
    → route.enabled ≡ true
    → parse_mode route.repository_mode ≡ ok docker_hub_library
    → resolve_repository table query rest 0
      ≡ ok (record {
        upstream_path = codes "/v2/library/" ++ (rest ++ query_part query);
        route = route;
      })
unfolding resolve_repository
resolved_empty table query rest route rows default enabled mode =
    let able : require_enabled_route route ≡ ok route = enabled_ok route enabled in
    rw (chosen_empty table route rows default, resolve_repository) (rw able (rw mode refl))

-- The emptiness of a repository is tested too late: where the default route is one of Docker Hub,
-- a path with no repository at all, such as /v2//manifests/latest, is not refused but sent on, to a
-- repository library/ without a name.
pub route_registry_path_empty :
    (table : Table) (uri : Uri) (rest : Text) (route : RegistryRoute)
    → IsWellFormed table
    → uri.path ≡ codes "/v2/" ++ rest
    → last_marker rest ≡ some 0
    → default_route table ≡ ok route
    → route.enabled ≡ true
    → parse_mode route.repository_mode ≡ ok docker_hub_library
    → route_registry_path table uri
      ≡ ok (record {
        upstream_path = codes "/v2/library/" ++ (rest ++ query_part uri.query);
        route = route;
      })
unfolding route_registry_path
route_registry_path_empty table uri rest route w path marker default enabled mode =
    rw (path, strip_prefix-append (codes "/v2/") rest, route_registry_path)
      (rw (marker, route_registry_path)
        (resolved_empty table uri.query rest route w.rows default enabled mode))
