-- ===== src/Route/Examples.antt =====
-- Registry routes at concrete tables and paths.
use donkey.Base.{
  true, false, none, some, List, [], ◌∷◌, ◌≡◌, refl, ok, Text, codes, same_codes, trim,
  is_whitespace, len, strip_prefix, split, rfind,
}
use donkey.Route.{
  RegistryRouteInput, Parsers, normalize_identifier, is_identifier, parse_mode, mode_str,
  docker_hub_route_id, ghcr_route_id, docker_hub_route_key, ghcr_route_key, docker_hub_library,
}
use donkey.Route.Store.{Table, find_first, by_path_prefix}
use donkey.Route.Service.{
  docker_hub_route, ghcr_route, default_route, RouteStep, creates, deletes, seeds_ghcr, run_routes,
}
use donkey.Route.Histories.{IsWellFormed, docker_hub-IsRoute, ghcr-IsRoute, run_routes-IsWellFormed}
use donkey.Route.Builtin.{has_route, run_routes_builtin}
use donkey.Route.Paths.{
  Uri, ResolvedRegistryPath, last_marker, require_enabled_route, choose_route, resolve_repository,
  route_registry_path,
}
use donkey.Route.Resolved.{Serves, route_registry_path_lem}
use donkey.Route.Refusals.{route_registry_path_empty}

abbrev builtin_table : Table
builtin_table = docker_hub_route 0 ∷ ghcr_route 0 ∷ []

builtin_table-IsWellFormed : IsWellFormed builtin_table
unfolding same_codes
builtin_table-IsWellFormed = record {
  unique = (refl, (refl, tt));
  rows = (docker_hub-IsRoute 0, (ghcr-IsRoute 0, tt));
}

abbrev any_parsers : Parsers
any_parsers = record { authority = λ t. some (t, none); is_ipv4 = λ t. false; is_ipv6 = λ t. false }

abbrev quay_input : RegistryRouteInput
quay_input = record {
  key = codes " Quay ";
  name = codes "Quay";
  canonical_registry = codes "quay.io";
  path_prefix = some (codes "quay");
  repository_mode = codes "passthrough";
  is_default = false;
  enabled = true;
}

-- A route is created, its creation is repeated, and a built-in route is deleted in vain.
abbrev route_steps : List RouteStep
route_steps =
    creates quay_input 7 1 builtin_table
    ∷ creates quay_input 8 2 builtin_table
    ∷ deletes ghcr_route_id 0 0 builtin_table
    ∷ seeds_ghcr 3
    ∷ []

run_routes-IsWellFormed_example : IsWellFormed (run_routes any_parsers builtin_table route_steps)
run_routes-IsWellFormed_example =
    run_routes-IsWellFormed any_parsers route_steps builtin_table builtin_table-IsWellFormed

has_builtins :
    (has_route docker_hub_route_id docker_hub_route_key builtin_table ≡ true)
    × (has_route ghcr_route_id ghcr_route_key builtin_table ≡ true)
unfolding same_codes
has_builtins = (refl, refl)

run_routes_builtin_example :
    (has_route docker_hub_route_id docker_hub_route_key
        (run_routes any_parsers builtin_table route_steps)
      ≡ true)
    × (has_route ghcr_route_id ghcr_route_key (run_routes any_parsers builtin_table route_steps)
        ≡ true)
run_routes_builtin_example =
    run_routes_builtin any_parsers route_steps builtin_table has_builtins.0 has_builtins.1

quay_identifier : normalize_identifier (codes " Quay ") "key" ≡ ok (codes "quay")
unfolding normalize_identifier is_identifier trim is_whitespace len
quay_identifier = refl

abbrev uri_of : Text → Uri
uri_of path = record { path = path; query = some (codes "ns=a"); path_and_query = none }

abbrev ghcr_resolved : ResolvedRegistryPath
ghcr_resolved = record {
  upstream_path = codes "/v2/org/image/manifests/latest?ns=a";
  route = ghcr_route 0;
}

ghcr_request :
    route_registry_path builtin_table (uri_of (codes "/v2/ghcr/org/image/manifests/latest"))
    ≡ ok ghcr_resolved
unfolding route_registry_path resolve_repository choose_route by_path_prefix find_first
    require_enabled_route parse_mode mode_str strip_prefix split rfind last_marker same_codes
ghcr_request = refl

route_registry_path_lem_example :
    Serves builtin_table (uri_of (codes "/v2/ghcr/org/image/manifests/latest")) ghcr_resolved
route_registry_path_lem_example =
    route_registry_path_lem builtin_table (uri_of (codes "/v2/ghcr/org/image/manifests/latest"))
      builtin_table-IsWellFormed ghcr_request

marker_first : last_marker (codes "/manifests/latest") ≡ some 0
unfolding last_marker rfind
marker_first = refl

docker_hub_default : default_route builtin_table ≡ ok (docker_hub_route 0)
unfolding default_route find_first
docker_hub_default = refl

docker_hub_mode : parse_mode (docker_hub_route 0).repository_mode ≡ ok docker_hub_library
unfolding parse_mode mode_str same_codes
docker_hub_mode = refl

route_registry_path_empty_example :
    route_registry_path builtin_table (uri_of (codes "/v2//manifests/latest"))
    ≡ ok (record {
      upstream_path = codes "/v2/library//manifests/latest?ns=a";
      route = docker_hub_route 0;
    })
route_registry_path_empty_example =
    route_registry_path_empty builtin_table (uri_of (codes "/v2//manifests/latest"))
      (codes "/manifests/latest") (docker_hub_route 0) builtin_table-IsWellFormed refl marker_first
      docker_hub_default refl docker_hub_mode
