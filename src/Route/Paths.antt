-- ===== src/Route/Paths.antt =====
-- `route_registry_path` of src/registry.rs: the route and the upstream path of a request under
-- /v2/.

use donkey.Base.{
  ℕ, Option, none, some, [], ◌∷◌, ◌++◌, any, take, drop, leb, ◌==◌, if◌then◌else◌, ok, err,
  refuse_if, ok_or, ◌>>=◌, ◌>>◌, Text, codes, is_empty, strip_prefix, rfind, split,
}
use donkey.Error.{AppError, ApiResult, bad_request, unavailable, internal}
use donkey.Route.{RegistryRoute, RepositoryMode, docker_hub_library, passthrough, parse_mode}
use donkey.Route.Store.{Table, by_path_prefix}
use donkey.Route.Service.{default_route}

-- `http::Uri`, as far as it is read: `path_and_query` is absent from some forms.
pub record Uri : Type 0 where
  pub path : Text
  pub query : Option Text
  pub path_and_query : Option Text

pub record ResolvedRegistryPath : Type 0 where
  pub upstream_path : Text
  pub route : RegistryRoute

abbrev pub whole_path : Uri → Text
whole_path uri = elim uri.path_and_query [ none ↦ uri.path | some value ↦ value ]

-- The key of the route is left out of the message.
unfoldable pub require_enabled_route : RegistryRoute → ApiResult RegistryRoute
require_enabled_route route =
    if route.enabled then ok route else err (unavailable "Registry route is disabled")

-- `max_by_key` on the index: of two, the later one.
abbrev pub later : Option ℕ → Option ℕ → Option ℕ
later none b = b
later (some i) none = some i
later (some i) (some j) = if leb i j then some j else some i

abbrev pub manifests_marker : Text
manifests_marker = codes "/manifests/"

abbrev pub blobs_marker : Text
blobs_marker = codes "/blobs/"

abbrev pub tags_marker : Text
tags_marker = codes "/tags/"

unfoldable pub last_marker : Text → Option ℕ
last_marker rest =
    later (later (rfind manifests_marker rest) (rfind blobs_marker rest)) (rfind tags_marker rest)

-- `split('/').next()`
abbrev pub first_segment : Text → Text
first_segment repository = elim (split 47 repository) [ [] ↦ [] | part ∷ parts ↦ part ]

-- Without the prefix and the slash behind it.
abbrev pub strip_route : Text → Text → Option Text
strip_route prefix repository = elim (strip_prefix prefix repository) [
  | none ↦ none
  | some value ↦ strip_prefix (codes "/") value
]

abbrev pub no_repository : AppError
no_repository = bad_request "Registry route has no repository"

-- The route of a repository, and the name that its registry knows it by.
unfoldable pub choose_route : Table → Text → ApiResult (Text × RegistryRoute)
choose_route table repository = elim (by_path_prefix (first_segment repository) table) [
  | some route ↦ do
    prefix ← ok_or route.path_prefix internal
    name ← ok_or (strip_route prefix repository) no_repository
    ok (name, route)
  | none ↦ do route ← default_route table; ok (repository, route)
]

-- Docker Hub's official images have no namespace of their own.
abbrev pub namespaced : RepositoryMode → Text → Text
namespaced docker_hub_library repository =
    if any (λ c. c == 47) repository then repository else codes "library/" ++ repository
namespaced passthrough repository = repository

abbrev pub query_part : Option Text → Text
query_part none = []
query_part (some query) = codes "?" ++ query

-- A path with a marker, which stands at `index` of what follows /v2/.
unfoldable pub resolve_repository : Table → Option Text → Text → ℕ → ApiResult ResolvedRegistryPath
resolve_repository table query rest index = do
  (chosen, found) ← choose_route table (take index rest)
  route ← require_enabled_route found
  mode ← parse_mode route.repository_mode
  let repository = namespaced mode chosen
  refuse_if (is_empty repository) (bad_request "Registry repository is empty")
  ok (record {
    upstream_path = codes "/v2/" ++ (repository ++ (drop index rest ++ query_part query));
    route = route;
  })

unfoldable pub resolve_default : Table → Uri → ApiResult ResolvedRegistryPath
resolve_default table uri = do
  found ← default_route table
  route ← require_enabled_route found
  ok (record { upstream_path = whole_path uri; route = route })

unfoldable pub route_registry_path : Table → Uri → ApiResult ResolvedRegistryPath
route_registry_path table uri = elim (strip_prefix (codes "/v2/") uri.path) [
  | none ↦ resolve_default table uri
  | some rest ↦ elim (last_marker rest) [
    | none ↦ resolve_default table uri
    | some index ↦ resolve_repository table uri.query rest index
  ]
]
