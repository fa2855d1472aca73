-- ===== src/Route/Service.antt =====
-- `RegistryRouteService` of src/registry_routes.rs, and the histories of its calls.
--
-- Each call reads the table before it writes. Between the two other calls may come, so that what
-- was `seen` may be older than the table that is written.
use donkey.Base.{
  ℕ, Bool, true, false, not, ◌&&◌, ◌||◌, Option, none, some, List, [], ◌∷◌, any, codes, same_codes,
  Text, ◌==◌, if◌then◌else◌, ok, err, refuse_if, ok_or, ◌>>=◌, ◌>>◌,
}
use donkey.Error.{ApiResult, bad_request, conflict, not_found, unavailable}
use donkey.Route.{
  RegistryRoute, RegistryRouteInput, NormalizedRouteInput, Parsers, normalize_input, mode_str,
  docker_hub_library, passthrough, docker_hub_route_id, ghcr_route_id, docker_hub_route_key,
  ghcr_route_key,
}
use donkey.Route.Store.{
  Table, find_first, has_id, has_prefix, insert_route, update_route, delete_route, in_use_conflict,
  assign,
}

unfoldable pub get : ℕ → Table → ApiResult RegistryRoute
get id table = ok_or (find_first (has_id id) table) (not_found "Registry route")

unfoldable pub default_route : Table → ApiResult RegistryRoute
default_route table =
    ok_or (find_first (λ r. r.is_default) table)
      (unavailable "default Registry route is not configured")

-- `Id.ne(id)`, where a row is excluded.
abbrev pub is_other : Option ℕ → RegistryRoute → Bool
is_other none r = true
is_other (some id) r = not (r.id == id)

abbrev pub takes_prefix : Option Text → RegistryRoute → Bool
takes_prefix none r = false
takes_prefix (some prefix) r = has_prefix prefix r

unfoldable pub reject_conflicts : NormalizedRouteInput → Option ℕ → Table → ApiResult (Unit {0})
reject_conflicts input excluding table = do
  refuse_if (any (λ r. same_codes r.key input.key && is_other excluding r) table)
      (conflict "Registry route key already exists")
  refuse_if (any (λ r. takes_prefix input.path_prefix r && is_other excluding r) table)
      (conflict "Registry route path prefix already exists")
  refuse_if (input.is_default && any (λ r. r.is_default && is_other excluding r) table)
      (conflict "a default Registry route already exists")
  ok tt

abbrev pub new_route : NormalizedRouteInput → ℕ → ℕ → RegistryRoute
new_route input id now = record {
  id = id;
  key = input.key;
  name = input.name;
  canonical_registry = input.canonical_registry;
  path_prefix = input.path_prefix;
  repository_mode = mode_str input.repository_mode;
  is_default = input.is_default;
  enabled = input.enabled;
  created_at = now;
  updated_at = now;
}

-- A built-in route must keep its key.
abbrev pub renames_builtin : ℕ → Text → Bool
renames_builtin id key =
    (id == docker_hub_route_id && not (same_codes key docker_hub_route_key))
    || (id == ghcr_route_id && not (same_codes key ghcr_route_key))

abbrev pub is_builtin : ℕ → Bool
is_builtin id = id == docker_hub_route_id || id == ghcr_route_id

module _ (parsers : Parsers) where
  unfoldable pub create : RegistryRouteInput → ℕ → ℕ → Table → Table → ApiResult Table
  create raw id now seen table = do
    input ← normalize_input parsers raw
    reject_conflicts input none seen
    insert_route (new_route input id now) table

  unfoldable pub update : ℕ → RegistryRouteInput → ℕ → Table → Table → ApiResult Table
  update id raw now seen table = do
    input ← normalize_input parsers raw
    route ← get id seen
    refuse_if (renames_builtin id input.key)
        (bad_request "built-in Registry route keys cannot be changed")
    reject_conflicts input (some id) seen
    update_route id input now (assign input now route) table

unfoldable pub delete : ℕ → ℕ → ℕ → Table → Table → ApiResult Table
delete id counted referencing seen table = do
  route ← get id seen
  refuse_if (is_builtin id) (bad_request "built-in Registry routes may be disabled but not deleted")
  refuse_if (not (counted == 0)) in_use_conflict
  delete_route route.id referencing table

abbrev pub docker_hub_route : ℕ → RegistryRoute
docker_hub_route now = record {
  id = docker_hub_route_id;
  key = docker_hub_route_key;
  name = codes "Docker Hub";
  canonical_registry = codes "docker.io";
  path_prefix = none;
  repository_mode = mode_str docker_hub_library;
  is_default = true;
  enabled = true;
  created_at = now;
  updated_at = now;
}

abbrev pub ghcr_route : ℕ → RegistryRoute
ghcr_route now = record {
  id = ghcr_route_id;
  key = ghcr_route_key;
  name = codes "GitHub Container Registry";
  canonical_registry = codes "ghcr.io";
  path_prefix = some (codes "ghcr");
  repository_mode = mode_str passthrough;
  is_default = false;
  enabled = true;
  created_at = now;
  updated_at = now;
}

unfoldable pub seed_builtin : RegistryRoute → Table → ApiResult Table
seed_builtin route table =
    if any (λ r. same_codes r.key route.key) table then ok table else insert_route route table

-- One call: what it was given, and the table that it read. `seed_builtins`, at every start, is the
-- two steps that seed the built-in routes.
pub data RouteStep : Type 0 where
  creates : RegistryRouteInput → ℕ → ℕ → Table → RouteStep
  updates : ℕ → RegistryRouteInput → ℕ → Table → RouteStep
  deletes : ℕ → ℕ → ℕ → Table → RouteStep
  seeds_docker_hub seeds_ghcr : ℕ → RouteStep

-- A call that fails leaves the table as it was.
abbrev pub or_unchanged : Table → ApiResult Table → Table
or_unchanged table (ok after) = after
or_unchanged table (err error) = table

unfoldable pub apply : Parsers → Table → RouteStep → ApiResult Table
apply parsers table (creates input id now seen) = create parsers input id now seen table
apply parsers table (updates id input now seen) = update parsers id input now seen table
apply parsers table (deletes id counted referencing seen) = delete id counted referencing seen table
apply parsers table (seeds_docker_hub now) = seed_builtin (docker_hub_route now) table
apply parsers table (seeds_ghcr now) = seed_builtin (ghcr_route now) table

unfoldable pub run_routes : Parsers → Table → List RouteStep → Table
run_routes parsers table [] = table
run_routes parsers table (step ∷ steps) =
    run_routes parsers (or_unchanged table (apply parsers table step)) steps
