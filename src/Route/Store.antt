-- ===== src/Route/Store.antt =====
-- The table `registry_routes` of src/db.rs: its unique indexes, and the queries and writes that
-- src/registry_routes.rs makes.
use donkey.Base.{
  ℕ, Bool, false, not, ◌&&◌, ◌||◌, Option, none, some, List, [], ◌∷◌, any, keep, snoc, ◌==◌,
  if◌then◌else◌, ok, err, Text, same_codes,
}
use donkey.Error.{AppError, ApiResult, conflict, database, not_found}
use donkey.Route.{RegistryRoute, NormalizedRouteInput, mode_str}

abbrev pub Table : Type 0
Table = List RegistryRoute

-- Equal and present: NULLs do not collide in a unique index.
abbrev pub same_prefix : Option Text → Option Text → Bool
same_prefix (some p) (some q) = same_codes p q
same_prefix _ _ = false

-- The unique indexes on the key, on the path prefix and on the default.
abbrev pub collides : RegistryRoute → RegistryRoute → Bool
collides a b =
    same_codes a.key b.key
    || same_prefix a.path_prefix b.path_prefix
    || (a.is_default && b.is_default)

abbrev pub configuration_conflict : AppError
configuration_conflict = conflict "Registry route conflicts with existing configuration"

abbrev pub in_use_conflict : AppError
in_use_conflict = conflict "Registry route is in use by one or more nodes"

unfoldable pub find_first : (RegistryRoute → Bool) → Table → Option RegistryRoute
find_first p [] = none
find_first p (r ∷ table) = if p r then some r else find_first p table

abbrev pub has_id : ℕ → RegistryRoute → Bool
has_id id r = r.id == id

abbrev pub has_prefix : Text → RegistryRoute → Bool
has_prefix prefix r = same_prefix r.path_prefix (some prefix)

unfoldable pub by_path_prefix : Text → Table → Option RegistryRoute
by_path_prefix prefix = find_first (has_prefix prefix)

unfoldable pub insert_route : RegistryRoute → Table → ApiResult Table
insert_route new table =
    if any (λ r. r.id == new.id || collides r new) table
    then err configuration_conflict
    else ok (snoc table new)

-- The columns that `update` sets.
abbrev pub assign : NormalizedRouteInput → ℕ → RegistryRoute → RegistryRoute
assign input now r = record r {
  key = input.key;
  name = input.name;
  canonical_registry = input.canonical_registry;
  path_prefix = input.path_prefix;
  repository_mode = mode_str input.repository_mode;
  is_default = input.is_default;
  enabled = input.enabled;
  updated_at = now;
}

unfoldable pub assign_where : ℕ → NormalizedRouteInput → ℕ → Table → Table
assign_where id input now [] = []
assign_where id input now (r ∷ table) =
    (if r.id == id then assign input now r else r) ∷ assign_where id input now table

-- `UPDATE … WHERE id`: an update of no row is an error of the database.
unfoldable pub update_route : ℕ → NormalizedRouteInput → ℕ → RegistryRoute → Table → ApiResult Table
update_route id input now new table =
    if not (any (has_id id) table)
    then err database
    else if any (λ r. not (r.id == id) && collides r new) table
    then err configuration_conflict
    else ok (assign_where id input now table)

-- `DELETE … WHERE id`, which the foreign key of the nodes may refuse.
unfoldable pub delete_route : ℕ → ℕ → Table → ApiResult Table
delete_route id referencing table =
    if not (referencing == 0) && any (has_id id) table
    then err in_use_conflict
    else if not (any (has_id id) table)
    then err (not_found "Registry route")
    else ok (keep (λ r. not (r.id == id)) table)
