-- ===== src/Route/Histories.antt =====
-- Histories of calls of `RegistryRouteService` in src/registry_routes.rs keep the table in order.
use donkey.Base.{
  some-inj, Option-cases, ==_iff, Result-cases, len, ℕ, Bool, true, false, not, ◌&&◌, ◌||◌, none,
  some, List, [], ◌∷◌, any, ◌==◌, ◌≡◌, refl, inl, inr, ok, Bool-cases, All, All-keep, All-snoc,
  ok_parts, ok-inj, passed_guard, passed_if, subst, same_codes,
}
use donkey.Error.{database, bad_request, not_found}
use donkey.Route.{
  RegistryRoute, NormalizedRouteInput, RegistryRouteInput, Parsers, normalize_input, is_identifier,
  mode_str, docker_hub_library, passthrough,
}
use donkey.Route.Store.{
  find_first, Table, collides, has_id, assign, assign_where, insert_route, update_route,
  delete_route, configuration_conflict, in_use_conflict,
}
use donkey.Route.Service.{
  get, reject_conflicts, new_route, renames_builtin, is_builtin, create, update, delete,
  docker_hub_route, ghcr_route, seed_builtin, RouteStep, creates, updates, deletes,
  seeds_docker_hub, seeds_ghcr, apply, run_routes,
}
use donkey.Route.Unique.{Unique, insert_route-Unique, update_route-Unique, delete_route-Unique}
use donkey.Route.Names.{IsRoute, IsNormalized, normalize_input-IsNormalized, parse_mode-mode_str}

-- No two rows have an id, a key or a prefix in common, at most one is the default, and each row has
-- its form.
pub record IsWellFormed (table : Table) : Type 0 where
  pub unique : Unique table
  pub rows : All IsRoute table

new_route-IsRoute :
    (input : NormalizedRouteInput) (id now : ℕ)
    → IsNormalized input
    → IsRoute (new_route input id now)
new_route-IsRoute input id now (key, prefix, agrees) =
    (key, prefix, agrees, (input.repository_mode, parse_mode-mode_str input.repository_mode))

assign_where-rows :
    (id : ℕ) (input : NormalizedRouteInput) (now : ℕ) (table : Table)
    → IsNormalized input
    → All IsRoute table
    → All IsRoute (assign_where id input now table)
unfolding assign_where
assign_where-rows id input now [] n h = tt
assign_where-rows id input now (r ∷ table) (key, prefix, agrees) (here, h) =
    let rest = assign_where-rows id input now table (key, prefix, agrees) h in
    elim (Bool-cases (r.id == id)) [
      | inl e ↦ rw e (
        (key, prefix, agrees, (input.repository_mode, parse_mode-mode_str input.repository_mode)),
        rest,
      )
      | inr e ↦ rw e (here, rest)
    ]

insert_route-IsWellFormed :
    (new : RegistryRoute) (table after : Table)
    → IsRoute new
    → IsWellFormed table
    → insert_route new table ≡ ok after
    → IsWellFormed after
unfolding insert_route
insert_route-IsWellFormed new table after n w h =
    let (free, e) =
      passed_if (any (λ r. r.id == new.id || collides r new) table) configuration_conflict _ h in
    record {
      unique = insert_route-Unique new table after w.unique h;
      rows = subst (All IsRoute) (ok-inj e) (All-snoc IsRoute table new n w.rows);
    }

-- What a successful call wrote.
pub create_inv :
    (parsers : Parsers) (raw : RegistryRouteInput) (id now : ℕ) (seen table after : Table)
    → create parsers raw id now seen table ≡ ok after
    → (input : NormalizedRouteInput) × (IsNormalized input
        × (insert_route (new_route input id now) table ≡ ok after))
unfolding create
create_inv parsers raw id now seen table after h =
    let (input, (normal, h1)) = ok_parts _ (normalize_input parsers raw) h in
    let (_, (_, h2)) = ok_parts _ (reject_conflicts input none seen) h1 in
    (input, (normalize_input-IsNormalized parsers raw normal, h2))

pub update_inv :
    (parsers : Parsers) (id : ℕ) (raw : RegistryRouteInput) (now : ℕ) (seen table after : Table)
    → update parsers id raw now seen table ≡ ok after
    → (input : NormalizedRouteInput) × ((route : RegistryRoute) × (IsNormalized input
          × ((renames_builtin id input.key ≡ false)
              × (update_route id input now (assign input now route) table ≡ ok after))))
unfolding update
update_inv parsers id raw now seen table after h =
    let (input, (normal, h1)) = ok_parts _ (normalize_input parsers raw) h in
    let (route, (_, h2)) = ok_parts _ (get id seen) h1 in
    let (kept, h3) =
      passed_guard (renames_builtin id input.key)
        (bad_request "built-in Registry route keys cannot be changed") _ h2 in
    let (_, (_, h4)) = ok_parts _ (reject_conflicts input (some id) seen) h3 in
    (input, (route, (normalize_input-IsNormalized parsers raw normal, (kept, h4))))

pub find_first-holds :
    (p : RegistryRoute → Bool) (table : Table) {r : RegistryRoute}
    → find_first p table ≡ some r
    → p r ≡ true
unfolding find_first
find_first-holds p [] h = cc
find_first-holds p (x ∷ table) {r} h = elim (Bool-cases (p x)) [
  | inl e ↦ let same : x ≡ r = some-inj (rw e at h) in subst (λ y. p y ≡ true) same e
  | inr e ↦ find_first-holds p table (rw e at h)
]

get_id : (id : ℕ) (table : Table) {r : RegistryRoute} → get id table ≡ ok r → r.id ≡ id
unfolding get
get_id id table {r} h = elim (Option-cases (find_first (has_id id) table)) [
  | inl e ↦ absurd (let q = rw e at h in cc)
  | inr (x, e) ↦
      let q = rw e at h in
      let same : x ≡ r = ok-inj q in
      subst (λ (y : RegistryRoute). y.id ≡ id) same
        ((==_iff x.id id).0 (find_first-holds (has_id id) table e))
]

pub delete_inv :
    (id counted referencing : ℕ) (seen table after : Table)
    → delete id counted referencing seen table ≡ ok after
    → (is_builtin id ≡ false) × (delete_route id referencing table ≡ ok after)
unfolding delete
delete_inv id counted referencing seen table after h =
    let (route, (found, h1)) = ok_parts _ (get id seen) h in
    let (custom, h2) =
      passed_guard (is_builtin id)
        (bad_request "built-in Registry routes may be disabled but not deleted") _ h1 in
    let (_, h3) = passed_guard (not (counted == 0)) in_use_conflict _ h2 in
    (custom, subst (λ k. delete_route k referencing table ≡ ok after) (get_id id seen found) h3)

create-IsWellFormed :
    (parsers : Parsers) (raw : RegistryRouteInput) (id now : ℕ) (seen table after : Table)
    → IsWellFormed table
    → create parsers raw id now seen table ≡ ok after
    → IsWellFormed after
create-IsWellFormed parsers raw id now seen table after w h =
    let (input, (normal, written)) = create_inv parsers raw id now seen table after h in
    insert_route-IsWellFormed (new_route input id now) table after
      (new_route-IsRoute input id now normal) w written

update-IsWellFormed :
    (parsers : Parsers) (id : ℕ) (raw : RegistryRouteInput) (now : ℕ) (seen table after : Table)
    → IsWellFormed table
    → update parsers id raw now seen table ≡ ok after
    → IsWellFormed after
unfolding update_route
update-IsWellFormed parsers id raw now seen table after w h =
    let (input, (route, (normal, (_, written)))) =
      update_inv parsers id raw now seen table after h in
    let (_, h1) = passed_if (not (any (has_id id) table)) database _ written in
    let (_, e) =
      passed_if (any (λ r. not (r.id == id) && collides r (assign input now route)) table)
        configuration_conflict _ h1 in
    record {
      unique = update_route-Unique id input now route table after w.unique written;
      rows = subst (All IsRoute) (ok-inj e) (assign_where-rows id input now table normal w.rows);
    }

delete-IsWellFormed :
    (id counted referencing : ℕ) (seen table after : Table)
    → IsWellFormed table
    → delete id counted referencing seen table ≡ ok after
    → IsWellFormed after
unfolding delete_route
delete-IsWellFormed id counted referencing seen table after w h =
    let (_, written) = delete_inv id counted referencing seen table after h in
    let present = any (has_id id) table in
    let (_, h1) = passed_if (not (referencing == 0) && present) in_use_conflict _ written in
    let (_, e) = passed_if (not present) (not_found "Registry route") _ h1 in
    record {
      unique = delete_route-Unique id referencing table after w.unique written;
      rows = subst (All IsRoute) (ok-inj e) (All-keep IsRoute (λ r. not (r.id == id)) table w.rows);
    }

seed_builtin-IsWellFormed :
    (new : RegistryRoute) (table after : Table)
    → IsRoute new
    → IsWellFormed table
    → seed_builtin new table ≡ ok after
    → IsWellFormed after
unfolding seed_builtin
seed_builtin-IsWellFormed new table after n w h =
    elim (Bool-cases (any (λ r. same_codes r.key new.key) table)) [
      | inl e ↦ let q = rw e at h in subst IsWellFormed (ok-inj q) w
      | inr e ↦ insert_route-IsWellFormed new table after n w (rw e at h)
    ]

pub docker_hub-IsRoute : (now : ℕ) → IsRoute (docker_hub_route now)
unfolding is_identifier len mode_str
docker_hub-IsRoute now =
    (refl, refl, refl, (docker_hub_library, parse_mode-mode_str docker_hub_library))

pub ghcr-IsRoute : (now : ℕ) → IsRoute (ghcr_route now)
unfolding is_identifier len mode_str
ghcr-IsRoute now = (refl, refl, refl, (passthrough, parse_mode-mode_str passthrough))

pub apply-IsWellFormed :
    (parsers : Parsers) (table after : Table) (step : RouteStep)
    → IsWellFormed table
    → apply parsers table step ≡ ok after
    → IsWellFormed after
unfolding apply
apply-IsWellFormed parsers table after (creates raw id now seen) w h =
    create-IsWellFormed parsers raw id now seen table after w h
apply-IsWellFormed parsers table after (updates id raw now seen) w h =
    update-IsWellFormed parsers id raw now seen table after w h
apply-IsWellFormed parsers table after (deletes id counted referencing seen) w h =
    delete-IsWellFormed id counted referencing seen table after w h
apply-IsWellFormed parsers table after (seeds_docker_hub now) w h =
    seed_builtin-IsWellFormed (docker_hub_route now) table after (docker_hub-IsRoute now) w h
apply-IsWellFormed parsers table after (seeds_ghcr now) w h =
    seed_builtin-IsWellFormed (ghcr_route now) table after (ghcr-IsRoute now) w h

-- Every history of creations, updates, deletions and seedings of routes, with whatever stale reads,
-- keeps the table in order: no two routes have an id, a key or a path prefix in common, at most one
-- is the default, every key and prefix is an identifier, every mode is known, and a route is the
-- default exactly when it has no prefix.
pub run_routes-IsWellFormed :
    (parsers : Parsers) (steps : List RouteStep) (table : Table)
    → IsWellFormed table
    → IsWellFormed (run_routes parsers table steps)
unfolding run_routes
run_routes-IsWellFormed parsers [] table w = w
run_routes-IsWellFormed parsers (step ∷ steps) table w =
    elim (Result-cases (apply parsers table step)) [
      | inl (after, e) ↦ rw e (
          run_routes-IsWellFormed parsers steps after
            (apply-IsWellFormed parsers table after step w e))
      | inr (error, e) ↦ rw e (run_routes-IsWellFormed parsers steps table w)
    ]
