-- ===== src/Route/Builtin.antt =====
-- The built-in routes of src/registry_routes.rs stay.
use donkey.Base.{
  ==_iff, or_true, ℕ, Bool, true, false, not, ◌&&◌, ◌||◌, List, [], ◌∷◌, any, keep, snoc, ◌==◌, ◌≡◌,
  refl, inl, inr, ok, Bool-cases, Result-cases, arith, Text, same_codes, ok-inj, passed_if, subst,
}
use donkey.Error.{database, not_found}
use donkey.Route.{
  RegistryRoute, NormalizedRouteInput, Parsers, docker_hub_route_id, ghcr_route_id,
  docker_hub_route_key, ghcr_route_key,
}
use donkey.Route.Store.{
  Table, collides, has_id, assign, assign_where, insert_route, update_route, delete_route,
  configuration_conflict, in_use_conflict,
}
use donkey.Route.Service.{
  new_route, renames_builtin, is_builtin, docker_hub_route, ghcr_route, seed_builtin, RouteStep,
  creates, updates, deletes, seeds_docker_hub, seeds_ghcr, apply, run_routes,
}
use donkey.Route.Histories.{create_inv, update_inv, delete_inv}

abbrev pub has_route : ℕ → Text → Table → Bool
has_route id key = any (λ r. r.id == id && same_codes r.key key)

any-snoc-true :
    (p : RegistryRoute → Bool) (table : Table) (new : RegistryRoute)
    → any p table ≡ true
    → any p (snoc table new) ≡ true
any-snoc-true p [] new h = cc
any-snoc-true p (r ∷ table) new h = ground (arith, any-snoc-true p table new)

-- Of a key, what the guard on built-in routes asks.
abbrev IsGuarded : ℕ → Text → Type 0
IsGuarded id key =
    (is_builtin id ≡ true) × ((k : Text) → renames_builtin id k ≡ false → same_codes k key ≡ true)

insert_route-has_route :
    (id : ℕ) (key : Text) (new : RegistryRoute) (table after : Table)
    → has_route id key table ≡ true
    → insert_route new table ≡ ok after
    → has_route id key after ≡ true
unfolding insert_route
insert_route-has_route id key new table after here h =
    let (_, e) =
      passed_if (any (λ r. r.id == new.id || collides r new) table) configuration_conflict _ h in
    subst (λ t. has_route id key t ≡ true) (ok-inj e)
      (any-snoc-true (λ r. r.id == id && same_codes r.key key) table new here)

assign_where-has_route :
    (id : ℕ) (key : Text) (at : ℕ) (input : NormalizedRouteInput) (now : ℕ) (table : Table)
    → (at ≡ id → same_codes input.key key ≡ true)
    → has_route id key table ≡ true
    → has_route id key (assign_where at input now table) ≡ true
unfolding assign_where
assign_where-has_route id key at input now [] keeps h = cc
assign_where-has_route id key at input now (r ∷ table) keeps h =
    elim (Bool-cases (has_route id key table)) [
      | inl later ↦ rw (assign_where-has_route id key at input now table keeps later) (or_true _)
      | inr none_later ↦ elim (Bool-cases (r.id == at)) [
        | inl e ↦
            let here : (r.id == id) ≡ true = ground arith in
            let kept = keeps (ground arith) in rw (e, here, kept) refl
        | inr e ↦ rw e (ground arith)
      ]
    ]

keep-has_route :
    (id : ℕ) (key : Text) (at : ℕ) (table : Table)
    → (at == id) ≡ false
    → has_route id key table ≡ true
    → has_route id key (keep (λ r. not (r.id == at)) table) ≡ true
keep-has_route id key at [] other h = cc
keep-has_route id key at (r ∷ table) other h = ground (arith, keep-has_route id key at table other)

module _ (id : ℕ) (key : Text) (guarded : IsGuarded id key) (parsers : Parsers) where
  update-has_route :
      (at : ℕ) (input : NormalizedRouteInput) (now : ℕ) (route : RegistryRoute)
      (table after : Table)
      → renames_builtin at input.key ≡ false
      → has_route id key table ≡ true
      → update_route at input now (assign input now route) table ≡ ok after
      → has_route id key after ≡ true
  unfolding update_route
  update-has_route at input now route table after kept here h =
      let (_, h1) = passed_if (not (any (has_id at) table)) database _ h in
      let (_, e) =
        passed_if (any (λ r. not (r.id == at) && collides r (assign input now route)) table)
          configuration_conflict _ h1 in
      subst (λ t. has_route id key t ≡ true) (ok-inj e)
        (assign_where-has_route id key at input now table
          (λ same. guarded.1 input.key (rw same at kept)) here)

  delete-has_route :
      (at referencing : ℕ) (table after : Table)
      → is_builtin at ≡ false
      → has_route id key table ≡ true
      → delete_route at referencing table ≡ ok after
      → has_route id key after ≡ true
  unfolding delete_route
  delete-has_route at referencing table after custom here h =
      let present = any (has_id at) table in
      let (_, h1) = passed_if (not (referencing == 0) && present) in_use_conflict _ h in
      let (_, e) = passed_if (not present) (not_found "Registry route") _ h1 in
      let builtin = guarded.0 in
      let apart : (at == id) ≡ false = elim (Bool-cases (at == id)) [
        | inr ne ↦ ne
        | inl same ↦
            absurd (let k : at ≡ id = (==_iff at id).0 same in let q = rw k at custom in cc)
      ] in
      subst (λ t. has_route id key t ≡ true) (ok-inj e) (keep-has_route id key at table apart here)

  seed-has_route :
      (new : RegistryRoute) (table after : Table)
      → has_route id key table ≡ true
      → seed_builtin new table ≡ ok after
      → has_route id key after ≡ true
  unfolding seed_builtin
  seed-has_route new table after here h =
      elim (Bool-cases (any (λ r. same_codes r.key new.key) table)) [
        | inl e ↦ let q = rw e at h in subst (λ t. has_route id key t ≡ true) (ok-inj q) here
        | inr e ↦ insert_route-has_route id key new table after here (rw e at h)
      ]

  apply-has_route :
      (table after : Table) (step : RouteStep)
      → has_route id key table ≡ true
      → apply parsers table step ≡ ok after
      → has_route id key after ≡ true
  unfolding apply
  apply-has_route table after (creates raw i now seen) here h =
      let (input, (_, written)) = create_inv parsers raw i now seen table after h in
      insert_route-has_route id key (new_route input i now) table after here written
  apply-has_route table after (updates i raw now seen) here h =
      let (input, (route, (_, (kept, written)))) =
        update_inv parsers i raw now seen table after h in
      update-has_route i input now route table after kept here written
  apply-has_route table after (deletes i counted referencing seen) here h =
      let (custom, written) = delete_inv i counted referencing seen table after h in
      delete-has_route i referencing table after custom here written
  apply-has_route table after (seeds_docker_hub now) here h =
      seed-has_route (docker_hub_route now) table after here h
  apply-has_route table after (seeds_ghcr now) here h =
      seed-has_route (ghcr_route now) table after here h

  run-has_route :
      (steps : List RouteStep) (table : Table)
      → has_route id key table ≡ true
      → has_route id key (run_routes parsers table steps) ≡ true
  unfolding run_routes
  run-has_route [] table here = here
  run-has_route (step ∷ steps) table here = elim (Result-cases (apply parsers table step)) [
    | inl (after, e) ↦ rw e (run-has_route steps after (apply-has_route table after step here e))
    | inr (error, e) ↦ rw e (run-has_route steps table here)
  ]

docker_hub-IsGuarded : IsGuarded docker_hub_route_id docker_hub_route_key
docker_hub-IsGuarded = (refl, λ k h. ground arith)

ghcr-IsGuarded : IsGuarded ghcr_route_id ghcr_route_key
ghcr-IsGuarded = (refl, λ k h. ground arith)

-- No history of calls takes a built-in route away or gives it another key: once the rows of Docker
-- Hub and of GHCR are in the table under their ids and keys, they are there for good.
pub run_routes_builtin :
    (parsers : Parsers) (steps : List RouteStep) (table : Table)
    → has_route docker_hub_route_id docker_hub_route_key table ≡ true
    → has_route ghcr_route_id ghcr_route_key table ≡ true
    → (has_route docker_hub_route_id docker_hub_route_key (run_routes parsers table steps) ≡ true)
      × (has_route ghcr_route_id ghcr_route_key (run_routes parsers table steps) ≡ true)
run_routes_builtin parsers steps table hub ghcr = (
  run-has_route docker_hub_route_id docker_hub_route_key docker_hub-IsGuarded parsers steps table
      hub,
  run-has_route ghcr_route_id ghcr_route_key ghcr-IsGuarded parsers steps table ghcr,
)
