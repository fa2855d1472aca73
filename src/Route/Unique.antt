-- ===== src/Route/Unique.antt =====
-- The table of registry routes in every history of calls of src/registry_routes.rs: its unique
-- columns, and the form of its rows.
use donkey.Base.{
  any-snoc, ap, ℕ, Bool, true, false, not, ◌&&◌, ◌||◌, Option, none, some, [], ◌∷◌, any, keep, snoc,
  ◌==◌, ◌≡◌, refl, inl, inr, ok, Bool-cases, arith, Text, same_codes_comm, passed_if, ok-inj, subst,
  or_left, or_right,
}
use donkey.Route.{RegistryRoute, NormalizedRouteInput}
use donkey.Route.Store.{
  Table, collides, same_prefix, has_id, assign, assign_where, insert_route, update_route,
  delete_route, in_use_conflict,
}
use donkey.Error.{not_found}

-- Two rows that the primary key or a unique index keeps apart.
abbrev pub clashes : RegistryRoute → RegistryRoute → Bool
clashes a b = a.id == b.id || collides a b

abbrev pub Unique : Table → Type 0
Unique [] = Unit {0}
Unique (r ∷ table) = (any (clashes r) table ≡ false) × Unique table

same_prefix_comm : (p q : Option Text) → same_prefix p q ≡ same_prefix q p
same_prefix_comm none none = refl
same_prefix_comm none (some q) = refl
same_prefix_comm (some p) none = refl
same_prefix_comm (some p) (some q) = same_codes_comm p q

clashes_comm : (a b : RegistryRoute) → clashes a b ≡ clashes b a
clashes_comm a b =
    ground (arith, same_codes_comm a.key b.key, same_prefix_comm a.path_prefix b.path_prefix)

Unique-snoc :
    (table : Table) (new : RegistryRoute)
    → any (λ r. clashes r new) table ≡ false
    → Unique table
    → Unique (snoc table new)
Unique-snoc [] new h u = (refl, tt)
Unique-snoc (r ∷ table) new h (here, u) = (
  any-snoc (clashes r) table new here (or_left (clashes r new) _ h),
  Unique-snoc table new (or_right (clashes r new) _ h) u,
)

any-keep :
    (p q : RegistryRoute → Bool) (table : Table)
    → any p table ≡ false
    → any p (keep q table) ≡ false
any-keep p q [] h = refl
any-keep p q (r ∷ table) h = elim (Bool-cases (q r)) [
  | inl e ↦ rw (e, or_left (p r) _ h, any-keep p q table (or_right (p r) _ h)) refl
  | inr e ↦ rw e (any-keep p q table (or_right (p r) _ h))
]

Unique-keep : (q : RegistryRoute → Bool) (table : Table) → Unique table → Unique (keep q table)
Unique-keep q [] u = tt
Unique-keep q (r ∷ table) (here, u) = elim (Bool-cases (q r)) [
  | inl e ↦ rw e (any-keep (clashes r) q table here, Unique-keep q table u)
  | inr e ↦ rw e (Unique-keep q table u)
]

pub insert_route-Unique :
    (new : RegistryRoute) (table after : Table)
    → Unique table
    → insert_route new table ≡ ok after
    → Unique after
unfolding insert_route
insert_route-Unique new table after u h =
    let (free, e) = passed_if _ _ _ h in subst Unique (ok-inj e) (Unique-snoc table new free u)

pub delete_route-Unique :
    (id referencing : ℕ) (table after : Table)
    → Unique table
    → delete_route id referencing table ≡ ok after
    → Unique after
unfolding delete_route
delete_route-Unique id referencing table after u h =
    let present = any (has_id id) table in
    let (unused, rest) = passed_if (not (referencing == 0) && present) in_use_conflict _ h in
    let (there, e) = passed_if (not present) (not_found "Registry route") _ rest in
    subst Unique (ok-inj e) (Unique-keep (λ r. not (r.id == id)) table u)

-- The rows other than the one that is assigned have room for the new columns.
abbrev HasRoom : ℕ → RegistryRoute → Table → Type 0
HasRoom id new table = any (λ r. not (r.id == id) && collides r new) table ≡ false

clashes_assigned :
    (r x : RegistryRoute) (id : ℕ) (input : NormalizedRouteInput) (now : ℕ)
    → (r.id == id) ≡ false
    → (x.id == id) ≡ true
    → collides r (assign input now x) ≡ false
    → clashes r (assign input now x) ≡ false
clashes_assigned r x id input now other e free = rw free (ground arith)

any_assigned :
    (r : RegistryRoute) (id : ℕ) (input : NormalizedRouteInput) (now : ℕ) (table : Table)
    → any (clashes r) table ≡ false
    → (r.id == id) ≡ false
    → ((s : RegistryRoute) → collides r (assign input now s) ≡ false)
    → any (clashes r) (assign_where id input now table) ≡ false
unfolding assign_where
any_assigned r id input now [] h other free = refl
any_assigned r id input now (x ∷ table) h other free =
    let later = any_assigned r id input now table (or_right (clashes r x) _ h) other free in
    elim (Bool-cases (x.id == id)) [
      | inl e ↦ rw (e, later, clashes_assigned r x id input now other e (free x)) refl
      | inr e ↦ rw (e, later, or_left (clashes r x) _ h) refl
    ]

assign_absent :
    (id : ℕ) (input : NormalizedRouteInput) (now : ℕ) (table : Table)
    → any (has_id id) table ≡ false
    → assign_where id input now table ≡ table
unfolding assign_where
assign_absent id input now [] h = refl
assign_absent id input now (x ∷ table) h =
    rw (or_left (has_id id x) _ h)
      (ap (λ t. x ∷ t) (assign_absent id input now table (or_right (has_id id x) _ h)))

ids_apart :
    (r : RegistryRoute) (id : ℕ) (table : Table)
    → (r.id == id) ≡ true
    → any (clashes r) table ≡ false
    → any (has_id id) table ≡ false
ids_apart r id [] e h = refl
ids_apart r id (x ∷ table) e h =
    let rest = ids_apart r id table e (or_right (clashes r x) _ h) in
    let here = or_left (r.id == x.id) _ (or_left (clashes r x) _ h) in
    let apart : (x.id == id) ≡ false = ground arith in rw (apart, rest) refl

-- The assigned row against the others.
assigned_apart :
    (r : RegistryRoute) (id : ℕ) (input : NormalizedRouteInput) (now : ℕ) (table : Table)
    → (r.id == id) ≡ true
    → any (has_id id) table ≡ false
    → HasRoom id (assign input now r) table
    → any (clashes (assign input now r)) table ≡ false
assigned_apart r id input now [] e absent room = refl
assigned_apart r id input now (x ∷ table) e absent room =
    let later =
      assigned_apart r id input now table e (or_right (has_id id x) _ absent)
        (or_right (not (x.id == id) && collides x (assign input now r)) _ room) in
    let other : (x.id == id) ≡ false = or_left (has_id id x) _ absent in
    let free : collides x (assign input now r) ≡ false =
      rw other at (or_left (not (x.id == id) && collides x (assign input now r)) _ room) in
    rw (clashes_comm (assign input now r) x, clashes_assigned x r id input now other e free, later)
      refl

Unique-assign_where :
    (id : ℕ) (input : NormalizedRouteInput) (now : ℕ) (new : RegistryRoute) (table : Table)
    → Unique table
    → HasRoom id (assign input now new) table
    → Unique (assign_where id input now table)
unfolding assign_where
Unique-assign_where id input now new [] u room = tt
Unique-assign_where id input now new (r ∷ table) (here, u) room =
    let later = or_right (not (r.id == id) && collides r (assign input now new)) _ room in
    let now_ok = or_left (not (r.id == id) && collides r (assign input now new)) _ room in
    let rest = Unique-assign_where id input now new table u later in
    elim (Bool-cases (r.id == id)) [
      | inl e ↦
          let absent = ids_apart r id table e here in
          rw (e, assign_absent id input now table absent)
            (assigned_apart r id input now table e absent later, u)
      | inr e ↦ rw e (any_assigned r id input now table here e (λ s. rw e at now_ok), rest)
    ]

pub update_route-Unique :
    (id : ℕ) (input : NormalizedRouteInput) (now : ℕ) (new : RegistryRoute) (table after : Table)
    → Unique table
    → update_route id input now (assign input now new) table ≡ ok after
    → Unique after
unfolding update_route
update_route-Unique id input now new table after u h =
    let (there, rest) = passed_if _ _ _ h in
    let (room, e) = passed_if _ _ _ rest in
    subst Unique (ok-inj e) (Unique-assign_where id input now new table u room)
