-- ===== src/Capacity/Steps.antt =====
-- Histories of leases of `NodeCapacity` in src/resource_budget.rs: attempts and drops in any order.
use donkey.Base.{
  ℕ, ◌-◌, ◌≤◌, ◌≡◌, refl, ◌∙◌, inl, inr, true, false, some, List, [], ◌∷◌, length, All, ltb, arith,
  Bool-cases, ltb→lt, ◌==◌, if◌then◌else◌, ok,
}
use donkey.Capacity.{
  NodeCapacity, fresh_capacity, max_network_requests, active_of, active_count, try_acquire,
  drop_lease, acquire, acquire_loop,
}
use donkey.Capacity.Leases.{
  Leases, count, remove, is_granted, Represents, try_acquire-Represents, drop_lease-Represents,
  count-remove,
}

-- An attempt at a lease on a node, under the limit that the node has then, and the drop of a lease,
-- which only happens to one that is out.
pub data CapacityStep : Type 0 where
  take_lease : ℕ → ℕ → CapacityStep
  give_back : ℕ → CapacityStep

pub capacity_step : NodeCapacity × Leases → CapacityStep → NodeCapacity × Leases
capacity_step (capacity, leases) (take_lease node max) =
    let (capacity', got) = try_acquire capacity node max in
    (capacity', if got then node ∷ leases else leases)
capacity_step (capacity, leases) (give_back node) =
    if ltb 0 (count node leases)
    then (drop_lease capacity node, remove node leases)
    else (capacity, leases)

pub run_capacity : NodeCapacity × Leases → List CapacityStep → NodeCapacity × Leases
run_capacity state [] = state
run_capacity state (s ∷ steps) = run_capacity (capacity_step state s) steps

-- The limits of a node stay within `most`.
abbrev pub Within : ℕ → ℕ → CapacityStep → Type 0
Within node most (take_lease n max) = n ≡ node → max ≤ most
Within node most (give_back n) = Unit {0}

capacity_step-Represents :
    (capacity : NodeCapacity) (leases : Leases) (s : CapacityStep)
    → Represents capacity leases
    → Represents (capacity_step (capacity, leases) s).0 (capacity_step (capacity, leases) s).1
unfolding capacity_step
capacity_step-Represents capacity leases (take_lease node max) r =
    let (same, after) = try_acquire-Represents capacity leases node max r in rw same after
capacity_step-Represents capacity leases (give_back node) r =
    elim (Bool-cases (ltb 0 (count node leases))) [
      | inl out ↦ rw out (drop_lease-Represents capacity leases node r (ltb→lt _ _ out))
      | inr gone ↦ rw gone r
    ]

capacity_step-Within :
    (capacity : NodeCapacity) (leases : Leases) (s : CapacityStep) (node most : ℕ)
    → Represents capacity leases
    → Within node most s
    → count node leases ≤ most
    → count node (capacity_step (capacity, leases) s).1 ≤ most
unfolding capacity_step count
capacity_step-Within capacity leases (take_lease n max) node most r w h =
    let same = (try_acquire-Represents capacity leases n max r).0 in rw same (ground (arith, w))
capacity_step-Within capacity leases (give_back n) node most r w h =
    ground (arith, count-remove node n leases)

run_capacity-Represents :
    (steps : List CapacityStep) (capacity : NodeCapacity) (leases : Leases) (node most : ℕ)
    → Represents capacity leases
    → All (Within node most) steps
    → count node leases ≤ most
    → Represents (run_capacity (capacity, leases) steps).0 (run_capacity (capacity, leases) steps).1
      × (count node (run_capacity (capacity, leases) steps).1 ≤ most)
unfolding run_capacity
run_capacity-Represents [] capacity leases node most r w h = (r, h)
run_capacity-Represents (s ∷ steps) capacity leases node most r (w, ws) h =
    let next = capacity_step (capacity, leases) s in
    run_capacity-Represents steps next.0 next.1 node most
      (capacity_step-Represents capacity leases s r) ws
      (capacity_step-Within capacity leases s node most r w h)

pub fresh-Represents : Represents fresh_capacity []
unfolding active_count count
fresh-Represents = record { permits = refl; counts = λ node. refl }

-- In every history of attempts and drops from a fresh start, the network never carries more than 64
-- leases, a node never more than the largest limit it was given, and the counters are exact: the
-- count of active requests on the node is that of its leases, and the free permits are those that
-- no lease holds.
pub run_capacity_bounds :
    (steps : List CapacityStep) (node most : ℕ)
    → All (Within node most) steps
    → let (capacity, leases) = run_capacity (fresh_capacity, []) steps in
      (length leases ≤ max_network_requests)
      × (count node leases ≤ most)
      × (active_of capacity node ≡ count node leases)
      × (capacity.requests ≡ max_network_requests - length leases)
unfolding active_of
run_capacity_bounds steps node most w =
    let (r, h) =
      run_capacity-Represents steps fresh_capacity [] node most fresh-Represents w
        (unfold count in omega arith) in
    let free = r.permits in (omega arith, h, r.counts node, omega arith)

-- An `acquire` that finds a place on the network and on the node takes it at once, whatever happens
-- later, and its lease is counted.
pub acquire-Represents :
    (capacity : NodeCapacity) (leases : Leases) (node max : ℕ)
    (later : List (NodeCapacity → NodeCapacity))
    → Represents capacity leases
    → is_granted leases node max ≡ true
    → ((acquire ((λ c. c) ∷ later) capacity node max).1 ≡ some (ok tt))
      × Represents (acquire ((λ c. c) ∷ later) capacity node max).0 (node ∷ leases)
unfolding acquire acquire_loop
acquire-Represents capacity leases node max later r granted =
    let (same, after) = try_acquire-Represents capacity leases node max r in
    let enabled : (max == 0) ≡ false = ground arith in
    let got = same ∙ granted in rw (enabled, got) (refl, rw granted at after)
