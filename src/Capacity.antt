-- ===== src/Capacity.antt =====
-- `NodeCapacity` of src/resource_budget.rs: the leases that bound the requests on each node and on
-- the network.
--
-- A semaphore is its number of free permits; the map of active requests is an association list in
-- which a node without an entry has none. A lease is a value that its drop uses up.
pub mod Leases
pub mod Steps
mod Examples
use donkey.Base.{
  ℕ, ◌+◌, ◌-◌, ◌*◌, ◌^◌, Bool, true, false, Option, none, some, List, [], ◌∷◌, keep, length, ltb,
  leb, ◌==◌, if◌then◌else◌, Result, ok, err,
}
use donkey.Error.{AppError, ApiResult, unavailable}

abbrev pub max_network_requests : ℕ
max_network_requests = 64

pub record NodeCapacity : Type 0 where
  pub active : List (ℕ × ℕ)
  pub requests : ℕ

abbrev pub fresh_capacity : NodeCapacity
fresh_capacity = record { active = []; requests = max_network_requests }

-- `active.get(&node).map_or(0, …)`.
unfoldable pub active_count : ℕ → List (ℕ × ℕ) → ℕ
active_count node [] = 0
active_count node ((n, count) ∷ active) = if n == node then count else active_count node active

-- `*active.entry(node).or_insert(0) = count`.
unfoldable pub set_active : ℕ → ℕ → List (ℕ × ℕ) → List (ℕ × ℕ)
set_active node count [] = (node, count) ∷ []
set_active node count ((n, old) ∷ active) =
    if n == node then (n, count) ∷ active else (n, old) ∷ set_active node count active

-- `saturating_sub(1)` on the entry, where there is one.
unfoldable pub release_active : ℕ → List (ℕ × ℕ) → List (ℕ × ℕ)
release_active node [] = []
release_active node ((n, count) ∷ active) =
    if n == node then (n, count - 1) ∷ active else (n, count) ∷ release_active node active

pub active_of : NodeCapacity → ℕ → ℕ
active_of capacity node = active_count node capacity.active

-- A refusal by the node's limit gives the permit back, and leaves the entry that it may have made.
unfoldable pub try_acquire : NodeCapacity → ℕ → ℕ → NodeCapacity × Bool
try_acquire capacity node max =
    let count = active_count node capacity.active in
    if capacity.requests == 0
    then (capacity, false)
    else if leb max count
    then (record capacity { active = set_active node count capacity.active }, false)
    else (
      record capacity {
        active = set_active node (count + 1) capacity.active;
        requests = capacity.requests - 1;
      },
      true,
    )

-- The drop of a `NodeLease`.
unfoldable pub drop_lease : NodeCapacity → ℕ → NodeCapacity
drop_lease capacity node = record capacity {
  active = release_active node capacity.active;
  requests = capacity.requests + 1;
}

-- `acquire`: one attempt for each wake-up, with what others did to the capacity meanwhile. `none`
-- means that it still waits.
unfoldable pub acquire_loop :
    List (NodeCapacity → NodeCapacity)
    → NodeCapacity
    → ℕ
    → ℕ
    → NodeCapacity × Option (ApiResult (Unit {0}))
acquire_loop [] capacity node max = (capacity, none)
acquire_loop (others ∷ wakes) capacity node max =
    let (tried, got) = try_acquire (others capacity) node max in
    let rest = acquire_loop wakes tried node max in if got then (tried, some (ok tt)) else rest

unfoldable pub acquire :
    List (NodeCapacity → NodeCapacity)
    → NodeCapacity
    → ℕ
    → ℕ
    → NodeCapacity × Option (ApiResult (Unit {0}))
acquire wakes capacity node max =
    if max == 0
    then (capacity, some (err (unavailable "node request capacity is disabled")))
    else acquire_loop wakes capacity node max
