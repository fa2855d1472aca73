-- ===== src/Capacity/Examples.antt =====
-- The theorems on leases at concrete histories.
use donkey.Base.{◌-◌, ◌≤◌, ◌≡◌, [], ◌∷◌, length, arith}
use donkey.Capacity.{fresh_capacity, max_network_requests, active_of}
use donkey.Capacity.Leases.{count}
use donkey.Capacity.Steps.{take_lease, give_back, run_capacity, run_capacity_bounds}

run_capacity_bounds_example :
    let (capacity, leases) =
      run_capacity
        (fresh_capacity, [])
        (take_lease 7 2 ∷ take_lease 7 1 ∷ take_lease 8 4 ∷ give_back 7 ∷ take_lease 7 2 ∷ []) in
    (length leases ≤ max_network_requests)
    × (count 7 leases ≤ 2)
    × (active_of capacity 7 ≡ count 7 leases)
    × (capacity.requests ≡ max_network_requests - length leases)
run_capacity_bounds_example =
    run_capacity_bounds
      (take_lease 7 2 ∷ take_lease 7 1 ∷ take_lease 8 4 ∷ give_back 7 ∷ take_lease 7 2 ∷ []) 7 2
      (
        (λ e. omega arith),
        ((λ e. omega arith), ((λ e. omega arith), (tt, ((λ e. omega arith), tt)))),
      )
