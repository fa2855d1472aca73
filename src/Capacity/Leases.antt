-- ===== src/Capacity/Leases.antt =====
-- What `NodeCapacity` of src/resource_budget.rs promises: its counters stand for the leases that
-- are out, at most 64 of them and at most `max` on a node.
use donkey.Base.{
  ℕ, ◌+◌, ◌-◌, ◌<◌, ◌≡◌, refl, ◌∙◌, inl, inr, Bool, true, false, ◌&&◌, List, [], ◌∷◌, length, ltb,
  leb, arith, Bool-cases, ◌==◌, if◌then◌else◌,
}
use donkey.Capacity.{
  NodeCapacity, max_network_requests, active_count, set_active, release_active, try_acquire,
  drop_lease,
}

-- The leases that are out, by their nodes.
abbrev pub Leases : Type 0
Leases = List ℕ

unfoldable pub count : ℕ → Leases → ℕ
count node [] = 0
count node (n ∷ leases) = if n == node then count node leases + 1 else count node leases

unfoldable pub remove : ℕ → Leases → Leases
remove node [] = []
remove node (n ∷ leases) = if n == node then leases else n ∷ remove node leases

-- The abstract rule of admission.
abbrev pub is_granted : Leases → ℕ → ℕ → Bool
is_granted leases node max = ltb (length leases) max_network_requests && ltb (count node leases) max

pub record Represents (capacity : NodeCapacity) (leases : Leases) : Type 0 where
  pub permits : capacity.requests + length leases ≡ max_network_requests
  pub counts : (node : ℕ) → active_count node capacity.active ≡ count node leases

active_count-set_active :
    (node n value : ℕ) (active : List (ℕ × ℕ))
    → active_count node (set_active n value active)
      ≡ (if n == node then value else active_count node active)
unfolding active_count set_active
active_count-set_active node n value [] = refl
active_count-set_active node n value ((k, old) ∷ active) =
    ground (arith, active_count-set_active node n value active)

active_count-release_active :
    (node n : ℕ) (active : List (ℕ × ℕ))
    → active_count node (release_active n active)
      ≡ (if n == node then active_count node active - 1 else active_count node active)
unfolding active_count release_active
active_count-release_active node n [] = ground arith
active_count-release_active node n ((k, old) ∷ active) =
    ground (arith, active_count-release_active node n active)

pub count-remove :
    (node n : ℕ) (leases : Leases)
    → count node (remove n leases)
      ≡ (if n == node then count node leases - 1 else count node leases)
unfolding count remove
count-remove node n [] = ground arith
count-remove node n (k ∷ leases) = ground (arith, count-remove node n leases)

length-remove :
    (node : ℕ) (leases : Leases)
    → 0 < count node leases
    → length (remove node leases) + 1 ≡ length leases
unfolding count remove
length-remove node [] h = elim h [ ]
length-remove node (n ∷ leases) h = ground (arith, length-remove node leases)

-- The counters decide as the rule on leases does, and they stand for the leases that are out after
-- the call, also where it is refused.
pub try_acquire-Represents :
    (capacity : NodeCapacity) (leases : Leases) (node max : ℕ)
    → Represents capacity leases
    → ((try_acquire capacity node max).1 ≡ is_granted leases node max)
      × Represents
          (try_acquire capacity node max).0
          (if is_granted leases node max then node ∷ leases else leases)
unfolding try_acquire count
try_acquire-Represents capacity leases node max r =
    let here = r.counts node in
    let free = r.permits in
    elim (Bool-cases (capacity.requests == 0)) [
      | inl empty ↦
          let refused : is_granted leases node max ≡ false = ground arith in
          rw (empty, refused) (refl, r)
      | inr some_free ↦ elim (Bool-cases (leb max (active_count node capacity.active))) [
        | inl full ↦
            let refused : is_granted leases node max ≡ false = ground arith in
            rw (some_free, full, refused)
              (
                refl,
                record {
                  permits = r.permits;
                  counts = λ k.
                      active_count-set_active k node (active_count node capacity.active)
                        capacity.active
                      ∙ ground (arith, r.counts k);
                },
              )
        | inr room ↦
            let granted : is_granted leases node max ≡ true = ground arith in
            rw (some_free, room, granted)
              (
                refl,
                record {
                  permits = ground arith;
                  counts = λ k.
                      active_count-set_active k node (active_count node capacity.active + 1)
                        capacity.active
                      ∙ ground (arith, r.counts k);
                },
              )
      ]
    ]

-- The drop of a lease that is out gives its place back on the network and on its node.
pub drop_lease-Represents :
    (capacity : NodeCapacity) (leases : Leases) (node : ℕ)
    → Represents capacity leases
    → 0 < count node leases
    → Represents (drop_lease capacity node) (remove node leases)
unfolding drop_lease
drop_lease-Represents capacity leases node r out = record {
  permits = let free = r.permits in omega (arith, length-remove node leases out);
  counts = λ k.
      active_count-release_active k node capacity.active
      ∙ ground (arith, r.counts k, count-remove k node leases);
}
