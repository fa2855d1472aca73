-- ===== src/Schedule.antt =====
-- The orders in which nodes are tried: `CurrentAlgorithm`, `ProjectedCompletionAlgorithm` and
-- `promote_exploration` of src/scheduling.rs.
--
-- The type of floats and its operations are a parameter. A stable sort is an insertion sort; a node
-- is its identifier, the bytes of its URL and its priority.
pub mod Order
pub mod Explore
mod Examples
use Prim.Native.Nat.{compare, Ordering, bit_xor}
use donkey.Base.{
  ℕ, zero, suc, ◌+◌, ◌-◌, ◌*◌, ◌/◌, ◌%◌, ◌^◌, max, Bool, true, false, not, ◌&&◌, ◌||◌, Option, none,
  some, List, [], ◌∷◌, ◌++◌, any, map, take, drop, length, get_elem?, ltb, ◌==◌, if◌then◌else◌,
  add64, u64_mod, saturating_add,
}
use donkey.Chunk.{SchedulerPolicy, balanced, speed_first}

pub record Floats (F : Type 0) : Type 0 where
  pub of_nat : ℕ → F
  pub plus : F → F → F
  pub times : F → F → F
  pub divide : F → F → F
  pub larger : F → F → F
  pub within : F → F → F → F
  pub minus_ln : F → F
  pub min_positive : F
  pub less : F → F → Bool
  pub total_cmp : F → F → Ordering

pub record Node : Type 0 where
  pub id : ℕ
  pub url : List ℕ
  pub priority : ℕ

pub record ScheduleContext : Type 0 where
  pub sequence : ℕ
  pub blob_size : ℕ
  pub range_required : Bool
  pub chunk : Option (ℕ × ℕ)

pub record ScheduleCandidate (F : Type 0) : Type 0 where
  pub node : Node
  pub capacity_bps : F
  pub latency_ms : ℕ
  pub success_rate : F
  pub active : ℕ
  pub max_concurrency : ℕ
  pub measured : Bool
  pub recently_recovered : Bool

abbrev pub then_with : Ordering → Ordering → Ordering
then_with Ordering.eq next = next
then_with first next = first

pub compare_bytes : List ℕ → List ℕ → Ordering
compare_bytes [] [] = Ordering.eq
compare_bytes [] (b ∷ bs) = Ordering.lt
compare_bytes (a ∷ as') [] = Ordering.gt
compare_bytes (a ∷ as') (b ∷ bs) = then_with (compare a b) (compare_bytes as' bs)

abbrev pub is_greater : Ordering → Bool
is_greater Ordering.gt = true
is_greater _ = false

abbrev pub is_less : Ordering → Bool
is_less Ordering.lt = true
is_less _ = false

module _ {ℓ} {A : Type ℓ} where
  -- `sort_by`, which is stable.
  pub insert_by : (A → A → Ordering) → A → List A → List A
  insert_by cmp a [] = a ∷ []
  insert_by cmp a (b ∷ bs) =
      let rest = insert_by cmp a bs in if is_greater (cmp a b) then b ∷ rest else a ∷ b ∷ bs

  pub sort_by : (A → A → Ordering) → List A → List A
  sort_by cmp [] = []
  sort_by cmp (a ∷ items) = insert_by cmp a (sort_by cmp items)

  abbrev pub to_front : Option A → List A → List A → List A → List A
  to_front none before after items = items
  to_front (some a) before after items = a ∷ (before ++ after)

  -- `items[..=selected].rotate_right(1)`
  unfoldable pub promote : ℕ → List A → List A
  promote selected items =
      to_front (get_elem? items selected) (take selected items) (drop (suc selected) items) items

  -- `items.rotate_left(offset)`
  unfoldable pub rotate_left : ℕ → List A → List A
  rotate_left offset items = drop offset items ++ take offset items

abbrev pub xor_shift : ℕ → ℕ → ℕ
xor_shift state k = bit_xor state (state / 2 ^ k)

abbrev pub mul64 : ℕ → ℕ → ℕ
mul64 a b = (a * b) % u64_mod

pub hash_url : ℕ → List ℕ → ℕ
hash_url state [] = state
hash_url state (byte ∷ url) =
    hash_url (xor_shift (mul64 (bit_xor state byte) 0xbf58476d1ce4e5b9) 27) url

-- The SplitMix64 mix of the sequence and the URL.
pub rendezvous_state : ℕ → List ℕ → ℕ
rendezvous_state sequence url =
    let s0 = add64 (hash_url sequence url) 0x9e3779b97f4a7c15 in
    let s1 = mul64 (xor_shift s0 30) 0xbf58476d1ce4e5b9 in
    let s2 = mul64 (xor_shift s1 27) 0x94d049bb133111eb in xor_shift s2 31

module _ {F : Type 0} (floats : Floats F) where
  open floats use {of_nat, plus, times, divide, larger, within, minus_ln, min_positive, total_cmp}

  -- The mixed state as a number above 0 and at most 1.
  pub rendezvous_unit : ℕ → ScheduleCandidate F → F
  rendezvous_unit sequence candidate =
      within
        (divide (plus (of_nat (rendezvous_state sequence candidate.node.url)) (of_nat 1))
          (plus (of_nat (u64_mod - 1)) (of_nat 2)))
        min_positive (of_nat 1)

  load_of : ScheduleCandidate F → F
  load_of candidate = divide (of_nat candidate.active) (of_nat (max candidate.max_concurrency 1))

  reliability_of : ScheduleCandidate F → F
  reliability_of candidate =
      within candidate.success_rate (divide (of_nat 1) (of_nat 20)) (of_nat 1)

  pub effective_capacity : ScheduleCandidate F → F
  unfolding load_of reliability_of
  effective_capacity candidate =
      let reliability = reliability_of candidate in
      divide
        (times (larger candidate.capacity_bps (of_nat (256 * 1024)))
          (times reliability reliability))
        (plus (of_nat 1) (load_of candidate))

  -- `end.saturating_sub(start).saturating_add(1)`, or the whole blob.
  abbrev pub request_bytes : Option (ℕ × ℕ) → ℕ → ℕ
  request_bytes none blob_size = max blob_size 1
  request_bytes (some (start, end)) blob_size = saturating_add (end - start) 1

  pub projected_cost : ScheduleContext → ScheduleCandidate F → F
  unfolding load_of reliability_of
  projected_cost context candidate =
      let throughput = larger candidate.capacity_bps (of_nat (256 * 1024)) in
      let reliability = reliability_of candidate in
      let queue = plus (of_nat 1) (load_of candidate) in
      let bytes = of_nat (request_bytes context.chunk context.blob_size) in
      plus (divide (of_nat candidate.latency_ms) (of_nat 1000))
        (divide (times queue bytes) (times (times throughput reliability) reliability))

  pub by_capacity : ScheduleCandidate F → ScheduleCandidate F → Ordering
  by_capacity left right =
      then_with (total_cmp (effective_capacity right) (effective_capacity left)) (
        then_with (compare left.node.priority right.node.priority)
          (compare_bytes left.node.url right.node.url))

  pub by_cost : ScheduleContext → ScheduleCandidate F → ScheduleCandidate F → Ordering
  by_cost context left right =
      then_with (total_cmp (projected_cost context left) (projected_cost context right)) (
        then_with
          (total_cmp (rendezvous_unit context.sequence left)
            (rendezvous_unit context.sequence right))
          (then_with (compare left.node.priority right.node.priority)
            (compare_bytes left.node.url right.node.url)))

  -- The index of the first least key; `best` is the least one so far, at index `at`.
  pub min_from : ℕ → F → ℕ → List F → ℕ
  min_from at best next [] = at
  min_from at best next (key ∷ keys) =
      let wins = is_less (total_cmp key best) in
      min_from (if wins then next else at) (if wins then key else best) (suc next) keys

  pub min_index : List F → ℕ
  min_index [] = 0
  min_index (key ∷ keys) = min_from 0 key 1 keys

  pub largest_capacity : F → List (ScheduleCandidate F) → F
  largest_capacity acc [] = acc
  largest_capacity acc (candidate ∷ candidates) =
      largest_capacity (larger acc (effective_capacity candidate)) candidates

  -- The winner of the weighted rendezvous hashing.
  pub rendezvous_winner : ℕ → List (ScheduleCandidate F) → ℕ
  rendezvous_winner sequence candidates =
      let max_capacity = larger (largest_capacity (of_nat 0) candidates) (of_nat 1) in
      min_index (
        map
          (λ candidate.
            let weight =
              larger (divide (effective_capacity candidate) max_capacity)
                (divide (of_nat 1) (of_nat 1000)) in
            divide (minus_ln (rendezvous_unit sequence candidate)) weight)
          candidates)

  pub is_explorable : ScheduleCandidate F → Bool
  is_explorable candidate =
      candidate.active == 0
      && ltb 0 candidate.max_concurrency
      && (not candidate.measured || candidate.recently_recovered)

  -- The index of the last greatest unit among the nodes to explore.
  abbrev pub keeps_best : ℕ → ScheduleCandidate F → Option (ℕ × F) → Bool
  keeps_best sequence candidate none = false
  keeps_best sequence candidate (some (at, best)) =
      is_less (total_cmp (rendezvous_unit sequence candidate) best)

  pub max_explorable : ℕ → Option (ℕ × F) → ℕ → List (ScheduleCandidate F) → Option (ℕ × F)
  max_explorable sequence best next [] = best
  max_explorable sequence best next (candidate ∷ candidates) =
      max_explorable sequence
        (if not (is_explorable candidate) || keeps_best sequence candidate best
          then best
          else some (next, rendezvous_unit sequence candidate))
        (suc next) candidates

  abbrev pub promote_found :
      Option (ℕ × F) → List (ScheduleCandidate F) → List (ScheduleCandidate F)
  promote_found none candidates = candidates
  promote_found (some (selected, unit)) candidates = promote selected candidates

  pub promote_exploration : List (ScheduleCandidate F) → ℕ → List (ScheduleCandidate F)
  promote_exploration candidates sequence =
      if not (sequence % 8 == 0) || not (any (λ candidate. candidate.measured) candidates)
      then candidates
      else promote_found (max_explorable sequence none 0 candidates) candidates

  -- The order before exploration, for each policy.
  pub order_current :
      List (ScheduleCandidate F) → ScheduleContext → SchedulerPolicy → List (ScheduleCandidate F)
  order_current candidates context balanced =
      let sorted = sort_by by_capacity candidates in
      if any (λ candidate. candidate.measured) candidates
      then promote (rendezvous_winner context.sequence sorted) sorted
      else rotate_left (context.sequence % length candidates) candidates
  order_current candidates context speed_first = sort_by by_capacity candidates

  pub current_order : List (ScheduleCandidate F) → ScheduleContext → SchedulerPolicy → List Node
  current_order candidates context policy =
      map (λ candidate. candidate.node)
        (promote_exploration (order_current candidates context policy) context.sequence)

  pub projected_order : List (ScheduleCandidate F) → ScheduleContext → List Node
  projected_order candidates context =
      map (λ candidate. candidate.node)
        (promote_exploration (sort_by (by_cost context) candidates) context.sequence)
