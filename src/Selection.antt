-- ===== src/Selection.antt =====
-- `NodeSelector` of src/node_selection.rs: the speed windows, the cooling of nodes that fail, and
-- the candidates that an ordering algorithm is given.
--
-- Times are in nanoseconds. Maps are functions. The delays of the `backoff` crate are a parameter:
-- from the state of one node's backoff the next delay, if there is one, and the next state.
pub mod Speed
pub mod Cooling
pub mod Candidates
mod Examples
use Prim.Native.Nat.{Ordering}
use donkey.Base.{
  ℕ, zero, suc, ◌+◌, ◌-◌, ◌*◌, ◌/◌, Bool, true, false, not, ◌&&◌, ◌||◌, Option, none, some, List,
  [], ◌∷◌, any, map, keep, snoc, drop, take, length, get_elem?, ltb, leb, ◌==◌, if◌then◌else◌,
}
use donkey.Capacity.{NodeCapacity, active_of}
use donkey.Chunk.{SchedulerPolicy}
use donkey.Schedule.{
  Floats, Node, ScheduleContext, ScheduleCandidate, sort_by, current_order, projected_order,
}

abbrev pub second : ℕ
second = 1000000000

abbrev pub speed_window : ℕ
speed_window = 60 * second

abbrev pub max_speed_samples : ℕ
max_speed_samples = 8

pub record SpeedSample (F : Type 0) : Type 0 where
  pub at : ℕ
  pub bps : F

pub record NodeView (F : Type 0) : Type 0 where
  pub node : Node
  pub enabled : Bool
  pub route_enabled : Bool
  pub latency_ms : ℕ
  pub success_rate : F
  pub speed_bps : ℕ
  pub max_concurrency : ℕ

pub record FailureState (B : Type 0) : Type 0 where
  pub backoff : B
  pub cooldown_until : ℕ

pub record NodeSelector (F B : Type 0) : Type 0 where
  pub speeds : ℕ → Option (List (SpeedSample F))
  pub failures : ℕ → Option (FailureState B)
  pub recovered : ℕ → Option ℕ
  pub capacity : NodeCapacity

abbrev pub update {ℓ} : {A : Type ℓ} → (ℕ → A) → ℕ → A → ℕ → A
update f key value k = if k == key then value else f k

module _ {F : Type 0} where
  -- `SpeedWindow::prune`.
  pub prune : ℕ → List (SpeedSample F) → List (SpeedSample F)
  prune now [] = []
  prune now (sample ∷ samples) =
      let rest = prune now samples in
      if ltb speed_window (now - sample.at) then rest else sample ∷ samples

  -- `SpeedWindow::record`.
  pub record_sample : ℕ → F → List (SpeedSample F) → List (SpeedSample F)
  record_sample now bps samples =
      let pruned = prune now (snoc samples (record { at = now; bps = bps })) in
      drop (length pruned - max_speed_samples) pruned

  abbrev pub or_empty : Option (List (SpeedSample F)) → List (SpeedSample F)
  or_empty none = []
  or_empty (some samples) = samples

-- The delay of a backoff: ten seconds if it gives none.
abbrev pub delay_of : Option ℕ → ℕ
delay_of none = 10 * second
delay_of (some delay) = delay

abbrev pub is_later : Option ℕ → ℕ → Bool
is_later none now = false
is_later (some until) now = ltb now until

module _ {F : Type 0} where
  abbrev pub or_value : Option F → F → F
  or_value none value = value
  or_value (some v) value = v

  abbrev pub is_known : Option (List (SpeedSample F)) → Bool
  is_known none = false
  is_known (some samples) = true

  pub is_enabled : NodeView F → Bool
  is_enabled view = view.enabled && view.route_enabled

  abbrev pub or_all : List (NodeView F) → List (NodeView F) → List (NodeView F)
  or_all [] all_views = all_views
  or_all (view ∷ ready) all_views = view ∷ ready

module _ {B : Type 0} where
  abbrev pub is_failing : Option (FailureState B) → Bool
  is_failing none = false
  is_failing (some failure) = true

  abbrev pub until_after : Option (FailureState B) → ℕ → Bool
  until_after none now = false
  until_after (some failure) now = ltb now failure.cooldown_until

module _ {F B : Type 0} where
  unfoldable pub is_cooling : NodeSelector F B → ℕ → ℕ → Bool
  is_cooling selector node now = until_after (selector.failures node) now

  pub is_ready : NodeSelector F B → ℕ → NodeView F → Bool
  is_ready selector now view = not (is_cooling selector view.node.id now)

  -- The nodes that are offered: those that do not cool down, or all if every one does.
  pub offered : NodeSelector F B → ℕ → List (NodeView F) → List (NodeView F)
  offered selector now views =
      let enabled = keep is_enabled views in or_all (keep (is_ready selector now) enabled) enabled

module _ {F B : Type 0} (floats : Floats F) (next_backoff : B → Option ℕ × B)
    (fresh_backoff : B) where
  open floats use {of_nat, plus, times, divide, less, total_cmp}

  pub sum_of : F → List F → F
  sum_of acc [] = acc
  sum_of acc (value ∷ values) = sum_of (plus acc value) values

  -- The highest of five values or more is dropped where it stands out from the median.
  pub trimmed : List F → List F
  trimmed values =
      let median = or_value (get_elem? values (length values / 2)) (of_nat 0) in
      let highest = or_value (get_elem? values (length values - 1)) median in
      if leb 5 (length values) && less (of_nat 0) median && less (times median (of_nat 4)) highest
      then take (length values - 1) values
      else values

  abbrev pub mean : List F → Option F
  mean [] = none
  mean (value ∷ values) =
      let kept = trimmed (sort_by total_cmp (value ∷ values)) in
      some (divide (sum_of (of_nat 0) kept) (of_nat (length kept)))

  -- `SpeedWindow::estimate`, with the window that it leaves.
  pub estimate : ℕ → List (SpeedSample F) → List (SpeedSample F) × Option F
  estimate now samples = let pruned = prune now samples in (pruned, mean (map (λ s. s.bps) pruned))

  abbrev pub backoff_of : Option (FailureState B) → B
  backoff_of none = fresh_backoff
  backoff_of (some failure) = failure.backoff

  pub fail_again : ℕ → Option (FailureState B) → FailureState B
  fail_again now failure =
      let (delay, backoff) = next_backoff (backoff_of failure) in
      record { backoff = backoff; cooldown_until = now + delay_of delay }

  pub record_speed : NodeSelector F B → ℕ → ℕ → F → NodeSelector F B
  record_speed selector node now bps = record selector {
    speeds =
        update selector.speeds node
          (some (record_sample now bps (or_empty (selector.speeds node))));
  }

  pub observe_success : NodeSelector F B → ℕ → ℕ → ℕ → ℕ → NodeSelector F B
  observe_success selector node bytes elapsed now =
      let cleared : NodeSelector F B = record selector {
        failures = update selector.failures node none;
        recovered =
            if is_failing (selector.failures node)
            then update selector.recovered node (some (now + 30 * second))
            else selector.recovered;
      } in
      if ltb 0 bytes && ltb 0 elapsed
      then record_speed cleared node now
          (divide (of_nat bytes) (divide (of_nat elapsed) (of_nat second)))
      else cleared

  pub observe_failure : NodeSelector F B → ℕ → ℕ → NodeSelector F B
  observe_failure selector node now =
      let noted =
        record_speed (record selector { recovered = update selector.recovered node none }) node now
          (of_nat 0) in
      record noted {
        failures = update noted.failures node (some (fail_again now (noted.failures node)));
      }

  pub observe : NodeSelector F B → ℕ → ℕ → ℕ → Bool → ℕ → NodeSelector F B
  observe selector node bytes elapsed success now =
      if success
      then observe_success selector node bytes elapsed now
      else observe_failure selector node now

  abbrev pub measured_of : Option F → ℕ → F
  measured_of none speed_bps = of_nat speed_bps
  measured_of (some bps) speed_bps = bps

  abbrev pub estimate_of : ℕ → Option (List (SpeedSample F)) → Option F
  estimate_of now none = none
  estimate_of now (some samples) = (estimate now samples).1

  pub candidate_of : NodeSelector F B → ℕ → NodeView F → ScheduleCandidate F
  candidate_of selector now view = record {
    node = view.node;
    capacity_bps = measured_of (estimate_of now (selector.speeds view.node.id)) view.speed_bps;
    latency_ms = view.latency_ms;
    success_rate = view.success_rate;
    active = active_of selector.capacity view.node.id;
    max_concurrency = view.max_concurrency;
    measured = is_known (selector.speeds view.node.id) || ltb 0 view.speed_bps;
    recently_recovered = is_later (selector.recovered view.node.id) now;
  }

  abbrev pub refreshed : ℕ → Bool → Option (List (SpeedSample F)) → Option (List (SpeedSample F))
  refreshed now asked none = none
  refreshed now asked (some samples) = some (if asked then (estimate now samples).0 else samples)

  -- Asking for a node's speed prunes its window.
  pub order_with_context :
      (List (ScheduleCandidate F) → ScheduleContext → SchedulerPolicy → List Node)
      → NodeSelector F B
      → ℕ
      → List (NodeView F)
      → ScheduleContext
      → SchedulerPolicy
      → NodeSelector F B × List Node
  order_with_context algorithm selector now views context policy =
      let views' = offered selector now views in
      (
        record selector {
          speeds = λ id.
              refreshed now (any (λ (v : NodeView F). v.node.id == id) views') (selector.speeds id);
        },
        algorithm (map (candidate_of selector now) views') context policy,
      )
