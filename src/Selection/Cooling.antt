-- ===== src/Selection/Cooling.antt =====
-- When a node of src/node_selection.rs cools down, and when it is done.
use donkey.Base.{
  ℕ, ◌+◌, ◌*◌, ◌≡◌, Bool, true, false, Option, none, some, ltb, arith, ◌==◌, if◌then◌else◌,
}
use donkey.Schedule.{Floats}
use donkey.Selection.{
  NodeSelector, second, record_speed, observe, observe_success, observe_failure, fail_again,
  delay_of, backoff_of, is_cooling, is_failing,
}

module _ {F B : Type 0} (floats : Floats F) (next_backoff : B → Option ℕ × B) (fresh_backoff : B)
    (selector : NodeSelector F B) (node bytes elapsed now : ℕ) where
  abbrev pub observed : Bool → NodeSelector F B
  observed success =
      observe floats next_backoff fresh_backoff selector node bytes elapsed success now

  -- After a failure a node cools down for exactly the delay of its backoff, ten seconds if that
  -- gives none, and it is not held for recovered.
  pub observe-failure_cools :
      (later : ℕ)
      → (is_cooling (observed false) node later
          ≡ ltb later (
              now
              + delay_of
                  (next_backoff
                    (backoff_of floats next_backoff fresh_backoff (selector.failures node))).0))
        × ((observed false).recovered node ≡ none)
  unfolding observe observe_failure record_speed is_cooling fail_again
  observe-failure_cools later = (ground arith, ground arith)

  -- After a success a node does not cool down, and if it was failing before it counts as recovered
  -- for thirty seconds.
  pub observe-success_clears :
      (later : ℕ)
      → (is_cooling (observed true) node later ≡ false)
        × ((observed true).recovered node ≡ (
            if is_failing (selector.failures node)
            then some (now + 30 * second)
            else selector.recovered node))
  unfolding observe observe_success record_speed is_cooling
  observe-success_clears later = (ground arith, ground arith)

  -- What is observed of one node leaves the windows, the cooling and the recovery of every other
  -- node as they are, and so the leases.
  pub observe-other :
      (success : Bool) (other : ℕ)
      → (node == other) ≡ false
      → ((observed success).speeds other ≡ selector.speeds other)
        × ((observed success).failures other ≡ selector.failures other)
        × ((observed success).recovered other ≡ selector.recovered other)
        × ((observed success).capacity ≡ selector.capacity)
  unfolding observe observe_success observe_failure record_speed
  observe-other true other ne = (ground arith, ground arith, ground arith, ground arith)
  observe-other false other ne = (ground arith, ground arith, ground arith, ground arith)
