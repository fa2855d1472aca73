-- ===== src/Selection/Examples.antt =====
-- The theorems on the selection of nodes at concrete selectors, with whole numbers for floats.
use Prim.Native.Nat.{compare}
use mathlib.Core.List.{Perm}
use donkey.Base.{
  ℕ, ◌+◌, ◌*◌, ◌/◌, min, max, true, false, Option, none, some, List, [], ◌∷◌, map, any, keep, ltb,
  if◌then◌else◌,
}
use donkey.Capacity.{fresh_capacity}
use donkey.Chunk.{balanced}
use donkey.Schedule.{Floats, ScheduleContext, current_order}
use donkey.Selection.{SpeedSample, NodeView, NodeSelector, second, is_enabled, order_with_context}
use donkey.Selection.Candidates.{is_open, order_with_context-perm}

abbrev whole : Floats ℕ
whole = record {
  of_nat = λ n. n;
  plus = λ a b. a + b;
  times = λ a b. a * b;
  divide = λ a b. a / b;
  larger = λ a b. max a b;
  within = λ x lo hi. min (max x lo) hi;
  minus_ln = λ n. n;
  min_positive = 1;
  less = ltb;
  total_cmp = compare;
}

-- A backoff that doubles, up to ten seconds.
abbrev doubling : ℕ → Option ℕ × ℕ
doubling delay = (some delay, min (2 * delay) (10 * second))

abbrev first_delay : ℕ
first_delay = 250000000

-- Node 7 failed once.
abbrev selector_7 : NodeSelector ℕ ℕ
selector_7 = record {
  speeds = λ n. none;
  failures = λ n.
      if ltb 6 n
      then some (record { backoff = first_delay; cooldown_until = 5 * second })
      else none;
  recovered = λ n. none;
  capacity = fresh_capacity;
}

abbrev view_at : ℕ → NodeView ℕ
view_at id = record {
  node = record { id = id; url = id ∷ []; priority = 0 };
  enabled = true;
  route_enabled = true;
  latency_ms = 20;
  success_rate = 1;
  speed_bps = 0;
  max_concurrency = 4;
}

abbrev two_views : List (NodeView ℕ)
two_views = view_at 7 ∷ view_at 3 ∷ []

abbrev ticket_3 : ScheduleContext
ticket_3 = record { sequence = 3; blob_size = 5000; range_required = false; chunk = none }

abbrev old_sample : SpeedSample ℕ
old_sample = record { at = second; bps = 400 }

order_with_context-perm_example :
    Perm
      (order_with_context whole doubling first_delay
        (current_order whole)
        selector_7
        second
        two_views
        ticket_3
        balanced).1
      (map
        (λ (v : NodeView ℕ). v.node)
        (if any (is_open selector_7 second) two_views
          then keep (is_open selector_7 second) two_views
          else keep is_enabled two_views))
order_with_context-perm_example =
    order_with_context-perm whole doubling first_delay selector_7 second two_views ticket_3 balanced
