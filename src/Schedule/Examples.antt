-- ===== src/Schedule/Examples.antt =====
-- The theorems on orders at concrete candidates, with whole numbers for floats.
use Prim.Native.Nat.{compare}
use mathlib.Core.List.{Perm}
use donkey.Base.{
  ltb, inl, arith, ℕ, ◌+◌, ◌*◌, ◌/◌, min, max, ◌≡◌, refl, Bool, true, false, none, List, [], ◌∷◌,
  map,
}
use donkey.Chunk.{balanced}
use donkey.Schedule.{Floats, ScheduleContext, ScheduleCandidate, promote_exploration, current_order}
use donkey.Schedule.Order.{current_order-perm}
use donkey.Schedule.Explore.{promote_exploration_first, IsExplorable}

abbrev whole : Floats ℕ
whole = record {
  of_nat = λ n. n;
  plus = λ a b. a + b;
  times = λ a b. a * b;
  divide = λ a b. a / b;
  larger = λ a b. max a b;
  within = λ x lo hi. min (max x lo) hi;
  minus_ln = λ n. n;
  min_positive = 1;
  less = ltb;
  total_cmp = compare;
}

abbrev candidate_at : ℕ → Bool → ScheduleCandidate ℕ
candidate_at id measured = record {
  node = record { id = id; url = id ∷ []; priority = 0 };
  capacity_bps = 1000000 * id;
  latency_ms = 20;
  success_rate = 1;
  active = 0;
  max_concurrency = 4;
  measured = measured;
  recently_recovered = false;
}

abbrev three : Bool → List (ScheduleCandidate ℕ)
three measured = candidate_at 1 measured ∷ candidate_at 2 false ∷ candidate_at 3 measured ∷ []

abbrev ticket : ℕ → ScheduleContext
ticket sequence = record {
  sequence = sequence;
  blob_size = 5000;
  range_required = false;
  chunk = none;
}

current_order-perm_example :
    Perm
      (current_order whole (three true) (ticket 16) balanced)
      (map (λ (c : ScheduleCandidate ℕ). c.node) (three true))
current_order-perm_example = current_order-perm whole (three true) (ticket 16) balanced

promote_exploration_first_example :
    (c : ScheduleCandidate ℕ) × (rest : List (ScheduleCandidate ℕ)) × (promote_exploration whole
        (three true)
        16
      ≡ c ∷ rest)
    × IsExplorable whole c
promote_exploration_first_example =
    promote_exploration_first whole (three true) 16 1 (candidate_at 2 false) refl refl refl
      (refl, omega arith, inl refl)
