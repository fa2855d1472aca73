-- ===== src/Schedule/Order.antt =====
-- Every order of src/scheduling.rs tries each candidate once: nothing is lost and nothing is added.
use Prim.Native.Nat.{Ordering}
use mathlib.Core.List.{Perm}
use mathlib.Core.List.Perm
use mathlib.Core.List.{perm_append_comm}
use donkey.Base.{
  ℕ, zero, suc, ◌%◌, ◌≡◌, inl, inr, not, ◌||◌, Option, none, some, List, [], ◌∷◌, ◌++◌, any, map,
  take, drop, length, get_elem?, take-append-drop, Bool-cases, Option-cases, ◌==◌, subst,
}
use donkey.Chunk.{SchedulerPolicy, balanced, speed_first}
use donkey.Schedule.{
  Floats, ScheduleContext, ScheduleCandidate, is_greater, insert_by, sort_by, promote, rotate_left,
  promote_exploration, max_explorable, order_current, current_order, projected_order, by_capacity,
  by_cost, rendezvous_winner, promote_found,
}

module _ {ℓ} {A : Type ℓ} where
  insert_by-perm :
      (cmp : A → A → Ordering) (a : A) (items : List A) → Perm (insert_by cmp a items) (a ∷ items)
  unfolding insert_by
  insert_by-perm cmp a [] = Perm.refl (a ∷ [])
  insert_by-perm cmp a (b ∷ items) = elim (Bool-cases (is_greater (cmp a b))) [
    | inl e ↦ rw e (Perm.trans (Perm.cons b (insert_by-perm cmp a items)) (Perm.swap a b items))
    | inr e ↦ rw e (Perm.refl (a ∷ b ∷ items))
  ]

  pub sort_by-perm : (cmp : A → A → Ordering) (items : List A) → Perm (sort_by cmp items) items
  unfolding sort_by
  sort_by-perm cmp [] = Perm.refl []
  sort_by-perm cmp (a ∷ items) =
      Perm.trans (insert_by-perm cmp a (sort_by cmp items)) (Perm.cons a (sort_by-perm cmp items))

  promote_some :
      (selected : ℕ) (items : List A) (a : A)
      → get_elem? items selected ≡ some a
      → Perm (a ∷ (take selected items ++ drop (suc selected) items)) items
  promote_some selected [] a e = cc
  promote_some zero (b ∷ items) a e =
      let same : b ≡ a = cc in
      subst (λ x. Perm (x ∷ items) (b ∷ items)) same (Perm.refl (b ∷ items))
  promote_some (suc selected) (b ∷ items) a e =
      Perm.trans (Perm.swap b a (take selected items ++ drop (suc selected) items))
        (Perm.cons b (promote_some selected items a e))

  pub promote-perm : (selected : ℕ) (items : List A) → Perm (promote selected items) items
  unfolding promote
  promote-perm selected items = elim (Option-cases (get_elem? items selected)) [
    | inl e ↦ rw e (Perm.refl items)
    | inr (a, e) ↦ rw e (promote_some selected items a e)
  ]

  rotate_left-perm : (offset : ℕ) (items : List A) → Perm (rotate_left offset items) items
  unfolding rotate_left
  rotate_left-perm offset items =
      subst (λ l. Perm (drop offset items ++ take offset items) l) (take-append-drop offset items)
        (perm_append_comm (drop offset items) (take offset items))

module _ {F : Type 0} (floats : Floats F) where
  found-perm :
      (found : Option (ℕ × F)) (candidates : List (ScheduleCandidate F))
      → Perm (promote_found floats found candidates) candidates
  found-perm none candidates = Perm.refl candidates
  found-perm (some (selected, unit)) candidates = promote-perm selected candidates

  promote_exploration-perm :
      (candidates : List (ScheduleCandidate F)) (sequence : ℕ)
      → Perm (promote_exploration floats candidates sequence) candidates
  unfolding promote_exploration
  promote_exploration-perm candidates sequence =
      elim (Bool-cases (
        not (sequence % 8 == 0)
        || not (any (λ (c : ScheduleCandidate F). c.measured) candidates))) [
          | inl e ↦ rw e (Perm.refl candidates)
          | inr e ↦ rw e (found-perm (max_explorable floats sequence none 0 candidates) candidates)
        ]

  order_current-perm :
      (candidates : List (ScheduleCandidate F)) (context : ScheduleContext)
      (policy : SchedulerPolicy)
      → Perm (order_current floats candidates context policy) candidates
  unfolding order_current
  order_current-perm candidates context balanced =
      let sorted = sort_by (by_capacity floats) candidates in
      elim (Bool-cases (any (λ (c : ScheduleCandidate F). c.measured) candidates)) [
        | inl e ↦ rw e (
            Perm.trans (promote-perm (rendezvous_winner floats context.sequence sorted) sorted)
              (sort_by-perm (by_capacity floats) candidates))
        | inr e ↦ rw e (rotate_left-perm (context.sequence % length candidates) candidates)
      ]
  order_current-perm candidates context speed_first = sort_by-perm (by_capacity floats) candidates

  -- Under every policy, and with the exploration of idle nodes, the order of the current algorithm
  -- holds each candidate's node exactly once.
  pub current_order-perm :
      (candidates : List (ScheduleCandidate F)) (context : ScheduleContext)
      (policy : SchedulerPolicy)
      → Perm
          (current_order floats candidates context policy)
          (map (λ (c : ScheduleCandidate F). c.node) candidates)
  unfolding current_order
  current_order-perm candidates context policy =
      Perm.map (λ (c : ScheduleCandidate F). c.node)
        (Perm.trans
          (promote_exploration-perm (order_current floats candidates context policy)
            context.sequence)
          (order_current-perm candidates context policy))

  -- So does the order by projected completion time.
  pub projected_order-perm :
      (candidates : List (ScheduleCandidate F)) (context : ScheduleContext)
      → Perm
          (projected_order floats candidates context)
          (map (λ (c : ScheduleCandidate F). c.node) candidates)
  unfolding projected_order
  projected_order-perm candidates context =
      Perm.map (λ (c : ScheduleCandidate F). c.node)
        (Perm.trans
          (promote_exploration-perm (sort_by (by_cost floats context) candidates) context.sequence)
          (sort_by-perm (by_cost floats context) candidates))
