-- ===== src/Selection/Candidates.antt =====
-- Which nodes `order_with_context` of src/node_selection.rs puts in order.
use mathlib.Core.List.{Perm}
use donkey.Base.{
  ℕ, ◌≡◌, refl, ap, ◌∙◌, inl, inr, Bool, true, false, ◌&&◌, Option, List, [], ◌∷◌, any, keep, map,
  arith, Bool-cases, if◌then◌else◌, subst,
}
use donkey.Chunk.{SchedulerPolicy}
use donkey.Schedule.{Floats, ScheduleContext, ScheduleCandidate, current_order}
use donkey.Schedule.Order.{current_order-perm}
use donkey.Selection.{
  NodeView, NodeSelector, is_enabled, is_ready, offered, or_all, candidate_of, order_with_context,
}

module _ {F : Type 0} where
  none_open :
      (p : NodeView F → Bool) (views : List (NodeView F)) → any p views ≡ false → keep p views ≡ []
  none_open p [] h = refl
  none_open p (v ∷ views) h = ground (arith, none_open p views)

  some_open :
      (p : NodeView F → Bool) (views other : List (NodeView F))
      → any p views ≡ true
      → or_all (keep p views) other ≡ keep p views
  some_open p [] other h = cc
  some_open p (v ∷ views) other h = elim (Bool-cases (p v)) [
    | inl e ↦ rw e refl
    | inr e ↦ rw e (some_open p views other (rw e at h))
  ]

module _ {F B : Type 0} where
  -- An enabled node that does not cool down.
  abbrev pub is_open : NodeSelector F B → ℕ → NodeView F → Bool
  is_open selector now view = is_enabled view && is_ready selector now view

  -- The nodes to offer: the open ones, or all that are enabled if none is open.
  abbrev pub to_offer : NodeSelector F B → ℕ → List (NodeView F) → List (NodeView F)
  to_offer selector now views =
      if any (is_open selector now) views
      then keep (is_open selector now) views
      else keep is_enabled views

  keep_both :
      (selector : NodeSelector F B) (now : ℕ) (views : List (NodeView F))
      → keep (is_ready selector now) (keep is_enabled views) ≡ keep (is_open selector now) views
  keep_both selector now [] = refl
  keep_both selector now (v ∷ views) = ground (arith, keep_both selector now views)

  offered_lem :
      (selector : NodeSelector F B) (now : ℕ) (views : List (NodeView F))
      → offered selector now views ≡ to_offer selector now views
  unfolding offered
  offered_lem selector now views =
      rw (keep_both selector now views) (elim (Bool-cases (any (is_open selector now) views)) [
        | inl e ↦ rw e (some_open (is_open selector now) views (keep is_enabled views) e)
        | inr e ↦ rw (e, none_open (is_open selector now) views e) refl
      ])

module _ {F B : Type 0} (floats : Floats F) (next_backoff : B → Option ℕ × B)
    (fresh_backoff : B) where
  candidates_nodes :
      (selector : NodeSelector F B) (now : ℕ) (views : List (NodeView F))
      → map
          (λ (c : ScheduleCandidate F). c.node)
          (map (candidate_of floats next_backoff fresh_backoff selector now) views)
        ≡ map (λ (v : NodeView F). v.node) views
  unfolding candidate_of
  candidates_nodes selector now [] = refl
  candidates_nodes selector now (v ∷ views) =
      ap (λ more. v.node ∷ more) (candidates_nodes selector now views)

  -- With the current algorithm, the order holds every enabled node that does not cool down exactly
  -- once, and nothing else; where all enabled nodes cool down, it holds all of them.
  pub order_with_context-perm :
      (selector : NodeSelector F B) (now : ℕ) (views : List (NodeView F))
      (context : ScheduleContext) (policy : SchedulerPolicy)
      → Perm
          (order_with_context floats next_backoff fresh_backoff
            (current_order floats)
            selector
            now
            views
            context
            policy).1
          (map
            (λ (v : NodeView F). v.node)
            (if any (is_open selector now) views
              then keep (is_open selector now) views
              else keep is_enabled views))
  unfolding order_with_context
  order_with_context-perm selector now views context policy =
      let candidates =
        map (candidate_of floats next_backoff fresh_backoff selector now)
          (offered selector now views) in
      let names = candidates_nodes selector now (offered selector now views) in
      let same = ap (map (λ (v : NodeView F). v.node)) (offered_lem selector now views) in
      subst (λ l. Perm (current_order floats candidates context policy) l) (names ∙ same)
        (current_order-perm floats candidates context policy)
