-- ===== src/Schedule/Explore.antt =====
-- Which node src/scheduling.rs tries first: the exploration lane and the round of unmeasured nodes.

use donkey.Base.{
  or_true, and_left, and_right, ltb, some-inj, ◌&&◌, ◌≤◌, ◌⊎◌, ℕ, zero, suc, ◌+◌, ◌%◌, ◌≡◌, refl,
  ap, ◌∙◌, inl, inr, Bool, true, false, not, ◌||◌, Option, none, some, List, [], ◌∷◌, ◌++◌, any,
  take, drop, length, get_elem?, take-append-drop, arith, Bool-cases, ◌==◌, if◌then◌else◌, subst,
}
use donkey.Chunk.{balanced}
use donkey.Schedule.{
  Floats, ScheduleContext, ScheduleCandidate, promote, rotate_left, promote_exploration,
  max_explorable, is_explorable, keeps_best, order_current, current_order, rendezvous_unit,
}

module _ {ℓ} {A : Type ℓ} where
  any-append : (p : A → Bool) (xs ys : List A) → any p (xs ++ ys) ≡ (any p xs || any p ys)
  any-append p [] ys = refl
  any-append p (x ∷ xs) ys = ground (arith, any-append p xs ys)

  any-swap : (p : A → Bool) (n : ℕ) (xs : List A) → any p (drop n xs ++ take n xs) ≡ any p xs
  any-swap p n xs =
      let split = ap (any p) (take-append-drop n xs) in
      let a = any-append p (drop n xs) (take n xs) in
      let b = any-append p (take n xs) (drop n xs) in ground arith

  drop_at :
      (xs : List A) (k : ℕ) (x : A) → get_elem? xs k ≡ some x → drop k xs ≡ x ∷ drop (suc k) xs
  drop_at [] k x e = cc
  drop_at (y ∷ xs) zero x e = cc
  drop_at (y ∷ xs) (suc k) x e = drop_at xs k x e

module _ {ℓ} {A : Type ℓ} where
  any_at :
      (p : A → Bool) (xs : List A) (at : ℕ) (x : A)
      → get_elem? xs at ≡ some x
      → p x ≡ true
      → any p xs ≡ true
  any_at p [] at x e h = cc
  any_at p (y ∷ xs) zero x e h = let same : y ≡ x = some-inj e in rw (same, h) refl
  any_at p (y ∷ xs) (suc at) x e h = rw (any_at p xs at x e h) (or_true (p y))

module _ {F : Type 0} (floats : Floats F) where
  -- The index found belongs to a node to explore.
  abbrev Found : List (ScheduleCandidate F) → Option (ℕ × F) → Type 0
  Found candidates none = Unit {0}
  Found candidates (some (at, unit)) =
      (c : ScheduleCandidate F) × (get_elem? candidates at ≡ some c)
      × (is_explorable floats c ≡ true)

  next-Found :
      (sequence next : ℕ) (candidates : List (ScheduleCandidate F)) (best : Option (ℕ × F))
      (c : ScheduleCandidate F)
      → get_elem? candidates next ≡ some c
      → Found candidates best
      → Found candidates (
          if not (is_explorable floats c) || keeps_best floats sequence c best
          then best
          else some (next, rendezvous_unit floats sequence c))
  next-Found sequence next candidates best c here h =
      elim (Bool-cases (not (is_explorable floats c) || keeps_best floats sequence c best)) [
        | inl e ↦ rw e h
        | inr e ↦ rw e (c, here, ground arith)
      ]

  max_explorable-Found :
      (sequence : ℕ) (best : Option (ℕ × F)) (next : ℕ)
      (rest candidates : List (ScheduleCandidate F))
      → ((i : ℕ) → get_elem? candidates (next + i) ≡ get_elem? rest i)
      → Found candidates best
      → Found candidates (max_explorable floats sequence best next rest)
  unfolding max_explorable
  max_explorable-Found sequence best next [] candidates at h = h
  max_explorable-Found sequence best next (c ∷ rest) candidates at h =
      let here : get_elem? candidates next ≡ some c =
        ap (get_elem? candidates) (let e : next ≡ next + 0 = omega arith in e) ∙ at 0 in
      max_explorable-Found sequence
        (if not (is_explorable floats c) || keeps_best floats sequence c best
          then best
          else some (next, rendezvous_unit floats sequence c))
        (suc next) rest candidates
        (λ i.
          ap (get_elem? candidates) (let e : suc next + i ≡ next + suc i = omega arith in e)
          ∙ at (suc i))
        (next-Found sequence next candidates best c here h)

  abbrev is_some : Option (ℕ × F) → Bool
  is_some none = false
  is_some (some p) = true

  still :
      (sequence next : ℕ) (best : Option (ℕ × F)) (c : ScheduleCandidate F)
      (rest : List (ScheduleCandidate F))
      → (is_some best || (is_explorable floats c || any (is_explorable floats) rest)) ≡ true
      → (is_some (
            if not (is_explorable floats c) || keeps_best floats sequence c best
            then best
            else some (next, rendezvous_unit floats sequence c))
          || any (is_explorable floats) rest)
        ≡ true
  still sequence next none c rest h = ground arith
  still sequence next (some p) c rest h = ground arith

  max_explorable_found :
      (sequence : ℕ) (best : Option (ℕ × F)) (next : ℕ) (rest : List (ScheduleCandidate F))
      → (is_some best || any (is_explorable floats) rest) ≡ true
      → (p : ℕ × F) × (max_explorable floats sequence best next rest ≡ some p)
  unfolding max_explorable
  max_explorable_found sequence (some p) next [] h = (p, refl)
  max_explorable_found sequence none next [] h = cc
  max_explorable_found sequence best next (c ∷ rest) h =
      max_explorable_found sequence
        (if not (is_explorable floats c) || keeps_best floats sequence c best
          then best
          else some (next, rendezvous_unit floats sequence c))
        (suc next) rest (still sequence next best c rest h)

  -- A node without a request, with room for one, that was never measured or has just recovered.
  abbrev pub IsExplorable : ScheduleCandidate F → Type 0
  IsExplorable c =
      (c.active ≡ 0)
      × (1 ≤ c.max_concurrency)
      × ((c.measured ≡ false) ⊎ (c.recently_recovered ≡ true))

  explorable : (c : ScheduleCandidate F) → is_explorable floats c ≡ true → IsExplorable c
  unfolding is_explorable
  explorable c h =
      let unsure = not c.measured || c.recently_recovered in
      let free = (c.active == 0) && ltb 0 c.max_concurrency in
      let both = and_left free unsure h in
      let why = and_right free unsure h in
      let idle = and_left (c.active == 0) (ltb 0 c.max_concurrency) both in
      let room = and_right (c.active == 0) (ltb 0 c.max_concurrency) both in
      (
        ground arith,
        ground arith,
        elim (Bool-cases c.measured) [ inl e ↦ inr (rw e at why) | inr e ↦ inl e ],
      )

  is_explorable-IsExplorable :
      (c : ScheduleCandidate F) → IsExplorable c → is_explorable floats c ≡ true
  unfolding is_explorable
  is_explorable-IsExplorable c (idle, room, inl unknown) =
      let room_left : ltb 0 c.max_concurrency ≡ true = ground arith in
      rw (idle, room_left, unknown) refl
  is_explorable-IsExplorable c (idle, room, inr back) =
      let room_left : ltb 0 c.max_concurrency ≡ true = ground arith in
      rw (idle, room_left, back) (or_true (not c.measured))

  -- On every eighth ticket, once a node has been measured, a node comes first that has no request
  -- and room for one, and that was never measured or has just recovered, if there is one.
  pub promote_exploration_first :
      (candidates : List (ScheduleCandidate F)) (sequence at : ℕ) (idle : ScheduleCandidate F)
      → sequence % 8 ≡ 0
      → any (λ (c : ScheduleCandidate F). c.measured) candidates ≡ true
      → get_elem? candidates at ≡ some idle
      → IsExplorable idle
      → (c : ScheduleCandidate F) × (rest : List (ScheduleCandidate F)) × (promote_exploration
            floats candidates sequence
          ≡ c ∷ rest)
        × IsExplorable c
  unfolding promote_exploration promote
  promote_exploration_first candidates sequence at idle eighth known there can =
      let some_explorable =
        any_at (is_explorable floats) candidates at idle there
          (is_explorable-IsExplorable idle can) in
      let (p, found) = max_explorable_found sequence none 0 candidates some_explorable in
      let good =
        max_explorable-Found sequence none 0 candidates candidates
          (λ i. ap (get_elem? candidates) (omega arith)) tt in
      let (c, here, good_one) = subst (Found candidates) found good in
      let ticket : (sequence % 8 == 0) ≡ true = ground arith in
      (
        c,
        take p.0 candidates ++ drop (suc p.0) candidates,
        rw (ticket, known, found, here) refl,
        explorable c good_one,
      )

  -- While no node has been measured, the balanced policy goes round: the ticket's number, modulo
  -- the number of candidates, tells which comes first.
  pub current_order_round :
      (candidates : List (ScheduleCandidate F)) (context : ScheduleContext)
      (c : ScheduleCandidate F)
      → any (λ (x : ScheduleCandidate F). x.measured) candidates ≡ false
      → get_elem? candidates (context.sequence % length candidates) ≡ some c
      → get_elem? (current_order floats candidates context balanced) 0 ≡ some c.node
  unfolding current_order order_current promote_exploration rotate_left
  current_order_round candidates context c unknown here =
      let k = context.sequence % length candidates in
      let still_unknown =
        any-swap (λ (x : ScheduleCandidate F). x.measured) k candidates ∙ unknown in
      let lane : (not (context.sequence % 8 == 0)
            || not (
                any (λ (x : ScheduleCandidate F). x.measured)
                  (drop k candidates ++ take k candidates)))
          ≡ true =
        rw still_unknown (or_true (not (context.sequence % 8 == 0))) in
      rw (unknown, lane, drop_at candidates k c here) refl
