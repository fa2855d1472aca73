-- ===== src/Selection/Speed.antt =====
-- The window of speed samples in src/node_selection.rs.
use donkey.Base.{
  ℕ, zero, suc, ◌-◌, ◌≤◌, ◌≡◌, refl, inl, inr, List, [], ◌∷◌, All, snoc, drop, length, length-drop,
  ltb, arith, Bool-cases,
}
use donkey.Selection.{SpeedSample, speed_window, max_speed_samples, prune, record_sample}

module _ {F : Type 0} where
  -- Samples in the order of their times, the last of them by `now`.
  abbrev pub Ascending : ℕ → List (SpeedSample F) → Type 0
  Ascending now [] = Unit {0}
  Ascending now (s ∷ samples) =
      (s.at ≤ now) × All (λ (t : SpeedSample F). s.at ≤ t.at) samples × Ascending now samples

  abbrev pub Recent : ℕ → List (SpeedSample F) → Type 0
  Recent now = All (λ (s : SpeedSample F). now - s.at ≤ speed_window)

  Recent-later :
      (now at : ℕ) (samples : List (SpeedSample F))
      → now - at ≤ speed_window
      → All (λ (t : SpeedSample F). at ≤ t.at) samples
      → Recent now samples
  Recent-later now at [] h a = tt
  Recent-later now at (s ∷ samples) h (le, a) = (omega arith, Recent-later now at samples h a)

  prune-Recent :
      (now : ℕ) (samples : List (SpeedSample F))
      → Ascending now samples
      → Recent now (prune now samples)
  unfolding prune
  prune-Recent now [] a = tt
  prune-Recent now (s ∷ samples) (_, above, a) = elim (Bool-cases (ltb speed_window (now - s.at))) [
    | inl old ↦ rw old (prune-Recent now samples a)
    | inr fresh ↦ rw fresh (ground arith, Recent-later now s.at samples (ground arith) above)
  ]

  Recent-drop :
      (now n : ℕ) (samples : List (SpeedSample F))
      → Recent now samples
      → Recent now (drop n samples)
  Recent-drop now zero samples r = r
  Recent-drop now (suc n) [] r = r
  Recent-drop now (suc n) (s ∷ samples) (_, r) = Recent-drop now n samples r

  All-snoc-at :
      (low : ℕ) (samples : List (SpeedSample F)) (new : SpeedSample F)
      → low ≤ new.at
      → All (λ (t : SpeedSample F). low ≤ t.at) samples
      → All (λ (t : SpeedSample F). low ≤ t.at) (snoc samples new)
  All-snoc-at low [] new h a = (h, tt)
  All-snoc-at low (s ∷ samples) new h (le, a) = (le, All-snoc-at low samples new h a)

  Ascending-snoc :
      (now : ℕ) (samples : List (SpeedSample F)) (new : SpeedSample F)
      → new.at ≡ now
      → Ascending now samples
      → Ascending now (snoc samples new)
  Ascending-snoc now [] new e a = (omega arith, tt, tt)
  Ascending-snoc now (s ∷ samples) new e (le, above, a) =
      (le, All-snoc-at s.at samples new (omega arith) above, Ascending-snoc now samples new e a)

  -- A window that was recorded in order of time holds, after one more sample, at most eight of
  -- them, and none that is older than a minute.
  pub record_sample_bounds :
      (now : ℕ) (bps : F) (samples : List (SpeedSample F))
      → Ascending now samples
      → (length (record_sample now bps samples) ≤ max_speed_samples)
        × Recent now (record_sample now bps samples)
  unfolding record_sample
  record_sample_bounds now bps samples a =
      let new : SpeedSample F = record { at = now; bps = bps } in
      let pruned = prune now (snoc samples new) in
      let n = length-drop (length pruned - max_speed_samples) pruned in
      (
        omega arith,
        Recent-drop now (length pruned - max_speed_samples) pruned
            (prune-Recent now (snoc samples new) (Ascending-snoc now samples new refl a)),
      )
