-- ===== src/Security/Networks.antt =====
-- The denied networks of src/security.rs as ranges of addresses.
use donkey.Base.{
  or_assoc, ℕ, ◌+◌, ◌-◌, ◌*◌, ◌/◌, ◌^◌, ◌<◌, Bool, true, false, ◌||◌, some, List, [], ◌∷◌, ◌++◌,
  any, ◌==◌, ◌≡◌, refl, ◌∙◌, arith, is_within,
}
use donkey.Security.{
  IpAddr, v4, v6, IpNet, net4, net6, quad, denied_v4, denied_v6, to_ipv4_mapped, is_denied,
  is_non_public,
}

-- `IpNet::contains`, as the crate documents it: an address of the network's own version that agrees
-- with it in the bits of the prefix.
pub record IsContains (contains : IpNet → IpAddr → Bool) : Type 0 where
  pub v4_in_net4 : (a p x : ℕ) → contains (net4 a p) (v4 x) ≡ (x / 2 ^ (32 - p) == a / 2 ^ (32 - p))
  pub v6_in_net6 :
      (a p x : ℕ) → contains (net6 a p) (v6 x) ≡ (x / 2 ^ (128 - p) == a / 2 ^ (128 - p))
  pub v6_in_net4 : (a p x : ℕ) → contains (net4 a p) (v6 x) ≡ false
  pub v4_in_net6 : (a p x : ℕ) → contains (net6 a p) (v4 x) ≡ false

-- The special ranges of IPv4, first and last address: this network, private use, shared address
-- space, loopback, link local (with the metadata service of clouds), private use, protocol
-- assignments, documentation, private use, benchmarking, documentation twice, multicast, reserved.
abbrev pub special_ranges : List (ℕ × ℕ)
special_ranges =
    (quad 0 0 0 0, quad 0 255 255 255)
    ∷ (quad 10 0 0 0, quad 10 255 255 255)
    ∷ (quad 100 64 0 0, quad 100 127 255 255)
    ∷ (quad 127 0 0 0, quad 127 255 255 255)
    ∷ (quad 169 254 0 0, quad 169 254 255 255)
    ∷ (quad 172 16 0 0, quad 172 31 255 255)
    ∷ (quad 192 0 0 0, quad 192 0 0 255)
    ∷ (quad 192 0 2 0, quad 192 0 2 255)
    ∷ (quad 192 168 0 0, quad 192 168 255 255)
    ∷ (quad 198 18 0 0, quad 198 19 255 255)
    ∷ (quad 198 51 100 0, quad 198 51 100 255)
    ∷ (quad 203 0 113 0, quad 203 0 113 255)
    ∷ (quad 224 0 0 0, quad 239 255 255 255)
    ∷ (quad 240 0 0 0, quad 255 255 255 255)
    ∷ []

abbrev pub is_special : ℕ → Bool
is_special x = any (λ (r : ℕ × ℕ). is_within r.0 r.1 x) special_ranges

or_cong : {a b c d : Bool} → a ≡ b → c ≡ d → (a || c) ≡ (b || d)
or_cong e f = rw (e, f) refl

or_false : (b : Bool) → (b || false) ≡ b
or_false true = refl
or_false false = refl

any-append {ℓ} :
    {A : Type ℓ} (p : A → Bool) (xs ys : List A) → any p (xs ++ ys) ≡ (any p xs || any p ys)
any-append p [] ys = refl
any-append p (x ∷ xs) ys = rw (any-append p xs ys) (or_assoc (p x) (any p xs) (any p ys))

module _ (contains : IpNet → IpAddr → Bool) (c : IsContains contains) where
  in_range :
      (a p x lo hi : ℕ)
      → (x / 2 ^ (32 - p) == a / 2 ^ (32 - p)) ≡ is_within lo hi x
      → contains (net4 a p) (v4 x) ≡ is_within lo hi x
  in_range a p x lo hi e = c.v4_in_net4 a p x ∙ e

  denied_ranges : (x : ℕ) → any (λ network. contains network (v4 x)) denied_v4 ≡ is_special x
  denied_ranges x =
      (or_cong (in_range (quad 0 0 0 0) 8 x (quad 0 0 0 0) (quad 0 255 255 255) (ground arith)) (
        or_cong (in_range (quad 10 0 0 0) 8 x (quad 10 0 0 0) (quad 10 255 255 255) (ground arith))
          (or_cong
            (in_range (quad 100 64 0 0) 10 x (quad 100 64 0 0) (quad 100 127 255 255)
              (ground arith))
            (or_cong
              (in_range (quad 127 0 0 0) 8 x (quad 127 0 0 0) (quad 127 255 255 255) (ground arith))
              (or_cong
                (in_range (quad 169 254 0 0) 16 x (quad 169 254 0 0) (quad 169 254 255 255)
                  (ground arith))
                (or_cong
                  (in_range (quad 172 16 0 0) 12 x (quad 172 16 0 0) (quad 172 31 255 255)
                    (ground arith))
                  (or_cong
                    (in_range (quad 192 0 0 0) 24 x (quad 192 0 0 0) (quad 192 0 0 255)
                      (ground arith))
                    (or_cong
                      (in_range (quad 192 0 2 0) 24 x (quad 192 0 2 0) (quad 192 0 2 255)
                        (ground arith))
                      (or_cong
                        (in_range (quad 192 168 0 0) 16 x (quad 192 168 0 0) (quad 192 168 255 255)
                          (ground arith))
                        (or_cong
                          (in_range (quad 198 18 0 0) 15 x (quad 198 18 0 0) (quad 198 19 255 255)
                            (ground arith))
                          (or_cong
                            (in_range (quad 198 51 100 0) 24 x (quad 198 51 100 0)
                              (quad 198 51 100 255) (ground arith))
                            (or_cong
                              (in_range (quad 203 0 113 0) 24 x (quad 203 0 113 0)
                                (quad 203 0 113 255) (ground arith))
                              (or_cong
                                (in_range (quad 224 0 0 0) 4 x (quad 224 0 0 0)
                                  (quad 239 255 255 255) (ground arith))
                                (or_cong
                                  (in_range (quad 240 0 0 0) 4 x (quad 240 0 0 0)
                                    (quad 255 255 255 255) (ground arith))
                                  refl))))))))))))))

  no_v6_network : (x : ℕ) → any (λ network. contains network (v4 x)) denied_v6 ≡ false
  no_v6_network x = simp c.v4_in_net6

  is_denied-v4 : (x : ℕ) → is_denied contains (v4 x) ≡ is_special x
  unfolding is_denied
  is_denied-v4 x =
      any-append (λ network. contains network (v4 x)) denied_v4 denied_v6
      ∙ or_cong (denied_ranges x) (no_v6_network x)
      ∙ or_false (is_special x)

  -- The IPv4 addresses that count as private are exactly those of the special ranges, and an
  -- address that IPv6 maps to one of IPv4 (::ffff:a.b.c.d) counts as that one does: it is no way
  -- round.
  pub is_non_public-v4 :
      (x : ℕ)
      → x < 2 ^ 32
      → (is_non_public contains (v4 x) ≡ is_special x)
        × (is_non_public contains (v6 (0xffff * 2 ^ 32 + x)) ≡ is_special x)
  unfolding is_non_public
  is_non_public-v4 x small =
      let mapped : to_ipv4_mapped (v6 (0xffff * 2 ^ 32 + x)) ≡ some x = ground arith in
      (is_denied-v4 x, rw (mapped, is_non_public) (is_denied-v4 x))
