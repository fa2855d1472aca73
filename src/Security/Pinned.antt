-- ===== src/Security/Pinned.antt =====
-- The loop of src/security.rs over resolved addresses keeps every one of them, and adds none.
use donkey.Base.{
  ==_self, or_true, arith, Bool, true, not, ◌&&◌, List, [], ◌∷◌, any, snoc, ◌≡◌, refl, inl, inr, ok,
  ok-inj, passed_if, Bool-cases, All, All-snoc, subst,
}
use donkey.Error.{AppError}
use donkey.Security.{IpAddr, v4, v6, IpNet, same_ip, Config, is_non_public, collect_public}

same_ip_self : (ip : IpAddr) → same_ip ip ip ≡ true
same_ip_self (v4 a) = ==_self a
same_ip_self (v6 a) = ==_self a

abbrev pub HasIp : List IpAddr → IpAddr → Type 0
HasIp addresses ip = any (λ u. same_ip u ip) addresses ≡ true

-- Two lists have the same addresses, whatever their order and number.
abbrev pub SameAddresses : List IpAddr → List IpAddr → Type 0
SameAddresses xs ys = All (HasIp ys) xs × All (HasIp xs) ys

any-snoc_left :
    (p : IpAddr → Bool) (xs : List IpAddr) (x : IpAddr) → any p xs ≡ true → any p (snoc xs x) ≡ true
any-snoc_left p [] x h = cc
any-snoc_left p (y ∷ xs) x h = ground (arith, any-snoc_left p xs x)

any-snoc_last :
    (p : IpAddr → Bool) (xs : List IpAddr) (x : IpAddr) → p x ≡ true → any p (snoc xs x) ≡ true
any-snoc_last p [] x h = rw h refl
any-snoc_last p (y ∷ xs) x h = ground (arith, any-snoc_last p xs x)

All-HasIp-more : (x : IpAddr) (xs ys : List IpAddr) → All (HasIp ys) xs → All (HasIp (x ∷ ys)) xs
All-HasIp-more x [] ys h = tt
All-HasIp-more x (y ∷ xs) ys (here, h) = (rw here (or_true (same_ip x y)), All-HasIp-more x xs ys h)

All-HasIp_self : (xs : List IpAddr) → All (HasIp xs) xs
All-HasIp_self [] = tt
All-HasIp_self (x ∷ xs) = (rw (same_ip_self x) refl, All-HasIp-more x xs xs (All-HasIp_self xs))

module _ (contains : IpNet → IpAddr → Bool) where
  -- The loop keeps what it has.
  collect_public-keeps :
      (p : IpAddr → Bool) (refusal : AppError) (config : Config) (unique addresses : List IpAddr)
      {found : List IpAddr}
      → collect_public contains refusal config unique addresses ≡ ok found
      → any p unique ≡ true
      → any p found ≡ true
  unfolding collect_public
  collect_public-keeps p refusal config unique [] h k = subst (λ f. any p f ≡ true) (ok-inj h) k
  collect_public-keeps p refusal config unique (ip ∷ addresses) h k =
      let (_, rest) =
        passed_if (not config.allow_private_upstreams && is_non_public contains ip) refusal _ h in
      elim (Bool-cases (any (λ u. same_ip u ip) unique)) [
        | inl e ↦ collect_public-keeps p refusal config unique addresses (rw e at rest) k
        | inr e ↦
            collect_public-keeps p refusal config (snoc unique ip) addresses (rw e at rest)
              (any-snoc_left p unique ip k)
      ]

  -- It finds every address of the answer, and none besides.
  collect_public-All :
      (refusal : AppError) (config : Config) (unique addresses : List IpAddr) {found : List IpAddr}
      → collect_public contains refusal config unique addresses ≡ ok found
      → All (HasIp found) addresses
  unfolding collect_public
  collect_public-All refusal config unique [] h = tt
  collect_public-All refusal config unique (ip ∷ addresses) h =
      let (_, rest) =
        passed_if (not config.allow_private_upstreams && is_non_public contains ip) refusal _ h in
      elim (Bool-cases (any (λ u. same_ip u ip) unique)) [
        | inl e ↦ (
          collect_public-keeps (λ u. same_ip u ip) refusal config unique addresses (rw e at rest) e,
          collect_public-All refusal config unique addresses (rw e at rest),
        )
        | inr e ↦ (
          collect_public-keeps (λ u. same_ip u ip) refusal config (snoc unique ip) addresses
              (rw e at rest) (any-snoc_last (λ u. same_ip u ip) unique ip (same_ip_self ip)),
          collect_public-All refusal config (snoc unique ip) addresses (rw e at rest),
        )
      ]

  collect_public-only :
      (P : IpAddr → Type 0) (refusal : AppError) (config : Config) (unique addresses : List IpAddr)
      {found : List IpAddr}
      → collect_public contains refusal config unique addresses ≡ ok found
      → All P unique
      → All P addresses
      → All P found
  unfolding collect_public
  collect_public-only P refusal config unique [] h a b = subst (All P) (ok-inj h) a
  collect_public-only P refusal config unique (ip ∷ addresses) h a (here, b) =
      let (_, rest) =
        passed_if (not config.allow_private_upstreams && is_non_public contains ip) refusal _ h in
      elim (Bool-cases (any (λ u. same_ip u ip) unique)) [
        | inl e ↦ collect_public-only P refusal config unique addresses (rw e at rest) a b
        | inr e ↦
            collect_public-only P refusal config (snoc unique ip) addresses (rw e at rest)
              (All-snoc P unique ip here a) b
      ]

  pub collect_public-SameAddresses :
      (refusal : AppError) (config : Config) (answer : List IpAddr) {found : List IpAddr}
      → collect_public contains refusal config [] answer ≡ ok found
      → SameAddresses found answer
  collect_public-SameAddresses refusal config answer h = (
    collect_public-only (HasIp answer) refusal config [] answer h tt (All-HasIp_self answer),
    collect_public-All refusal config [] answer h,
  )
