-- ===== src/Security/Addresses.antt =====
-- The addresses that src/security.rs lets a client connect to.

use donkey.Base.{
  not-false, last, ◌∙◌, trim, without_last, or_left, or_right, any-snoc, ℕ, Bool, true, false, not,
  ◌&&◌, ◌||◌, Option, none, some, List, [], ◌∷◌, ◌++◌, any, snoc, ltb, ◌≡◌, refl, inl, inr, ok,
  ok_or, ok_parts, ok-inj, passed_guard, passed_if, Bool-cases, All, All-snoc, Text, codes,
  is_empty, subst, len, to_ascii_lowercase, ok_or-some,
}
use donkey.Error.{AppError, bad_request}
use donkey.Security.{
  target_addresses, IpAddr, IpNet, same_ip, Config, Url, ValidatedUpstream, is_non_public,
  collect_public, is_none_found, validate_url, normalized, is_allowed_scheme, has_password,
  ends_with_slash, resolve_connect_target, validate_connect_target_syntax,
}
use donkey.Security.Pinned.{SameAddresses, collect_public-SameAddresses}

last-snoc : (s : Text) (c : ℕ) → last (s ++ c ∷ []) ≡ some c
last-snoc [] c = refl
last-snoc (d ∷ s) c = rw (last-snoc s c) refl

last-append : (s : Text) → ends_with_slash (s ++ codes "/") ≡ true
last-append s = rw (last-snoc s 47) refl

normalized-base :
    (normalize_base : Bool) (url : Url)
    → normalize_base ≡ true
    → ((normalized normalize_base url).query ≡ none)
      × (ends_with_slash (normalized normalize_base url).path ≡ true)
normalized-base false url h = cc
normalized-base true url h = (
  refl,
  elim (Bool-cases (ends_with_slash url.path)) [
    | inl e ↦ rw e e
    | inr e ↦ rw e (last-append url.path)
  ],
)

normalized-parts :
    (normalize_base : Bool) (url : Url)
    → ((normalized normalize_base url).scheme ≡ url.scheme)
      × ((normalized normalize_base url).username ≡ url.username)
      × ((normalized normalize_base url).password ≡ url.password)
      × ((normalized normalize_base url).host_str ≡ url.host_str)
      × ((normalized normalize_base url).port_or_known_default ≡ url.port_or_known_default)
      × ((normalized normalize_base url).fragment ≡ none)
normalized-parts false url = (refl, refl, refl, refl, refl, refl)
normalized-parts true url = (refl, refl, refl, refl, refl, refl)

module _ (contains : IpNet → IpAddr → Bool) where
  -- Where private upstreams are not allowed, an address is public.
  abbrev pub IsPermitted : Config → IpAddr → Type 0
  IsPermitted config ip = (not config.allow_private_upstreams && is_non_public contains ip) ≡ false

  abbrev pub Apart : List IpAddr → Type 0
  Apart [] = Unit {0}
  Apart (ip ∷ addresses) = (any (λ u. same_ip ip u) addresses ≡ false) × Apart addresses

  Apart-snoc :
      (unique : List IpAddr) (ip : IpAddr)
      → any (λ u. same_ip u ip) unique ≡ false
      → Apart unique
      → Apart (snoc unique ip)
  Apart-snoc [] ip h a = (refl, tt)
  Apart-snoc (u ∷ unique) ip h (here, a) = (
    any-snoc (same_ip u) unique ip here (or_left (same_ip u ip) _ h),
    Apart-snoc unique ip (or_right (same_ip u ip) _ h) a,
  )

  abbrev pub Collected : Config → List IpAddr → Type 0
  Collected config addresses = Apart addresses × All (IsPermitted config) addresses

  collect_public-Collected :
      (refusal : AppError) (config : Config) (unique addresses : List IpAddr) {found : List IpAddr}
      → Collected config unique
      → collect_public contains refusal config unique addresses ≡ ok found
      → Collected config found × All (IsPermitted config) addresses
  unfolding collect_public
  collect_public-Collected refusal config unique [] c h =
      (subst (Collected config) (ok-inj h) c, tt)
  collect_public-Collected refusal config unique (ip ∷ addresses) (apart, permitted) h =
      let known = any (λ u. same_ip u ip) unique in
      let (public, rest) =
        passed_if (not config.allow_private_upstreams && is_non_public contains ip) refusal _ h in
      elim (Bool-cases known) [
        | inl e ↦
            let (found, all_of) =
              collect_public-Collected refusal config unique addresses (apart, permitted)
                (rw e at rest) in
            (found, (public, all_of))
        | inr e ↦
            let c' : Collected config (snoc unique ip) = (
              Apart-snoc unique ip e apart,
              All-snoc (IsPermitted config) unique ip public permitted,
            ) in
            let (found, all_of) =
              collect_public-Collected refusal config (snoc unique ip) addresses c'
                (rw e at rest) in
            (found, (public, all_of))
      ]

  -- What a client is pinned to: addresses of the answer, each once, and not a private one.
  abbrev pub IsPinned : Config → List IpAddr → Type 0
  IsPinned config addresses = Collected config addresses × (is_none_found addresses ≡ false)

  module _ (parse_ip : Text → Option IpAddr) (lookup_host : Text → ℕ → Option (List IpAddr)) where
    -- Where a connection override is accepted, the client is pinned to addresses that are
    -- permitted: at least one, none of them twice, and no private one unless private upstreams are
    -- allowed.
    pub resolve_connect_target-IsPinned :
        (raw target_type : Text) (port : ℕ) (config : Config) {found : List IpAddr}
        → resolve_connect_target contains parse_ip lookup_host raw target_type port config
          ≡ ok found
        → IsPinned config found
    unfolding resolve_connect_target
    resolve_connect_target-IsPinned raw target_type port config h =
        let (_, (_, h1)) = ok_parts _ (validate_connect_target_syntax parse_ip raw target_type) h in
        let (addresses, (_, h2)) =
          ok_parts _
            (target_addresses (parse_ip (trim raw))
              (lookup_host (to_ascii_lowercase (without_last 46 (trim raw))) port))
            h1 in
        let (unique, (collected, h3)) =
          ok_parts _
            (collect_public contains (bad_request "private connect_ip is disabled") config []
              addresses)
            h2 in
        let (some_found, e) =
          passed_guard (is_none_found unique) (bad_request "connect_ip DNS returned no addresses") _
            h3 in
        subst (IsPinned config) (ok-inj e) (
          (collect_public-Collected (bad_request "private connect_ip is disabled") config []
              addresses (tt, tt) collected).0,
          some_found,
        )

  module _ (lookup_host : Text → ℕ → Option (List IpAddr)) where
    -- What holds of an upstream that was validated.
    pub record IsSafe (config : Config) (normalize_base : Bool) (u : ValidatedUpstream)
        : Type 0 where
      pub pinned : IsPinned config u.addresses
      pub scheme : is_allowed_scheme config u.url.scheme ≡ true
      pub anonymous : (is_empty u.url.username ≡ true) × (has_password u.url.password ≡ false)
      pub no_fragment : u.url.fragment ≡ none
      pub base : normalize_base ≡ true → (u.url.query ≡ none) × (ends_with_slash u.url.path ≡ true)
      pub answered :
          (host : Text) × (port : ℕ) × (answer : List IpAddr) × (lookup_host
              (to_ascii_lowercase host)
              port
            ≡ some answer)
          × (u.url.host_str ≡ some host)
          × (u.url.port_or_known_default ≡ some port)
          × SameAddresses u.addresses answer
          × All (IsPermitted config) answer

    -- An upstream that is validated is safe, whatever the URL's parser and the resolver say: it has
    -- no credentials, it is HTTPS unless HTTP is allowed, and the client is pinned to just the
    -- addresses that its own host's name was resolved to for its own port, each once and at least
    -- one, of which none is private unless that is allowed. It has no fragment, and as a base it
    -- has no query, and its path ends with a slash.
    pub validate_url-IsSafe :
        (parse : Text → Option Url) (raw : Text) (config : Config) (normalize_base : Bool)
        {u : ValidatedUpstream}
        → validate_url contains lookup_host parse raw config normalize_base ≡ ok u
        → IsSafe config normalize_base u
    unfolding validate_url
    validate_url-IsSafe parse raw config normalize_base h =
        let (_, h1) =
          passed_guard (ltb 2048 (len raw)) (bad_request "upstream URL is too long") _ h in
        let (url, (_, h2)) =
          ok_parts _ (ok_or (parse raw) (bad_request "invalid upstream URL")) h1 in
        let (bare, h3) =
          passed_guard (not (is_empty url.username) || has_password url.password)
            (bad_request "credentials are not allowed in upstream URLs") _ h2 in
        let (secure, h4) =
          passed_guard (not (is_allowed_scheme config url.scheme))
            (bad_request "upstream must use HTTPS") _ h3 in
        let (host, (named, h5)) =
          ok_parts _ (ok_or url.host_str (bad_request "upstream URL has no host")) h4 in
        let (port, (port_is, h6)) =
          ok_parts _ (ok_or url.port_or_known_default (bad_request "upstream has no usable port"))
            h5 in
        let (answer, (answered, h7)) =
          ok_parts _
            (ok_or (lookup_host (to_ascii_lowercase host) port)
              (bad_request "upstream DNS lookup failed"))
            h6 in
        let refusal = bad_request "private or reserved upstream addresses are disabled" in
        let (addresses, (collected, h8)) =
          ok_parts _ (collect_public contains refusal config [] answer) h7 in
        let (found, e) =
          passed_guard (is_none_found addresses) (bad_request "upstream DNS returned no addresses")
            _ h8 in
        let (c, all_of) = collect_public-Collected refusal config [] answer (tt, tt) collected in
        let (scheme, username, password, host_str, same_port, fragment) =
          normalized-parts normalize_base url in
        subst (IsSafe config normalize_base) (ok-inj e) (record {
          pinned = (c, found);
          scheme = rw scheme (not-false _ secure);
          anonymous = (
            rw username (not-false _ (or_left (not (is_empty url.username)) _ bare)),
            rw password (or_right (not (is_empty url.username)) _ bare),
          );
          no_fragment = fragment;
          base = normalized-base normalize_base url;
          answered = (
            host,
            port,
            answer,
            ok_or-some _ _ answered,
            host_str ∙ ok_or-some _ _ named,
            same_port ∙ ok_or-some _ _ port_is,
            collect_public-SameAddresses contains refusal config answer collected,
            all_of,
          );
        })
