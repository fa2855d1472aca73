-- ===== src/Security.antt =====
-- Which upstreams may be contacted: src/security.rs.
--
-- An address is its number, and a network its first address and the length of its prefix.
-- Membership in a network is the ipnet crate's, URLs are parsed by the url crate, and names are
-- resolved by the system: these are parameters. Texts are code points.
pub mod Networks
pub mod Pinned
pub mod Addresses
pub mod Targets
mod Examples
use mathlib.Core.Option
use donkey.Base.{
  ℕ, ◌+◌, ◌*◌, ◌/◌, ◌%◌, ◌^◌, Bool, true, false, not, ◌&&◌, ◌||◌, Option, none, some, List, [], ◌∷◌,
  ◌++◌, any, all, snoc, ltb, leb, ◌==◌, if◌then◌else◌, Result, ok, err, refuse_if, ok_or, ◌>>=◌,
  ◌>>◌, Text, codes, same_codes, is_empty, is_whitespace, is_ascii_alphanumeric, len, trim, first,
  last, is_some_and, split, without_last, to_ascii_lowercase,
}
use donkey.Error.{AppError, ApiResult, bad_request}

pub data IpAddr : Type 0 where
  v4 : ℕ → IpAddr
  v6 : ℕ → IpAddr

pub data IpNet : Type 0 where
  net4 : ℕ → ℕ → IpNet
  net6 : ℕ → ℕ → IpNet

abbrev pub same_ip : IpAddr → IpAddr → Bool
same_ip (v4 a) (v4 b) = a == b
same_ip (v6 a) (v6 b) = a == b
same_ip _ _ = false

-- a.b.c.d
abbrev pub quad : ℕ → ℕ → ℕ → ℕ → ℕ
quad a b c d = ((a * 256 + b) * 256 + c) * 256 + d

-- The first segments of an IPv6 address, the other five being 0.
abbrev pub segments : ℕ → ℕ → ℕ → ℕ
segments a b c = ((a * 65536 + b) * 65536 + c) * 2 ^ 80

abbrev pub denied_v4 : List IpNet
denied_v4 =
    net4 (quad 0 0 0 0) 8
    ∷ net4 (quad 10 0 0 0) 8
    ∷ net4 (quad 100 64 0 0) 10
    ∷ net4 (quad 127 0 0 0) 8
    ∷ net4 (quad 169 254 0 0) 16
    ∷ net4 (quad 172 16 0 0) 12
    ∷ net4 (quad 192 0 0 0) 24
    ∷ net4 (quad 192 0 2 0) 24
    ∷ net4 (quad 192 168 0 0) 16
    ∷ net4 (quad 198 18 0 0) 15
    ∷ net4 (quad 198 51 100 0) 24
    ∷ net4 (quad 203 0 113 0) 24
    ∷ net4 (quad 224 0 0 0) 4
    ∷ net4 (quad 240 0 0 0) 4
    ∷ []

abbrev pub denied_v6 : List IpNet
denied_v6 =
    net6 0 128
    ∷ net6 1 128
    ∷ net6 (segments 0x64 0xff9b 1) 48
    ∷ net6 (segments 0x100 0 0) 64
    ∷ net6 (segments 0x2001 0 0) 23
    ∷ net6 (segments 0x2001 0xdb8 0) 32
    ∷ net6 (segments 0x2002 0 0) 16
    ∷ net6 (segments 0xfc00 0 0) 7
    ∷ net6 (segments 0xfe80 0 0) 10
    ∷ net6 (segments 0xff00 0 0) 8
    ∷ []

abbrev pub denied_networks : List IpNet
denied_networks = denied_v4 ++ denied_v6

-- `Ipv6Addr::to_ipv4_mapped`: ::ffff:a.b.c.d.
abbrev pub to_ipv4_mapped : IpAddr → Option ℕ
to_ipv4_mapped (v4 a) = none
to_ipv4_mapped (v6 a) = if a / 2 ^ 32 == 0xffff then some (a % 2 ^ 32) else none

-- The fields of `Config` that are read here.
pub record Config : Type 0 where
  pub allow_private_upstreams : Bool
  pub allow_insecure_upstreams : Bool

-- `Url`, by the parts that are read or set.
pub record Url : Type 0 where
  pub scheme : Text
  pub username : Text
  pub password : Option Text
  pub host_str : Option Text
  pub port_or_known_default : Option ℕ
  pub path : Text
  pub query : Option Text
  pub fragment : Option Text

pub record ValidatedUpstream : Type 0 where
  pub url : Url
  pub addresses : List IpAddr

abbrev pub bad_target : AppError
bad_target = bad_request "connect_ip must be an IP address or hostname"

abbrev pub wrong_type : AppError
wrong_type = bad_request "connect_ip_type does not match target"

-- `[…].contains` of one character: / : @ [ ] ? # %
abbrev pub is_delimiter : ℕ → Bool
is_delimiter c =
    c == 47 || c == 58 || c == 64 || c == 91 || c == 93 || c == 63 || c == 35 || c == 37

abbrev pub is_hyphen : ℕ → Bool
is_hyphen c = c == 45

abbrev pub is_host_char : ℕ → Bool
is_host_char c = is_ascii_alphanumeric c || is_hyphen c

abbrev pub is_bad_label : Text → Bool
is_bad_label label =
    is_empty label
    || ltb 63 (len label)
    || is_some_and is_hyphen (first label)
    || is_some_and is_hyphen (last label)
    || not (all is_host_char label)

-- Of a host, without the dot that it may end with.
abbrev pub is_bad_host : Text → Bool
is_bad_host host = is_empty host || any is_delimiter host || any is_bad_label (split 46 host)

abbrev pub is_none_found : List IpAddr → Bool
is_none_found [] = true
is_none_found (ip ∷ addresses) = false

abbrev pub ends_with_slash : Text → Bool
ends_with_slash path = is_some_and (λ c. c == 47) (last path)

-- The base of an upstream has no query, and its path ends with a slash.
abbrev pub normalized : Bool → Url → Url
normalized false url = record url { fragment = none }
normalized true url = record url {
  fragment = none;
  query = none;
  path = if ends_with_slash url.path then url.path else url.path ++ codes "/";
}

abbrev pub is_allowed_scheme : Config → Text → Bool
is_allowed_scheme config scheme =
    same_codes scheme (codes "https")
    || (same_codes scheme (codes "http") && config.allow_insecure_upstreams)

abbrev pub has_password : Option Text → Bool
has_password none = false
has_password (some password) = true

-- `parse_ip` is the standard library's parser of addresses.
module _ (parse_ip : Text → Option IpAddr) where
  unfoldable pub validate_connect_target_syntax : Text → Text → ApiResult (Unit {0})
  validate_connect_target_syntax raw target_type =
      let value = trim raw in
      do
        refuse_if (is_empty value || ltb 253 (len value) || any is_whitespace value) bad_target
        elim (parse_ip value) [
          | some ip ↦ refuse_if (not (same_codes target_type (codes "ip"))) wrong_type
          | none ↦ do
            refuse_if (not (same_codes target_type (codes "domain"))) wrong_type
            refuse_if (is_bad_host (without_last 46 value)) bad_target
        ]

-- An address itself, or the answer to the name.
abbrev pub target_addresses : Option IpAddr → Option (List IpAddr) → ApiResult (List IpAddr)
target_addresses (some ip) answer = ok (ip ∷ [])
target_addresses none answer = ok_or answer (bad_request "connect_ip DNS lookup failed")

module _ (contains : IpNet → IpAddr → Bool) where
  unfoldable pub is_denied : IpAddr → Bool
  is_denied ip = any (λ network. contains network ip) denied_networks

  unfoldable pub is_non_public : IpAddr → Bool
  is_non_public ip = elim (to_ipv4_mapped ip) [
    | none ↦ is_denied ip
    | some mapped ↦ is_denied (v4 mapped)
  ]

  -- The loop over the resolved addresses: one that is private refuses them all.
  unfoldable pub collect_public :
      AppError → Config → List IpAddr → List IpAddr → ApiResult (List IpAddr)
  collect_public refusal config unique [] = ok unique
  collect_public refusal config unique (ip ∷ addresses) =
      let known = any (λ u. same_ip u ip) unique in
      let rest =
        collect_public refusal config (if known then unique else snoc unique ip) addresses in
      if not config.allow_private_upstreams && is_non_public ip then err refusal else rest

  module _ (parse_ip : Text → Option IpAddr) (lookup_host : Text → ℕ → Option (List IpAddr)) where
    unfoldable pub resolve_connect_target : Text → Text → ℕ → Config → ApiResult (List IpAddr)
    resolve_connect_target raw target_type port config = do
      validate_connect_target_syntax parse_ip raw target_type
      let value = trim raw
      addresses ←
          target_addresses (parse_ip value)
            (lookup_host (to_ascii_lowercase (without_last 46 value)) port)
      unique ← collect_public (bad_request "private connect_ip is disabled") config [] addresses
      refuse_if (is_none_found unique) (bad_request "connect_ip DNS returned no addresses")
      ok unique

  module _ (lookup_host : Text → ℕ → Option (List IpAddr)) where
    unfoldable pub validate_url :
        (Text → Option Url) → Text → Config → Bool → ApiResult ValidatedUpstream
    validate_url parse raw config normalize_base = do
      refuse_if (ltb 2048 (len raw)) (bad_request "upstream URL is too long")
      url ← ok_or (parse raw) (bad_request "invalid upstream URL")
      refuse_if (not (is_empty url.username) || has_password url.password)
          (bad_request "credentials are not allowed in upstream URLs")
      refuse_if (not (is_allowed_scheme config url.scheme)) (bad_request "upstream must use HTTPS")
      host ← ok_or url.host_str (bad_request "upstream URL has no host")
      port ← ok_or url.port_or_known_default (bad_request "upstream has no usable port")
      answer ←
          ok_or (lookup_host (to_ascii_lowercase host) port)
            (bad_request "upstream DNS lookup failed")
      addresses ←
          collect_public (bad_request "private or reserved upstream addresses are disabled") config
            [] answer
      refuse_if (is_none_found addresses) (bad_request "upstream DNS returned no addresses")
      ok (record { url = normalized normalize_base url; addresses = addresses })
