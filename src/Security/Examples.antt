-- ===== src/Security/Examples.antt =====
-- Addresses, names and URLs, with a concrete membership in networks and a small resolver.
use donkey.Base.{
  ℕ, ◌/◌, ◌^◌, ◌-◌, ◌+◌, ◌*◌, ◌≤◌, Bool, true, false, Option, none, some, List, [], ◌∷◌, ◌≡◌, refl,
  ◌==◌, ok, Text, codes, all, len, trim, is_whitespace, same_codes, split, if◌then◌else◌, arith,
}
use donkey.Security.{
  IpAddr, v4, v6, IpNet, net4, net6, quad, Config, Url, ValidatedUpstream, is_denied, is_non_public,
  collect_public, resolve_connect_target, validate_connect_target_syntax, validate_url,
}
use donkey.Security.Networks.{IsContains, is_special, is_non_public-v4}
use donkey.Security.Addresses.{
  IsPinned, IsSafe, resolve_connect_target-IsPinned, validate_url-IsSafe,
}
use donkey.Security.Targets.{is_name_char, validate_connect_target_syntax_name}

abbrev shares_prefix : IpNet → IpAddr → Bool
shares_prefix (net4 a p) (v4 x) = x / 2 ^ (32 - p) == a / 2 ^ (32 - p)
shares_prefix (net6 a p) (v6 x) = x / 2 ^ (128 - p) == a / 2 ^ (128 - p)
shares_prefix _ _ = false

shares_prefix-IsContains : IsContains shares_prefix
shares_prefix-IsContains = record {
  v4_in_net4 = λ a p x. refl;
  v6_in_net6 = λ a p x. refl;
  v6_in_net4 = λ a p x. refl;
  v4_in_net6 = λ a p x. refl;
}

-- The metadata service of clouds, directly and by its mapped address.
is_non_public-v4_example :
    (is_non_public shares_prefix (v4 (quad 169 254 169 254)) ≡ is_special (quad 169 254 169 254))
    × (is_non_public shares_prefix (v6 (0xffff * 2 ^ 32 + quad 169 254 169 254))
        ≡ is_special (quad 169 254 169 254))
is_non_public-v4_example =
    is_non_public-v4 shares_prefix shares_prefix-IsContains (quad 169 254 169 254) (omega arith)

abbrev no_literal : Text → Option IpAddr
no_literal text = none

abbrev two_answers : Text → ℕ → Option (List IpAddr)
two_answers host port =
    if same_codes host (codes "mirror.example")
    then some (v4 (quad 1 1 1 1) ∷ v4 (quad 1 0 0 1) ∷ v4 (quad 1 1 1 1) ∷ [])
    else none

abbrev strict : Config
strict = record { allow_private_upstreams = false; allow_insecure_upstreams = false }

mirror_accepted :
    validate_connect_target_syntax no_literal (codes " Mirror.example. ") (codes "domain") ≡ ok tt
unfolding validate_connect_target_syntax trim is_whitespace len split same_codes
mirror_accepted = refl

validate_connect_target_syntax_name_example :
    (all is_name_char (trim (codes " Mirror.example. ")) ≡ true)
    × (len (trim (codes " Mirror.example. ")) ≤ 253)
    × (codes "domain" ≡ codes "domain")
validate_connect_target_syntax_name_example =
    validate_connect_target_syntax_name no_literal (codes " Mirror.example. ") (codes "domain") refl
      mirror_accepted

abbrev mirror_addresses : List IpAddr
mirror_addresses = v4 (quad 1 1 1 1) ∷ v4 (quad 1 0 0 1) ∷ []

mirror_resolved :
    resolve_connect_target shares_prefix no_literal two_answers
      (codes " Mirror.example. ")
      (codes "domain")
      443
      strict
    ≡ ok mirror_addresses
unfolding resolve_connect_target validate_connect_target_syntax trim is_whitespace len split
    same_codes collect_public is_non_public is_denied
mirror_resolved = refl

resolve_connect_target-IsPinned_example : IsPinned shares_prefix strict mirror_addresses
resolve_connect_target-IsPinned_example =
    resolve_connect_target-IsPinned shares_prefix no_literal two_answers (codes " Mirror.example. ")
      (codes "domain") 443 strict mirror_resolved

abbrev mirror_url : Url
mirror_url = record {
  scheme = codes "https";
  username = [];
  password = none;
  host_str = some (codes "mirror.example");
  port_or_known_default = some 443;
  path = codes "/v2";
  query = some (codes "a=b");
  fragment = some (codes "top");
}

abbrev mirror_upstream : ValidatedUpstream
mirror_upstream = record {
  url = record mirror_url { path = codes "/v2/"; query = none; fragment = none };
  addresses = mirror_addresses;
}

mirror_validated :
    validate_url shares_prefix two_answers
      (λ raw. some mirror_url)
      (codes "https://mirror.example/v2?a=b#top")
      strict
      true
    ≡ ok mirror_upstream
unfolding validate_url len same_codes collect_public is_non_public is_denied
mirror_validated = refl

validate_url-IsSafe_example : IsSafe shares_prefix two_answers strict true mirror_upstream
validate_url-IsSafe_example =
    validate_url-IsSafe shares_prefix two_answers (λ raw. some mirror_url)
      (codes "https://mirror.example/v2?a=b#top") strict true mirror_validated
