-- ===== src/Route.antt =====
-- Registry routes: which upstream registry a path under /v2/ belongs to. This file has the rows and
-- inputs of src/registry_routes.rs and their normalisation; the children have the table, the
-- service, and `route_registry_path` of src/registry.rs.
--
-- Texts are code points. The parser of the http crate's `Authority` and the standard library's
-- parsers of IP addresses, of which only the outcome counts, are parameters.
pub mod Store
pub mod Service
pub mod Paths
pub mod Unique
pub mod Names
pub mod Histories
pub mod Builtin
pub mod Markers
pub mod Chosen
pub mod Resolved
pub mod Refusals
mod Examples
use Prim.Native.String
use Prim.Native.String.{String}
use mathlib.Core.Option
use donkey.Base.{
  ℕ, zero, suc, Bool, true, false, not, ◌&&◌, ◌||◌, Option, none, some, List, [], ◌∷◌, any, all,
  drop, ltb, leb, ◌==◌, if◌then◌else◌, Result, ok, err, refuse_if, ok_or, ◌>>=◌, ◌>>◌, Text, codes,
  same_codes, is_ascii_digit, is_ascii_lowercase, is_ascii_alphanumeric, is_ascii_whitespace,
  to_ascii_lowercase, len, trim, is_empty, strip_prefix, first, last, is_some_and, split, length,
}
use donkey.Error.{AppError, ApiResult, bad_request}

pub data RepositoryMode : Type 0 where
  docker_hub_library passthrough : RepositoryMode

unfoldable pub parse_mode : Text → ApiResult RepositoryMode
parse_mode value =
    if same_codes value (codes "docker_hub_library")
    then ok docker_hub_library
    else if same_codes value (codes "passthrough")
    then ok passthrough
    else err (bad_request "unsupported repository mode")

unfoldable pub mode_str : RepositoryMode → Text
mode_str docker_hub_library = codes "docker_hub_library"
mode_str passthrough = codes "passthrough"

-- `RegistryRouteInput`, after deserialisation.
pub record RegistryRouteInput : Type 0 where
  pub key : Text
  pub name : Text
  pub canonical_registry : Text
  pub path_prefix : Option Text
  pub repository_mode : Text
  pub is_default : Bool
  pub enabled : Bool

pub record NormalizedRouteInput : Type 0 where
  pub key : Text
  pub name : Text
  pub canonical_registry : Text
  pub path_prefix : Option Text
  pub repository_mode : RepositoryMode
  pub is_default : Bool
  pub enabled : Bool

-- A row of the table `registry_routes`.
pub record RegistryRoute : Type 0 where
  pub id : ℕ
  pub key : Text
  pub name : Text
  pub canonical_registry : Text
  pub path_prefix : Option Text
  pub repository_mode : Text
  pub is_default : Bool
  pub enabled : Bool
  pub created_at : ℕ
  pub updated_at : ℕ

abbrev pub docker_hub_route_id : ℕ
docker_hub_route_id = 0x4f6a9e7b2d174b6a9b4f7e76b8d8a001

abbrev pub ghcr_route_id : ℕ
ghcr_route_id = 0x4f6a9e7b2d174b6a9b4f7e76b8d8a002

abbrev pub docker_hub_route_key : Text
docker_hub_route_key = codes "dockerhub"

abbrev pub ghcr_route_key : Text
ghcr_route_key = codes "ghcr"

abbrev pub is_identifier_char : ℕ → Bool
is_identifier_char c = is_ascii_lowercase c || is_ascii_digit c || c == 45 || c == 95

-- The tests of `normalize_identifier`.
unfoldable pub is_identifier : Text → Bool
is_identifier value =
    is_some_and is_ascii_alphanumeric (first value)
    && leb (len value) 32
    && all is_identifier_char (drop 1 value)

unfoldable pub normalize_identifier : Text → String → ApiResult Text
normalize_identifier value label =
    let normalized = to_ascii_lowercase (trim value) in
    if is_identifier normalized
    then ok normalized
    else err (bad_request (String.◌++◌ label " must match [a-z0-9][a-z0-9_-]{0,31}"))

-- What the source asks of other parsers: an authority's host and port, and whether a text is an
-- address.
pub record Parsers : Type 0 where
  pub authority : Text → Option (Text × Option ℕ)
  pub is_ipv4 : Text → Bool
  pub is_ipv6 : Text → Bool

abbrev pub bad_registry : AppError
bad_registry =
    bad_request "canonical Registry must be a lowercase host[:port] with no scheme or path"

abbrev pub is_label : Text → Bool
is_label label =
    not (is_empty label)
    && leb (len label) 63
    && is_some_and is_ascii_alphanumeric (first label)
    && is_some_and is_ascii_alphanumeric (last label)
    && all (λ c. is_ascii_alphanumeric c || c == 45) label

abbrev pub strip_last : ℕ → Text → Option Text
strip_last k [] = none
strip_last k (c ∷ []) = if c == k then some [] else none
strip_last k (c ∷ d ∷ s) = Option.map (λ t. c ∷ t) (strip_last k (d ∷ s))

abbrev pub unbracketed : Text → Option Text
unbracketed host = elim (strip_prefix (codes "[") host) [ none ↦ none | some t ↦ strip_last 93 t ]

abbrev pub is_forbidden : ℕ → Bool
is_forbidden c = is_ascii_whitespace c || c == 47 || c == 63 || c == 35 || c == 64

abbrev pub is_port_zero : Option ℕ → Bool
is_port_zero none = false
is_port_zero (some port) = port == 0

-- The aliases of Docker Hub.
abbrev pub canonical : Text → Text
canonical normalized =
    if same_codes normalized (codes "docker.io")
      || same_codes normalized (codes "index.docker.io")
      || same_codes normalized (codes "registry-1.docker.io")
    then codes "docker.io"
    else normalized

-- `map(trim).filter(not empty).map(normalize_identifier).transpose()`
unfoldable pub normalize_prefix : Option Text → ApiResult (Option Text)
normalize_prefix none = ok none
normalize_prefix (some value) = if is_empty (trim value) then ok none else do
  prefix ← normalize_identifier (trim value) "Registry route path prefix"
  ok (some prefix)

abbrev pub is_none : Option Text → Bool
is_none none = true
is_none (some t) = false

abbrev pub differ : Bool → Bool → Bool
differ true b = not b
differ false b = b

module _ (parsers : Parsers) where
  unfoldable pub valid_registry_host : Text → Bool
  valid_registry_host host = elim (unbracketed host) [
    | some address ↦ parsers.is_ipv6 address
    | none ↦
        if parsers.is_ipv4 host
        then true
        else not (is_empty host) && leb (len host) 253 && all is_label (split 46 host)
  ]

  unfoldable pub normalize_registry_authority : Text → ApiResult Text
  normalize_registry_authority value =
      let normalized = to_ascii_lowercase (trim value) in
      do
        refuse_if (is_empty normalized || ltb 261 (len normalized) || any is_forbidden normalized)
            bad_registry
        parsed ← ok_or (parsers.authority normalized) bad_registry
        refuse_if (is_port_zero parsed.1 || not (valid_registry_host parsed.0)) bad_registry
        ok (canonical normalized)

  unfoldable pub normalize_input : RegistryRouteInput → ApiResult NormalizedRouteInput
  normalize_input input = do
    key ← normalize_identifier input.key "Registry route key"
    let name = trim input.name
    refuse_if (is_empty name || ltb 80 (length name))
        (bad_request "name must be between 1 and 80 characters")
    canonical_registry ← normalize_registry_authority input.canonical_registry
    path_prefix ← normalize_prefix input.path_prefix
    refuse_if (differ input.is_default (is_none path_prefix))
        (bad_request "only the default Registry route may omit a path prefix")
    repository_mode ← parse_mode input.repository_mode
    ok (record {
      key = key;
      name = name;
      canonical_registry = canonical_registry;
      path_prefix = path_prefix;
      repository_mode = repository_mode;
      is_default = input.is_default;
      enabled = input.enabled;
    })
