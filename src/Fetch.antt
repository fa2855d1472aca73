-- ===== src/Fetch.antt =====
-- The sequential download of a blob and its verification in src/scheduler.rs: `download_whole`,
-- `recover_verified_blob`, `verify_file`, and the end of `fetch_uncached`.
--
-- Texts are bytes, and SHA-256 in hexadecimal is a parameter. As in `Transfer` the nodes' answers
-- are lists of events; a group of nodes is the list of the passes over it.
pub mod Verified
pub mod Resume
pub mod Resumed
mod Examples
use donkey.Base.{
  starts_with, ℕ, ◌+◌, ◌-◌, Bool, true, false, not, ◌&&◌, ◌||◌, Option, none, some, List, [], ◌∷◌,
  ◌++◌, all, drop, length, ltb, leb, ◌==◌, if◌then◌else◌, Result, ok, err,
}
use donkey.Error.{AppError, integrity, io, upstream, bad_request, ApiResult}
use donkey.Transfer.{
  File, Response, Reply, Progress, fetched, failed, untried, stream_response_to_file,
  append_response_to_file, content_range_matches, file_size, differs, resolve,
}

-- What a download leaves: the file, and an answer unless it still waits.
abbrev pub Outcome : Type 0
Outcome = File × Option (ApiResult (Unit {0}))

abbrev pub is_success : ℕ → Bool
is_success status = leb 200 status && ltb status 300

-- `existing`: the bytes of a partial file that is shorter than the blob.
abbrev pub partial_size : Option ℕ → File → Option ℕ
partial_size (some total) (some content) =
    if ltb 0 total && ltb (length content) total then some (length content) else none
partial_size _ _ = none

-- The answer to a request for the rest of the blob, from `start`.
pub receive_rest : ℕ → ℕ → File → Response → File × ApiResult (Unit {0})
receive_rest total start destination response =
    if not (response.status == 206) || not (content_range_matches response start (total - 1) total)
    then (destination, err integrity)
    else append_response_to_file response destination (total - 1 - start + 1)

abbrev pub receive_body : Option ℕ → Option ℕ → File → Response → File × ApiResult (Unit {0})
receive_body total none destination response =
    stream_response_to_file response destination response.content_length
receive_body none (some start) destination response = (destination, err integrity)
receive_body (some total) (some start) destination response =
    receive_rest total start destination response

-- One attempt on a leased node: the `async` block of `download_whole`.
pub try_whole : Option ℕ → File → Reply → File × ApiResult (Unit {0})
try_whole total destination (err error) = (destination, err error)
try_whole total destination (ok response) =
    if not (is_success response.status)
    then (destination, err (upstream "node returned an error"))
    else receive_body total (partial_size total destination) destination response

-- One pass over the ordered nodes of a group; `none` is a node without a free lease.
pub whole_candidates : Option ℕ → File → Progress → List (Option Reply) → File × Progress
whole_candidates total destination progress [] = (destination, progress)
whole_candidates total destination progress (none ∷ candidates) =
    whole_candidates total destination progress candidates
whole_candidates total destination progress (some reply ∷ candidates) =
    resolve (λ file state. whole_candidates total file state candidates)
      (try_whole total destination reply)

abbrev pub unless_tried : (File → File × Option Progress) → File × Progress → File × Option Progress
unless_tried wait (file, untried) = wait file
unless_tried wait (file, progress) = (file, some progress)

-- The passes over one group, until a node of it was tried.
pub whole_group : Option ℕ → File → List (List (Option Reply)) → File × Option Progress
whole_group total destination [] = (destination, none)
whole_group total destination (candidates ∷ later) =
    unless_tried (λ file. whole_group total file later)
      (whole_candidates total destination untried candidates)

abbrev pub next_group : (File → AppError → Outcome) → File × Option Progress → Outcome
next_group next (file, none) = (file, none)
next_group next (file, some fetched) = (file, some (ok tt))
next_group next (file, some (failed error)) = next file error
next_group next (file, some untried) = (file, none)

-- `download_whole` over the groups that have nodes; `last` is the last error.
pub whole_groups : Option ℕ → File → AppError → List (List (List (Option Reply))) → Outcome
whole_groups total destination last [] = (destination, some (err last))
whole_groups total destination last (group ∷ groups) =
    next_group (λ file error. whole_groups total file error groups)
      (whole_group total destination group)

pub download_whole : Option ℕ → File → List (List (List (Option Reply))) → Outcome
download_whole total destination groups =
    whole_groups total destination (upstream "all nodes failed") groups

pub same_bytes : List ℕ → List ℕ → Bool
same_bytes [] [] = true
same_bytes (a ∷ as') (b ∷ bs) = a == b && same_bytes as' bs
same_bytes _ _ = false

abbrev pub is_hex : ℕ → Bool
is_hex c = (leb 48 c && leb c 57) || (leb 65 c && leb c 70) || (leb 97 c && leb c 102)

-- "sha256:"
abbrev pub sha256_prefix : List ℕ
sha256_prefix = 115 ∷ 104 ∷ 97 ∷ 50 ∷ 53 ∷ 54 ∷ 58 ∷ []

abbrev pub is_sha256 : List ℕ → Bool
is_sha256 digest =
    starts_with sha256_prefix digest && length (drop 7 digest) == 64 && all is_hex (drop 7 digest)

module _ (hash : List ℕ → List ℕ) where
  pub verify_file : File → List ℕ → ApiResult (Unit {0})
  verify_file none digest = if is_sha256 digest then err io else err (bad_request "invalid digest")
  verify_file (some content) digest =
      if not (is_sha256 digest)
      then err (bad_request "invalid digest")
      else if not (same_bytes (hash content) (drop 7 digest))
      then err integrity
      else ok tt

  abbrev pub if_verified : (File → AppError → Outcome) → File → ApiResult (Unit {0}) → Outcome
  if_verified next file (ok done) = (file, some (ok tt))
  if_verified next file (err error) = next none error

  -- What follows the download from one node: the file is verified, or removed.
  abbrev pub after_whole : List ℕ → (File → AppError → Outcome) → Outcome → Outcome
  after_whole digest next (file, none) = (file, none)
  after_whole digest next (file, some (ok done)) = if_verified next file (verify_file file digest)
  after_whole digest next (file, some (err error)) = next none error

  -- `recover_verified_blob`: the ordered nodes one by one, each with the passes over it alone.
  pub recover_loop :
      Option ℕ → List ℕ → File → AppError → List (List (List (Option Reply))) → Outcome
  recover_loop total digest destination last [] = (destination, some (err last))
  recover_loop total digest destination last (node ∷ nodes) =
      after_whole digest (λ file error. recover_loop total digest file error nodes)
        (download_whole total destination (node ∷ []))

  pub recover_verified_blob : Option ℕ → List ℕ → File → List (List (List (Option Reply))) → Outcome
  recover_verified_blob total digest destination nodes =
      recover_loop total digest destination integrity nodes

  abbrev pub and_then : (File → Outcome) → Outcome → Outcome
  and_then next (file, some (ok done)) = next file
  and_then next (file, answer) = (file, answer)

  -- A file of another size than was announced is fetched again, if a digest can tell the right one
  -- from others and there are nodes to ask.
  pub check_size :
      Option ℕ → Option (List ℕ) → ℕ → List (List (List (Option Reply))) → File → Outcome
  check_size total expected fallbacks nodes none = (none, some (err io))
  check_size total none fallbacks nodes (some content) =
      if differs total (length content)
      then (some content, some (err integrity))
      else (some content, some (ok tt))
  check_size total (some digest) fallbacks nodes (some content) =
      if not (differs total (length content))
      then (some content, some (ok tt))
      else if ltb 1 fallbacks
      then recover_verified_blob total digest (some content) nodes
      else (some content, some (err integrity))

  abbrev pub retry_if : Bool → (File → Outcome) → File → ApiResult (Unit {0}) → Outcome
  retry_if many again file (ok done) = (file, some (ok tt))
  retry_if true again file (err error) = again file
  retry_if false again file (err error) = (file, some (err error))

  pub check_digest :
      Option ℕ → Option (List ℕ) → ℕ → List (List (List (Option Reply))) → File → Outcome
  check_digest total none fallbacks nodes file = (file, some (ok tt))
  check_digest total (some digest) fallbacks nodes file =
      retry_if (ltb 1 fallbacks) (λ f. recover_verified_blob total digest f nodes) file
        (verify_file file digest)

  -- The end of `fetch_uncached`, from the downloaded file to the one that is admitted to the cache.
  -- There are `fallbacks` nodes to fall back to; those that are in order when a recovery starts
  -- answer in its round, of which there may be two.
  pub settle :
      Option ℕ
      → Option (List ℕ)
      → ℕ
      → List (List (List (Option Reply)))
      → List (List (List (Option Reply)))
      → File
      → Outcome
  settle total expected fallbacks first_round second_round file =
      and_then (check_digest total expected fallbacks second_round)
        (check_size total expected fallbacks first_round file)
