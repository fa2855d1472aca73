-- ===== src/Transfer.antt =====
-- Downloading one range of a blob into a part file, with resumption and retries, and putting the
-- parts together: `stream_response_to_file`, `append_response_to_file`, `content_range_matches`,
-- `download_chunk` and `download_parallel` of src/scheduler.rs.
--
-- A file is its bytes, `none` where it does not exist. The network is a list of events: what each
-- candidate node answers, frame by frame. Opening and writing a file may fail; removing one works.
pub mod Frames
pub mod Begins
pub mod Attempt
pub mod Retry
pub mod Parts
mod Examples
use donkey.Base.{
  ℕ, suc, ◌+◌, ◌-◌, Bool, true, false, not, ◌&&◌, ◌||◌, Option, none, some, List, [], ◌∷◌, ◌++◌,
  length, take, set, replicate, ltb, ◌==◌, if◌then◌else◌, saturating_add, Result, ok, err, ◌>>=◌,
  ◌>>◌, refuse_if,
}
use donkey.Error.{AppError, integrity, io, upstream, ApiResult}
use donkey.Chunk.{Chunk}

abbrev pub File : Type 0
File = Option (List ℕ)

-- What the body stream and the disk do with one frame: it arrives and is written, the connection
-- breaks, or the write fails after some of its bytes.
pub data Frame : Type 0 where
  arrives : List ℕ → Frame
  breaks : Frame
  short_write : List ℕ → ℕ → Frame

-- A parsed `Content-Range: bytes first-last/complete`.
pub record ByteRange : Type 0 where
  pub first_byte : ℕ
  pub last_byte : ℕ
  pub complete_length : ℕ

-- A response, as far as the code reads it; `opens` tells whether the destination can be opened.
pub record Response : Type 0 where
  pub status : ℕ
  pub content_length : Option ℕ
  pub content_range : Option ByteRange
  pub body : List Frame
  pub opens : Bool

-- `expected.is_some_and(|expected| received > expected)`
abbrev pub exceeds : Option ℕ → ℕ → Bool
exceeds none received = false
exceeds (some expected) received = ltb expected received

-- `expected.is_some_and(|expected| expected != received)`
abbrev pub differs : Option ℕ → ℕ → Bool
differs none received = false
differs (some expected) received = not (expected == received)

-- The `while let` loop that both writers share: the bytes of the file, and the outcome.
unfoldable pub write_frames : Option ℕ → ℕ → List ℕ → List Frame → List ℕ × ApiResult (Unit {0})
write_frames expected received content [] =
    (content, if differs expected received then err integrity else ok tt)
write_frames expected received content (arrives bytes ∷ frames) =
    let received' = saturating_add received (length bytes) in
    let rest = write_frames expected received' (content ++ bytes) frames in
    if exceeds expected received' then (content, err integrity) else rest
write_frames expected received content (breaks ∷ frames) = (content, err (upstream "broken body"))
write_frames expected received content (short_write bytes n ∷ frames) =
    if exceeds expected (saturating_add received (length bytes))
    then (content, err integrity)
    else (content ++ take n bytes, err io)

abbrev pub as_file : List ℕ × ApiResult (Unit {0}) → File × ApiResult (Unit {0})
as_file (content, outcome) = (some content, outcome)

-- `File::create` truncates.
unfoldable pub stream_response_to_file : Response → File → Option ℕ → File × ApiResult (Unit {0})
stream_response_to_file response destination expected =
    if response.opens
    then as_file (write_frames expected 0 [] response.body)
    else (destination, err io)

-- Opening for appending fails where there is no file.
unfoldable pub append_response_to_file : Response → File → ℕ → File × ApiResult (Unit {0})
append_response_to_file response none expected = (none, err io)
append_response_to_file response (some content) expected =
    if response.opens
    then as_file (write_frames (some expected) 0 content response.body)
    else (some content, err io)

abbrev pub is_range : Option ByteRange → ℕ → ℕ → ℕ → Bool
is_range none start end total = false
is_range (some value) start end total =
    value.first_byte == start && value.last_byte == end && value.complete_length == total

unfoldable pub content_range_matches : Response → ℕ → ℕ → ℕ → Bool
content_range_matches response start end total = is_range response.content_range start end total

abbrev pub is_length : Option ℕ → ℕ → Bool
is_length none n = false
is_length (some m) n = m == n

abbrev pub file_size : File → ℕ
file_size none = 0
file_size (some content) = length content

-- What `upstream.send` gives for one request.
abbrev pub Reply : Type 0
Reply = ApiResult Response

-- A part file that has bytes is appended to, otherwise it is written anew.
unfoldable pub save_range : Chunk → ℕ → File → Response → File × ApiResult (Unit {0})
save_range chunk existing destination response =
    let expected = chunk.end - (chunk.start + existing) + 1 in
    if ltb 0 existing
    then append_response_to_file response destination expected
    else stream_response_to_file response destination (some expected)

-- The part of an attempt that follows the request, for a part file of `existing` bytes.
pub receive_range : Chunk → ℕ → File → Reply → File × ApiResult (Unit {0})
receive_range chunk existing destination (err error) = (destination, err error)
receive_range chunk existing destination (ok response) =
    let start = chunk.start + existing in
    let expected = chunk.end - start + 1 in
    if not (response.status == 206)
    then (destination, err (upstream "ignored Range"))
    else if not (is_length response.content_length expected)
    then (destination, err integrity)
    else if not (content_range_matches response start chunk.end chunk.total_size)
    then (destination, err integrity)
    else save_range chunk existing destination response

-- One attempt on a leased node: the `async` block of `download_chunk`.
pub try_node : Chunk → File → Reply → File × ApiResult (Unit {0})
try_node chunk destination reply =
    let existing = file_size destination in
    if ltb (chunk.end - chunk.start + 1) existing
    then (none, err integrity)
    else if ltb chunk.end (chunk.start + existing)
    then (destination, ok tt)
    else receive_range chunk existing destination reply

-- After a failure only an integrity error discards the partial file.
abbrev pub after_error : AppError → File → File
after_error integrity destination = none
after_error _ destination = destination

-- Where the candidate loop stands: the part is there, or the last error, if a node was tried.
pub data Progress : Type 0 where
  fetched : Progress
  failed : AppError → Progress
  untried : Progress

abbrev pub resolve :
    (File → Progress → File × Progress) → File × ApiResult (Unit {0}) → File × Progress
resolve next (destination, ok _) = (destination, fetched)
resolve next (destination, err error) = next (after_error error destination) (failed error)

-- One pass over the ordered candidates; `none` is a node without a free lease.
pub try_candidates : Chunk → File → Progress → List (Option Reply) → File × Progress
try_candidates chunk destination progress [] = (destination, progress)
try_candidates chunk destination progress (none ∷ candidates) =
    try_candidates chunk destination progress candidates
try_candidates chunk destination progress (some reply ∷ candidates) =
    resolve (λ file state. try_candidates chunk file state candidates)
      (try_node chunk destination reply)

-- After a pass: return if a node was tried, else `wait` for capacity.
abbrev pub end_pass :
    (File → File × Option (ApiResult (Unit {0})))
    → File × Progress
    → File × Option (ApiResult (Unit {0}))
end_pass wait (file, fetched) = (file, some (ok tt))
end_pass wait (file, failed error) = (file, some (err error))
end_pass wait (file, untried) = wait file

-- `download_chunk`: passes until one of them reaches a node, each after a wait for capacity.
-- `none` means that it still waits when the schedule ends.
pub download_chunk :
    Chunk → File → List (List (Option Reply)) → File × Option (ApiResult (Unit {0}))
download_chunk chunk destination [] = (destination, none)
download_chunk chunk destination (candidates ∷ later) =
    end_pass (λ file. download_chunk chunk file later)
      (try_candidates chunk destination untried candidates)

-- One stream of `download_parallel`: a part that is complete already is not fetched again.
pub fetch_part : Chunk → File → List (List (Option Reply)) → File × Option (ApiResult (Unit {0}))
fetch_part chunk part schedule =
    if is_length (elim part [ none ↦ none | some content ↦ some (length content) ])
      (chunk.end - chunk.start + 1)
    then (part, some (ok tt))
    else download_chunk chunk part schedule

-- `ordered[index] = Some(path)` for each result in the order of arrival; an index out of range
-- panics in the source.
pub place_parts :
    List (Option File) → List (ApiResult (ℕ × File)) → Option (ApiResult (List (Option File)))
place_parts ordered [] = some (ok ordered)
place_parts ordered (err error ∷ results) = some (err error)
place_parts ordered (ok (index, part) ∷ results) =
    let rest = place_parts (set ordered index (some part)) results in
    if ltb index (length ordered) then rest else none

-- `tokio::io::copy` of every part in order; a part that is missing is an integrity error, one that
-- cannot be opened an I/O error.
pub merge_parts : List (Option File) → ApiResult (List ℕ)
merge_parts [] = ok []
merge_parts (none ∷ ordered) = err integrity
merge_parts (some none ∷ ordered) = err io
merge_parts (some (some content) ∷ ordered) = do rest ← merge_parts ordered; ok (content ++ rest)

abbrev pub merged : Option (ApiResult (List (Option File))) → Option (ApiResult (List ℕ))
merged none = none
merged (some placed) = some (placed >>= merge_parts)

-- The end of `download_parallel`, from the streams' results in the order of their arrival.
pub merge_results : ℕ → List (ApiResult (ℕ × File)) → Option (ApiResult (List ℕ))
merge_results count results = merged (place_parts (replicate count none) results)
