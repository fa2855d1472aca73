-- ===== src/Relay.antt =====
-- The streaming of a blob to a client while it is fetched and cached: `relay_stream_blob_inner` of
-- src/registry.rs, with the window of a response and the resumption from other nodes.
--
-- The network, the disk and the client are lists of events. A deadline that passes while a response
-- is read is a broken connection, and one that passes while the stream is resumed is the end of the
-- list of passes. There is a node, since one has answered. Failures while the saved bytes are read
-- and replayed, after which the relay ends at once, are left out.
pub mod Parallel
pub mod Stream
pub mod Honest
pub mod InStep
pub mod Fetched
pub mod Ranges
pub mod Sent
pub mod Ends
pub mod Same
pub mod Admitted
mod Examples
use donkey.Base.{
  ℕ, suc, ◌+◌, ◌-◌, Bool, true, false, not, ◌&&◌, ◌||◌, Option, none, some, List, [], ◌∷◌, ◌++◌,
  length, ltb, leb, ◌==◌, if◌then◌else◌, checked_add, checked_sub, add64, Result, ok, err,
}
use donkey.Error.{AppError, ApiResult, upstream, integrity}
use donkey.Transfer.{ByteRange}

-- What happens to the next chunk of a body: it arrives, is written and reaches the client; the
-- connection breaks; the write fails after some bytes; or the chunk is written but the client is
-- gone. The last two happen to chunks with bytes only, since an empty chunk is skipped.
pub data Event : Type 0 where
  arrives : List ℕ → Event
  breaks : Event
  write_fails : List ℕ → ℕ → Event
  client_gone : List ℕ → Event

pub record StreamWindow : Type 0 where
  pub start : ℕ
  pub end : ℕ
  pub total : ℕ

-- A response, as far as the relay reads it.
pub record Answer : Type 0 where
  pub status : ℕ
  pub content_length : Option ℕ
  pub content_range : Option ByteRange
  pub body : List Event

abbrev pub is_success : ℕ → Bool
is_success status = leb 200 status && ltb status 300

-- `last.checked_sub(first)?.checked_add(1)?`
unfoldable pub remaining_window_bytes : ℕ → ℕ → Option ℕ
remaining_window_bytes end offset = elim (checked_sub end offset) [
  | none ↦ none
  | some n ↦ checked_add n 1
]

abbrev pub same_length : Option ℕ → ℕ → Bool
same_length none n = false
same_length (some m) n = m == n

-- The length of a range must be that of the body.
abbrev pub window_of_range : Option ℕ → ByteRange → Option ℕ → Option StreamWindow
window_of_range content_length range none = none
window_of_range content_length range (some n) =
    if same_length content_length n
    then some
        (record { start = range.first_byte; end = range.last_byte; total = range.complete_length })
    else none

abbrev pub window_of_partial : Option ℕ → Option ByteRange → Option StreamWindow
window_of_partial content_length none = none
window_of_partial content_length (some range) =
    window_of_range content_length range (remaining_window_bytes range.last_byte range.first_byte)

abbrev pub window_of_whole : Option ℕ → Option StreamWindow
window_of_whole none = none
window_of_whole (some total) =
    if ltb 0 total then some (record { start = 0; end = total - 1; total = total }) else none

unfoldable pub stream_window : Answer → Option StreamWindow
stream_window answer =
    if answer.status == 206
    then window_of_partial answer.content_length answer.content_range
    else if is_success answer.status
    then window_of_whole answer.content_length
    else none

abbrev pub stream_stalled : AppError
stream_stalled = upstream "Blob stream made no progress within its retry budget"

abbrev pub stream_disconnected : AppError
stream_disconnected = upstream "client disconnected during Blob stream"

abbrev pub is_window : Option StreamWindow → ℕ → ℕ → ℕ → Bool
is_window none start end total = false
is_window (some w) start end total = w.start == start && w.end == end && w.total == total

-- What `upstream.send` gives for one request.
abbrev pub Reply : Type 0
Reply = ApiResult Answer

-- A response that continues the stream: a 206 with just the range that was asked for.
abbrev pub continues : ℕ → ℕ → ℕ → Answer → Bool
continues start end total answer =
    answer.status == 206 && is_window (stream_window answer) start end total

-- Where a pass over the candidates stands. The text of the last error is left out.
pub data Pass : Type 0 where
  answered : Answer → Pass
  failed : Pass
  untried : Pass

-- One pass; `none` is a node without a free lease.
unfoldable pub resume_pass : ℕ → ℕ → ℕ → Pass → List (Option Reply) → Pass
resume_pass start end total pass [] = pass
resume_pass start end total pass (none ∷ candidates) = resume_pass start end total pass candidates
resume_pass start end total pass (some (err error) ∷ candidates) =
    resume_pass start end total failed candidates
resume_pass start end total pass (some (ok answer) ∷ candidates) =
    let rest = resume_pass start end total failed candidates in
    if continues start end total answer then answered answer else rest

-- After a pass: the response, another pass (after a wait for capacity, or by the backoff), or the
-- last error.
abbrev pub after_pass : Bool → ApiResult Answer → Pass → ApiResult Answer
after_pass more next (answered answer) = ok answer
after_pass more next untried = next
after_pass true next failed = next
after_pass false next failed = err (upstream "all nodes failed to resume the Blob stream")

-- `resume_stream_response`: each pass comes with the word whether the backoff allows another one.
-- Where the passes end the deadline has come.
unfoldable pub resume_stream_response :
    ℕ → ℕ → ℕ → List (List (Option Reply) × Bool) → ApiResult Answer
resume_stream_response start end total [] = err stream_stalled
resume_stream_response start end total ((candidates, more) ∷ passes) =
    after_pass more (resume_stream_response start end total passes)
      (resume_pass start end total untried candidates)

-- The state of a relay: the next offset, the partial file, what the client got, and what was
-- hashed.
pub record Relay : Type 0 where
  pub offset : ℕ
  pub file : List ℕ
  pub sent : List ℕ
  pub hashed : List ℕ

-- What a relay leaves, and its answer unless it still waits.
abbrev pub Outcome : Type 0
Outcome = Relay × Option (ApiResult (Unit {0}))

-- A chunk is written, sent, and hashed if the whole blob is relayed.
abbrev pub hash_chunk : Bool → List ℕ → List ℕ → List ℕ
hash_chunk complete hashed chunk = if complete then hashed ++ chunk else hashed

abbrev pub passed_on : Bool → Relay → List ℕ → Relay
passed_on complete s chunk = record {
  offset = s.offset + length chunk;
  file = s.file ++ chunk;
  sent = s.sent ++ chunk;
  hashed = hash_chunk complete s.hashed chunk;
}
