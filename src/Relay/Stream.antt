-- ===== src/Relay/Stream.antt =====
-- The loop of `relay_stream_blob_inner` in src/registry.rs, from the first response to the
-- admission.
use donkey.Base.{
  ℕ, ◌+◌, Bool, true, false, not, ◌&&◌, Option, none, some, List, [], ◌∷◌, ◌++◌, length, take, ltb,
  leb, ◌==◌, if◌then◌else◌, checked_add, ok, err, same_codes,
}
use donkey.Error.{AppError, ApiResult, integrity, io}
use donkey.Relay.Parallel.{ParallelRelay, relay_parallel_ranges}
use donkey.Relay.{
  Relay, Outcome, hash_chunk, passed_on, Event, arrives, breaks, write_fails, client_gone,
  StreamWindow, Answer, remaining_window_bytes, same_length, stream_stalled, stream_disconnected,
  Reply, resume_stream_response,
}

abbrev pub max_stalled_responses : ℕ
max_stalled_responses = 4

-- The whole blob is cached, a part of it is not.
abbrev pub is_complete : StreamWindow → Bool
is_complete w = w.start == 0 && same_length (checked_add w.end 1) w.total

-- A chunk that the window has no room for.
abbrev pub overruns : Option ℕ → ℕ → Bool
overruns none n = true
overruns (some remaining) n = ltb remaining n

-- One body: what it left, the bytes that it brought, and an error that ends the relay.
unfoldable pub read_body : StreamWindow → Relay → ℕ → List Event → Relay × ℕ × Option AppError
read_body w s transferred [] = (s, transferred, none)
read_body w s transferred (breaks ∷ events) = (s, transferred, none)
read_body w s transferred (arrives chunk ∷ events) =
    let rest =
      read_body w (passed_on (is_complete w) s chunk) (transferred + length chunk) events in
    let skipped = read_body w s transferred events in
    if length chunk == 0
    then skipped
    else if overruns (remaining_window_bytes w.end s.offset) (length chunk)
    then (s, transferred, some integrity)
    else rest
read_body w s transferred (write_fails chunk n ∷ events) =
    if overruns (remaining_window_bytes w.end s.offset) (length chunk)
    then (s, transferred, some integrity)
    else (
      record s {
        file = s.file ++ take n chunk;
        hashed = hash_chunk (is_complete w) s.hashed chunk;
      },
      transferred,
      some io,
    )
read_body w s transferred (client_gone chunk ∷ events) =
    if overruns (remaining_window_bytes w.end s.offset) (length chunk)
    then (s, transferred, some integrity)
    else (
      record s {
        offset = s.offset + length chunk;
        file = s.file ++ chunk;
        hashed = hash_chunk (is_complete w) s.hashed chunk;
      },
      transferred + length chunk,
      some stream_disconnected,
    )

abbrev pub Resumes : Type 0
Resumes = List (List (List (Option Reply) × Bool))

abbrev pub with_response : Relay → (Answer → Outcome) → ApiResult Answer → Outcome
with_response s next (err error) = (s, some (err error))
with_response s next (ok answer) = next answer

-- After a body that did not end the relay with an error.
abbrev pub after_body :
    StreamWindow → ℕ → (ℕ → Relay → Outcome) → Relay × ℕ × Option AppError → Outcome
after_body w stalled next (s, transferred, some error) = (s, some (err error))
after_body w stalled next (s, transferred, none) =
    let stalled' = if transferred == 0 then stalled + 1 else 0 in
    let resumed = next stalled' s in
    if ltb w.end s.offset
    then (s, some (ok tt))
    else if transferred == 0 && leb max_stalled_responses stalled'
    then (s, some (err stream_stalled))
    else resumed

-- The `while` loop on a response; each resumption is a list of passes over the nodes.
unfoldable pub relay_loop : StreamWindow → ℕ → Relay → Answer → Resumes → Outcome
relay_loop w stalled s answer [] =
    after_body w stalled (λ n t. (t, none)) (read_body w s 0 answer.body)
relay_loop w stalled s answer (passes ∷ resumes) =
    after_body w stalled
      (λ n t.
        with_response t (λ next. relay_loop w n t next resumes)
          (resume_stream_response t.offset w.end w.total passes))
      (read_body w s 0 answer.body)

-- The transfer from the offset on: in parallel, where that is configured, and then the response is
-- given up; otherwise by the loop.
abbrev pub carry_on : StreamWindow → Option ParallelRelay → Relay → Answer → Resumes → Outcome
carry_on w none s answer resumes = relay_loop w 0 s answer resumes
carry_on w (some parallel) s answer resumes = relay_parallel_ranges w parallel s

-- With a partial file the first response is given up for one that continues it.
abbrev pub resume_first : StreamWindow → Option ParallelRelay → Relay → Resumes → Outcome
resume_first w parallel s [] = (s, none)
resume_first w parallel s (passes ∷ resumes) =
    with_response s (λ next. carry_on w parallel s next resumes)
      (resume_stream_response s.offset w.end w.total passes)

-- The state behind the saved bytes, which are replayed to the client.
abbrev pub replayed : StreamWindow → List ℕ → Relay
replayed w saved = record {
  offset = w.start + length saved;
  file = saved;
  sent = saved;
  hashed = saved;
}

-- The transfer behind the saved bytes.
abbrev pub transfer_behind :
    StreamWindow → Option ParallelRelay → List ℕ → Answer → Resumes → Outcome
transfer_behind w parallel saved answer resumes =
    let s = replayed w saved in
    if length saved == 0
    then carry_on w parallel s answer resumes
    else if ltb w.end s.offset
    then (s, some (ok tt))
    else resume_first w parallel s resumes

-- What is saved of a whole blob that is no longer than it; the file of another window is a new one.
abbrev pub saved_bytes : StreamWindow → List ℕ → List ℕ
saved_bytes w partial = if is_complete w && leb (length partial) w.total then partial else []

unfoldable pub relay_transfer :
    StreamWindow → Option ParallelRelay → List ℕ → Answer → Resumes → Outcome
relay_transfer w parallel partial answer resumes =
    transfer_behind w parallel (saved_bytes w partial) answer resumes

-- The end: a complete blob is verified, and admitted to the cache with its file. `admission` is
-- what the cache answers, and `hash` is the digest of SHA-256 with its prefix.
module _ (hash : List ℕ → List ℕ) where
  abbrev pub is_wrong : Option (List ℕ) → List ℕ → Bool
  is_wrong none hashed = false
  is_wrong (some expected) hashed = not (same_codes (hash hashed) expected)

  -- The file that the cache is given, if any, and the answer.
  unfoldable pub finish_relay :
      StreamWindow
      → Option (List ℕ)
      → ApiResult (Unit {0})
      → Outcome
      → Option (List ℕ) × Option (ApiResult (Unit {0}))
  finish_relay w expected admission (s, none) = (none, none)
  finish_relay w expected admission (s, some (err error)) = (none, some (err error))
  finish_relay w expected admission (s, some (ok done)) =
      if not (is_complete w)
      then (none, some (ok tt))
      else if is_wrong expected s.hashed
      then (none, some (err integrity))
      else (some s.file, some admission)
