-- ===== src/Relay/Same.antt =====
-- Where the relay of a whole blob in src/registry.rs ends well, what was hashed, what is in the
-- file and what was sent are the same bytes.
use donkey.Base.{
  ℕ, ◌+◌, true, ◌&&◌, Option, none, some, List, [], ◌∷◌, ◌++◌, length, ltb, leb, ◌==◌,
  if◌then◌else◌, ◌≡◌, refl, ap, inl, inr, ok, err, Bool-cases,
}
use donkey.Error.{AppError, ApiResult}
use donkey.Relay.{
  Relay, Outcome, passed_on, Event, arrives, breaks, write_fails, client_gone, StreamWindow, Answer,
  remaining_window_bytes, resume_stream_response,
}
use donkey.Relay.Stream.{
  is_complete, overruns, read_body, carry_on, replayed, transfer_behind, saved_bytes, Resumes,
  with_response, after_body, max_stalled_responses, relay_loop, resume_first, relay_transfer,
}
use donkey.Relay.Parallel.{
  StreamChunk, stream_chunks, Delivery, goes_out, not_written, not_sent, Task, run_task,
  take_result, relay_chunks, ParallelRelay, relay_cut, relay_parallel_ranges,
}

module _ (w : StreamWindow) (whole : is_complete w ≡ true) where
  -- What was hashed, what is in the file and what the client has are the same bytes.
  abbrev pub IsSame : Relay → Type 0
  IsSame s = (s.hashed ≡ s.file) × (s.file ≡ s.sent)

  abbrev BodySame : Relay × ℕ × Option AppError → Type 0
  BodySame (s, transferred, none) = IsSame s
  BodySame (s, transferred, some error) = Unit

  read_body-BodySame :
      (s : Relay) (transferred : ℕ) (events : List Event)
      → IsSame s
      → BodySame (read_body w s transferred events)
  unfolding read_body
  read_body-BodySame s transferred [] k = k
  read_body-BodySame s transferred (breaks ∷ events) k = k
  read_body-BodySame s transferred (arrives chunk ∷ events) k =
      elim (Bool-cases (length chunk == 0)) [
        | inl empty ↦ rw empty (read_body-BodySame s transferred events k)
        | inr filled ↦
            elim (Bool-cases (overruns (remaining_window_bytes w.end s.offset) (length chunk))) [
              | inl over ↦ rw (filled, over) tt
              | inr fits ↦
                  rw (filled, fits)
                    (read_body-BodySame (passed_on (is_complete w) s chunk)
                      (transferred + length chunk) events
                      (rw whole (ap (λ b. b ++ chunk) k.0), ap (λ b. b ++ chunk) k.1))
            ]
      ]
  read_body-BodySame s transferred (write_fails chunk n ∷ events) k =
      elim (Bool-cases (overruns (remaining_window_bytes w.end s.offset) (length chunk))) [
        | inl over ↦ rw over tt
        | inr fits ↦ rw fits tt
      ]
  read_body-BodySame s transferred (client_gone chunk ∷ events) k =
      elim (Bool-cases (overruns (remaining_window_bytes w.end s.offset) (length chunk))) [
        | inl over ↦ rw over tt
        | inr fits ↦ rw fits tt
      ]

  -- Where the relay ends well, the three are the same.
  abbrev pub EndsSame : Outcome → Type 0
  EndsSame (s, none) = Unit
  EndsSame (s, some (err error)) = Unit
  EndsSame (s, some (ok done)) = IsSame s

  after_body-EndsSame :
      (stalled : ℕ) (next : ℕ → Relay → Outcome) (r : Relay × ℕ × Option AppError)
      → BodySame r
      → ((n : ℕ) (t : Relay) → IsSame t → EndsSame (next n t))
      → EndsSame (after_body w stalled next r)
  after_body-EndsSame stalled next (s, transferred, some error) k goes = tt
  after_body-EndsSame stalled next (s, transferred, none) k goes =
      let stalled' = if transferred == 0 then stalled + 1 else 0 in
      elim (Bool-cases (ltb w.end s.offset)) [
        | inl past ↦ rw past k
        | inr more ↦ elim (Bool-cases (transferred == 0 && leb max_stalled_responses stalled')) [
          | inl over ↦ rw (more, over) tt
          | inr on ↦ rw (more, on) (goes stalled' s k)
        ]
      ]

  with_response-EndsSame :
      (s : Relay) (next : Answer → Outcome) (answer : ApiResult Answer)
      → ((a : Answer) → EndsSame (next a))
      → EndsSame (with_response s next answer)
  with_response-EndsSame s next (err error) goes = tt
  with_response-EndsSame s next (ok answer) goes = goes answer

  relay_loop-EndsSame :
      (stalled : ℕ) (s : Relay) (answer : Answer) (resumes : Resumes)
      → IsSame s
      → EndsSame (relay_loop w stalled s answer resumes)
  unfolding relay_loop
  relay_loop-EndsSame stalled s answer [] k =
      after_body-EndsSame stalled (λ n t. (t, none)) (read_body w s 0 answer.body)
        (read_body-BodySame s 0 answer.body k) (λ n t k'. tt)
  relay_loop-EndsSame stalled s answer (passes ∷ resumes) k =
      after_body-EndsSame stalled
        (λ n t.
          with_response t (λ next. relay_loop w n t next resumes)
            (resume_stream_response t.offset w.end w.total passes))
        (read_body w s 0 answer.body) (read_body-BodySame s 0 answer.body k)
        (λ n t k'.
          with_response-EndsSame t (λ next. relay_loop w n t next resumes)
            (resume_stream_response t.offset w.end w.total passes)
            (λ a. relay_loop-EndsSame n t a resumes k'))

  take_result-EndsSame :
      (s : Relay) (delivery : Delivery) (next : Relay → Outcome)
      (result : Option (ApiResult (List ℕ)))
      → IsSame s
      → ((t : Relay) → IsSame t → EndsSame (next t))
      → EndsSame (take_result s delivery next result)
  take_result-EndsSame s delivery next none k goes = tt
  take_result-EndsSame s delivery next (some (err error)) k goes = tt
  take_result-EndsSame s goes_out next (some (ok bytes)) k goes =
      goes (passed_on true s bytes) (ap (λ b. b ++ bytes) k.0, ap (λ b. b ++ bytes) k.1)
  take_result-EndsSame s (not_written n) next (some (ok bytes)) k goes = tt
  take_result-EndsSame s not_sent next (some (ok bytes)) k goes = tt

  relay_chunks-EndsSame :
      (nodes : List ℕ) (s : Relay) (chunks : List StreamChunk) (tasks : List Task)
      → IsSame s
      → EndsSame (relay_chunks nodes s chunks tasks)
  unfolding relay_chunks
  relay_chunks-EndsSame nodes s [] tasks k = k
  relay_chunks-EndsSame nodes s (chunk ∷ chunks) [] k = tt
  relay_chunks-EndsSame nodes s (chunk ∷ chunks) (task ∷ tasks) k =
      take_result-EndsSame s task.delivery (λ t. relay_chunks nodes t chunks tasks)
        (run_task nodes chunk task) k (λ t k'. relay_chunks-EndsSame nodes t chunks tasks k')

  relay_cut-EndsSame :
      (p : ParallelRelay) (s : Relay) (cut : Option (List StreamChunk))
      → IsSame s
      → EndsSame (relay_cut p s cut)
  relay_cut-EndsSame p s none k = tt
  relay_cut-EndsSame p s (some chunks) k = relay_chunks-EndsSame p.nodes s chunks p.tasks k

  carry_on-EndsSame :
      (parallel : Option ParallelRelay) (s : Relay) (answer : Answer) (resumes : Resumes)
      → IsSame s
      → EndsSame (carry_on w parallel s answer resumes)
  unfolding relay_parallel_ranges
  carry_on-EndsSame none s answer resumes k = relay_loop-EndsSame 0 s answer resumes k
  carry_on-EndsSame (some p) s answer resumes k =
      relay_cut-EndsSame p s (stream_chunks p.chunk_size w s.offset) k

  resume_first-EndsSame :
      (parallel : Option ParallelRelay) (s : Relay) (resumes : Resumes)
      → IsSame s
      → EndsSame (resume_first w parallel s resumes)
  resume_first-EndsSame parallel s [] k = tt
  resume_first-EndsSame parallel s (passes ∷ resumes) k =
      with_response-EndsSame s (λ next. carry_on w parallel s next resumes)
        (resume_stream_response s.offset w.end w.total passes)
        (λ a. carry_on-EndsSame parallel s a resumes k)

  transfer_behind-EndsSame :
      (parallel : Option ParallelRelay) (saved : List ℕ) (answer : Answer) (resumes : Resumes)
      → EndsSame (transfer_behind w parallel saved answer resumes)
  transfer_behind-EndsSame parallel saved answer resumes =
      let s = replayed w saved in
      let k : IsSame s = (refl, refl) in
      elim (Bool-cases (length saved == 0)) [
        | inl empty ↦ rw empty (carry_on-EndsSame parallel s answer resumes k)
        | inr filled ↦ elim (Bool-cases (ltb w.end s.offset)) [
          | inl past ↦ rw (filled, past) k
          | inr more ↦ rw (filled, more) (resume_first-EndsSame parallel s resumes k)
        ]
      ]

  pub relay_transfer-EndsSame :
      (parallel : Option ParallelRelay) (partial : List ℕ) (answer : Answer) (resumes : Resumes)
      → EndsSame (relay_transfer w parallel partial answer resumes)
  unfolding relay_transfer
  relay_transfer-EndsSame parallel partial answer resumes =
      transfer_behind-EndsSame parallel (saved_bytes w partial) answer resumes
