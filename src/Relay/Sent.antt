-- ===== src/Relay/Sent.antt =====
-- What the relay of src/registry.rs sends to the client, and what it keeps in the partial file.
use donkey.Base.{
  u64_max, ℕ, ◌+◌, ◌<◌, true, false, ◌&&◌, Option, none, some, List, [], ◌∷◌, length, ltb, leb,
  ◌==◌, if◌then◌else◌, ◌≡◌, refl, subst, inl, inr, ok, err, All, and_left, ltb→lt, Bool-cases,
  arith,
}
use donkey.Error.{AppError, ApiResult}
use donkey.Chunk.Cover.{slice}
use donkey.Transfer.Begins.{Begins}
use donkey.Relay.{
  Relay, Outcome, passed_on, Event, arrives, breaks, write_fails, client_gone, StreamWindow, Answer,
  remaining_window_bytes, stream_window, resume_stream_response,
}
use donkey.Relay.Stream.{
  is_complete, overruns, read_body, carry_on, replayed, transfer_behind, saved_bytes, Resumes,
  with_response, after_body, relay_loop, resume_first, relay_transfer, max_stalled_responses,
}
use donkey.Relay.Parallel.{ParallelRelay}
use donkey.Relay.Fetched.{IsHonestTask}
use donkey.Relay.Ranges.{relay_parallel_ranges-IsRelayed}
use donkey.Relay.InStep.{
  window, IsInStep, IsInStep-kept, passed_on-IsInStep, unsent_kept, all_kept, IsRelayed,
  IsRelayed-complete, IsRelayed-unfinished,
}
use donkey.Relay.Honest.{
  arrived, Fits, IsHonestAnswer, AreHonest, AnswerFits, resume_stream_response-AnswerFits,
}

module _ (blob : List ℕ) (w : StreamWindow) where
  -- What a body leaves, also where it ends the relay.
  abbrev BodyKept : Relay × ℕ × Option AppError → Type 0
  BodyKept (s, transferred, none) = IsInStep blob w s
  BodyKept (s, transferred, some error) =
      Begins s.sent (window blob w) × Begins s.file (window blob w)

  read_body-BodyKept :
      (s : Relay) (transferred : ℕ) (events : List Event)
      → IsInStep blob w s
      → Begins (arrived events) (slice blob s.offset w.end)
      → BodyKept (read_body w s transferred events)
  unfolding read_body
  read_body-BodyKept s transferred [] k b = k
  read_body-BodyKept s transferred (breaks ∷ events) k b = k
  read_body-BodyKept s transferred (arrives [] ∷ events) k b =
      read_body-BodyKept s transferred events k b
  read_body-BodyKept s transferred (arrives (c ∷ cs) ∷ events) k b =
      let chunk = c ∷ cs in
      let filled : (length chunk == 0) ≡ false = ground arith in
      let (grown, fits_on) =
        passed_on-IsInStep blob w (is_complete w) s chunk (arrived events) k b in
      elim (Bool-cases (overruns (remaining_window_bytes w.end s.offset) (length chunk))) [
        | inl over ↦ rw (filled, over) (IsInStep-kept blob w k)
        | inr fits ↦
            rw (filled, fits)
              (read_body-BodyKept (passed_on (is_complete w) s chunk) (transferred + length chunk)
                events grown fits_on)
      ]
  read_body-BodyKept s transferred (write_fails chunk n ∷ events) k b =
      elim (Bool-cases (overruns (remaining_window_bytes w.end s.offset) (length chunk))) [
        | inl over ↦ rw over (IsInStep-kept blob w k)
        | inr fits ↦ rw fits (unsent_kept blob w s chunk (arrived events) n k b)
      ]
  read_body-BodyKept s transferred (client_gone chunk ∷ events) k b =
      elim (Bool-cases (overruns (remaining_window_bytes w.end s.offset) (length chunk))) [
        | inl over ↦ rw over (IsInStep-kept blob w k)
        | inr fits ↦ rw fits (all_kept blob w s chunk (arrived events) k b)
      ]

  after_body-IsRelayed :
      (stalled : ℕ) (next : ℕ → Relay → Outcome) (r : Relay × ℕ × Option AppError)
      → BodyKept r
      → ((n : ℕ) (t : Relay) → IsInStep blob w t → IsRelayed blob w (next n t))
      → IsRelayed blob w (after_body w stalled next r)
  after_body-IsRelayed stalled next (s, transferred, some error) k goes =
      IsRelayed-unfinished blob w s k (λ q. cc)
  after_body-IsRelayed stalled next (s, transferred, none) k goes =
      let stalled' = if transferred == 0 then stalled + 1 else 0 in
      elim (Bool-cases (ltb w.end s.offset)) [
        | inl past ↦ rw past (IsRelayed-complete blob w k (ltb→lt _ _ past))
        | inr more ↦ elim (Bool-cases (transferred == 0 && leb max_stalled_responses stalled')) [
          | inl over ↦
              rw (more, over) (IsRelayed-unfinished blob w s (IsInStep-kept blob w k) (λ q. cc))
          | inr on ↦ rw (more, on) (goes stalled' s k)
        ]
      ]

  with_response-IsRelayed :
      (s : Relay) (next : Answer → Outcome) (answer : ApiResult Answer)
      → IsInStep blob w s
      → AnswerFits blob s.offset w.end answer
      → ((a : Answer) → Fits blob s.offset w.end a → IsRelayed blob w (next a))
      → IsRelayed blob w (with_response s next answer)
  with_response-IsRelayed s next (err error) k fits goes =
      IsRelayed-unfinished blob w s (IsInStep-kept blob w k) (λ q. cc)
  with_response-IsRelayed s next (ok answer) k fits goes = goes answer fits

  relay_loop-IsRelayed :
      (stalled : ℕ) (s : Relay) (answer : Answer) (resumes : Resumes)
      → IsInStep blob w s
      → Fits blob s.offset w.end answer
      → All (AreHonest blob) resumes
      → IsRelayed blob w (relay_loop w stalled s answer resumes)
  unfolding relay_loop
  relay_loop-IsRelayed stalled s answer [] k fits honest =
      after_body-IsRelayed stalled (λ n t. (t, none)) (read_body w s 0 answer.body)
        (read_body-BodyKept s 0 answer.body k fits)
        (λ n t k'. IsRelayed-unfinished blob w t (IsInStep-kept blob w k') (λ q. cc))
  relay_loop-IsRelayed stalled s answer (passes ∷ resumes) k fits honest =
      after_body-IsRelayed stalled
        (λ n t.
          with_response t (λ next. relay_loop w n t next resumes)
            (resume_stream_response t.offset w.end w.total passes))
        (read_body w s 0 answer.body) (read_body-BodyKept s 0 answer.body k fits)
        (λ n t k'.
          with_response-IsRelayed t (λ next. relay_loop w n t next resumes)
            (resume_stream_response t.offset w.end w.total passes) k'
            (resume_stream_response-AnswerFits blob t.offset w.end w.total passes honest.0)
            (λ a fits'. relay_loop-IsRelayed n t a resumes k' fits' honest.1))

  -- Where ranges are fetched in parallel, their responses carry what they announce as well.
  abbrev pub IsHonestParallel : Option ParallelRelay → Type 0
  IsHonestParallel none = Unit
  IsHonestParallel (some p) = All (IsHonestTask blob) p.tasks

  carry_on-IsRelayed :
      (parallel : Option ParallelRelay) (s : Relay) (answer : Answer) (resumes : Resumes)
      → w.end < u64_max
      → IsHonestParallel parallel
      → IsInStep blob w s
      → Fits blob s.offset w.end answer
      → All (AreHonest blob) resumes
      → IsRelayed blob w (carry_on w parallel s answer resumes)
  carry_on-IsRelayed none s answer resumes small fair k fits honest =
      relay_loop-IsRelayed 0 s answer resumes k fits honest
  carry_on-IsRelayed (some p) s answer resumes small fair k fits honest =
      relay_parallel_ranges-IsRelayed blob w p s small k fair

  resume_first-IsRelayed :
      (parallel : Option ParallelRelay) (s : Relay) (resumes : Resumes)
      → w.end < u64_max
      → IsHonestParallel parallel
      → IsInStep blob w s
      → All (AreHonest blob) resumes
      → IsRelayed blob w (resume_first w parallel s resumes)
  resume_first-IsRelayed parallel s [] small fair k honest =
      IsRelayed-unfinished blob w s (IsInStep-kept blob w k) (λ q. cc)
  resume_first-IsRelayed parallel s (passes ∷ resumes) small fair k honest =
      with_response-IsRelayed s (λ next. carry_on w parallel s next resumes)
        (resume_stream_response s.offset w.end w.total passes) k
        (resume_stream_response-AnswerFits blob s.offset w.end w.total passes honest.0)
        (λ a fits. carry_on-IsRelayed parallel s a resumes small fair k fits honest.1)

  replayed-IsInStep :
      (saved : List ℕ) → Begins saved (window blob w) → IsInStep blob w (replayed w saved)
  replayed-IsInStep saved b = record { sent_begins = b; file_is_sent = refl; offset_is_next = refl }

  transfer_behind-IsRelayed :
      (parallel : Option ParallelRelay) (saved : List ℕ) (answer : Answer) (resumes : Resumes)
      → w.end < u64_max
      → IsHonestParallel parallel
      → Begins saved (window blob w)
      → Fits blob w.start w.end answer
      → All (AreHonest blob) resumes
      → IsRelayed blob w (transfer_behind w parallel saved answer resumes)
  transfer_behind-IsRelayed parallel [] answer resumes small fair b fits honest =
      carry_on-IsRelayed parallel (replayed w []) answer resumes small fair (replayed-IsInStep [] b)
        (subst (λ o. Fits blob o w.end answer) (omega arith) fits) honest
  transfer_behind-IsRelayed parallel (c ∷ cs) answer resumes small fair b fits honest =
      let saved = c ∷ cs in
      let s = replayed w saved in
      let k = replayed-IsInStep saved b in
      let filled : (length saved == 0) ≡ false = ground arith in
      elim (Bool-cases (ltb w.end s.offset)) [
        | inl past ↦ rw (filled, past) (IsRelayed-complete blob w k (ltb→lt _ _ past))
        | inr more ↦
            rw (filled, more) (resume_first-IsRelayed parallel s resumes small fair k honest)
      ]

  saved_bytes-Begins :
      (partial : List ℕ)
      → (is_complete w ≡ true → Begins partial (window blob w))
      → Begins (saved_bytes w partial) (window blob w)
  saved_bytes-Begins partial begun =
      let usable = leb (length partial) w.total in
      elim (Bool-cases (is_complete w && usable)) [
        | inl kept ↦ rw kept (begun (and_left _ usable kept))
        | inr none_kept ↦ rw none_kept (window blob w, refl)
      ]

  -- With responses that carry what they announce, in parallel or one after the other, a first
  -- response of this window, whose end is below the largest 64-bit number, and a partial file that,
  -- for a whole blob, holds a beginning of it, the client gets a beginning of the window of the
  -- blob, whatever breaks; the partial file is left with a beginning of it too; and where the
  -- transfer ends well, the client and the file have just the window.
  pub relay_transfer-IsRelayed :
      (parallel : Option ParallelRelay) (partial : List ℕ) (answer : Answer) (resumes : Resumes)
      → w.end < u64_max
      → stream_window answer ≡ some w
      → IsHonestAnswer blob answer
      → All (AreHonest blob) resumes
      → IsHonestParallel parallel
      → (is_complete w ≡ true → Begins partial (window blob w))
      → IsRelayed blob w (relay_transfer w parallel partial answer resumes)
  unfolding relay_transfer
  relay_transfer-IsRelayed parallel partial answer resumes small at_w honest all_honest fair begun =
      transfer_behind-IsRelayed parallel (saved_bytes w partial) answer resumes small fair
        (saved_bytes-Begins partial begun) (honest w at_w) all_honest
