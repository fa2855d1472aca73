-- ===== src/Relay/Ends.antt =====
-- The loop of `relay_stream_blob_inner` of src/registry.rs ends, whatever the nodes do: a body that
-- brings nothing is borne with at most `MAX_STALLED_RESPONSES` times in a row.
use donkey.Base.{
  ℕ, ◌+◌, ◌-◌, ◌*◌, ◌≤◌, ◌<◌, ◌&&◌, Option, none, some, List, [], ◌∷◌, length, ltb, leb, ◌==◌,
  if◌then◌else◌, ◌≡◌, ◌≢◌, refl, inl, inr, ok, err, Bool-cases, arith,
}
use donkey.Error.{AppError, ApiResult}
use donkey.Relay.{
  Relay, Outcome, passed_on, Event, arrives, breaks, write_fails, client_gone, StreamWindow, Answer,
  remaining_window_bytes, resume_stream_response,
}
use donkey.Relay.Stream.{
  is_complete, overruns, read_body, transfer_behind, replayed, saved_bytes, Resumes, with_response,
  after_body, max_stalled_responses, relay_loop, resume_first, relay_transfer,
}

module _ (w : StreamWindow) where
  -- The offset moves by the bytes that a body brings.
  abbrev Counts : Relay → ℕ → Relay × ℕ × Option AppError → Type 0
  Counts s transferred (s', transferred', none) =
      (s'.offset + transferred ≡ s.offset + transferred') × (transferred ≤ transferred')
  Counts s transferred (s', transferred', some error) = Unit

  Counts-later :
      (s t : Relay) (transferred n : ℕ) (r : Relay × ℕ × Option AppError)
      → t.offset ≡ s.offset + n
      → Counts t (transferred + n) r
      → Counts s transferred r
  Counts-later s t transferred n (s', transferred', none) e c = omega arith
  Counts-later s t transferred n (s', transferred', some error) e c = tt

  read_body-Counts :
      (s : Relay) (transferred : ℕ) (events : List Event)
      → Counts s transferred (read_body w s transferred events)
  unfolding read_body
  read_body-Counts s transferred [] = omega arith
  read_body-Counts s transferred (breaks ∷ events) = omega arith
  read_body-Counts s transferred (arrives chunk ∷ events) = elim (Bool-cases (length chunk == 0)) [
    | inl empty ↦ rw empty (read_body-Counts s transferred events)
    | inr filled ↦
        elim (Bool-cases (overruns (remaining_window_bytes w.end s.offset) (length chunk))) [
          | inl over ↦ rw (filled, over) tt
          | inr fits ↦
              let t = passed_on (is_complete w) s chunk in
              rw (filled, fits)
                (Counts-later s t transferred (length chunk)
                  (read_body w t (transferred + length chunk) events) refl
                  (read_body-Counts t (transferred + length chunk) events))
        ]
  ]
  read_body-Counts s transferred (write_fails chunk n ∷ events) =
      elim (Bool-cases (overruns (remaining_window_bytes w.end s.offset) (length chunk))) [
        | inl over ↦ rw over tt
        | inr fits ↦ rw fits tt
      ]
  read_body-Counts s transferred (client_gone chunk ∷ events) =
      elim (Bool-cases (overruns (remaining_window_bytes w.end s.offset) (length chunk))) [
        | inl over ↦ rw over tt
        | inr fits ↦ rw fits tt
      ]

  -- `budget` more responses are enough from here on.
  abbrev Suffices : ℕ → ℕ → Relay → Type 0
  Suffices budget stalled s =
      (4 * (w.end + 1 - s.offset) ≤ budget + stalled) × (stalled < max_stalled_responses)

  after_body_ends :
      (stalled budget : ℕ) (s : Relay) (next : ℕ → Relay → Outcome)
      (r : Relay × ℕ × Option AppError)
      → Suffices budget stalled s
      → Counts s 0 r
      → ((n : ℕ) (t : Relay)
          → t.offset ≤ w.end
          → 4 * (w.end + 1 - t.offset) + 1 ≤ budget + n
          → n < max_stalled_responses
          → (next n t).1 ≢ none)
      → (after_body w stalled next r).1 ≢ none
  after_body_ends stalled budget s next (t, transferred, some error) enough c goes = λ q. cc
  after_body_ends stalled budget s next (t, transferred, none) enough c goes =
      let stalled' = if transferred == 0 then stalled + 1 else 0 in
      elim (Bool-cases (ltb w.end t.offset)) [
        | inl past ↦ rw past (λ q. cc)
        | inr more ↦ elim (Bool-cases (transferred == 0 && leb max_stalled_responses stalled')) [
          | inl over ↦ rw (more, over) (λ q. cc)
          | inr on ↦ rw (more, on) (goes stalled' t (ground arith) (ground arith) (ground arith))
        ]
      ]

  with_response_ends :
      (s : Relay) (next : Answer → Outcome) (answer : ApiResult Answer)
      → ((a : Answer) → (next a).1 ≢ none)
      → (with_response s next answer).1 ≢ none
  with_response_ends s next (err error) goes = λ q. cc
  with_response_ends s next (ok answer) goes = goes answer

  relay_loop_ends :
      (stalled : ℕ) (s : Relay) (answer : Answer) (resumes : Resumes)
      → Suffices (length resumes) stalled s
      → (relay_loop w stalled s answer resumes).1 ≢ none
  unfolding relay_loop
  relay_loop_ends stalled s answer [] enough =
      after_body_ends stalled 0 s (λ n t. (t, none)) (read_body w s 0 answer.body) enough
        (read_body-Counts s 0 answer.body) (λ n t more short below. absurd (omega arith))
  relay_loop_ends stalled s answer (passes ∷ resumes) enough =
      after_body_ends stalled (length (passes ∷ resumes)) s
        (λ n t.
          with_response t (λ next. relay_loop w n t next resumes)
            (resume_stream_response t.offset w.end w.total passes))
        (read_body w s 0 answer.body) enough (read_body-Counts s 0 answer.body)
        (λ n t more short below.
          with_response_ends t (λ next. relay_loop w n t next resumes)
            (resume_stream_response t.offset w.end w.total passes)
            (λ a. relay_loop_ends n t a resumes (omega arith)))

  resume_first_ends :
      (s : Relay) (resumes : Resumes)
      → s.offset ≤ w.end
      → 4 * (w.end + 1 - s.offset) + 1 ≤ length resumes
      → (resume_first w none s resumes).1 ≢ none
  resume_first_ends s [] more enough = absurd (omega arith)
  resume_first_ends s (passes ∷ resumes) more enough =
      with_response_ends s (λ next. relay_loop w 0 s next resumes)
        (resume_stream_response s.offset w.end w.total passes)
        (λ a. relay_loop_ends 0 s a resumes (omega arith))

  transfer_behind_ends :
      (saved : List ℕ) (answer : Answer) (resumes : Resumes)
      → 4 * (w.end + 1 - w.start) ≤ length resumes
      → (transfer_behind w none saved answer resumes).1 ≢ none
  transfer_behind_ends saved answer resumes enough =
      let s = replayed w saved in
      elim (Bool-cases (length saved == 0)) [
        | inl empty ↦ rw empty (relay_loop_ends 0 s answer resumes (omega arith))
        | inr filled ↦ elim (Bool-cases (ltb w.end s.offset)) [
          | inl past ↦ rw (filled, past) (λ q. cc)
          | inr more ↦ rw (filled, more) (resume_first_ends s resumes (ground arith) (ground arith))
        ]
      ]

  -- With four more responses for each byte of the window the sequential transfer ends, in success
  -- or with an error, whatever the responses carry and whatever fails.
  pub relay_transfer_ends :
      (partial : List ℕ) (answer : Answer) (resumes : Resumes)
      → 4 * (w.end + 1 - w.start) ≤ length resumes
      → (relay_transfer w none partial answer resumes).1 ≢ none
  unfolding relay_transfer
  relay_transfer_ends partial answer resumes enough =
      transfer_behind_ends (saved_bytes w partial) answer resumes enough
