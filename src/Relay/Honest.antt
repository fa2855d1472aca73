-- ===== src/Relay/Honest.antt =====
-- Responses that carry the bytes which they announce, and the response that
-- `resume_stream_response` of src/registry.rs chooses among them.
use donkey.Base.{
  ℕ, Bool, true, false, ◌&&◌, Option, none, some, List, [], ◌∷◌, ◌++◌, ◌==◌, ◌≡◌, subst, inl, inr,
  ok, err, All, and_left, and_right, ==_iff, Bool-cases, Option-cases,
}
use donkey.Error.{ApiResult}
use donkey.Chunk.Cover.{slice}
use donkey.Transfer.Begins.{Begins}
use donkey.Relay.{
  Event, arrives, breaks, write_fails, client_gone, StreamWindow, Answer, stream_window, Reply,
  Pass, answered, failed, untried, is_window, continues, resume_pass, after_pass,
  resume_stream_response,
}

-- The bytes that a body brings, in order, until the connection breaks.
abbrev pub arrived : List Event → List ℕ
arrived [] = []
arrived (breaks ∷ events) = []
arrived (arrives chunk ∷ events) = chunk ++ arrived events
arrived (write_fails chunk n ∷ events) = chunk ++ arrived events
arrived (client_gone chunk ∷ events) = chunk ++ arrived events

-- The body of an answer is a beginning of the bytes `start ..= end`.
abbrev pub Fits : List ℕ → ℕ → ℕ → Answer → Type 0
Fits blob start end answer = Begins (arrived answer.body) (slice blob start end)

-- What a response promises (RFC 9110): the bytes of the range that it announces, of which the
-- connection may deliver only a beginning.
abbrev pub IsHonestAnswer : List ℕ → Answer → Type 0
IsHonestAnswer blob answer =
    (v : StreamWindow) → stream_window answer ≡ some v → Fits blob v.start v.end answer

-- A node that is passed over, and a failed request, say nothing.
abbrev pub IsHonestReply : List ℕ → Option Reply → Type 0
IsHonestReply blob none = Unit
IsHonestReply blob (some (err error)) = Unit
IsHonestReply blob (some (ok answer)) = IsHonestAnswer blob answer

abbrev pub AreHonest : List ℕ → List (List (Option Reply) × Bool) → Type 0
AreHonest blob passes = All (λ pass. All (IsHonestReply blob) pass.0) passes

pub continues-Fits :
    (blob : List ℕ) (start end total : ℕ) (answer : Answer)
    → IsHonestAnswer blob answer
    → continues start end total answer ≡ true
    → Fits blob start end answer
continues-Fits blob start end total answer honest c =
    let same = and_right (answer.status == 206) _ c in
    elim (Option-cases (stream_window answer)) [
      | inl e ↦ cc
      | inr (v, e) ↦
          let at_v : is_window (some v) start end total ≡ true =
            subst (λ o. is_window o start end total ≡ true) e same in
          let both : (v.start == start && v.end == end) ≡ true =
            and_left _ (v.total == total) at_v in
          let starts : (v.start == start) ≡ true = and_left _ _ both in
          let ends : (v.end == end) ≡ true = and_right (v.start == start) _ both in
          subst (λ k. Fits blob k end answer) ((==_iff v.start start).0 starts)
            (subst (λ k. Fits blob v.start k answer) ((==_iff v.end end).0 ends) (honest v e))
    ]

abbrev PassFits : List ℕ → ℕ → ℕ → Pass → Type 0
PassFits blob start end (answered answer) = Fits blob start end answer
PassFits blob start end failed = Unit
PassFits blob start end untried = Unit

resume_pass-PassFits :
    (blob : List ℕ) (start end total : ℕ) (pass : Pass) (candidates : List (Option Reply))
    → PassFits blob start end pass
    → All (IsHonestReply blob) candidates
    → PassFits blob start end (resume_pass start end total pass candidates)
unfolding resume_pass
resume_pass-PassFits blob start end total pass [] p h = p
resume_pass-PassFits blob start end total pass (none ∷ candidates) p h =
    resume_pass-PassFits blob start end total pass candidates p h.1
resume_pass-PassFits blob start end total pass (some (err error) ∷ candidates) p h =
    resume_pass-PassFits blob start end total failed candidates tt h.1
resume_pass-PassFits blob start end total pass (some (ok answer) ∷ candidates) p h =
    elim (Bool-cases (continues start end total answer)) [
      | inl c ↦ rw c (continues-Fits blob start end total answer h.0 c)
      | inr c ↦ rw c (resume_pass-PassFits blob start end total failed candidates tt h.1)
    ]

abbrev pub AnswerFits : List ℕ → ℕ → ℕ → ApiResult Answer → Type 0
AnswerFits blob start end (err error) = Unit
AnswerFits blob start end (ok answer) = Fits blob start end answer

after_pass-AnswerFits :
    (blob : List ℕ) (start end : ℕ) (more : Bool) (next : ApiResult Answer) (pass : Pass)
    → AnswerFits blob start end next
    → PassFits blob start end pass
    → AnswerFits blob start end (after_pass more next pass)
after_pass-AnswerFits blob start end more next (answered answer) n p = p
after_pass-AnswerFits blob start end more next untried n p = n
after_pass-AnswerFits blob start end true next failed n p = n
after_pass-AnswerFits blob start end false next failed n p = tt

-- A stream is resumed only with a body that goes on where the stream stopped.
pub resume_stream_response-AnswerFits :
    (blob : List ℕ) (start end total : ℕ) (passes : List (List (Option Reply) × Bool))
    → AreHonest blob passes
    → AnswerFits blob start end (resume_stream_response start end total passes)
unfolding resume_stream_response
resume_stream_response-AnswerFits blob start end total [] h = tt
resume_stream_response-AnswerFits blob start end total ((candidates, more) ∷ passes) h =
    after_pass-AnswerFits blob start end more (resume_stream_response start end total passes)
      (resume_pass start end total untried candidates)
      (resume_stream_response-AnswerFits blob start end total passes h.1)
      (resume_pass-PassFits blob start end total untried candidates tt h.0)
