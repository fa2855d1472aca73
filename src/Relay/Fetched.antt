-- ===== src/Relay/Fetched.antt =====
-- What `fetch_parallel_chunk` of src/registry.rs brings as a chunk: just the bytes of its range.
use donkey.Base.{
  ℕ, ◌+◌, ◌-◌, saturating_add, Bool, true, false, not, Option, none, some, List, [], ◌∷◌, ◌++◌,
  length, drop, ltb, leb, ◌==◌, if◌then◌else◌, ◌≡◌, refl, sym, ap, ◌∙◌, subst, inl, inr, ok, err,
  ok-inj, All, append_assoc, append-nil, ==_iff, Bool-cases, any, passed_if, passed_then, arith,
}
use donkey.Error.{AppError, ApiResult, integrity, upstream}
use donkey.Chunk.Cover.{slice}
use donkey.Transfer.Begins.{Begins, Begins-full}
use donkey.Relay.{Event, arrives, breaks, write_fails, client_gone, Reply, is_success, continues}
use donkey.Relay.Parallel.{
  StreamChunk, collect, receive_chunk, Visit, ChunkPass, Fetching, mark_all, is_marked,
  after_failure, after_request, visit_reply, fetch_pass, after_visits, error_or,
  fetch_parallel_chunk, Task, run_task,
}
use donkey.Relay.Honest.{arrived, IsHonestReply, continues-Fits}

-- What the rest of a body says, after a chunk that was not too long.
collect_next :
    (expected : ℕ) (bytes chunk rest : List ℕ) (over : Bool) (m : ApiResult (List ℕ)) {r : List ℕ}
    → ((m ≡ ok r) → (r ≡ (bytes ++ chunk) ++ rest) × (length r ≡ expected))
    → (if over then err integrity else m) ≡ ok r
    → (r ≡ bytes ++ (chunk ++ rest)) × (length r ≡ expected)
collect_next expected bytes chunk rest over m known h =
    let (e, l) = known (passed_if over integrity m h).1 in (e ∙ append_assoc bytes chunk rest, l)

-- A body that is accepted is all that arrived, and has the expected length.
collect_lem :
    (expected : ℕ) (bytes : List ℕ) (events : List Event) {r : List ℕ}
    → collect expected bytes events ≡ ok r
    → (r ≡ bytes ++ arrived events) × (length r ≡ expected)
unfolding collect
collect_lem expected bytes [] h =
    let (full, same) = passed_then (length bytes == expected) integrity (ok bytes) h in
    let e = ok-inj same in
    (sym e ∙ sym (append-nil bytes), ap length (sym e) ∙ (==_iff (length bytes) expected).0 full)
collect_lem expected bytes (breaks ∷ events) h = cc
collect_lem expected bytes (arrives chunk ∷ events) h =
    collect_next expected bytes chunk (arrived events)
      (ltb expected (saturating_add (length bytes) (length chunk)))
      (collect expected (bytes ++ chunk) events)
      (λ q. collect_lem expected (bytes ++ chunk) events q) h
collect_lem expected bytes (write_fails chunk n ∷ events) h =
    collect_next expected bytes chunk (arrived events)
      (ltb expected (saturating_add (length bytes) (length chunk)))
      (collect expected (bytes ++ chunk) events)
      (λ q. collect_lem expected (bytes ++ chunk) events q) h
collect_lem expected bytes (client_gone chunk ∷ events) h =
    collect_next expected bytes chunk (arrived events)
      (ltb expected (saturating_add (length bytes) (length chunk)))
      (collect expected (bytes ++ chunk) events)
      (λ q. collect_lem expected (bytes ++ chunk) events q) h

module _ (blob : List ℕ) (chunk : StreamChunk) where
  abbrev pub bytes_of : List ℕ
  bytes_of = slice blob chunk.start chunk.end

  -- What is received as the chunk is the chunk.
  abbrev pub Received : ApiResult (List ℕ) → Type 0
  Received (err error) = Unit
  Received (ok bytes) = (bytes ≡ bytes_of) × (length bytes ≡ chunk.end - chunk.start + 1)

  collect-Received :
      (events : List Event) (m : ApiResult (List ℕ))
      → Begins (arrived events) bytes_of
      → collect (chunk.end - chunk.start + 1) [] events ≡ m
      → Received m
  collect-Received events (err error) b e = tt
  collect-Received events (ok bytes) b e =
      let (all, full) = collect_lem (chunk.end - chunk.start + 1) [] events e in
      (
        Begins-full (chunk.end + 1 - chunk.start) bytes (drop chunk.start blob)
            (subst (λ r. Begins r bytes_of) (sym all) b) (omega (arith, full)),
        full,
      )

  receive_chunk-Received :
      (reply : Reply) → IsHonestReply blob (some reply) → Received (receive_chunk chunk reply).0
  unfolding receive_chunk
  receive_chunk-Received (err error) honest = tt
  receive_chunk-Received (ok answer) honest = elim (Bool-cases (is_success answer.status)) [
    | inr bad ↦ rw bad tt
    | inl good ↦ elim (Bool-cases (continues chunk.start chunk.end chunk.total answer)) [
      | inr other ↦ rw (good, other) tt
      | inl same ↦
          rw (good, same)
            (collect-Received answer.body (collect (chunk.end - chunk.start + 1) [] answer.body)
              (continues-Fits blob chunk.start chunk.end chunk.total answer honest same) refl)
    ]
  ]

  abbrev pub AreHonestVisits : List Visit → Type 0
  AreHonestVisits visits = All (λ (v : Visit). IsHonestReply blob v.reply) visits

  abbrev Passed : Fetching × Option (List ℕ) → Type 0
  Passed (s, none) = Unit
  Passed (s, some bytes) = Received (ok bytes)

  after_request-Passed :
      (node : ℕ) (s : Fetching) (next : Fetching → Fetching × Option (List ℕ))
      (r : ApiResult (List ℕ) × Bool)
      → Received r.0
      → ((t : Fetching) → Passed (next t))
      → Passed (after_request node s next r)
  after_request-Passed node s next (ok bytes, unavailable) e goes = e
  after_request-Passed node s next (err error, unavailable) e goes =
      goes (after_failure node error unavailable s)

  visit-Passed :
      (s : Fetching) (node : ℕ) (reply : Option Reply)
      (next : Fetching → Fetching × Option (List ℕ))
      → IsHonestReply blob reply
      → ((t : Fetching) → Passed (next t))
      → Passed (visit_reply chunk s node reply next)
  visit-Passed s node none next honest goes = goes s
  visit-Passed s node (some reply) next honest goes =
      after_request-Passed node s next (receive_chunk chunk reply)
        (receive_chunk-Received reply honest) goes

  fetch_pass-Passed :
      (s : Fetching) (visits : List Visit)
      → AreHonestVisits visits
      → Passed (fetch_pass chunk s visits)
  unfolding fetch_pass
  fetch_pass-Passed s [] honest = tt
  fetch_pass-Passed s (visit ∷ visits) honest =
      let t = record s { failures = mark_all visit.marked s.failures } in
      elim (Bool-cases (is_marked visit.node t.failures)) [
        | inl marked ↦ rw marked (fetch_pass-Passed t visits honest.1)
        | inr free ↦ rw free (
            visit-Passed t visit.node visit.reply (λ r. fetch_pass chunk r visits) honest.0
              (λ r. fetch_pass-Passed r visits honest.1))
      ]

  -- What a task brings.
  abbrev pub Brought : Option (ApiResult (List ℕ)) → Type 0
  Brought none = Unit
  Brought (some m) = Received m

  next_pass-Brought :
      (attempted more : Bool) (next : Option (ApiResult (List ℕ))) (error : AppError)
      → Brought next
      → Brought (if not attempted then next else if more then next else some (err error))
  next_pass-Brought false more next error b = b
  next_pass-Brought true true next error b = b
  next_pass-Brought true false next error b = tt

  after_visits-Brought :
      (nodes : ℕ) (more : Bool) (next : Fetching → Option (ApiResult (List ℕ)))
      (r : Fetching × Option (List ℕ))
      → Passed r
      → ((t : Fetching) → Brought (next t))
      → Brought (after_visits nodes more next r)
  after_visits-Brought nodes more next (s, some bytes) e goes = e
  after_visits-Brought nodes more next (s, none) e goes =
      elim (Bool-cases (leb nodes (length s.failures))) [
        | inl out ↦ rw out tt
        | inr some_left ↦ rw some_left (
            next_pass-Brought s.attempted more (next s)
              (error_or s.last_error (upstream "all nodes failed a stream chunk")) (goes s))
      ]

  fetch_parallel_chunk-Brought :
      (nodes : List ℕ) (s : Fetching) (passes : List ChunkPass)
      → All (λ (pass : ChunkPass). AreHonestVisits pass.visits) passes
      → Brought (fetch_parallel_chunk nodes chunk s passes)
  unfolding fetch_parallel_chunk
  fetch_parallel_chunk-Brought nodes s [] honest = tt
  fetch_parallel_chunk-Brought nodes s (pass ∷ passes) honest =
      let t = record s { failures = mark_all pass.marked s.failures; attempted = false } in
      elim (Bool-cases (any (λ node. not (is_marked node t.failures)) nodes)) [
        | inr nobody ↦ rw nobody tt
        | inl somebody ↦ rw somebody (
            after_visits-Brought (length nodes) pass.more
              (λ r. fetch_parallel_chunk nodes chunk r passes) (fetch_pass chunk t pass.visits)
              (fetch_pass-Passed t pass.visits honest.0)
              (λ r. fetch_parallel_chunk-Brought nodes r passes honest.1))
      ]

  pub run_task-Brought :
      (nodes : List ℕ) (task : Task)
      → All (λ (pass : ChunkPass). AreHonestVisits pass.visits) task.passes
      → Brought (run_task nodes chunk task)
  run_task-Brought nodes task honest = elim (Bool-cases task.has_memory) [
    | inr starved ↦ rw starved tt
    | inl granted ↦ rw granted (
        fetch_parallel_chunk-Brought nodes
          (record { failures = task.marked; last_error = none; attempted = false }) task.passes
          honest)
  ]

abbrev pub IsHonestTask : List ℕ → Task → Type 0
IsHonestTask blob task =
    All (λ (pass : ChunkPass). All (λ (v : Visit). IsHonestReply blob v.reply) pass.visits)
      task.passes
