-- ===== src/Relay/Parallel.antt =====
-- The ranges of a blob that are fetched in parallel and sent in order: `relay_parallel_ranges` and
-- `fetch_parallel_chunk` of src/registry.rs.
--
-- The chunks are fetched by tasks that share the set of nodes which failed with ranges; what the
-- other tasks add to it in between stands with the steps of each task. `buffered` gives the results
-- in the order of the chunks, however the tasks run.
use donkey.Base.{
  ℕ, zero, suc, ◌+◌, ◌-◌, min, Bool, true, false, not, ◌&&◌, ◌||◌, Option, none, some, List, [],
  ◌∷◌, ◌++◌, length, take, any, ltb, leb, ◌==◌, if◌then◌else◌, add64, saturating_add, ok, err,
}
use mathlib.Core.Option
use donkey.Error.{AppError, ApiResult, upstream, integrity, io}
use donkey.Relay.{
  Event, arrives, breaks, write_fails, client_gone, StreamWindow, is_success, Reply, continues,
  stream_disconnected, Relay, Outcome, passed_on,
}

pub record StreamChunk : Type 0 where
  pub sequence : ℕ
  pub start : ℕ
  pub end : ℕ
  pub total : ℕ

-- The loop that cuts `start ..= end`; `none` means that the fuel ran out.
unfoldable pub chunk_range : ℕ → ℕ → ℕ → ℕ → ℕ → ℕ → Option (List StreamChunk)
chunk_range zero size total end sequence start = none
chunk_range (suc fuel) size total end sequence start =
    let last = min (saturating_add start (size - 1)) end in
    let chunk : StreamChunk = record {
      sequence = sequence;
      start = start;
      end = last;
      total = total;
    } in
    let rest = chunk_range fuel size total end (suc sequence) (add64 last 1) in
    if leb start end then Option.map (λ more. chunk ∷ more) rest else some []

-- Each round advances by a byte at least.
abbrev pub stream_chunks : ℕ → StreamWindow → ℕ → Option (List StreamChunk)
stream_chunks size w start = chunk_range (suc (w.end + 1 - start)) size w.total w.end 0 start

-- What arrives with an event; the disk and the client have no part in the fetching of a chunk.
abbrev pub carried : Event → Option (List ℕ)
carried (arrives chunk) = some chunk
carried breaks = none
carried (write_fails chunk n) = some chunk
carried (client_gone chunk) = some chunk

-- The body of a chunk, which has to have just the expected length.
unfoldable pub collect : ℕ → List ℕ → List Event → ApiResult (List ℕ)
collect expected bytes [] = if length bytes == expected then ok bytes else err integrity
collect expected bytes (event ∷ events) = elim (carried event) [
  | none ↦ err (upstream "broken body")
  | some chunk ↦
      let rest = collect expected (bytes ++ chunk) events in
      if ltb expected (saturating_add (length bytes) (length chunk)) then err integrity else rest
]

-- Too many requests, a timed out request, or an error of the server.
abbrev pub transient_status : ℕ → Bool
transient_status status = status == 429 || status == 408 || (leb 500 status && ltb status 600)

-- One request: its bytes, and whether the node cannot serve the chunk at all.
unfoldable pub receive_chunk : StreamChunk → Reply → ApiResult (List ℕ) × Bool
receive_chunk chunk (err error) = (err error, false)
receive_chunk chunk (ok answer) =
    if not (is_success answer.status)
    then (err (upstream "no stream chunk"), not (transient_status answer.status))
    else if not (continues chunk.start chunk.end chunk.total answer)
    then (err integrity, false)
    else (collect (chunk.end - chunk.start + 1) [] answer.body, false)

-- A set of nodes.
abbrev pub is_marked : ℕ → List ℕ → Bool
is_marked node nodes = any (λ n. n == node) nodes

abbrev pub mark : ℕ → List ℕ → List ℕ
mark node nodes = if is_marked node nodes then nodes else node ∷ nodes

abbrev pub mark_all : List ℕ → List ℕ → List ℕ
mark_all [] nodes = nodes
mark_all (node ∷ more) nodes = mark node (mark_all more nodes)

-- A candidate of a pass: what the other tasks marked before, and the reply; `none` has no free
-- lease.
pub record Visit : Type 0 where
  pub marked : List ℕ
  pub node : ℕ
  pub reply : Option Reply

-- A pass over the candidates; `more` tells whether the backoff allows another one.
pub record ChunkPass : Type 0 where
  pub marked : List ℕ
  pub visits : List Visit
  pub more : Bool

-- The failed nodes, the last error, and whether this pass has tried a node.
pub record Fetching : Type 0 where
  pub failures : List ℕ
  pub last_error : Option AppError
  pub attempted : Bool

abbrev pub is_integrity : AppError → Bool
is_integrity integrity = true
is_integrity error = false

-- A failure is remembered; a node that cannot serve ranges is not asked again.
abbrev pub after_failure : ℕ → AppError → Bool → Fetching → Fetching
after_failure node error unavailable s = record {
  failures = if unavailable || is_integrity error then mark node s.failures else s.failures;
  last_error = some error;
  attempted = true;
}

-- After a request: the bytes, or the next candidate.
abbrev pub after_request :
    ℕ
    → Fetching
    → (Fetching → Fetching × Option (List ℕ))
    → ApiResult (List ℕ) × Bool
    → Fetching × Option (List ℕ)
after_request node s next (ok bytes, unavailable) = (record s { attempted = true }, some bytes)
after_request node s next (err error, unavailable) = next (after_failure node error unavailable s)

-- A candidate that has not failed with ranges.
abbrev pub visit_reply :
    StreamChunk
    → Fetching
    → ℕ
    → Option Reply
    → (Fetching → Fetching × Option (List ℕ))
    → Fetching × Option (List ℕ)
visit_reply chunk s node none next = next s
visit_reply chunk s node (some reply) next = after_request node s next (receive_chunk chunk reply)

-- The candidates of one pass, until one brings the chunk.
unfoldable pub fetch_pass : StreamChunk → Fetching → List Visit → Fetching × Option (List ℕ)
fetch_pass chunk s [] = (s, none)
fetch_pass chunk s (visit ∷ visits) =
    let t = record s { failures = mark_all visit.marked s.failures } in
    let next = λ (r : Fetching). fetch_pass chunk r visits in
    if is_marked visit.node t.failures
    then next t
    else visit_reply chunk t visit.node visit.reply next

abbrev pub error_or : Option AppError → AppError → AppError
error_or none error = error
error_or (some last) error = last

-- After a pass: the bytes, the end, or the next pass.
abbrev pub after_visits :
    ℕ
    → Bool
    → (Fetching → Option (ApiResult (List ℕ)))
    → Fetching × Option (List ℕ)
    → Option (ApiResult (List ℕ))
after_visits nodes more next (s, some bytes) = some (ok bytes)
after_visits nodes more next (s, none) =
    if leb nodes (length s.failures)
    then some (err (error_or s.last_error integrity))
    else if not s.attempted
    then next s
    else if more
    then next s
    else some (err (error_or s.last_error (upstream "all nodes failed a stream chunk")))

-- Where the passes run out the task still waits.
unfoldable pub fetch_parallel_chunk :
    List ℕ → StreamChunk → Fetching → List ChunkPass → Option (ApiResult (List ℕ))
fetch_parallel_chunk nodes chunk s [] = none
fetch_parallel_chunk nodes chunk s (pass ∷ passes) =
    let t = record s { failures = mark_all pass.marked s.failures; attempted = false } in
    let next =
      after_visits (length nodes) pass.more (λ r. fetch_parallel_chunk nodes chunk r passes)
        (fetch_pass chunk t pass.visits) in
    if any (λ node. not (is_marked node t.failures)) nodes
    then next
    else some (err (error_or t.last_error integrity))

-- What becomes of a chunk that was fetched: it is written and sent, the write fails after some
-- bytes, or it is written and the client is gone.
pub data Delivery : Type 0 where
  goes_out : Delivery
  not_written : ℕ → Delivery
  not_sent : Delivery

-- The task of a chunk: whether the memory for it is granted in time, the nodes that are marked when
-- it starts, its passes, and the delivery.
pub record Task : Type 0 where
  pub has_memory : Bool
  pub marked : List ℕ
  pub passes : List ChunkPass
  pub delivery : Delivery

abbrev pub run_task : List ℕ → StreamChunk → Task → Option (ApiResult (List ℕ))
run_task nodes chunk task =
    if task.has_memory
    then fetch_parallel_chunk nodes chunk
        (record { failures = task.marked; last_error = none; attempted = false }) task.passes
    else some (err (upstream "stream byte capacity remained unavailable"))

-- A chunk goes to the hash, to the file and to the client.
abbrev pub deliver : Relay → List ℕ → Delivery → (Relay → Outcome) → Outcome
deliver s bytes goes_out next = next (passed_on true s bytes)
deliver s bytes (not_written n) next =
    (record s { file = s.file ++ take n bytes; hashed = s.hashed ++ bytes }, some (err io))
deliver s bytes not_sent next = (
  record s { file = s.file ++ bytes; hashed = s.hashed ++ bytes },
  some (err stream_disconnected),
)

abbrev pub take_result :
    Relay → Delivery → (Relay → Outcome) → Option (ApiResult (List ℕ)) → Outcome
take_result s delivery next none = (s, none)
take_result s delivery next (some (err error)) = (s, some (err error))
take_result s delivery next (some (ok bytes)) = deliver s bytes delivery next

-- The results in the order of the chunks.
unfoldable pub relay_chunks : List ℕ → Relay → List StreamChunk → List Task → Outcome
relay_chunks nodes s [] tasks = (s, some (ok tt))
relay_chunks nodes s (chunk ∷ chunks) [] = (s, none)
relay_chunks nodes s (chunk ∷ chunks) (task ∷ tasks) =
    take_result s task.delivery (λ t. relay_chunks nodes t chunks tasks) (run_task nodes chunk task)

-- The nodes, the size of a chunk, and the tasks.
pub record ParallelRelay : Type 0 where
  pub nodes : List ℕ
  pub chunk_size : ℕ
  pub tasks : List Task

abbrev pub relay_cut : ParallelRelay → Relay → Option (List StreamChunk) → Outcome
relay_cut p s none = (s, none)
relay_cut p s (some chunks) = relay_chunks p.nodes s chunks p.tasks

unfoldable pub relay_parallel_ranges : StreamWindow → ParallelRelay → Relay → Outcome
relay_parallel_ranges w p s = relay_cut p s (stream_chunks p.chunk_size w s.offset)
