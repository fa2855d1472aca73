-- ===== src/Relay/Examples.antt =====
-- The relay of src/registry.rs on a stream that breaks and is resumed.
use donkey.Base.{
  ℕ, ◌≡◌, ◌≢◌, refl, none, some, List, [], ◌∷◌, arith, ok, All, true, Option, Bool, same_codes,
}
use mathlib.Core.Option.{some-injective}
use donkey.Relay.{
  arrives, breaks, StreamWindow, Answer, Reply, stream_window, remaining_window_bytes, resume_pass,
  resume_stream_response,
}
use donkey.Relay.Stream.{Resumes, is_complete, read_body, relay_loop, relay_transfer, finish_relay}
use donkey.Relay.Parallel.{
  Visit, Task, goes_out, ParallelRelay, relay_parallel_ranges, relay_chunks, chunk_range,
  fetch_parallel_chunk, fetch_pass, receive_chunk, collect,
}
use donkey.Relay.Honest.{IsHonestAnswer, AreHonest}
use donkey.Relay.InStep.{IsRelayed}
use donkey.Relay.Sent.{relay_transfer-IsRelayed}
use donkey.Relay.Ends.{relay_transfer_ends}
use donkey.Relay.Admitted.{relay_admits}

abbrev blob : List ℕ
blob = 11 ∷ 12 ∷ 13 ∷ []

abbrev whole : StreamWindow
whole = record { start = 0; end = 2; total = 3 }

-- The first node breaks off after a byte, the second serves the rest.
abbrev first_answer : Answer
first_answer = record {
  status = 200;
  content_length = some 3;
  content_range = none;
  body = arrives (11 ∷ []) ∷ breaks ∷ [];
}

abbrev second_answer : Answer
second_answer = record {
  status = 206;
  content_length = some 2;
  content_range = some (record { first_byte = 1; last_byte = 2; complete_length = 3 });
  body = arrives (12 ∷ 13 ∷ []) ∷ [];
}

abbrev resumes : Resumes
resumes = (((none ∷ some (ok second_answer) ∷ []), true) ∷ []) ∷ []

relayed :
    relay_transfer whole none [] first_answer resumes
    ≡ (record { offset = 3; file = blob; sent = blob; hashed = blob }, some (ok tt))
unfolding relay_transfer relay_loop read_body resume_stream_response resume_pass stream_window
    remaining_window_bytes
relayed = refl

first-IsHonest : IsHonestAnswer blob first_answer
unfolding stream_window
first-IsHonest v h = let e = some-injective _ _ h in rw (← e) (12 ∷ 13 ∷ [], refl)

second-IsHonest : IsHonestAnswer blob second_answer
unfolding stream_window remaining_window_bytes
second-IsHonest v h = let e = some-injective _ _ h in rw (← e) ([], refl)

resumes_honest : All (AreHonest blob) resumes
resumes_honest = (((tt, (second-IsHonest, tt)), tt), tt)

first-stream_window : stream_window first_answer ≡ some whole
unfolding stream_window
first-stream_window = refl

-- In ranges of two bytes: the first node does not know ranges, and the second serves both.
abbrev range_of : ℕ → ℕ → ℕ → List ℕ → Answer
range_of first last length bytes = record {
  status = 206;
  content_length = some length;
  content_range = some (record { first_byte = first; last_byte = last; complete_length = 3 });
  body = arrives bytes ∷ [];
}

abbrev visit : ℕ → Answer → Visit
visit node answer = record { marked = []; node = node; reply = some (ok answer) }

abbrev task_of : List Visit → Task
task_of visits = record {
  has_memory = true;
  marked = [];
  passes = record { marked = []; visits = visits; more = true } ∷ [];
  delivery = goes_out;
}

abbrev two_tasks : ParallelRelay
two_tasks = record {
  nodes = 1 ∷ 2 ∷ [];
  chunk_size = 2;
  tasks =
      task_of (visit 1 first_answer ∷ visit 2 (range_of 0 1 2 (11 ∷ 12 ∷ [])) ∷ [])
      ∷ task_of (visit 2 (range_of 2 2 1 (13 ∷ [])) ∷ [])
      ∷ [];
}

relayed_in_parallel :
    relay_transfer whole (some two_tasks) [] first_answer []
    ≡ (record { offset = 3; file = blob; sent = blob; hashed = blob }, some (ok tt))
unfolding relay_transfer relay_parallel_ranges relay_chunks chunk_range fetch_parallel_chunk
    fetch_pass receive_chunk collect stream_window remaining_window_bytes
relayed_in_parallel = refl

front-IsHonest : IsHonestAnswer blob (range_of 0 1 2 (11 ∷ 12 ∷ []))
unfolding stream_window remaining_window_bytes
front-IsHonest v h = let e = some-injective _ _ h in rw (← e) ([], refl)

back-IsHonest : IsHonestAnswer blob (range_of 2 2 1 (13 ∷ []))
unfolding stream_window remaining_window_bytes
back-IsHonest v h = let e = some-injective _ _ h in rw (← e) ([], refl)

relay_transfer-IsRelayed_example :
    IsRelayed blob whole (relay_transfer whole (some two_tasks) [] first_answer resumes)
relay_transfer-IsRelayed_example =
    relay_transfer-IsRelayed blob whole (some two_tasks) [] first_answer resumes (omega arith)
      first-stream_window first-IsHonest resumes_honest
      (((first-IsHonest, (front-IsHonest, tt)), tt), (((back-IsHonest, tt), tt), tt))
      (λ complete. (blob, refl))

-- A node that brings nothing ends the relay of one byte.
abbrev empty_answer : Answer
empty_answer = record {
  status = 206;
  content_length = some 1;
  content_range = some (record { first_byte = 1; last_byte = 1; complete_length = 3 });
  body = breaks ∷ [];
}

abbrev one_byte : StreamWindow
one_byte = record { start = 1; end = 1; total = 3 }

abbrev empty_resume : List (List (Option Reply) × Bool)
empty_resume = ((some (ok empty_answer) ∷ []), true) ∷ []

relay_transfer_ends_example :
    (relay_transfer one_byte none [] empty_answer
      (empty_resume ∷ empty_resume ∷ empty_resume ∷ empty_resume ∷ [])).1
    ≢ none
relay_transfer_ends_example =
    relay_transfer_ends one_byte [] empty_answer
      (empty_resume ∷ empty_resume ∷ empty_resume ∷ empty_resume ∷ []) (omega arith)

-- With a hash that is the text itself.
relay_admits_example :
    (is_complete whole ≡ true)
    × (blob ≡ blob)
    × ((relay_transfer whole none [] first_answer resumes).0.sent ≡ blob)
unfolding relay_transfer relay_loop read_body resume_stream_response resume_pass stream_window
    remaining_window_bytes finish_relay same_codes
relay_admits_example =
    relay_admits (λ content. content) whole blob none [] first_answer resumes (ok tt) refl
