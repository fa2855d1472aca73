-- ===== src/Transfer/Examples.antt =====
-- The range downloads of src/scheduler.rs at concrete inputs.
use donkey.Base.{ℕ, ◌≡◌, refl, none, some, List, [], ◌∷◌, arith, ok, All, true, Option}
use mathlib.Core.Option.{some-injective}
use donkey.Error.{ApiResult}
use donkey.Chunk.{Chunk, chunks}
use donkey.Chunk.Cover.{slice}
use donkey.Transfer.{
  File, Response, arrives, breaks, Reply, merge_results, place_parts, merge_parts, fetch_part,
  download_chunk, try_candidates, try_node, receive_range, content_range_matches, save_range,
  stream_response_to_file, write_frames, append_response_to_file,
}
use donkey.Transfer.Begins.{IsPart, IsHonest, IsHonestVisit}
use donkey.Transfer.Retry.{fetch_part-slice, fetch_part-IsPart}
use donkey.Transfer.Parts.{Brings, merge_results-blob}

abbrev blob : List ℕ
blob = 11 ∷ 12 ∷ 13 ∷ 14 ∷ 15 ∷ []

abbrev middle : Chunk
middle = record { index = 1; start = 1; end = 3; total_size = 5 }

-- The first node breaks off after a byte, the second serves the rest.
abbrev first_reply : Response
first_reply = record {
  status = 206;
  content_length = some 3;
  content_range = some (record { first_byte = 1; last_byte = 3; complete_length = 5 });
  body = arrives (12 ∷ []) ∷ breaks ∷ [];
  opens = true;
}

abbrev second_reply : Response
second_reply = record {
  status = 206;
  content_length = some 2;
  content_range = some (record { first_byte = 2; last_byte = 3; complete_length = 5 });
  body = arrives (13 ∷ 14 ∷ []) ∷ [];
  opens = true;
}

abbrev schedule : List (List (Option Reply))
schedule = (none ∷ []) ∷ (some (ok first_reply) ∷ none ∷ some (ok second_reply) ∷ []) ∷ []

resumed : fetch_part middle none schedule ≡ (some (12 ∷ 13 ∷ 14 ∷ []), some (ok tt))
unfolding fetch_part download_chunk try_candidates try_node receive_range content_range_matches
    save_range stream_response_to_file write_frames append_response_to_file
resumed = refl

first-IsHonest : IsHonest blob (ok first_reply)
first-IsHonest first last complete s m =
    let e : 1 ≡ first = ground arith in
    let e' : 3 ≡ last = ground arith in rw (← e, ← e') (13 ∷ 14 ∷ [], refl)

second-IsHonest : IsHonest blob (ok second_reply)
second-IsHonest first last complete s m =
    let e : 2 ≡ first = ground arith in
    let e' : 3 ≡ last = ground arith in rw (← e, ← e') ([], refl)

schedule_honest : All (All (IsHonestVisit blob)) schedule
schedule_honest = ((tt, tt), ((first-IsHonest, (tt, (second-IsHonest, tt))), tt))

fetch_part-slice_example : (fetch_part middle none schedule).0 ≡ some (slice blob 1 3)
unfolding fetch_part download_chunk try_candidates try_node receive_range content_range_matches
    save_range stream_response_to_file write_frames append_response_to_file
fetch_part-slice_example =
    fetch_part-slice blob middle none schedule (omega arith) (omega arith) tt schedule_honest refl

fetch_part-IsPart_example : IsPart blob middle (fetch_part middle none schedule).0
fetch_part-IsPart_example =
    fetch_part-IsPart blob middle none schedule (omega arith) (omega arith) tt schedule_honest

-- The parts of five bytes arrive out of order.
abbrev arrived : List (ApiResult (ℕ × File))
arrived = ok (2, some (15 ∷ [])) ∷ ok (0, some (11 ∷ 12 ∷ [])) ∷ ok (1, some (13 ∷ 14 ∷ [])) ∷ []

abbrev layout : List Chunk
layout =
    record { index = 0; start = 0; end = 1; total_size = 5 }
    ∷ record { index = 1; start = 2; end = 3; total_size = 5 }
    ∷ record { index = 2; start = 4; end = 4; total_size = 5 }
    ∷ []

arrived_bring : All (Brings blob layout) arrived
arrived_bring = (
  (λ c e. rw (← some-injective _ _ e)),
  ((λ c e. rw (← some-injective _ _ e)), ((λ c e. rw (← some-injective _ _ e)), tt)),
)

merge_results-blob_example : blob ≡ blob
unfolding chunks merge_results place_parts merge_parts
merge_results-blob_example =
    merge_results-blob 2 blob blob layout arrived (omega arith) (omega arith) refl arrived_bring
      refl
