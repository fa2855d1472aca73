-- ===== src/Transfer/Attempt.antt =====
-- One attempt of `download_chunk` of src/scheduler.rs on a node: every branch keeps the part file a
-- beginning of its range.
use donkey.Base.{
  ℕ, suc, ◌+◌, ◌-◌, ◌≤◌, ◌<◌, u64_max, subst, ◌≡◌, refl, inl, inr, none, some, List, [], ◌∷◌,
  length, arith, ok, err, Bool-cases, ltb, ◌==◌, ==_iff, lt→ltb,
}
use donkey.Chunk.{Chunk}
use donkey.Chunk.Cover.{slice}
use donkey.Transfer.{
  File, Response, Reply, file_size, stream_response_to_file, append_response_to_file,
  content_range_matches, is_range, is_length, save_range, receive_range, try_node,
}
use donkey.Transfer.Frames.{sent}
use donkey.Transfer.Begins.{Begins, IsPart, IsHonest, rest_of_range, Good, writer-Good, full_part}

module _ (blob : List ℕ) (chunk : Chunk) (small : chunk.end + 1 < u64_max) where
  stream-Good :
      (response : Response) (destination : File)
      → IsPart blob chunk destination
      → chunk.start ≤ chunk.end
      → Begins (sent response.body) (slice blob chunk.start chunk.end)
      → Good blob chunk
          (stream_response_to_file response destination (some (chunk.end - chunk.start + 1)))
  unfolding stream_response_to_file
  stream-Good response destination part le b = elim (Bool-cases response.opens) [
    | inl open_ok ↦ rw open_ok (
        writer-Good blob chunk [] (slice blob chunk.start chunk.end) (chunk.end - chunk.start + 1)
          response.body refl (omega arith) (omega arith) b)
    | inr shut ↦ rw shut (part, λ e. cc)
  ]

  append-Good :
      (response : Response) (content : List ℕ)
      → IsPart blob chunk (some content)
      → chunk.start + length content ≤ chunk.end
      → Begins (sent response.body) (slice blob (chunk.start + length content) chunk.end)
      → Good blob chunk (
          append_response_to_file response
            (some content)
            (chunk.end - (chunk.start + length content) + 1))
  unfolding append_response_to_file
  append-Good response content (zs, e) le b = elim (Bool-cases response.opens) [
    | inl open_ok ↦ rw open_ok (
        writer-Good blob chunk content zs (chunk.end - (chunk.start + length content) + 1)
          response.body e (omega arith) (omega arith)
          (subst (Begins (sent response.body))
            (rest_of_range blob content zs chunk.start chunk.end e) b))
    | inr shut ↦ rw shut ((zs, e), λ e. cc)
  ]

  -- With a matching Content-Range the body goes to the writer that fits the part file.
  pub save-Good :
      (response : Response) (destination : File)
      → IsPart blob chunk destination
      → chunk.start + file_size destination ≤ chunk.end
      → Begins (sent response.body) (slice blob (chunk.start + file_size destination) chunk.end)
      → Good blob chunk (save_range chunk (file_size destination) destination response)
  unfolding save_range
  save-Good response none part le b =
      let z : chunk.start + 0 ≡ chunk.start = omega arith in
      rw z (stream-Good response none part (omega arith) (rw z at b))
  save-Good response (some []) part le b =
      let z : chunk.start + 0 ≡ chunk.start = omega arith in
      rw z (stream-Good response (some []) part (omega arith) (rw z at b))
  save-Good response (some (x ∷ content)) part le b =
      rw (lt→ltb 0 (suc (length content)) (omega arith))
        (append-Good response (x ∷ content) part le b)

  receive_range-Good :
      (destination : File) (reply : Reply)
      → IsPart blob chunk destination
      → chunk.start + file_size destination ≤ chunk.end
      → IsHonest blob reply
      → Good blob chunk (receive_range chunk (file_size destination) destination reply)
  unfolding receive_range content_range_matches
  receive_range-Good destination (err error) part le h = (part, λ e. cc)
  receive_range-Good destination (ok response) part le h =
      let start = chunk.start + file_size destination in
      elim (Bool-cases (response.status == 206)) [
        | inr other ↦ rw other (part, λ e. cc)
        | inl partial ↦
            elim (Bool-cases (is_length response.content_length (chunk.end - start + 1))) [
              | inr wrong ↦ rw (partial, wrong) (part, λ e. cc)
              | inl sized ↦
                  elim (Bool-cases
                    (is_range response.content_range start chunk.end chunk.total_size)) [
                      | inr wrong ↦ rw (partial, sized, wrong) (part, λ e. cc)
                      | inl matched ↦
                          rw (partial, sized, matched)
                            (save-Good response destination part le
                              (h start chunk.end chunk.total_size ((==_iff _ _).0 partial) matched))
                    ]
            ]
      ]

  pub try_node-Good :
      (destination : File) (reply : Reply)
      → chunk.start ≤ chunk.end
      → IsPart blob chunk destination
      → IsHonest blob reply
      → Good blob chunk (try_node chunk destination reply)
  unfolding try_node
  try_node-Good destination reply le part h =
      elim (Bool-cases (ltb (chunk.end - chunk.start + 1) (file_size destination))) [
        | inl long ↦ rw long (tt, λ e. cc)
        | inr fits ↦ elim (Bool-cases (ltb chunk.end (chunk.start + file_size destination))) [
          | inl full ↦
              rw (fits, full)
                (part, λ e. full_part blob chunk destination part (ground arith) (ground arith))
          | inr short ↦
              rw (fits, short) (receive_range-Good destination reply part (ground arith) h)
        ]
      ]
