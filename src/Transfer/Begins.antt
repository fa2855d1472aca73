-- ===== src/Transfer/Begins.antt =====
-- Part files of src/scheduler.rs as beginnings of a byte range, and the file writers on them.
use donkey.Base.{
  ℕ, ◌+◌, ◌-◌, ◌≤◌, ◌<◌, u64_max, subst, ◌≡◌, sym, ap, ◌∙◌, none, some, List, [], ◌∷◌, ◌++◌,
  append_assoc, append-nil, length, length-append, length-take, take, drop, take-append-drop,
  drop-append_length, drop-take, drop-drop, arith, ok, err, Option, true,
}
use donkey.Error.{ApiResult}
use donkey.Chunk.{Chunk}
use donkey.Chunk.Cover.{slice}
use donkey.Transfer.{
  File, Frame, as_file, Reply, file_size, write_frames, is_range, Progress, fetched,
}
use donkey.Transfer.Frames.{sent, Wrote, write_frames-Wrote}

abbrev pub Begins : List ℕ → List ℕ → Type 0
Begins xs ys = (zs : List ℕ) × (xs ++ zs ≡ ys)

-- A part file holds a beginning of its range of the blob, or does not exist.
abbrev pub IsPart : List ℕ → Chunk → File → Type 0
IsPart blob chunk none = Unit
IsPart blob chunk (some content) = Begins content (slice blob chunk.start chunk.end)

-- What a Range response promises (RFC 9110): a 206 whose Content-Range names a range carries the
-- bytes of that range, of which the connection may deliver only a beginning.
abbrev pub IsHonest : List ℕ → Reply → Type 0
IsHonest blob (err error) = Unit
IsHonest blob (ok response) =
    (first last complete : ℕ)
    → response.status ≡ 206
    → is_range response.content_range first last complete ≡ true
    → Begins (sent response.body) (slice blob first last)

-- A node that is passed over for want of a lease says nothing.
abbrev pub IsHonestVisit : List ℕ → Option Reply → Type 0
IsHonestVisit blob none = Unit
IsHonestVisit blob (some reply) = IsHonest blob reply

pub Begins-written :
    (n : ℕ) (content zs bytes : List ℕ) (w : List ℕ × ApiResult (Unit {0}))
    → Wrote n 0 content bytes w
    → Begins bytes zs
    → Begins w.0 (content ++ zs)
Begins-written n content zs bytes w (k, e, _, _, _) (ws, b) = (
  drop k bytes ++ ws,
  ap (λ r. r ++ (drop k bytes ++ ws)) e
      ∙ append_assoc content (take k bytes) (drop k bytes ++ ws)
      ∙ ap (λ r. content ++ r)
          (sym (append_assoc (take k bytes) (drop k bytes) ws)
            ∙ ap (λ r. r ++ ws) (take-append-drop k bytes)
            ∙ b),
)

-- A beginning that is as long as the range is all of it.
pub Begins-full : (n : ℕ) (xs ys : List ℕ) → Begins xs (take n ys) → n ≤ length xs → xs ≡ take n ys
Begins-full n xs ys ([], e) h = sym (append-nil xs) ∙ e
Begins-full n xs ys (z ∷ zs, e) h =
    absurd (omega (arith, ap length e, length-append {0} xs (z ∷ zs), length-take {0} n ys))

-- The rest of a range, after the bytes that are there.
pub rest_of_range :
    (blob content zs : List ℕ) (start end : ℕ)
    → content ++ zs ≡ slice blob start end
    → slice blob (start + length content) end ≡ zs
rest_of_range blob content zs start end e =
    let k = length content in
    let m : end + 1 - (start + k) ≡ end + 1 - start - k = omega arith in
    ap (λ r. take (end + 1 - (start + k)) r) (sym (drop-drop k start blob))
    ∙ ap (λ r. take r (drop k (drop start blob))) m
    ∙ sym (drop-take k (end + 1 - start) (drop start blob))
    ∙ ap (drop k) (sym e)
    ∙ drop-append_length content zs

-- An attempt keeps the part a beginning of its range, and ends well only with the whole range.
abbrev pub Good : List ℕ → Chunk → File × ApiResult (Unit {0}) → Type 0
Good blob chunk r =
    IsPart blob chunk r.0 × (r.1 ≡ ok tt → r.0 ≡ some (slice blob chunk.start chunk.end))

pub writer-Good :
    (blob : List ℕ) (chunk : Chunk) (content zs : List ℕ) (expected : ℕ) (frames : List Frame)
    → content ++ zs ≡ slice blob chunk.start chunk.end
    → chunk.end + 1 - chunk.start ≡ length content + expected
    → expected < u64_max
    → Begins (sent frames) zs
    → Good blob chunk (as_file (write_frames (some expected) 0 content frames))
writer-Good blob chunk content zs expected frames e size small b =
    let w = write_frames (some expected) 0 content frames in
    let wrote = write_frames-Wrote expected 0 content frames small (omega arith) in
    let goal = slice blob chunk.start chunk.end in
    let begun : Begins w.0 goal =
      subst (λ g. Begins w.0 g) e (Begins-written expected content zs (sent frames) w wrote b) in
    let (k, put, le, _, done) = wrote in
    (
      begun,
      λ q. ap some (
          Begins-full (chunk.end + 1 - chunk.start) w.0 (drop chunk.start blob) begun (
            omega (
              arith,
              ap length put,
              length-append {0} content (take k (sent frames)),
              length-take {0} k (sent frames),
              (done q).0,
              (done q).1,
            ))),
    )

-- What a pass over the candidates leaves, whatever the order and the failures.
abbrev pub GoodPass : List ℕ → Chunk → File × Progress → Type 0
GoodPass blob chunk r =
    IsPart blob chunk r.0 × (r.1 ≡ fetched → r.0 ≡ some (slice blob chunk.start chunk.end))

-- What a whole chunk download leaves.
abbrev pub GoodChunk : List ℕ → Chunk → File × Option (ApiResult (Unit {0})) → Type 0
GoodChunk blob chunk r =
    IsPart blob chunk r.0 × (r.1 ≡ some (ok tt) → r.0 ≡ some (slice blob chunk.start chunk.end))

module _ (blob : List ℕ) (chunk : Chunk) where
  pub full_part :
      (destination : File)
      → IsPart blob chunk destination
      → chunk.end + 1 - chunk.start ≤ file_size destination
      → 0 < file_size destination
      → destination ≡ some (slice blob chunk.start chunk.end)
  full_part none part h p = absurd (omega arith)
  full_part (some content) part h p =
      ap some (Begins-full (chunk.end + 1 - chunk.start) content (drop chunk.start blob) part h)
