-- ===== src/Transfer/Frames.antt =====
-- What the two file writers of src/scheduler.rs leave in the file, on success and on failure.
use donkey.Base.{
  ℕ, ◌+◌, ◌≤◌, ◌<◌, u64_max, saturating_add, ◌≡◌, sym, ap, ◌∙◌, inl, inr, some, List, [], ◌∷◌, ◌++◌,
  append_assoc, append-nil, length, length-append, take, take_append, min, arith, ok, err,
  take-append_past, take-min, Bool-cases, ltb,
}
use donkey.Transfer.{Frame, arrives, breaks, short_write, write_frames}
use donkey.Error.{AppError, ApiResult, integrity, io}

-- All bytes of a body, in order, until the connection breaks.
abbrev pub sent : List Frame → List ℕ
sent [] = []
sent (arrives bytes ∷ frames) = bytes ++ sent frames
sent (breaks ∷ frames) = []
sent (short_write bytes n ∷ frames) = bytes ++ sent frames

-- A writer that expects `n` bytes and has `received` of them adds a first part of `bytes` that
-- keeps to `n`, and succeeds only if that part is all of `bytes` and makes the `n` bytes full.
abbrev pub Wrote : ℕ → ℕ → List ℕ → List ℕ → List ℕ × ApiResult (Unit {0}) → Type 0
Wrote n received content bytes written =
    (k : ℕ) × (written.0 ≡ content ++ take k bytes)
    × (k ≤ length bytes)
    × (k + received ≤ n)
    × (written.1 ≡ ok tt → (k ≡ length bytes) × (k + received ≡ n))

Wrote-err :
    (n received : ℕ) (content bytes : List ℕ) (e : AppError)
    → received ≤ n
    → Wrote n received content bytes (content, err e)
Wrote-err n received content bytes e le =
    (0, sym (append-nil content), omega arith, omega arith, λ q. cc)

Wrote-arrives :
    (n received : ℕ) (content bytes rest : List ℕ) (w : List ℕ × ApiResult (Unit {0}))
    → Wrote n (received + length bytes) (content ++ bytes) rest w
    → Wrote n received content (bytes ++ rest) w
Wrote-arrives n received content bytes rest w (k, e, le, fits, done) = (
  length bytes + k,
  e
      ∙ append_assoc content bytes (take k rest)
      ∙ ap (λ r. content ++ r) (sym (take-append_past k bytes rest)),
  omega (arith, length-append {0} bytes rest),
  omega arith,
  λ q. (omega (arith, length-append {0} bytes rest, (done q).0), omega (arith, (done q).1)),
)

Wrote-short :
    (n received m : ℕ) (content bytes rest : List ℕ) (e : AppError)
    → received + length bytes ≤ n
    → Wrote n received content (bytes ++ rest) (content ++ take m bytes, err e)
Wrote-short n received m content bytes rest e le = (
  min m (length bytes),
  ap (λ r. content ++ r)
      (take-min m bytes ∙ sym (take_append (min m (length bytes)) bytes rest (omega arith))),
  omega (arith, length-append {0} bytes rest),
  omega arith,
  λ q. cc,
)

pub write_frames-Wrote :
    (n received : ℕ) (content : List ℕ) (frames : List Frame)
    → n < u64_max
    → received ≤ n
    → Wrote n received content (sent frames) (write_frames (some n) received content frames)
unfolding write_frames
write_frames-Wrote n received content [] h le =
    (0, sym (append-nil content), omega arith, omega arith, λ e. ground arith)
write_frames-Wrote n received content (arrives bytes ∷ frames) h le =
    elim (Bool-cases (ltb n (saturating_add received (length bytes)))) [
      | inl over ↦ rw over (Wrote-err n received content (bytes ++ sent frames) integrity le)
      | inr fits ↦
          let e : saturating_add received (length bytes) ≡ received + length bytes = ground arith in
          rw fits (
            Wrote-arrives n received content bytes (sent frames) _ (
              rw e (
                write_frames-Wrote n (received + length bytes) (content ++ bytes) frames h
                  (ground arith))))
    ]
write_frames-Wrote n received content (breaks ∷ frames) h le = Wrote-err n received content [] _ le
write_frames-Wrote n received content (short_write bytes m ∷ frames) h le =
    elim (Bool-cases (ltb n (saturating_add received (length bytes)))) [
      | inl over ↦ rw over (Wrote-err n received content (bytes ++ sent frames) integrity le)
      | inr fits ↦ rw fits (Wrote-short n received m content bytes (sent frames) io (ground arith))
    ]
