-- ===== src/Relay/Ranges.antt =====
-- The ranges that src/registry.rs fetches in parallel: they tile the window,
-- and sent in order they are the window.
use donkey.Base.{
  ℕ, zero, suc, ◌+◌, ◌-◌, ◌≤◌, ◌<◌, min, u64_max, add64, saturating_add, true, Option, none, some,
  List, [], ◌∷◌, ◌++◌, length, take, take_add, drop, leb, ◌≡◌, refl, sym, ap, ◌∙◌, subst, inl, inr,
  ok, err, All, append-nil, leb→le, Bool-cases, arith,
}
use mathlib.Core.Option
use donkey.Error.{ApiResult}
use donkey.Chunk.Cover.{slice}
use donkey.Transfer.Begins.{Begins}
use donkey.Relay.{StreamWindow, Relay, Outcome, passed_on}
use donkey.Relay.Parallel.{
  StreamChunk, chunk_range, Delivery, goes_out, not_written, not_sent, Task, run_task, deliver,
  take_result, relay_chunks, ParallelRelay, relay_cut, relay_parallel_ranges,
}
use donkey.Relay.Fetched.{IsHonestTask, Brought, run_task-Brought}
use donkey.Relay.InStep.{
  IsInStep, IsInStep-kept, passed_on-IsInStep, unsent_kept, all_kept, IsRelayed, IsRelayed-complete,
  IsRelayed-unfinished,
}

-- From `start` on the chunks follow one another to the end of the window.
abbrev pub Follows : ℕ → ℕ → List StreamChunk → Type 0
Follows start end [] = end < start
Follows start end (c ∷ cs) =
    (c.start ≡ start) × (start ≤ c.end) × (c.end ≤ end) × Follows (c.end + 1) end cs

pub chunk_range-Follows :
    (fuel size total end sequence start : ℕ)
    → end < u64_max
    → end + 1 - start < fuel
    → (cs : List StreamChunk) × (chunk_range fuel size total end sequence start ≡ some cs)
      × Follows start end cs
unfolding chunk_range
chunk_range-Follows zero size total end sequence start small enough = elim enough [ ]
chunk_range-Follows (suc fuel) size total end sequence start small enough =
    let last = min (saturating_add start (size - 1)) end in
    elim (Bool-cases (leb start end)) [
      | inl more ↦
          let le = leb→le start end more in
          let chunk : StreamChunk = record {
            sequence = sequence;
            start = start;
            end = last;
            total = total;
          } in
          let next : add64 last 1 ≡ last + 1 = omega arith in
          let (cs, e, f) =
            chunk_range-Follows fuel size total end (suc sequence) (last + 1) small (omega arith) in
          (
            chunk ∷ cs,
            rw more (
                ap (λ o. Option.map (λ rest. chunk ∷ rest) o)
                  (ap (λ n. chunk_range fuel size total end (suc sequence) n) next ∙ e)),
            (refl, omega arith, omega arith, f),
          )
      | inr done ↦ ([], rw done refl, ground arith)
    ]

module _ (blob : List ℕ) (w : StreamWindow) where
  -- The bytes of the next chunk go on in the window.
  slice-Begins :
      (start end last : ℕ)
      → start ≤ last
      → last ≤ end
      → Begins (slice blob start last) (slice blob start end)
  slice-Begins start end last some_left le =
      let n = last + 1 - start in
      let rest = drop start blob in
      (
        take (end - last) (drop n rest),
        sym (take_add n (end - last) rest) ∙ ap (λ k. take k rest) (omega arith),
      )

  by_delivery :
      (s : Relay) (bytes : List ℕ) (next : Relay → Outcome) (delivery : Delivery)
      → IsRelayed blob w (deliver s bytes goes_out next)
      → ((n : ℕ) → IsRelayed blob w (deliver s bytes (not_written n) next))
      → IsRelayed blob w (deliver s bytes not_sent next)
      → IsRelayed blob w (deliver s bytes delivery next)
  by_delivery s bytes next goes_out a b c = a
  by_delivery s bytes next (not_written n) a b c = b n
  by_delivery s bytes next not_sent a b c = c

  deliver-IsRelayed :
      (s : Relay) (bytes : List ℕ) (last : ℕ) (delivery : Delivery) (next : Relay → Outcome)
      → IsInStep blob w s
      → s.offset ≤ last
      → last ≤ w.end
      → (bytes ≡ slice blob s.offset last) × (length bytes ≡ last - s.offset + 1)
      → ((t : Relay) → IsInStep blob w t → t.offset ≡ last + 1 → IsRelayed blob w (next t))
      → IsRelayed blob w (deliver s bytes delivery next)
  deliver-IsRelayed s bytes last delivery next k le within (e, full) goes =
      let begins : Begins (bytes ++ []) (slice blob s.offset w.end) =
        subst (λ b. Begins b (slice blob s.offset w.end)) (sym (append-nil bytes ∙ e))
          (slice-Begins s.offset w.end last le within) in
      by_delivery s bytes next delivery
        (goes (passed_on true s bytes) (passed_on-IsInStep blob w true s bytes [] k begins).0
          (omega (arith, full)))
        (λ n.
          IsRelayed-unfinished blob w
            (record s { file = s.file ++ take n bytes; hashed = s.hashed ++ bytes })
            (unsent_kept blob w s bytes [] n k begins) (λ q. cc))
        (IsRelayed-unfinished blob w
          (record s { file = s.file ++ bytes; hashed = s.hashed ++ bytes })
          (all_kept blob w s bytes [] k begins) (λ q. cc))

  take_result-IsRelayed :
      (s : Relay) (chunk : StreamChunk) (delivery : Delivery) (next : Relay → Outcome)
      (result : Option (ApiResult (List ℕ)))
      → IsInStep blob w s
      → chunk.start ≡ s.offset
      → chunk.start ≤ chunk.end
      → chunk.end ≤ w.end
      → Brought blob chunk result
      → ((t : Relay) → IsInStep blob w t → t.offset ≡ chunk.end + 1 → IsRelayed blob w (next t))
      → IsRelayed blob w (take_result s delivery next result)
  take_result-IsRelayed s chunk delivery next none k at le within b goes =
      IsRelayed-unfinished blob w s (IsInStep-kept blob w k) (λ q. cc)
  take_result-IsRelayed s chunk delivery next (some (err error)) k at le within b goes =
      IsRelayed-unfinished blob w s (IsInStep-kept blob w k) (λ q. cc)
  take_result-IsRelayed s chunk delivery next (some (ok bytes)) k at le within (e, full) goes =
      deliver-IsRelayed s bytes chunk.end delivery next k (omega arith) within
        (e ∙ ap (λ o. slice blob o chunk.end) at, omega arith) goes

  relay_chunks-IsRelayed :
      (nodes : List ℕ) (s : Relay) (chunks : List StreamChunk) (tasks : List Task)
      → IsInStep blob w s
      → Follows s.offset w.end chunks
      → All (IsHonestTask blob) tasks
      → IsRelayed blob w (relay_chunks nodes s chunks tasks)
  unfolding relay_chunks
  relay_chunks-IsRelayed nodes s [] tasks k past honest = IsRelayed-complete blob w k past
  relay_chunks-IsRelayed nodes s (chunk ∷ chunks) [] k f honest =
      IsRelayed-unfinished blob w s (IsInStep-kept blob w k) (λ q. cc)
  relay_chunks-IsRelayed nodes s (chunk ∷ chunks) (task ∷ tasks) k (at, le, within, f) honest =
      take_result-IsRelayed s chunk task.delivery (λ t. relay_chunks nodes t chunks tasks)
        (run_task nodes chunk task) k at (omega arith) within
        (run_task-Brought blob chunk nodes task honest.0)
        (λ t k' next.
          relay_chunks-IsRelayed nodes t chunks tasks k'
            (subst (λ o. Follows o w.end chunks) (sym next) f) honest.1)

  -- In order, the ranges are the rest of the window.
  pub relay_parallel_ranges-IsRelayed :
      (p : ParallelRelay) (s : Relay)
      → w.end < u64_max
      → IsInStep blob w s
      → All (IsHonestTask blob) p.tasks
      → IsRelayed blob w (relay_parallel_ranges w p s)
  unfolding relay_parallel_ranges
  relay_parallel_ranges-IsRelayed p s small k honest =
      let (chunks, e, f) =
        chunk_range-Follows (suc (w.end + 1 - s.offset)) p.chunk_size w.total w.end 0 s.offset small
          (omega arith) in
      subst (λ o. IsRelayed blob w (relay_cut p s o)) (sym e)
        (relay_chunks-IsRelayed p.nodes s chunks p.tasks k f honest)
