-- ===== src/Relay/InStep.antt =====
-- What a relay of src/registry.rs keeps between two chunks, and what the next chunk does to it.
use donkey.Base.{
  Bool, ℕ, ◌+◌, ◌-◌, ◌<◌, Option, some, List, ◌++◌, length, length-append, take, take-append-drop,
  take_all, drop, ◌≡◌, ◌≢◌, sym, ap, ◌∙◌, subst, ok, append_assoc, arith,
}
use donkey.Error.{ApiResult}
use donkey.Chunk.Cover.{slice}
use donkey.Transfer.Begins.{Begins, Begins-full, rest_of_range}
use donkey.Relay.{Relay, Outcome, passed_on, StreamWindow}

module _ (blob : List ℕ) (w : StreamWindow) where
  abbrev pub window : List ℕ
  window = slice blob w.start w.end

  -- Between two bodies the client has what the file has: a beginning of the window, up to the
  -- offset.
  pub record IsInStep (s : Relay) : Type 0 where
    pub sent_begins : Begins s.sent window
    pub file_is_sent : s.file ≡ s.sent
    pub offset_is_next : s.offset ≡ w.start + length s.sent

  pub IsInStep-kept : {s : Relay} → IsInStep s → Begins s.sent window × Begins s.file window
  IsInStep-kept {s} k =
      (k.sent_begins, subst (λ f. Begins f window) (sym k.file_is_sent) k.sent_begins)

  -- The next bytes of the window go behind those that are there.
  Begins-grow :
      (there chunk rest : List ℕ)
      → Begins there window
      → Begins (chunk ++ rest) (slice blob (w.start + length there) w.end)
      → (ws : List ℕ) × (there ++ (chunk ++ (rest ++ ws)) ≡ window)
  Begins-grow there chunk rest (zs, e) (ws, f) = (
    ws,
    ap (λ r. there ++ r)
          (sym (append_assoc chunk rest ws) ∙ f ∙ rest_of_range blob there zs w.start w.end e)
        ∙ e,
  )

  pub passed_on-IsInStep :
      (complete : Bool) (s : Relay) (chunk rest : List ℕ)
      → IsInStep s
      → Begins (chunk ++ rest) (slice blob s.offset w.end)
      → IsInStep (passed_on complete s chunk)
        × Begins rest (slice blob (s.offset + length chunk) w.end)
  passed_on-IsInStep complete s chunk rest k b =
      let there = s.sent ++ chunk in
      let next : w.start + length there ≡ s.offset + length chunk =
        omega (arith, length-append {0} s.sent chunk, k.offset_is_next) in
      let (ws, e) =
        Begins-grow s.sent chunk rest k.sent_begins
          (subst (λ o. Begins (chunk ++ rest) (slice blob o w.end)) k.offset_is_next b) in
      let whole : there ++ (rest ++ ws) ≡ window = append_assoc s.sent chunk (rest ++ ws) ∙ e in
      (
        record {
          sent_begins = (rest ++ ws, whole);
          file_is_sent = ap (λ f. f ++ chunk) k.file_is_sent;
          offset_is_next = sym next;
        },
        (
          ws,
          sym (rest_of_range blob there (rest ++ ws) w.start w.end whole)
              ∙ ap (λ o. slice blob o w.end) next,
        ),
      )

  -- An error after a chunk that the client did not get.
  pub unsent_kept :
      (s : Relay) (chunk rest : List ℕ) (n : ℕ)
      → IsInStep s
      → Begins (chunk ++ rest) (slice blob s.offset w.end)
      → Begins s.sent window × Begins (s.file ++ take n chunk) window
  unsent_kept s chunk rest n k b =
      let (ws, e) =
        Begins-grow s.sent chunk rest k.sent_begins
          (subst (λ o. Begins (chunk ++ rest) (slice blob o w.end)) k.offset_is_next b) in
      (
        k.sent_begins,
        (
          drop n chunk ++ (rest ++ ws),
          append_assoc s.file (take n chunk) (drop n chunk ++ (rest ++ ws))
              ∙ ap (λ r. s.file ++ r)
                  (sym (append_assoc (take n chunk) (drop n chunk) (rest ++ ws))
                    ∙ ap (λ r. r ++ (rest ++ ws)) (take-append-drop n chunk))
              ∙ ap (λ f. f ++ (chunk ++ (rest ++ ws))) k.file_is_sent
              ∙ e,
        ),
      )

  pub all_kept :
      (s : Relay) (chunk rest : List ℕ)
      → IsInStep s
      → Begins (chunk ++ rest) (slice blob s.offset w.end)
      → Begins s.sent window × Begins (s.file ++ chunk) window
  all_kept s chunk rest k b =
      let (sent, file) = unsent_kept s chunk rest (length chunk) k b in
      (
        sent,
        subst (λ c. Begins (s.file ++ c) window) (take_all (length chunk) chunk (omega arith)) file,
      )

  -- The client and the file have a beginning of the window, and where the relay ends well the
  -- client and the file have all of it.
  abbrev pub IsRelayed : Outcome → Type 0
  IsRelayed (s, answer) =
      (Begins s.sent window × Begins s.file window)
      × (answer ≡ some (ok tt) → (s.sent ≡ window) × (s.file ≡ window))

  pub IsRelayed-complete : {s : Relay} → IsInStep s → w.end < s.offset → IsRelayed (s, some (ok tt))
  IsRelayed-complete {s} k past =
      let full : s.sent ≡ window =
        Begins-full (w.end + 1 - w.start) s.sent (drop w.start blob) k.sent_begins
          (omega (arith, k.offset_is_next)) in
      (IsInStep-kept k, λ q. (full, k.file_is_sent ∙ full))

  pub IsRelayed-unfinished :
      (s : Relay) {answer : Option (ApiResult (Unit {0}))}
      → Begins s.sent window × Begins s.file window
      → answer ≢ some (ok tt)
      → IsRelayed (s, answer)
  IsRelayed-unfinished s k ne = (k, λ q. absurd (ne q))
