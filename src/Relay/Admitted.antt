-- ===== src/Relay/Admitted.antt =====
-- What the relay of src/registry.rs puts into the cache: nothing is assumed of the nodes.
use donkey.Base.{
  ℕ, Bool, true, false, not, Option, none, some, List, if◌then◌else◌, ◌≡◌, refl, ap, sym, ◌∙◌, ok,
  err, some-inj, same_codes, same_codes_eq,
}
use donkey.Error.{ApiResult, integrity}
use donkey.Relay.{Relay, Outcome, StreamWindow, Answer}
use donkey.Relay.Stream.{is_complete, Resumes, relay_transfer, finish_relay}
use donkey.Relay.Parallel.{ParallelRelay}
use donkey.Relay.Same.{EndsSame, relay_transfer-EndsSame}

module _ (hash : List ℕ → List ℕ) (w : StreamWindow) (digest : List ℕ) where
  abbrev finished :
      Relay → Bool → Bool → ApiResult (Unit {0}) → Option (List ℕ) × Option (ApiResult (Unit {0}))
  finished s complete same admission =
      if not complete
      then (none, some (ok tt))
      else if not same
      then (none, some (err integrity))
      else (some s.file, some admission)

  finished_same :
      (s : Relay) (complete same : Bool) (admission : ApiResult (Unit {0})) {content : List ℕ}
      → (complete ≡ true → (s.hashed ≡ s.file) × (s.file ≡ s.sent))
      → (finished s complete same admission).0 ≡ some content
      → same_codes (hash s.hashed) digest ≡ same
      → (complete ≡ true) × (hash content ≡ digest) × (s.sent ≡ content)
  finished_same s false same admission k h e = cc
  finished_same s true false admission k h e = cc
  finished_same s true true admission k h e =
      let at_file = some-inj h in
      let (hashed, sent) = k refl in
      (
        refl,
        ap hash (sym (hashed ∙ at_file)) ∙ same_codes_eq (hash s.hashed) digest e,
        sym sent ∙ at_file,
      )

  finish_relay-same :
      (admission : ApiResult (Unit {0})) (outcome : Outcome) {content : List ℕ}
      → ((whole : is_complete w ≡ true) → EndsSame w whole outcome)
      → (finish_relay hash w (some digest) admission outcome).0 ≡ some content
      → (is_complete w ≡ true) × (hash content ≡ digest) × (outcome.0.sent ≡ content)
  unfolding finish_relay
  finish_relay-same admission (s, none) k h = cc
  finish_relay-same admission (s, some (err error)) k h = cc
  finish_relay-same admission (s, some (ok done)) {content} k h =
      finished_same s (is_complete w) (same_codes (hash s.hashed) digest) admission k h refl

  -- What a relay puts into the cache under a digest is the whole blob's file: it has that digest,
  -- and it is byte for byte what the client was sent. The nodes may answer anything.
  pub relay_admits :
      (parallel : Option ParallelRelay) (partial : List ℕ) (answer : Answer) (resumes : Resumes)
      (admission : ApiResult (Unit {0})) {content : List ℕ}
      → (finish_relay hash w
          (some digest)
          admission
          (relay_transfer w parallel partial answer resumes)).0
        ≡ some content
      → (is_complete w ≡ true)
        × (hash content ≡ digest)
        × ((relay_transfer w parallel partial answer resumes).0.sent ≡ content)
  relay_admits parallel partial answer resumes admission h =
      finish_relay-same admission (relay_transfer w parallel partial answer resumes)
        (λ whole. relay_transfer-EndsSame w whole parallel partial answer resumes) h
