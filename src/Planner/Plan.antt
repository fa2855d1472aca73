-- ===== src/Planner/Plan.antt =====
-- What a plan of src/blob_planner.rs promises.
use Prim.Native.String.{String}
use donkey.Base.{
  ℕ, ◌+◌, ◌≤◌, ◌<◌, max, ◌≡◌, refl, sym, ap, subst, ◌∙◌, inl, inr, ◌⊎◌, Bool, true, false, ◌||◌,
  some, List, [], ◌∷◌, any, keep, ltb, arith, Bool-cases, if◌then◌else◌, div_ceil, u64_mod, length,
  clamp, saturating_mul, Result, ok, err,
}
use donkey.Chunk.{Chunk, chunks, mib}
use donkey.Chunk.Count.{length-chunks}
use donkey.Planner.{
  Floats, BlobMeta, NodeSnapshot, DownloadStrategy, cache_hit, single_request, multi_source_chunked,
  PlannerConfig, PlannerError, no_usable_nodes, invalid_configuration, is_usable, faster, fastest,
  estimated_time_ms, chunk_size_for, is_invalid, requested_for, is_empty, choose, plan_usable, plan,
}

clamp_bounds : (x lo hi : ℕ) → lo ≤ hi → (lo ≤ clamp x lo hi) × (clamp x lo hi ≤ hi)
clamp_bounds x lo hi h = (omega arith, omega arith)

enough :
    (size threshold requested : ℕ) (b : Bool)
    → (ltb size threshold || b || ltb requested 2) ≡ false
    → (threshold ≤ size) × (2 ≤ requested)
enough size threshold requested b h = ground arith

ok-inj :
    {a b : DownloadStrategy} → ◌≡◌ {A = Result DownloadStrategy PlannerError} (ok a) (ok b) → a ≡ b
ok-inj e = cc

module _ {F : Type 0} (floats : Floats F) where
  open floats use {total_less}

  -- A node of the list that passes the planner's filter.
  abbrev pub Offered : List (NodeSnapshot F) → String → Type 0
  Offered [] url = ⊥
  Offered (node ∷ nodes) url =
      ((is_usable floats node ≡ true) × (node.url ≡ url)) ⊎ Offered nodes url

  -- A strategy that fits the configuration and the nodes.
  abbrev pub Fits : PlannerConfig F → BlobMeta → List (NodeSnapshot F) → DownloadStrategy → Type 0
  Fits config blob nodes cache_hit = ⊥
  Fits config blob nodes (single_request url) = Offered nodes url
  Fits config blob nodes (multi_source_chunked chunk_size num_chunks concurrency) =
      (config.min_chunk_size ≤ chunk_size)
      × (chunk_size ≤ config.max_chunk_size)
      × (config.small_blob_threshold ≤ blob.size)
      × (num_chunks ≡ div_ceil blob.size chunk_size)
      × (2 ≤ concurrency)
      × (concurrency ≤ config.max_concurrent_chunks)

  abbrev Kept : List (NodeSnapshot F) → NodeSnapshot F → Type 0
  Kept [] best = ⊥
  Kept (node ∷ nodes) best = (node ≡ best) ⊎ Kept nodes best

  earlier :
      (size : ℕ) (best node : NodeSnapshot F) (nodes : List (NodeSnapshot F))
      → Kept (best ∷ nodes) (fastest floats size best nodes)
      → Kept (best ∷ node ∷ nodes) (fastest floats size best nodes)
  earlier size best node nodes (inl e) = inl e
  earlier size best node nodes (inr k) = inr (inr k)

  fastest-Kept :
      (size : ℕ) (best : NodeSnapshot F) (nodes : List (NodeSnapshot F))
      → Kept (best ∷ nodes) (fastest floats size best nodes)
  unfolding fastest faster
  fastest-Kept size best [] = inl refl
  fastest-Kept size best (node ∷ nodes) =
      elim (Bool-cases
        (total_less (estimated_time_ms floats size node) (estimated_time_ms floats size best))) [
          | inl e ↦ rw e (inr (fastest-Kept size node nodes))
          | inr e ↦ rw e (earlier size best node nodes (fastest-Kept size best nodes))
        ]

  Kept-Offered :
      (nodes : List (NodeSnapshot F)) (best : NodeSnapshot F)
      → Kept (keep (is_usable floats) nodes) best
      → Offered nodes best.url
  Kept-Offered [] best h = h
  Kept-Offered (node ∷ nodes) best h = elim (Bool-cases (is_usable floats node)) [
    | inl e ↦ elim (rw e at h) [
      | inl same ↦ inl (e, ap (λ n. n.url) same)
      | inr later ↦ inr (Kept-Offered nodes best later)
    ]
    | inr e ↦ inr (Kept-Offered nodes best (rw e at h))
  ]

  -- The strategy that two tests pick.
  pick-Fits :
      (config : PlannerConfig F) (blob : BlobMeta) (nodes : List (NodeSnapshot F)) (url : String)
      (one too_little : Bool) (chunk_size requested : ℕ)
      → Offered nodes url
      → (one ≡ false → (config.small_blob_threshold ≤ blob.size) × (2 ≤ requested))
      → (config.min_chunk_size ≤ chunk_size) × (chunk_size ≤ config.max_chunk_size)
      → requested ≤ config.max_concurrent_chunks
      → Fits config blob nodes (
          if one
          then single_request url
          else if too_little
          then single_request url
          else multi_source_chunked chunk_size (div_ceil blob.size chunk_size) requested)
  pick-Fits config blob nodes url true too_little c r h _ _ _ = h
  pick-Fits config blob nodes url false true c r h _ _ _ = h
  pick-Fits config blob nodes url false false c r h large (lo, hi) few =
      let (a, b) = large refl in (lo, hi, a, refl, b, few)

  chunk_size_for_bounds :
      (config : PlannerConfig F) (size concurrency : ℕ)
      → config.min_chunk_size ≤ config.max_chunk_size
      → (config.min_chunk_size ≤ chunk_size_for floats config size concurrency)
        × (chunk_size_for floats config size concurrency ≤ config.max_chunk_size)
  unfolding chunk_size_for
  chunk_size_for_bounds config size concurrency valid =
      clamp_bounds
        (saturating_mul (div_ceil (div_ceil size (max (saturating_mul concurrency 4) 1)) mib) mib)
        config.min_chunk_size config.max_chunk_size valid

  requested_le :
      (config : PlannerConfig F) (nodes : List (NodeSnapshot F))
      → requested_for floats config nodes ≤ config.max_concurrent_chunks
  unfolding requested_for
  requested_le config nodes = omega arith

  is_valid :
      (config : PlannerConfig F) (size : ℕ)
      → is_invalid floats config size ≡ false
      → config.min_chunk_size ≤ config.max_chunk_size
  unfolding is_invalid
  is_valid config size h = ground arith

  none_kept :
      (nodes : List (NodeSnapshot F))
      → keep (is_usable floats) nodes ≡ []
      → any (is_usable floats) nodes ≡ false
  none_kept [] e = refl
  none_kept (node ∷ nodes) e = ground (arith, none_kept nodes)

  usable_or_not :
      (config : PlannerConfig F) (size : ℕ) (nodes usable : List (NodeSnapshot F))
      → keep (is_usable floats) nodes ≡ usable
      → ((strategy : DownloadStrategy) × (plan_usable floats config size usable ≡ ok strategy))
        ⊎ ((plan_usable floats config size usable ≡ err invalid_configuration) × (false ≡ true))
        ⊎ ((plan_usable floats config size usable ≡ err no_usable_nodes)
            × (any (is_usable floats) nodes ≡ false))
  unfolding plan_usable
  usable_or_not config size nodes [] e = inr (inr (refl, none_kept nodes e))
  usable_or_not config size nodes (node ∷ usable) e = inl (_, refl)

  choose-Fits :
      (config : PlannerConfig F) (blob : BlobMeta) (best : NodeSnapshot F)
      (ranges nodes : List (NodeSnapshot F))
      → Offered nodes best.url
      → config.min_chunk_size ≤ config.max_chunk_size
      → Fits config blob nodes (choose floats config blob.size best ranges)
  unfolding choose
  choose-Fits config blob best ranges nodes h valid =
      let requested = requested_for floats config ranges in
      let chunk_size = chunk_size_for floats config blob.size requested in
      pick-Fits config blob nodes best.url
        (ltb blob.size config.small_blob_threshold || is_empty floats ranges || ltb requested 2) _
        chunk_size requested h
        (enough blob.size config.small_blob_threshold requested (is_empty floats ranges))
        (chunk_size_for_bounds config blob.size requested valid) (requested_le config ranges)

  plan_usable-Fits :
      (config : PlannerConfig F) (blob : BlobMeta) (nodes usable : List (NodeSnapshot F))
      (strategy : DownloadStrategy)
      → usable ≡ keep (is_usable floats) nodes
      → config.min_chunk_size ≤ config.max_chunk_size
      → plan_usable floats config blob.size usable ≡ ok strategy
      → Fits config blob nodes strategy
  unfolding plan_usable
  plan_usable-Fits config blob nodes [] strategy e valid h = cc
  plan_usable-Fits config blob nodes (node ∷ usable) strategy e valid h =
      let best = fastest floats blob.size node usable in
      let offered =
        Kept-Offered nodes best (subst (λ l. Kept l best) e (fastest-Kept blob.size node usable)) in
      let ranges = keep (λ (n : NodeSnapshot F). n.supports_range) (node ∷ usable) in
      subst (Fits config blob nodes) (ok-inj h)
        (choose-Fits config blob best ranges nodes offered valid)

  -- A plan for a blob that is not cached fits the configuration and the nodes: one request goes to
  -- a node that the planner may use, and ranges have an allowed size, cover the blob by number, are
  -- requested from two connections at least and no more than allowed, and only for a blob that is
  -- not small.
  pub plan-Fits :
      (config : PlannerConfig F) (blob : BlobMeta) (nodes : List (NodeSnapshot F))
      (strategy : DownloadStrategy)
      → plan floats config blob false nodes ≡ ok strategy
      → Fits config blob nodes strategy
  unfolding plan
  plan-Fits config blob nodes strategy h = elim (Bool-cases (is_invalid floats config blob.size)) [
    | inl bad ↦ let no = rw bad at h in cc
    | inr good ↦
        plan_usable-Fits config blob nodes (keep (is_usable floats) nodes) strategy refl
          (is_valid config blob.size good) (rw good at h)
  ]

  -- Planning fails exactly for an invalid configuration, or where no node may be used.
  pub plan_fails :
      (config : PlannerConfig F) (blob : BlobMeta) (nodes : List (NodeSnapshot F))
      → ((strategy : DownloadStrategy) × (plan floats config blob false nodes ≡ ok strategy))
        ⊎ ((plan floats config blob false nodes ≡ err invalid_configuration)
            × (is_invalid floats config blob.size ≡ true))
        ⊎ ((plan floats config blob false nodes ≡ err no_usable_nodes)
            × (any (is_usable floats) nodes ≡ false))
  unfolding plan
  plan_fails config blob nodes = elim (Bool-cases (is_invalid floats config blob.size)) [
    | inl bad ↦ rw bad (inr (inl (refl, refl)))
    | inr good ↦ rw good (usable_or_not config blob.size nodes (keep (is_usable floats) nodes) refl)
  ]

  -- The number of chunks in a plan is the number of ranges that the scheduler cuts the blob into,
  -- so that the plan and the download agree.
  pub plan-length-chunks :
      (config : PlannerConfig F) (blob : BlobMeta) (nodes : List (NodeSnapshot F))
      (chunk_size num_chunks concurrency : ℕ)
      → plan floats config blob false nodes
        ≡ ok (multi_source_chunked chunk_size num_chunks concurrency)
      → 0 < config.min_chunk_size
      → blob.size + chunk_size ≤ u64_mod
      → (cs : List Chunk) × (chunks blob.size chunk_size ≡ some cs) × (length cs ≡ num_chunks)
  plan-length-chunks config blob nodes chunk_size num_chunks concurrency h pos small =
      let (lo, hi, large, number, two, few) =
        plan-Fits config blob nodes (multi_source_chunked chunk_size num_chunks concurrency) h in
      let (cs, run, count) = length-chunks blob.size chunk_size (omega arith) small in
      (cs, run, count ∙ sym number)
