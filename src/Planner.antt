-- ===== src/Planner.antt =====
-- The blob planner of src/blob_planner.rs: one request, or ranges from many nodes.
--
-- The type of floats and its operations are a parameter. `usize` is the 64-bit word. Nodes are kept
-- in their order; `min_by` takes the first of equal nodes, as the iterator does.
pub mod Plan
mod Examples
use Prim.Native.String.{String}
use donkey.Base.{
  ℕ, zero, suc, ◌+◌, ◌-◌, ◌*◌, ◌/◌, ◌%◌, min, max, Bool, true, false, not, ◌&&◌, ◌||◌, Option, none,
  some, List, [], ◌∷◌, ◌==◌, same_text, any, map, keep, take, ltb, leb, if◌then◌else◌, u64_mod,
  saturating_mul, div_ceil, clamp, Result, ok, err,
}
use donkey.Chunk.{mib}

-- The operations of `f64` that the planner uses; `total_less` is `total_cmp(..).is_lt()`.
pub record Floats (F : Type 0) : Type 0 where
  pub of_nat : ℕ → F
  pub plus : F → F → F
  pub times : F → F → F
  pub divide : F → F → F
  pub larger : F → F → F
  pub less : F → F → Bool
  pub total_less : F → F → Bool

pub record BlobMeta : Type 0 where
  pub digest : String
  pub size : ℕ
  pub media_type : String

pub record NodeSnapshot (F : Type 0) : Type 0 where
  pub url : String
  pub supports_range : Bool
  pub max_concurrency : ℕ
  pub throughput_bps : Option ℕ
  pub latency_ms : Option ℕ
  pub success_rate : F
  pub cooling : Bool

pub data DownloadStrategy : Type 0 where
  cache_hit : DownloadStrategy
  single_request : String → DownloadStrategy
  multi_source_chunked : ℕ → ℕ → ℕ → DownloadStrategy

pub record PlannerConfig (F : Type 0) : Type 0 where
  pub small_blob_threshold : ℕ
  pub min_chunk_size : ℕ
  pub max_chunk_size : ℕ
  pub min_parallel_benefit : F
  pub max_concurrent_chunks : ℕ
  pub allow_unmeasured_parallel : Bool

pub data PlannerError : Type 0 where
  no_usable_nodes invalid_configuration : PlannerError

abbrev or_default : Option ℕ → ℕ → ℕ
or_default none d = d
or_default (some n) d = n

abbrev is_none : Option ℕ → Bool
is_none none = true
is_none (some n) = false

-- `sum::<usize>()`, which wraps.
pub sum_words : List ℕ → ℕ
sum_words [] = 0
sum_words (n ∷ ns) = (n + sum_words ns) % u64_mod

pub most : List (Option ℕ) → ℕ
most [] = 0
most (none ∷ ns) = most ns
most (some n ∷ ns) = max n (most ns)

module _ {F : Type 0} (floats : Floats F) where
  open floats use {of_nat, plus, times, divide, larger, less, total_less}

  pub estimated_time_ms : ℕ → NodeSnapshot F → F
  estimated_time_ms size node =
      let throughput = of_nat (max (or_default node.throughput_bps (10 * 1024 * 1024)) 1) in
      let latency = of_nat (or_default node.latency_ms 100) in
      plus latency (divide (times (of_nat size) (of_nat 1000)) throughput)

  -- The filter of the nodes that can serve the blob at all.
  pub is_usable : NodeSnapshot F → Bool
  is_usable node =
      not node.cooling
      && ltb 0 node.max_concurrency
      && less (of_nat 0) node.success_rate
      && not (same_text node.url "")

  -- `min_by` on the estimated time.
  pub faster : ℕ → NodeSnapshot F → NodeSnapshot F → NodeSnapshot F
  faster size best node =
      if total_less (estimated_time_ms size node) (estimated_time_ms size best) then node else best

  pub fastest : ℕ → NodeSnapshot F → List (NodeSnapshot F) → NodeSnapshot F
  fastest size best [] = best
  fastest size best (node ∷ nodes) = fastest size (faster size best node) nodes

  -- `right.throughput.cmp(&left.throughput).then(left.latency.cmp(&right.latency))` is less or
  -- equal, where no value is missing.
  pub goes_first : NodeSnapshot F → NodeSnapshot F → Bool
  goes_first left right =
      let a = or_default left.throughput_bps 0 in
      let b = or_default right.throughput_bps 0 in
      ltb b a || (leb b a && leb (or_default left.latency_ms 0) (or_default right.latency_ms 0))

  pub insert_node : NodeSnapshot F → List (NodeSnapshot F) → List (NodeSnapshot F)
  insert_node node [] = node ∷ []
  insert_node node (first ∷ nodes) =
      if goes_first node first then node ∷ first ∷ nodes else first ∷ insert_node node nodes

  pub sort_nodes : List (NodeSnapshot F) → List (NodeSnapshot F)
  sort_nodes [] = []
  sort_nodes (node ∷ nodes) = insert_node node (sort_nodes nodes)

  pub total_throughput : List (NodeSnapshot F) → F → F
  total_throughput [] acc = acc
  total_throughput (node ∷ nodes) acc =
      total_throughput nodes
        (elim node.throughput_bps [ none ↦ acc | some bps ↦ plus acc (of_nat bps) ])

  -- The estimate for requests from the fastest nodes at once; none without observations.
  pub estimated_benefit : ℕ → NodeSnapshot F → List (NodeSnapshot F) → ℕ → ℕ → Option F
  estimated_benefit size best_single nodes chunk_size requested_concurrency =
      let num_chunks = div_ceil size chunk_size in
      let concurrency = min requested_concurrency num_chunks in
      let active_nodes = take concurrency (sort_nodes nodes) in
      let single = estimated_time_ms size best_single in
      let aggregate = total_throughput active_nodes (of_nat 0) in
      let latency = of_nat (most (map (λ node. node.latency_ms) active_nodes)) in
      let waves = div_ceil num_chunks concurrency in
      let multi =
        plus (times (of_nat waves) latency)
          (divide (times (of_nat size) (of_nat 1000)) aggregate) in
      if any (λ node. is_none node.throughput_bps || is_none node.latency_ms) nodes
      then none
      else if not (less (of_nat 0) aggregate)
      then none
      else some (divide single (larger multi (of_nat 1)))

  pub chunk_size_for : PlannerConfig F → ℕ → ℕ → ℕ
  chunk_size_for config blob_size concurrency =
      let target_chunks = max (saturating_mul concurrency 4) 1 in
      clamp (saturating_mul (div_ceil (div_ceil blob_size target_chunks) mib) mib)
        config.min_chunk_size config.max_chunk_size

  pub is_invalid : PlannerConfig F → ℕ → Bool
  is_invalid config size =
      size == 0
      || config.min_chunk_size == 0
      || ltb config.max_chunk_size config.min_chunk_size
      || config.max_concurrent_chunks == 0
      || less config.min_parallel_benefit (of_nat 1)

  pub requested_for : PlannerConfig F → List (NodeSnapshot F) → ℕ
  requested_for config nodes =
      min (sum_words (map (λ node. node.max_concurrency) nodes)) config.max_concurrent_chunks

  abbrev pub is_empty : List (NodeSnapshot F) → Bool
  is_empty [] = true
  is_empty (node ∷ nodes) = false

  abbrev pub is_many : List (NodeSnapshot F) → Bool
  is_many [] = false
  is_many (node ∷ nodes) = not (is_empty nodes)

  abbrev pub is_small_benefit : PlannerConfig F → Option F → Bool
  is_small_benefit config none = true
  is_small_benefit config (some benefit) = less benefit config.min_parallel_benefit

  -- The choice between one request and ranges, once a node can be used.
  pub choose : PlannerConfig F → ℕ → NodeSnapshot F → List (NodeSnapshot F) → DownloadStrategy
  choose config size best_single range_nodes =
      let requested = requested_for config range_nodes in
      let chunk_size = chunk_size_for config size requested in
      let num_chunks = div_ceil size chunk_size in
      let benefit = estimated_benefit size best_single range_nodes chunk_size requested in
      if ltb size config.small_blob_threshold || is_empty range_nodes || ltb requested 2
      then single_request best_single.url
      else if (is_many range_nodes || not best_single.supports_range)
          && not config.allow_unmeasured_parallel
          && is_small_benefit config benefit
      then single_request best_single.url
      else multi_source_chunked chunk_size num_chunks requested

  pub plan_usable :
      PlannerConfig F → ℕ → List (NodeSnapshot F) → Result DownloadStrategy PlannerError
  plan_usable config size [] = err no_usable_nodes
  plan_usable config size (node ∷ nodes) =
      ok
        (choose config size (fastest size node nodes) (keep (λ n. n.supports_range) (node ∷ nodes)))

  pub plan :
      PlannerConfig F
      → BlobMeta
      → Bool
      → List (NodeSnapshot F)
      → Result DownloadStrategy PlannerError
  plan config blob cached nodes =
      if cached
      then ok cache_hit
      else if is_invalid config blob.size
      then err invalid_configuration
      else plan_usable config blob.size (keep is_usable nodes)
