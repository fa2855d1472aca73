-- ===== src/Planner/Examples.antt =====
-- The theorems on plans at concrete nodes, with whole numbers for floats.
use Prim.Native.String.{String}
use donkey.Base.{ℕ, ◌+◌, ◌*◌, ◌/◌, max, refl, Bool, true, false, Option, some, List, [], ◌∷◌, ltb}
use donkey.Chunk.{mib}
use donkey.Planner.{
  Floats, BlobMeta, NodeSnapshot, multi_source_chunked, PlannerConfig, is_usable, is_invalid, plan,
  plan_usable, choose, fastest, faster, chunk_size_for, requested_for, sum_words, estimated_benefit,
  estimated_time_ms, sort_nodes, insert_node, goes_first, total_throughput, most,
}
use donkey.Planner.Plan.{Fits, plan-Fits}

abbrev whole : Floats ℕ
whole = record {
  of_nat = λ n. n;
  plus = λ a b. a + b;
  times = λ a b. a * b;
  divide = λ a b. a / b;
  larger = λ a b. max a b;
  less = ltb;
  total_less = ltb;
}

abbrev node_at : String → Option ℕ → Bool → NodeSnapshot ℕ
node_at url bps cooling = record {
  url = url;
  supports_range = true;
  max_concurrency = 4;
  throughput_bps = bps;
  latency_ms = some 20;
  success_rate = 1;
  cooling = cooling;
}

abbrev nodes_2 : List (NodeSnapshot ℕ)
nodes_2 = node_at "https://a" (some 4000000) false ∷ node_at "https://b" (some 4000000) false ∷ []

abbrev settings : PlannerConfig ℕ
settings = record {
  small_blob_threshold = 8 * mib;
  min_chunk_size = 2 * mib;
  max_chunk_size = 8 * mib;
  min_parallel_benefit = 1;
  max_concurrent_chunks = 16;
  allow_unmeasured_parallel = false;
}

abbrev layer : BlobMeta
layer = record { digest = "sha256:0"; size = 64 * mib; media_type = "" }

plan-Fits_example : Fits whole settings layer nodes_2 (multi_source_chunked (2 * mib) 32 8)
unfolding plan is_invalid plan_usable is_usable choose fastest faster chunk_size_for requested_for
    sum_words estimated_benefit estimated_time_ms sort_nodes insert_node goes_first total_throughput
    most
plan-Fits_example =
    plan-Fits whole settings layer nodes_2 (multi_source_chunked (2 * mib) 32 8) refl
