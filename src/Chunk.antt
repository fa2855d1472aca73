-- ===== src/Chunk.antt =====
-- The byte ranges that a parallel download is cut into, and how many run at once:
-- `Chunk`, `chunks`, `effective_chunk_size`, `bounded_stream_concurrency`, `effective_concurrency`
-- and `stream_download_config` of src/scheduler.rs.
pub mod Cover
pub mod Count
pub mod Sizing
mod Examples
use mathlib.Core.Option
use donkey.Base.{
  ℕ, zero, suc, ◌+◌, ◌-◌, ◌*◌, ◌/◌, min, max, Bool, Option, none, some, List, [], ◌∷◌, ltb,
  if◌then◌else◌, add64, sub64, saturating_add, saturating_mul, clamp,
}

pub data SchedulerPolicy : Type 0 where
  balanced speed_first : SchedulerPolicy

pub record SchedulerRuntimeConfig : Type 0 where
  pub chunk_size : ℕ
  pub adaptive_chunking_enabled : Bool
  pub automatic_concurrency_enabled : Bool
  pub parallel_threshold : ℕ
  pub resumable_threshold : ℕ
  pub chunk_concurrency : ℕ
  pub scheduler_policy : SchedulerPolicy
  pub stream_fallback_timeout : ℕ

pub record StreamDownloadConfig : Type 0 where
  pub chunk_size : ℕ
  pub concurrency : ℕ
  pub parallel_threshold : ℕ

-- An inclusive byte range of a blob of `total_size` bytes.
pub record Chunk : Type 0 where
  pub index : ℕ
  pub start : ℕ
  pub end : ℕ
  pub total_size : ℕ

-- `(start + chunk_size - 1).min(total - 1)` on `u64`; the loop calls it with `start < total`.
chunk_end : ℕ → ℕ → ℕ → ℕ
chunk_end total chunk_size start = min (sub64 (add64 start chunk_size) 1) (total - 1)

-- The chunk that one round of the loop pushes.
abbrev next_chunk : ℕ → ℕ → ℕ → ℕ → Chunk
next_chunk total chunk_size index start = record {
  index = index;
  start = start;
  end = chunk_end total chunk_size start;
  total_size = total;
}

-- The `while` loop of `chunks`; `index` is `result.len()`, and `none` means that the fuel ran out.
chunk_loop : ℕ → ℕ → ℕ → ℕ → ℕ → Option (List Chunk)
chunk_loop zero total chunk_size index start = none
chunk_loop (suc fuel) total chunk_size index start =
    let chunk = next_chunk total chunk_size index start in
    let rest = chunk_loop fuel total chunk_size (suc index) (add64 chunk.end 1) in
    if ltb start total then Option.map (λ more. chunk ∷ more) rest else some []

-- Each round advances by a byte at least, so `total + 1` rounds are enough.
unfoldable pub chunks : ℕ → ℕ → Option (List Chunk)
unfolding chunk_loop chunk_end
chunks total chunk_size = chunk_loop (suc total) total chunk_size 0 0

abbrev pub mib : ℕ
mib = 1024 * 1024

-- `STREAM_MEMORY_BYTES` of src/resource_budget.rs.
abbrev pub stream_memory_bytes : ℕ
stream_memory_bytes = 64 * 1024 * 1024

unfoldable pub effective_concurrency : SchedulerRuntimeConfig → ℕ → ℕ
effective_concurrency runtime node_capacity =
    let capacity = max node_capacity 1 in
    if runtime.automatic_concurrency_enabled
    then min capacity 64
    else max (min runtime.chunk_concurrency capacity) 1

-- Four waves of requests on every connection.
target_chunks : SchedulerRuntimeConfig → ℕ → ℕ
target_chunks runtime node_capacity = saturating_mul (effective_concurrency runtime node_capacity) 4

-- `total` spread over `target` chunks, rounded up to whole MiB and kept within 2 and 8 MiB.
rounded_chunk : ℕ → ℕ → ℕ
rounded_chunk total target =
    let ideal = saturating_add total (target - 1) / target in
    clamp (saturating_mul (saturating_add ideal (mib - 1) / mib) mib) (2 * mib) (8 * mib)

pub effective_chunk_size : SchedulerRuntimeConfig → ℕ → ℕ → ℕ
unfolding target_chunks rounded_chunk
effective_chunk_size runtime total_size node_capacity =
    if runtime.adaptive_chunking_enabled
    then rounded_chunk total_size (target_chunks runtime node_capacity)
    else runtime.chunk_size

pub bounded_stream_concurrency : ℕ → ℕ → ℕ
bounded_stream_concurrency chunk_size desired =
    let memory_slots = max (stream_memory_bytes / max chunk_size 1) 1 in
    max (min desired memory_slots) 1

pub stream_download_config : SchedulerRuntimeConfig → ℕ → ℕ → StreamDownloadConfig
stream_download_config runtime total_size node_capacity =
    let chunk_size = effective_chunk_size runtime total_size node_capacity in
    record {
      chunk_size = chunk_size;
      concurrency =
          bounded_stream_concurrency chunk_size (effective_concurrency runtime node_capacity);
      parallel_threshold = runtime.parallel_threshold;
    }
