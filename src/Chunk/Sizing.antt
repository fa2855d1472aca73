-- ===== src/Chunk/Sizing.antt =====
-- Bounds on the chunk sizes and the concurrency that src/scheduler.rs chooses.
use native.Mathlib.Nat.{div-add-mod', mod-lt, div-mul-le_self, mul-le-mul_right}
use donkey.Base.{
  ℕ, ◌-◌, zero, suc, ◌⊎◌, if◌then◌else◌, clamp, saturating_add, saturating_mul, inl, inr, refl, ◌+◌,
  ◌*◌, ◌/◌, ◌%◌, ◌≤◌, ◌<◌, max, u64_max, ◌≡◌, true, false, arith,
}
use donkey.Chunk.{
  SchedulerRuntimeConfig, mib, stream_memory_bytes, effective_concurrency, target_chunks,
  rounded_chunk, effective_chunk_size, bounded_stream_concurrency, stream_download_config,
}

-- At least one request runs, and never more than the nodes' capacity allows; the automatic mode
-- keeps to 64, and the manual one to the configured number (read as 1 where it is 0).
pub effective_concurrency_bounds :
    (runtime : SchedulerRuntimeConfig) (capacity : ℕ)
    → (1 ≤ effective_concurrency runtime capacity)
      × (effective_concurrency runtime capacity ≤ max capacity 1)
      × (effective_concurrency runtime capacity
          ≤ (if runtime.automatic_concurrency_enabled then 64 else max runtime.chunk_concurrency 1))
unfolding effective_concurrency
effective_concurrency_bounds runtime capacity = (ground arith, ground arith, ground arith)

rounded_chunk_bounds :
    (total target : ℕ)
    → (2 * mib ≤ rounded_chunk total target)
      × (rounded_chunk total target ≤ 8 * mib)
      × (rounded_chunk total target % mib ≡ 0)
unfolding rounded_chunk
rounded_chunk_bounds total target = (omega arith, omega arith, omega arith)

-- An adaptive chunk is a whole number of MiB between 2 and 8; otherwise the configured size is
-- used.
pub effective_chunk_size_bounds :
    (runtime : SchedulerRuntimeConfig) (total capacity : ℕ)
    → let size = effective_chunk_size runtime total capacity in
      ((runtime.adaptive_chunking_enabled ≡ true)
        × (2 * mib ≤ size)
        × (size ≤ 8 * mib)
        × (size % mib ≡ 0))
      ⊎ ((runtime.adaptive_chunking_enabled ≡ false) × (size ≡ runtime.chunk_size))
unfolding effective_chunk_size
effective_chunk_size_bounds runtime total capacity =
    ground (arith, rounded_chunk_bounds total (target_chunks runtime capacity))

-- The rounded size reaches the even share of the blob, or the largest chunk.
rounded_chunk-reaches :
    (q r : ℕ)
    → r ≡ clamp (saturating_mul (saturating_add q (mib - 1) / mib) mib) (2 * mib) (8 * mib)
    → (q ≤ r) ⊎ (r ≡ 8 * mib)
rounded_chunk-reaches q r e = omega arith

share-covers : (total target : ℕ) → 0 < target → total ≤ (total + (target - 1)) / target * target
share-covers total target p =
    omega (arith, div-add-mod' (total + (target - 1)) target, mod-lt (total + (target - 1)) p)

rounded_chunk-covers :
    (total target : ℕ)
    → 0 < target
    → total + target ≤ u64_max
    → total ≤ 8 * mib * target
    → total ≤ rounded_chunk total target * target
unfolding rounded_chunk
rounded_chunk-covers total target p small h =
    let share = (total + (target - 1)) / target in
    let e : saturating_add total (target - 1) ≡ total + (target - 1) = omega arith in
    elim (rounded_chunk-reaches share (rounded_chunk total target) (rw e refl)) [
      | inl reach ↦ omega (arith, share-covers total target p, mul-le-mul_right target reach)
      | inr top ↦ rw top h
    ]

-- With adaptive chunks and at most 64 configured connections, a blob of at most 32 MiB for each
-- connection is cut so that four requests on every connection hold all of it.
pub four_waves :
    (runtime : SchedulerRuntimeConfig) (total capacity : ℕ)
    → runtime.adaptive_chunking_enabled ≡ true
    → runtime.chunk_concurrency ≤ 64
    → total ≤ 32 * mib * effective_concurrency runtime capacity
    → total
      ≤ effective_chunk_size runtime total capacity * (4 * effective_concurrency runtime capacity)
unfolding effective_chunk_size target_chunks effective_concurrency
four_waves runtime total capacity on few h =
    let n = effective_concurrency runtime capacity in
    let (pos, _, top) = effective_concurrency_bounds runtime capacity in
    let le64 : n ≤ 64 = ground arith in
    let t : saturating_mul n 4 ≡ 4 * n = omega arith in
    rw (on, t) (rounded_chunk-covers total (4 * n) (omega arith) (omega arith) (omega arith))

slots-fit :
    (c d : ℕ) → c ≤ stream_memory_bytes → bounded_stream_concurrency c d * c ≤ stream_memory_bytes
unfolding bounded_stream_concurrency
slots-fit zero d h = omega arith
slots-fit (suc c) d h = grind (arith, div-mul-le_self stream_memory_bytes (suc c), mul-le-mul_right)

slots_bounds :
    (c d : ℕ) → (1 ≤ bounded_stream_concurrency c d) × (bounded_stream_concurrency c d ≤ max d 1)
unfolding bounded_stream_concurrency
slots_bounds c d = (omega arith, omega arith)

-- A streamed download runs at least one request, no more than the nodes' capacity, and its buffers
-- fit the stream's memory budget together, for every configured chunk size up to that budget.
pub stream_download_config_bounds :
    (runtime : SchedulerRuntimeConfig) (total capacity : ℕ)
    → runtime.chunk_size ≤ stream_memory_bytes
    → let config = stream_download_config runtime total capacity in
      (config.concurrency * config.chunk_size ≤ stream_memory_bytes)
      × (1 ≤ config.concurrency)
      × (config.concurrency ≤ max capacity 1)
unfolding stream_download_config
stream_download_config_bounds runtime total capacity h =
    let size = effective_chunk_size runtime total capacity in
    let n = effective_concurrency runtime capacity in
    let small : size ≤ stream_memory_bytes =
      ground (arith, effective_chunk_size_bounds runtime total capacity) in
    (
      slots-fit size n small,
      (slots_bounds size n).0,
      omega (arith, slots_bounds size n, effective_concurrency_bounds runtime capacity),
    )
