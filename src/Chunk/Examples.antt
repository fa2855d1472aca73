-- ===== src/Chunk/Examples.antt =====
-- The chunk layout of src/scheduler.rs at concrete inputs.
use donkey.Base.{ℕ, ◌*◌, ◌≡◌, refl, true, false, some, List, [], ◌∷◌, arith}
use donkey.Chunk.{SchedulerPolicy, SchedulerRuntimeConfig, Chunk, chunks, mib}
use donkey.Chunk.Cover.{assemble, chunks-assemble}

abbrev five_bytes : List ℕ
five_bytes = 11 ∷ 12 ∷ 13 ∷ 14 ∷ 15 ∷ []

abbrev adaptive_runtime : SchedulerRuntimeConfig
adaptive_runtime = record {
  chunk_size = 4 * mib;
  adaptive_chunking_enabled = true;
  automatic_concurrency_enabled = false;
  parallel_threshold = 8 * mib;
  resumable_threshold = mib;
  chunk_concurrency = 32;
  scheduler_policy = SchedulerPolicy.balanced;
  stream_fallback_timeout = 30;
}

-- As in the source's test: the last chunk is the short one.
three_chunks :
    chunks 5 2
    ≡ some (
        record { index = 0; start = 0; end = 1; total_size = 5 }
        ∷ record { index = 1; start = 2; end = 3; total_size = 5 }
        ∷ record { index = 2; start = 4; end = 4; total_size = 5 }
        ∷ [])
unfolding chunks
three_chunks = refl

chunks-assemble_example :
    (cs : List Chunk) × (chunks 5 2 ≡ some cs) × (assemble five_bytes cs ≡ five_bytes)
chunks-assemble_example = chunks-assemble 2 five_bytes (omega arith) (omega arith)
