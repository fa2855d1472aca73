-- ===== src/Cache/Reserve.antt =====
-- `reserve_capacity_locked` of src/cache.rs.
use donkey.Base.{
  ℕ, suc, ◌+◌, ◌-◌, ◌≤◌, max, ◌≡◌, refl, sym, ap, subst, Bool, inl, inr, true, some, List, length,
  ltb, leb, arith, Bool-cases, if◌then◌else◌, saturating_add, u64_max, ok, err,
}
use donkey.Error.{AppError, ApiResult, bad_request}
use donkey.Cache.{Table, CacheRuntimeConfig, total, find_record}
use donkey.Cache.Hits.{HitState, pending_of, flush_hits}
use donkey.Cache.Flush.{flush_hits-Flushed}
use donkey.Cache.Reservation.{is_safe, make_room, after_aggregate, reserve_capacity_locked}
use donkey.Cache.Table.{Unique}
use donkey.Cache.Evict.{Selects, evict_loop-Evicted}

-- The reservation returns a state; if it agrees, the object has room below the larger of the high
-- watermark, the low watermark and the object's own size. Whatever it answers, it has only removed
-- records, and neither the record of the object's key nor one in flight, nor their hits.
pub record Reserved (flights : List ℕ) (runtime : CacheRuntimeConfig) (incoming protected : ℕ)
    (before after : HitState) (answer : ApiResult (Unit {0})) : Type 0 where
  pub unique : Unique after.table
  pub shrinks : total after.table ≤ total before.table
  pub room :
      answer ≡ ok tt → total after.table + incoming ≤ max runtime.high (max runtime.low incoming)
  pub kept :
      (key : ℕ)
      → is_safe protected flights key ≡ true
      → (find_record key after.table ≡ find_record key before.table)
        × (pending_of key after.pending ≡ pending_of key before.pending)

-- The making of room ends, and it loses nothing that must stay, as `Reserved` says.
make_room-Reserved :
    (candidates : Table → Table) (flights : List ℕ) (runtime : CacheRuntimeConfig) (s : HitState)
    (incoming protected : ℕ)
    → Selects candidates
    → Unique s.table
    → total s.table + incoming ≤ u64_max
    → (after : HitState) × (answer : ApiResult (Unit {0})) × (make_room candidates flights runtime
          incoming protected s
        ≡ some (after, answer))
      × Reserved flights runtime incoming protected s after answer
unfolding make_room
make_room-Reserved candidates flights runtime s incoming protected c u small =
    let wanted = saturating_add (total s.table) incoming in
    let need = wanted - max runtime.low incoming in
    elim (Bool-cases (leb wanted runtime.high)) [
      | inl room ↦ (
        s,
        ok tt,
        rw room refl,
        record {
          unique = u;
          shrinks = omega arith;
          room = λ e. ground arith;
          kept = λ key h. (refl, refl);
        },
      )
      | inr tight ↦
          let (after, freed, run, e) =
            evict_loop-Evicted candidates (is_safe protected flights) need (suc (length s.table)) s
              0 c u (omega arith) (omega arith) in
          let sum = e.sum in
          let answer : ApiResult (Unit {0}) =
            if ltb freed need
            then err (bad_request "cache is full and no safe eviction candidates are available")
            else ok tt in
          (
            after,
            answer,
            rw (tight, run) refl,
            record {
              unique = e.unique;
              shrinks = omega arith;
              room = λ q. ground arith;
              kept = λ key h. (e.kept key h, e.kept_hits key h);
            },
          )
    ]

-- What a reservation has done: nothing, because the object is too large; or a flush, which may
-- fail, and after it the making of room.
pub data Steps (works : ℕ → Bool) (flights : List ℕ) (runtime : CacheRuntimeConfig) (s : HitState)
    (incoming protected now : ℕ) : HitState → ApiResult (Unit {0}) → Type 0 where
  too_large :
      {error : AppError} → Steps works flights runtime s incoming protected now s (err error)
  not_flushed :
      {error : AppError}
      → Steps works flights runtime s incoming protected now (flush_hits works now s).0 (err error)
  made :
      {after : HitState} {answer : ApiResult (Unit {0})}
      → incoming ≤ runtime.max_cache_bytes
      → Reserved flights runtime incoming protected (flush_hits works now s).0 after answer
      → Steps works flights runtime s incoming protected now after answer

after_aggregate-Steps :
    (candidates : Table → Table) (works : ℕ → Bool) (flights : List ℕ)
    (runtime : CacheRuntimeConfig) (s : HitState) (incoming protected now : ℕ)
    (r : HitState × ApiResult (Unit {0}))
    → flush_hits works now s ≡ r
    → Selects candidates
    → Unique r.0.table
    → total r.0.table + incoming ≤ u64_max
    → incoming ≤ runtime.max_cache_bytes
    → (after : HitState) × (answer : ApiResult (Unit {0})) × (after_aggregate
          (make_room candidates flights runtime incoming protected)
          r
        ≡ some (after, answer))
      × Steps works flights runtime s incoming protected now after answer
after_aggregate-Steps candidates works flights runtime s incoming protected now (h, err error) e c u
      small fits =
    (
      h,
      err error,
      refl,
      subst (λ t. Steps works flights runtime s incoming protected now t (err error))
          (ap (λ p. p.0) e) not_flushed,
    )
after_aggregate-Steps candidates works flights runtime s incoming protected now (h, ok done) e c u
      small fits =
    let (after, answer, run, reserved) =
      make_room-Reserved candidates flights runtime h incoming protected c u small in
    (
      after,
      answer,
      run,
      made fits (
          subst (λ t. Reserved flights runtime incoming protected t after answer)
            (sym (ap (λ p. p.0) e)) reserved),
    )

-- The reservation ends, in one of these ways.
pub reserve_capacity_locked-Steps :
    (candidates : Table → Table) (works : ℕ → Bool) (flights : List ℕ)
    (runtime : CacheRuntimeConfig) (s : HitState) (incoming protected now : ℕ)
    → Selects candidates
    → Unique s.table
    → total s.table + incoming ≤ u64_max
    → (after : HitState) × (answer : ApiResult (Unit {0})) × (reserve_capacity_locked candidates
          works flights runtime s incoming protected now
        ≡ some (after, answer))
      × Steps works flights runtime s incoming protected now after answer
unfolding reserve_capacity_locked
reserve_capacity_locked-Steps candidates works flights runtime s incoming protected now c u small =
    let flushed = flush_hits-Flushed works now s u in
    elim (Bool-cases (ltb runtime.max_cache_bytes incoming)) [
      | inl large ↦ (
        s,
        err (bad_request "object exceeds the configured cache capacity"),
        rw large refl,
        too_large,
      )
      | inr fits ↦
          let (after, answer, run, steps) =
            after_aggregate-Steps candidates works flights runtime s incoming protected now
              (flush_hits works now s) refl c flushed.unique (rw flushed.sum small)
              (ground arith) in
          (after, answer, rw fits run, steps)
    ]
