-- ===== src/Cache/Cleanup.antt =====
-- What `cleanup_expired` of src/cache.rs leaves.

use donkey.Base.{
  ℕ, suc, ◌-◌, ◌≤◌, ◌<◌, Bool, true, Option, some, List, [], ◌∷◌, length, ltb, ◌==◌, ==_iff, ◌≡◌,
  refl, sym, ap, ◌∙◌, subst, inl, inr, ◌⊎◌, Bool-cases, arith, ok, err, some-inj,
}
use donkey.Error.{ApiResult}
use donkey.Cache.{CacheRecord, Table, find_record}
use donkey.Cache.Table.{has_key, Unique}
use donkey.Cache.Hits.{
  HitState, pending_of, discard_pending, add_cache_hits, keys_to_flush, flush_keys, flush_hits,
}
use donkey.Cache.Served.{Unique-add_cache_hits}
use donkey.Cache.Objects.{CacheState, counters, in_flight}
use donkey.Cache.Expire.{freed_bytes, after_flush, expire_loop, cleanup_expired}
use donkey.Cache.Expiry.{Queries, expire_loop-Spares}
use donkey.Cache.Recent.{flush_keys-IsFresh, flushed-IsFresh, keys_to_flush-has}

flush_keys-works :
    (works : ℕ → Bool) (now : ℕ) (keys : List ℕ) (s : HitState)
    → ((k : ℕ) → works k ≡ true)
    → Unique s.table
    → ((flush_keys works now keys s).1 ≡ ok tt) × Unique (flush_keys works now keys s).0.table
unfolding flush_keys
flush_keys-works works now [] s all_work u = (refl, u)
flush_keys-works works now (key ∷ keys) s all_work u =
    let count = pending_of key s.pending in
    let rest = discard_pending key s.pending in
    elim (Bool-cases (ltb 0 count)) [
      | inl e ↦
          rw (e, all_work key)
            (flush_keys-works works now keys
              (record { table = add_cache_hits key count now s.table; pending = rest }) all_work
              (Unique-add_cache_hits key count now s.table u))
      | inr e ↦ rw e (flush_keys-works works now keys (record s { pending = rest }) all_work u)
    ]

flush_hits-works :
    (works : ℕ → Bool) (now : ℕ) (s : HitState)
    → ((k : ℕ) → works k ≡ true)
    → Unique s.table
    → ((flush_hits works now s).1 ≡ ok tt) × Unique (flush_hits works now s).0.table
unfolding flush_hits
flush_hits-works works now s all_work u =
    flush_keys-works works now (keys_to_flush s.pending) s all_work u

find_record_key :
    (key : ℕ) (table : Table) (r : CacheRecord) → find_record key table ≡ some r → r.key ≡ key
unfolding find_record
find_record_key key [] r h = cc
find_record_key key (x ∷ table) r h = elim (Bool-cases (x.key == key)) [
  | inl e ↦
      let same : x ≡ r = some-inj (rw e at h) in
      subst (λ (y : CacheRecord). y.key ≡ key) same ((==_iff x.key key).0 e)
  | inr e ↦ find_record_key key table r (rw e at h)
]

found-has_key :
    (key : ℕ) (table : Table) (r : CacheRecord)
    → find_record key table ≡ some r
    → has_key key table ≡ true
unfolding find_record
found-has_key key [] r h = cc
found-has_key key (x ∷ table) r h = ground (arith, found-has_key key table r)

-- What protects an object from expiry.
abbrev pub IsProtected : List ℕ → ℕ → CacheState → ℕ → CacheRecord → Type 0
IsProtected flights cutoff s key r =
    (in_flight flights key ≡ true)
    ⊎ ((cutoff ≤ r.last_accessed_at) ⊎ (0 < pending_of key s.pending))

-- The record after the flush, which must be spared.
protected-flushed :
    (works : ℕ → Bool) (flights : List ℕ) (cutoff now key : ℕ) (s : CacheState) (r : CacheRecord)
    → cutoff ≤ now
    → ((k : ℕ) → works k ≡ true)
    → find_record key s.table ≡ some r
    → IsProtected flights cutoff s key r
    → (r' : CacheRecord) × (find_record key (flush_hits works now (counters s)).0.table ≡ some r')
      × ((in_flight flights r'.key ≡ true) ⊎ (cutoff ≤ r'.last_accessed_at))
unfolding flush_hits
protected-flushed works flights cutoff now key s r le all_work here (inl flying) =
    let table' = (flush_keys works now (keys_to_flush s.pending) (counters s)).0.table in
    let (r', there, _) =
      flush_keys-IsFresh works 0 key now (keys_to_flush s.pending) (counters s) (omega arith)
        (r, here, omega arith) in
    (
      r',
      there,
      inl (
          subst (λ k. in_flight flights k ≡ true) (sym (find_record_key key table' r' there))
            flying),
    )
protected-flushed works flights cutoff now key s r le all_work here (inr (inl recent)) =
    let (r', there, fresh) =
      flush_keys-IsFresh works cutoff key now (keys_to_flush s.pending) (counters s) le
        (r, here, recent) in
    (r', there, inr fresh)
protected-flushed works flights cutoff now key s r le all_work here (inr (inr buffered)) =
    let (r', there, fresh) =
      flushed-IsFresh works cutoff key now (keys_to_flush s.pending) (counters s) r le all_work
        (keys_to_flush-has key s.pending buffered) buffered here in
    (r', there, inr fresh)

after_flush-eq :
    (next : CacheState → Option (CacheState × ApiResult ℕ)) (s : CacheState)
    (h : HitState × ApiResult (Unit {0}))
    → h.1 ≡ ok tt
    → after_flush next s h ≡ next (record s { table = h.0.table; pending = h.0.pending })
after_flush-eq next s (h, ok done) e = refl
after_flush-eq next s (h, err error) e = cc

-- The removal of what has expired ends, and it spares every object that is in flight, that was
-- accessed within the time to live, or that has hits which are still buffered in memory. All writes
-- to the database work, and the query gives old records of the table, each once.
pub cleanup_expired_lem :
    (expired : ℕ → Table → Table) (works : ℕ → Bool) (flights : List ℕ) (ttl now : ℕ)
    (s : CacheState)
    → Queries expired
    → ((k : ℕ) → works k ≡ true)
    → Unique s.table
    → (t : CacheState) × (bytes : ℕ) × (cleanup_expired expired works flights (some ttl) now s
        ≡ some (t, ok bytes))
      × ((key : ℕ) (r : CacheRecord)
          → find_record key s.table ≡ some r
          → IsProtected flights (now - ttl) s key r
          → has_key key t.table ≡ true)
unfolding cleanup_expired
cleanup_expired_lem expired works flights ttl now s q all_work u =
    let flushed = flush_hits works now (counters s) in
    let (worked, u') = flush_hits-works works now (counters s) all_work u in
    let s' : CacheState = record s { table = flushed.0.table; pending = flushed.0.pending } in
    let (t, bytes, run, spares) =
      expire_loop-Spares expired flights (now - ttl) (suc (length s'.table)) s' 0 q u'
        (omega arith) in
    (
      t,
      bytes,
      after_flush-eq
            (λ x.
              freed_bytes (expire_loop (expired (now - ttl)) flights (suc (length x.table)) x 0))
            s flushed worked
          ∙ ap freed_bytes run,
      λ key r here protected.
          let (r', there, safe) =
            protected-flushed works flights (now - ttl) now key s r (omega arith) all_work here
              protected in
          found-has_key key t.table r'
            (spares key r' (find_record_key key flushed.0.table r' there) safe there),
    )
