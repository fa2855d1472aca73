-- ===== src/Cache/Served.antt =====
-- What the operations of src/cache.rs do to a cache in order, and what `get` answers.

use donkey.Base.{
  ℕ, Bool, true, false, not, Option, none, some, List, [], ◌∷◌, leb, ◌==◌, ==_iff, ==_self,
  if◌then◌else◌, ◌≡◌, refl, sym, ap, ◌∙◌, subst, inl, inr, ◌⊎◌, Bool-cases, Option-cases, arith,
  saturating_add, ok, err,
}
use donkey.Error.{ApiResult, database}
use donkey.Cache.{CacheRecord, Table, find_record, delete_record}
use donkey.Cache.Table.{has_key, Unique, find_record-delete_record}
use donkey.Cache.Hits.{
  HitState, Pending, add_cache_hits, write_hits, record_hit, flush_threshold, pending_of,
  put_pending,
}
use donkey.Cache.Counted.{has_key-add_cache_hits}
use donkey.Cache.Objects.{
  CacheState, is_size, get, remove, in_flight, clear_entries, clear_all, reconcile_startup,
  answer_hit, counters,
}
use donkey.Cache.Agree.{
  size_of, Agrees, IsInOrder, find_record_absent, has_key-delete_self, reconcile_startup-IsInOrder,
  remove-IsInOrder, clear_entries-IsInOrder, has_key-keep,
}

-- Counting hits leaves keys and sizes alone.
pub size_of-add_cache_hits :
    (k key count now : ℕ) (table : Table)
    → size_of (find_record k (add_cache_hits key count now table)) ≡ size_of (find_record k table)
unfolding find_record add_cache_hits
size_of-add_cache_hits k key count now [] = refl
size_of-add_cache_hits k key count now (r ∷ table) =
    ground (arith, size_of-add_cache_hits k key count now table)

pub Unique-add_cache_hits :
    (key count now : ℕ) (table : Table) → Unique table → Unique (add_cache_hits key count now table)
unfolding add_cache_hits
Unique-add_cache_hits key count now [] u = tt
Unique-add_cache_hits key count now (r ∷ table) (here, u) =
    let rest = Unique-add_cache_hits key count now table u in
    let fresh = has_key-add_cache_hits r.key key count now table ∙ here in
    elim (Bool-cases (r.key == key)) [ inl e ↦ rw e (fresh, rest) | inr e ↦ rw e (fresh, rest) ]

abbrev InOrder : Table → (ℕ → Option ℕ) → Type 0
InOrder table files = Unique table × Agrees table files

write_hits-InOrder :
    (works : Bool) (key count now : ℕ) (table : Table) (pending : Pending) (files : ℕ → Option ℕ)
    → InOrder table files
    → InOrder (write_hits works key count now table pending).0.table files
write_hits-InOrder true key count now table pending files (u, a) = (
  Unique-add_cache_hits key count now table u,
  λ k. a k ∙ sym (size_of-add_cache_hits k key count now table),
)
write_hits-InOrder false key count now table pending files w = w

record_hit-InOrder :
    (works : ℕ → Bool) (now key : ℕ) (h : HitState) (files : ℕ → Option ℕ)
    → InOrder h.table files
    → InOrder (record_hit works now key h).0.table files
unfolding record_hit
record_hit-InOrder works now key h files w =
    let count = saturating_add (pending_of key h.pending) 1 in
    elim (Bool-cases (leb flush_threshold count)) [
      | inl e ↦ rw e (
          write_hits-InOrder (works key) key count now h.table (put_pending key 0 h.pending) files
            w)
      | inr e ↦ rw e w
    ]

-- What `get` does to a cache in order: a key without a record is a miss, and nothing changes. A key
-- with a record is answered with that record, unless a write of its hits is due and fails; the
-- files stay as they are.
abbrev pub Answered : (ℕ → Bool) → ℕ → ℕ → CacheState → Option CacheRecord → Type 0
Answered works now key s none = get works now key s ≡ (s, ok none)
Answered works now key s (some r) =
    (((get works now key s).1 ≡ ok (some r))
      ⊎ (((get works now key s).1 ≡ err database)
          × (works key ≡ false)
          × (leb flush_threshold (saturating_add (pending_of key s.pending) 1) ≡ true)))
    × ((get works now key s).0.files ≡ s.files)

-- A hit is counted in memory, or written where that is due.
Recorded : (ℕ → Bool) → ℕ → HitState → HitState × ApiResult (Unit {0}) → Type 0
Recorded works key h r =
    (r.1 ≡ ok tt)
    ⊎ ((r.1 ≡ err database)
        × (works key ≡ false)
        × (leb flush_threshold (saturating_add (pending_of key h.pending) 1) ≡ true))

record_hit-Recorded :
    (works : ℕ → Bool) (now key : ℕ) (h : HitState)
    → Recorded works key h (record_hit works now key h)
unfolding record_hit Recorded
record_hit-Recorded works now key h =
    elim (Bool-cases (leb flush_threshold (saturating_add (pending_of key h.pending) 1))) [
      | inr e ↦ rw e (inl refl)
      | inl e ↦ elim (Bool-cases (works key)) [
        | inl w ↦ rw (e, w) (inl refl)
        | inr w ↦ rw (e, w) (inr (refl, refl, refl))
      ]
    ]

answer_hit-Answered :
    (works : ℕ → Bool) (key : ℕ) (s : CacheState) (r : CacheRecord)
    (h : HitState × ApiResult (Unit {0}))
    → Recorded works key (counters s) h
    → (((answer_hit s r h).1 ≡ ok (some r))
        ⊎ (((answer_hit s r h).1 ≡ err database)
            × (works key ≡ false)
            × (leb flush_threshold (saturating_add (pending_of key s.pending) 1) ≡ true)))
      × ((answer_hit s r h).0.files ≡ s.files)
unfolding Recorded
answer_hit-Answered works key s r (h, ok done) recorded = (inl refl, refl)
answer_hit-Answered works key s r (h, err error) (inl e) = cc
answer_hit-Answered works key s r (h, err error) (inr (e, fails, due)) =
    let same : error ≡ database = cc in (inr (ap err same, fails, due), refl)

get-hit :
    (works : ℕ → Bool) (now key : ℕ) (s : CacheState) (r : CacheRecord)
    → IsInOrder s
    → find_record key s.table ≡ some r
    → get works now key s ≡ answer_hit s r (record_hit works now key (counters s))
unfolding get
get-hit works now key s r w e =
    let file : s.files key ≡ some r.size_bytes = w.agrees key ∙ ap size_of e in
    let valid : is_size (s.files key) r.size_bytes ≡ true = rw file (==_self r.size_bytes) in
    rw (e, get) (rw valid refl)

get-miss :
    (works : ℕ → Bool) (now key : ℕ) (s : CacheState)
    → find_record key s.table ≡ none
    → get works now key s ≡ (s, ok none)
unfolding get
get-miss works now key s e = rw (e, get) refl

get-Answered :
    (works : ℕ → Bool) (now key : ℕ) (s : CacheState) (found : Option CacheRecord)
    → IsInOrder s
    → find_record key s.table ≡ found
    → Answered works now key s found
get-Answered works now key s none w e = get-miss works now key s e
get-Answered works now key s (some r) w e = rw (get-hit works now key s r w e) (
    answer_hit-Answered works key s r (record_hit works now key (counters s))
      (record_hit-Recorded works now key (counters s)))

get-IsInOrder :
    (works : ℕ → Bool) (now key : ℕ) (s : CacheState)
    → IsInOrder s
    → IsInOrder (get works now key s).0
get-IsInOrder works now key s w = elim (Option-cases (find_record key s.table)) [
  | inl e ↦ rw (get-miss works now key s e) w
  | inr (r, e) ↦
      let (u, a) = record_hit-InOrder works now key (counters s) s.files (w.unique, w.agrees) in
      rw (get-hit works now key s r w e) (record { unique = u; agrees = a })
]

has_key-delete_record :
    (k key : ℕ) (table : Table)
    → has_key k table ≡ false
    → has_key k (delete_record key table) ≡ false
unfolding delete_record
has_key-delete_record k key table h = has_key-keep (λ r. not (r.key == key)) k table h

absent-clear_entries :
    (flights : List ℕ) (k : ℕ) (entries : Table) (s : CacheState) (freed : ℕ)
    → has_key k s.table ≡ false
    → has_key k (clear_entries flights entries s freed).0.table ≡ false
unfolding clear_entries remove
absent-clear_entries flights k [] s freed h = h
absent-clear_entries flights k (r ∷ entries) s freed h =
    elim (Bool-cases (in_flight flights r.key)) [
      | inl e ↦ rw e (absent-clear_entries flights k entries s freed h)
      | inr e ↦ rw e (
          absent-clear_entries flights k entries (remove r.key s)
            (saturating_add freed r.size_bytes) (has_key-delete_record k r.key s.table h))
    ]

-- A record that was listed and is not in flight is gone after the loop.
cleared :
    (flights : List ℕ) (k : ℕ) (entries : Table) (s : CacheState) (freed : ℕ)
    → in_flight flights k ≡ false
    → has_key k entries ≡ true
    → has_key k (clear_entries flights entries s freed).0.table ≡ false
unfolding clear_entries remove
cleared flights k [] s freed idle h = cc
cleared flights k (r ∷ entries) s freed idle h = elim (Bool-cases (r.key == k)) [
  | inl same ↦
      let e : r.key ≡ k = (==_iff r.key k).0 same in
      let out : in_flight flights r.key ≡ false = rw e idle in
      rw out (
        absent-clear_entries flights k entries (remove r.key s) (saturating_add freed r.size_bytes)
          (subst (λ j. has_key k (delete_record j s.table) ≡ false) (sym e)
            (has_key-delete_self k s.table)))
  | inr other ↦
      let later = rw other at h in
      elim (Bool-cases (in_flight flights r.key)) [
        | inl e ↦ rw e (cleared flights k entries s freed idle later)
        | inr e ↦ rw e (
            cleared flights k entries (remove r.key s) (saturating_add freed r.size_bytes) idle
              later)
      ]
]

-- One in flight stays as it is.
spared :
    (flights : List ℕ) (k : ℕ) (entries : Table) (s : CacheState) (freed : ℕ)
    → in_flight flights k ≡ true
    → find_record k (clear_entries flights entries s freed).0.table ≡ find_record k s.table
unfolding clear_entries remove
spared flights k [] s freed flying = refl
spared flights k (r ∷ entries) s freed flying = elim (Bool-cases (in_flight flights r.key)) [
  | inl e ↦ rw e (spared flights k entries s freed flying)
  | inr e ↦
      let apart : (r.key == k) ≡ false = elim (Bool-cases (r.key == k)) [
        | inr ne ↦ ne
        | inl same ↦
            absurd
              (let q = subst (λ j. in_flight flights j ≡ false) ((==_iff r.key k).0 same) e in cc)
      ] in
      rw e (
        spared flights k entries (remove r.key s) (saturating_add freed r.size_bytes) flying
        ∙ find_record-delete_record r.key k s.table apart)
]

has_key-cases : (k : ℕ) (table : Table) → (has_key k table ≡ true) ⊎ (has_key k table ≡ false)
has_key-cases k table = Bool-cases (has_key k table)

-- After the loop a key that is not in flight has no record.
none_left :
    (flights : List ℕ) (k : ℕ) (s : CacheState)
    → in_flight flights k ≡ false
    → find_record k (clear_entries flights s.table s 0).0.table ≡ none
none_left flights k s idle =
    find_record_absent k (clear_entries flights s.table s 0).0.table
      (elim (has_key-cases k s.table) [
        | inl here ↦ cleared flights k s.table s 0 idle here
        | inr gone ↦ absent-clear_entries flights k s.table s 0 gone
      ])

clear_all-IsInOrder :
    (idle : Bool) (flights : List ℕ) (s : CacheState)
    → IsInOrder s
    → IsInOrder (clear_all idle flights s).0
unfolding clear_all
clear_all-IsInOrder false flights s w = w
clear_all-IsInOrder true flights s w =
    let after = clear_entries-IsInOrder flights s.table s 0 w in
    record {
      unique = after.unique;
      agrees = λ k. elim (Bool-cases (in_flight flights k)) [
        | inl e ↦ rw e (after.agrees k)
        | inr e ↦ rw e (ap size_of (sym (none_left flights k s e)))
      ];
    }

-- Clearing the cache removes every record that is not in flight, and leaves those in flight.
pub clear_all-find_record :
    (flights : List ℕ) (s : CacheState) (k : ℕ)
    → find_record k (clear_all true flights s).0.table
      ≡ (if in_flight flights k then find_record k s.table else none)
unfolding clear_all
clear_all-find_record flights s k = elim (Bool-cases (in_flight flights k)) [
  | inl e ↦ rw e (spared flights k s.table s 0 e)
  | inr e ↦ rw e (none_left flights k s e)
]

-- Requests, removals, clearings and restarts.
pub data CacheOp : Type 0 where
  gets : (ℕ → Bool) → ℕ → ℕ → CacheOp
  removes : ℕ → CacheOp
  clears : Bool → List ℕ → CacheOp
  restarts : CacheOp

abbrev pub cache_op : CacheOp → CacheState → CacheState
cache_op (gets works now key) s = (get works now key s).0
cache_op (removes key) s = remove key s
cache_op (clears idle flights) s = (clear_all idle flights s).0
cache_op restarts s = reconcile_startup s

unfoldable pub run_cache : List CacheOp → CacheState → CacheState
run_cache [] s = s
run_cache (op ∷ ops) s = run_cache ops (cache_op op s)

cache_op-IsInOrder : (op : CacheOp) (s : CacheState) → IsInOrder s → IsInOrder (cache_op op s)
cache_op-IsInOrder (gets works now key) s w = get-IsInOrder works now key s w
cache_op-IsInOrder (removes key) s w = remove-IsInOrder key s w
cache_op-IsInOrder (clears idle flights) s w = clear_all-IsInOrder idle flights s w
cache_op-IsInOrder restarts s w = reconcile_startup-IsInOrder s w.unique

run_cache-IsInOrder :
    (ops : List CacheOp) (s : CacheState) → IsInOrder s → IsInOrder (run_cache ops s)
unfolding run_cache
run_cache-IsInOrder [] s w = w
run_cache-IsInOrder (op ∷ ops) s w =
    run_cache-IsInOrder ops (cache_op op s) (cache_op-IsInOrder op s w)

-- Whatever files and records a crash has left: after the start, and any requests, removals,
-- clearings and further starts, a key has a file exactly when it has a record, and the file has the
-- size of the record. So a request for a key with a record is answered with that record, unless the
-- write of its hits is due, with the 32nd hit in memory, and fails; the files stay as they are. Any
-- other request is a miss that changes nothing.
pub run_cache_get :
    (ops : List CacheOp) (s : CacheState) (works : ℕ → Bool) (now key : ℕ)
    → Unique s.table
    → let t = run_cache ops (reconcile_startup s) in
      Agrees t.table t.files × Answered works now key t (find_record key t.table)
run_cache_get ops s works now key u =
    let t = run_cache ops (reconcile_startup s) in
    let w = run_cache-IsInOrder ops (reconcile_startup s) (reconcile_startup-IsInOrder s u) in
    (w.agrees, get-Answered works now key t (find_record key t.table) w refl)
