-- ===== src/Cache/Agree.antt =====
-- The table of src/cache.rs and the files of its objects agree.

use donkey.Base.{
  ℕ, Bool, true, false, Option, none, some, List, [], ◌∷◌, keep, ◌==◌, ==_iff, if◌then◌else◌, ◌≡◌,
  refl, sym, ap, ◌∙◌, subst, inl, inr, Bool-cases, arith, saturating_add, or_left, or_right,
}
use donkey.Cache.{CacheRecord, Table, find_record, delete_record}
use donkey.Cache.Table.{has_key, Unique, find_record-delete_record, Unique-delete_record}
use donkey.Cache.Objects.{
  CacheState, is_size, without, remove, in_flight, clear_entries, is_valid, has_record,
  reconcile_startup,
}

abbrev pub size_of : Option CacheRecord → Option ℕ
size_of none = none
size_of (some r) = some r.size_bytes

-- A key has a file exactly when it has a record, and the file has the record's size.
abbrev pub Agrees : Table → (ℕ → Option ℕ) → Type 0
Agrees table files = (k : ℕ) → files k ≡ size_of (find_record k table)

pub find_record_absent :
    (key : ℕ) (table : Table) → has_key key table ≡ false → find_record key table ≡ none
unfolding find_record
find_record_absent key [] h = refl
find_record_absent key (r ∷ table) h = ground (arith, find_record_absent key table)

is_size_eq : (file : Option ℕ) (size : ℕ) → is_size file size ≡ true → file ≡ some size
is_size_eq none size h = cc
is_size_eq (some n) size h = ap some ((==_iff n size).0 h)

-- Of the valid records, a key's is its record, if that is valid.
find_record-keep :
    (files : ℕ → Option ℕ) (table : Table) (k : ℕ)
    → Unique table
    → (if has_record k (keep (is_valid files) table) then files k else none)
      ≡ size_of (find_record k (keep (is_valid files) table))
unfolding find_record
find_record-keep files [] k u = refl
find_record-keep files (r ∷ table) k (here, u) =
    let rest = find_record-keep files table k u in
    elim (Bool-cases (is_valid files r)) [
      | inr e ↦ rw e rest
      | inl e ↦ elim (Bool-cases (r.key == k)) [
        | inl same ↦
            let k' : r.key ≡ k = (==_iff r.key k).0 same in
            rw (e, same)
              (subst (λ j. files j ≡ some r.size_bytes) k'
                (is_size_eq (files r.key) r.size_bytes e))
        | inr other ↦ rw (e, other) rest
      ]
    ]

pub has_key-keep :
    (p : CacheRecord → Bool) (k : ℕ) (table : Table)
    → has_key k table ≡ false
    → has_key k (keep p table) ≡ false
has_key-keep p k [] h = refl
has_key-keep p k (r ∷ table) h = elim (Bool-cases (p r)) [
  | inl e ↦
      rw (e, or_left (r.key == k) _ h, has_key-keep p k table (or_right (r.key == k) _ h)) refl
  | inr e ↦ rw e (has_key-keep p k table (or_right (r.key == k) _ h))
]

pub Unique-keep : (p : CacheRecord → Bool) (table : Table) → Unique table → Unique (keep p table)
Unique-keep p [] u = tt
Unique-keep p (r ∷ table) (here, u) = elim (Bool-cases (p r)) [
  | inl e ↦ rw e (has_key-keep p r.key table here, Unique-keep p table u)
  | inr e ↦ rw e (Unique-keep p table u)
]

pub has_key-delete_self : (key : ℕ) (table : Table) → has_key key (delete_record key table) ≡ false
unfolding delete_record
has_key-delete_self key [] = refl
has_key-delete_self key (r ∷ table) = ground (arith, has_key-delete_self key table)

-- In order: no key twice, and the files agree with the records.
pub record IsInOrder (s : CacheState) : Type 0 where
  pub unique : Unique s.table
  pub agrees : Agrees s.table s.files

-- A restart puts any table and any files in order: records with a missing or damaged file go, and
-- files without a record.
pub reconcile_startup-IsInOrder :
    (s : CacheState) → Unique s.table → IsInOrder (reconcile_startup s)
unfolding reconcile_startup
reconcile_startup-IsInOrder s u = record {
  unique = Unique-keep (is_valid s.files) s.table u;
  agrees = λ k. find_record-keep s.files s.table k u;
}

remove-Agrees :
    (key : ℕ) (table : Table) (files : ℕ → Option ℕ)
    → Agrees table files
    → Agrees (delete_record key table) (without key files)
remove-Agrees key table files a k = elim (Bool-cases (k == key)) [
  | inl same ↦
      let e : k ≡ key = (==_iff k key).0 same in
      rw same (
        subst (λ j. none ≡ size_of (find_record j (delete_record key table))) (sym e)
          (ap size_of (
            sym
              (find_record_absent key (delete_record key table) (has_key-delete_self key table)))))
  | inr other ↦
      let apart : (key == k) ≡ false = ground arith in
      rw other (a k ∙ ap size_of (sym (find_record-delete_record key k table apart)))
]

pub remove-IsInOrder : (key : ℕ) (s : CacheState) → IsInOrder s → IsInOrder (remove key s)
unfolding remove
remove-IsInOrder key s w = record {
  unique = Unique-delete_record key s.table w.unique;
  agrees = remove-Agrees key s.table s.files w.agrees;
}

pub clear_entries-IsInOrder :
    (flights : List ℕ) (entries : Table) (s : CacheState) (freed : ℕ)
    → IsInOrder s
    → IsInOrder (clear_entries flights entries s freed).0
unfolding clear_entries
clear_entries-IsInOrder flights [] s freed w = w
clear_entries-IsInOrder flights (r ∷ entries) s freed w =
    elim (Bool-cases (in_flight flights r.key)) [
      | inl e ↦ rw e (clear_entries-IsInOrder flights entries s freed w)
      | inr e ↦ rw e (
          clear_entries-IsInOrder flights entries (remove r.key s)
            (saturating_add freed r.size_bytes) (remove-IsInOrder r.key s w))
    ]
