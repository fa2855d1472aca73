-- ===== src/Cache/Table.antt =====
-- The table of cached objects of src/cache.rs: its primary key, its total, and the deletion of one
-- record.
use donkey.Base.{
  ℕ, ◌+◌, ◌≤◌, ◌<◌, ◌≡◌, refl, inl, inr, Bool, false, some, [], ◌∷◌, length, any, arith, Bool-cases,
  ==_iff, ◌==◌,
}
use donkey.Cache.{CacheRecord, Table, total, find_record, delete_record}

abbrev pub has_key : ℕ → Table → Bool
has_key key = any (λ r. r.key == key)

-- No key stands twice.
abbrev pub Unique : Table → Type 0
Unique [] = Unit {0}
Unique (r ∷ table) = (has_key r.key table ≡ false) × Unique table

delete_absent :
    (key : ℕ) (table : Table) → has_key key table ≡ false → delete_record key table ≡ table
unfolding delete_record
delete_absent key [] h = refl
delete_absent key (r ∷ table) h = ground (arith, delete_absent key table)

pub total-delete_record :
    (key : ℕ) (table : Table) (r : CacheRecord)
    → Unique table
    → find_record key table ≡ some r
    → total (delete_record key table) + r.size_bytes ≡ total table
unfolding total delete_record find_record
total-delete_record key [] r u e = cc
total-delete_record key (x ∷ table) r (here, u) e = elim (Bool-cases (x.key == key)) [
  | inl hit ↦
      let k : x.key ≡ key = (==_iff x.key key).0 hit in
      let gone = delete_absent key table (rw k at here) in ground (arith, gone)
  | inr miss ↦ ground (arith, total-delete_record key table r u)
]

length-delete-le : (key : ℕ) (table : Table) → length (delete_record key table) ≤ length table
unfolding delete_record
length-delete-le key [] = omega arith
length-delete-le key (x ∷ table) = ground (arith, length-delete-le key table)

pub length-delete_record :
    (key : ℕ) (table : Table) (r : CacheRecord)
    → find_record key table ≡ some r
    → length (delete_record key table) < length table
unfolding delete_record find_record
length-delete_record key [] r e = cc
length-delete_record key (x ∷ table) r e = elim (Bool-cases (x.key == key)) [
  | inl hit ↦ rw hit (omega (arith, length-delete-le key table))
  | inr miss ↦ ground (arith, length-delete_record key table r)
]

pub find_record-delete_record :
    (key other : ℕ) (table : Table)
    → (key == other) ≡ false
    → find_record other (delete_record key table) ≡ find_record other table
unfolding delete_record find_record
find_record-delete_record key other [] h = refl
find_record-delete_record key other (x ∷ table) h =
    ground (arith, find_record-delete_record key other table)

has_key-delete_record :
    (key other : ℕ) (table : Table)
    → has_key other table ≡ false
    → has_key other (delete_record key table) ≡ false
unfolding delete_record
has_key-delete_record key other [] h = refl
has_key-delete_record key other (x ∷ table) h =
    ground (arith, has_key-delete_record key other table)

pub Unique-delete_record :
    (key : ℕ) (table : Table) → Unique table → Unique (delete_record key table)
unfolding delete_record
Unique-delete_record key [] u = tt
Unique-delete_record key (x ∷ table) (here, u) = elim (Bool-cases (x.key == key)) [
  | inl hit ↦ rw hit (Unique-delete_record key table u)
  | inr miss ↦
      rw miss (has_key-delete_record key x.key table here, Unique-delete_record key table u)
]
