-- ===== src/Transactions/Mvcc/Snapshots.antt =====
-- The whole store: its invariant, isolation of snapshots, and garbage collection.
use quantum_database.Prelude.{
  ℕ, ◌≤◌, ◌<◌, String, ◌≡◌, refl, ap, ◌∙◌, true, false, Option, none, some, [], ◌∷◌, arith,
  if◌then◌else◌, Dict, lookup, insert, lookup-insert, AllValues, AllValues-insert, AllValues-lookup,
  Option-cases, Bool-cases, ◌==◌, inl, inr, option_key, string_key,
}
use quantum_database.Transactions.Transaction.{Row}
use quantum_database.Transactions.Mvcc.{
  VersionedRecord, Chain, Table, MvccStore, version, extend, or_empty, chain_of, put_version, write,
  delete, visible_from, shown, read_table, read_snapshot, gc_table, gc_tables, gc,
}
use quantum_database.Transactions.Mvcc.Chains.{
  IsLinked, CreatedBy, extend-IsLinked, extend-CreatedBy, visible_from-linked, last-filter-extend,
  shown-extend, gc_chain-IsLinked, gc_chain-CreatedBy, visible_from-gc_chain, CreatedBy-mono,
}

abbrev IsChain : ℕ → Chain → Type 0
IsChain now chain = IsLinked chain × CreatedBy now chain

abbrev IsTable : ℕ → Table → Type 0
IsTable now = AllValues (IsChain now)

-- Every chain is linked, and holds no version that was created after `now`.
pub record IsValid (now : ℕ) (s : MvccStore) : Type 0 where
  pub tables : AllValues (IsTable now) s.versions

IsChain-mono : (n m : ℕ) (c : Chain) → n ≤ m → IsChain n c → IsChain m c
IsChain-mono n m c le h = (h.0, CreatedBy-mono n m c le h.1)

IsTable-mono : (n m : ℕ) (t : Table) → n ≤ m → IsTable n t → IsTable m t
IsTable-mono n m [] le h = tt
IsTable-mono n m ((pk, c) ∷ t) le h = (IsChain-mono n m c le h.0, IsTable-mono n m t le h.1)

tables_mono :
    (n m : ℕ) (ts : Dict String Table) → n ≤ m → AllValues (IsTable n) ts → AllValues (IsTable m) ts
tables_mono n m [] le h = tt
tables_mono n m ((k, t) ∷ ts) le h = (IsTable-mono n m t le h.0, tables_mono n m ts le h.1)

pub IsValid-mono : (n m : ℕ) (s : MvccStore) → n ≤ m → IsValid n s → IsValid m s
IsValid-mono n m s le h = record { tables = tables_mono n m s.versions le h.tables }

or_empty-IsTable :
    (now : ℕ) (s : MvccStore) (table : String)
    → IsValid now s
    → IsTable now (or_empty (lookup table s.versions))
or_empty-IsTable now s table h = elim (Option-cases (lookup table s.versions)) [
  | inl e ↦ rw e tt
  | inr (t, e) ↦ rw e (AllValues-lookup (IsTable now) table s.versions h.tables e)
]

row-IsChain :
    (now : ℕ) (t : Table) (pk : Option String)
    → IsTable now t
    → IsChain now (or_empty (lookup pk t))
row-IsChain now t pk h = elim (Option-cases (lookup pk t)) [
  | inl e ↦ rw e (tt, tt)
  | inr (c, e) ↦ rw e (AllValues-lookup (IsChain now) pk t h e)
]

chain_of-IsChain :
    (now : ℕ) (s : MvccStore) (table : String) (pk : Option String)
    → IsValid now s
    → IsChain now (chain_of s table pk)
chain_of-IsChain now s table pk h =
    row-IsChain now (or_empty (lookup table s.versions)) pk (or_empty-IsTable now s table h)

put_version-IsValid :
    (table : String) (pk : Option String) (v : VersionedRecord) (s : MvccStore)
    → v.expired_ts ≡ none
    → IsValid v.created_ts s
    → IsValid v.created_ts (put_version table pk v s)
unfolding put_version
put_version-IsValid table pk v s e h =
    let c = chain_of-IsChain v.created_ts s table pk h in
    record {
      tables =
          AllValues-insert (IsTable v.created_ts) table _ s.versions
            (AllValues-insert (IsChain v.created_ts) pk _ _
              (
                extend-IsLinked v (chain_of s table pk) e c.1 c.0,
                extend-CreatedBy v.created_ts v (chain_of s table pk) (omega arith) c.1,
              )
              (or_empty-IsTable v.created_ts s table h))
            h.tables;
    }

-- A write and a delete that are not in the past keep the store valid.
pub write-IsValid :
    (table : String) (pk : Option String) (row : Row) (id : String) (now : ℕ) (s : MvccStore)
    → IsValid now s
    → IsValid now (write table pk row id now s)
unfolding write
write-IsValid table pk row id now s h =
    put_version-IsValid table pk (version row id now false) s refl h

pub delete-IsValid :
    (table : String) (pk : Option String) (id : String) (now : ℕ) (s : MvccStore)
    → IsValid now s
    → IsValid now (delete table pk id now s)
unfolding delete
delete-IsValid table pk id now s h = put_version-IsValid table pk (version [] id now true) s refl h

read_table-insert :
    (t : ℕ) (pk : Option String) (c : Chain) (table : Table)
    → shown (visible_from t none c) ≡ shown (visible_from t none (or_empty (lookup pk table)))
    → read_table t (insert pk c table) ≡ read_table t table
unfolding read_table insert lookup visible_from
read_table-insert t pk c [] e = rw e
read_table-insert t pk c ((j, d) ∷ table) e = elim (Bool-cases (j == pk)) [
  | inl b ↦ ground (arith, b)
  | inr b ↦ ground (arith, b, read_table-insert t pk c table)
]

read_snapshot-put_version :
    (t : ℕ) (name table : String) (pk : Option String) (v : VersionedRecord) (s : MvccStore)
    → t < v.created_ts
    → IsValid v.created_ts s
    → read_snapshot name t (put_version table pk v s) ≡ read_snapshot name t s
unfolding read_snapshot put_version
read_snapshot-put_version t name table pk v s later h =
    rw lookup-insert (elim (Bool-cases (table == name)) [
      | inl b ↦
          rw (b, ← (string_key.same_iff table name).0 b)
            (read_table-insert t pk (extend v (chain_of s table pk))
              (or_empty (lookup table s.versions))
              (shown-extend t none v (chain_of s table pk) later
                (chain_of-IsChain v.created_ts s table pk h).0))
      | inr b ↦ rw b
    ])

-- A snapshot is not disturbed by what is written, or deleted, after it was taken.
pub read_snapshot-write :
    (name table : String) (pk : Option String) (row : Row) (id : String) (t now : ℕ) (s : MvccStore)
    → t < now
    → IsValid now s
    → read_snapshot name t (write table pk row id now s) ≡ read_snapshot name t s
unfolding write
read_snapshot-write name table pk row id t now s later h =
    read_snapshot-put_version t name table pk (version row id now false) s later h

pub read_snapshot-delete :
    (name table : String) (pk : Option String) (id : String) (t now : ℕ) (s : MvccStore)
    → t < now
    → IsValid now s
    → read_snapshot name t (delete table pk id now s) ≡ read_snapshot name t s
unfolding delete
read_snapshot-delete name table pk id t now s later h =
    read_snapshot-put_version t name table pk (version [] id now true) s later h

chain_of-put_version :
    (table table' : String) (pk pk' : Option String) (v : VersionedRecord) (s : MvccStore)
    → chain_of (put_version table pk v s) table' pk' ≡ (
        if table == table'
        then if pk == pk' then extend v (chain_of s table pk) else chain_of s table' pk'
        else chain_of s table' pk')
unfolding put_version
chain_of-put_version table table' pk pk' v s =
    rw lookup-insert (elim (Bool-cases (table == table')) [
      | inl b ↦
          rw (b, ← (string_key.same_iff table table').0 b)
            (rw lookup-insert (elim (Bool-cases (pk == pk')) [ inl c ↦ rw c | inr c ↦ rw c ]))
      | inr b ↦ rw b
    ])

-- What a snapshot at `t` sees of one key.
abbrev pub seen_at : ℕ → String → Option String → MvccStore → Option VersionedRecord
seen_at t table pk s = visible_from t none (chain_of s table pk)

-- From its own instant on, a write is what is seen of its key, and every other key is as before.
pub seen_at-write :
    (table table' : String) (pk pk' : Option String) (row : Row) (id : String) (t now : ℕ)
    (s : MvccStore)
    → now ≤ t
    → IsValid now s
    → seen_at t table' pk' (write table pk row id now s) ≡ (
        if table == table'
        then if pk == pk' then some (version row id now false) else seen_at t table' pk' s
        else seen_at t table' pk' s)
unfolding write
seen_at-write table table' pk pk' row id t now s le h =
    let v = version row id now false in
    let c = chain_of s table pk in
    let k = chain_of-IsChain now s table pk h in
    let new : visible_from t none (extend v c) ≡ some v =
      visible_from-linked t (extend v c) (extend-IsLinked v c refl k.1 k.0)
      ∙ last-filter-extend t v c le in
    rw chain_of-put_version (elim (Bool-cases (table == table')) [
      | inl b ↦ rw b (elim (Bool-cases (pk == pk')) [ inl d ↦ rw (d, new) | inr d ↦ rw d ])
      | inr b ↦ rw b
    ])

read_table-gc_table :
    (oldest t now : ℕ) (table : Table)
    → oldest ≤ t
    → IsTable now table
    → read_table t (gc_table oldest table).0 ≡ read_table t table
unfolding read_table gc_table
read_table-gc_table oldest t now [] le h = refl
read_table-gc_table oldest t now ((pk, c) ∷ table) le h =
    rw (visible_from-gc_chain oldest c h.0.0 t le, read_table-gc_table oldest t now table le h.1)

lookup-gc_tables :
    (oldest : ℕ) (name : String) (ts : Dict String Table)
    → or_empty (lookup name (gc_tables oldest ts).0)
      ≡ (gc_table oldest (or_empty (lookup name ts))).0
unfolding lookup gc_tables gc_table
lookup-gc_tables oldest name [] = refl
lookup-gc_tables oldest name ((k, t) ∷ ts) = elim (Bool-cases (k == name)) [
  | inl b ↦ rw b
  | inr b ↦ rw b (lookup-gc_tables oldest name ts)
]

-- In a store whose chains of versions are linked in the order of their times, with none created after
-- `now`: collecting at `oldest` changes no snapshot that was taken at `oldest` or later.
pub read_snapshot-gc :
    (name : String) (oldest t now : ℕ) (s : MvccStore)
    → oldest ≤ t
    → IsValid now s
    → read_snapshot name t (gc oldest s).0 ≡ read_snapshot name t s
unfolding read_snapshot gc
read_snapshot-gc name oldest t now s le h =
    ap (read_table t) (lookup-gc_tables oldest name s.versions)
    ∙ read_table-gc_table oldest t now _ le (or_empty-IsTable now s name h)

gc_table-IsTable : (oldest now : ℕ) (t : Table) → IsTable now t → IsTable now (gc_table oldest t).0
unfolding gc_table
gc_table-IsTable oldest now [] h = tt
gc_table-IsTable oldest now ((pk, c) ∷ t) h = (
  (gc_chain-IsLinked oldest c h.0.0, gc_chain-CreatedBy oldest c h.0.0 now h.0.1),
  gc_table-IsTable oldest now t h.1,
)

gc_tables-IsTable :
    (oldest now : ℕ) (ts : Dict String Table)
    → AllValues (IsTable now) ts
    → AllValues (IsTable now) (gc_tables oldest ts).0
unfolding gc_tables
gc_tables-IsTable oldest now [] h = tt
gc_tables-IsTable oldest now ((k, t) ∷ ts) h =
    (gc_table-IsTable oldest now t h.0, gc_tables-IsTable oldest now ts h.1)

pub gc-IsValid : (oldest now : ℕ) (s : MvccStore) → IsValid now s → IsValid now (gc oldest s).0
unfolding gc
gc-IsValid oldest now s h = record { tables = gc_tables-IsTable oldest now s.versions h.tables }
