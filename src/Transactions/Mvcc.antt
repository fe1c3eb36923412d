-- ===== src/Transactions/Mvcc.antt =====
-- qndb/interface/transactions/mvcc.py: the multi-version store. A table maps a primary key, which
-- may be absent, to the chain of its versions, oldest first.
pub mod Chains
pub mod Snapshots
use quantum_database.Prelude.{
  ℕ, ◌+◌, ◌-◌, String, Bool, true, false, Option, none, some, List, [], ◌∷◌, ◌++◌, if◌then◌else◌,
  ltb, leb, length, filter, Dict, lookup, insert, option_key, string_key,
}
use quantum_database.Transactions.Transaction.{Row}

pub record VersionedRecord : Type 0 where
  pub row : Row
  pub txn_id : String
  pub created_ts : ℕ
  pub expired_ts : Option ℕ
  pub deleted : Bool

abbrev pub Chain : Type 0
Chain = List VersionedRecord

abbrev pub Table : Type 0
Table = Dict (Option String) Chain

pub record MvccStore : Type 0 where
  pub versions : Dict String Table

abbrev pub version : Row → String → ℕ → Bool → VersionedRecord
version row txn_id ts deleted = record {
  row = row;
  txn_id = txn_id;
  created_ts = ts;
  expired_ts = none;
  deleted = deleted;
}

-- `chain[-1].expired_ts = ts`, if the chain has a last version
unfoldable pub expire_last : ℕ → Chain → Chain
expire_last ts [] = []
expire_last ts (v ∷ []) = record v { expired_ts = some ts } ∷ []
expire_last ts (v ∷ w ∷ chain) = v ∷ expire_last ts (w ∷ chain)

unfoldable pub extend : VersionedRecord → Chain → Chain
unfolding expire_last
extend v chain = expire_last v.created_ts chain ++ v ∷ []

abbrev pub or_empty {ℓ} : {A : Type ℓ} → Option (List A) → List A
or_empty none = []
or_empty (some xs) = xs

abbrev pub chain_of : MvccStore → String → Option String → Chain
chain_of s table pk = or_empty (lookup pk (or_empty (lookup table s.versions)))

pub put_version : String → Option String → VersionedRecord → MvccStore → MvccStore
put_version table pk v s = record {
  versions =
      insert table (insert pk (extend v (chain_of s table pk)) (or_empty (lookup table s.versions)))
        s.versions;
}

unfoldable pub write : String → Option String → Row → String → ℕ → MvccStore → MvccStore
unfolding put_version
write table pk row txn_id ts = put_version table pk (version row txn_id ts false)

unfoldable pub delete : String → Option String → String → ℕ → MvccStore → MvccStore
unfolding put_version
delete table pk txn_id ts = put_version table pk (version [] txn_id ts true)

abbrev pub unexpired : Option ℕ → ℕ → Bool
unexpired none t = true
unexpired (some x) t = ltb t x

-- The loop of `read_snapshot` over one chain, with its `break`.
unfoldable pub visible_from : ℕ → Option VersionedRecord → Chain → Option VersionedRecord
visible_from t seen [] = seen
visible_from t seen (v ∷ chain) =
    let rest = visible_from t (if unexpired v.expired_ts t then some v else seen) chain in
    if leb v.created_ts t then rest else seen

-- `if visible and not visible.deleted: rows.append(visible.data)`
abbrev pub shown : Option VersionedRecord → Option Row
shown none = none
shown (some v) = if v.deleted then none else some v.row

abbrev pub add_row : Option Row → List Row → List Row
add_row none rows = rows
add_row (some row) rows = row ∷ rows

unfoldable pub read_table : ℕ → Table → List Row
unfolding visible_from
read_table t [] = []
read_table t ((pk, chain) ∷ table) =
    add_row (shown (visible_from t none chain)) (read_table t table)

unfoldable pub read_snapshot : String → ℕ → MvccStore → List Row
unfolding read_table
read_snapshot table t s = read_table t (or_empty (lookup table s.versions))

abbrev pub is_kept : ℕ → VersionedRecord → Bool
is_kept oldest v = elim v.expired_ts [ none ↦ true | some x ↦ leb oldest x ]

-- `chain[-1:]`
last_version : Chain → Chain
last_version [] = []
last_version (v ∷ []) = v ∷ []
last_version (v ∷ w ∷ chain) = last_version (w ∷ chain)

abbrev or_last : Chain → Chain → Chain
or_last [] chain = last_version chain
or_last (v ∷ kept) chain = v ∷ kept

-- The new chain, and how much `removed` grows.
pub gc_chain : ℕ → Chain → Chain × ℕ
unfolding last_version
gc_chain oldest chain =
    let kept = filter (is_kept oldest) chain in (or_last kept chain, length chain - length kept)

pub gc_table : ℕ → Table → Table × ℕ
unfolding gc_chain
gc_table oldest [] = ([], 0)
gc_table oldest ((pk, chain) ∷ table) =
    let (chain', n) = gc_chain oldest chain in
    let (table', m) = gc_table oldest table in ((pk, chain') ∷ table', n + m)

pub gc_tables : ℕ → Dict String Table → Dict String Table × ℕ
unfolding gc_table
gc_tables oldest [] = ([], 0)
gc_tables oldest ((name, table) ∷ tables) =
    let (table', n) = gc_table oldest table in
    let (tables', m) = gc_tables oldest tables in ((name, table') ∷ tables', n + m)

unfoldable pub gc : ℕ → MvccStore → MvccStore × ℕ
unfolding gc_tables
gc oldest s =
    let (tables, removed) = gc_tables oldest s.versions in (record { versions = tables }, removed)
