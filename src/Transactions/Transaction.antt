-- ===== src/Transactions/Transaction.antt =====
-- qndb/interface/transactions/enums.py and transaction.py: one transaction and its savepoints.
-- Rows are dictionaries of texts, which the code stores and never inspects. A set is a list without
-- repetitions; the clock's readings are whole ticks.
pub mod Savepoints
pub mod Conflicts
pub mod Identity
use quantum_database.Prelude.{
  ℕ, zero, suc, String, Bool, true, false, ◌||◌, not, Option, none, some, List, [], ◌∷◌, ◌++◌,
  if◌then◌else◌, length, take, add, meets, Dict, ◌==◌, string_key,
}

pub data TransactionStatus : Type 0 where
  active committed aborted pending : TransactionStatus

pub data IsolationLevel : Type 0 where
  read_uncommitted read_committed repeatable_read serializable quantum_consistent : IsolationLevel

abbrev pub Row : Type 0
Row = Dict String String

-- The keys that the code reads of an operation's dictionary; `none` is an absent key.
pub record Operation : Type 0 where
  pub op_type : Option String
  pub resource : Option String
  pub pk : Option String
  pub new_data : Option Row
  pub before : Option Row

pub record Savepoint : Type 0 where
  pub name : String
  pub lsn : ℕ
  pub operations_count : ℕ

pub record Transaction : Type 0 where
  pub transaction_id : String
  pub status : TransactionStatus
  pub isolation_level : IsolationLevel
  pub start_time : ℕ
  pub snapshot_ts : ℕ
  pub commit_time : Option ℕ
  pub operations : List Operation
  pub locks : List (String × String)
  pub accessed_resources : List String
  pub modified_resources : List String
  pub savepoints : List Savepoint

-- `snapshot_ts or self.start_time`: an absent reading and a reading of 0 are both false.
abbrev pub or_else : Option ℕ → ℕ → ℕ
or_else none t = t
or_else (some zero) t = t
or_else (some (suc n)) t = suc n

-- `Transaction.__init__` at the clock reading `now`.
unfoldable pub new_transaction : String → IsolationLevel → Option ℕ → ℕ → Transaction
new_transaction id level snapshot now = record {
  transaction_id = id;
  status = active;
  isolation_level = level;
  start_time = now;
  snapshot_ts = or_else snapshot now;
  commit_time = none;
  operations = [];
  locks = [];
  accessed_resources = [];
  modified_resources = [];
  savepoints = [];
}

abbrev pub is_active : TransactionStatus → Bool
is_active active = true
is_active _ = false

-- `operation.get("type") in ("write", "update", "delete")`
abbrev pub is_modification : Option String → Bool
is_modification none = false
is_modification (some t) = t == "write" || (t == "update" || t == "delete")

abbrev pub note_resource : Option String → Operation → Transaction → Transaction
note_resource none op tx = tx
note_resource (some r) op tx = if r == "" then tx else record tx {
  accessed_resources = add r tx.accessed_resources;
  modified_resources =
      if is_modification op.op_type then add r tx.modified_resources else tx.modified_resources;
}

unfoldable pub add_operation : Operation → Transaction → Transaction
add_operation op tx =
    note_resource op.resource op (record tx { operations = tx.operations ++ op ∷ [] })

unfoldable pub create_savepoint : String → ℕ → Transaction → Transaction
create_savepoint name lsn tx = record tx {
  savepoints =
      tx.savepoints
      ++ record { name = name; lsn = lsn; operations_count = length tx.operations } ∷ [];
}

-- The loop of `rollback_to_savepoint`; `i` is the counter of `enumerate`.
rollback_from : ℕ → List Savepoint → String → Transaction → Transaction × Bool
rollback_from i [] name tx = (tx, false)
rollback_from i (sp ∷ rest) name tx =
    if sp.name == name
    then (
      record tx {
        operations = take sp.operations_count tx.operations;
        savepoints = take (suc i) tx.savepoints;
      },
      true,
    )
    else rollback_from (suc i) rest name tx

unfoldable pub rollback_to_savepoint : String → Transaction → Transaction × Bool
unfolding rollback_from
rollback_to_savepoint name tx = rollback_from 0 tx.savepoints name tx

abbrev pub conflicts_at : IsolationLevel → Transaction → Transaction → Bool
conflicts_at serializable tx other =
    meets tx.accessed_resources other.modified_resources
    || meets tx.modified_resources other.accessed_resources
conflicts_at repeatable_read tx other = meets tx.accessed_resources other.modified_resources
conflicts_at read_committed tx other = false
conflicts_at quantum_consistent tx other = meets tx.modified_resources other.modified_resources
conflicts_at read_uncommitted tx other = false

unfoldable pub has_conflicts : Transaction → Transaction → Bool
has_conflicts tx other =
    if not (is_active tx.status) || not (is_active other.status)
    then false
    else conflicts_at tx.isolation_level tx other
