-- ===== src/Transactions/Manager.antt =====
-- qndb/interface/transactions/manager.py: `TransactionManager`. A method returns the new manager and
-- its result. `now` is the reading of the clock in the call; a call's several readings agree. The
-- manager's own mutex makes each method a step; log messages are left out.
pub mod Locks
pub mod Safety
pub mod Waiting
pub mod Commit
pub mod Effects
use quantum_database.Prelude.{
  ℕ, ◌+◌, String, Bool, true, false, ◌||◌, ◌&&◌, not, Option, none, some, List, [], ◌∷◌, ◌++◌,
  if◌then◌else◌, leb, filter, contains, any, Dict, lookup, insert, values, ◌==◌, string_key,
  pair_key, add,
}
use quantum_database.Transactions.Transaction
use quantum_database.Transactions.Transaction.{
  Transaction, TransactionStatus, IsolationLevel, Operation, Row, active, committed, aborted,
  is_active, serializable, new_transaction, or_else, has_conflicts,
}
use quantum_database.Transactions.Wal
use quantum_database.Transactions.Wal.{WriteAheadLog, marker}
use quantum_database.Transactions.Mvcc
use quantum_database.Transactions.Mvcc.{MvccStore}
use quantum_database.Transactions.Locking.{Lock, can_acquire_lock, would_cause_deadlock}

pub record Manager : Type 0 where
  pub transactions : Dict String Transaction
  pub default_isolation_level : IsolationLevel
  pub deadlock_detection_enabled : Bool
  pub lock_timeout : ℕ
  pub mvcc : MvccStore
  pub wal : WriteAheadLog

abbrev pub new_manager : WriteAheadLog → Manager
new_manager wal = record {
  transactions = [];
  default_isolation_level = serializable;
  deadlock_detection_enabled = true;
  lock_timeout = 5;
  mvcc = record { versions = [] };
  wal = wal;
}

-- `self.wal.append(transaction_id, op, pk=name)`
abbrev pub log_marker : String → String → Option String → ℕ → Manager → Manager
log_marker id op name now m = record m {
  wal = (Wal.append (record (marker id op now) { pk = name }) m.wal).0;
}

abbrev pub store : String → Transaction → Manager → Manager
store id tx m = record m { transactions = insert id tx m.transactions }

abbrev default_level : Option IsolationLevel → Manager → IsolationLevel
default_level none m = m.default_isolation_level
default_level (some level) m = level

-- `id` is the new UUID.
unfoldable pub begin_transaction : String → Option IsolationLevel → ℕ → Manager → Manager × String
begin_transaction id level now m =
    let tx = new_transaction id (default_level level m) (some now) now in
    (log_marker id "BEGIN" none now (store id tx m), id)

abbrev pub or_blank : Option String → String
or_blank none = ""
or_blank (some s) = s

abbrev pub or_no_row : Option Row → Row
or_no_row none = []
or_no_row (some row) = row

-- `op_type.upper()`, at the two texts that it is called with.
abbrev pub upper : String → String
upper op_type = if op_type == "write" then "WRITE" else "UPDATE"

-- One round of the loop of `_apply_transaction`.
pub apply_operation :
    String → ℕ → ℕ → Operation → MvccStore × WriteAheadLog → MvccStore × WriteAheadLog
apply_operation id ts now op (mvcc, wal) =
    let op_type = or_blank op.op_type in
    let table = or_blank op.resource in
    if op_type == "write" || op_type == "update"
    then (
      Mvcc.write table op.pk (or_no_row op.new_data) id ts mvcc,
      (Wal.append
          (record {
            txn_id = id;
            op_type = upper op_type;
            table = table;
            pk = op.pk;
            before = op.before;
            after = op.new_data;
            now = now;
          })
          wal).0,
    )
    else if op_type == "delete"
    then (
      Mvcc.delete table op.pk id ts mvcc,
      (Wal.append
          (record {
            txn_id = id;
            op_type = "DELETE";
            table = table;
            pk = op.pk;
            before = op.before;
            after = none;
            now = now;
          })
          wal).0,
    )
    else (mvcc, wal)

pub apply_operations :
    String → ℕ → ℕ → List Operation → MvccStore × WriteAheadLog → MvccStore × WriteAheadLog
unfolding apply_operation
apply_operations id ts now [] s = s
apply_operations id ts now (op ∷ ops) s =
    apply_operations id ts now ops (apply_operation id ts now op s)

pub apply_transaction : Transaction → ℕ → MvccStore × WriteAheadLog → MvccStore × WriteAheadLog
unfolding apply_operations
apply_transaction tx now =
    apply_operations tx.transaction_id (or_else tx.commit_time now) now tx.operations

abbrev pub release_locks : Transaction → Transaction
release_locks tx = record tx { locks = [] }

abbrev pub conflicts_with_others : String → Transaction → Manager → Bool
conflicts_with_others id tx m =
    any (λ (e : String × Transaction). not (e.0 == id) && has_conflicts tx e.1) m.transactions

abbrev pub committed_at : ℕ → Transaction → Transaction
committed_at now tx = record tx { status = committed; commit_time = some now }

-- Everything that a successful commit does.
pub finish_commit : String → Transaction → ℕ → Manager → Manager
unfolding apply_transaction
finish_commit id tx now m =
    let tx' = committed_at now tx in
    let (mvcc, wal) = apply_transaction tx' now (m.mvcc, m.wal) in
    log_marker id "COMMIT" none now
      (store id (release_locks tx') (record m { mvcc = mvcc; wal = wal }))

pub commit_known : String → Transaction → ℕ → Manager → Manager × Bool
unfolding finish_commit
commit_known id tx now m =
    if not (is_active tx.status)
    then (m, false)
    else if conflicts_with_others id tx m
    then (m, false)
    else (finish_commit id tx now m, true)

unfoldable pub commit_transaction : String → ℕ → Manager → Manager × Bool
unfolding commit_known
commit_transaction id now m = elim (lookup id m.transactions) [
  | none ↦ (m, false)
  | some tx ↦ commit_known id tx now m
]

pub rollback_known : String → Transaction → ℕ → Manager → Manager × Bool
rollback_known id tx now m = if not (is_active tx.status) then (m, false) else (
  log_marker id "ROLLBACK" none now (store id (release_locks (record tx { status = aborted })) m),
  true,
)

unfoldable pub rollback_transaction : String → ℕ → Manager → Manager × Bool
unfolding rollback_known
rollback_transaction id now m = elim (lookup id m.transactions) [
  | none ↦ (m, false)
  | some tx ↦ rollback_known id tx now m
]

pub create_known : String → String → Transaction → ℕ → Manager → Manager × Bool
create_known id name tx now m =
    if not (is_active tx.status)
    then (m, false)
    else (let (wal, lsn) =
          Wal.append (record (marker id "SAVEPOINT" now) { pk = some name }) m.wal in
        (store id (Transaction.create_savepoint name lsn tx) (record m { wal = wal }), true))

unfoldable pub create_savepoint : String → String → ℕ → Manager → Manager × Bool
unfolding create_known
create_savepoint id name now m = elim (lookup id m.transactions) [
  | none ↦ (m, false)
  | some tx ↦ create_known id name tx now m
]

pub rewind_known : String → String → Transaction → ℕ → Manager → Manager × Bool
rewind_known id name tx now m =
    let (tx', found) = Transaction.rollback_to_savepoint name tx in
    if not (is_active tx.status)
    then (m, false)
    else if found
    then (log_marker id "ROLLBACK_TO_SAVEPOINT" (some name) now (store id tx' m), true)
    else (m, false)

unfoldable pub rollback_to_savepoint : String → String → ℕ → Manager → Manager × Bool
unfolding rewind_known
rollback_to_savepoint id name now m = elim (lookup id m.transactions) [
  | none ↦ (m, false)
  | some tx ↦ rewind_known id name tx now m
]

abbrev pub get_transaction : String → Manager → Option Transaction
get_transaction id m = lookup id m.transactions

unfoldable pub get_active_transactions : Manager → List Transaction
get_active_transactions m = filter (λ tx. is_active tx.status) (values m.transactions)

-- How one round of the loop of `acquire_lock` ends.
pub data Attempt : Type 0 where
  granted unknown victim waiting : Attempt

pub try_known : String → Lock → Transaction → ℕ → Manager → Manager × Attempt
try_known id l tx now m =
    let others = get_active_transactions m in
    if can_acquire_lock others tx l
    then (store id (record tx { locks = add l tx.locks }) m, granted)
    else if m.deadlock_detection_enabled
    then elim (would_cause_deadlock others tx l) [
      | some true ↦ ((rollback_transaction id now m).0, victim)
      | _ ↦ (m, waiting)
    ]
    else (m, waiting)

-- The part of a round that holds the manager's mutex.
unfoldable pub try_lock : String → Lock → ℕ → Manager → Manager × Attempt
unfolding try_known
try_lock id l now m = elim (lookup id m.transactions) [
  | none ↦ (m, unknown)
  | some tx ↦ try_known id l tx now m
]

-- A round: the reading of the clock, and what the other threads do while this one sleeps.
pub record Round : Type 0 where
  pub now : ℕ
  pub others : Manager → Manager

-- The rest of a round: return, or go on after a sleep unless the deadline has passed.
pub settle :
    ℕ → Round → (Manager → Option (Manager × Bool)) → Manager × Attempt → Option (Manager × Bool)
settle deadline r again (m, granted) = some (m, true)
settle deadline r again (m, unknown) = some (m, false)
settle deadline r again (m, victim) = some (m, false)
settle deadline r again (m, waiting) =
    if leb deadline r.now then some (m, false) else again (r.others m)

-- The loop of `acquire_lock`; `none` is a caller that still waits when the rounds end.
pub acquire_rounds : String → Lock → ℕ → List Round → Manager → Option (Manager × Bool)
unfolding settle
acquire_rounds id l deadline [] m = none
acquire_rounds id l deadline (r ∷ rs) m =
    settle deadline r (acquire_rounds id l deadline rs) (try_lock id l r.now m)

abbrev pub deadline_of : Option ℕ → ℕ → Manager → ℕ
deadline_of none start m = start + m.lock_timeout
deadline_of (some t) start m = start + t

unfoldable pub acquire_lock :
    String → Lock → Option ℕ → ℕ → List Round → Manager → Option (Manager × Bool)
unfolding acquire_rounds
acquire_lock id l timeout start rounds m =
    acquire_rounds id l (deadline_of timeout start m) rounds m

pub release_known : String → Lock → Transaction → Manager → Manager × Bool
release_known id l tx m =
    if contains l tx.locks
    then (store id (record tx { locks = filter (λ k. not (k == l)) tx.locks }) m, true)
    else (m, false)

unfoldable pub release_lock : String → Lock → Manager → Manager × Bool
unfolding release_known
release_lock id l m = elim (lookup id m.transactions) [
  | none ↦ (m, false)
  | some tx ↦ release_known id l tx m
]

-- A client's `get_transaction(id).add_operation(op)`: the object is the one that the manager holds.
unfoldable pub add_operation : String → Operation → Manager → Manager
add_operation id op m = elim (lookup id m.transactions) [
  | none ↦ m
  | some tx ↦ store id (Transaction.add_operation op tx) m
]
