-- ===== src/Transactions/Tests.antt =====
-- Runs of the transaction manager on small inputs, and the theorems at such inputs.
use quantum_database.Prelude.{
  String, ◌≡◌, refl, Bool, true, false, none, some, List, [], ◌∷◌, ◌++◌, arith, lookup, insert,
  remove, if◌then◌else◌, ◌==◌, string_key,
}
use quantum_database.Transactions.Transaction
use quantum_database.Transactions.Transaction.{
  Transaction, Operation, Row, IsolationLevel, serializable, repeatable_read, active, committed,
  aborted, is_active, new_transaction, has_conflicts,
}
use quantum_database.Transactions.Transaction.Savepoints
use quantum_database.Transactions.Transaction.Savepoints.{Work, work, operate, save, savepoint_of}
use quantum_database.Transactions.Wal
use quantum_database.Transactions.Wal.{WriteAheadLog, Append, marker, new_log}
use quantum_database.Transactions.Wal.Numbers
use quantum_database.Transactions.Wal.Numbers.{IsOrdered}
use quantum_database.Transactions.Wal.Recovery
use quantum_database.Transactions.Wal.Recovery.{has_commit}
use quantum_database.Transactions.Mvcc
use quantum_database.Transactions.Mvcc.{MvccStore, read_snapshot, version}
use quantum_database.Transactions.Mvcc.Snapshots
use quantum_database.Transactions.Mvcc.Snapshots.{IsValid, seen_at}
use quantum_database.Transactions.Locking
use quantum_database.Transactions.Locking.{Lock, would_cause_deadlock}
use quantum_database.Transactions.Locking.Cycles
use quantum_database.Transactions.Manager
use quantum_database.Transactions.Manager.{new_manager, Round}
use quantum_database.Transactions.Manager.Locks.{IsSafe}
use quantum_database.Transactions.Manager.Safety
use quantum_database.Transactions.Manager.Safety.{Reach, here, next, begin, lock, operate, commit}
use quantum_database.Transactions.Manager.Waiting
use quantum_database.Transactions.Manager.Waiting.{Holds, Outcome, Behaves}
use quantum_database.Transactions.Manager.Effects

program : Unit {0}
unfolding lookup insert remove new_transaction Transaction.add_operation
    Transaction.create_savepoint Transaction.rollback_to_savepoint has_conflicts Wal.new_log
    Wal.append Wal.replay Wal.truncate Mvcc.write Mvcc.delete Mvcc.extend Mvcc.read_snapshot Mvcc.gc
    Locking.can_acquire_lock would_cause_deadlock Manager.begin_transaction
    Manager.commit_transaction Manager.rollback_transaction Manager.create_savepoint
    Manager.rollback_to_savepoint Manager.get_active_transactions Manager.try_lock
    Manager.acquire_lock Manager.release_lock Manager.add_operation work
program = tt

abbrev row_one : Row
row_one = ("x", "1") ∷ []

abbrev put_one : Operation
put_one = record {
  op_type = some "write";
  resource = some "t";
  pk = some "k";
  new_data = some row_one;
  before = none;
}

abbrev start : Manager.Manager
unfolding program
start = new_manager (Wal.new_log none [] true)

abbrev two : Manager.Manager
unfolding program
two = (Manager.begin_transaction "b" none 2 (Manager.begin_transaction "a" none 1 start).0).0

abbrev busy : Manager.Manager
unfolding program
busy = Manager.add_operation "a" put_one two

abbrev done : Manager.Manager
unfolding program
done = (Manager.commit_transaction "a" 5 busy).0

-- A committed write is seen from its instant on.
snapshots :
    (read_snapshot "t" 5 done.mvcc ≡ row_one ∷ [])
    × (read_snapshot "t" 4 done.mvcc ≡ [])
    × ((Manager.commit_transaction "a" 6 done).1 ≡ false)
unfolding program
snapshots = (refl, refl, refl)

start-IsSafe : IsSafe start
unfolding program
start-IsSafe = record { keyed = λ i t f. cc; apart = λ i j s t f g ne a b. cc }

abbrev l1 : Lock
l1 = ("t", "WRITE")

Reach-IsSafe_example :
    IsSafe
      (Manager.try_lock "b" l1 4
        (Manager.try_lock "a" l1 3
          (Manager.begin_transaction "b" none 2
            (Manager.begin_transaction "a" none 1 start).0).0).0).0
Reach-IsSafe_example = Safety.Reach-IsSafe start-IsSafe (
    next (next (next (next here (begin "a" none 1)) (begin "b" none 2)) (lock "a" l1 3))
      (lock "b" l1 4))

abbrev holder : Transaction
unfolding program
holder = record (new_transaction "a" serializable none 1) { locks = ("t", "WRITE") ∷ [] }

abbrev waiter : Transaction
unfolding program
waiter = record (new_transaction "b" serializable none 2) { locks = ("u", "WRITE") ∷ [] }

would_cause_deadlock-never_example :
    would_cause_deadlock (holder ∷ waiter ∷ []) holder ("u", "WRITE") ≡ some false
would_cause_deadlock-never_example =
    Cycles.would_cause_deadlock-never (holder ∷ waiter ∷ []) holder ("u", "WRITE")

abbrev rounds : List Round
rounds = record { now = 3; others = λ m. m } ∷ record { now = 9; others = λ m. m } ∷ []

acquire_lock-returns_example :
    (n : Manager.Manager) × (b : Bool) × (Manager.acquire_lock "a" l1 none 3 rounds two
      ≡ some (n, b))
unfolding program
acquire_lock-returns_example = Waiting.acquire_lock-returns "a" l1 none 3 rounds two refl

abbrev locked : Manager.Manager
unfolding program
locked = (Manager.try_lock "a" l1 3 two).0

two-IsSafe : IsSafe two
unfolding program
two-IsSafe =
    Safety.Reach-IsSafe start-IsSafe (next (next here (begin "a" none 1)) (begin "b" none 2))

busy-IsValid : IsValid 5 busy.mvcc
unfolding program
busy-IsValid = record { tables = tt }

read_snapshot-commit_example :
    read_snapshot "t" 4 (Manager.commit_transaction "a" 5 busy).0.mvcc
    ≡ read_snapshot "t" 4 busy.mvcc
read_snapshot-commit_example =
    Effects.read_snapshot-commit "a" 5 busy "t" 4 (omega arith) busy-IsValid

commit-IsValid_example : IsValid 5 (Manager.commit_transaction "a" 5 busy).0.mvcc
commit-IsValid_example = Effects.commit-IsValid "a" 5 busy busy-IsValid

abbrev rivals : Manager.Manager
unfolding program
rivals = Manager.add_operation "b" put_one busy

abbrev tx_of : String → Transaction
unfolding program
tx_of id = Transaction.add_operation put_one (
    new_transaction id serializable (some (if id == "a" then 1 else 2))
      (if id == "a" then 1 else 2))

done-IsValid : IsValid 5 done.mvcc
unfolding program
done-IsValid = Effects.commit-IsValid "a" 5 busy busy-IsValid

abbrev rewritten : MvccStore
unfolding program
rewritten = Mvcc.write "t" (some "k") row_one "b" 7 done.mvcc

read_snapshot-gc_example : read_snapshot "t" 8 (Mvcc.gc 8 rewritten).0 ≡ row_one ∷ []
unfolding program
read_snapshot-gc_example = Snapshots.read_snapshot-gc "t" 8 8 7 rewritten (omega arith) (
    Snapshots.write-IsValid "t" (some "k") row_one "b" 7 done.mvcc
      (Snapshots.IsValid-mono 5 7 done.mvcc (omega arith) done-IsValid))

abbrev logged : WriteAheadLog
unfolding program
logged = (Wal.append (marker "a" "BEGIN" 1) (new_log none [] true)).0

logged-IsOrdered : IsOrdered logged
unfolding program
logged-IsOrdered =
    Numbers.append-IsOrdered (marker "a" "BEGIN" 1) (new_log none [] true)
      (record { ascending = tt; below = tt })

replay-eq-filter_example : Wal.replay logged ≡ []
unfolding program
replay-eq-filter_example = Recovery.replay-eq-filter logged

abbrev fresh : Transaction
unfolding program
fresh = new_transaction "a" serializable none 1

rollback_to_savepoint-work_example :
    let (after, found) =
      Transaction.rollback_to_savepoint "s"
        (work (operate put_one ∷ save "s" 4 ∷ []) (Transaction.create_savepoint "s" 2 fresh)) in
    (found ≡ true)
    × (after.operations ≡ fresh.operations)
    × (after.savepoints ≡ fresh.savepoints ++ savepoint_of "s" 2 fresh ∷ [])
unfolding program
rollback_to_savepoint-work_example =
    Savepoints.rollback_to_savepoint-work "s" 2 (operate put_one ∷ save "s" 4 ∷ []) fresh refl
