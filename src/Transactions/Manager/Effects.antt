-- ===== src/Transactions/Manager/Effects.antt =====
-- What a commit does to the version store and to the log.
use quantum_database.Prelude.{
  ℕ, zero, suc, ◌<◌, String, ◌≡◌, refl, ◌∙◌, Bool, true, false, ◌||◌, Option, some, List, [], ◌∷◌,
  any, ◌==◌, string_key, inl, inr, not, ◌&&◌, Dict, lookup, arith, Bool-cases, if_ind, ◌++◌,
}
use quantum_database.Transactions.Transaction.{
  Transaction, Operation, Row, serializable, has_conflicts, or_else,
}
use quantum_database.Transactions.Transaction.Conflicts.{has_conflicts_symm}
use quantum_database.Transactions.Wal
use quantum_database.Transactions.Wal.{WriteAheadLog, Append}
use quantum_database.Transactions.Wal.Numbers.{entries-append}
use quantum_database.Transactions.Wal.Recovery.{commits, has_commit}
use quantum_database.Transactions.Mvcc
use quantum_database.Transactions.Mvcc.{MvccStore, read_snapshot}
use quantum_database.Transactions.Mvcc.Snapshots.{
  IsValid, write-IsValid, delete-IsValid, read_snapshot-write, read_snapshot-delete,
}
use quantum_database.Transactions.Manager
use quantum_database.Transactions.Manager.{
  commit_transaction, commit_known, finish_commit, conflicts_with_others, apply_operation,
  apply_operations, apply_transaction, committed_at, or_blank, or_no_row, upper,
}
use quantum_database.Transactions.Manager.Commit.{commit-cases}

-- What every write and delete keeps is kept by a list of operations.
module _ (id : String) (ts now : ℕ) (P : MvccStore → Type 0)
    (on_write : (table : String) (pk : Option String) (row : Row) (s : MvccStore)
      → P s
      → P (Mvcc.write table pk row id ts s))
    (on_delete : (table : String) (pk : Option String) (s : MvccStore)
      → P s
      → P (Mvcc.delete table pk id ts s)) where
  apply_operation-keeps :
      (op : Operation) (s : MvccStore × WriteAheadLog)
      → P s.0
      → P (apply_operation id ts now op s).0
  unfolding apply_operation
  apply_operation-keeps op (s, w) h =
      let t = or_blank op.op_type in
      elim (Bool-cases (t == "write" || t == "update")) [
        | inl b ↦ rw b (on_write (or_blank op.resource) op.pk (or_no_row op.new_data) s h)
        | inr b ↦ rw b (elim (Bool-cases (t == "delete")) [
          | inl d ↦ rw d (on_delete (or_blank op.resource) op.pk s h)
          | inr d ↦ rw d h
        ])
      ]

  apply_operations-keeps :
      (ops : List Operation) (s : MvccStore × WriteAheadLog)
      → P s.0
      → P (apply_operations id ts now ops s).0
  unfolding apply_operations
  apply_operations-keeps [] s h = h
  apply_operations-keeps (op ∷ ops) s h =
      apply_operations-keeps ops (apply_operation id ts now op s) (apply_operation-keeps op s h)

upper-not_commit : (t : String) → (upper t == "COMMIT") ≡ false
upper-not_commit t =
    if_ind {A = String} (λ u. (u == "COMMIT") ≡ false) (t == "write") (λ _. refl) (λ _. refl)

module _ (id : String) (ts now : ℕ) (P : WriteAheadLog → Type 0)
    (on_append : (a : Append) (w : WriteAheadLog)
      → (a.op_type == "COMMIT") ≡ false
      → P w
      → P (Wal.append a w).0) where
  apply_operation-keeps_log :
      (op : Operation) (s : MvccStore × WriteAheadLog)
      → P s.1
      → P (apply_operation id ts now op s).1
  unfolding apply_operation
  apply_operation-keeps_log op (s, w) h =
      let t = or_blank op.op_type in
      elim (Bool-cases (t == "write" || t == "update")) [
        | inl b ↦ rw b (on_append _ w (upper-not_commit t) h)
        | inr b ↦ rw b (elim (Bool-cases (t == "delete")) [
          | inl d ↦ rw d (on_append _ w refl h)
          | inr d ↦ rw d h
        ])
      ]

  apply_operations-keeps_log :
      (ops : List Operation) (s : MvccStore × WriteAheadLog)
      → P s.1
      → P (apply_operations id ts now ops s).1
  unfolding apply_operations
  apply_operations-keeps_log [] s h = h
  apply_operations-keeps_log (op ∷ ops) s h =
      apply_operations-keeps_log ops (apply_operation id ts now op s)
        (apply_operation-keeps_log op s h)

or_else_now : (now : ℕ) → or_else (some now) now ≡ now
or_else_now zero = refl
or_else_now (suc n) = refl

module _ (id : String) (now : ℕ) (m : Manager.Manager) where
  module _ (P : MvccStore → Type 0)
      (on_write : (owner table : String) (pk : Option String) (row : Row) (s : MvccStore)
        → P s
        → P (Mvcc.write table pk row owner now s))
      (on_delete : (owner table : String) (pk : Option String) (s : MvccStore)
        → P s
        → P (Mvcc.delete table pk owner now s)) where
    finish_commit-keeps : (tx : Transaction) → P m.mvcc → P (finish_commit id tx now m).mvcc
    unfolding finish_commit
    finish_commit-keeps tx h = rw (or_else_now now) (
        apply_operations-keeps tx.transaction_id now now P (on_write tx.transaction_id)
          (on_delete tx.transaction_id) tx.operations (m.mvcc, m.wal) h)

    commit-keeps : P m.mvcc → P (commit_transaction id now m).0.mvcc
    commit-keeps h = elim (commit-cases id now m) [
      | inl e ↦ rw e h
      | inr (tx, found, on, free, e) ↦ rw e (finish_commit-keeps tx h)
    ]

  -- A commit, refused or not, keeps the version store valid.
  pub commit-IsValid : IsValid now m.mvcc → IsValid now (commit_transaction id now m).0.mvcc
  commit-IsValid =
      commit-keeps (IsValid now) (λ o t pk row s. write-IsValid t pk row o now s)
        (λ o t pk s. delete-IsValid t pk o now s)

  -- In a store whose chains of versions are linked in the order of their times, with none created after
  -- `now`: a commit at `now` does not change what a snapshot taken before `now` reads.
  pub read_snapshot-commit :
      (name : String) (t : ℕ)
      → t < now
      → IsValid now m.mvcc
      → read_snapshot name t (commit_transaction id now m).0.mvcc ≡ read_snapshot name t m.mvcc
  read_snapshot-commit name t before valid =
      (commit-keeps (λ s. IsValid now s × (read_snapshot name t s ≡ read_snapshot name t m.mvcc))
        (λ o table pk row s h. (
          write-IsValid table pk row o now s h.0,
          read_snapshot-write name table pk row o t now s before h.0 ∙ h.1,
        ))
        (λ o table pk s h. (
          delete-IsValid table pk o now s h.0,
          read_snapshot-delete name table pk o t now s before h.0 ∙ h.1,
        ))
        (valid, refl)).1

any-append_one :
    (p : Wal.WalEntry → Bool) (es : List Wal.WalEntry) (e : Wal.WalEntry)
    → any p (es ++ e ∷ []) ≡ (any p es || p e)
any-append_one p [] e = ground arith
any-append_one p (f ∷ es) e = ground (arith, any-append_one p es e)

has_commit-append :
    (j : String) (a : Append) (w : WriteAheadLog)
    → has_commit j (Wal.append a w).0.entries
      ≡ (has_commit j w.entries || (a.op_type == "COMMIT" && j == a.txn_id))
has_commit-append j a w = rw entries-append (any-append_one (commits j) w.entries _)

-- A commit marks as committed its own transaction, if it succeeds, and no other.
pub has_commit-commit :
    (id j : String) (now : ℕ) (m : Manager.Manager)
    → has_commit j (commit_transaction id now m).0.wal.entries
      ≡ (has_commit j m.wal.entries || ((commit_transaction id now m).1 && j == id))
unfolding finish_commit
has_commit-commit id j now m = elim (commit-cases id now m) [
  | inl e ↦ rw e (ground arith)
  | inr (tx, found, on, free, e) ↦ rw e (
      rw has_commit-append (
        rw (
          apply_operations-keeps_log tx.transaction_id (or_else (some now) now) now
            (λ w. has_commit j w.entries ≡ has_commit j m.wal.entries)
            (λ a w ne h. has_commit-append j a w ∙ ground (arith, h)) tx.operations (m.mvcc, m.wal)
            refl)))
]

conflicts-lookup :
    (id j : String) (tx other : Transaction) (d : Dict String Transaction)
    → lookup j d ≡ some other
    → (id == j) ≡ false
    → has_conflicts tx other ≡ true
    → any (λ (e : String × Transaction). not (e.0 == id) && has_conflicts tx e.1) d ≡ true
unfolding lookup
conflicts-lookup id j tx other [] f ne h = cc
conflicts-lookup id j tx other ((k, t) ∷ d) f ne h = elim (Bool-cases (k == j)) [
  | inl b ↦
      ground (arith, string_key.same_iff k j, string_key.same_iff id j, string_key.same_iff k id)
  | inr b ↦ ground (arith, conflicts-lookup id j tx other d)
]

commit-refused :
    (id j : String) (tx other : Transaction) (now : ℕ) (m : Manager.Manager)
    → lookup id m.transactions ≡ some tx
    → lookup j m.transactions ≡ some other
    → (id == j) ≡ false
    → has_conflicts tx other ≡ true
    → commit_transaction id now m ≡ (m, false)
commit-refused id j tx other now m found f ne h = elim (commit-cases id now m) [
  | inl e ↦ e
  | inr (tx', found', on, free, e) ↦
      let same : tx' ≡ tx = ground arith in
      absurd (ground (arith, conflicts-lookup id j tx other m.transactions f ne h, same, free))
]

-- Of two serializable transactions in conflict neither can commit while both are active.
pub mutual_refusal :
    (i j : String) (a b : Transaction) (now : ℕ) (m : Manager.Manager)
    → lookup i m.transactions ≡ some a
    → lookup j m.transactions ≡ some b
    → (i == j) ≡ false
    → a.isolation_level ≡ serializable
    → b.isolation_level ≡ serializable
    → has_conflicts a b ≡ true
    → (commit_transaction i now m ≡ (m, false)) × (commit_transaction j now m ≡ (m, false))
mutual_refusal i j a b now m fa fb ne sa sb h = (
  commit-refused i j a b now m fa fb ne h,
  commit-refused j i b a now m fb fa
      (ground (arith, string_key.same_iff i j, string_key.same_iff j i))
      (has_conflicts_symm b a sb sa ∙ h),
)
