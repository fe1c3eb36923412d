-- ===== src/Transactions/Manager/Commit.antt =====
-- The end of a transaction: what commit and rollback change, and what they leave alone.
use quantum_database.Prelude.{
  ℕ, String, ◌≡◌, refl, ap, true, false, some, [], arith, if◌then◌else◌, lookup, lookup-insert_self,
  Option-cases, Bool-cases, inl, inr, ◌⊎◌, string_key,
}
use quantum_database.Transactions.Transaction.{
  Transaction, TransactionStatus, committed, aborted, is_active,
}
use quantum_database.Transactions.Manager
use quantum_database.Transactions.Manager.{
  commit_transaction, commit_known, finish_commit, rollback_transaction, rollback_known,
  conflicts_with_others, apply_operation, apply_operations, apply_transaction, release_locks,
  committed_at,
}

abbrev pub Manages : Type 0
Manages = Manager.Manager

-- A commit that returns False changes nothing, and neither does such a rollback.
pub refused_unchanged :
    (id : String) (now : ℕ) (m : Manages)
    → ((commit_transaction id now m).0
        ≡ (if (commit_transaction id now m).1 then (commit_transaction id now m).0 else m))
      × ((rollback_transaction id now m).0
          ≡ (if (rollback_transaction id now m).1 then (rollback_transaction id now m).0 else m))
unfolding commit_transaction rollback_transaction commit_known rollback_known
refused_unchanged id now m = ground arith

-- The transaction has ended: it has the status, and holds no lock.
abbrev pub Ended : TransactionStatus → String → Manages → Type 0
Ended status id m =
    (tx : Transaction) × (lookup id m.transactions ≡ some tx)
    × (tx.status ≡ status)
    × (tx.locks ≡ [])

-- How a commit can go: it is refused, or it finishes an active transaction without conflicts.
module _ (id : String) (now : ℕ) (m : Manages) where
  pub commit-cases :
      (commit_transaction id now m ≡ (m, false))
      ⊎ ((tx : Transaction) × (lookup id m.transactions ≡ some tx)
          × (is_active tx.status ≡ true)
          × (conflicts_with_others id tx m ≡ false)
          × (commit_transaction id now m ≡ (finish_commit id tx now m, true)))
  unfolding commit_transaction commit_known
  commit-cases = elim (Option-cases (lookup id m.transactions)) [
    | inl e ↦ inl (rw (e, commit_transaction))
    | inr (tx, e) ↦ elim (Bool-cases (is_active tx.status)) [
      | inl on ↦ elim (Bool-cases (conflicts_with_others id tx m)) [
        | inl c ↦ inl (rw (e, commit_transaction) (rw (on, c)))
        | inr c ↦ inr (tx, e, on, c, rw (e, commit_transaction) (rw (on, c)))
      ]
      | inr off ↦ inl (rw (e, commit_transaction) (rw off))
    ]
  ]

  pub rollback-cases :
      (rollback_transaction id now m ≡ (m, false))
      ⊎ ((tx : Transaction) × (lookup id m.transactions ≡ some tx)
          × (is_active tx.status ≡ true)
          × (rollback_transaction id now m ≡ rollback_known id tx now m))
  unfolding rollback_transaction rollback_known
  rollback-cases = elim (Option-cases (lookup id m.transactions)) [
    | inl e ↦ inl (rw (e, rollback_transaction))
    | inr (tx, e) ↦ elim (Bool-cases (is_active tx.status)) [
      | inl on ↦ inr (tx, e, on, rw (e, rollback_transaction))
      | inr off ↦ inl (rw (e, rollback_transaction) (rw off))
    ]
  ]

  -- A commit that succeeds leaves the transaction committed and without locks.
  pub commit-Ended :
      (commit_transaction id now m).1 ≡ true → Ended committed id (commit_transaction id now m).0
  unfolding finish_commit
  commit-Ended h = elim commit-cases [
    | inl e ↦ absurd (cc (ap (λ r. r.1) e))
    | inr (tx, found, on, free, e) ↦
        rw e
          (release_locks (committed_at now tx), lookup-insert_self id _ m.transactions, refl, refl)
  ]

  -- A rollback that succeeds leaves it aborted and without locks, and no version of its writes.
  pub rollback-Ended :
      (rollback_transaction id now m).1 ≡ true
      → Ended aborted id (rollback_transaction id now m).0
        × ((rollback_transaction id now m).0.mvcc ≡ m.mvcc)
  unfolding rollback_known
  rollback-Ended h = elim rollback-cases [
    | inl e ↦ absurd (cc (ap (λ r. r.1) e))
    | inr (tx, found, on, e) ↦ rw e (
        rw on (
          (
            release_locks (record tx { status = aborted }),
            lookup-insert_self id _ m.transactions,
            refl,
            refl,
          ),
          refl,
        ))
  ]

-- What has ended stays ended: every later commit and rollback of it is refused.
pub Ended-refused :
    (status : TransactionStatus) (id : String) (now : ℕ) (m : Manages)
    → is_active status ≡ false
    → Ended status id m
    → (commit_transaction id now m ≡ (m, false)) × (rollback_transaction id now m ≡ (m, false))
unfolding commit_transaction rollback_transaction commit_known rollback_known
Ended-refused status id now m off (tx, found, same, free) =
    let closed : is_active tx.status ≡ false = rw same off in
    (rw (found, commit_transaction) (rw closed), rw (found, rollback_transaction) (rw closed))
