-- ===== src/Transactions/Manager/Safety.antt =====
-- Every method of the manager, and every call of a client, keeps the locks apart.
use quantum_database.Prelude.{
  ℕ, String, ◌≡◌, refl, Bool, true, false, not, Option, none, some, arith, if◌then◌else◌, any,
  contains, lookup, Option-cases, Bool-cases, inl, inr, ◌==◌, string_key, pair_key,
}
use quantum_database.Transactions.Transaction
use quantum_database.Transactions.Transaction.{
  Transaction, Operation, IsolationLevel, is_active, active, aborted, new_transaction,
}
use quantum_database.Transactions.Transaction.Identity.{
  add_operation-SameIdentity, create_savepoint-SameIdentity, rollback_to_savepoint-SameIdentity,
}
use quantum_database.Transactions.Locking.{Lock, blocks, holds_against, can_acquire_lock}
use quantum_database.Transactions.Locking.Cycles.{would_cause_deadlock-never}
use quantum_database.Transactions.Manager
use quantum_database.Transactions.Manager.{
  begin_transaction, commit_transaction, commit_known, rollback_transaction, rollback_known,
  create_savepoint, create_known, rollback_to_savepoint, rewind_known, get_active_transactions,
  try_lock, try_known, release_lock, release_known, add_operation, finish_commit, release_locks,
  conflicts_with_others, committed_at, store, Attempt, granted, unknown, waiting, victim,
  rollback_transaction,
}
use quantum_database.Transactions.Manager.Locks.{
  IsSafe, keep-IsSafe, replace-IsSafe, alike-IsSafe, filter-lookup, clash-add, any-filter,
}

-- A method looks a transaction up, and does nothing if there is none.
module _ {ℓ} {R : Type ℓ} (m : Manager.Manager) (safe : IsSafe m) (missing : R)
    (known : Transaction → Manager.Manager × R) where
  by_lookup :
      (o : Option Transaction)
      → ((tx : Transaction) → o ≡ some tx → IsSafe (known tx).0)
      → IsSafe (elim o as (λ _. Manager.Manager × R) [ none ↦ (m, missing) | some tx ↦ known tx ]).0
  by_lookup none h = safe
  by_lookup (some tx) h = h tx refl

pub begin-IsSafe :
    (id : String) (level : Option IsolationLevel) (now : ℕ) (m : Manager.Manager)
    → IsSafe m
    → IsSafe (begin_transaction id level now m).0
unfolding begin_transaction new_transaction
begin-IsSafe id level now m safe = replace-IsSafe m id _ safe refl (λ j t f ne a b. refl) _ refl

if-IsSafe {ℓ} :
    {R : Type ℓ} (b : Bool) (x y : Manager.Manager × R)
    → IsSafe x.0
    → (b ≡ false → IsSafe y.0)
    → IsSafe (if b then x else y).0
if-IsSafe true x y hx hy = hx
if-IsSafe false x y hx hy = hy refl

module _ (id : String) (now : ℕ) (m : Manager.Manager) (safe : IsSafe m) where
  commit_known-IsSafe :
      (tx : Transaction) → lookup id m.transactions ≡ some tx → IsSafe (commit_known id tx now m).0
  unfolding commit_known finish_commit
  commit_known-IsSafe tx found = if-IsSafe (not (is_active tx.status)) _ _ safe λ _.
      if-IsSafe (conflicts_with_others id tx m) _ _ safe
        λ _. keep-IsSafe m id tx _ safe found refl (λ h. cc) (λ t h. refl) _ refl

  pub commit-IsSafe : IsSafe (commit_transaction id now m).0
  unfolding commit_transaction
  commit-IsSafe =
      by_lookup m safe false (λ tx. commit_known id tx now m) (lookup id m.transactions)
        commit_known-IsSafe

  rollback_known-IsSafe :
      (tx : Transaction)
      → lookup id m.transactions ≡ some tx
      → IsSafe (rollback_known id tx now m).0
  unfolding rollback_known
  rollback_known-IsSafe tx found =
      if-IsSafe (not (is_active tx.status)) _ _ safe
        λ _. keep-IsSafe m id tx _ safe found refl (λ h. cc) (λ t h. refl) _ refl

  pub rollback-IsSafe : IsSafe (rollback_transaction id now m).0
  unfolding rollback_transaction
  rollback-IsSafe =
      by_lookup m safe false (λ tx. rollback_known id tx now m) (lookup id m.transactions)
        rollback_known-IsSafe

  module _ (name : String) where
    create_known-IsSafe :
        (tx : Transaction)
        → lookup id m.transactions ≡ some tx
        → IsSafe (create_known id name tx now m).0
    unfolding create_known
    create_known-IsSafe tx found =
        if-IsSafe (not (is_active tx.status)) _ _ safe
          λ _. alike-IsSafe m id tx _ safe found (create_savepoint-SameIdentity name _ tx) _ refl

    pub create_savepoint-IsSafe : IsSafe (create_savepoint id name now m).0
    unfolding create_savepoint
    create_savepoint-IsSafe =
        by_lookup m safe false (λ tx. create_known id name tx now m) (lookup id m.transactions)
          create_known-IsSafe

    rewind_known-IsSafe :
        (tx : Transaction)
        → lookup id m.transactions ≡ some tx
        → IsSafe (rewind_known id name tx now m).0
    unfolding rewind_known
    rewind_known-IsSafe tx found = if-IsSafe (not (is_active tx.status)) _ _ safe λ _.
        elim (Bool-cases (Transaction.rollback_to_savepoint name tx).1) [
          | inl b ↦ rw b (
              alike-IsSafe m id tx _ safe found (rollback_to_savepoint-SameIdentity name tx) _ refl)
          | inr b ↦ rw b safe
        ]

    pub rollback_to_savepoint-IsSafe : IsSafe (rollback_to_savepoint id name now m).0
    unfolding rollback_to_savepoint
    rollback_to_savepoint-IsSafe =
        by_lookup m safe false (λ tx. rewind_known id name tx now m) (lookup id m.transactions)
          rewind_known-IsSafe

  module _ (l : Lock) where
    grant-apart :
        (tx : Transaction)
        → lookup id m.transactions ≡ some tx
        → can_acquire_lock (get_active_transactions m) tx l ≡ true
        → (j : String) (t : Transaction) → lookup j m.transactions ≡ some t
        → (id == j) ≡ false
        → is_active t.status ≡ true
        → any (blocks l) t.locks ≡ false
    unfolding can_acquire_lock get_active_transactions
    grant-apart tx found free j t f ne on = ground (
      arith,
      filter-lookup (λ (s : Transaction). is_active s.status) m.transactions j t
          (holds_against tx l),
      safe.keyed id tx,
      safe.keyed j t,
      string_key.same_iff id j,
      string_key.same_iff t.transaction_id tx.transaction_id,
    )

    try_known-IsSafe :
        (tx : Transaction) → lookup id m.transactions ≡ some tx → IsSafe (try_known id l tx now m).0
    unfolding try_known
    try_known-IsSafe tx found =
        elim (Bool-cases (can_acquire_lock (get_active_transactions m) tx l)) [
          | inl free ↦ rw free (
              replace-IsSafe m id _ safe (safe.keyed id tx found)
                (λ j t f ne a b.
                  clash-add tx t l (safe.apart id j tx t found f ne a b)
                    (grant-apart tx found free j t f ne b))
                _ refl)
          | inr taken ↦
              rw (taken, would_cause_deadlock-never)
                (if-IsSafe m.deadlock_detection_enabled _ _ safe (λ _. safe))
        ]

    -- A round of `acquire_lock`, whether it grants the lock or not.
    pub try_lock-IsSafe : IsSafe (try_lock id l now m).0
    unfolding try_lock
    try_lock-IsSafe =
        by_lookup m safe unknown (λ tx. try_known id l tx now m) (lookup id m.transactions)
          try_known-IsSafe

module _ (id : String) (m : Manager.Manager) (safe : IsSafe m) where
  release_known-IsSafe :
      (l : Lock) (tx : Transaction)
      → lookup id m.transactions ≡ some tx
      → IsSafe (release_known id l tx m).0
  unfolding release_known
  release_known-IsSafe l tx found = elim (Bool-cases (contains l tx.locks)) [
    | inl b ↦ rw b (
        keep-IsSafe m id tx _ safe found refl (λ h. h)
          (λ t h. any-filter (λ k. any (blocks k) t.locks) (λ k. not (k == l)) tx.locks h) _ refl)
    | inr b ↦ rw b safe
  ]

  pub release_lock-IsSafe : (l : Lock) → IsSafe (release_lock id l m).0
  unfolding release_lock
  release_lock-IsSafe l =
      by_lookup m safe false (λ tx. release_known id l tx m) (lookup id m.transactions)
        (release_known-IsSafe l)

  pub add_operation-IsSafe : (op : Operation) → IsSafe (add_operation id op m)
  unfolding add_operation
  add_operation-IsSafe op = elim (Option-cases (lookup id m.transactions)) [
    | inl e ↦ rw (e, add_operation) safe
    | inr (tx, e) ↦
        rw (e, add_operation)
          (alike-IsSafe m id tx _ safe e (add_operation-SameIdentity op tx) _ refl)
  ]

-- What the threads of the program do to the manager, in any order.
pub data Step (m : Manager.Manager) : Manager.Manager → Type 0 where
  begin :
      (id : String) (level : Option IsolationLevel) (now : ℕ)
      → Step m (begin_transaction id level now m).0
  commit : (id : String) (now : ℕ) → Step m (commit_transaction id now m).0
  rollback : (id : String) (now : ℕ) → Step m (rollback_transaction id now m).0
  save : (id name : String) (now : ℕ) → Step m (create_savepoint id name now m).0
  rewind : (id name : String) (now : ℕ) → Step m (rollback_to_savepoint id name now m).0
  lock : (id : String) (l : Lock) (now : ℕ) → Step m (try_lock id l now m).0
  release : (id : String) (l : Lock) → Step m (release_lock id l m).0
  operate : (id : String) (op : Operation) → Step m (add_operation id op m)

pub data Reach (m : Manager.Manager) : Manager.Manager → Type 0 where
  here : Reach m m
  next : {n k : Manager.Manager} → Reach m n → Step n k → Reach m k

Step-IsSafe : {m n : Manager.Manager} → Step m n → IsSafe m → IsSafe n
Step-IsSafe {m} (begin id level now) h = begin-IsSafe id level now m h
Step-IsSafe {m} (commit id now) h = commit-IsSafe id now m h
Step-IsSafe {m} (rollback id now) h = rollback-IsSafe id now m h
Step-IsSafe {m} (save id name now) h = create_savepoint-IsSafe id now m h name
Step-IsSafe {m} (rewind id name now) h = rollback_to_savepoint-IsSafe id now m h name
Step-IsSafe {m} (lock id l now) h = try_lock-IsSafe id now m h l
Step-IsSafe {m} (release id l) h = release_lock-IsSafe id m h l
Step-IsSafe {m} (operate id op) h = add_operation-IsSafe id m h op

-- In every state that the threads can reach from a safe one, two active transactions hold no locks
-- on one resource of which one is for writing.
pub Reach-IsSafe : {m n : Manager.Manager} → IsSafe m → Reach m n → IsSafe n
Reach-IsSafe safe here = safe
Reach-IsSafe safe (next r step) = Step-IsSafe step (Reach-IsSafe safe r)
