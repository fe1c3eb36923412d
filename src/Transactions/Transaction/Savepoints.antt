-- ===== src/Transactions/Transaction/Savepoints.antt =====
-- Savepoints: rolling back to one restores the operations that it saw.
use quantum_database.Prelude.{
  ℕ, suc, ◌+◌, String, ◌≡◌, refl, ap, sym, ◌∙◌, List, [], ◌∷◌, ◌++◌, Bool, true, false, arith,
  length, take, any, ◌==◌, string_key, ==_refl, Bool-cases, inl, inr,
}
use mathlib.Core.List.{append_assoc, append-nil}
use native.Mathlib.Nat.{zero-add, add-zero, add-suc, suc-add}
use quantum_database.Transactions.Transaction.{
  Transaction, Operation, Savepoint, add_operation, create_savepoint, rollback_from,
  rollback_to_savepoint,
}

-- What a client does with an open transaction.
pub data Work : Type 0 where
  operate : Operation → Work
  save : String → ℕ → Work

unfoldable pub work : List Work → Transaction → Transaction
work [] tx = tx
work (operate op ∷ ws) tx = work ws (add_operation op tx)
work (save name lsn ∷ ws) tx = work ws (create_savepoint name lsn tx)

abbrev pub has_savepoint : String → Transaction → Bool
has_savepoint name tx = any (λ (sp : Savepoint). sp.name == name) tx.savepoints

module _ (op : Operation) (tx : Transaction) where
  pub operations-add_operation : (add_operation op tx).operations ≡ tx.operations ++ op ∷ []
  unfolding add_operation
  operations-add_operation = ground arith

  pub savepoints-add_operation : (add_operation op tx).savepoints ≡ tx.savepoints
  unfolding add_operation
  savepoints-add_operation = ground arith

-- Work only ever adds operations and savepoints.
module _ where
  work-operations :
      (ws : List Work) (tx : Transaction)
      → (more : List Operation) × ((work ws tx).operations ≡ tx.operations ++ more)
  unfolding work create_savepoint
  work-operations [] tx = ([], sym (append-nil tx.operations))
  work-operations (operate op ∷ ws) tx =
      let (more, e) = work-operations ws (add_operation op tx) in
      (op ∷ more, e ∙ rw (operations-add_operation, append_assoc))
  work-operations (save name lsn ∷ ws) tx = work-operations ws (create_savepoint name lsn tx)

  work-savepoints :
      (ws : List Work) (tx : Transaction)
      → (more : List Savepoint) × ((work ws tx).savepoints ≡ tx.savepoints ++ more)
  unfolding work create_savepoint
  work-savepoints [] tx = ([], sym (append-nil tx.savepoints))
  work-savepoints (operate op ∷ ws) tx =
      let (more, e) = work-savepoints ws (add_operation op tx) in
      (more, e ∙ rw savepoints-add_operation)
  work-savepoints (save name lsn ∷ ws) tx =
      let (more, e) = work-savepoints ws (create_savepoint name lsn tx) in
      (
        record { name = name; lsn = lsn; operations_count = length tx.operations } ∷ more,
        e ∙ rw append_assoc,
      )

take-append {ℓ} : {A : Type ℓ} (xs ys : List A) → take (length xs) (xs ++ ys) ≡ xs
take-append [] ys = refl
take-append (x ∷ xs) ys = ap (◌∷◌ x) (take-append xs ys)

-- The loop stops at the first savepoint of the name.
rollback_from-first :
    (i : ℕ) (before : List Savepoint) (sp : Savepoint) (rest : List Savepoint) (tx : Transaction)
    → any (λ (s : Savepoint). s.name == sp.name) before ≡ false
    → rollback_from i (before ++ sp ∷ rest) sp.name tx ≡ (
      record tx {
        operations = take sp.operations_count tx.operations;
        savepoints = take (suc (i + length before)) tx.savepoints;
      },
      true,
    )
unfolding rollback_from
rollback_from-first i [] sp rest tx h = rw (==_refl sp.name) (rw add-zero)
rollback_from-first i (s ∷ before) sp rest tx h = elim (Bool-cases (s.name == sp.name)) [
  | inl b ↦ absurd (ground arith)
  | inr b ↦
      rw (b, rollback_from-first (suc i) before sp rest tx (ground arith)) (rw (add-suc, suc-add))
]

take-suc-append :
    (before : List Savepoint) (sp : Savepoint) (rest : List Savepoint)
    → take (suc (length before)) (before ++ sp ∷ rest) ≡ before ++ sp ∷ []
take-suc-append [] sp rest = refl
take-suc-append (s ∷ before) sp rest = ap (◌∷◌ s) (take-suc-append before sp rest)

abbrev pub savepoint_of : String → ℕ → Transaction → Savepoint
savepoint_of name lsn tx = record {
  name = name;
  lsn = lsn;
  operations_count = length tx.operations;
}

rolled_back :
    (before : List Savepoint) (sp : Savepoint) (rest : List Savepoint) (tx : Transaction)
    → any (λ (s : Savepoint). s.name == sp.name) before ≡ false
    → tx.savepoints ≡ before ++ sp ∷ rest
    → rollback_to_savepoint sp.name tx ≡ (
      record tx {
        operations = take sp.operations_count tx.operations;
        savepoints = take (suc (length before)) tx.savepoints;
      },
      true,
    )
unfolding rollback_to_savepoint
rolled_back before sp rest tx h e =
    ap (λ l. rollback_from 0 l sp.name tx) e
    ∙ rollback_from-first 0 before sp rest tx h
    ∙ rw zero-add

-- Whatever a client does after it created a savepoint under a new name, rolling back to the name
-- succeeds, restores the operations of that moment, and drops the later savepoints.
pub rollback_to_savepoint-work :
    (name : String) (lsn : ℕ) (ws : List Work) (tx : Transaction)
    → has_savepoint name tx ≡ false
    → let (after, found) = rollback_to_savepoint name (work ws (create_savepoint name lsn tx)) in
      (found ≡ true)
      × (after.operations ≡ tx.operations)
      × (after.savepoints ≡ tx.savepoints ++ savepoint_of name lsn tx ∷ [])
unfolding create_savepoint
rollback_to_savepoint-work name lsn ws tx h =
    let (ops, eo) = work-operations ws (create_savepoint name lsn tx) in
    let (sps, es) = work-savepoints ws (create_savepoint name lsn tx) in
    let sp = savepoint_of name lsn tx in
    let saved = es ∙ append_assoc tx.savepoints (sp ∷ []) sps in
    let back = rolled_back tx.savepoints sp sps (work ws (create_savepoint name lsn tx)) h saved in
    (
      ap (λ r. r.1) back,
      ap (λ r. r.0.operations) back
          ∙ ap (take (length tx.operations)) eo
          ∙ take-append tx.operations ops,
      ap (λ r. r.0.savepoints) back
          ∙ ap (take (suc (length tx.savepoints))) saved
          ∙ take-suc-append tx.savepoints sp sps,
    )
