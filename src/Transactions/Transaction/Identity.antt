-- ===== src/Transactions/Transaction/Identity.antt =====
-- The operations of a transaction leave its identifier, its status and its locks alone.
use quantum_database.Prelude.{
  ℕ, suc, String, ◌≡◌, refl, List, [], ◌∷◌, arith, Bool-cases, inl, inr, ◌==◌, string_key,
}
use quantum_database.Transactions.Transaction.{
  Transaction, Operation, Savepoint, add_operation, create_savepoint, rollback_from,
  rollback_to_savepoint,
}

pub record SameIdentity (a b : Transaction) : Type 0 where
  pub id : b.transaction_id ≡ a.transaction_id
  pub status : b.status ≡ a.status
  pub locks : b.locks ≡ a.locks

pub add_operation-SameIdentity :
    (op : Operation) (tx : Transaction) → SameIdentity tx (add_operation op tx)
unfolding add_operation
add_operation-SameIdentity op tx = record {
  id = ground arith;
  status = ground arith;
  locks = ground arith;
}

pub create_savepoint-SameIdentity :
    (name : String) (lsn : ℕ) (tx : Transaction) → SameIdentity tx (create_savepoint name lsn tx)
unfolding create_savepoint
create_savepoint-SameIdentity name lsn tx = record { id = refl; status = refl; locks = refl }

rollback_from-SameIdentity :
    (i : ℕ) (sps : List Savepoint) (name : String) (tx : Transaction)
    → SameIdentity tx (rollback_from i sps name tx).0
unfolding rollback_from
rollback_from-SameIdentity i [] name tx = record { id = refl; status = refl; locks = refl }
rollback_from-SameIdentity i (sp ∷ sps) name tx = elim (Bool-cases (sp.name == name)) [
  | inl b ↦ record { id = ground arith; status = ground arith; locks = ground arith }
  | inr b ↦ rw b (rollback_from-SameIdentity (suc i) sps name tx)
]

pub rollback_to_savepoint-SameIdentity :
    (name : String) (tx : Transaction) → SameIdentity tx (rollback_to_savepoint name tx).0
unfolding rollback_to_savepoint
rollback_to_savepoint-SameIdentity name tx = rollback_from-SameIdentity 0 tx.savepoints name tx
