-- ===== src/Transactions/Transaction/Conflicts.antt =====
-- Conflicts between two transactions.
use quantum_database.Prelude.{
  String, ◌≡◌, refl, List, [], ◌∷◌, true, false, ◌||◌, arith, contains, add, meets, string_key,
  contains-add, Option, some, none, sym, ◌∙◌,
}
use quantum_database.Transactions.Transaction.{
  Transaction, Operation, serializable, add_operation, has_conflicts, note_resource,
}

meets-nil : (xs : List String) → meets xs [] ≡ false
meets-nil [] = refl
meets-nil (x ∷ xs) = meets-nil xs

meets-cons : (y : String) (xs ys : List String) → meets xs (y ∷ ys) ≡ (contains y xs || meets xs ys)
meets-cons y [] ys = refl
meets-cons y (x ∷ xs) ys =
    ground (arith, meets-cons y xs ys, string_key.same_iff x y, string_key.same_iff y x)

meets_comm : (xs ys : List String) → meets xs ys ≡ meets ys xs
meets_comm [] ys = sym (meets-nil ys)
meets_comm (x ∷ xs) ys = rw (meets-cons x ys xs, meets_comm xs ys)

-- Between two serializable transactions conflict is symmetric: neither can commit before the other.
pub has_conflicts_symm :
    (a b : Transaction)
    → a.isolation_level ≡ serializable
    → b.isolation_level ≡ serializable
    → has_conflicts a b ≡ has_conflicts b a
unfolding has_conflicts
has_conflicts_symm a b ha hb =
    rw (ha, hb)
      (ground (
        arith,
        meets_comm a.accessed_resources b.modified_resources,
        meets_comm a.modified_resources b.accessed_resources,
      ))

meets-add : (x : String) (xs ys : List String) → meets ys xs ≡ true → meets ys (add x xs) ≡ true
meets-add x xs [] h = h
meets-add x xs (y ∷ ys) h = rw (contains-add y x xs) (ground (arith, meets-add x xs ys))

meets-add_left :
    (x : String) (xs ys : List String) → meets xs ys ≡ true → meets (add x xs) ys ≡ true
meets-add_left x xs ys h = meets_comm (add x xs) ys ∙ meets-add x xs ys (meets_comm ys xs ∙ h)

-- What an operation notes: nothing is ever forgotten, and the rest of the transaction stays.
meets-note_accessed :
    (r : Option String) (op : Operation) (tx : Transaction) (ys : List String)
    → meets tx.accessed_resources ys ≡ true
    → meets (note_resource r op tx).accessed_resources ys ≡ true
meets-note_accessed none op tx ys h = h
meets-note_accessed (some r) op tx ys h = ground (arith, meets-add_left r tx.accessed_resources ys)

meets-note_modified :
    (r : Option String) (op : Operation) (tx : Transaction) (ys : List String)
    → meets tx.modified_resources ys ≡ true
    → meets (note_resource r op tx).modified_resources ys ≡ true
meets-note_modified none op tx ys h = h
meets-note_modified (some r) op tx ys h = ground (arith, meets-add_left r tx.modified_resources ys)

module _ (op : Operation) (tx : Transaction) where
  pub status-add_operation : (add_operation op tx).status ≡ tx.status
  unfolding add_operation
  status-add_operation = ground arith

  pub isolation-add_operation : (add_operation op tx).isolation_level ≡ tx.isolation_level
  unfolding add_operation
  isolation-add_operation = ground arith

  meets-accessed :
      (ys : List String)
      → meets tx.accessed_resources ys ≡ true
      → meets (add_operation op tx).accessed_resources ys ≡ true
  unfolding add_operation
  meets-accessed ys h = meets-note_accessed op.resource op _ ys h

  meets-modified :
      (ys : List String)
      → meets tx.modified_resources ys ≡ true
      → meets (add_operation op tx).modified_resources ys ≡ true
  unfolding add_operation
  meets-modified ys h = meets-note_modified op.resource op _ ys h

  meets-accessed_right :
      (ys : List String)
      → meets ys tx.accessed_resources ≡ true
      → meets ys (add_operation op tx).accessed_resources ≡ true
  meets-accessed_right ys h =
      meets_comm ys _ ∙ meets-accessed ys (meets_comm tx.accessed_resources ys ∙ h)

  meets-modified_right :
      (ys : List String)
      → meets ys tx.modified_resources ≡ true
      → meets ys (add_operation op tx).modified_resources ≡ true
  meets-modified_right ys h =
      meets_comm ys _ ∙ meets-modified ys (meets_comm tx.modified_resources ys ∙ h)

-- An operation more never ends a conflict: that has to wait for a commit or an abort.
pub has_conflicts-add_operation :
    (op : Operation) (a b : Transaction)
    → has_conflicts a b ≡ true
    → (has_conflicts (add_operation op a) b ≡ true) × (has_conflicts a (add_operation op b) ≡ true)
unfolding has_conflicts
has_conflicts-add_operation op a b h = (
  ground (
    arith,
    status-add_operation op a,
    isolation-add_operation op a,
    meets-accessed op a b.modified_resources,
    meets-modified op a b.accessed_resources,
    meets-modified op a b.modified_resources,
  ),
  ground (
    arith,
    status-add_operation op b,
    meets-modified_right op b a.accessed_resources,
    meets-accessed_right op b a.modified_resources,
    meets-modified_right op b a.modified_resources,
  ),
)
