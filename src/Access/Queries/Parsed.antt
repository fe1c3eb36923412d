-- ===== src/Access/Queries/Parsed.antt =====
-- qndb/security/authorization/rbac.py: `authorize_query` of what the parser made.
use quantum_database.Prelude.{
  ℕ, String, ◌≡◌, refl, ◌⊎◌, inl, inr, ◌↔◌, Bool-cases, Bool, true, false, some, string_key,
}
use quantum_database.Query.Result.{ok}
use quantum_database.Query.Statements.{
  QueryType, select, insert_type, update, delete, create, drop, quantum_search, quantum_join,
  quantum_compute, execute_type, type_name, ParsedQuery,
}
use quantum_database.Access.Attributes.{Operators}
use quantum_database.Access.Manager.{AccessControlManager}
use quantum_database.Access.Queries.{
  Query, is_quantum, query_dict, has_privileges, check_target, authorize_query,
}
use quantum_database.Access.Queries.Quantum.{
  IsPermitted, no_target, may, authorize_query-IsPermitted,
}

-- No type of a parsed query has the prefix of the quantum queries.
is_quantum-type_name : (t : QueryType) → is_quantum (some (type_name t)) ≡ false
is_quantum-type_name select = refl
is_quantum-type_name insert_type = refl
is_quantum-type_name update = refl
is_quantum-type_name delete = refl
is_quantum-type_name create = refl
is_quantum-type_name drop = refl
is_quantum-type_name quantum_search = refl
is_quantum-type_name quantum_join = refl
is_quantum-type_name quantum_compute = refl
is_quantum-type_name execute_type = refl

module _ {A F : Type 0} ⦃ops : Operators A⦄ (matches : (pattern text : String) → Bool)
    (text : String → A) (now : A) where
  check_target-ok :
      (fuel : ℕ) (m : AccessControlManager A F) (user_id : String) (q : Query)
      → IsPermitted matches text now fuel m user_id q
      → check_target matches text now fuel m user_id q ≡ ok true
  check_target-ok fuel m user_id q (no_target e) = rw (check_target, e)
  check_target-ok fuel m user_id q (may target t e e' h) = rw (check_target, e, e') h

  -- A parsed query, quantum or not, is authorized exactly for an admin, for a user who has the permission
  -- that its type requires on the table that it names, and for everyone if it names no table.
  pub authorize_query_parsed :
      {G : Type 0}
      → (fuel : ℕ) (m : AccessControlManager A F) (user_id : String) (q : ParsedQuery G)
      → (authorize_query matches text now fuel m user_id (query_dict q) ≡ ok true) ↔ (
          (has_privileges m user_id ≡ true)
          ⊎ IsPermitted matches text now fuel m user_id (query_dict q))
  unfolding authorize_query
  authorize_query_parsed fuel m user_id q = (
    (λ h. elim (authorize_query-IsPermitted matches text now fuel m user_id (query_dict q) h) [
      | inl p ↦ inl p
      | inr (plain, p) ↦ inr p
    ]),
    (λ s. elim (Bool-cases (has_privileges m user_id)) [
      | inl p ↦ rw p
      | inr p ↦ elim s [
        | inl p' ↦ absurd (cc)
        | inr asked ↦ rw (
          p,
          check_target-ok fuel m user_id (query_dict q) asked,
          is_quantum-type_name q.query_type,
        )
      ]
    ]),
  )
