-- ===== src/Access/Queries/Quantum.antt =====
-- qndb/security/authorization/rbac.py: what an authorized query tells.
use quantum_database.Prelude.{
  ℕ, String, ◌≡◌, refl, ◌⊎◌, inl, inr, Bool-cases, Bool, true, false, Option, none, some,
  if◌then◌else◌, string_key,
}
use quantum_database.Query.Result.{Result, ok, failed, unfinished, ◌>>=◌}
use quantum_database.Access.Attributes.{Operators}
use quantum_database.Access.Manager.{AccessControlManager}
use quantum_database.Access.Checks.{check_permission, non_empty}
use quantum_database.Access.Queries.{
  Query, required_permission, is_quantum, caught, has_privileges, check_target, authorize_query,
}

-- The end of the call, for a user who is no admin
then_quantum :
    (r : Result Bool) (is_q : Bool)
    → (caught r >>= λ b. ok (if b then if is_q then false else true else false)) ≡ ok true
    → (r ≡ ok true) × (is_q ≡ false)
then_quantum (ok true) true h = absurd (cc)
then_quantum (ok true) false h = (refl, refl)
then_quantum (ok false) q h = absurd (cc)
then_quantum failed q h = absurd (cc)
then_quantum unfinished q h = absurd (cc)

module _ {A F : Type 0} ⦃ops : Operators A⦄ (matches : (pattern text : String) → Bool)
    (text : String → A) (now : A) where
  -- The query names no table, or the user may do to its table what its type requires.
  pub data IsPermitted (fuel : ℕ) (m : AccessControlManager A F) (user_id : String) (q : Query)
      : Type 0 where
    no_target : non_empty q.target_table ≡ none → IsPermitted fuel m user_id q
    may :
        (target query_type : String)
        → non_empty q.target_table ≡ some target
        → q.query_type ≡ some query_type
        → check_permission matches text now fuel m user_id target (required_permission query_type)
          ≡ ok true
        → IsPermitted fuel m user_id q

  permitted :
      (fuel : ℕ) (m : AccessControlManager A F) (user_id : String) (q : Query)
      (target query_type : Option String)
      → non_empty q.target_table ≡ target
      → q.query_type ≡ query_type
      → check_target matches text now fuel m user_id q ≡ ok true
      → IsPermitted fuel m user_id q
  permitted fuel m user_id q none t e e' h = no_target e
  permitted fuel m user_id q (some target) none e e' h = absurd (cc (rw (check_target, e, e') at h))
  permitted fuel m user_id q (some target) (some t) e e' h =
      may target t e e' (rw (check_target, e, e') at h)

  -- A query is authorized only for an admin, or if its type does not begin with QUANTUM_ and the user has the permission
  -- that its type requires on the table that it names, if it names one.
  pub authorize_query-IsPermitted :
      (fuel : ℕ) (m : AccessControlManager A F) (user_id : String) (q : Query)
      → authorize_query matches text now fuel m user_id q ≡ ok true
      → (has_privileges m user_id ≡ true)
        ⊎ ((is_quantum q.query_type ≡ false) × IsPermitted fuel m user_id q)
  unfolding authorize_query
  authorize_query-IsPermitted fuel m user_id q h = elim (Bool-cases (has_privileges m user_id)) [
    | inl p ↦ inl p
    | inr p ↦
        let (asked, plain) =
          then_quantum (check_target matches text now fuel m user_id q) (is_quantum q.query_type)
            (rw p at h) in
        inr (
          plain,
          permitted fuel m user_id q (non_empty q.target_table) q.query_type refl refl asked,
        )
  ]
