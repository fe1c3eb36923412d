-- ===== src/Access/Manager/Refusals.antt =====
-- qndb/security/authorization/rbac.py: what a refused call leaves behind.
use quantum_database.Prelude.{
  String, ◌≡◌, none, some, List, lookup, lookup-insert_self, string_key, arith,
}
use quantum_database.Access.Models.{Permission, new_resource}
use quantum_database.Access.RowSecurity.{RlsPolicy, ColumnMask}
use quantum_database.Access.Manager.{
  AccessControlManager, Answer, refused, create_role, grant_on, create_resource, assign_role,
  revoke_role, grant_pattern, add_rls_policy, add_column_mask, unguarded,
}

-- The calls that change one thing, or are refused
pub data Call (F : Type 0) : Type 0 where
  makes_role : (role_id name description : String) → Call F
  assigns takes_back : (user_id role_id : String) → Call F
  grants_on : (principal_id resource_id : String) → Permission → Call F
  grants_pattern : (role_id pattern : String) → List Permission → Call F
  adds_policy : (resource_id : String) → RlsPolicy F → Call F
  adds_mask : (resource_id column_name : String) → ColumnMask F → Call F

module _ {A F : Type 0} where
  abbrev pub run : Call F → AccessControlManager A F → Answer × AccessControlManager A F
  run (makes_role role_id name description) m = create_role role_id name description m
  run (assigns user_id role_id) m = assign_role user_id role_id m
  run (takes_back user_id role_id) m = revoke_role user_id role_id m
  run (grants_on principal_id resource_id perm) m = grant_on principal_id resource_id perm m
  run (grants_pattern role_id pattern perms) m = grant_pattern role_id pattern perms m
  run (adds_policy resource_id policy) m = add_rls_policy resource_id policy m
  run (adds_mask resource_id column_name mask) m = add_column_mask resource_id column_name mask m

  -- A call that is refused left the manager as it was.
  pub run-refused :
      (c : Call F) (m : AccessControlManager A F) → (run c m).0 ≡ refused → (run c m).1 ≡ m
  unfolding create_role assign_role revoke_role grant_on grant_pattern add_rls_policy
      add_column_mask
  run-refused (makes_role role_id name description) m h = ground arith
  run-refused (assigns user_id role_id) m h = ground arith
  run-refused (takes_back user_id role_id) m h = ground arith
  run-refused (grants_on principal_id resource_id perm) m h = ground arith
  run-refused (grants_pattern role_id pattern perms) m h = ground arith
  run-refused (adds_policy resource_id policy) m h = ground arith
  run-refused (adds_mask resource_id column_name mask) m h = ground arith

  -- A new resource for an owner who is neither a user nor a role is refused, but it is there afterwards.
  pub create_resource-orphan :
      (resource_id name kind owner_id : String) (m : AccessControlManager A F)
      → lookup resource_id m.resources ≡ none
      → lookup owner_id m.users ≡ none
      → lookup owner_id m.roles ≡ none
      → let (answer, m') = create_resource resource_id name kind owner_id m in
        (answer ≡ refused)
        × (lookup resource_id m'.resources
            ≡ some (unguarded (new_resource resource_id name kind owner_id)))
  unfolding create_resource grant_on
  create_resource-orphan resource_id name kind owner_id m n u r = ground (
    arith,
    lookup-insert_self resource_id (unguarded (new_resource resource_id name kind owner_id))
        m.resources,
  )
