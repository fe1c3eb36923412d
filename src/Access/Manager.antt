-- ===== src/Access/Manager.antt =====
-- qndb/security/authorization/rbac.py: users, roles and resources of the manager, and who grants what to
-- whom. A call that raises ValueError is `refused`; what it did before stays. The identifier that
-- create_user draws is an argument. Output for debugging and the dictionaries of to_dict and from_dict are
-- not modelled; `authenticate` is in Login.
pub mod Refusals
pub mod Granting
use Prim.Native.String
use quantum_database.Prelude.{
  String, Bool, true, false, Option, none, some, List, [], ◌∷◌, ◌++◌, if◌then◌else◌, Dict, lookup,
  insert, string_key,
}
use quantum_database.Access.Models.{
  Permission, User, new_user, add_role, remove_role, grant_permission, revoke_permission, Role,
  new_role, grant_to_role, revoke_from_role, grant_wildcard, Acl, grant, revoke, Resource,
  new_resource,
}
use quantum_database.Access.Attributes.{AbacPolicy, Context}
use quantum_database.Access.RowSecurity.{RlsPolicy, ColumnMask}

-- A user with the attributes
pub record Member (A : Type 0) : Type 0 where
  pub user : User
  pub attributes : Context A

-- A resource with its row policies and column masks
pub record Guarded (F : Type 0) : Type 0 where
  pub resource : Resource
  pub rls_policies : List (RlsPolicy F)
  pub column_masks : Dict String (ColumnMask F)

pub record AccessControlManager (A F : Type 0) : Type 0 where
  pub users : Dict String (Member A)
  pub roles : Dict String Role
  pub resources : Dict String (Guarded F)
  pub acl : Acl
  pub policies : List (AbacPolicy A)

pub data Answer : Type 0 where
  returned refused : Answer

abbrev pub is_key {ℓ} : {V : Type ℓ} → String → Dict String V → Bool
is_key k d = elim (lookup k d) [ none ↦ false | some v ↦ true ]

abbrev pub with_user : {A : Type 0} → (User → User) → Member A → Member A
with_user f member = record member { user = f member.user }

abbrev pub unguarded : {F : Type 0} → Resource → Guarded F
unguarded r = record { resource = r; rls_policies = []; column_masks = [] }

module _ {A F : Type 0} where
  unfoldable pub create_role :
      (role_id name description : String)
      → AccessControlManager A F
      → Answer × AccessControlManager A F
  create_role role_id name description m = if is_key role_id m.roles then (refused, m) else (
    returned,
    record m { roles = insert role_id (new_role role_id name description) m.roles },
  )

  -- The user or, if there is none of that identifier, the role takes the permission.
  abbrev pub grant_to :
      String → String → Permission → AccessControlManager A F → Option (AccessControlManager A F)
  grant_to principal_id resource_id perm m = elim (lookup principal_id m.users) [
    | some member ↦ some (record m {
      users = insert principal_id (with_user (grant_permission resource_id perm) member) m.users;
    })
    | none ↦ elim (lookup principal_id m.roles) [
      | some role ↦
          some
            (record m { roles = insert principal_id (grant_to_role resource_id perm role) m.roles })
      | none ↦ none
    ]
  ]

  abbrev pub in_acl :
      String
      → String
      → Permission
      → Option (AccessControlManager A F)
      → AccessControlManager A F
      → Answer × AccessControlManager A F
  in_acl principal_id resource_id perm none m = (refused, m)
  in_acl principal_id resource_id perm (some m') m =
      (returned, record m' { acl = grant resource_id principal_id perm m'.acl })

  unfoldable pub grant_on :
      (principal_id resource_id : String)
      → Permission
      → AccessControlManager A F
      → Answer × AccessControlManager A F
  grant_on principal_id resource_id perm m =
      if is_key resource_id m.resources
      then in_acl principal_id resource_id perm (grant_to principal_id resource_id perm m) m
      else (refused, m)

  abbrev pub revoke_from :
      String → String → Permission → AccessControlManager A F → AccessControlManager A F
  revoke_from principal_id resource_id perm m = elim (lookup principal_id m.users) [
    | some member ↦ record m {
      users = insert principal_id (with_user (revoke_permission resource_id perm) member) m.users;
    }
    | none ↦ elim (lookup principal_id m.roles) [
      | some role ↦ record m {
        roles = insert principal_id (revoke_from_role resource_id perm role) m.roles;
      }
      | none ↦ m
    ]
  ]

  unfoldable pub revoke_on :
      (principal_id resource_id : String)
      → Permission
      → AccessControlManager A F
      → AccessControlManager A F
  revoke_on principal_id resource_id perm m =
      let m' = revoke_from principal_id resource_id perm m in
      record m' { acl = revoke resource_id principal_id perm m'.acl }

  -- The resource is stored before the owner is granted anything.
  unfoldable pub create_resource :
      (resource_id name kind owner_id : String)
      → AccessControlManager A F
      → Answer × AccessControlManager A F
  unfolding grant_on
  create_resource resource_id name kind owner_id m =
      if is_key resource_id m.resources
      then (refused, m)
      else grant_on owner_id resource_id "ADMIN" (record m {
        resources =
            insert resource_id (unguarded (new_resource resource_id name kind owner_id))
              m.resources;
      })

  -- The user is stored before the resource of the user is made.
  unfoldable pub create_user :
      (username user_id : String) → AccessControlManager A F → Answer × AccessControlManager A F
  unfolding create_resource
  create_user username user_id m =
      if is_key user_id m.users
      then (refused, m)
      else create_resource (String.◌++◌ "user:" user_id) (String.◌++◌ "User " username) "USER"
          user_id
          (record m {
            users =
                insert user_id (record { user = new_user user_id username; attributes = [] })
                  m.users;
          })

  abbrev pub change_user :
      String
      → (User → User)
      → AccessControlManager A F
      → Option (Member A)
      → Answer × AccessControlManager A F
  change_user user_id f m none = (refused, m)
  change_user user_id f m (some member) =
      (returned, record m { users = insert user_id (with_user f member) m.users })

  unfoldable pub assign_role :
      (user_id role_id : String) → AccessControlManager A F → Answer × AccessControlManager A F
  assign_role user_id role_id m =
      if is_key role_id m.roles
      then change_user user_id (add_role role_id) m (lookup user_id m.users)
      else (refused, m)

  unfoldable pub revoke_role :
      (user_id role_id : String) → AccessControlManager A F → Answer × AccessControlManager A F
  revoke_role user_id role_id m =
      change_user user_id (remove_role role_id) m (lookup user_id m.users)

  unfoldable pub grant_pattern :
      (role_id pattern : String)
      → List Permission
      → AccessControlManager A F
      → Answer × AccessControlManager A F
  grant_pattern role_id pattern perms m = elim (lookup role_id m.roles) [
    | none ↦ (refused, m)
    | some role ↦
        (returned, record m { roles = insert role_id (grant_wildcard pattern perms role) m.roles })
  ]

  abbrev pub change_resource :
      String
      → (Guarded F → Guarded F)
      → AccessControlManager A F
      → Option (Guarded F)
      → Answer × AccessControlManager A F
  change_resource resource_id f m none = (refused, m)
  change_resource resource_id f m (some g) =
      (returned, record m { resources = insert resource_id (f g) m.resources })

  unfoldable pub add_rls_policy :
      (resource_id : String)
      → RlsPolicy F
      → AccessControlManager A F
      → Answer × AccessControlManager A F
  add_rls_policy resource_id policy m =
      change_resource resource_id (λ g. record g { rls_policies = g.rls_policies ++ policy ∷ [] }) m
        (lookup resource_id m.resources)

  unfoldable pub add_column_mask :
      (resource_id column_name : String)
      → ColumnMask F
      → AccessControlManager A F
      → Answer × AccessControlManager A F
  add_column_mask resource_id column_name mask m =
      change_resource resource_id
        (λ g. record g { column_masks = insert column_name mask g.column_masks }) m
        (lookup resource_id m.resources)

  abbrev pub empty_manager : AccessControlManager A F
  empty_manager = record { users = []; roles = []; resources = []; acl = []; policies = [] }

  -- `_init_system_roles` and `_init_system_resources`
  unfoldable pub new_manager : AccessControlManager A F
  unfolding create_role create_user assign_role create_resource
  new_manager =
      let (_, m1) = create_role "admin" "Administrator" "Full system access" empty_manager in
      let (_, m2) = create_role "reader" "Reader" "Read-only access" m1 in
      let (_, m3) = create_role "writer" "Writer" "Read and write access" m2 in
      let (_, m4) = create_user "admin" "admin" m3 in
      let (_, m5) = assign_role "admin" "admin" m4 in
      (create_resource "system" "System" "SYSTEM" "admin" m5).1
