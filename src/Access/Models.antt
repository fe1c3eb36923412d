-- ===== src/Access/Models.antt =====
-- qndb/security/authorization/models.py: users, roles and the access control list. A permission is its
-- name; attributes, identities and the dictionaries for output are not modelled. `now` is the clock's
-- reading in seconds.
pub mod Grants
use quantum_database.Prelude.{
  ℕ, zero, suc, ◌+◌, String, Bool, true, false, not, ◌&&◌, Option, none, some, List, [], ◌∷◌, ◌++◌,
  if◌then◌else◌, ltb, filter, contains, add, Dict, lookup, insert, remove, ◌==◌, string_key,
}

abbrev pub Permission : Type 0
Permission = String

abbrev pub Permissions : Type 0
Permissions = Dict String (List Permission)

pub data LockoutStatus : Type 0 where
  active locked disabled : LockoutStatus

pub record User : Type 0 where
  pub user_id : String
  pub username : String
  pub roles : List String
  pub direct_permissions : Permissions
  pub last_login : Option ℕ
  pub failed_logins : ℕ
  pub lockout_until : Option ℕ
  pub status : LockoutStatus

abbrev pub new_user : (user_id username : String) → User
new_user user_id username = record {
  user_id = user_id;
  username = username;
  roles = [];
  direct_permissions = [];
  last_login = none;
  failed_logins = 0;
  lockout_until = none;
  status = active;
}

-- `s.discard(x)`
abbrev pub discard : String → List String → List String
discard x xs = filter (λ y. not (y == x)) xs

abbrev pub add_role : String → User → User
add_role role_id u = record u { roles = add role_id u.roles }

abbrev pub remove_role : String → User → User
remove_role role_id u = record u { roles = discard role_id u.roles }

abbrev pub or_nothing {ℓ} : {A : Type ℓ} → Option (List A) → List A
or_nothing none = []
or_nothing (some xs) = xs

-- `d.setdefault(key, set()).add(perm)`
unfoldable pub grant_in : String → Permission → Permissions → Permissions
grant_in key perm d = insert key (add perm (or_nothing (lookup key d))) d

-- What is left of an entry; an empty one is removed.
abbrev pub put_or_remove {ℓ} :
    {A : Type ℓ} → String → List A → Dict String (List A) → Dict String (List A)
put_or_remove key [] d = remove key d
put_or_remove key (x ∷ xs) d = insert key (x ∷ xs) d

unfoldable pub revoke_in : String → Permission → Permissions → Permissions
revoke_in key perm d = elim (lookup key d) [
  | none ↦ d
  | some perms ↦ put_or_remove key (discard perm perms) d
]

abbrev pub grant_permission : String → Permission → User → User
grant_permission resource_id perm u = record u {
  direct_permissions = grant_in resource_id perm u.direct_permissions;
}

abbrev pub revoke_permission : String → Permission → User → User
revoke_permission resource_id perm u = record u {
  direct_permissions = revoke_in resource_id perm u.direct_permissions;
}

unfoldable pub record_login : (success : Bool) → (now : ℕ) → User → User
record_login true now u = record u {
  last_login = some now;
  failed_logins = 0;
  lockout_until = none;
  status = active;
}
record_login false now u = record u { failed_logins = u.failed_logins + 1 }

-- `self.lockout_until and time.time() > self.lockout_until`; 0 counts as absent.
abbrev pub is_over : ℕ → Option ℕ → Bool
is_over now none = false
is_over now (some zero) = false
is_over now (some (suc n)) = ltb (suc n) now

abbrev pub is_locked_as : LockoutStatus → ℕ → User → User × Bool
is_locked_as disabled now u = (u, true)
is_locked_as locked now u =
    if is_over now u.lockout_until
    then (record u { status = active; lockout_until = none; failed_logins = 0 }, false)
    else (u, true)
is_locked_as active now u = (u, false)

-- The question changes the user when a lockout is over.
unfoldable pub is_locked : ℕ → User → User × Bool
is_locked now u = is_locked_as u.status now u

pub record Role : Type 0 where
  pub role_id : String
  pub name : String
  pub description : String
  pub permissions : Permissions
  pub parent_roles : List String
  pub wildcard_grants : List (String × List Permission)

abbrev pub new_role : (role_id name description : String) → Role
new_role role_id name description = record {
  role_id = role_id;
  name = name;
  description = description;
  permissions = [];
  parent_roles = [];
  wildcard_grants = [];
}

abbrev pub grant_to_role : String → Permission → Role → Role
grant_to_role resource_id perm r = record r {
  permissions = grant_in resource_id perm r.permissions;
}

abbrev pub revoke_from_role : String → Permission → Role → Role
revoke_from_role resource_id perm r = record r {
  permissions = revoke_in resource_id perm r.permissions;
}

abbrev pub grant_wildcard : (pattern : String) → List Permission → Role → Role
grant_wildcard pattern perms r = record r {
  wildcard_grants = r.wildcard_grants ++ (pattern, perms) ∷ [];
}

abbrev pub add_parent_role : String → Role → Role
add_parent_role parent_role_id r = record r { parent_roles = add parent_role_id r.parent_roles }

abbrev pub remove_parent_role : String → Role → Role
remove_parent_role parent_role_id r = record r {
  parent_roles = discard parent_role_id r.parent_roles;
}

-- `AccessControlList`: resources, principals, permissions.
abbrev pub Acl : Type 0
Acl = Dict String Permissions

unfoldable pub grant : (resource_id principal_id : String) → Permission → Acl → Acl
unfolding grant_in
grant resource_id principal_id perm acl =
    insert resource_id (grant_in principal_id perm (or_nothing (lookup resource_id acl))) acl

unfoldable pub get_permissions : (resource_id principal_id : String) → Acl → List Permission
get_permissions resource_id principal_id acl =
    or_nothing (lookup principal_id (or_nothing (lookup resource_id acl)))

unfoldable pub has_permission : (resource_id principal_id : String) → Permission → Acl → Bool
unfolding get_permissions
has_permission resource_id principal_id perm acl =
    contains perm (get_permissions resource_id principal_id acl)

abbrev principals : Permission → Permissions → List String
principals perm [] = []
principals perm ((pid, perms) ∷ d) =
    let rest = principals perm d in if contains perm perms then pid ∷ rest else rest

unfoldable pub get_principals_with_permission :
    (resource_id : String) → Permission → Acl → List String
get_principals_with_permission resource_id perm acl =
    principals perm (or_nothing (lookup resource_id acl))

abbrev pub is_nothing {ℓ} : {A : Type ℓ} → List A → Bool
is_nothing [] = true
is_nothing (x ∷ xs) = false

unfoldable pub revoke : (resource_id principal_id : String) → Permission → Acl → Acl
revoke resource_id principal_id perm acl =
    let bucket = or_nothing (lookup resource_id acl) in
    let perms = or_nothing (lookup principal_id bucket) in
    if is_nothing perms
    then acl
    else put_or_remove resource_id (put_or_remove principal_id (discard perm perms) bucket) acl

-- The type of a resource is its name; policies and masks on it belong to the manager.
pub record Resource : Type 0 where
  pub resource_id : String
  pub name : String
  pub kind : String
  pub owner_id : String
  pub parent_resource_id : Option String

abbrev pub new_resource : (resource_id name kind owner_id : String) → Resource
new_resource resource_id name kind owner_id = record {
  resource_id = resource_id;
  name = name;
  kind = kind;
  owner_id = owner_id;
  parent_resource_id = none;
}

abbrev pub set_parent : String → Resource → Resource
set_parent parent_resource_id r = record r { parent_resource_id = some parent_resource_id }
