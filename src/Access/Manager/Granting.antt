-- ===== src/Access/Manager/Granting.antt =====
-- qndb/security/authorization/rbac.py: what grants and revocations change.
use quantum_database.Prelude.{
  String, ◌≡◌, refl, Bool, true, false, Option, none, some, List, [], ◌∷◌, lookup, insert,
  lookup-insert_self, lookup-remove, contains, Dict, contains-add, add, string_key, arith,
  if◌then◌else◌, ==_refl,
}
use quantum_database.Access.Models.{
  Permissions, Role, add_role, grant_in, revoke_in, discard, put_or_remove, or_nothing,
  grant_to_role, has_permission, get_permissions, grant, revoke, Acl, is_nothing, revoke_permission,
}
use quantum_database.Access.Hierarchy.{holds_in, grants}
use quantum_database.Access.Hierarchy.Search.{own}
use quantum_database.Access.Checks.Allowed.{Allowed, through, by_role}
use quantum_database.Access.Manager.{
  AccessControlManager, Member, returned, is_key, grant_to, grant_on, revoke_on, revoke_from,
  with_user, assign_role,
}

pub holds_in-grant_in :
    (rid perm : String) (d : Permissions) → holds_in rid perm (grant_in rid perm d) ≡ true
unfolding holds_in grant_in
holds_in-grant_in rid perm d =
    rw (lookup-insert_self rid (add perm (or_nothing (lookup rid d))) d)
      (ground (arith, contains-add perm perm (or_nothing (lookup rid d)), ==_refl perm))

contains-discard : (x : String) (xs : List String) → contains x (discard x xs) ≡ false
contains-discard x [] = refl
contains-discard x (y ∷ xs) =
    ground (arith, contains-discard x xs, string_key.same_iff x y, string_key.same_iff y x)

or_nothing-put_or_remove {ℓ} :
    {B : Type ℓ} (k : String) (xs : List B) (d : Dict String (List B))
    → or_nothing (lookup k (put_or_remove k xs d)) ≡ xs
or_nothing-put_or_remove k [] d = rw (lookup-remove k k d, ==_refl k) refl
or_nothing-put_or_remove k (y ∷ xs) d = rw (lookup-insert_self k (y ∷ xs) d) refl

taken_away :
    (rid perm : String) (d : Permissions) (o : Option (List String))
    → lookup rid d ≡ o
    → contains perm (
        or_nothing (
          lookup rid (elim o as (λ x. Permissions) [
            | none ↦ d
            | some perms ↦ put_or_remove rid (discard perm perms) d
          ])))
      ≡ false
taken_away rid perm d none e = rw e refl
taken_away rid perm d (some perms) e =
    rw (or_nothing-put_or_remove rid (discard perm perms) d) (contains-discard perm perms)

pub holds_in-revoke_in :
    (rid perm : String) (d : Permissions) → holds_in rid perm (revoke_in rid perm d) ≡ false
unfolding holds_in revoke_in
holds_in-revoke_in rid perm d = taken_away rid perm d (lookup rid d) refl

unlisted :
    (rid pid perm : String) (acl : Acl) (perms : List String)
    → or_nothing (lookup pid (or_nothing (lookup rid acl))) ≡ perms
    → contains perm (
        or_nothing (
          lookup pid (
            or_nothing (
              lookup rid (
                if is_nothing perms
                then acl
                else put_or_remove rid
                    (put_or_remove pid (discard perm perms) (or_nothing (lookup rid acl)))
                    acl)))))
      ≡ false
unlisted rid pid perm acl [] e = rw e refl
unlisted rid pid perm acl (p ∷ perms) e =
    let bucket = or_nothing (lookup rid acl) in
    rw
      (
        or_nothing-put_or_remove rid (put_or_remove pid (discard perm (p ∷ perms)) bucket) acl,
        or_nothing-put_or_remove pid (discard perm (p ∷ perms)) bucket,
      )
      (contains-discard perm (p ∷ perms))

pub has_permission-revoke :
    (rid pid perm : String) (acl : Acl)
    → has_permission rid pid perm (revoke rid pid perm acl) ≡ false
unfolding has_permission get_permissions revoke
has_permission-revoke rid pid perm acl =
    unlisted rid pid perm acl (or_nothing (lookup pid (or_nothing (lookup rid acl)))) refl

pub grants-grant_to_role :
    (matches : (pattern text : String) → Bool) (rid perm : String) (role : Role)
    → grants matches rid perm (grant_to_role rid perm role) ≡ true
unfolding grants
grants-grant_to_role matches rid perm role = rw (holds_in-grant_in rid perm role.permissions) refl

module _ {A F : Type 0} where
  grant_on-role :
      (rid role_id perm : String) (role : Role) (m : AccessControlManager A F)
      → is_key rid m.resources ≡ true
      → lookup role_id m.users ≡ none
      → lookup role_id m.roles ≡ some role
      → grant_on role_id rid perm m ≡ (
        returned,
        record m {
          roles = insert role_id (grant_to_role rid perm role) m.roles;
          acl = grant rid role_id perm m.acl;
        },
      )
  unfolding grant_on
  grant_on-role rid role_id perm role m k n r = rw (k, grant_to, n, r) refl

  assign_role-known :
      (uid role_id : String) (member : Member A) (m : AccessControlManager A F)
      → is_key role_id m.roles ≡ true
      → lookup uid m.users ≡ some member
      → assign_role uid role_id m
        ≡ (returned, record m { users = insert uid (with_user (add_role role_id) member) m.users })
  unfolding assign_role
  assign_role-known uid role_id member m k u = simp (k, u)

module _ {A F : Type 0} where
  -- After a revocation from a user, neither the user nor the access control list has the permission.
  pub revoke_on-Lost :
      (uid rid perm : String) (member : Member A) (m : AccessControlManager A F)
      → lookup uid m.users ≡ some member
      → let m' = revoke_on uid rid perm m in
        (lookup uid m'.users ≡ some (with_user (revoke_permission rid perm) member))
        × (holds_in rid perm (revoke_permission rid perm member.user).direct_permissions ≡ false)
        × (has_permission rid uid perm m'.acl ≡ false)
  unfolding revoke_on
  revoke_on-Lost uid rid perm member m u = (
    rw (revoke_from, u)
        (lookup-insert_self uid (with_user (revoke_permission rid perm) member) m.users),
    holds_in-revoke_in rid perm member.user.direct_permissions,
    has_permission-revoke rid uid perm (revoke_from uid rid perm m).acl,
  )

module _ {A F : Type 0} (matches : (pattern text : String) → Bool) where
  -- A permission granted to a role, which no user has the identifier of, reaches every user that is assigned
  -- the role afterwards.
  pub assign_role-Allowed :
      (uid rid role_id perm : String) (member : Member A) (role : Role)
      (m : AccessControlManager A F)
      → is_key rid m.resources ≡ true
      → lookup role_id m.users ≡ none
      → lookup role_id m.roles ≡ some role
      → lookup uid m.users ≡ some member
      → let m' = (assign_role uid role_id (grant_on role_id rid perm m).1).1 in
        (lookup uid m'.users ≡ some (with_user (add_role role_id) member))
        × Allowed matches m' perm (add_role role_id member.user) rid
  assign_role-Allowed uid rid role_id perm member role m k n r u =
      let m1 = (grant_on role_id rid perm m).1 in
      let role' = grant_to_role rid perm role in
      let granted = grant_on-role rid role_id perm role m k n r in
      let there : lookup role_id m1.roles ≡ some role' =
        rw granted (lookup-insert_self role_id role' m.roles) in
      let users : m1.users ≡ m.users = rw granted refl in
      let assigned =
        assign_role-known uid role_id member m1 (rw (is_key, there) refl) (rw users u) in
      rw assigned (
        lookup-insert_self uid _ m1.users,
        through (
            by_role role_id role'
              (rw (contains-add role_id role_id member.user.roles)
                (ground (arith, ==_refl role_id)))
              (own there) (grants-grant_to_role matches rid perm role)),
      )
