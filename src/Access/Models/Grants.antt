-- ===== src/Access/Models/Grants.antt =====
-- What a grant in the access control list changes.
use quantum_database.Prelude.{
  String, ◌≡◌, ◌&&◌, ◌||◌, add, contains-add, lookup, insert, lookup-insert, arith, ◌==◌,
  string_key,
}
use quantum_database.Access.Models.{
  Acl, grant, grant_in, has_permission, get_permissions, or_nothing,
}

-- A grant gives the principal the permission on the resource, and changes no other answer.
pub has_permission-grant :
    (rid rid' pid pid' perm perm' : String) (acl : Acl)
    → has_permission rid' pid' perm' (grant rid pid perm acl)
      ≡ ((rid == rid' && pid == pid' && perm' == perm) || has_permission rid' pid' perm' acl)
unfolding has_permission get_permissions grant grant_in
has_permission-grant rid rid' pid pid' perm perm' acl =
    let bucket = or_nothing (lookup rid acl) in
    let held = or_nothing (lookup pid bucket) in
    let outer = lookup-insert rid rid' (insert pid (add perm held) bucket) acl in
    let inner = lookup-insert pid pid' (add perm held) bucket in
    let in_set = contains-add perm' perm held in
    rw outer
      (ground (arith, inner, in_set, string_key.same_iff rid rid', string_key.same_iff pid pid'))
