-- ===== src/Access/Hierarchy.antt =====
-- qndb/security/authorization/rbac.py: the search for a permission through the parents of a role,
-- `_check_role_hierarchy_permission`. `matches` is `re.match` of a pattern at the start of a text, for
-- patterns that `re` takes.
pub mod Search
use quantum_database.Prelude.{
  ℕ, zero, suc, String, Bool, true, false, ◌&&◌, ◌||◌, Option, none, some, List, [], ◌∷◌,
  if◌then◌else◌, length, contains, add, any, Dict, lookup, string_key,
}
use quantum_database.Access.Models.{Permission, Permissions, Role, or_nothing}

-- The search may be left without fuel (none); else it gives its answer and the set `visited`.
abbrev pub Found : Type 0
Found = Option (Bool × List String)

abbrev pub or_next : Found → (List String → Found) → Found
or_next none next = none
or_next (some (true, seen)) next = some (true, seen)
or_next (some (false, seen)) next = next seen

-- The loop over the parents, which ends at the first that has the permission
unfoldable pub try_each : (String → List String → Found) → List String → List String → Found
try_each visit [] visited = some (false, visited)
try_each visit (p ∷ ps) visited = or_next (visit p visited) (try_each visit ps)

unfoldable pub holds_in : String → Permission → Permissions → Bool
holds_in resource_id perm d = contains perm (or_nothing (lookup resource_id d))

module _ (matches : (pattern text : String) → Bool) where
  -- The role itself has the permission, by a grant or by a pattern.
  unfoldable pub grants : (resource_id : String) → Permission → Role → Bool
  unfolding holds_in
  grants resource_id perm role =
      holds_in resource_id perm role.permissions
      || any (λ (pattern, perms). contains perm perms && matches pattern resource_id)
          role.wildcard_grants

  -- What follows the entry into `visited`
  unfoldable pub enter :
      (resource_id : String)
      → Permission
      → (String → List String → Found)
      → Option Role
      → List String
      → Found
  unfolding grants try_each
  enter resource_id perm visit none visited = some (false, visited)
  enter resource_id perm visit (some role) visited =
      if grants resource_id perm role
      then some (true, visited)
      else try_each visit role.parent_roles visited

  unfoldable pub search_role :
      ℕ → Dict String Role → (resource_id : String) → Permission → String → List String → Found
  unfolding enter
  search_role zero roles resource_id perm role_id visited = none
  search_role (suc fuel) roles resource_id perm role_id visited =
      let deeper = search_role fuel roles resource_id perm in
      if contains role_id visited
      then some (false, visited)
      else enter resource_id perm deeper (lookup role_id roles) (add role_id visited)

  -- Each call that goes on enters a new role of the manager: one unit of fuel for each and one more are
  -- enough.
  unfoldable pub has_by_role :
      Dict String Role → (resource_id : String) → Permission → String → Found
  unfolding search_role
  has_by_role roles resource_id perm role_id =
      search_role (suc (length roles)) roles resource_id perm role_id []
