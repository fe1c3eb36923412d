-- ===== src/Access/Checks.antt =====
-- qndb/security/authorization/rbac.py: `check_permission` and what is built on it. The context of the
-- attribute policies is of the caller's attributes, so `text` makes one of a text, and `now` is the time as
-- one. `matches` is `re.match`. Each step to a parent resource takes one unit of fuel.
pub mod Allowed
use Prim.Native.String
use quantum_database.Prelude.{
  ℕ, zero, suc, String, Bool, true, false, ◌&&◌, Option, none, some, List, [], ◌∷◌, if◌then◌else◌,
  contains, Dict, lookup, insert, string_key, ◌==◌,
}
use quantum_database.Query.Result.{Result, ok, failed, unfinished, ◌>>=◌}
use quantum_database.Query.Lexer.{is_upper_of}
use quantum_database.Query.Rows.{Row}
use quantum_database.Access.Models.{Permission, User, Role}
use quantum_database.Access.Attributes.{Operators, Context, evaluate_engine}
use quantum_database.Access.RowSecurity.{is_admin, filter_rows, apply_column_masks}
use quantum_database.Access.Hierarchy.{Found, holds_in, has_by_role}
use quantum_database.Access.Manager.{AccessControlManager, Member, Guarded, is_key}

abbrev pub non_empty : Option String → Option String
non_empty none = none
non_empty (some String.[]) = none
non_empty (some (String.◌∷◌ c s)) = some (String.◌∷◌ c s)

abbrev pub kind_of : {F : Type 0} → Option (Guarded F) → Option String
kind_of none = none
kind_of (some g) = some g.resource.kind

abbrev pub parent_of : {F : Type 0} → Option (Guarded F) → Option String
parent_of none = none
parent_of (some g) = non_empty g.resource.parent_resource_id

abbrev pub result_of : Found → Result Bool
result_of none = unfinished
result_of (some (b, visited)) = ok b

abbrev pub or_else : Option String → (String → Result Bool) → Result Bool
or_else none ask = ok false
or_else (some p) ask = ask p

abbrev map_text : {A : Type 0} → (String → A) → Option String → Option A
map_text f none = none
map_text f (some s) = some (f s)

abbrev pub update : {A : Type 0} → Context A → Context A → Context A
update d [] = d
update d ((k, v) ∷ more) = update (insert k v d) more

module _ {A : Type 0} (text : String → A) (now : A) where
  -- `**user.attributes` comes last: attributes of the user replace what stands before them.
  unfoldable pub abac_context :
      Member A → (user_id resource_id : String) → Option String → Permission → Context A
  abac_context member user_id resource_id kind perm =
      update
        (("user_id", some (text user_id))
          ∷ ("username", some (text member.user.username))
          ∷ ("resource_id", some (text resource_id))
          ∷ ("resource_type", map_text text kind)
          ∷ ("permission", some (text perm))
          ∷ ("time", some now)
          ∷ [])
        member.attributes

module _ (matches : (pattern text : String) → Bool) where
  -- The loop over the roles of the user
  unfoldable pub any_role :
      Dict String Role → (resource_id : String) → Permission → List String → Result Bool
  any_role roles resource_id perm [] = ok false
  any_role roles resource_id perm (r ∷ rs) =
      result_of (has_by_role matches roles resource_id perm r) >>= λ b.
      if b then ok true else any_role roles resource_id perm rs

module _ {A F : Type 0} (matches : (pattern text : String) → Bool) where
  -- What is asked when the attribute policies leave it open; `parent` asks for the parent resource.
  unfoldable pub check_grants :
      AccessControlManager A F
      → User
      → (resource_id : String) → Permission
      → (parent : Result Bool) → Result Bool
  unfolding any_role
  check_grants m user resource_id perm parent =
      if holds_in resource_id perm user.direct_permissions
      then ok true
      else any_role matches m.roles resource_id perm user.roles >>= λ b.
          if b then ok true else parent

module _ {A F : Type 0} ⦃ops : Operators A⦄ (matches : (pattern text : String) → Bool)
    (text : String → A) (now : A) where
  unfoldable pub check_permission :
      ℕ → AccessControlManager A F → (user_id resource_id : String) → Permission → Result Bool
  unfolding check_grants abac_context
  check_permission zero m user_id resource_id perm = unfinished
  check_permission (suc fuel) m user_id resource_id perm =
      let asked = lookup resource_id m.resources in
      let parent = or_else (parent_of asked) (λ p. check_permission fuel m user_id p perm) in
      elim (lookup user_id m.users) [
        | none ↦ ok false
        | some member ↦
            if is_admin member.user
            then ok true
            else evaluate_engine
                (abac_context text now member user_id resource_id (kind_of asked) perm) m.policies
              >>= λ decision. elim decision [
                | some b ↦ ok b
                | none ↦ check_grants matches m member.user resource_id perm parent
              ]
      ]

  -- AccessDeniedException is `failed`.
  unfoldable pub enforce_permission :
      ℕ → AccessControlManager A F → (user_id resource_id : String) → Permission → Result (Unit {0})
  unfolding check_permission
  enforce_permission fuel m user_id resource_id perm =
      check_permission fuel m user_id resource_id perm >>= λ b. if b then ok tt else failed

  -- The loop of `get_accessible_resources`, over the resources; some check may raise.
  unfoldable pub accessible :
      ℕ
      → AccessControlManager A F
      → (user_id : String) → Permission
      → Dict String (Guarded F)
      → Result (List (Guarded F))
  unfolding check_permission
  accessible fuel m user_id perm [] = ok []
  accessible fuel m user_id perm ((i, g) ∷ gs) =
      check_permission fuel m user_id g.resource.resource_id perm >>= λ b.
      accessible fuel m user_id perm gs >>= λ rest. ok (if b then g ∷ rest else rest)

-- `filter_rows` and `apply_column_masks` of the manager
module _ {A F : Type 0} where
  unfoldable pub visible_rows :
      (resource_id user_id : String) → List (Row F) → AccessControlManager A F → List (Row F)
  unfolding filter_rows
  visible_rows resource_id user_id rows m = elim (lookup resource_id m.resources) [
    | none ↦ rows
    | some g ↦ elim g.rls_policies [
      | [] ↦ rows
      | p ∷ ps ↦ elim (lookup user_id m.users) [
        | none ↦ []
        | some member ↦ filter_rows (p ∷ ps) member.user rows
      ]
    ]
  ]

  unfoldable pub masked_rows :
      (resource_id user_id : String) → List (Row F) → AccessControlManager A F → List (Row F)
  unfolding apply_column_masks
  masked_rows resource_id user_id rows m = elim (lookup resource_id m.resources) [
    | none ↦ rows
    | some g ↦ elim (lookup user_id m.users) [
      | none ↦ rows
      | some member ↦ apply_column_masks g.column_masks member.user rows
    ]
  ]
