-- ===== src/Access/Queries.antt =====
-- qndb/security/authorization/rbac.py: `authorize_query`, of a query as a dictionary and an identifier of a
-- user. Exceptions of the check are caught and deny.
pub mod Quantum
pub mod Parsed
use Prim.Native.String
use quantum_database.Prelude.{
  ℕ, String, Bool, true, false, not, ◌&&◌, Option, none, some, List, [], ◌∷◌, if◌then◌else◌, lookup,
  string_key, nat_key, ◌==◌,
}
use quantum_database.Query.Result.{Result, ok, failed, unfinished, ◌>>=◌}
use quantum_database.Query.Lexer.{is_upper_of}
use quantum_database.Query.Params.{starts_with}
use quantum_database.Query.Statements.{ParsedQuery, type_name}
use quantum_database.Access.Models.{Permission}
use quantum_database.Access.Attributes.{Operators}
use quantum_database.Access.RowSecurity.{is_admin}
use quantum_database.Access.Manager.{AccessControlManager}
use quantum_database.Access.Checks.{check_permission, non_empty}

pub record Query : Type 0 where
  pub target_table : Option String
  pub query_type : Option String

-- qndb/interface/query/models.py: the part that `authorize_query` reads of `to_dict` of a parsed query
abbrev pub query_dict : {F : Type 0} → ParsedQuery F → Query
query_dict q = record {
  target_table = some q.target_table;
  query_type = some (type_name q.query_type);
}

-- QUERY_PERMISSION_MAP
abbrev permission_map : List (String × Permission)
permission_map =
    ("SELECT", "READ")
    ∷ ("READ", "READ")
    ∷ ("INSERT", "WRITE")
    ∷ ("UPDATE", "WRITE")
    ∷ ("WRITE", "WRITE")
    ∷ ("DELETE", "DELETE")
    ∷ ("CREATE", "CREATE")
    ∷ ("ALTER", "ALTER")
    ∷ ("DROP", "DROP")
    ∷ []

abbrev find_permission : String → List (String × Permission) → Permission
find_permission query_type [] = "EXECUTE"
find_permission query_type ((t, p) ∷ more) =
    if is_upper_of query_type t then p else find_permission query_type more

unfoldable pub required_permission : String → Permission
required_permission query_type = find_permission query_type permission_map

abbrev pub is_quantum : Option String → Bool
is_quantum none = false
is_quantum (some query_type) = starts_with "QUANTUM_" query_type

abbrev caught : Result Bool → Result Bool
caught (ok b) = ok b
caught failed = ok false
caught unfinished = unfinished

-- `_has_quantum_privileges`, and whether the user skips the checks altogether
unfoldable pub has_privileges : {A F : Type 0} → AccessControlManager A F → String → Bool
has_privileges m user_id = elim (lookup user_id m.users) [
  | none ↦ false
  | some member ↦ is_admin member.user
]

module _ {A F : Type 0} ⦃ops : Operators A⦄ (matches : (pattern text : String) → Bool)
    (text : String → A) (now : A) where
  abbrev check_type :
      ℕ → AccessControlManager A F → (user_id target : String) → Option String → Result Bool
  check_type fuel m user_id target none = failed
  check_type fuel m user_id target (some query_type) =
      check_permission matches text now fuel m user_id target (required_permission query_type)

  abbrev check_target : ℕ → AccessControlManager A F → (user_id : String) → Query → Result Bool
  check_target fuel m user_id q = elim (non_empty q.target_table) [
    | none ↦ ok true
    | some target ↦ check_type fuel m user_id target q.query_type
  ]

  -- The quota on quantum resources grants everything.
  unfoldable pub authorize_query :
      ℕ → AccessControlManager A F → (user_id : String) → Query → Result Bool
  unfolding check_permission has_privileges required_permission
  authorize_query fuel m user_id q =
      if has_privileges m user_id
      then ok true
      else caught (check_target fuel m user_id q) >>= λ b.
          ok (
            if b then if is_quantum q.query_type then has_privileges m user_id else true else false)
