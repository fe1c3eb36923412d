-- ===== src/Access/ManagerTests.antt =====
-- A manager with a clerk, two roles that are parents of one another, and a table within a database.
use quantum_database.Prelude.{
  none, ◌↔◌, ℕ, zero, suc, ◌≡◌, ◌⊎◌, refl, String, Bool, true, false, List, [], ◌∷◌, some, ◌==◌,
  string_key, arith, lookup, insert,
}
use quantum_database.Query.Result.{ok, failed, unfinished}
use quantum_database.Access.Models.{new_user, Role, new_role, Resource, new_resource, add_role}
use quantum_database.Access.Attributes.{Operators, evaluate_engine}
use quantum_database.Access.Hierarchy.{has_by_role}
use quantum_database.Access.Hierarchy.Search.{Decided, has_by_role-Decided}
use quantum_database.Access.Manager.{
  AccessControlManager, Member, refused, unguarded, with_user, create_resource, grant_on,
  assign_role, new_manager,
}
use quantum_database.Access.Manager.Refusals.{run, assigns, run-refused, create_resource-orphan}
use quantum_database.Access.Manager.Granting.{assign_role-Allowed}
use quantum_database.Access.Checks.{check_permission}
use quantum_database.Access.Checks.Allowed.{
  Tells, Allowed, IsRooted, top, below, check_permission-Tells,
}
use quantum_database.Query.Statements.{ParsedQuery, quantum_search}
use quantum_database.Access.Queries.{query_dict, authorize_query, has_privileges}
use quantum_database.Access.Queries.Quantum.{IsPermitted}
use quantum_database.Access.Queries.Parsed.{authorize_query_parsed}

instance abbrev no_operators : Operators String
no_operators = record { apply = λ op a b. failed }

abbrev text : String → String
text s = s

-- `re.match` of patterns that are texts
abbrev matches : (pattern text : String) → Bool
matches pattern text = pattern == text

abbrev roles : List (String × Role)
roles =
    ("clerk", record (new_role "clerk" "Clerk" "") { parent_roles = "senior" ∷ [] })
    ∷ (
      "senior",
      record (new_role "senior" "Senior" "") {
        parent_roles = "clerk" ∷ [];
        permissions = ("shop", "READ" ∷ []) ∷ [];
      },
    )
    ∷ []

abbrev clara : Member String
clara = record { user = record (new_user "u1" "clara") { roles = "clerk" ∷ [] }; attributes = [] }

abbrev shop : Resource
shop = new_resource "shop" "Shop" "DATABASE" "u1"

abbrev orders : Resource
orders = record (new_resource "orders" "Orders" "TABLE" "u1") { parent_resource_id = some "shop" }

abbrev manager : AccessControlManager String ℕ
manager = record {
  users = ("u1", clara) ∷ [];
  roles = roles;
  resources = ("shop", unguarded shop) ∷ ("orders", unguarded orders) ∷ [];
  acl = [];
  policies = [];
}

has_by_role-Decided_example :
    Decided matches roles "shop" "WRITE" "clerk" (has_by_role matches roles "shop" "WRITE" "clerk")
has_by_role-Decided_example = has_by_role-Decided matches roles "shop" "WRITE" "clerk"

-- The parents go round in a circle, and the search still ends.
circle_denied :
    has_by_role matches roles "shop" "WRITE" "clerk" ≡ some (false, "clerk" ∷ "senior" ∷ [])
unfolding has_by_role lookup
circle_denied = refl

orders-IsRooted : IsRooted matches manager "READ" 1 "orders"
unfolding lookup
orders-IsRooted = below refl (top refl)

check_permission-Tells_example :
    Tells
      (Allowed matches manager "READ" clara.user "orders")
      (check_permission matches text "noon" 2 manager "u1" "orders" "READ")
unfolding lookup evaluate_engine
check_permission-Tells_example =
    check_permission-Tells matches text "noon" manager "READ" "u1" clara refl refl (λ c. refl) 2 1
      "orders" orders-IsRooted (omega arith)

read_orders : check_permission matches text "noon" 2 manager "u1" "orders" "READ" ≡ ok true
unfolding check_permission has_by_role lookup evaluate_engine
read_orders = refl

run-refused_example : (run (assigns "u1" "boss") manager).1 ≡ manager
unfolding assign_role lookup
run-refused_example = run-refused (assigns "u1" "boss") manager refl

create_resource-orphan_example :
    let (answer, m') = create_resource "logs" "Logs" "TABLE" "nobody" manager in
    (answer ≡ refused)
    × (lookup "logs" m'.resources ≡ some (unguarded (new_resource "logs" "Logs" "TABLE" "nobody")))
unfolding lookup
create_resource-orphan_example =
    create_resource-orphan "logs" "Logs" "TABLE" "nobody" manager refl refl refl

assign_role-Allowed_example :
    let m' = (assign_role "u1" "senior" (grant_on "senior" "orders" "WRITE" manager).1).1 in
    (lookup "u1" m'.users ≡ some (with_user (add_role "senior") clara))
    × Allowed matches m' "WRITE" (add_role "senior" clara.user) "orders"
unfolding lookup
assign_role-Allowed_example =
    assign_role-Allowed matches "u1" "orders" "senior" "WRITE" clara
      (record (new_role "senior" "Senior" "") {
        parent_roles = "clerk" ∷ [];
        permissions = ("shop", "READ" ∷ []) ∷ [];
      })
      manager refl refl refl refl

-- A quantum search of a table, by a user who is no admin and may execute on it
abbrev search_shop : ParsedQuery ℕ
search_shop = record {
  query_type = quantum_search;
  target_table = "shop";
  columns = "*" ∷ [];
  values = [];
  set_clauses = [];
  where_tree = none;
  join_clauses = [];
  group_by = [];
  having = none;
  order_by_columns = [];
  limit = none;
}

abbrev executing : AccessControlManager String ℕ
executing = record manager {
  roles =
      (
        "clerk",
        record (new_role "clerk" "Clerk" "") { permissions = ("shop", "EXECUTE" ∷ []) ∷ [] },
      )
      ∷ [];
}

authorize_query_parsed_example :
    (authorize_query matches text "noon" 1 executing "u1" (query_dict search_shop) ≡ ok true) ↔ (
      (has_privileges executing "u1" ≡ true)
      ⊎ IsPermitted matches text "noon" 1 executing "u1" (query_dict search_shop))
authorize_query_parsed_example =
    authorize_query_parsed matches text "noon" 1 executing "u1" search_shop

search_authorized :
    authorize_query matches text "noon" 1 executing "u1" (query_dict search_shop) ≡ ok true
unfolding authorize_query check_permission has_by_role lookup evaluate_engine
search_authorized = refl

search_denied :
    authorize_query matches text "noon" 1 manager "u1" (query_dict search_shop) ≡ ok false
unfolding authorize_query check_permission has_by_role lookup evaluate_engine
search_denied = refl

-- A grant to the role "admin" goes to the user of that identifier.
admin_grant :
    let m = (create_resource {A = String} {F = ℕ} "t" "T" "TABLE" "admin" new_manager).1 in
    lookup "admin" (grant_on "admin" "t" "READ" m).1.roles ≡ lookup "admin" m.roles
unfolding grant_on create_resource new_manager lookup insert
admin_grant = refl

-- With a parent that is the resource itself, no fuel is enough.
abbrev self_parent : AccessControlManager String ℕ
self_parent = record manager {
  resources = ("shop", unguarded (record shop { parent_resource_id = some "shop" })) ∷ [];
}

endless :
    (fuel : ℕ)
    → check_permission matches text "noon" fuel self_parent "u1" "shop" "WRITE" ≡ unfinished
unfolding check_permission has_by_role lookup evaluate_engine
endless zero = refl
endless (suc fuel) = endless fuel
