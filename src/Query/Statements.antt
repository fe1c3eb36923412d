-- ===== src/Query/Statements.antt =====
-- qndb/interface/query_executor.py: `QueryExecutor`. A statement takes the database, which it is given by
-- reference, to the database after it and the rows it returns. Rows are values: two results do not share
-- one. An INSERT has its values; the attempt to find them in the text of the query is left out. What an
-- exception leaves of the database is not modelled.
pub mod Deleting
use quantum_database.Prelude.{
  ℕ, zero, suc, ◌+◌, String, Bool, true, false, not, ◌&&◌, ◌||◌, List, [], ◌∷◌, ◌++◌, Option, none,
  some, if◌then◌else◌, any, ◌==◌, string_key, Dict, lookup, insert, ℤ, pos,
}
use Prim.Native.String
use quantum_database.Query.Result.{Result, ok, failed, unfinished, ◌>>=◌}
use quantum_database.Query.Token.{int_text}
use quantum_database.Query.Where.{Cond}
use quantum_database.Query.Rows.{Floats, Value, Row, coerce}
use quantum_database.Query.Plan.Tables.{Spec, holds}
use quantum_database.Query.Plan.Groups.{func_prefix, absent}
use quantum_database.Query.Plan.{
  Plan, scan, filter, project_on, sort, limit, aggregate, join, State, start, run,
}

abbrev pub Database : Type 0 → Type 0
Database F = Dict String (List (Row F))

pub data QueryType : Type 0 where
  select insert_type update delete create drop quantum_search quantum_join quantum_compute
        execute_type :
      QueryType

-- The value of the member
abbrev pub type_name : QueryType → String
type_name select = "SELECT"
type_name insert_type = "INSERT"
type_name update = "UPDATE"
type_name delete = "DELETE"
type_name create = "CREATE"
type_name drop = "DROP"
type_name quantum_search = "QSEARCH"
type_name quantum_join = "QJOIN"
type_name quantum_compute = "QCOMPUTE"
type_name execute_type = "EXECUTE"

-- `{"table": ..., "join_type": ..., "on": ...}`, with the type in upper case
pub record JoinClause : Type 0 where
  pub table : String
  pub join_type : String
  pub on : Option Cond

-- The fields of `ParsedQuery` that the executor reads. A list that may be None is empty where it is.
pub record ParsedQuery (F : Type 0) : Type 0 where
  pub query_type : QueryType
  pub target_table : String
  pub columns : List String
  pub values : List (Value F)
  pub set_clauses : List (String × Value F)
  pub where_tree : Option Cond
  pub join_clauses : List JoinClause
  pub group_by : List String
  pub having : Option Cond
  pub order_by_columns : List Spec
  pub limit : Option ℕ

abbrev is_star : List String → Bool
is_star (c ∷ []) = c == "*"
is_star _ = false

abbrev is_empty : {A : Type 0} → List A → Bool
is_empty [] = true
is_empty (x ∷ xs) = false

-- Columns that are all of them, or none, are no projection.
abbrev pub projected : List String → Option (List String)
projected [] = none
projected cols = if is_star cols then none else some cols

unfoldable pub has_agg : List String → Bool
unfolding func_prefix
has_agg [] = false
has_agg cols = not (is_star cols) && any (λ c. not (absent (func_prefix c))) cols

module _ {F : Type 0} where
  -- `self.db.get(table, [])`
  abbrev pub table_rows : String → Database F → List (Row F)
  table_rows table db = elim (lookup table db) [ none ↦ [] | some rows ↦ rows ]

  abbrev with_joins : Database F → List JoinClause → Plan F → Plan F
  with_joins db [] plan = plan
  with_joins db (jc ∷ jcs) plan =
      with_joins db jcs (join plan (table_rows jc.table db) jc.join_type jc.on)

  abbrev with_where : Option Cond → Plan F → Plan F
  with_where none plan = plan
  with_where (some t) plan = filter plan (some t)

  abbrev with_columns : ParsedQuery F → Plan F → Plan F
  with_columns q plan =
      if not (is_empty q.group_by) || has_agg q.columns
      then aggregate plan q.group_by q.columns q.having
      else project_on plan (projected q.columns)

  abbrev with_sort : List Spec → Plan F → Plan F
  with_sort [] plan = plan
  with_sort (spec ∷ specs) plan = sort plan (spec ∷ specs)

  abbrev with_limit : Option ℕ → Plan F → Plan F
  with_limit none plan = plan
  with_limit (some n) plan = limit plan n

  -- The pipeline that `_exec_select` builds; a projection on all columns stands where there is none.
  unfoldable pub select_plan : Database F → ParsedQuery F → Plan F
  unfolding has_agg
  select_plan db q = with_limit q.limit (
      with_sort q.order_by_columns (
        with_columns q (
          with_where q.where_tree
            (with_joins db q.join_clauses (scan (table_rows q.target_table db))))))

  -- `_exec_create`
  unfoldable pub exec_create : Database F → ParsedQuery F → Database F × List (Row F)
  exec_create db q =
      (if absent (lookup q.target_table db) then insert q.target_table [] db else db, [])

  abbrev zip_record : List String → List (Value F) → Row F → Row F
  zip_record (c ∷ cs) (v ∷ vs) acc = zip_record cs vs (insert c v acc)
  zip_record _ _ acc = acc

  abbrev numbered : ℕ → List (Value F) → Row F → Row F
  numbered i [] acc = acc
  numbered i (v ∷ vs) acc =
      numbered (suc i) vs (insert (String.◌++◌ "col" (int_text (pos i))) v acc)

  unfoldable pub new_record : List String → List (Value F) → Row F
  new_record [] values = numbered 0 values []
  new_record columns values = zip_record columns values []

  -- `_exec_insert`
  unfoldable pub exec_insert : Database F → ParsedQuery F → Database F × List (Row F)
  unfolding new_record
  exec_insert db q =
      let entry = new_record q.columns q.values in
      (insert q.target_table (table_rows q.target_table db ++ entry ∷ []) db, entry ∷ [])

module _ {F : Type 0} ⦃fl : Floats F⦄ where
  -- The set clauses on a row, in order
  unfoldable pub set_row : List (String × Value F) → Row F → Row F
  unfolding coerce
  set_row [] row = row
  set_row ((col, v) ∷ clauses) row = set_row clauses (insert col (coerce v) row)

  -- The rows after the loop of `_exec_update`, and those that it touched, as they are after it.
  unfoldable pub update_rows :
      Option Cond → List (String × Value F) → List (Row F) → Result (List (Row F) × List (Row F))
  unfolding set_row holds
  update_rows t clauses [] = ok ([], [])
  update_rows t clauses (row ∷ rows) = holds t row >>= λ b.
      update_rows t clauses rows >>= λ (rest, updated). ok (
        if b
        then (set_row clauses row ∷ rest, set_row clauses row ∷ updated)
        else (row ∷ rest, updated))

  -- `_exec_update`
  unfoldable pub exec_update : Database F → ParsedQuery F → Result (Database F × List (Row F))
  unfolding update_rows
  exec_update db q = elim (lookup q.target_table db) [
    | none ↦ ok (db, [])
    | some rows ↦ update_rows q.where_tree q.set_clauses rows >>= λ (rest, updated).
        ok (insert q.target_table rest db, updated)
  ]

  -- What the loop of `_exec_delete` keeps, and what it removes.
  unfoldable pub delete_rows : Cond → List (Row F) → Result (List (Row F) × List (Row F))
  unfolding holds
  delete_rows t [] = ok ([], [])
  delete_rows t (row ∷ rows) = holds (some t) row >>= λ b. delete_rows t rows >>= λ (keep, removed).
      ok (if b then (keep, row ∷ removed) else (row ∷ keep, removed))

  abbrev pub delete_where : Option Cond → List (Row F) → Result (List (Row F) × List (Row F))
  delete_where none rows = ok ([], rows)
  delete_where (some t) rows = delete_rows t rows

  -- The deletion from a table, if there is one
  abbrev pub delete_from :
      Database F → String → Option Cond → Option (List (Row F)) → Result (Database F × List (Row F))
  delete_from db table t none = ok (db, [])
  delete_from db table t (some rows) =
      delete_where t rows >>= λ (keep, removed). ok (insert table keep db, removed)

  -- `_exec_delete`
  unfoldable pub exec_delete : Database F → ParsedQuery F → Result (Database F × List (Row F))
  unfolding delete_rows
  exec_delete db q = delete_from db q.target_table q.where_tree (lookup q.target_table db)

  -- `_exec_select`
  unfoldable pub exec_select : Database F → ParsedQuery F → Result (List (Row F))
  unfolding select_plan run
  exec_select db q = run (select_plan db q) (start (select_plan db q)) >>= λ (rows, st). ok rows

  -- `execute`
  unfoldable pub execute :
      QueryType → Database F → ParsedQuery F → Result (Database F × List (Row F))
  unfolding exec_select exec_insert exec_update exec_delete exec_create
  execute select db q = exec_select db q >>= λ rows. ok (db, rows)
  execute insert_type db q = ok (exec_insert db q)
  execute update db q = exec_update db q
  execute delete db q = exec_delete db q
  execute create db q = ok (exec_create db q)
  execute _ db q = ok (db, [])
