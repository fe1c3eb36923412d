-- ===== src/Query/Statements/Deleting.antt =====
-- SELECT before and after DELETE and INSERT.
use quantum_database.Prelude.{
  ◌≡◌, refl, sym, ap, subst, String, Bool, true, false, List, [], ◌∷◌, ◌++◌, Option, none, some,
  if◌then◌else◌, string_key, lookup, insert, lookup-insert_self,
}
use quantum_database.Query.Result.{Result, ok, bind-ok, ok_inj}
use quantum_database.Query.Where.{Cond}
use quantum_database.Query.Rows.{Floats, Row}
use quantum_database.Query.Plan.Tables.{filter_all, holds}
use quantum_database.Query.Plan.{start}
use quantum_database.Query.Plan.Algebra.{meaning}
use quantum_database.Query.Plan.Refinement.{run-meaning}
use quantum_database.Query.Statements.{
  Database, ParsedQuery, select, select_plan, table_rows, new_record, exec_insert, exec_delete,
  exec_select, delete_rows, delete_where, delete_from,
}

-- `SELECT * FROM table WHERE ...`
abbrev pub select_where : {F : Type 0} → String → Option Cond → ParsedQuery F
select_where table t = record {
  query_type = select;
  target_table = table;
  columns = "*" ∷ [];
  values = [];
  set_clauses = [];
  where_tree = t;
  join_clauses = [];
  group_by = [];
  having = none;
  order_by_columns = [];
  limit = none;
}

module _ {F : Type 0} ⦃fl : Floats F⦄ where
  -- Where the plan of a SELECT means rows, the executor returns these rows, in this order.
  pub exec_select-meaning :
      (db : Database F) (q : ParsedQuery F) (rows : List (Row F))
      → meaning (select_plan db q) ≡ ok rows
      → exec_select db q ≡ ok rows
  unfolding exec_select
  exec_select-meaning db q rows h =
      let (st, r) = run-meaning (select_plan db q) (start (select_plan db q)) rows h in rw r

  abbrev matching : Option Cond → List (Row F) → Result (List (Row F))
  matching none rows = ok rows
  matching (some t) rows = filter_all (holds (some t)) rows

  select_where-matching :
      (db : Database F) (table : String) (t : Option Cond) (rows : List (Row F))
      → matching t (table_rows table db) ≡ ok rows
      → exec_select db (select_where table t) ≡ ok rows
  unfolding select_plan meaning
  select_where-matching db table none rows h =
      exec_select-meaning db (select_where table none) rows h
  select_where-matching db table (some t) rows h =
      exec_select-meaning db (select_where table (some t)) rows (rw h)

  -- What DELETE removes matches, and nothing that it keeps does.
  abbrev Splits : Cond → List (Row F) → List (Row F) × List (Row F) → Type 0
  Splits t rows (keep, removed) =
      (filter_all (holds (some t)) rows ≡ ok removed) × (filter_all (holds (some t)) keep ≡ ok [])

  Splits-cons :
      (t : Cond) (row : Row F) (rows : List (Row F)) (p : List (Row F) × List (Row F)) (b : Bool)
      → holds (some t) row ≡ ok b
      → Splits t rows p
      → Splits t (row ∷ rows) (if b then (p.0, row ∷ p.1) else (row ∷ p.0, p.1))
  unfolding filter_all
  Splits-cons t row rows p true e (m, n) = (rw (e, m), n)
  Splits-cons t row rows p false e (m, n) = (rw (e, m), rw (e, n))

  delete_rows-Splits :
      (t : Cond) (rows : List (Row F)) {p : List (Row F) × List (Row F)}
      → delete_rows t rows ≡ ok p
      → Splits t rows p
  unfolding delete_rows filter_all
  delete_rows-Splits t [] h = subst (Splits t []) (ok_inj h) (refl, refl)
  delete_rows-Splits t (row ∷ rows) h =
      let (b, e, h1) = bind-ok {r = holds (some t) row} h in
      let (p, q, h2) = bind-ok {r = delete_rows t rows} h1 in
      subst (Splits t (row ∷ rows)) (ok_inj h2)
        (Splits-cons t row rows p b e (delete_rows-Splits t rows q))

  delete_where-matching :
      (t : Option Cond) (rows : List (Row F)) {p : List (Row F) × List (Row F)}
      → delete_where t rows ≡ ok p
      → (matching t rows ≡ ok p.1) × (matching t p.0 ≡ ok [])
  delete_where-matching none rows h =
      subst (λ p. (ok rows ≡ ok p.1) × (ok p.0 ≡ ok [])) (ok_inj h) (refl, refl)
  delete_where-matching (some t) rows h = delete_rows-Splits t rows h

  matching_none : (t : Option Cond) → matching t [] ≡ ok []
  unfolding filter_all
  matching_none none = refl
  matching_none (some t) = refl

  table_rows-insert :
      (table : String) (rows : List (Row F)) (db : Database F)
      → table_rows table (insert table rows db) ≡ rows
  table_rows-insert table rows db = rw (table_rows, lookup-insert_self table rows db) refl

  -- What is said of a database and rows after a DELETE
  abbrev Deleted :
      (db : Database F) (table : String) → Option Cond → Database F × List (Row F) → Type 0
  Deleted db table t (db', removed) =
      (exec_select db (select_where table t) ≡ ok removed)
      × (exec_select db' (select_where table t) ≡ ok [])

  Deleted-found :
      (db : Database F) (table : String) (t : Option Cond) (found : Option (List (Row F)))
      {r : Database F × List (Row F)}
      → lookup table db ≡ found
      → delete_from db table t found ≡ ok r
      → Deleted db table t r
  unfolding lookup
  Deleted-found db table t none e h =
      let none_there = select_where-matching db table t [] (rw (table_rows, e) (matching_none t)) in
      subst (Deleted db table t) (ok_inj h) (none_there, none_there)
  Deleted-found db table t (some rows) e h =
      let ((keep, removed), q, h1) = bind-ok {r = delete_where t rows} h in
      let (m, n) = delete_where-matching t rows q in
      subst (Deleted db table t) (ok_inj h1) (
        select_where-matching db table t removed (rw (table_rows, e) m),
        select_where-matching (insert table keep db) table t []
            (subst (λ rs. matching t rs ≡ ok []) (sym (table_rows-insert table keep db)) n),
      )

  -- A DELETE that does not raise returns the rows that a SELECT * with its condition gives before it, and
  -- the same SELECT gives none after it.
  pub exec_delete-exec_select :
      (db db' : Database F) (q : ParsedQuery F) (removed : List (Row F))
      → exec_delete db q ≡ ok (db', removed)
      → (exec_select db (select_where q.target_table q.where_tree) ≡ ok removed)
        × (exec_select db' (select_where q.target_table q.where_tree) ≡ ok [])
  unfolding exec_delete
  exec_delete-exec_select db db' q removed h =
      Deleted-found db q.target_table q.where_tree (lookup q.target_table db) refl h

  -- After an INSERT, a SELECT * of the table gives the rows that it gave before, then the new one.
  pub exec_select-exec_insert :
      (db : Database F) (q : ParsedQuery F)
      → (rows : List (Row F)) × (exec_select db (select_where q.target_table none) ≡ ok rows)
        × (exec_select (exec_insert db q).0 (select_where q.target_table none)
            ≡ ok (rows ++ (exec_insert db q).1))
  unfolding exec_insert
  exec_select-exec_insert db q =
      let rows = table_rows q.target_table db in
      let new = rows ++ new_record q.columns q.values ∷ [] in
      (
        rows,
        select_where-matching db q.target_table none rows refl,
        select_where-matching (insert q.target_table new db) q.target_table none new
            (ap ok (table_rows-insert q.target_table new db)),
      )
