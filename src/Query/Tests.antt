-- ===== src/Query/Tests.antt =====
-- Tokens, trees and rows of example queries.

use quantum_database.Prelude.{
  ℕ, ◌≡◌, ◌≢◌, refl, String, true, false, List, [], ◌∷◌, none, some, lookup, insert, ℤ, pos, ◌+ℤ◌,
  ltb_ℤ, eqb_ℤ, arith,
}
use mathlib.Core.List.{Permᴰ}
use quantum_database.Query.Result.{ok, unfinished}
use quantum_database.Query.Token.{
  ident, op, keyword, int_text, lparen, rparen, comma, null_kw, in_kw,
}
use quantum_database.Query.Params.{Param, substitute_params, strip_comments}
use quantum_database.Query.Where.{
  Cond, comparison, and, or, among, parse, whole as whole_literal, text,
}
use quantum_database.Query.Where.Ending.{parse-ne-unfinished}
use quantum_database.Query.Where.Printing.{any, print}
use quantum_database.Query.Where.Printing.RoundTrip.{parse-print}
use quantum_database.Query.Rows.{Floats, Row, int, str}
use quantum_database.Query.Plan.{Plan, scan, filter, project_on, sort, limit, State, start, run}
use quantum_database.Query.Plan.Algebra.{meaning}
use quantum_database.Query.Plan.Refinement.{run-meaning}
use quantum_database.Query.Plan.Tables.{join_rows, sort_rows, row_less, filter_all, holds, project}
use quantum_database.Query.Plan.Joins.{product, join_rows-product}
use quantum_database.Query.Plan.Sorting.{Ordered}
use quantum_database.Query.Plan.Sorting.Columns.{IsOrder, sort_rows-Ordered}
use quantum_database.Query.Statements.{
  Database, ParsedQuery, delete, insert_type, exec_delete, exec_select,
}
use quantum_database.Query.Statements.Deleting.{select_where, exec_delete-exec_select}

-- Floats of whole units
abbrev whole_floats : Floats ℤ
whole_floats = record {
  of_text = λ s. none;
  show = int_text;
  eq = eqb_ℤ;
  lt = ltb_ℤ;
  eq_int = eqb_ℤ;
  lt_int = ltb_ℤ;
  int_lt = ltb_ℤ;
  plus = λ x y. x +ℤ y;
  of_int = λ n. n;
  over = λ x n. x;
}

instance abbrev floats : Floats ℤ
floats = whole_floats

asymmetric : (m n : ℤ) → ltb_ℤ m n ≡ true → ltb_ℤ n m ≡ false
asymmetric m n h = ground (arith, h)

abbrev order : IsOrder whole_floats
order = record {
  lt_asym = asymmetric;
  lt_int_asym = asymmetric;
  int_lt_asym = λ x n. asymmetric n x;
}

abbrev person : String → ℕ → Row ℤ
person name age = ("name", str name) ∷ ("age", int (pos age)) ∷ []

abbrev people : List (Row ℤ)
people = person "ada" 36 ∷ person "bob" 17 ∷ person "cy" 52 ∷ []

abbrev pets : List (Row ℤ)
pets = (("pet", str "rex") ∷ ("owner", str "cy") ∷ []) ∷ []

abbrev db : Database ℤ
db = ("people", people) ∷ ("pets", pets) ∷ []

abbrev adult : Cond
adult = comparison "age" ">=" (whole_literal (pos 18))

-- `SELECT name FROM people WHERE age >= 18 ORDER BY age DESC LIMIT 1`, sorted before it is projected
abbrev oldest : Plan ℤ
oldest =
    project_on (limit (sort (filter (scan people) (some adult)) (("age", true) ∷ [])) 1)
      (some ("name" ∷ []))

meaning-oldest : meaning oldest ≡ ok ((("name", str "cy") ∷ []) ∷ [])
unfolding meaning filter_all holds lookup sort_rows project insert
meaning-oldest = refl

run-meaning_example :
    (st : State oldest) × (run oldest (start oldest) ≡ ok ((("name", str "cy") ∷ []) ∷ [], st))
run-meaning_example =
    run-meaning oldest (start oldest) ((("name", str "cy") ∷ []) ∷ []) meaning-oldest

abbrev delete_adults : ParsedQuery ℤ
delete_adults = record (select_where "people" (some adult)) { query_type = delete }

abbrev left_over : Database ℤ
left_over = ("people", person "bob" 17 ∷ []) ∷ ("pets", pets) ∷ []

deleted : exec_delete db delete_adults ≡ ok (left_over, person "ada" 36 ∷ person "cy" 52 ∷ [])
unfolding exec_delete insert lookup
deleted = refl

exec_delete-exec_select_example :
    (exec_select db (select_where "people" (some adult))
      ≡ ok (person "ada" 36 ∷ person "cy" 52 ∷ []))
    × (exec_select left_over (select_where "people" (some adult)) ≡ ok [])
exec_delete-exec_select_example =
    exec_delete-exec_select db left_over delete_adults (person "ada" 36 ∷ person "cy" 52 ∷ [])
      deleted

abbrev insert_dee : ParsedQuery ℤ
insert_dee = record (select_where "people" none) {
  query_type = insert_type;
  columns = "name" ∷ "age" ∷ [];
  values = str "dee" ∷ int (pos 8) ∷ [];
}

abbrev owns : Cond
owns = comparison "owner" "=" (text "cy")

join_rows-product_example :
    join_rows "INNER JOIN" (some owns) pets people people
    ≡ filter_all (holds (some owns)) (product people pets)
join_rows-product_example = join_rows-product "INNER JOIN" (some owns) pets people people refl refl

abbrev by_age : List (Row ℤ)
by_age = person "bob" 17 ∷ person "ada" 36 ∷ person "cy" 52 ∷ []

sorted : sort_rows (("age", false) ∷ []) people ≡ ok by_age
unfolding sort_rows lookup
sorted = refl

sort_rows-Ordered_example : Permᴰ people by_age × Ordered (row_less ("age", false)) by_age
sort_rows-Ordered_example = sort_rows-Ordered order ("age", false) [] people by_age sorted

abbrev condition : Cond
condition = or (and adult owns) (among "age" (whole_literal (pos 7) ∷ []) true)

parse-print_example : parse (print any condition) ≡ ok (some condition)
parse-print_example = parse-print condition (((refl, tt), (refl, tt)), (tt, tt))

parse-ne-unfinished_example : parse (ident "age" ∷ op ">" ∷ lparen ∷ []) ≢ unfinished
parse-ne-unfinished_example = parse-ne-unfinished (ident "age" ∷ op ">" ∷ lparen ∷ [])

-- A parameter with the start of a comment is cut, and the literal does not end.
comment_cut :
    strip_comments (substitute_params "name = :n" (("n", Param.text "a--b") ∷ [])) ≡ "name = 'a"
unfolding strip_comments substitute_params
comment_cut = refl

-- A comment within a parameter is removed.
comment_removed :
    strip_comments (substitute_params "name = :n" (("n", Param.text "a/*x*/b") ∷ []))
    ≡ "name = 'ab'"
unfolding strip_comments substitute_params
comment_removed = refl

-- A later parameter takes its place in the text of an earlier one, and its quotes end that literal.
replaced_within :
    substitute_params "a = :x" (("x", Param.text ":y") ∷ ("y", Param.text " OR 1=1 ") ∷ [])
    ≡ "a = '' OR 1=1 ''"
unfolding substitute_params
replaced_within = refl

-- The quotes of a parameter are doubled, and a key that another begins with is replaced in it.
quotes_doubled :
    substitute_params "a = :x OR b = :xy" (("x", Param.text "o'c") ∷ ("xy", Param.null) ∷ [])
    ≡ "a = 'o''c' OR b = 'o''c'y"
unfolding substitute_params
quotes_doubled = refl

-- A NULL in a list of values is dropped.
null_dropped :
    parse (ident "age" ∷ keyword in_kw ∷ lparen ∷ keyword null_kw ∷ comma ∷ ident "x" ∷ rparen ∷ [])
    ≡ ok (some (among "age" (text "x" ∷ []) false))
unfolding parse
null_dropped = refl
