-- ===== src/Query/Plan/Algebra.antt =====
-- What a plan means: the rows of each operator as an operation of relational algebra on whole lists.
use quantum_database.Prelude.{String, List, map, Option, none, some, take}
use quantum_database.Query.Result.{Result, ok, ◌>>=◌}
use quantum_database.Query.Rows.{Floats, Row}
use quantum_database.Query.Plan.Tables.{project, sort_rows, join_rows, filter_all, holds}
use quantum_database.Query.Plan.Groups.{aggregate_rows}
use quantum_database.Query.Plan.{Plan, scan, filter, project_on, sort, limit, aggregate, join}

abbrev pub project_all :
    {F : Type 0} ⦃fl : Floats F⦄ → Option (List String) → List (Row F) → List (Row F)
project_all none rows = rows
project_all (some cols) rows = map (project cols) rows

-- A condition that raises on a row, and columns or keys that cannot be compared, make the meaning fail.
unfoldable pub meaning : {F : Type 0} ⦃fl : Floats F⦄ → Plan F → Result (List (Row F))
meaning (scan rows) = ok rows
meaning (filter c t) = meaning c >>= filter_all (holds t)
meaning (project_on c cols) = meaning c >>= λ rows. ok (project_all cols rows)
meaning (sort c specs) = meaning c >>= sort_rows specs
meaning (limit c n) = meaning c >>= λ rows. ok (take n rows)
meaning (aggregate c group_by cols having) = meaning c >>= aggregate_rows group_by cols having
meaning (join l right_rows kind on) = meaning l >>= λ rows. join_rows kind on right_rows rows rows
