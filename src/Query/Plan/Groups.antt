-- ===== src/Query/Plan/Groups.antt =====
-- qndb/interface/query_executor.py: `AggregateOperator` on the rows that it has gathered.
use Prim.Native.Char.{code}
use quantum_database.Prelude.{
  ℕ, String, Bool, true, false, ◌&&◌, List, [], ◌∷◌, ◌++◌, map, Option, none, some, if◌then◌else◌,
  ◌==◌, nat_key, string_key, pos, ◌+ℤ◌, filter, length, lookup, insert,
}
use quantum_database.Query.Result.{Result, ok, failed, ◌>>=◌}
use quantum_database.Query.Lexer.{is, is_word, upper, span}
use quantum_database.Query.Where.{Cond}
use quantum_database.Query.Rows.{
  Floats, Value, Row, Number, exact, approx, missing, int, real, number, same_value, less, get,
}
use quantum_database.Query.Plan.Tables.{merge, holds}

-- The names of the aggregate functions
pub data Func : Type 0 where
  count sum avg least greatest : Func

-- What follows a prefix, in any case
abbrev after : (prefix : String) → String → Option String
after String.[] s = some s
after (String.◌∷◌ p ps) String.[] = none
after (String.◌∷◌ p ps) (String.◌∷◌ c s) =
    let rest = after ps s in if upper (code c) == code p then rest else none

abbrev or_else : {A : Type 0} → Option A → Option A → Option A
or_else none b = b
or_else (some a) b = some a

abbrev with_func : Func → Option String → Option (Func × String)
with_func f none = none
with_func f (some s) = some (f, s)

-- The function's name with its opening parenthesis, and what follows
unfoldable pub func_prefix : String → Option (Func × String)
func_prefix s = or_else (with_func count (after "COUNT(" s)) (
    or_else (with_func sum (after "SUM(" s)) (
      or_else (with_func avg (after "AVG(" s))
        (or_else (with_func least (after "MIN(" s)) (with_func greatest (after "MAX(" s)))))

abbrev closed : Func → String × String → Option (Func × String)
closed f (String.[], rest) = none
closed f (arg, String.[]) = none
closed f (arg, String.◌∷◌ c rest) = if is c 41 then some (f, arg) else none

abbrev argument : Func → String → Option (Func × String)
argument f (String.◌∷◌ a (String.◌∷◌ c rest)) =
    let word = closed f (span is_word (String.◌∷◌ a (String.◌∷◌ c rest))) in
    if is a 42 && is c 41 then some (f, "*") else word
argument f s = none

-- The match of `_AGG_RE`
unfoldable pub agg_of : String → Option (Func × String)
unfolding func_prefix span
agg_of s = elim (func_prefix s) [ none ↦ none | some e ↦ argument e.0 e.1 ]

abbrev pub Groups : Type 0 → Type 0
Groups F = List (List (Value F) × List (Row F))

abbrev pub absent : {A : Type 0} → Option A → Bool
absent none = true
absent (some a) = false

module _ {F : Type 0} ⦃fl : Floats F⦄ where
  abbrev pub same_key : List (Value F) → List (Value F) → Bool
  same_key [] [] = true
  same_key (v ∷ vs) (w ∷ ws) = same_value v w && same_key vs ws
  same_key _ _ = false

  -- `groups.setdefault(key, []).append(row)`
  unfoldable pub add_to_group : List (Value F) → Row F → Groups F → Groups F
  unfolding same_value
  add_to_group k row [] = (k, row ∷ []) ∷ []
  add_to_group k row ((q, rows) ∷ gs) =
      let rest = add_to_group k row gs in
      if same_key q k then (q, rows ++ row ∷ []) ∷ gs else (q, rows) ∷ rest

  abbrev pub get_key : (group_by : List String) → Row F → List (Value F)
  get_key group_by row = map (λ g. get g row) group_by

  unfoldable pub group_rows : (group_by : List String) → List (Row F) → Groups F → Groups F
  unfolding add_to_group
  group_rows group_by [] gs = gs
  group_rows group_by (row ∷ rows) gs =
      group_rows group_by rows (add_to_group (get_key group_by row) row gs)

  abbrev is_given : Value F → Bool
  is_given missing = false
  is_given v = true

  abbrev add_numbers : Option (Number F) → Option (Number F) → Result (Value F)
  add_numbers (some (exact m)) (some (exact n)) = ok (int (m +ℤ n))
  add_numbers (some (exact m)) (some (approx y)) = ok (real (fl.plus (fl.of_int m) y))
  add_numbers (some (approx x)) (some (exact n)) = ok (real (fl.plus x (fl.of_int n)))
  add_numbers (some (approx x)) (some (approx y)) = ok (real (fl.plus x y))
  add_numbers _ _ = failed

  -- `sum`, from the left
  abbrev total : Value F → List (Value F) → Result (Value F)
  total acc [] = ok acc
  total acc (v ∷ vs) = add_numbers (number acc) (number v) >>= λ s. total s vs

  abbrev ratio : Option (Number F) → ℕ → Result (Value F)
  ratio none n = failed
  ratio (some (exact m)) n = ok (real (fl.over (fl.of_int m) n))
  ratio (some (approx x)) n = ok (real (fl.over x n))

  -- `min` and `max`: the first of the extreme values
  abbrev extreme : (Value F → Value F → Result Bool) → Value F → List (Value F) → Result (Value F)
  extreme before best [] = ok best
  extreme before best (v ∷ vs) = before v best >>= λ b. extreme before (if b then v else best) vs

  abbrev of_values : Func → List (Value F) → Result (Value F)
  of_values f [] = ok missing
  of_values count vs = ok missing
  of_values sum vs = total (int (pos 0)) vs
  of_values avg vs = total (int (pos 0)) vs >>= λ s. ratio (number s) (length vs)
  of_values least (v ∷ vs) = extreme less v vs
  of_values greatest (v ∷ vs) = extreme (λ a b. less b a) v vs

  abbrev given : String → List (Row F) → List (Value F)
  given arg rows = filter is_given (map (get arg) rows)

  -- `_compute_agg`
  unfoldable pub compute_agg : Func → String → List (Row F) → Result (Value F)
  unfolding less
  compute_agg count arg rows =
      ok (int (pos (if arg == "*" then length rows else length (given arg rows))))
  compute_agg f arg rows = of_values f (given arg rows)

  abbrev first : List (Row F) → Row F
  first [] = []
  first (row ∷ rows) = row

  -- One column of the SELECT list
  unfoldable pub add_column : String → List (Row F) → Row F → Result (Row F)
  unfolding agg_of compute_agg merge
  add_column col rows out = elim (agg_of col) [
    | some e ↦ compute_agg e.0 e.1 rows >>= λ v. ok (insert col v out)
    | none ↦
        if col == "*"
        then ok (merge out (first rows))
        else if absent (lookup col out)
        then ok (insert col (get col (first rows)) out)
        else ok out
  ]

  abbrev add_columns : List String → List (Row F) → Row F → Result (Row F)
  add_columns [] rows out = ok out
  add_columns (col ∷ cols) rows out = add_column col rows out >>= add_columns cols rows

  abbrev key_columns : List String → List (Value F) → Row F → Row F
  key_columns (g ∷ gs) (v ∷ vs) out = key_columns gs vs (insert g v out)
  key_columns _ _ out = out

  -- The row of a group, if HAVING lets it through
  unfoldable pub group_row :
      (group_by columns : List String)
      → Option Cond
      → List (Value F) × List (Row F)
      → Result (Row F × Bool)
  unfolding add_column holds
  group_row group_by cols having (key, rows) =
      add_columns cols rows (key_columns group_by key []) >>= λ out.
      holds having out >>= λ b. ok (out, b)

  unfoldable pub group_results :
      (group_by columns : List String) → Option Cond → Groups F → Result (List (Row F))
  unfolding group_row
  group_results group_by cols having [] = ok []
  group_results group_by cols having (g ∷ gs) = group_row group_by cols having g >>= λ (out, b).
      group_results group_by cols having gs >>= λ rest. ok (if b then out ∷ rest else rest)

  -- What `AggregateOperator.open` makes of the rows
  unfoldable pub aggregate_rows :
      (group_by columns : List String) → Option Cond → List (Row F) → Result (List (Row F))
  unfolding group_rows group_results
  aggregate_rows group_by cols having rows =
      group_results group_by cols having (group_rows group_by rows [])
