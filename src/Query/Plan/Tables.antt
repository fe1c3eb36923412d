-- ===== src/Query/Plan/Tables.antt =====
-- qndb/interface/query_executor.py: what the operators do with rows that they have gathered: sorting
-- and joins.

use quantum_database.Prelude.{
  String, Bool, true, false, ◌||◌, List, [], ◌∷◌, ◌++◌, map, Option, none, some, if◌then◌else◌,
  ◌==◌, nat_key, string_key, lookup, insert,
}
use quantum_database.Query.Result.{Result, ok, ◌>>=◌}
use quantum_database.Query.Where.{Cond}
use quantum_database.Query.Rows.{Floats, Value, Row, missing, str, same_value, less, evaluate}

-- A column of ORDER BY, and whether its direction is DESC.
abbrev pub Spec : Type 0
Spec = String × Bool

-- A test or a step that may raise, on each element in turn.
module _ {A : Type 0} where
  unfoldable pub filter_all : (A → Result Bool) → List A → Result (List A)
  filter_all p [] = ok []
  filter_all p (x ∷ xs) = p x >>= λ b. filter_all p xs >>= λ ys. ok (if b then x ∷ ys else ys)

  unfoldable pub insert_sorted : (before : A → A → Result Bool) → A → List A → Result (List A)
  insert_sorted before x [] = ok (x ∷ [])
  insert_sorted before x (y ∷ ys) =
      let later = insert_sorted before x ys in
      before y x >>= λ b. if b then (later >>= λ zs. ok (y ∷ zs)) else ok (x ∷ y ∷ ys)

  -- `list.sort`, which is stable
  unfoldable pub sort_by : (A → A → Result Bool) → List A → Result (List A)
  unfolding insert_sorted
  sort_by before [] = ok []
  sort_by before (x ∷ xs) = sort_by before xs >>= λ ys. insert_sorted before x ys

abbrev pub keeps_left : String → Bool
keeps_left kind =
    kind == "LEFT JOIN"
    || kind == "LEFT OUTER JOIN"
    || kind == "FULL JOIN"
    || kind == "FULL OUTER JOIN"

abbrev pub keeps_right : String → Bool
keeps_right kind =
    kind == "RIGHT JOIN"
    || kind == "RIGHT OUTER JOIN"
    || kind == "FULL JOIN"
    || kind == "FULL OUTER JOIN"

module _ {F : Type 0} ⦃fl : Floats F⦄ where
  -- The condition of a filter, a join or HAVING, if there is one
  unfoldable pub holds : Option Cond → Row F → Result Bool
  unfolding evaluate
  holds none row = ok true
  holds (some t) row = evaluate row t

  -- `{col: row.get(col) for col in self.columns if col in row}`
  abbrev project_from : List String → Row F → Row F → Row F
  project_from [] row acc = acc
  project_from (col ∷ cols) row acc =
      project_from cols row (elim (lookup col row) [ none ↦ acc | some v ↦ insert col v acc ])

  unfoldable pub project : List String → Row F → Row F
  project cols row = project_from cols row []

  abbrev key_of : Option (Value F) → Bool × Value F
  key_of none = (true, str "")
  key_of (some missing) = (true, missing)
  key_of (some v) = (false, v)

  -- `(r.get(col) is None, r.get(col, ''))`
  abbrev pub sort_key : String → Row F → Bool × Value F
  sort_key col row = key_of (lookup col row)

  abbrev pub key_less : Bool × Value F → Bool × Value F → Result Bool
  key_less (false, v) (true, w) = ok true
  key_less (true, v) (false, w) = ok false
  key_less (_, v) (_, w) = if same_value v w then ok false else less v w

  unfoldable pub row_less : Spec → Row F → Row F → Result Bool
  unfolding same_value less
  row_less (col, false) r s = key_less (sort_key col r) (sort_key col s)
  row_less (col, true) r s = key_less (sort_key col s) (sort_key col r)

  -- The last column is sorted by first.
  unfoldable pub sort_rows : List Spec → List (Row F) → Result (List (Row F))
  unfolding sort_by row_less
  sort_rows [] rows = ok rows
  sort_rows (spec ∷ specs) rows = sort_rows specs rows >>= sort_by (row_less spec)

  -- `{**left, **right}`
  unfoldable pub merge : Row F → Row F → Row F
  merge left [] = left
  merge left ((k, v) ∷ right) = merge (insert k v left) right

  abbrev pub blank : List (Row F) → Row F
  blank [] = []
  blank (row ∷ rows) = map (λ e. (e.0, missing)) row

  -- The matches of a left row
  abbrev pub matches : Option Cond → List (Row F) → Row F → Result (List (Row F))
  matches on right_rows left = filter_all (holds on) (map (merge left) right_rows)

  abbrev pub or_blank : Bool → Row F → List (Row F) → List (Row F)
  or_blank true row [] = row ∷ []
  or_blank keep row found = found

  -- The first loop of `_materialise`
  unfoldable pub left_part :
      Bool → Option Cond → List (Row F) → List (Row F) → Result (List (Row F))
  unfolding filter_all holds merge
  left_part keep on right_rows [] = ok []
  left_part keep on right_rows (left ∷ lefts) = matches on right_rows left >>= λ found.
      left_part keep on right_rows lefts >>= λ rest.
      ok (or_blank keep (merge left (blank right_rows)) found ++ rest)

  -- `any` over the left rows, which stops at the first that matches
  abbrev pub is_matched : Option Cond → Row F → List (Row F) → Result Bool
  is_matched on right [] = ok false
  is_matched on right (left ∷ lefts) =
      holds on (merge left right) >>= λ b. if b then ok true else is_matched on right lefts

  -- The second loop
  unfoldable pub right_part : Option Cond → List (Row F) → List (Row F) → Result (List (Row F))
  unfolding holds merge
  right_part on lefts [] = ok []
  right_part on lefts (right ∷ rights) = is_matched on right lefts >>= λ found.
      right_part on lefts rights >>= λ rest.
      ok (if found then rest else merge (blank lefts) right ∷ rest)

  -- `_materialise`; `again` is what the left operator gives the second time.
  unfoldable pub join_rows :
      String → Option Cond → (right_rows lefts again : List (Row F)) → Result (List (Row F))
  unfolding left_part right_part
  join_rows kind on right_rows lefts again =
      left_part (keeps_left kind) on right_rows lefts >>= λ found.
      if keeps_right kind
      then (right_part on again right_rows >>= λ rest. ok (found ++ rest))
      else ok found
