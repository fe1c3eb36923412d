-- ===== src/Query/Plan.antt =====
-- qndb/interface/query_executor.py: the operators of a query plan as machines. `Plan` is what a tree of
-- operators is built with, `State` what its objects change while rows are pulled from it.
pub mod Tables
pub mod Groups
pub mod Algebra
pub mod Lengths
pub mod Yields
pub mod Refinement
pub mod Joins
pub mod Sorting
use quantum_database.Prelude.{
  ℕ, zero, suc, ◌+◌, ◌*◌, String, Bool, true, false, List, [], ◌∷◌, Option, none, some,
  if◌then◌else◌, leb, length,
}
use quantum_database.Query.Result.{Result, ok, failed, unfinished, ◌>>=◌}
use quantum_database.Query.Where.{Cond}
use quantum_database.Query.Rows.{Floats, Value, Row, evaluate}
use quantum_database.Query.Plan.Groups.{aggregate_rows}
use quantum_database.Query.Plan.Tables.{project, sort_rows, join_rows, holds, keeps_right, Spec}

-- A filter without a condition, and a projection on `*`, are `none`.
pub data Plan (F : Type 0) : Type 0 where
  scan : List (Row F) → Plan F
  filter : Plan F → Option Cond → Plan F
  project_on : Plan F → Option (List String) → Plan F
  sort : Plan F → List Spec → Plan F
  limit : Plan F → ℕ → Plan F
  aggregate : Plan F → (group_by select_columns : List String) → Option Cond → Plan F
  join : Plan F → (right_rows : List (Row F)) → (join_type : String) → Option Cond → Plan F

-- An index into the rows of a list, a buffer with such an index beside the child's state, or a count.
abbrev pub State : {F : Type 0} → Plan F → Type 0
State (scan rows) = ℕ
State (filter c t) = State c
State (project_on c cols) = State c
State {F} (sort c specs) = State c × List (Row F) × ℕ
State (limit c n) = State c × ℕ
State {F} (aggregate c group_by cols having) = State c × List (Row F) × ℕ
State {F} (join l right_rows kind on) = State l × List (Row F) × ℕ

-- The state after `__init__`
abbrev pub start : {F : Type 0} → (p : Plan F) → State p
start (scan rows) = 0
start (filter c t) = start c
start (project_on c cols) = start c
start (sort c specs) = (start c, [], 0)
start (limit c n) = (start c, 0)
start (aggregate c group_by cols having) = (start c, [], 0)
start (join l right_rows kind on) = (start l, [], 0)

-- More rows than the plan has no operator below it to give.
abbrev pub bound : {F : Type 0} → Plan F → ℕ
bound (scan rows) = length rows
bound (filter c t) = bound c
bound (project_on c cols) = bound c
bound (sort c specs) = bound c
bound (limit c n) = bound c
bound (aggregate c group_by cols having) = bound c
bound (join l right_rows kind on) = bound l * suc (length right_rows) + length right_rows

-- `self._rows[self._idx]`, where the index is one of the list
abbrev pub at : {A : Type 0} → List A → ℕ → Option A
at [] n = none
at (x ∷ xs) zero = some x
at (x ∷ xs) (suc n) = at xs n

abbrev pub advance : {A : Type 0} → Option A → ℕ → ℕ
advance none n = n
advance (some x) n = suc n

module _ {ℓ} {S : Type ℓ} {R : Type 0} (next : S → Result (Option R × S)) where
  -- The loop of `FilterOperator.next`
  unfoldable pub filter_next : (R → Result Bool) → ℕ → S → Result (Option R × S)
  filter_next p zero st = unfinished
  filter_next p (suc f) st = next st >>= λ (r, st1). elim r [
    | none ↦ ok (none, st1)
    | some row ↦
        let rest = filter_next p f st1 in p row >>= λ b. if b then ok (some row, st1) else rest
  ]

  -- The loop of `Operator.__iter__`, as `list` runs it
  unfoldable pub drain : ℕ → S → Result (List R × S)
  drain zero st = unfinished
  drain (suc f) st = next st >>= λ (r, st1). elim r [
    | none ↦ ok ([], st1)
    | some row ↦ drain f st1 >>= λ (rows, st2). ok (row ∷ rows, st2)
  ]

module _ {F : Type 0} ⦃fl : Floats F⦄ where
  abbrev buffer_next :
      {S : Type 0} → S × List (Row F) × ℕ → Result (Option (Row F) × (S × List (Row F) × ℕ))
  buffer_next (st, rows, i) = ok (at rows i, (st, rows, advance (at rows i) i))

  abbrev project_row : Option (List String) → Option (Row F) → Option (Row F)
  project_row cols none = none
  project_row none (some row) = some row
  project_row (some cols) (some row) = some (project cols row)

  -- `next`
  unfoldable pub next : (p : Plan F) → State p → Result (Option (Row F) × State p)
  unfolding filter_next
  next (scan rows) i = ok (at rows i, advance (at rows i) i)
  next (filter c t) st = filter_next (next c) (holds t) (suc (bound c)) st
  next (project_on c cols) st = next c st >>= λ (r, st1). ok (project_row cols r, st1)
  next (sort c specs) st = buffer_next st
  next (limit c n) (st, count) =
      let pulled = next c st >>= λ (r, st1). ok (r, (st1, advance r count)) in
      if leb n count then ok (none, (st, count)) else pulled
  next (aggregate c group_by cols having) st = buffer_next st
  next (join l right_rows kind on) st = buffer_next st

  -- `list(child)`, where `opened` is the child's `open`
  abbrev pull : (p : Plan F) → Result (State p) → Result (List (Row F) × State p)
  pull p opened = opened >>= λ st. drain (next p) (suc (bound p)) st

  -- `open`. An operator that gathers its child's rows opens the child, which `list` opens once more; a
  -- join runs through the left rows again for the outer joins that keep right rows.
  unfoldable pub open_plan : (p : Plan F) → State p → Result (State p)
  unfolding drain next
  open_plan (scan rows) i = ok 0
  open_plan (filter c t) st = open_plan c st
  open_plan (project_on c cols) st = open_plan c st
  open_plan (sort c specs) (st, old, i) = open_plan c st >>= λ st1.
      pull c (open_plan c st1) >>= λ (rows, st2).
      sort_rows specs rows >>= λ sorted. ok (st2, sorted, 0)
  open_plan (limit c n) (st, count) = open_plan c st >>= λ st1. ok (st1, 0)
  open_plan (aggregate c group_by cols having) (st, old, i) = open_plan c st >>= λ st1.
      pull c (open_plan c st1) >>= λ (rows, st2).
      aggregate_rows group_by cols having rows >>= λ results. ok (st2, results, 0)
  open_plan (join l right_rows kind on) (st, old, i) = open_plan l st >>= λ st1.
      pull l (open_plan l st1) >>= λ (rows, st2).
      (if keeps_right kind then pull l (open_plan l st2) else ok ([], st2)) >>= λ (again, st3).
      join_rows kind on right_rows rows again >>= λ buffer. ok (st3, buffer, 0)

  -- `list(plan)`
  unfoldable pub run : (p : Plan F) → State p → Result (List (Row F) × State p)
  unfolding drain next open_plan
  run p st = pull p (open_plan p st)
