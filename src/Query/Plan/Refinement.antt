-- ===== src/Query/Plan/Refinement.antt =====
-- The machines of the operators implement the algebra: pulling the rows of a plan gives what the plan means.
use quantum_database.Prelude.{
  ℕ, zero, suc, ◌+◌, ◌*◌, ◌≤◌, ◌<◌, ◌≡◌, refl, sym, ap, subst, ◌∙◌, String, true, false, List, [],
  ◌∷◌, take, length, Option, none, some, leb, arith, Bool-cases, inl, inr,
}
use quantum_database.Query.Result.{Result, ok, bind-ok, ok_inj}
use quantum_database.Query.Where.{Cond}
use quantum_database.Query.Rows.{Floats, Row}
use quantum_database.Query.Plan.Tables.{project, join_rows, holds, keeps_right}
use quantum_database.Query.Plan.{
  Plan, scan, filter, project_on, sort, limit, aggregate, join, State, bound, at, advance, next,
  open_plan, pull, run,
}
use quantum_database.Query.Plan.Algebra.{meaning, project_all}
use quantum_database.Query.Plan.Lengths.{
  length-map, length-take, length-filter_all, length-sort_rows, aggregate_rows-le, join_rows-le,
}
use quantum_database.Query.Plan.Yields.{Yields, done, more, drain-Yields, filter_next-Yields}

-- A machine with an index into a list yields the rest of the list.
cursor-Yields :
    {S R : Type 0} (next : S → Result (Option R × S)) (rows : List R) (c : ℕ → S)
    → ((i : ℕ) → next (c i) ≡ ok (at rows i, c (advance (at rows i) i)))
    → (i : ℕ) (rest : List R) → ((j : ℕ) → at rows (j + i) ≡ at rest j)
    → Yields next (c i) rest
cursor-Yields next rows c step i [] h =
    done {st' = c i}
      (step i ∙ ap (λ o. ok (o, c (advance o i))) (sym (ap (at rows) (omega arith)) ∙ h 0))
cursor-Yields next rows c step i (r ∷ rest) h =
    more {st' = c (suc i)}
      (step i ∙ ap (λ o. ok (o, c (advance o i))) (sym (ap (at rows) (omega arith)) ∙ h 0))
      (cursor-Yields next rows c step (suc i) rest λ j. ap (at rows) (omega arith) ∙ h (suc j))

leb-true : (a b : ℕ) → a ≤ b → leb a b ≡ true
leb-true a b h = ground arith

leb-false : (a b : ℕ) → b < a → leb a b ≡ false
leb-false a b h = ground arith

times_le : (k : ℕ) {m n : ℕ} → m ≤ n → m * k ≤ n * k
times_le zero h = omega arith
times_le (suc k) {m} {n} h = omega (arith, times_le k h)

module _ {F : Type 0} ⦃fl : Floats F⦄ where
  project-Yields :
      (c : Plan F) (cols : Option (List String)) {st : State c} {rows : List (Row F)}
      → Yields (next c) st rows
      → Yields (next (project_on c cols)) st (project_all cols rows)
  unfolding next
  project-Yields c none (done {st} {st'} e) = done {st' = st'} (rw e)
  project-Yields c (some cols) (done {st} {st'} e) = done {st' = st'} (rw e)
  project-Yields c none (more {st} {st'} e y) = more {st' = st'} (rw e) (project-Yields c none y)
  project-Yields c (some cols) (more {st} {st'} e y) =
      more {st' = st'} (rw e) (project-Yields c (some cols) y)

  -- `left` of the limit's `n` rows are to come.
  limit-Yields :
      (c : Plan F) (n left count : ℕ) {st : State c} {rows : List (Row F)}
      → left + count ≡ n
      → Yields (next c) st rows
      → Yields (next (limit c n)) (st, count) (take left rows)
  unfolding next
  limit-Yields c n zero count {st = st} h y =
      done {st' = (st, count)} (rw (leb-true n count (omega arith)))
  limit-Yields c n (suc left) count h (done {st} {st'} e) =
      done {st' = (st', count)} (rw (leb-false n count (omega arith), e))
  limit-Yields c n (suc left) count h (more {st} {st'} {r} {rs} e y) =
      more {st' = (st', suc count)} (rw (leb-false n count (omega arith), e))
        (limit-Yields c n left (suc count) (omega arith) y)

  -- `list` of a plan that has been opened
  pull-Yields :
      (p : Plan F) {opened : Result (State p)} {st : State p} {rows : List (Row F)}
      → opened ≡ ok st
      → Yields (next p) st rows
      → length rows ≤ bound p
      → (st' : State p) × (pull p opened ≡ ok (rows, st'))
  pull-Yields p o y le =
      let (st', d) = drain-Yields (next p) (suc (bound p)) y (omega (arith, le)) in (st', rw (o, d))

  -- `project_all` keeps the number of rows.
  length-project_all :
      (cols : Option (List String)) (rows : List (Row F))
      → length (project_all cols rows) ≡ length rows
  length-project_all none rows = refl
  length-project_all (some cols) rows = length-map (project cols) rows

  -- An operator with a buffer yields the buffer.
  buffer-Yields :
      {S : Type 0} (next : S × List (Row F) × ℕ → Result (Option (Row F) × (S × List (Row F) × ℕ)))
      (rows : List (Row F)) (st : S)
      → ((i : ℕ) → next (st, rows, i) ≡ ok (at rows i, (st, rows, advance (at rows i) i)))
      → Yields next (st, rows, 0) rows
  buffer-Yields next rows st step =
      cursor-Yields next rows (λ i. (st, rows, i)) step 0 rows λ j. ap (at rows) (omega arith)

  -- An opened plan yields its meaning.
  abbrev Opens : (p : Plan F) → State p → List (Row F) → Type 0
  Opens p st rows =
      (st' : State p) × (open_plan p st ≡ ok st')
      × Yields (next p) st' rows
      × (length rows ≤ bound p)

  pulls :
      (p : Plan F) (st : State p) {rows : List (Row F)}
      → Opens p st rows
      → (st' : State p) × (pull p (open_plan p st) ≡ ok (rows, st'))
  pulls p st h = let (st1, o, y, le) = h in pull-Yields p o y le

  -- Only a join that keeps right rows looks at the left rows again.
  join_rows-again :
      (kind : String) (on : Option Cond) (rights lefts again : List (Row F))
      → keeps_right kind ≡ false
      → join_rows kind on rights lefts again ≡ join_rows kind on rights lefts lefts
  unfolding join_rows
  join_rows-again kind on rights lefts again h = rw h refl

  join-bound :
      (kind : String) (on : Option Cond) (rights lefts again : List (Row F)) (n : ℕ)
      {out : List (Row F)}
      → join_rows kind on rights lefts again ≡ ok out
      → length lefts ≤ n
      → length out ≤ n * suc (length rights) + length rights
  join-bound kind on rights lefts again n h le =
      omega (arith, join_rows-le kind on rights lefts again h, times_le (suc (length rights)) le)

  opens : (p : Plan F) (st : State p) {rows : List (Row F)} → meaning p ≡ ok rows → Opens p st rows
  unfolding meaning open_plan next
  opens (scan rs) st h = subst (Opens (scan rs) st) (ok_inj h) (
    0,
    refl,
    cursor-Yields (next (scan rs)) rs (λ i. i) (λ i. refl) 0 rs (λ j. ap (at rs) (omega arith)),
    omega arith,
  )
  opens (filter c t) st {rows} h =
      let (rs, q, h1) = bind-ok {r = meaning c} h in
      let (st1, o, y, le) = opens c st q in
      (
        st1,
        o,
        filter_next-Yields (next c) (holds t) (suc (bound c)) y h1 (omega (arith, le)),
        omega (arith, le, length-filter_all (holds t) rs h1),
      )
  opens (project_on c cols) st h =
      let (rs, q, h1) = bind-ok {r = meaning c} h in
      let (st1, o, y, le) = opens c st q in
      subst (Opens (project_on c cols) st) (ok_inj h1)
        (st1, o, project-Yields c cols y, omega (arith, le, length-project_all cols rs))
  opens (sort c specs) (st, old, i) {rows} h =
      let (rs, q, h1) = bind-ok {r = meaning c} h in
      let (st1, o, _, le) = opens c st q in
      let (st2, d) = pulls c st1 (opens c st1 q) in
      (
        (st2, rows, 0),
        rw (o, d, h1),
        buffer-Yields (next (sort c specs)) rows st2 (λ i. refl),
        omega (arith, le, length-sort_rows specs rs h1),
      )
  opens (limit c n) (st, count) h =
      let (rs, q, h1) = bind-ok {r = meaning c} h in
      let (st1, o, y, le) = opens c st q in
      subst (Opens (limit c n) (st, count)) (ok_inj h1)
        ((st1, 0), rw o, limit-Yields c n n 0 (omega arith) y, omega (arith, le, length-take n rs))
  opens (aggregate c by cols having) (st, old, i) {rows} h =
      let (rs, q, h1) = bind-ok {r = meaning c} h in
      let (st1, o, _, le) = opens c st q in
      let (st2, d) = pulls c st1 (opens c st1 q) in
      (
        (st2, rows, 0),
        rw (o, d, h1),
        buffer-Yields (next (aggregate c by cols having)) rows st2 (λ i. refl),
        omega (arith, le, aggregate_rows-le by cols having rs h1),
      )
  opens (join l right_rows kind on) (st, old, i) {rows} h =
      let (rs, q, h1) = bind-ok {r = meaning l} h in
      let (st1, o, _, le) = opens l st q in
      let (st2, d) = pulls l st1 (opens l st1 q) in
      let (st3, d') = pulls l st2 (opens l st2 q) in
      elim (Bool-cases (keeps_right kind)) [
        | inl keeps ↦ (
          (st3, rows, 0),
          rw (o, d, keeps, d', h1),
          buffer-Yields (next (join l right_rows kind on)) rows st3 (λ i. refl),
          join-bound kind on right_rows rs rs (bound l) h1 le,
        )
        | inr drops ↦ (
          (st2, rows, 0),
          rw (o, d, drops, join_rows-again kind on right_rows rs [] drops, h1),
          buffer-Yields (next (join l right_rows kind on)) rows st2 (λ i. refl),
          join-bound kind on right_rows rs rs (bound l) h1 le,
        )
      ]

  -- Where a plan means rows, pulling all rows from its operators, in whatever state they are, ends and
  -- gives these rows in this order.
  pub run-meaning :
      (p : Plan F) (st : State p) (rows : List (Row F))
      → meaning p ≡ ok rows
      → (st' : State p) × (run p st ≡ ok (rows, st'))
  unfolding run
  run-meaning p st rows h = pulls p st (opens p st h)
