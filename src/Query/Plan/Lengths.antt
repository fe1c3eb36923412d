-- ===== src/Query/Plan/Lengths.antt =====
-- How many rows each operator can give, from how many it is given.
use quantum_database.Prelude.{
  ℕ, zero, suc, ◌+◌, ◌*◌, ◌≤◌, ◌≡◌, refl, subst, String, Bool, true, false, List, [], ◌∷◌, ◌++◌,
  map, take, length, length-append, Option, if◌then◌else◌, if_ind, arith,
}
use quantum_database.Query.Result.{Result, ok, ◌>>=◌, bind-ok, ok_inj}
use quantum_database.Query.Where.{Cond}
use quantum_database.Query.Rows.{Floats, Value, Row}
use quantum_database.Query.Plan.Tables.{
  filter_all, insert_sorted, sort_by, sort_rows, row_less, Spec, left_part, right_part, join_rows,
  matches, or_blank, blank, merge, holds, keeps_left, keeps_right, is_matched,
}
use quantum_database.Query.Plan.Groups.{
  Groups, add_to_group, group_rows, group_row, group_results, aggregate_rows, same_key, get_key,
}

pub length-map : {A B : Type 0} (f : A → B) (xs : List A) → length (map f xs) ≡ length xs
length-map f [] = refl
length-map f (x ∷ xs) = omega (arith, length-map f xs)

pub length-take : {A : Type 0} (n : ℕ) (xs : List A) → length (take n xs) ≤ length xs
length-take zero xs = omega arith
length-take (suc n) [] = omega arith
length-take (suc n) (x ∷ xs) = omega (arith, length-take n xs)

-- The last steps of two loops: an element may be added to what is left.
kept_le :
    {A : Type 0} (b : Bool) (x : A) (ys : List A)
    → length (if b then x ∷ ys else ys) ≤ suc (length ys)
kept_le {A = A} b x ys =
    if_ind {A = List A} (λ zs. length zs ≤ suc (length ys)) b (λ _. omega arith) (λ _. omega arith)

module _ {A : Type 0} where
  pub length-filter_all :
      (p : A → Result Bool) (xs : List A) {ys : List A}
      → filter_all p xs ≡ ok ys
      → length ys ≤ length xs
  unfolding filter_all
  length-filter_all p [] h = subst (λ zs. length zs ≤ 0) (ok_inj h) (omega arith)
  length-filter_all p (x ∷ xs) h =
      let (b, q, h1) = bind-ok {r = p x} h in
      let (zs, q1, h2) = bind-ok {r = filter_all p xs} h1 in
      subst (λ ys. length ys ≤ suc (length xs)) (ok_inj h2)
        (omega (arith, kept_le b x zs, length-filter_all p xs q1))

  placed :
      (b : Bool) (x y : A) (xs : List A) (later : Result (List A)) {ys : List A}
      → ((zs : List A) → later ≡ ok zs → length zs ≡ suc (length xs))
      → (if b then (later >>= λ zs. ok (y ∷ zs)) else ok (x ∷ y ∷ xs)) ≡ ok ys
      → length ys ≡ suc (suc (length xs))
  placed true x y xs later le h =
      let (zs, q, h1) = bind-ok {r = later} h in
      subst (λ ys. length ys ≡ suc (suc (length xs))) (ok_inj h1) (omega (arith, le zs q))
  placed false x y xs later le h = subst (λ ys. length ys ≡ suc (suc (length xs))) (ok_inj h) refl

  length-insert_sorted :
      (before : A → A → Result Bool) (x : A) (xs : List A) {ys : List A}
      → insert_sorted before x xs ≡ ok ys
      → length ys ≡ suc (length xs)
  unfolding insert_sorted
  length-insert_sorted before x [] h = subst (λ ys. length ys ≡ 1) (ok_inj h) refl
  length-insert_sorted before x (y ∷ xs) h =
      let (b, q, h1) = bind-ok {r = before y x} h in
      placed b x y xs (insert_sorted before x xs) (λ zs q. length-insert_sorted before x xs q) h1

  length-sort_by :
      (before : A → A → Result Bool) (xs : List A) {ys : List A}
      → sort_by before xs ≡ ok ys
      → length ys ≡ length xs
  unfolding sort_by
  length-sort_by before [] h = subst (λ ys. length ys ≡ 0) (ok_inj h) refl
  length-sort_by before (x ∷ xs) h =
      let (zs, q, h1) = bind-ok {r = sort_by before xs} h in
      omega (arith, length-insert_sorted before x zs h1, length-sort_by before xs q)

module _ {F : Type 0} ⦃fl : Floats F⦄ where
  pub length-sort_rows :
      (specs : List Spec) (rows : List (Row F)) {out : List (Row F)}
      → sort_rows specs rows ≡ ok out
      → length out ≡ length rows
  unfolding sort_rows
  length-sort_rows [] rows h = subst (λ ys. length ys ≡ length rows) (ok_inj h) refl
  length-sort_rows (spec ∷ specs) rows h =
      let (zs, q, h1) = bind-ok {r = sort_rows specs rows} h in
      omega (arith, length-sort_by (row_less spec) zs h1, length-sort_rows specs rows q)

  add_to_group-le :
      (k : List (Value F)) (row : Row F) (gs : Groups F)
      → length (add_to_group k row gs) ≤ suc (length gs)
  unfolding add_to_group
  add_to_group-le k row [] = omega arith
  add_to_group-le k row ((q, rows) ∷ gs) =
      if_ind {A = Groups F} (λ hs. length hs ≤ suc (suc (length gs))) (same_key q k)
        (λ _. omega arith) (λ _. omega (arith, add_to_group-le k row gs))

  group_rows-le :
      (by : List String) (rows : List (Row F)) (gs : Groups F)
      → length (group_rows by rows gs) ≤ length rows + length gs
  unfolding group_rows
  group_rows-le by [] gs = omega arith
  group_rows-le by (row ∷ rows) gs =
      let k = get_key by row in
      omega (arith, group_rows-le by rows (add_to_group k row gs), add_to_group-le k row gs)

  group_results-le :
      (by cols : List String) (having : Option Cond) (gs : Groups F) {out : List (Row F)}
      → group_results by cols having gs ≡ ok out
      → length out ≤ length gs
  unfolding group_results
  group_results-le by cols having [] h = subst (λ ys. length ys ≤ 0) (ok_inj h) (omega arith)
  group_results-le by cols having (g ∷ gs) h =
      let (r, q, h1) = bind-ok {r = group_row by cols having g} h in
      let (rest, q1, h2) = bind-ok {r = group_results by cols having gs} h1 in
      subst (λ ys. length ys ≤ suc (length gs)) (ok_inj h2)
        (omega (arith, kept_le r.1 r.0 rest, group_results-le by cols having gs q1))

  pub aggregate_rows-le :
      (by cols : List String) (having : Option Cond) (rows : List (Row F)) {out : List (Row F)}
      → aggregate_rows by cols having rows ≡ ok out
      → length out ≤ length rows
  unfolding aggregate_rows
  aggregate_rows-le by cols having rows h =
      omega
        (arith, group_results-le by cols having (group_rows by rows []) h, group_rows-le by rows [])

  or_blank-le :
      (keep : Bool) (row : Row F) (found : List (Row F)) (n : ℕ)
      → length found ≤ n
      → length (or_blank keep row found) ≤ suc n
  or_blank-le true row [] n h = omega arith
  or_blank-le true row (r ∷ found) n h = omega (arith, h)
  or_blank-le false row found n h = omega (arith, h)

  left_part-le :
      (keep : Bool) (on : Option Cond) (rights lefts : List (Row F)) {out : List (Row F)}
      → left_part keep on rights lefts ≡ ok out
      → length out ≤ length lefts * suc (length rights)
  unfolding left_part
  left_part-le keep on rights [] h =
      subst (λ ys. length ys ≤ 0 * suc (length rights)) (ok_inj h) (omega arith)
  left_part-le keep on rights (left ∷ lefts) h =
      let (found, q, h1) = bind-ok {r = matches on rights left} h in
      let (rest, q1, h2) = bind-ok {r = left_part keep on rights lefts} h1 in
      let row = merge left (blank rights) in
      subst (λ ys. length ys ≤ suc (length lefts) * suc (length rights)) (ok_inj h2)
        (omega (
          arith,
          length-append (or_blank keep row found) rest,
          left_part-le keep on rights lefts q1,
          or_blank-le keep row found (length rights) (
              omega (
                arith,
                length-filter_all (holds on) (map (merge left) rights) q,
                length-map (merge left) rights,
              )),
        ))

  right_part-le :
      (on : Option Cond) (lefts rights : List (Row F)) {out : List (Row F)}
      → right_part on lefts rights ≡ ok out
      → length out ≤ length rights
  unfolding right_part
  right_part-le on lefts [] h = subst (λ ys. length ys ≤ 0) (ok_inj h) (omega arith)
  right_part-le on lefts (right ∷ rights) h =
      let (b, q, h1) = bind-ok {r = is_matched on right lefts} h in
      let (rest, q1, h2) = bind-ok {r = right_part on lefts rights} h1 in
      let row = merge (blank lefts) right in
      subst (λ ys. length ys ≤ suc (length rights)) (ok_inj h2)
        (if_ind {A = List (Row F)} (λ zs. length zs ≤ suc (length rights)) b
          (λ _. omega (arith, right_part-le on lefts rights q1))
          (λ _. omega (arith, right_part-le on lefts rights q1)))

  joined :
      (on : Option Cond) (again rights : List (Row F)) (b : Bool) (found : List (Row F)) (n : ℕ)
      {out : List (Row F)}
      → length found ≤ n
      → (if b then (right_part on again rights >>= λ rest. ok (found ++ rest)) else ok found)
        ≡ ok out
      → length out ≤ n + length rights
  joined on again rights true found n le h =
      let (rest, q, h1) = bind-ok {r = right_part on again rights} h in
      subst (λ ys. length ys ≤ n + length rights) (ok_inj h1)
        (omega (arith, length-append found rest, right_part-le on again rights q, le))
  joined on again rights false found n le h =
      subst (λ ys. length ys ≤ n + length rights) (ok_inj h) (omega (arith, le))

  pub join_rows-le :
      (kind : String) (on : Option Cond) (rights lefts again : List (Row F)) {out : List (Row F)}
      → join_rows kind on rights lefts again ≡ ok out
      → length out ≤ length lefts * suc (length rights) + length rights
  unfolding join_rows
  join_rows-le kind on rights lefts again h =
      let (found, q, h1) = bind-ok {r = left_part (keeps_left kind) on rights lefts} h in
      joined on again rights (keeps_right kind) found (length lefts * suc (length rights))
        (left_part-le (keeps_left kind) on rights lefts q) h1
