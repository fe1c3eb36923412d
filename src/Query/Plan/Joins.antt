-- ===== src/Query/Plan/Joins.antt =====
-- Joins against the product of the tables.
use quantum_database.Prelude.{
  ◌≡◌, refl, sym, ◌∙◌, String, Bool, true, false, List, [], ◌∷◌, ◌++◌, map, All-append, Option,
  none, some, if◌then◌else◌, All, lookup, insert, lookup-insert, string_key, ◌==◌, Bool-cases, inl,
  inr, arith,
}
use quantum_database.Query.Result.{Result, ok, failed, unfinished, ◌>>=◌}
use quantum_database.Query.Where.{Cond, Literal, comparison}
use quantum_database.Query.Rows.{Floats, Row, evaluate, compare_values, coerce, get}
use quantum_database.Query.Plan.Tables.{
  filter_all, left_part, join_rows, merge, holds, keeps_left, keeps_right,
}

-- The rows of two tables, each with each
unfoldable pub product : {F : Type 0} ⦃fl : Floats F⦄ → List (Row F) → List (Row F) → List (Row F)
product [] rights = []
product (left ∷ lefts) rights = map (merge left) rights ++ product lefts rights

module _ {A : Type 0} where
  -- The two orders of gathering rows differ in nothing, whichever step raises.
  gathered :
      (x : A) (b : Result Bool) (xs ys : Result (List A))
      → (b >>= λ c.
          (xs >>= λ us. ys >>= λ vs. ok (us ++ vs)) >>= λ zs. ok (if c then x ∷ zs else zs))
        ≡ ((b >>= λ c. xs >>= λ us. ok (if c then x ∷ us else us)) >>= λ us.
            ys >>= λ vs. ok (us ++ vs))
  gathered x failed xs ys = refl
  gathered x unfinished xs ys = refl
  gathered x (ok c) failed ys = refl
  gathered x (ok c) unfinished ys = refl
  gathered x (ok c) (ok us) failed = refl
  gathered x (ok c) (ok us) unfinished = refl
  gathered x (ok true) (ok us) (ok vs) = refl
  gathered x (ok false) (ok us) (ok vs) = refl

  nothing_more : (ys : Result (List A)) → ys ≡ (ys >>= λ vs. ok vs)
  nothing_more failed = refl
  nothing_more unfinished = refl
  nothing_more (ok vs) = refl

  filter_all-append :
      (p : A → Result Bool) (xs ys : List A)
      → filter_all p (xs ++ ys)
        ≡ (filter_all p xs >>= λ us. filter_all p ys >>= λ vs. ok (us ++ vs))
  unfolding filter_all
  filter_all-append p [] ys = nothing_more (filter_all p ys)
  filter_all-append p (x ∷ xs) ys =
      rw (filter_all-append p xs ys) (gathered x (p x) (filter_all p xs) (filter_all p ys))

module _ {F : Type 0} ⦃fl : Floats F⦄ where
  left_part-product :
      (on : Option Cond) (rights lefts : List (Row F))
      → left_part false on rights lefts ≡ filter_all (holds on) (product lefts rights)
  unfolding left_part product filter_all
  left_part-product on rights [] = refl
  left_part-product on rights (left ∷ lefts) =
      rw
        (
          left_part-product on rights lefts,
          filter_all-append (holds on) (map (merge left) rights) (product lefts rights),
        )
        refl

  -- A join of a kind that keeps no unmatched rows is the product of the two tables, filtered by the
  -- condition. It raises where the filter does.
  pub join_rows-product :
      (kind : String) (on : Option Cond) (rights lefts again : List (Row F))
      → keeps_left kind ≡ false
      → keeps_right kind ≡ false
      → join_rows kind on rights lefts again ≡ filter_all (holds on) (product lefts rights)
  unfolding join_rows
  join_rows-product kind on rights lefts again l r =
      rw (l, r, left_part-product on rights lefts)
        (sym (nothing_more (filter_all (holds on) (product lefts rights))))

  abbrev pub Lacks : String → Row F → Type 0
  Lacks field row = lookup field row ≡ none

  Lacks-merge :
      (field : String) (left right : Row F)
      → Lacks field left
      → Lacks field right
      → Lacks field (merge left right)
  unfolding merge lookup
  Lacks-merge field left [] l r = l
  Lacks-merge field left ((k, v) ∷ right) l r = elim (Bool-cases (k == field)) [
    | inl same ↦ absurd (ground (arith, same, r))
    | inr other ↦
        Lacks-merge field (insert k v left) right (rw (lookup-insert k field v left, other) l)
          (ground (arith, other, r))
  ]

  never :
      (p : Row F → Result Bool) (rows : List (Row F))
      → All (λ row. p row ≡ ok false) rows
      → filter_all p rows ≡ ok []
  unfolding filter_all
  never p [] h = refl
  never p (row ∷ rows) (h, hs) = rw (h, never p rows hs)

  comparison_false :
      (field operator : String) (v : Literal) (row : Row F)
      → Lacks field row
      → holds (some (comparison field operator v)) row ≡ ok false
  unfolding holds evaluate compare_values coerce
  comparison_false field operator v row h = rw (get, h)

  All-merged :
      (field operator : String) (v : Literal) (left : Row F) (rights : List (Row F))
      → Lacks field left
      → All (Lacks field) rights
      → All
          (λ row. holds (some (comparison field operator v)) row ≡ ok false)
          (map (merge left) rights)
  All-merged field operator v left [] l rs = tt
  All-merged field operator v left (right ∷ rights) l (r, rs) = (
    comparison_false field operator v (merge left right) (Lacks-merge field left right l r),
    All-merged field operator v left rights l rs,
  )

  All-product :
      (field operator : String) (v : Literal) (lefts rights : List (Row F))
      → All (Lacks field) lefts
      → All (Lacks field) rights
      → All
          (λ row. holds (some (comparison field operator v)) row ≡ ok false)
          (product lefts rights)
  unfolding product
  All-product field operator v [] rights ls rs = tt
  All-product field operator v (left ∷ lefts) rights (l, ls) rs =
      All-append (λ row. holds (some (comparison field operator v)) row ≡ ok false)
        (map (merge left) rights) (product lefts rights)
        (All-merged field operator v left rights l rs)
        (All-product field operator v lefts rights ls rs)

  -- A join on a comparison of a field that no row of the two tables has, such as a name qualified by its
  -- table, gives no rows, if it is of a kind that keeps no unmatched rows.
  pub join_rows-Lacks :
      (kind field operator : String) (v : Literal) (rights lefts again : List (Row F))
      → keeps_left kind ≡ false
      → keeps_right kind ≡ false
      → All (Lacks field) lefts
      → All (Lacks field) rights
      → join_rows kind (some (comparison field operator v)) rights lefts again ≡ ok []
  join_rows-Lacks kind field operator v rights lefts again l r ls rs =
      join_rows-product kind (some (comparison field operator v)) rights lefts again l r
      ∙ never (holds (some (comparison field operator v))) (product lefts rights)
          (All-product field operator v lefts rights ls rs)
