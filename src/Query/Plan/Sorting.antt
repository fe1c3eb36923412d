-- ===== src/Query/Plan/Sorting.antt =====
-- Sorting as `list.sort` does it.
pub mod Columns
use mathlib.Core.List.{Permᴰ}
use mathlib.Core.List.Permᴰ
use quantum_database.Prelude.{
  ℕ, ◌≡◌, refl, sym, ap, subst, ◌∙◌, String, Bool, true, false, List, [], ◌∷◌, Option, none, some,
  if◌then◌else◌, All, lookup, string_key, arith, ℤ, pos, negsuc,
}
use quantum_database.Query.Result.{Result, ok, failed, unfinished, ◌>>=◌, bind-ok, ok_inj}
use Prim.Native.Char.{Char, code}
use Prim.Native.String
use quantum_database.Query.Rows.{
  Floats, Value, Row, same_value, less, Number, exact, approx, number, number_less, numbers_less,
  missing, truth, int, real, str, group,
}
use quantum_database.Query.Plan.Tables.{
  insert_sorted, sort_by, sort_rows, row_less, sort_key, key_less, Spec,
}
use quantum_database.Query.Plan.Joins.{Lacks}

-- A list is in order if no element comes before the one that it stands right after.
pub data Ordered {A : Type 0} (before : A → A → Result Bool) : List A → Type 0 where
  nil : Ordered before []
  one : {x : A} → Ordered before (x ∷ [])
  step :
      {x y : A} {ys : List A}
      → before y x ≡ ok false
      → Ordered before (y ∷ ys)
      → Ordered before (x ∷ y ∷ ys)

module _ {A : Type 0} (before : A → A → Result Bool) where
  abbrev pub IsAsymmetric : Type 0
  IsAsymmetric = (a b : A) → before a b ≡ ok true → before b a ≡ ok false

  Ordered-tail : {x : A} {xs : List A} → Ordered before (x ∷ xs) → Ordered before xs
  Ordered-tail one = nil
  Ordered-tail (step e o) = o

  Ordered-head : {x y : A} {xs : List A} → Ordered before (x ∷ y ∷ xs) → before y x ≡ ok false
  Ordered-head (step e o) = e

  -- What inserting `x` before or after `y` gives, from what it gives after `y`.
  placed :
      (P : List A → Type 0) (x y : A) (xs : List A) (b : Bool) (later : Result (List A))
      {ys : List A}
      → (b ≡ false → P (x ∷ y ∷ xs))
      → (b ≡ true → (zs : List A) → later ≡ ok zs → P (y ∷ zs))
      → (if b then (later >>= λ zs. ok (y ∷ zs)) else ok (x ∷ y ∷ xs)) ≡ ok ys
      → P ys
  placed P x y xs true later here there h =
      let (zs, q, h1) = bind-ok {r = later} h in subst P (ok_inj h1) (there refl zs q)
  placed P x y xs false later here there h = subst P (ok_inj h) (here refl)

  module _ (asym : IsAsymmetric) where
    -- Below an element that `x` does not come before
    insert_below :
        (y x : A) (xs : List A) {ys : List A}
        → Ordered before (y ∷ xs)
        → before x y ≡ ok false
        → insert_sorted before x xs ≡ ok ys
        → Ordered before (y ∷ ys)
    unfolding insert_sorted
    insert_below y x [] o e h = subst (λ ys. Ordered before (y ∷ ys)) (ok_inj h) (step e one)
    insert_below y x (z ∷ xs) o e h =
        let (b, q, h1) = bind-ok {r = before z x} h in
        placed (λ ys. Ordered before (y ∷ ys)) x z xs b (insert_sorted before x xs)
          (λ f. step e (step (q ∙ ap ok f) (Ordered-tail o)))
          (λ t zs q1.
            step (Ordered-head o)
              (insert_below z x xs (Ordered-tail o) (asym z x (q ∙ ap ok t)) q1))
          h1

    insert_sorted-Ordered :
        (x : A) (xs : List A) {ys : List A}
        → Ordered before xs
        → insert_sorted before x xs ≡ ok ys
        → Ordered before ys
    unfolding insert_sorted
    insert_sorted-Ordered x [] o h = subst (Ordered before) (ok_inj h) one
    insert_sorted-Ordered x (y ∷ xs) o h =
        let (b, q, h1) = bind-ok {r = before y x} h in
        placed (Ordered before) x y xs b (insert_sorted before x xs) (λ f. step (q ∙ ap ok f) o)
          (λ t zs q1. insert_below y x xs o (asym y x (q ∙ ap ok t)) q1) h1

    pub sort_by-Ordered :
        (xs : List A) {ys : List A} → sort_by before xs ≡ ok ys → Ordered before ys
    unfolding sort_by
    sort_by-Ordered [] h = subst (Ordered before) (ok_inj h) nil
    sort_by-Ordered (x ∷ xs) h =
        let (zs, q, h1) = bind-ok {r = sort_by before xs} h in
        insert_sorted-Ordered x zs (sort_by-Ordered xs q) h1

  insert_sorted-Perm :
      (x : A) (xs : List A) {ys : List A} → insert_sorted before x xs ≡ ok ys → Permᴰ (x ∷ xs) ys
  unfolding insert_sorted
  insert_sorted-Perm x [] h = subst (Permᴰ (x ∷ [])) (ok_inj h) (Permᴰ.refl (x ∷ []))
  insert_sorted-Perm x (y ∷ xs) h =
      let (b, q, h1) = bind-ok {r = before y x} h in
      placed (Permᴰ (x ∷ y ∷ xs)) x y xs b (insert_sorted before x xs)
        (λ f. Permᴰ.refl (x ∷ y ∷ xs))
        (λ t zs q1.
          Permᴰ.trans (Permᴰ.swap refl refl) (Permᴰ.cons refl (insert_sorted-Perm x xs q1)))
        h1

  pub sort_by-Perm : (xs : List A) {ys : List A} → sort_by before xs ≡ ok ys → Permᴰ xs ys
  unfolding sort_by
  sort_by-Perm [] h = subst (Permᴰ []) (ok_inj h) (Permᴰ.refl [])
  sort_by-Perm (x ∷ xs) h =
      let (zs, q, h1) = bind-ok {r = sort_by before xs} h in
      Permᴰ.trans (Permᴰ.cons refl (sort_by-Perm xs q)) (insert_sorted-Perm x zs h1)
