-- ===== src/Query/Plan/Sorting/Columns.antt =====
-- ORDER BY: the keys of columns, and the order of the rows.
use mathlib.Core.List.{Permᴰ}
use mathlib.Core.List.Permᴰ
use quantum_database.Prelude.{
  ◌≡◌, refl, ap, subst, ◌∙◌, String, Bool, true, false, List, [], ◌∷◌, Option, none, some,
  if◌then◌else◌, All, string_key, arith, ℤ, pos, negsuc,
}
use quantum_database.Query.Result.{Result, ok, bind-ok, ok_inj}
use quantum_database.Query.Texts.{text_less}
use quantum_database.Query.Rows.{
  Floats, Value, Row, same_value, less, Number, exact, approx, number, number_less, numbers_less,
  missing, truth, int, real, str, group,
}
use quantum_database.Query.Plan.Tables.{
  insert_sorted, sort_by, sort_rows, row_less, sort_key, key_less, Spec,
}
use quantum_database.Query.Plan.Joins.{Lacks}
use quantum_database.Query.Plan.Sorting.{Ordered, IsAsymmetric, sort_by-Ordered, sort_by-Perm}

-- What the comparisons of floats promise, for sorting: neither of two values is before the other both ways.
pub record IsOrder {F : Type 0} (fl : Floats F) : Type 0 where
  pub lt_asym : (x y : F) → fl.lt x y ≡ true → fl.lt y x ≡ false
  pub lt_int_asym : (x : F) (n : ℤ) → fl.lt_int x n ≡ true → fl.int_lt n x ≡ false
  pub int_lt_asym : (x : F) (n : ℤ) → fl.int_lt n x ≡ true → fl.lt_int x n ≡ false

text_less-asym : (s t : String) → text_less s t ≡ true → text_less t s ≡ false
unfolding text_less
text_less-asym s String.[] h = absurd (cc)
text_less-asym String.[] (String.◌∷◌ d t) h = refl
text_less-asym (String.◌∷◌ c s) (String.◌∷◌ d t) h = ground (arith, h, text_less-asym s t)

module _ {F : Type 0} ⦃fl : Floats F⦄ (order : IsOrder fl) where
  number_less-asym : (a b : Number F) → number_less a b ≡ true → number_less b a ≡ false
  number_less-asym (exact (pos m)) (exact (pos n)) h = ground (arith, h)
  number_less-asym (exact (pos m)) (exact (negsuc n)) h = ground (arith, h)
  number_less-asym (exact (negsuc m)) (exact (pos n)) h = ground (arith, h)
  number_less-asym (exact (negsuc m)) (exact (negsuc n)) h = ground (arith, h)
  number_less-asym (exact m) (approx y) h = order.int_lt_asym y m h
  number_less-asym (approx x) (exact n) h = order.lt_int_asym x n h
  number_less-asym (approx x) (approx y) h = order.lt_asym x y h

  numbers_less-asym :
      (a b : Option (Number F)) → numbers_less a b ≡ ok true → numbers_less b a ≡ ok false
  numbers_less-asym none b h = absurd (cc)
  numbers_less-asym (some a) none h = absurd (cc)
  numbers_less-asym (some a) (some b) h = ap ok (number_less-asym a b (ok_inj h))

  -- Against a number, `<` is that of numbers.
  less-number :
      (a b : Value F) (x : Number F)
      → number a ≡ some x
      → less b a ≡ numbers_less (number b) (number a)
  unfolding less
  less-number a missing x h = refl
  less-number a (truth b) x h = refl
  less-number a (int n) x h = refl
  less-number a (real y) x h = refl
  less-number a (group s) x h = refl
  less-number missing (str t) x h = refl
  less-number (truth b) (str t) x h = refl
  less-number (int n) (str t) x h = refl
  less-number (real y) (str t) x h = refl
  less-number (group s) (str t) x h = refl
  less-number (str s) (str t) x h = absurd (cc)

  less-asym : IsAsymmetric (less {F = F})
  unfolding less
  less-asym (str s) (str t) h = ap ok (text_less-asym s t (ok_inj h))
  less-asym (str s) missing h = absurd (cc)
  less-asym (str s) (truth b) h = absurd (cc)
  less-asym (str s) (int n) h = absurd (cc)
  less-asym (str s) (real y) h = absurd (cc)
  less-asym (str s) (group t) h = absurd (cc)
  less-asym missing b h = absurd (cc)
  less-asym (group s) b h = absurd (cc)
  less-asym (truth true) b h =
      less-number (truth true) b (exact (pos 1)) refl
      ∙ numbers_less-asym (some (exact (pos 1))) (number b) h
  less-asym (truth false) b h =
      less-number (truth false) b (exact (pos 0)) refl
      ∙ numbers_less-asym (some (exact (pos 0))) (number b) h
  less-asym (int n) b h =
      less-number (int n) b (exact n) refl ∙ numbers_less-asym (some (exact n)) (number b) h
  less-asym (real y) b h =
      less-number (real y) b (approx y) refl ∙ numbers_less-asym (some (approx y)) (number b) h

  -- Values that are equal are not compared.
  guarded-asym :
      (p q : Bool) (r s : Result Bool)
      → (r ≡ ok true → s ≡ ok false)
      → (if p then ok false else r) ≡ ok true
      → (if q then ok false else s) ≡ ok false
  guarded-asym true q r s f h = absurd (cc)
  guarded-asym false true r s f h = refl
  guarded-asym false false r s f h = f h

  key_less-asym : IsAsymmetric (key_less {F = F})
  key_less-asym (false, v) (true, w) h = refl
  key_less-asym (true, v) (false, w) h = absurd (cc)
  key_less-asym (true, v) (true, w) h =
      guarded-asym (same_value v w) (same_value w v) (less v w) (less w v) (less-asym v w) h
  key_less-asym (false, v) (false, w) h =
      guarded-asym (same_value v w) (same_value w v) (less v w) (less w v) (less-asym v w) h

  row_less-asym : (spec : Spec) → IsAsymmetric (row_less {F = F} spec)
  unfolding row_less
  row_less-asym (col, false) r s h = key_less-asym (sort_key col r) (sort_key col s) h
  row_less-asym (col, true) r s h = key_less-asym (sort_key col s) (sort_key col r) h

module _ {F : Type 0} ⦃fl : Floats F⦄ where
  sort_rows-Perm :
      (specs : List Spec) (rows out : List (Row F)) → sort_rows specs rows ≡ ok out → Permᴰ rows out
  unfolding sort_rows
  sort_rows-Perm [] rows out h = subst (Permᴰ rows) (ok_inj h) (Permᴰ.refl rows)
  sort_rows-Perm (spec ∷ specs) rows out h =
      let (zs, q, h1) = bind-ok {r = sort_rows specs rows} h in
      Permᴰ.trans (sort_rows-Perm specs rows zs q) (sort_by-Perm (row_less spec) zs h1)

  -- ORDER BY gives the rows that it is given, and where it names a column first, no row comes before the
  -- one that it stands right after, by this column and in its direction.
  pub sort_rows-Ordered :
      (order : IsOrder fl) (spec : Spec) (specs : List Spec) (rows out : List (Row F))
      → sort_rows (spec ∷ specs) rows ≡ ok out
      → Permᴰ rows out × Ordered (row_less spec) out
  unfolding sort_rows
  sort_rows-Ordered order spec specs rows out h =
      let (zs, q, h1) = bind-ok {r = sort_rows specs rows} h in
      (
        sort_rows-Perm (spec ∷ specs) rows out h,
        sort_by-Ordered (row_less spec) (row_less-asym order spec) zs h1,
      )

  -- Where no row has the column, no key comes before another.
  absent_key :
      (col : String) (desc : Bool) (r s : Row F)
      → Lacks col r
      → Lacks col s
      → row_less (col, desc) r s ≡ ok false
  unfolding row_less same_value less
  absent_key col false r s hr hs = rw (sort_key, hr, hs)
  absent_key col true r s hr hs = rw (sort_key, hr, hs)

  sort_by-Lacks :
      (col : String) (desc : Bool) (rows : List (Row F))
      → All (Lacks col) rows
      → sort_by (row_less (col, desc)) rows ≡ ok rows
  unfolding sort_by insert_sorted
  sort_by-Lacks col desc [] h = refl
  sort_by-Lacks col desc (r ∷ []) h = refl
  sort_by-Lacks col desc (r ∷ s ∷ rows) (hr, (hs, h)) =
      rw (sort_by-Lacks col desc (s ∷ rows) (hs, h), absent_key col desc s r hs hr)

  -- ORDER BY a column that no row has leaves the rows in their order.
  pub sort_rows-Lacks :
      (col : String) (desc : Bool) (rows : List (Row F))
      → All (Lacks col) rows
      → sort_rows ((col, desc) ∷ []) rows ≡ ok rows
  unfolding sort_rows
  sort_rows-Lacks col desc rows h = sort_by-Lacks col desc rows h
