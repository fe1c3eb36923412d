-- ===== src/Query/Rows.antt =====
-- qndb/interface/query_executor.py: the values of rows, Python's comparisons on them, `_coerce` and
-- `_evaluate_condition`. Texts are of ASCII. Floats are a parameter: Python's own, without NaN.
use Prim.Native.String
use quantum_database.Prelude.{
  ℕ, String, Bool, true, false, not, ◌||◌, [], ◌∷◌, Option, none, some, if◌then◌else◌, ◌==◌,
  nat_key, string_key, ℤ, pos, ltb_ℤ, eqb_ℤ, any, Dict, lookup,
}
use quantum_database.Query.Result.{Result, ok, failed, ◌>>=◌}
use quantum_database.Query.Texts.{text_less, strip, parse_int, has_dot, either_quote, like_match}
use quantum_database.Query.Token.{int_text, token_text}
use quantum_database.Query.Lexer.{is_space}
use quantum_database.Query.Where.{
  Tokens, Literal, Cond, null, bool, whole, float, text, subquery, comparison, and, or,
  not as not_cond, among, between, like, is_null, exists,
}

-- What the executor uses of Python's floats: `float` and `str`, and the operators, with an integer on one side too.
pub record Floats (F : Type 0) : Type 0 where
  pub of_text : String → Option F
  pub show : F → String
  pub eq : F → F → Bool
  pub lt : F → F → Bool
  pub eq_int : F → ℤ → Bool
  pub lt_int : F → ℤ → Bool
  pub int_lt : ℤ → F → Bool
  pub plus : F → F → F
  pub of_int : ℤ → F
  pub over : F → ℕ → F

-- A value: None, a bool, an int, a float, a str, or the dictionary that stands for a subquery in a condition.
pub data Value (F : Type 0) : Type 0 where
  missing : Value F
  truth : Bool → Value F
  int : ℤ → Value F
  real : F → Value F
  str : String → Value F
  group : String → Value F

pub data Number (F : Type 0) : Type 0 where
  exact : ℤ → Number F
  approx : F → Number F

abbrev pub Row : Type 0 → Type 0
Row F = Dict String (Value F)

abbrev join_texts : Tokens → String
join_texts [] = ""
join_texts (t ∷ []) = token_text t
join_texts (t ∷ u ∷ ts) = String.◌++◌ (String.◌++◌ (token_text t) " ") (join_texts (u ∷ ts))

abbrev pub negate : Bool → Result Bool → Result Bool
negate negated r = r >>= λ b. ok (if negated then not b else b)

module _ {F : Type 0} ⦃fl : Floats F⦄ where
  abbrev pub number : Value F → Option (Number F)
  number missing = none
  number (truth false) = some (exact (pos 0))
  number (truth true) = some (exact (pos 1))
  number (int n) = some (exact n)
  number (real x) = some (approx x)
  number (str s) = none
  number (group s) = none

  abbrev pub number_eq : Number F → Number F → Bool
  number_eq (exact m) (exact n) = eqb_ℤ m n
  number_eq (exact m) (approx y) = fl.eq_int y m
  number_eq (approx x) (exact n) = fl.eq_int x n
  number_eq (approx x) (approx y) = fl.eq x y

  abbrev pub number_less : Number F → Number F → Bool
  number_less (exact m) (exact n) = ltb_ℤ m n
  number_less (exact m) (approx y) = fl.int_lt m y
  number_less (approx x) (exact n) = fl.lt_int x n
  number_less (approx x) (approx y) = fl.lt x y

  abbrev numbers_eq : Option (Number F) → Option (Number F) → Bool
  numbers_eq (some a) (some b) = number_eq a b
  numbers_eq a b = false

  abbrev pub numbers_less : Option (Number F) → Option (Number F) → Result Bool
  numbers_less (some a) (some b) = ok (number_less a b)
  numbers_less a b = failed

  -- `a == b`
  unfoldable pub same_value : Value F → Value F → Bool
  same_value missing missing = true
  same_value (str s) (str t) = s == t
  same_value (group s) (group t) = s == t
  same_value a b = numbers_eq (number a) (number b)

  -- `a < b`, where values of different kinds raise TypeError
  unfoldable pub less : Value F → Value F → Result Bool
  unfolding text_less
  less (str s) (str t) = ok (text_less s t)
  less a b = numbers_less (number a) (number b)

  -- `row.get(field)`
  abbrev pub get : String → Row F → Value F
  get field row = elim (lookup field row) [ none ↦ missing | some v ↦ v ]

  abbrev or_text : String → Option ℤ → Value F
  or_text s none = str s
  or_text s (some n) = int n

  abbrev or_real : String → Option F → Value F
  or_real s none = str s
  or_real s (some x) = real x

  abbrev natural : String → Value F
  natural s = if has_dot s then or_real s (fl.of_text s) else or_text s (parse_int s)

  -- `_coerce`
  unfoldable pub coerce : Value F → Value F
  unfolding parse_int strip
  coerce (str s) = natural (strip either_quote (strip is_space s))
  coerce v = v

  -- The value that a literal of the condition tree is.
  abbrev pub literal : Literal → Value F
  literal null = missing
  literal (bool b) = truth b
  literal (whole n) = int n
  literal (float s) = or_real s (fl.of_text s)
  literal (text s) = str s
  literal (subquery ts) = group (join_texts ts)

  -- `str(actual)`; no row holds a subquery
  abbrev value_text : Value F → String
  value_text missing = "None"
  value_text (truth true) = "True"
  value_text (truth false) = "False"
  value_text (int n) = int_text n
  value_text (real x) = fl.show x
  value_text (str s) = s
  value_text (group s) = s

  abbrev not_less : Value F → Value F → Result Bool
  not_less a b = less b a >>= λ l. ok (not l)

  -- `a <= b`: as `<`, or equal
  abbrev at_most : Value F → Value F → Result Bool
  at_most a b = less a b >>= λ l. ok (l || same_value a b)

  unfoldable pub compare_values : (operator : String) → Value F → Value F → Result Bool
  unfolding same_value less
  compare_values operator missing target = ok false
  compare_values operator actual missing = ok false
  compare_values operator actual target =
      if operator == "="
      then ok (same_value actual target)
      else if operator == "!="
      then ok (not (same_value actual target))
      else if operator == "<"
      then less actual target
      else if operator == "<="
      then at_most actual target
      else if operator == ">"
      then less target actual
      else if operator == ">="
      then at_most target actual
      else ok false

  unfoldable pub is_between : Value F → (low high : Value F) → (negated : Bool) → Result Bool
  unfolding same_value less
  is_between missing low high negated = ok false
  is_between actual low high negated =
      negate negated (at_most low actual >>= λ b. if b then at_most actual high else ok false)

  unfoldable pub is_like : Value F → (pattern : Value F) → (negated : Bool) → Result Bool
  unfolding like_match
  is_like missing pattern negated = ok false
  is_like actual (str p) negated = negate negated (ok (like_match p (value_text actual)))
  is_like actual pattern negated = failed

  abbrev is_missing : Value F → Bool
  is_missing missing = true
  is_missing v = false

  -- `_evaluate_condition`
  unfoldable pub evaluate : Row F → Cond → Result Bool
  unfolding same_value coerce compare_values is_between is_like
  evaluate row (comparison field operator v) =
      compare_values operator (coerce (get field row)) (coerce (literal v))
  evaluate row (and a b) = evaluate row a >>= λ x. if x then evaluate row b else ok false
  evaluate row (or a b) = evaluate row a >>= λ x. if x then ok true else evaluate row b
  evaluate row (not_cond a) = evaluate row a >>= λ x. ok (not x)
  evaluate row (among field vs negated) =
      negate negated (ok (any (λ v. same_value (coerce (get field row)) (coerce (literal v))) vs))
  evaluate row (between field low high negated) =
      is_between (coerce (get field row)) (coerce (literal low)) (coerce (literal high)) negated
  evaluate row (like field pattern negated) = is_like (get field row) (literal pattern) negated
  evaluate row (is_null field negated) = negate negated (ok (is_missing (get field row)))
  evaluate row exists = ok true
