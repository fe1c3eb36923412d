-- ===== src/Query/Where/Ending.antt =====
-- The parser ends on every input: a parser that gives a value leaves fewer tokens, and a nested call
-- costs at most four units of fuel for each token.
use Prim.Native.String.{◌++◌}
use quantum_database.Prelude.{
  ℕ, zero, suc, ◌+◌, ◌*◌, ◌<◌, ◌≤◌, ◌≢◌, String, Bool, true, false, [], ◌∷◌, arith, length,
}
use quantum_database.Query.Result.{
  Result, unfinished, ◌>>=◌, Ends, gives, raises, Ends-bind, Ends-mono, Ends-ne-unfinished,
}
use quantum_database.Query.Token.{
  Token, lparen, rparen, dot, string, op, keyword, ident, and_kw, or_kw, not_kw, in_kw, between_kw,
  like_kw, is_kw, null_kw, exists_kw, true_kw, false_kw, token_text,
}
use quantum_database.Query.Where.{
  Tokens, Cond, and, or, name_rest, skip_group, read_group, value, parse_comparison, read_values,
  expect_rparen, parse_in, expect_and, parse_between, parse_like, parse_is, negate, negated_pred,
  field_pred, parse_exists, or_expr, or_more, and_expr, and_more, not_expr, atom, parse,
}

-- At most, and fewer than, so many tokens are left.
abbrev Within : {A : Type 0} → ℕ → A × Tokens → Type 0
Within n r = length r.1 ≤ n

abbrev Below : {A : Type 0} → ℕ → A × Tokens → Type 0
Below n r = length r.1 < n

name_rest-Ends : (name : String) (ts : Tokens) → Ends (Within (length ts)) (name_rest name ts)
unfolding name_rest
name_rest-Ends name (dot ∷ t ∷ ts) =
    Ends-mono (name_rest-Ends ((name ++ ".") ++ token_text t) ts) λ r h. omega arith
name_rest-Ends name (dot ∷ []) = raises
name_rest-Ends name [] = gives (omega arith)
name_rest-Ends name (_ ∷ ts) = gives (omega arith)

skip_group-le : (depth : ℕ) (ts : Tokens) → length (skip_group depth ts) ≤ length ts
unfolding skip_group
skip_group-le zero ts = omega arith
skip_group-le (suc depth) [] = omega arith
skip_group-le (suc depth) (lparen ∷ ts) = omega (arith, skip_group-le (suc (suc depth)) ts)
skip_group-le (suc depth) (rparen ∷ ts) = omega (arith, skip_group-le depth ts)
skip_group-le (suc depth) (_ ∷ ts) = omega (arith, skip_group-le (suc depth) ts)

read_group-le : (depth : ℕ) (ts : Tokens) → length (read_group depth ts).1 ≤ length ts
unfolding read_group
read_group-le zero [] = omega arith
read_group-le (suc depth) [] = omega arith
read_group-le zero (lparen ∷ ts) = omega (arith, read_group-le 1 ts)
read_group-le (suc depth) (lparen ∷ ts) = omega (arith, read_group-le (suc (suc depth)) ts)
read_group-le (suc zero) (rparen ∷ ts) = omega arith
read_group-le (suc (suc depth)) (rparen ∷ ts) = omega (arith, read_group-le (suc depth) ts)
read_group-le zero (rparen ∷ ts) = omega arith
read_group-le zero (_ ∷ ts) = omega (arith, read_group-le zero ts)
read_group-le (suc zero) (_ ∷ ts) = omega (arith, read_group-le (suc zero) ts)
read_group-le (suc (suc depth)) (_ ∷ ts) = omega (arith, read_group-le (suc (suc depth)) ts)

read_values-le : (ts : Tokens) → length (read_values ts).1 ≤ length ts
unfolding read_values
read_values-le [] = omega arith
read_values-le (rparen ∷ ts) = omega arith
read_values-le (_ ∷ ts) = omega (arith, read_values-le ts)

value-Ends : (ts : Tokens) → Ends (Below (length ts)) (value ts)
unfolding value
value-Ends [] = raises
value-Ends (lparen ∷ ts) = gives (omega (arith, read_group-le 1 ts))
value-Ends (ident s ∷ ts) = Ends-bind (name_rest-Ends s ts) λ r h. gives (omega arith)
value-Ends (keyword null_kw ∷ ts) = gives (omega arith)
value-Ends (keyword true_kw ∷ ts) = gives (omega arith)
value-Ends (keyword false_kw ∷ ts) = gives (omega arith)
value-Ends (keyword _ ∷ ts) = raises
value-Ends (string s ∷ ts) = gives (omega arith)
value-Ends (Token.whole n ∷ ts) = gives (omega arith)
value-Ends (Token.float s ∷ ts) = gives (omega arith)
value-Ends (_ ∷ ts) = raises

comparison-Ends :
    (field : String) (ts : Tokens) → Ends (Within (length ts)) (parse_comparison field ts)
unfolding parse_comparison
comparison-Ends field (op o ∷ ts) = Ends-bind (value-Ends ts) λ r h. gives (omega arith)
comparison-Ends field [] = gives (omega arith)
comparison-Ends field (_ ∷ ts) = gives (omega arith)

rparen-Ends : {A : Type 0} (a : A) (ts : Tokens) → Ends (Within (length ts)) (expect_rparen a ts)
rparen-Ends a (rparen ∷ ts) = gives (omega arith)
rparen-Ends a [] = raises
rparen-Ends a (_ ∷ ts) = raises

and-Ends : {A : Type 0} (a : A) (ts : Tokens) → Ends (Within (length ts)) (expect_and a ts)
and-Ends a (keyword and_kw ∷ ts) = gives (omega arith)
and-Ends a [] = raises
and-Ends a (_ ∷ ts) = raises

in-Ends :
    (field : String) (b : Bool) (ts : Tokens) → Ends (Within (length ts)) (parse_in field b ts)
unfolding parse_in
in-Ends field b (lparen ∷ ts) =
    Ends-mono (rparen-Ends _ (read_values ts).1) λ r h. omega (arith, read_values-le ts)
in-Ends field b [] = raises
in-Ends field b (_ ∷ ts) = raises

between-Ends :
    (field : String) (b : Bool) (ts : Tokens) → Ends (Within (length ts)) (parse_between field b ts)
unfolding parse_between
between-Ends field b ts = Ends-bind (value-Ends ts) λ (low, ts1) h1.
    Ends-bind (and-Ends low ts1)
      λ (low', ts2) h2. Ends-bind (value-Ends ts2) λ (high, rest) h3. gives (omega arith)

like-Ends :
    (field : String) (b : Bool) (ts : Tokens) → Ends (Within (length ts)) (parse_like field b ts)
unfolding parse_like
like-Ends field b [] = raises
like-Ends field b (t ∷ ts) = gives (omega arith)

is-Ends : (field : String) (ts : Tokens) → Ends (Within (length ts)) (parse_is field ts)
unfolding parse_is
is-Ends field (keyword not_kw ∷ keyword null_kw ∷ ts) = gives (omega arith)
is-Ends field (keyword null_kw ∷ ts) = gives (omega arith)
is-Ends field _ = raises

negate-Ends :
    (n : ℕ) {r : Result (Cond × Tokens)} → Ends (Within n) r → Ends (Within n) (r >>= negate)
negate-Ends n h = Ends-bind h λ r le. gives le

pred-Ends : (field : String) (ts : Tokens) → Ends (Within (length ts)) (negated_pred field ts)
unfolding negated_pred
pred-Ends field (keyword in_kw ∷ ts) = Ends-mono (in-Ends field true ts) λ r h. omega arith
pred-Ends field (keyword between_kw ∷ ts) =
    Ends-mono (between-Ends field true ts) λ r h. omega arith
pred-Ends field (keyword like_kw ∷ ts) = Ends-mono (like-Ends field true ts) λ r h. omega arith
pred-Ends field [] = negate-Ends zero (comparison-Ends field [])
pred-Ends field (t ∷ ts) = negate-Ends (suc (length ts)) (comparison-Ends field (t ∷ ts))

field-Ends : (field : String) (ts : Tokens) → Ends (Within (length ts)) (field_pred field ts)
unfolding field_pred
field-Ends field (keyword is_kw ∷ ts) = Ends-mono (is-Ends field ts) λ r h. omega arith
field-Ends field (keyword not_kw ∷ ts) = Ends-mono (pred-Ends field ts) λ r h. omega arith
field-Ends field (keyword in_kw ∷ ts) = Ends-mono (in-Ends field false ts) λ r h. omega arith
field-Ends field (keyword between_kw ∷ ts) =
    Ends-mono (between-Ends field false ts) λ r h. omega arith
field-Ends field (keyword like_kw ∷ ts) = Ends-mono (like-Ends field false ts) λ r h. omega arith
field-Ends field [] = comparison-Ends field []
field-Ends field (t ∷ ts) = comparison-Ends field (t ∷ ts)

exists-Ends : (ts : Tokens) → Ends (Within (length ts)) (parse_exists ts)
unfolding parse_exists
exists-Ends (lparen ∷ ts) = gives (omega (arith, skip_group-le 1 ts))
exists-Ends _ = raises

mutual
  unfolding or_expr

  or_expr-Ends :
      (f : ℕ) (ts : Tokens) → 4 * length ts + 3 < f → Ends (Below (length ts)) (or_expr f ts)
  or_expr-Ends zero ts h = absurd (omega arith)
  or_expr-Ends (suc f) ts h =
      Ends-bind (and_expr-Ends f ts (omega arith))
        λ (left, rest) p. Ends-mono (or_more-Ends f left rest (omega arith)) λ r q. omega arith

  or_more-Ends :
      (f : ℕ) (left : Cond) (ts : Tokens)
      → 4 * length ts < f
      → Ends (Within (length ts)) (or_more f left ts)
  or_more-Ends zero left ts h = absurd (omega arith)
  or_more-Ends (suc f) left (keyword or_kw ∷ ts) h =
      Ends-bind (and_expr-Ends f ts (omega arith)) λ (right, rest) p.
        Ends-mono (or_more-Ends f (or left right) rest (omega arith)) λ r q. omega arith
  or_more-Ends (suc f) left [] h = gives (omega arith)
  or_more-Ends (suc f) left (_ ∷ ts) h = gives (omega arith)

  and_expr-Ends :
      (f : ℕ) (ts : Tokens) → 4 * length ts + 2 < f → Ends (Below (length ts)) (and_expr f ts)
  and_expr-Ends zero ts h = absurd (omega arith)
  and_expr-Ends (suc f) ts h =
      Ends-bind (not_expr-Ends f ts (omega arith))
        λ (left, rest) p. Ends-mono (and_more-Ends f left rest (omega arith)) λ r q. omega arith

  and_more-Ends :
      (f : ℕ) (left : Cond) (ts : Tokens)
      → 4 * length ts < f
      → Ends (Within (length ts)) (and_more f left ts)
  and_more-Ends zero left ts h = absurd (omega arith)
  and_more-Ends (suc f) left (keyword and_kw ∷ ts) h =
      Ends-bind (not_expr-Ends f ts (omega arith)) λ (right, rest) p.
        Ends-mono (and_more-Ends f (and left right) rest (omega arith)) λ r q. omega arith
  and_more-Ends (suc f) left [] h = gives (omega arith)
  and_more-Ends (suc f) left (_ ∷ ts) h = gives (omega arith)

  not_expr-Ends :
      (f : ℕ) (ts : Tokens) → 4 * length ts + 1 < f → Ends (Below (length ts)) (not_expr f ts)
  not_expr-Ends zero ts h = absurd (omega arith)
  not_expr-Ends (suc f) (keyword not_kw ∷ ts) h =
      Ends-bind (not_expr-Ends f ts (omega arith)) λ r p. gives (omega arith)
  not_expr-Ends (suc f) [] h = atom-Ends f [] (omega arith)
  not_expr-Ends (suc f) (t ∷ ts) h = atom-Ends f (t ∷ ts) (omega arith)

  atom-Ends : (f : ℕ) (ts : Tokens) → 4 * length ts < f → Ends (Below (length ts)) (atom f ts)
  atom-Ends zero ts h = absurd (omega arith)
  atom-Ends (suc f) (lparen ∷ ts) h =
      Ends-bind (or_expr-Ends f ts (omega arith))
        λ (c, rest) p. Ends-mono (rparen-Ends c rest) λ r q. omega arith
  atom-Ends (suc f) (keyword exists_kw ∷ ts) h = Ends-mono (exists-Ends ts) λ r q. omega arith
  atom-Ends (suc f) (ident s ∷ ts) h =
      Ends-bind (name_rest-Ends s ts)
        λ (name, rest) p. Ends-mono (field-Ends name rest) λ r q. omega arith
  atom-Ends (suc f) _ h = raises

-- Every list of tokens is parsed or refused: the recursive descent and its loops end.
pub parse-ne-unfinished : (ts : Tokens) → parse ts ≢ unfinished
unfolding parse
parse-ne-unfinished [] = cc
parse-ne-unfinished (t ∷ ts) =
    let done : Ends (λ c. Unit {0}) (parse (t ∷ ts)) =
      Ends-bind (or_expr-Ends (4 * length (t ∷ ts) + 4) (t ∷ ts) (omega arith)) λ r p. gives tt in
    Ends-ne-unfinished done
