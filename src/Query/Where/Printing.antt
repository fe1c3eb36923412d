-- ===== src/Query/Where/Printing.antt =====
-- Conditions written with as few parentheses as SQL's precedence allows are parsed back: OR binds least,
-- then AND, then NOT, and both join from the left.
pub mod RoundTrip
use quantum_database.Prelude.{
  ℕ, zero, suc, ◌+◌, ◌*◌, ◌<◌, ◌≤◌, ◌≡◌, refl, ◌∙◌, sym, ap, String, Bool, true, false, Option,
  some, List, [], ◌∷◌, ◌++◌, arith, length, length-append, if◌then◌else◌, ◌==◌, string_key, ◌&&◌,
  All,
}
use mathlib.Core.List.{append_assoc, append-nil}
use quantum_database.Query.Result.{Result, ok, failed, unfinished, ◌>>=◌}
use quantum_database.Query.Token.{
  Token, Keyword, lparen, rparen, comma, dot, string, op, keyword, ident, and_kw, or_kw, not_kw,
  in_kw, between_kw, like_kw, is_kw, null_kw, exists_kw, true_kw, false_kw, token_text,
}
use quantum_database.Query.Where.{
  Tokens, Literal, null, bool, text, subquery, Cond, comparison, and, or, not, among, between, like,
  is_null, exists, name_rest, skip_group, value, parse_comparison, read_values, parse_in,
  parse_between, parse_like, parse_is, negated_pred, field_pred, parse_exists, or_expr, or_more,
  and_expr, and_more, not_expr, atom, parse, normal_op,
}

-- A value as a condition is written; a subquery has no such text.
abbrev pub print_literal : Literal → Tokens
print_literal null = keyword null_kw ∷ []
print_literal (bool true) = keyword true_kw ∷ []
print_literal (bool false) = keyword false_kw ∷ []
print_literal (Literal.whole n) = Token.whole n ∷ []
print_literal (Literal.float s) = Token.float s ∷ []
print_literal (text s) = string s ∷ []
print_literal (subquery ts) = []

abbrev pub print_values : List Literal → Tokens
print_values [] = []
print_values (v ∷ vs) = print_literal v ++ print_values vs

-- What the place of a condition lets stand without parentheses.
pub data Level : Type 0 where
  any conjunct operand : Level

abbrev pub in_parens : Tokens → Tokens
in_parens ts = lparen ∷ (ts ++ rparen ∷ [])

abbrev pub wrap_or : Level → Tokens → Tokens
wrap_or any ts = ts
wrap_or conjunct ts = in_parens ts
wrap_or operand ts = in_parens ts

abbrev pub wrap_and : Level → Tokens → Tokens
wrap_and operand ts = in_parens ts
wrap_and any ts = ts
wrap_and conjunct ts = ts

abbrev pub print_not : Bool → Tokens
print_not true = keyword not_kw ∷ []
print_not false = []

unfoldable pub print : Level → Cond → Tokens
print l (or a b) = wrap_or l (print any a ++ keyword or_kw ∷ print conjunct b)
print l (and a b) = wrap_and l (print conjunct a ++ keyword and_kw ∷ print operand b)
print l (not c) = keyword not_kw ∷ print operand c
print l (comparison field o v) = ident field ∷ op o ∷ print_literal v
print l (among field vs b) =
    ident field ∷ (print_not b ++ keyword in_kw ∷ in_parens (print_values vs))
print l (between field low high b) =
    ident field
    ∷ (print_not b
        ++ keyword between_kw ∷ (print_literal low ++ keyword and_kw ∷ print_literal high))
print l (like field v b) = ident field ∷ (print_not b ++ keyword like_kw ∷ print_literal v)
print l (is_null field b) = ident field ∷ keyword is_kw ∷ (print_not b ++ keyword null_kw ∷ [])
print l exists = keyword exists_kw ∷ lparen ∷ rparen ∷ []

-- The values that a list of values and a pattern can have.
abbrev pub IsPlain : Literal → Type 0
IsPlain (text s) = Unit
IsPlain (Literal.whole n) = Unit
IsPlain (Literal.float s) = Unit
IsPlain v = ⊥

abbrev pub IsSimple : Literal → Type 0
IsSimple (subquery ts) = ⊥
IsSimple v = Unit

-- The conditions that have a text: no subqueries, no NULL or truth value in a list or as a pattern, and
-- `!=` for `<>`.
abbrev pub IsPrintable : Cond → Type 0
IsPrintable (or a b) = IsPrintable a × IsPrintable b
IsPrintable (and a b) = IsPrintable a × IsPrintable b
IsPrintable (not c) = IsPrintable c
IsPrintable (comparison field o v) = ((o == "<>") ≡ false) × IsSimple v
IsPrintable (among field vs b) = All IsPlain vs
IsPrintable (between field low high b) = IsSimple low × IsSimple high
IsPrintable (like field v b) = IsPlain v
IsPrintable (is_null field b) = Unit
IsPrintable exists = Unit

pub value-print :
    (v : Literal) (rest : Tokens) → IsSimple v → value (print_literal v ++ rest) ≡ ok (v, rest)
unfolding value
value-print null rest h = refl
value-print (bool true) rest h = refl
value-print (bool false) rest h = refl
value-print (Literal.whole n) rest h = refl
value-print (Literal.float s) rest h = refl
value-print (text s) rest h = refl
value-print (subquery ts) rest h = absurd h

read_values-print :
    (vs : List Literal) (rest : Tokens)
    → All IsPlain vs
    → read_values (print_values vs ++ rparen ∷ rest) ≡ (vs, rparen ∷ rest)
unfolding read_values
read_values-print [] rest h = refl
read_values-print (text s ∷ vs) rest h = rw (read_values-print vs rest h.1)
read_values-print (Literal.whole n ∷ vs) rest h = rw (read_values-print vs rest h.1)
read_values-print (Literal.float s ∷ vs) rest h = rw (read_values-print vs rest h.1)
read_values-print (null ∷ vs) rest h = absurd h.0
read_values-print (bool b ∷ vs) rest h = absurd h.0
read_values-print (subquery ts ∷ vs) rest h = absurd h.0

pub in-print :
    (field : String) (vs : List Literal) (b : Bool) (rest : Tokens)
    → All IsPlain vs
    → parse_in field b (in_parens (print_values vs) ++ rest) ≡ ok (among field vs b, rest)
unfolding parse_in
in-print field vs b rest h =
    rw (append_assoc (print_values vs) (rparen ∷ []) rest, read_values-print vs rest h)

pub between-print :
    (field : String) (low high : Literal) (b : Bool) (rest : Tokens)
    → IsSimple low
    → IsSimple high
    → parse_between field b ((print_literal low ++ keyword and_kw ∷ print_literal high) ++ rest)
      ≡ ok (between field low high b, rest)
unfolding parse_between
between-print field low high b rest h k = rw (
  append_assoc (print_literal low) (keyword and_kw ∷ print_literal high) rest,
  value-print low (keyword and_kw ∷ (print_literal high ++ rest)) h,
  value-print high rest k,
)

pub like-print :
    (field : String) (v : Literal) (b : Bool) (rest : Tokens)
    → IsPlain v
    → parse_like field b (print_literal v ++ rest) ≡ ok (like field v b, rest)
unfolding parse_like token_text
like-print field (text s) b rest h = refl
like-print field (Literal.whole n) b rest h = refl
like-print field (Literal.float s) b rest h = refl
like-print field null b rest h = absurd h
like-print field (bool v) b rest h = absurd h
like-print field (subquery ts) b rest h = absurd h
