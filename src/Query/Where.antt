-- ===== src/Query/Where.antt =====
-- qndb/interface/query/where_parser.py: `WhereParser`. A parser reads tokens and leaves the rest; the
-- recursive descent and its loops run on fuel.
pub mod Ending
pub mod Printing
use Prim.Native.String.{◌++◌}
use quantum_database.Prelude.{
  ℕ, zero, suc, ◌+◌, ◌*◌, String, Bool, true, false, Option, none, some, List, [], ◌∷◌,
  if◌then◌else◌, ◌==◌, string_key, length, ℤ,
}
use quantum_database.Query.Result.{Result, ok, failed, unfinished, ◌>>=◌}
use quantum_database.Query.Token.{
  Token, Keyword, lparen, rparen, comma, dot, string, op, keyword, ident, and_kw, or_kw, not_kw,
  in_kw, between_kw, like_kw, is_kw, null_kw, exists_kw, true_kw, false_kw, token_text,
}

abbrev pub Tokens : Type 0
Tokens = List Token

-- A value in a condition. A subquery is known by its tokens, whose texts the source joins by spaces.
pub data Literal : Type 0 where
  null : Literal
  bool : Bool → Literal
  whole : ℤ → Literal
  float : String → Literal
  text : String → Literal
  subquery : Tokens → Literal

-- The condition tree, a dictionary with a `type`.
pub data Cond : Type 0 where
  comparison : (field operator : String) → Literal → Cond
  and or : Cond → Cond → Cond
  not : Cond → Cond
  among : (field : String) → List Literal → (negated : Bool) → Cond
  between : (field : String) → (low high : Literal) → (negated : Bool) → Cond
  like : (field : String) → Literal → (negated : Bool) → Cond
  is_null : (field : String) → (negated : Bool) → Cond
  exists : Cond

abbrev pub Parser {ℓ} : Type ℓ → Type ℓ
Parser A = Tokens → Result (A × Tokens)

-- The value of a token, `tok[1]`.
abbrev pub token_value : Token → Literal
token_value (Token.whole n) = Literal.whole n
token_value (Token.float s) = Literal.float s
token_value t = text (token_text t)

abbrev pub expect_rparen : {A : Type 0} → A → Parser A
expect_rparen a (rparen ∷ ts) = ok (a, ts)
expect_rparen a _ = failed

-- What follows `name` in a qualified name.
unfoldable pub name_rest : String → Parser String
name_rest name (dot ∷ t ∷ ts) = name_rest ((name ++ ".") ++ token_text t) ts
name_rest name (dot ∷ []) = failed
name_rest name ts = ok (name, ts)

-- The loop that skips a subquery after EXISTS; `depth` parentheses are open. It also ends with the input.
unfoldable pub skip_group : (depth : ℕ) → Tokens → Tokens
skip_group zero ts = ts
skip_group (suc depth) [] = []
skip_group (suc depth) (lparen ∷ ts) = skip_group (suc (suc depth)) ts
skip_group (suc depth) (rparen ∷ ts) = skip_group depth ts
skip_group (suc depth) (t ∷ ts) = skip_group (suc depth) ts

abbrev push_token : Token → Tokens × Tokens → Tokens × Tokens
push_token t (inner, rest) = (t ∷ inner, rest)

-- The loop that collects a subquery that is a value. Its last closing parenthesis is left out.
unfoldable pub read_group : (depth : ℕ) → Tokens → Tokens × Tokens
read_group depth [] = ([], [])
read_group depth (lparen ∷ ts) = push_token lparen (read_group (suc depth) ts)
read_group (suc zero) (rparen ∷ ts) = ([], ts)
read_group (suc (suc depth)) (rparen ∷ ts) = push_token rparen (read_group (suc depth) ts)
read_group zero (rparen ∷ ts) = ([], rparen ∷ ts)
read_group depth (t ∷ ts) = push_token t (read_group depth ts)

unfoldable pub value : Parser Literal
unfolding name_rest read_group
value [] = failed
value (string s ∷ ts) = ok (text s, ts)
value (Token.whole n ∷ ts) = ok (Literal.whole n, ts)
value (Token.float s ∷ ts) = ok (Literal.float s, ts)
value (ident s ∷ ts) = name_rest s ts >>= λ (name, rest). ok (text name, rest)
value (lparen ∷ ts) = let (inner, rest) = read_group 1 ts in ok (subquery inner, rest)
value (keyword null_kw ∷ ts) = ok (null, ts)
value (keyword true_kw ∷ ts) = ok (bool true, ts)
value (keyword false_kw ∷ ts) = ok (bool false, ts)
value _ = failed

-- `op_tok[1].replace('<>', '!=')`
abbrev pub normal_op : String → String
normal_op o = if o == "<>" then "!=" else o

unfoldable pub parse_comparison : String → Parser Cond
unfolding value
parse_comparison field (op o ∷ ts) =
    value ts >>= λ (v, rest). ok (comparison field (normal_op o) v, rest)
parse_comparison field ts = ok (comparison field "=" (bool true), ts)

-- The loop over a list of values, up to the closing parenthesis or the end; what is neither a text,
-- a number nor a name is skipped.
unfoldable pub read_values : Tokens → List Literal × Tokens
read_values [] = ([], [])
read_values (rparen ∷ ts) = ([], rparen ∷ ts)
read_values (string s ∷ ts) = let (vs, rest) = read_values ts in (text s ∷ vs, rest)
read_values (Token.whole n ∷ ts) = let (vs, rest) = read_values ts in (Literal.whole n ∷ vs, rest)
read_values (Token.float s ∷ ts) = let (vs, rest) = read_values ts in (Literal.float s ∷ vs, rest)
read_values (ident s ∷ ts) = let (vs, rest) = read_values ts in (text s ∷ vs, rest)
read_values (t ∷ ts) = read_values ts

-- `_expect('LPAREN')` and the list
unfoldable pub parse_in : String → Bool → Parser Cond
unfolding read_values
parse_in field negated (lparen ∷ ts) =
    let (vs, rest) = read_values ts in expect_rparen (among field vs negated) rest
parse_in field negated _ = failed

abbrev pub expect_and : {A : Type 0} → A → Parser A
expect_and a (keyword and_kw ∷ ts) = ok (a, ts)
expect_and a _ = failed

unfoldable pub parse_between : String → Bool → Parser Cond
unfolding value
parse_between field negated ts = value ts >>= λ (low, ts1). expect_and low ts1 >>= λ (low, ts2).
    value ts2 >>= λ (high, rest). ok (between field low high negated, rest)

-- Any token is taken for the pattern.
unfoldable pub parse_like : String → Bool → Parser Cond
parse_like field negated [] = failed
parse_like field negated (t ∷ ts) = ok (like field (token_value t) negated, ts)

unfoldable pub parse_is : String → Parser Cond
parse_is field (keyword not_kw ∷ keyword null_kw ∷ ts) = ok (is_null field true, ts)
parse_is field (keyword null_kw ∷ ts) = ok (is_null field false, ts)
parse_is field _ = failed

abbrev negate : Cond × Tokens → Result (Cond × Tokens)
negate (c, rest) = ok (not c, rest)

-- After a NOT that follows the field.
unfoldable pub negated_pred : String → Parser Cond
unfolding parse_in parse_between parse_like parse_comparison
negated_pred field (keyword in_kw ∷ ts) = parse_in field true ts
negated_pred field (keyword between_kw ∷ ts) = parse_between field true ts
negated_pred field (keyword like_kw ∷ ts) = parse_like field true ts
negated_pred field ts = parse_comparison field ts >>= negate

unfoldable pub field_pred : String → Parser Cond
unfolding parse_in parse_between parse_like parse_comparison parse_is negated_pred
field_pred field (keyword is_kw ∷ ts) = parse_is field ts
field_pred field (keyword not_kw ∷ ts) = negated_pred field ts
field_pred field (keyword in_kw ∷ ts) = parse_in field false ts
field_pred field (keyword between_kw ∷ ts) = parse_between field false ts
field_pred field (keyword like_kw ∷ ts) = parse_like field false ts
field_pred field ts = parse_comparison field ts

-- After EXISTS.
unfoldable pub parse_exists : Parser Cond
unfolding skip_group
parse_exists (lparen ∷ ts) = ok (exists, skip_group 1 ts)
parse_exists _ = failed

unfoldable mutual
  unfolding name_rest field_pred parse_exists

  pub or_expr : ℕ → Parser Cond
  or_expr zero ts = unfinished
  or_expr (suc f) ts = and_expr f ts >>= λ (left, rest). or_more f left rest

  -- The loop of `_or_expr`, with what it has so far.
  pub or_more : ℕ → Cond → Parser Cond
  or_more zero left ts = unfinished
  or_more (suc f) left (keyword or_kw ∷ ts) =
      and_expr f ts >>= λ (right, rest). or_more f (or left right) rest
  or_more (suc f) left ts = ok (left, ts)

  pub and_expr : ℕ → Parser Cond
  and_expr zero ts = unfinished
  and_expr (suc f) ts = not_expr f ts >>= λ (left, rest). and_more f left rest

  pub and_more : ℕ → Cond → Parser Cond
  and_more zero left ts = unfinished
  and_more (suc f) left (keyword and_kw ∷ ts) =
      not_expr f ts >>= λ (right, rest). and_more f (and left right) rest
  and_more (suc f) left ts = ok (left, ts)

  pub not_expr : ℕ → Parser Cond
  not_expr zero ts = unfinished
  not_expr (suc f) (keyword not_kw ∷ ts) = not_expr f ts >>= negate
  not_expr (suc f) ts = atom f ts

  pub atom : ℕ → Parser Cond
  atom zero ts = unfinished
  atom (suc f) (lparen ∷ ts) = or_expr f ts >>= λ (c, rest). expect_rparen c rest
  atom (suc f) (keyword exists_kw ∷ ts) = parse_exists ts
  atom (suc f) (ident s ∷ ts) = name_rest s ts >>= λ (name, rest). field_pred name rest
  atom (suc f) _ = failed

-- What follows the condition is not looked at.
unfoldable pub parse : Tokens → Result (Option Cond)
unfolding or_expr
parse [] = ok none
parse (t ∷ ts) = or_expr (4 * length (t ∷ ts) + 4) (t ∷ ts) >>= λ (c, rest). ok (some c)
