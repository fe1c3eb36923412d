-- ===== src/Query/Lexer.antt =====
-- qndb/interface/query/tokenizer.py: `WhereTokenizer`, on the text that is left. Characters are those of
-- ASCII. `float_text` is what `str` makes of the float that a numeral with one dot stands for; `float`
-- refuses a numeral with more dots.
pub mod Ending
use Prim.Native.Char.{Char, code}
use Prim.Native.String
use quantum_database.Prelude.{
  ℕ, zero, suc, ◌+◌, ◌-◌, ◌*◌, String, Bool, true, false, ◌&&◌, ◌||◌, List, [], ◌∷◌, Option, none,
  some, if◌then◌else◌, leb, ◌==◌, nat_key, ℤ, pos, negsuc,
}
use quantum_database.Query.Result.{Result, ok, failed, unfinished, ◌>>=◌}
use quantum_database.Query.Token.{
  Token, Keyword, lparen, rparen, comma, dot, string, op, whole, float, keyword, ident, and_kw,
  or_kw, not_kw, in_kw, between_kw, like_kw, is_kw, null_kw, exists_kw, true_kw, false_kw,
}

abbrev pub is : Char → ℕ → Bool
is c n = code c == n

-- `str.isspace` on ASCII
abbrev pub is_space : Char → Bool
is_space c = is c 32 || (leb 9 (code c) && leb (code c) 13) || (leb 28 (code c) && leb (code c) 31)

abbrev pub is_digit : Char → Bool
is_digit c = leb 48 (code c) && leb (code c) 57

abbrev pub is_alpha : Char → Bool
is_alpha c = (leb 65 (code c) && leb (code c) 90) || (leb 97 (code c) && leb (code c) 122)

abbrev pub is_word : Char → Bool
is_word c = is_alpha c || is_digit c || is c 95

abbrev pub is_quote : Char → Bool
is_quote c = is c 39

unfoldable pub skip_ws : String → String
skip_ws String.[] = String.[]
skip_ws (String.◌∷◌ c s) = let rest = skip_ws s in if is_space c then rest else String.◌∷◌ c s

abbrev pub push : Char → String × String → String × String
push c (s, rest) = (String.◌∷◌ c s, rest)

-- `_read_string` after the opening quote: the text, and what is left. A missing closing quote is no error.
unfoldable pub read_string : String → String × String
read_string String.[] = (String.[], String.[])
read_string (String.◌∷◌ c String.[]) =
    if is_quote c then (String.[], String.[]) else (String.◌∷◌ c String.[], String.[])
read_string (String.◌∷◌ c (String.◌∷◌ d s)) =
    let doubled = push c (read_string s) in
    let more = push c (read_string (String.◌∷◌ d s)) in
    if is_quote c then (if is_quote d then doubled else (String.[], String.◌∷◌ d s)) else more

-- The longest prefix of characters that pass a test, and the rest.
unfoldable pub span : (Char → Bool) → String → String × String
span p String.[] = (String.[], String.[])
span p (String.◌∷◌ c s) =
    let more = push c (span p s) in if p c then more else (String.[], String.◌∷◌ c s)

abbrev pub is_pair : Char → Char → Bool
is_pair c d =
    (is c 33 && is d 61) || (is c 60 && is d 62) || (is c 60 && is d 61) || (is c 62 && is d 61)

-- `_read_op`, with `!=`, `<>`, `<=` and `>=` as one operator
unfoldable pub read_op : Char → String → String × String
read_op c String.[] = (String.◌∷◌ c String.[], String.[])
read_op c (String.◌∷◌ d s) =
    if is_pair c d
    then (String.◌∷◌ c (String.◌∷◌ d String.[]), s)
    else (String.◌∷◌ c String.[], String.◌∷◌ d s)

abbrev pub is_numeral : Char → Bool
is_numeral c = is_digit c || is c 46

abbrev count_dots : String → ℕ
count_dots String.[] = 0
count_dots (String.◌∷◌ c s) = if is c 46 then suc (count_dots s) else count_dots s

abbrev pub digits_value : ℕ → String → ℕ
digits_value acc String.[] = acc
digits_value acc (String.◌∷◌ c s) = digits_value (acc * 10 + (code c - 48)) s

abbrev pub signed : Bool → ℕ → ℤ
signed false n = pos n
signed true zero = pos 0
signed true (suc n) = negsuc n

abbrev with_sign : Bool → String → String
with_sign true s = String.◌∷◌ "-" s
with_sign false s = s

-- `str.upper` on ASCII
abbrev pub upper : ℕ → ℕ
upper n = if leb 97 n && leb n 122 then n - 32 else n

abbrev pub is_upper_of : String → String → Bool
is_upper_of String.[] String.[] = true
is_upper_of (String.◌∷◌ c s) (String.◌∷◌ d t) = upper (code c) == code d && is_upper_of s t
is_upper_of _ _ = false

abbrev keywords : List (String × Keyword)
keywords =
    ("AND", and_kw)
    ∷ ("OR", or_kw)
    ∷ ("NOT", not_kw)
    ∷ ("IN", in_kw)
    ∷ ("BETWEEN", between_kw)
    ∷ ("LIKE", like_kw)
    ∷ ("IS", is_kw)
    ∷ ("NULL", null_kw)
    ∷ ("EXISTS", exists_kw)
    ∷ ("TRUE", true_kw)
    ∷ ("FALSE", false_kw)
    ∷ []

abbrev find_keyword : String → List (String × Keyword) → Token
find_keyword word [] = ident word
find_keyword word ((t, k) ∷ ks) = if is_upper_of word t then keyword k else find_keyword word ks

unfoldable pub word_token : String → Token
word_token word = find_keyword word keywords

abbrev pub begins_digit : String → Bool
begins_digit String.[] = false
begins_digit (String.◌∷◌ c s) = is_digit c

abbrev pub with_token : (String → Token) → String × String → Result (Option Token × String)
with_token make (s, rest) = ok (some (make s), rest)

abbrev pub add_token : Option Token → List Token → List Token
add_token none ts = ts
add_token (some t) ts = t ∷ ts

module _ (float_text : String → String) where
  -- A numeral with so many dots.
  unfoldable pub numeral : (negative : Bool) → String → (dots : ℕ) → Result Token
  numeral negative raw zero = ok (whole (signed negative (digits_value 0 raw)))
  numeral negative raw (suc zero) = ok (float (float_text (with_sign negative raw)))
  numeral negative raw (suc (suc dots)) = failed

  abbrev number_token : (negative : Bool) → String → Result Token
  number_token negative raw = numeral negative raw (count_dots raw)

  abbrev pub read_number : (negative : Bool) → String → Result (Option Token × String)
  read_number negative s =
      let (raw, rest) = span is_numeral s in number_token negative raw >>= λ t. ok (some t, rest)

  -- One round of the loop, at a character that is no space.
  unfoldable pub lex_one : Char → String → Result (Option Token × String)
  unfolding read_string span read_op word_token numeral
  lex_one c s =
      if is c 40
      then ok (some lparen, s)
      else if is c 41
      then ok (some rparen, s)
      else if is c 44
      then ok (some comma, s)
      else if is_quote c
      then with_token string (read_string s)
      else if is c 61 || is c 33 || is c 60 || is c 62
      then with_token op (read_op c s)
      else if is c 45 && begins_digit s
      then read_number true s
      else if is_digit c
      then read_number false (String.◌∷◌ c s)
      else if is c 46
      then ok (some dot, s)
      else if is_alpha c || is c 95
      then with_token word_token (span is_word (String.◌∷◌ c s))
      else ok (none, s)

  -- A round after the spaces; `next` is the rest of the loop.
  abbrev pub round : (next : String → Result (List Token)) → String → Result (List Token)
  round next String.[] = ok []
  round next (String.◌∷◌ c s) = lex_one c s >>= λ (t, rest). next rest >>= λ ts. ok (add_token t ts)

  -- The loop of `_tokenize`; each round takes at least one character.
  unfoldable pub lex : ℕ → String → Result (List Token)
  unfolding skip_ws
  lex zero s = unfinished
  lex (suc f) s = round (lex f) (skip_ws s)

abbrev pub size : String → ℕ
size String.[] = 0
size (String.◌∷◌ c s) = suc (size s)

unfoldable pub tokenize : (String → String) → String → Result (List Token)
unfolding lex lex_one
tokenize float_text s = lex float_text (suc (size s)) s
