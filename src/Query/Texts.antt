-- ===== src/Query/Texts.antt =====
-- qndb/interface/query_executor.py: what it asks of Python's texts, which are of ASCII here: `<`, `strip`,
-- `int`, and `re.match` on the expression that a LIKE pattern becomes.
use Prim.Native.Char.{Char, code}
use quantum_database.Prelude.{
  ℕ, ◌+◌, ◌-◌, ◌*◌, String, Bool, true, false, not, ◌&&◌, ◌||◌, Option, none, some, if◌then◌else◌,
  ltb, ◌==◌, nat_key, ℤ,
}
use quantum_database.Query.Lexer.{is, is_space, is_digit, signed, upper}

-- `a < b` on texts
unfoldable pub text_less : String → String → Bool
text_less s String.[] = false
text_less String.[] (String.◌∷◌ d t) = true
text_less (String.◌∷◌ c s) (String.◌∷◌ d t) =
    let rest = text_less s t in ltb (code c) (code d) || (code c == code d && rest)

module _ (p : Char → Bool) where
  abbrev strip_left : String → String
  strip_left String.[] = String.[]
  strip_left (String.◌∷◌ c s) = let rest = strip_left s in if p c then rest else String.◌∷◌ c s

  abbrev drop_last : Char → String → String
  drop_last c String.[] = if p c then String.[] else String.◌∷◌ c String.[]
  drop_last c (String.◌∷◌ d s) = String.◌∷◌ c (String.◌∷◌ d s)

  abbrev strip_right : String → String
  strip_right String.[] = String.[]
  strip_right (String.◌∷◌ c s) = drop_last c (strip_right s)

  unfoldable pub strip : String → String
  strip s = strip_right (strip_left s)

abbrev pub either_quote : Char → Bool
either_quote c = is c 39 || is c 34

-- The digits of `int`, with single underscores between them; `need` where a digit has to follow.
abbrev digits : (need : Bool) → ℕ → String → Option ℕ
digits true acc String.[] = none
digits false acc String.[] = some acc
digits need acc (String.◌∷◌ c s) =
    let taken = digits false (acc * 10 + (code c - 48)) s in
    let between = digits true acc s in
    if is_digit c then taken else if is c 95 && not need then between else none

abbrev with_sign : Bool → Option ℕ → Option ℤ
with_sign negative none = none
with_sign negative (some n) = some (signed negative n)

abbrev signed_digits : String → Option ℤ
signed_digits String.[] = none
signed_digits (String.◌∷◌ c s) =
    if is c 45
    then with_sign true (digits true 0 s)
    else if is c 43
    then with_sign false (digits true 0 s)
    else with_sign false (digits true 0 (String.◌∷◌ c s))

-- `int(text)`, none for ValueError
unfoldable pub parse_int : String → Option ℤ
unfolding strip
parse_int s = signed_digits (strip is_space s)

abbrev pub has_dot : String → Bool
has_dot String.[] = false
has_dot (String.◌∷◌ c s) = is c 46 || has_dot s

abbrev pub newline : Char → Bool
newline c = is c 10

-- `$` at the end of a pattern
abbrev at_end : String → Bool
at_end String.[] = true
at_end (String.◌∷◌ c String.[]) = newline c
at_end (String.◌∷◌ c (String.◌∷◌ d s)) = false

-- `.*`, then the rest of the pattern
abbrev star : (String → Bool) → String → Bool
star next String.[] = next String.[]
star next (String.◌∷◌ c s) =
    let later = star next s in next (String.◌∷◌ c s) || (not (newline c) && later)

abbrev one_char : Char → (String → Bool) → String → Bool
one_char p next String.[] = false
one_char p next (String.◌∷◌ c s) =
    if is p 95 then not (newline c) && next s else upper (code p) == upper (code c) && next s

-- The regular expression that the LIKE pattern becomes, matched without regard to case.
unfoldable pub like_match : String → String → Bool
like_match String.[] s = at_end s
like_match (String.◌∷◌ p ps) s =
    if is p 37 then star (like_match ps) s else one_char p (like_match ps) s
