-- ===== src/Query/Lexer/Ending.antt =====
-- The tokenizer ends on every text.
use Prim.Native.Char.{Char}
use quantum_database.Prelude.{
  ℕ, zero, suc, ◌≤◌, ◌<◌, ◌≡◌, ◌≢◌, refl, String, Bool, true, false, ◌&&◌, ◌||◌, List, Option,
  if◌then◌else◌, nat_key, arith, if_ind,
}
use quantum_database.Query.Result.{
  Result, unfinished, Ends, gives, raises, Ends-bind, Ends-ne-unfinished,
}
use quantum_database.Query.Token.{Token}
use quantum_database.Query.Lexer.{
  skip_ws, read_string, span, read_op, numeral, read_number, is_numeral, is_digit, is_alpha, is,
  lex_one, lex, size, tokenize, round, begins_digit, is_quote, is_space, is_pair, is_word,
}

skip_ws-le : (s : String) → size (skip_ws s) ≤ size s
unfolding skip_ws
skip_ws-le String.[] = omega arith
skip_ws-le (String.◌∷◌ c s) =
    if_ind (λ r. size r ≤ suc (size s)) (is_space c) (λ _. omega (arith, skip_ws-le s))
      (λ _. omega arith)

read_string-le : (s : String) → size (read_string s).1 ≤ size s
unfolding read_string
read_string-le String.[] = omega arith
read_string-le (String.◌∷◌ c String.[]) =
    if_ind {A = String × String} (λ r. size r.1 ≤ 1) (is_quote c) (λ _. omega arith)
      (λ _. omega arith)
read_string-le (String.◌∷◌ c (String.◌∷◌ d s)) =
    let P = λ (r : String × String). size r.1 ≤ suc (suc (size s)) in
    if_ind P (is_quote c)
      (λ _. if_ind P (is_quote d) (λ _. omega (arith, read_string-le s)) (λ _. omega arith))
      (λ _. omega (arith, read_string-le (String.◌∷◌ d s)))

span-le : (p : Char → Bool) (s : String) → size (span p s).1 ≤ size s
unfolding span
span-le p String.[] = omega arith
span-le p (String.◌∷◌ c s) =
    if_ind {A = String × String} (λ r. size r.1 ≤ suc (size s)) (p c)
      (λ _. omega (arith, span-le p s)) (λ _. omega arith)

-- A character that passes is taken.
span-lt :
    (p : Char → Bool) (c : Char) (s : String)
    → p c ≡ true
    → size (span p (String.◌∷◌ c s)).1 ≤ size s
unfolding span
span-lt p c s h = rw h (span-le p s)

read_op-le : (c : Char) (s : String) → size (read_op c s).1 ≤ size s
unfolding read_op
read_op-le c String.[] = omega arith
read_op-le c (String.◌∷◌ d s) =
    if_ind {A = String × String} (λ r. size r.1 ≤ suc (size s)) (is_pair c d) (λ _. omega arith)
      (λ _. omega arith)

word_of : (c : Char) → (is_alpha c || is c 95) ≡ true → is_word c ≡ true
word_of c h = ground (arith, h)

numeral_of : (c : Char) → is_digit c ≡ true → is_numeral c ≡ true
numeral_of c h = ground (arith, h)

abbrev Left : ℕ → Option Token × String → Type 0
Left n r = size r.1 ≤ n

by_test :
    (b : Bool) {x y : Result (Option Token × String)} {n : ℕ}
    → (b ≡ true → Ends (Left n) x)
    → Ends (Left n) y
    → Ends (Left n) (if b then x else y)
by_test true h k = h refl
by_test false h k = k

module _ (float_text : String → String) where
  numeral-Ends :
      (b : Bool) (raw : String) (dots : ℕ) → Ends (λ t. Unit {0}) (numeral float_text b raw dots)
  unfolding numeral
  numeral-Ends b raw zero = gives tt
  numeral-Ends b raw (suc zero) = gives tt
  numeral-Ends b raw (suc (suc dots)) = raises

  number-Ends :
      (b : Bool) (s : String) (n : ℕ)
      → size (span is_numeral s).1 ≤ n
      → Ends (Left n) (read_number float_text b s)
  number-Ends b s n h = Ends-bind (numeral-Ends b (span is_numeral s).0 _) λ t u. gives h

  lex_one-Ends : (c : Char) (s : String) → Ends (Left (size s)) (lex_one float_text c s)
  unfolding lex_one
  lex_one-Ends c s =
      by_test (is c 40) (λ _. gives (omega arith))
        (by_test (is c 41) (λ _. gives (omega arith))
          (by_test (is c 44) (λ _. gives (omega arith))
            (by_test (is_quote c) (λ _. gives (read_string-le s))
              (by_test (is c 61 || is c 33 || is c 60 || is c 62) (λ _. gives (read_op-le c s))
                (by_test (is c 45 && begins_digit s)
                  (λ _. number-Ends true s (size s) (span-le is_numeral s))
                  (by_test (is_digit c)
                    (λ h.
                      number-Ends false (String.◌∷◌ c s) (size s)
                        (span-lt is_numeral c s (numeral_of c h)))
                    (by_test (is c 46) (λ _. gives (omega arith))
                      (by_test (is_alpha c || is c 95)
                        (λ h. gives (span-lt is_word c s (word_of c h)))
                        (gives (omega arith))))))))))

  round-Ends :
      (next : String → Result (List Token)) (s : String) (n : ℕ)
      → ((r : String) → size r < n → Ends (λ ts. Unit {0}) (next r))
      → size s ≤ n
      → Ends (λ ts. Unit {0}) (round float_text next s)
  round-Ends next String.[] n h le = gives tt
  round-Ends next (String.◌∷◌ c s) n h le =
      Ends-bind (lex_one-Ends c s) λ r l. Ends-bind (h r.1 (omega arith)) λ ts u. gives tt

  lex-Ends : (f : ℕ) (s : String) → size s < f → Ends (λ ts. Unit {0}) (lex float_text f s)
  unfolding lex
  lex-Ends zero s h = absurd (omega arith)
  lex-Ends (suc f) s h =
      round-Ends (lex float_text f) (skip_ws s) f (lex-Ends f) (omega (arith, h, skip_ws-le s))

-- Every text is tokenized or refused.
pub tokenize-ne-unfinished :
    (float_text : String → String) (s : String) → tokenize float_text s ≢ unfinished
unfolding tokenize
tokenize-ne-unfinished float_text s =
    Ends-ne-unfinished (lex-Ends float_text (suc (size s)) s (omega arith))
