-- ===== src/Query/Params/Quoting.antt =====
-- qndb/interface/query/parser.py: a text that `_substitute_params` quotes, read back by the tokenizer. What
-- later parameters and `_normalize_query` make of it in between is not considered here.
use Prim.Native.Char.{Char}
use quantum_database.Prelude.{
  ℕ, suc, ◌≡◌, refl, String, Bool, true, false, ◌∷◌, Bool-cases, inl, inr, nat_key,
}
use quantum_database.Query.Result.{ok, ◌>>=◌}
use quantum_database.Query.Token.{string}
use quantum_database.Query.Params.{escaped, quote, quoted}
use quantum_database.Query.Lexer.{read_string, lex_one, lex, is_quote, push, skip_ws}

abbrev pub begins_quote : String → Bool
begins_quote String.[] = false
begins_quote (String.◌∷◌ c s) = is_quote c

read_string-end :
    (rest : String)
    → begins_quote rest ≡ false
    → read_string (String.◌∷◌ quote rest) ≡ (String.[], rest)
unfolding read_string
read_string-end String.[] h = refl
read_string-end (String.◌∷◌ c s) h = rw h

-- A doubled quote is a quote.
read_string-doubled :
    (c : Char) (t : String)
    → is_quote c ≡ true
    → read_string (String.◌∷◌ c (String.◌∷◌ c t)) ≡ push c (read_string t)
unfolding read_string
read_string-doubled c t h = rw h

-- Another character stands for itself.
read_string-other :
    (c : Char) (t : String)
    → is_quote c ≡ false
    → read_string (String.◌∷◌ c t) ≡ push c (read_string t)
unfolding read_string
read_string-other c String.[] h = rw h
read_string-other c (String.◌∷◌ d t) h = rw h

-- What the tokenizer reads after the opening quote of an escaped text is the text, up to the closing quote.
pub read_string-escaped :
    (s rest : String)
    → begins_quote rest ≡ false
    → read_string (escaped s (String.◌∷◌ quote rest)) ≡ (s, rest)
unfolding escaped
read_string-escaped String.[] rest h = read_string-end rest h
read_string-escaped (String.◌∷◌ c s) rest h = elim (Bool-cases (is_quote c)) [
  | inl same ↦ rw (
    same,
    read_string-doubled c (escaped s (String.◌∷◌ quote rest)) same,
    read_string-escaped s rest h,
  )
  | inr other ↦ rw (
    other,
    read_string-other c (escaped s (String.◌∷◌ quote rest)) other,
    read_string-escaped s rest h,
  )
]

-- A quoted text is one token, whatever quotes it holds, and the tokens of what stands after it follow.
pub lex-quoted :
    (float_text : String → String) (f : ℕ) (s rest : String)
    → begins_quote rest ≡ false
    → lex float_text (suc f) (quoted s rest) ≡ (lex float_text f rest >>= λ ts. ok (string s ∷ ts))
unfolding lex lex_one skip_ws
lex-quoted float_text f s rest h = rw (read_string-escaped s rest h)
