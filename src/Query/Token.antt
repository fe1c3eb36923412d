-- ===== src/Query/Token.antt =====
-- qndb/interface/query/tokenizer.py: the tokens of `WhereTokenizer`, and what `str` makes of their values.
-- A float is known by its text, the one that `str` gives it.

use Prim.Native.String.{◌++◌}
use quantum_database.Prelude.{ℕ, zero, suc, ◌/◌, ◌%◌, String, if◌then◌else◌, leb, ℤ, pos, negsuc}

pub data Keyword : Type 0 where
  and_kw or_kw not_kw in_kw between_kw like_kw is_kw null_kw exists_kw true_kw false_kw : Keyword

pub data Token : Type 0 where
  lparen rparen comma dot : Token
  string : String → Token
  op : String → Token
  whole : ℤ → Token
  float : String → Token
  keyword : Keyword → Token
  ident : String → Token

abbrev digit : ℕ → String
digit zero = "0"
digit (suc zero) = "1"
digit (suc (suc zero)) = "2"
digit (suc (suc (suc zero))) = "3"
digit (suc (suc (suc (suc zero)))) = "4"
digit (suc (suc (suc (suc (suc zero))))) = "5"
digit (suc (suc (suc (suc (suc (suc zero)))))) = "6"
digit (suc (suc (suc (suc (suc (suc (suc zero))))))) = "7"
digit (suc (suc (suc (suc (suc (suc (suc (suc zero)))))))) = "8"
digit n = "9"

-- One unit of fuel for each digit; a number has fewer digits than units.
digits : ℕ → ℕ → String
digits zero n = ""
digits (suc f) n =
    let high = digits f (n / 10) ++ digit (n % 10) in if leb 10 n then high else digit n

unfoldable pub int_text : ℤ → String
unfolding digits
int_text (pos n) = digits (suc n) n
int_text (negsuc n) = "-" ++ digits (suc (suc n)) (suc n)

abbrev keyword_text : Keyword → String
keyword_text and_kw = "AND"
keyword_text or_kw = "OR"
keyword_text not_kw = "NOT"
keyword_text in_kw = "IN"
keyword_text between_kw = "BETWEEN"
keyword_text like_kw = "LIKE"
keyword_text is_kw = "IS"
keyword_text null_kw = "NULL"
keyword_text exists_kw = "EXISTS"
keyword_text true_kw = "TRUE"
keyword_text false_kw = "FALSE"

-- `str(token[1])`
unfoldable pub token_text : Token → String
unfolding int_text
token_text lparen = "("
token_text rparen = ")"
token_text comma = ","
token_text dot = "."
token_text (string s) = s
token_text (op o) = o
token_text (whole n) = int_text n
token_text (float s) = s
token_text (keyword k) = keyword_text k
token_text (ident s) = s
