-- ===== src/Query/Params.antt =====
-- qndb/interface/query/parser.py: `_substitute_params`, and the comments that `_normalize_query` strips. It
-- strips them before it sets the literals aside, so it strips them in literals as well.
pub mod Quoting
use Prim.Native.String
use Prim.Native.Char.{Char, code}
use quantum_database.Prelude.{
  ℕ, zero, suc, ◌+◌, ◌-◌, String, Bool, true, false, not, ◌&&◌, Option, none, some, List, [], ◌∷◌,
  if◌then◌else◌, ◌==◌, nat_key, Dict,
}
use quantum_database.Query.Texts.{newline}
use quantum_database.Query.Lexer.{is_quote}

abbrev pub starts_with : (prefix text : String) → Bool
starts_with String.[] text = true
starts_with (String.◌∷◌ c p) String.[] = false
starts_with (String.◌∷◌ c p) (String.◌∷◌ d t) = code c == code d && starts_with p t

unfoldable pub size : String → ℕ
size String.[] = 0
size (String.◌∷◌ c s) = suc (size s)

-- `text.replace(old, new)`, with the number of characters to pass over first
unfoldable pub replace : (old new : String) (skip : ℕ) (text : String) → String
unfolding size
replace old new skip String.[] = String.[]
replace old new (suc skip) (String.◌∷◌ c s) = replace old new skip s
replace old new zero (String.◌∷◌ c s) =
    let found = starts_with old (String.◌∷◌ c s) in
    let rest = replace old new (if found then size old - 1 else 0) s in
    if found then String.◌++◌ new rest else String.◌∷◌ c rest

-- `value.replace("'", "''")`, with a text after it
unfoldable pub escaped : String → String → String
escaped String.[] rest = rest
escaped (String.◌∷◌ c s) rest =
    let more = escaped s rest in
    if is_quote c then String.◌∷◌ c (String.◌∷◌ c more) else String.◌∷◌ c more

abbrev pub quote : Char
quote = "'"

-- The literal that takes the place of a parameter that is a text, with what stands after it.
abbrev pub quoted : String → String → String
quoted s rest = String.◌∷◌ quote (escaped s (String.◌∷◌ quote rest))

-- A value of a parameter; `str` gives the text of a number and of any other object.
pub data Param : Type 0 where
  text number other : String → Param
  null : Param
  bool : Bool → Param

unfoldable pub param_literal : Param → String
unfolding escaped
param_literal (text s) = quoted s ""
param_literal (number s) = s
param_literal (other s) = quoted s ""
param_literal null = "NULL"
param_literal (bool b) = if b then "TRUE" else "FALSE"

-- The parameters in the order of the dictionary: a later one is replaced in the literals of earlier ones.
unfoldable pub substitute_params : String → Dict String Param → String
unfolding replace param_literal
substitute_params query [] = query
substitute_params query ((key, value) ∷ params) =
    substitute_params (replace (String.◌∷◌ ":" key) (param_literal value) 0 query) params

-- `re.sub(r'--.*?$', '', query, flags=re.MULTILINE)`, within a comment or not
unfoldable pub strip_line_comments : (inside : Bool) → String → String
strip_line_comments inside String.[] = String.[]
strip_line_comments inside (String.◌∷◌ c s) =
    let inside' = if inside then not (newline c) else starts_with "--" (String.◌∷◌ c s) in
    let rest = strip_line_comments inside' s in if inside' then rest else String.◌∷◌ c rest

-- The number of characters up to the end of a comment, if it ends
unfoldable pub to_end : String → Option ℕ
to_end String.[] = none
to_end (String.◌∷◌ c s) =
    let rest = to_end s in
    if starts_with "*/" (String.◌∷◌ c s)
    then some 2
    else elim rest [ none ↦ none | some n ↦ some (suc n) ]

-- The length of the comment at the start of the text, 0 where none is
unfoldable pub comment_size : String → ℕ
unfolding to_end
comment_size (String.◌∷◌ c (String.◌∷◌ d s)) =
    if starts_with "/*" (String.◌∷◌ c (String.◌∷◌ d s))
    then elim (to_end s) [ none ↦ 0 | some n ↦ n + 2 ]
    else 0
comment_size _ = 0

-- `re.sub(r'/\*.*?\*/', '', query, flags=re.DOTALL)`, with the number of characters left of a comment
unfoldable pub strip_block_comments : (skip : ℕ) → String → String
unfolding comment_size
strip_block_comments skip String.[] = String.[]
strip_block_comments (suc skip) (String.◌∷◌ c s) = strip_block_comments skip s
strip_block_comments zero (String.◌∷◌ c s) =
    let n = comment_size (String.◌∷◌ c s) in
    let rest = strip_block_comments (n - 1) s in if n == 0 then String.◌∷◌ c rest else rest

unfoldable pub strip_comments : String → String
unfolding strip_line_comments strip_block_comments
strip_comments query = strip_block_comments 0 (strip_line_comments false query)
