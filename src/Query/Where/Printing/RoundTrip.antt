-- ===== src/Query/Where/Printing/RoundTrip.antt =====
-- The parser reads a printed condition off the front of its input.
use quantum_database.Prelude.{
  ℕ, zero, suc, ◌+◌, ◌-◌, ◌*◌, ◌<◌, ◌≤◌, ◌≡◌, refl, ◌∙◌, sym, ap, true, false, some, [], ◌∷◌, ◌++◌,
  arith, length, length-append,
}
use mathlib.Core.List.{append_assoc, append-nil}
use quantum_database.Query.Result.{ok, ◌>>=◌}
use quantum_database.Query.Token.{Token, rparen, keyword, and_kw, or_kw, not_kw}
use quantum_database.Query.Where.{
  Tokens, Cond, comparison, and, or, not, among, between, like, is_null, exists, name_rest,
  skip_group, parse_comparison, parse_is, negated_pred, field_pred, parse_exists, or_expr, or_more,
  and_expr, and_more, not_expr, parse,
}
use quantum_database.Query.Where.Printing.{
  Level, any, conjunct, operand, in_parens, print, IsPrintable, value-print, in-print,
  between-print, like-print,
}

-- What follows does not go on with AND, or with OR.
abbrev StopsAnd : Tokens → Type 0
StopsAnd (keyword and_kw ∷ ts) = ⊥
StopsAnd _ = Unit

abbrev StopsOr : Tokens → Type 0
StopsOr (keyword or_kw ∷ ts) = ⊥
StopsOr _ = Unit

-- At each level, with enough fuel: the tokens are read as the condition. The loops of AND and OR are
-- left at the condition, with the fuel `g` that is then left.
abbrev Operand : Tokens → Cond → Type 0
Operand ts c =
    (rest : Tokens) (f : ℕ) → 4 * length ts + 1 < f → not_expr f (ts ++ rest) ≡ ok (c, rest)

abbrev Conjunct : Tokens → Cond → Type 0
Conjunct ts c =
    (rest : Tokens) (f : ℕ)
    → 4 * length ts + 2 < f
    → (g : ℕ) × (f ≤ suc g + length ts) × (and_expr f (ts ++ rest) ≡ and_more g c rest)

abbrev Whole : Tokens → Cond → Type 0
Whole ts c =
    (rest : Tokens) (f : ℕ)
    → StopsAnd rest
    → 4 * length ts + 3 < f
    → (g : ℕ) × (f ≤ suc g + length ts) × (or_expr f (ts ++ rest) ≡ or_more g c rest)

and_more-stop :
    (g : ℕ) (c : Cond) (rest : Tokens) → StopsAnd rest → 0 < g → and_more g c rest ≡ ok (c, rest)
unfolding and_more
and_more-stop zero c rest h pos = absurd (omega arith)
and_more-stop (suc g) c (keyword and_kw ∷ rest) h pos = absurd h
and_more-stop (suc g) c [] h pos = refl
and_more-stop (suc g) c (_ ∷ rest) h pos = refl

or_more-stop :
    (g : ℕ) (c : Cond) (rest : Tokens) → StopsOr rest → 0 < g → or_more g c rest ≡ ok (c, rest)
unfolding or_more
or_more-stop zero c rest h pos = absurd (omega arith)
or_more-stop (suc g) c (keyword or_kw ∷ rest) h pos = absurd h
or_more-stop (suc g) c [] h pos = refl
or_more-stop (suc g) c (_ ∷ rest) h pos = refl

Conjunct-Operand : (ts : Tokens) (c : Cond) → Operand ts c → Conjunct ts c
unfolding and_expr
Conjunct-Operand ts c h rest zero enough = absurd (omega arith)
Conjunct-Operand ts c h rest (suc f) enough = (f, omega arith, rw (h rest f (omega arith)))

Whole-Conjunct : (ts : Tokens) (c : Cond) → Conjunct ts c → Whole ts c
unfolding or_expr
Whole-Conjunct ts c h rest zero stops enough = absurd (omega arith)
Whole-Conjunct ts c h rest (suc f) stops enough =
    let (g, left, e) = h rest f (omega arith) in
    (f, omega arith, rw (e, and_more-stop g c rest stops (omega arith)))

length-join : (ts us : Tokens) (t : Token) → length (ts ++ t ∷ us) ≡ suc (length ts + length us)
length-join ts us t = omega (arith, length-append ts (t ∷ us))

Conjunct-and :
    (ts us : Tokens) (a b : Cond)
    → Conjunct ts a
    → Operand us b
    → Conjunct (ts ++ keyword and_kw ∷ us) (and a b)
unfolding and_more
Conjunct-and ts us a b ha hb rest f enough =
    let long = length-join ts us (keyword and_kw) in
    let after = keyword and_kw ∷ (us ++ rest) in
    let (g, left, e) = ha after f (omega arith) in
    let one : g ≡ suc (g - 1) = omega arith in
    (
      g - 1,
      omega arith,
      rw (
        append_assoc ts (keyword and_kw ∷ us) rest,
        e ∙ ap (λ n. and_more n a after) one,
        hb rest (g - 1) (omega arith),
      ),
    )

Whole-or :
    (ts us : Tokens) (a b : Cond)
    → Whole ts a
    → Conjunct us b
    → Whole (ts ++ keyword or_kw ∷ us) (or a b)
unfolding or_more
Whole-or ts us a b ha hb rest f stops enough =
    let long = length-join ts us (keyword or_kw) in
    let after = keyword or_kw ∷ (us ++ rest) in
    let (g, left, e) = ha after f tt (omega arith) in
    let one : g ≡ suc (g - 1) = omega arith in
    let (k, left', e') = hb rest (g - 1) (omega arith) in
    (
      g - 1,
      omega arith,
      rw (
        append_assoc ts (keyword or_kw ∷ us) rest,
        e ∙ ap (λ n. or_more n a after) one,
        e',
        and_more-stop k b rest stops (omega arith),
      ),
    )

Operand-in_parens : (ts : Tokens) (c : Cond) → Whole ts c → Operand (in_parens ts) c
unfolding not_expr
Operand-in_parens ts c h rest zero enough = absurd (omega arith)
Operand-in_parens ts c h rest (suc zero) enough = absurd (omega arith)
Operand-in_parens ts c h rest (suc (suc f)) enough =
    let long = length-append ts (rparen ∷ []) in
    let (g, left, e) = h (rparen ∷ rest) f tt (omega arith) in
    rw (append_assoc ts (rparen ∷ []) rest, e, or_more-stop g c (rparen ∷ rest) tt (omega arith))

-- Two units of fuel lead from an operand to a condition that begins with a field, or with EXISTS.
Operand-atom :
    (ts : Tokens) (c : Cond)
    → ((rest : Tokens) (f : ℕ) → not_expr (suc (suc f)) (ts ++ rest) ≡ ok (c, rest))
    → Operand ts c
Operand-atom ts c h rest zero enough = absurd (omega arith)
Operand-atom ts c h rest (suc zero) enough = absurd (omega arith)
Operand-atom ts c h rest (suc (suc f)) enough = h rest f

Operand-not : (ts : Tokens) (c : Cond) → Operand ts c → Operand (keyword not_kw ∷ ts) (not c)
unfolding not_expr
Operand-not ts c h rest zero enough = absurd (omega arith)
Operand-not ts c h rest (suc f) enough = rw (h rest f (omega arith))

abbrev ReadsBack : Cond → Type 0
ReadsBack c = Operand (print operand c) c × Conjunct (print conjunct c) c × Whole (print any c) c

-- A condition that never needs parentheses is printed alike at each level.
alike : (ts : Tokens) (c : Cond) → Operand ts c → Operand ts c × Conjunct ts c × Whole ts c
alike ts c h = (h, Conjunct-Operand ts c h, Whole-Conjunct ts c (Conjunct-Operand ts c h))

simple :
    (ts : Tokens) (c : Cond)
    → ((rest : Tokens) (f : ℕ) → not_expr (suc (suc f)) (ts ++ rest) ≡ ok (c, rest))
    → Operand ts c × Conjunct ts c × Whole ts c
simple ts c h = alike ts c (Operand-atom ts c h)

print-ReadsBack : (c : Cond) → IsPrintable c → ReadsBack c
unfolding print not_expr name_rest field_pred parse_exists skip_group negated_pred parse_comparison
    parse_is
print-ReadsBack (or a b) h =
    let ra = print-ReadsBack a h.0 in
    let rb = print-ReadsBack b h.1 in
    let ts = print any a ++ keyword or_kw ∷ print conjunct b in
    let whole = Whole-or (print any a) (print conjunct b) a b ra.2 rb.1 in
    let closed = Operand-in_parens ts (or a b) whole in
    (closed, Conjunct-Operand (in_parens ts) (or a b) closed, whole)
print-ReadsBack (and a b) h =
    let ra = print-ReadsBack a h.0 in
    let rb = print-ReadsBack b h.1 in
    let ts = print conjunct a ++ keyword and_kw ∷ print operand b in
    let joined = Conjunct-and (print conjunct a) (print operand b) a b ra.1 rb.0 in
    let whole = Whole-Conjunct ts (and a b) joined in
    (Operand-in_parens ts (and a b) whole, joined, whole)
print-ReadsBack (not c) h =
    alike (keyword not_kw ∷ print operand c) (not c)
      (Operand-not (print operand c) c (print-ReadsBack c h).0)
print-ReadsBack (comparison field o v) h =
    simple (print any (comparison field o v)) (comparison field o v)
      λ rest f. rw (value-print v rest h.1, h.0)
print-ReadsBack (among field vs false) h =
    simple (print any (among field vs false)) (among field vs false)
      λ rest f. in-print field vs false rest h
print-ReadsBack (among field vs true) h =
    simple (print any (among field vs true)) (among field vs true)
      λ rest f. in-print field vs true rest h
print-ReadsBack (between field low high false) h =
    simple (print any (between field low high false)) (between field low high false)
      λ rest f. between-print field low high false rest h.0 h.1
print-ReadsBack (between field low high true) h =
    simple (print any (between field low high true)) (between field low high true)
      λ rest f. between-print field low high true rest h.0 h.1
print-ReadsBack (like field v false) h =
    simple (print any (like field v false)) (like field v false)
      λ rest f. like-print field v false rest h
print-ReadsBack (like field v true) h =
    simple (print any (like field v true)) (like field v true)
      λ rest f. like-print field v true rest h
print-ReadsBack (is_null field false) h =
    simple (print any (is_null field false)) (is_null field false) λ rest f. refl
print-ReadsBack (is_null field true) h =
    simple (print any (is_null field true)) (is_null field true) λ rest f. refl
print-ReadsBack exists h = simple (print any exists) exists λ rest f. refl

parse-eq :
    (ts : Tokens)
    → 0 < length ts
    → parse ts ≡ (or_expr (4 * length ts + 4) ts >>= λ (c, rest). ok (some c))
unfolding parse
parse-eq [] h = absurd (omega arith)
parse-eq (t ∷ ts) h = refl

length-print_pos : (l : Level) (c : Cond) → 0 < length (print l c)
unfolding print
length-print_pos any (or a b) =
    omega (arith, length-join (print any a) (print conjunct b) (keyword or_kw))
length-print_pos conjunct (or a b) = omega arith
length-print_pos operand (or a b) = omega arith
length-print_pos operand (and a b) = omega arith
length-print_pos any (and a b) =
    omega (arith, length-join (print conjunct a) (print operand b) (keyword and_kw))
length-print_pos conjunct (and a b) =
    omega (arith, length-join (print conjunct a) (print operand b) (keyword and_kw))
length-print_pos l (not c) = omega arith
length-print_pos l (comparison field o v) = omega arith
length-print_pos l (among field vs b) = omega arith
length-print_pos l (between field low high b) = omega arith
length-print_pos l (like field v b) = omega arith
length-print_pos l (is_null field b) = omega arith
length-print_pos l exists = omega arith

-- A condition printed with the parentheses that SQL's precedence asks for, and no others, is what the
-- parser makes of the tokens, if it has no subqueries, no NULL or truth value in a list of values or as a
-- pattern, and != for <>.
pub parse-print : (c : Cond) → IsPrintable c → parse (print any c) ≡ ok (some c)
parse-print c h =
    let ts = print any c in
    let r = (print-ReadsBack c h).2 [] (4 * length ts + 4) tt (omega arith) in
    let (g, left, e) = r in
    let pos = length-print_pos any c in
    let read : or_expr (4 * length ts + 4) ts ≡ ok (c, []) =
      ap (or_expr (4 * length ts + 4)) (sym (append-nil ts))
      ∙ e
      ∙ or_more-stop g c [] tt (omega arith) in
    parse-eq ts pos ∙ rw read
