-- ===== src/Access/RowSecurity/Visibility.antt =====
-- Which rows policies let through.
use quantum_database.Prelude.{
  ◌≡◌, refl, sym, ap, ◌∙◌, Bool, true, false, not, ◌&&◌, ◌||◌, List, [], ◌∷◌, ◌++◌, if◌then◌else◌,
  any, filter, string_key, arith,
}
use quantum_database.Access.Models.{User}
use quantum_database.Query.Rows.{Row}
use quantum_database.Access.RowSecurity.{
  RlsPolicy, is_permissive, targets, passes, judge, shown, is_admin, filter_rows,
}

shown_lem : (has ok block : Bool) → shown has (ok, block) ≡ ((not has || ok) && not block)
shown_lem true true block = refl
shown_lem true false block = refl
shown_lem false ok block = refl

or_true : (b : Bool) → (b || true) ≡ true
or_true true = refl
or_true false = refl

hidden : (a b : Bool) → b ≡ true → (a && not b) ≡ false
hidden a b h = ground (arith, h)

-- One turn of the loop over the policies
turn_lem :
    (permissive pass : Bool) (flags : Bool × Bool) (a b : Bool)
    → let next : Bool × Bool =
        if permissive then (flags.0 || pass, flags.1) else (flags.0, flags.1 || not pass) in
      ◌≡◌ {A = Bool × Bool}
        (next.0 || a, next.1 || b)
        (flags.0 || (permissive && pass || a), flags.1 || (not permissive && not pass || b))
turn_lem true pass (true, block) a b = refl
turn_lem true pass (false, block) a b = refl
turn_lem false pass (ok, true) a b = refl
turn_lem false pass (ok, false) a b = refl

module _ {F : Type 0} where
  abbrev permits : User → Row F → RlsPolicy F → Bool
  permits user row p = is_permissive p && passes p user row

  abbrev blocks : User → Row F → RlsPolicy F → Bool
  blocks user row p = not (is_permissive p) && not (passes p user row)

  -- A row is seen if some permissive policy passes, or none is permissive, and no restrictive policy fails.
  abbrev pub may_see : List (RlsPolicy F) → User → Row F → Bool
  may_see ps user row =
      (not (any is_permissive ps) || any (permits user row) ps) && not (any (blocks user row) ps)

  judge_lem :
      (ps : List (RlsPolicy F)) (user : User) (row : Row F) (flags : Bool × Bool)
      → judge ps user row flags
        ≡ (flags.0 || any (permits user row) ps, flags.1 || any (blocks user row) ps)
  unfolding judge
  judge_lem [] user row (true, true) = refl
  judge_lem [] user row (true, false) = refl
  judge_lem [] user row (false, true) = refl
  judge_lem [] user row (false, false) = refl
  judge_lem (p ∷ ps) user row flags =
      judge_lem ps user row (
        if is_permissive p
        then (flags.0 || passes p user row, flags.1)
        else (flags.0, flags.1 || not (passes p user row)))
      ∙ turn_lem (is_permissive p) (passes p user row) flags (any (permits user row) ps)
          (any (blocks user row) ps)

  filter_cong :
      (f g : Row F → Bool) (rows : List (Row F))
      → ((row : Row F) → f row ≡ g row)
      → filter f rows ≡ filter g rows
  filter_cong f g [] h = refl
  filter_cong f g (row ∷ rows) h = rw (h row, filter_cong f g rows h) refl

  filter-true : (rows : List (Row F)) → filter (λ row. true) rows ≡ rows
  filter-true [] = refl
  filter-true (row ∷ rows) = ap (λ rs. row ∷ rs) (filter-true rows)

  -- For a user who is no admin, the loop over the policies lets through exactly the rows that a permissive
  -- policy passes, or all if none is permissive, without those that a restrictive policy does not pass.
  pub filter_rows-may_see :
      (ps : List (RlsPolicy F)) (user : User) (rows : List (Row F))
      → is_admin user ≡ false
      → filter_rows ps user rows ≡ filter (may_see ps user) rows
  unfolding filter_rows
  filter_rows-may_see [] user rows h = sym (filter-true rows)
  filter_rows-may_see (p ∷ ps) user rows h = rw h (
      filter_cong
        (λ row. shown (any is_permissive (p ∷ ps)) (judge (p ∷ ps) user row (false, false)))
        (may_see (p ∷ ps) user) rows
        (λ row.
          ap (shown (any is_permissive (p ∷ ps))) (judge_lem (p ∷ ps) user row (false, false))
          ∙ shown_lem (any is_permissive (p ∷ ps)) (any (permits user row) (p ∷ ps))
              (any (blocks user row) (p ∷ ps))))

  -- A policy, first or later, that is not meant for the user
  any-append :
      (f : RlsPolicy F → Bool) (before after : List (RlsPolicy F)) (p : RlsPolicy F)
      → f p ≡ true
      → any f (before ++ p ∷ after) ≡ true
  any-append f [] after p h = rw h refl
  any-append f (q ∷ before) after p h = rw (any-append f before after p h) (or_true (f q))

  filter-false :
      (f : Row F → Bool) (rows : List (Row F))
      → ((row : Row F) → f row ≡ false)
      → filter f rows ≡ []
  filter-false f [] h = refl
  filter-false f (row ∷ rows) h = rw (h row, filter-false f rows h) refl

  -- A restrictive policy that applies to none of the roles of a user who is no admin hides all rows from
  -- that user, whatever the other policies are.
  pub filter_rows-untargeted :
      (before after : List (RlsPolicy F)) (p : RlsPolicy F) (user : User) (rows : List (Row F))
      → is_admin user ≡ false
      → is_permissive p ≡ false
      → targets p user ≡ false
      → filter_rows (before ++ p ∷ after) user rows ≡ []
  unfolding passes
  filter_rows-untargeted before after p user rows h q t =
      filter_rows-may_see (before ++ p ∷ after) user rows h
      ∙ filter-false (may_see (before ++ p ∷ after) user) rows (λ row.
        hidden _ (any (blocks user row) (before ++ p ∷ after))
          (any-append (blocks user row) before after p (rw (q, t) refl)))
