-- ===== src/Access/RowSecurity.antt =====
-- qndb/security/authorization/rls.py: which rows a user sees, and which columns are masked. A policy's
-- predicate and a mask's function are callables of the caller, which do not raise here.
pub mod Visibility
use Prim.Native.Char.{Char}
use Prim.Native.String
use quantum_database.Prelude.{
  ℕ, zero, suc, String, Bool, true, false, not, ◌&&◌, ◌||◌, List, [], ◌∷◌, map, Option, none, some,
  if◌then◌else◌, leb, ◌==◌, string_key, any, filter, contains, meets, Dict, lookup, insert,
}
use quantum_database.Access.Models.{User}
use quantum_database.Query.Lexer.{size}
use quantum_database.Query.Rows.{Value, Row, str}

pub record RlsPolicy (F : Type 0) : Type 0 where
  pub policy_id : String
  pub resource_id : String
  pub predicate : Row F → User → Bool
  pub applies_to : Option (List String)
  pub policy_type : String

pub record ColumnMask (F : Type 0) : Type 0 where
  pub mask_fn : Value F → User → Value F
  pub exempt_roles : List String

-- The repetition of a star, and the last character, of what follows the first
abbrev stars_to_last : String → String
stars_to_last String.[] = String.[]
stars_to_last (String.◌∷◌ c String.[]) = String.◌∷◌ c String.[]
stars_to_last (String.◌∷◌ c (String.◌∷◌ d s)) = String.◌∷◌ "*" (stars_to_last (String.◌∷◌ d s))

abbrev masked_text : String → String
masked_text String.[] = "***"
masked_text (String.◌∷◌ c s) = if leb (size s) 1 then "***" else String.◌∷◌ c (stars_to_last s)

abbrev pub shown : (has_permissive : Bool) → Bool × Bool → Bool
shown has_permissive (permissive_ok, restrictive_block) =
    if has_permissive && not permissive_ok then false else not restrictive_block

abbrev pub is_admin : User → Bool
is_admin user = contains "admin" user.roles

module _ {F : Type 0} where
  abbrev pub is_permissive : RlsPolicy F → Bool
  is_permissive p = p.policy_type == "permissive"

  -- `self.applies_to.intersection(user.roles)`, where None applies to all
  abbrev pub targets : RlsPolicy F → User → Bool
  targets p user = elim p.applies_to [ none ↦ true | some roles ↦ meets roles user.roles ]

  -- `RLSPolicy.evaluate`
  unfoldable pub passes : RlsPolicy F → User → Row F → Bool
  passes p user row = if targets p user then p.predicate row user else is_permissive p

  -- The loop over the policies: `permissive_ok` and `restrictive_block`
  unfoldable pub judge : List (RlsPolicy F) → User → Row F → Bool × Bool → Bool × Bool
  unfolding passes
  judge [] user row flags = flags
  judge (p ∷ ps) user row (permissive_ok, restrictive_block) = judge ps user row (
      if is_permissive p
      then (permissive_ok || passes p user row, restrictive_block)
      else (permissive_ok, restrictive_block || not (passes p user row)))

  -- `filter_rows`
  unfoldable pub filter_rows : List (RlsPolicy F) → User → List (Row F) → List (Row F)
  unfolding judge
  filter_rows [] user rows = rows
  filter_rows (p ∷ ps) user rows =
      if is_admin user
      then rows
      else filter
          (λ row. shown (any is_permissive (p ∷ ps)) (judge (p ∷ ps) user row (false, false))) rows

  unfoldable pub default_mask : Value F → User → Value F
  default_mask (str s) user = str (masked_text s)
  default_mask v user = str "***"

  -- `ColumnMask.apply`
  unfoldable pub apply : ColumnMask F → User → Value F → Value F
  apply m user v = if meets m.exempt_roles user.roles then v else m.mask_fn v user

  unfoldable pub mask_row : Dict String (ColumnMask F) → User → Row F → Row F
  unfolding apply
  mask_row [] user row = row
  mask_row ((col, m) ∷ masks) user row =
      mask_row masks user
        (elim (lookup col row) [ none ↦ row | some v ↦ insert col (apply m user v) row ])

  -- `apply_column_masks`
  unfoldable pub apply_column_masks :
      Dict String (ColumnMask F) → User → List (Row F) → List (Row F)
  unfolding mask_row
  apply_column_masks [] user rows = rows
  apply_column_masks (m ∷ masks) user rows =
      if is_admin user then rows else map (mask_row (m ∷ masks) user) rows
