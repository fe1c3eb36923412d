-- ===== src/Prelude/Dicts.antt =====
-- Python's `dict`: entries in the order of insertion; writing a present key keeps its place.
use mathlib.Core.Path.{◌≡◌, refl, subst}
use mathlib.Core.Logic.{inl, inr}
use mathlib.Core.Bool.{Bool, true, false}
use mathlib.Core.List.{List, [], ◌∷◌, map}
use mathlib.Core.Option.{Option, none, some}
use native.Mathlib.Omega.{arith}
use quantum_database.Prelude.Tests.{Bool-cases, if◌then◌else◌}
use quantum_database.Prelude.Keys.{Key, ◌==◌, ==_refl}
use quantum_database.Prelude.Lists.{all}

abbrev pub Dict {ℓ κ} : Type ℓ → Type κ → Type (ℓ ⊔ κ)
Dict K V = List (K × V)

module _ {ℓ κ} {K : Type ℓ} {V : Type κ} where
  abbrev pub values : Dict K V → List V
  values = map (λ e. e.1)

  abbrev pub keys : Dict K V → List K
  keys = map (λ e. e.0)

module _ {ℓ κ} {K : Type ℓ} {V : Type κ} where
  -- A predicate of all values.
  abbrev pub AllValues {μ} : (V → Type μ) → Dict K V → Type μ
  AllValues P [] = Unit
  AllValues P ((k, v) ∷ m) = P v × AllValues P m

module _ {ℓ κ} {K : Type ℓ} {V : Type κ} ⦃e : Key K⦄ where
  unfoldable pub lookup : K → Dict K V → Option V
  lookup k [] = none
  lookup k ((q, v) ∷ d) = if q == k then some v else lookup k d

  unfoldable pub insert : K → V → Dict K V → Dict K V
  insert k v [] = (k, v) ∷ []
  insert k v ((q, old) ∷ d) = if q == k then (q, v) ∷ d else (q, old) ∷ insert k v d

  -- `d.pop(k, None)`
  unfoldable pub remove : K → Dict K V → Dict K V
  remove k [] = []
  remove k ((q, v) ∷ d) = let rest = remove k d in if q == k then rest else (q, v) ∷ rest

  pub lookup-insert :
      (k q : K) (v : V) (d : Dict K V)
      → lookup q (insert k v d) ≡ (if k == q then some v else lookup q d)
  unfolding lookup insert
  lookup-insert k q v [] = refl
  lookup-insert k q v ((i, old) ∷ d) =
      ground (arith, e.same_iff k q, e.same_iff i k, e.same_iff i q, lookup-insert k q v d)

  pub lookup-remove :
      (k q : K) (d : Dict K V) → lookup q (remove k d) ≡ (if k == q then none else lookup q d)
  unfolding lookup remove
  lookup-remove k q [] = ground arith
  lookup-remove k q ((i, old) ∷ d) =
      ground (arith, e.same_iff k q, e.same_iff i k, e.same_iff i q, lookup-remove k q d)

  pub lookup-insert_self : (k : K) (v : V) (d : Dict K V) → lookup k (insert k v d) ≡ some v
  lookup-insert_self k v d = simp (lookup-insert, ==_refl)

  -- A test that passes on all values passes on the value of a key.
  pub all-lookup :
      (p : V → Bool) (m : Dict K V) (k : K) (v : V)
      → all p (values m) ≡ true
      → lookup k m ≡ some v
      → p v ≡ true
  unfolding lookup
  all-lookup p [] k v h f = cc
  all-lookup p ((j, w) ∷ m) k v h f = ground (arith, all-lookup p m k v)

  pub AllValues-insert {μ} :
      (P : V → Type μ) (k : K) (v : V) (m : Dict K V)
      → P v
      → AllValues P m
      → AllValues P (insert k v m)
  unfolding insert
  AllValues-insert P k v [] h hs = (h, tt)
  AllValues-insert P k v ((j, w) ∷ m) h hs =
      elim (j == k) as (λ b. AllValues P (if b then (j, v) ∷ m else (j, w) ∷ insert k v m)) [
        | true ↦ (h, hs.1)
        | false ↦ (hs.0, AllValues-insert P k v m h hs.1)
      ]

  pub AllValues-lookup {μ} :
      (P : V → Type μ) (k : K) (m : Dict K V) {v : V} → AllValues P m → lookup k m ≡ some v → P v
  unfolding lookup
  AllValues-lookup P k [] hs f = absurd (cc)
  AllValues-lookup P k ((j, w) ∷ m) {v} hs f = elim (Bool-cases (j == k)) [
    | inl here ↦ subst P (ground arith) hs.0
    | inr later ↦ AllValues-lookup P k m hs.1 (ground arith)
  ]

pub ruleset dict_laws = (lookup-insert, lookup-remove, lookup-insert_self)
