-- ===== src/Access/Attributes.antt =====
-- qndb/security/authorization/abac.py: policies on attributes. The attributes are objects of the caller, so
-- the operators on them are a parameter; an operator may raise. The constructors refuse other words for
-- an operator, an effect or a combination. The targets of a policy, which nothing reads, are left out.
pub mod Priority
use quantum_database.Prelude.{
  String, Bool, true, false, not, ◌&&◌, ◌||◌, List, [], ◌∷◌, ◌++◌, Option, none, some,
  if◌then◌else◌, ◌==◌, string_key, any, all, filter, Dict, lookup, ℤ, ltb_ℤ,
}
use quantum_database.Query.Result.{Result, ok, failed, unfinished, ◌>>=◌}

pub data Operator : Type 0 where
  eq ne gt lt gte lte in_op not_in contains_op matches : Operator

-- `==`, `>`, `in` and the like on two attributes, and `re.search` of the second in the text of the first
pub record Operators (A : Type 0) : Type 0 where
  pub apply : Operator → A → A → Result Bool

pub record AbacCondition (A : Type 0) : Type 0 where
  pub attribute : String
  pub operator : Operator
  pub value : A

pub data Effect : Type 0 where
  allow deny : Effect

pub data Combine : Type 0 where
  all_of any_of : Combine

pub record AbacPolicy (A : Type 0) : Type 0 where
  pub policy_id : String
  pub effect : Effect
  pub combine : Combine
  pub priority : ℤ
  pub conditions : List (AbacCondition A)

-- An attribute that is there may be None.
abbrev pub Context : Type 0 → Type 0
Context A = Dict String (Option A)

abbrev combined : Combine → List Bool → Bool
combined all_of bs = all (λ b. b) bs
combined any_of bs = any (λ b. b) bs

abbrev allows : Effect → Bool
allows allow = true
allows deny = false

module _ {A : Type 0} ⦃ops : Operators A⦄ where
  abbrev applied : AbacCondition A → Option (Option A) → Result Bool
  applied c none = ok false
  applied c (some none) = ok false
  applied c (some (some actual)) = ops.apply c.operator actual c.value

  -- `ABACCondition.evaluate`
  unfoldable pub condition_holds : Context A → AbacCondition A → Result Bool
  unfolding lookup
  condition_holds context c = applied c (lookup c.attribute context)

  unfoldable pub condition_results : Context A → List (AbacCondition A) → Result (List Bool)
  unfolding condition_holds
  condition_results context [] = ok []
  condition_results context (c ∷ cs) =
      condition_holds context c >>= λ b. condition_results context cs >>= λ bs. ok (b ∷ bs)

  abbrev decided : AbacPolicy A → List Bool → Option Bool
  decided p bs = if combined p.combine bs then some (allows p.effect) else none

  abbrev evaluate_all : Context A → AbacPolicy A → List (AbacCondition A) → Result (Option Bool)
  evaluate_all context p [] = ok none
  evaluate_all context p (c ∷ cs) = condition_results context (c ∷ cs) >>= λ bs. ok (decided p bs)

  -- `ABACPolicy.evaluate`
  unfoldable pub evaluate_policy : Context A → AbacPolicy A → Result (Option Bool)
  unfolding condition_results
  evaluate_policy context p = evaluate_all context p p.conditions

  -- `ABACEngine.evaluate`: the first policy that decides; later ones are not evaluated.
  unfoldable pub evaluate_engine : Context A → List (AbacPolicy A) → Result (Option Bool)
  unfolding evaluate_policy
  evaluate_engine context [] = ok none
  evaluate_engine context (p ∷ ps) = evaluate_policy context p >>= λ r. elim r [
    | some b ↦ ok (some b)
    | none ↦ evaluate_engine context ps
  ]

module _ {A : Type 0} where
  -- A policy goes before those of its own priority that stood after it, and of lower priority.
  unfoldable pub insert_policy : AbacPolicy A → List (AbacPolicy A) → List (AbacPolicy A)
  insert_policy p [] = p ∷ []
  insert_policy p (q ∷ qs) =
      let later = q ∷ insert_policy p qs in
      if ltb_ℤ p.priority q.priority then later else p ∷ q ∷ qs

  -- `sort(key=priority, reverse=True)`, which is stable
  unfoldable pub sort_policies : List (AbacPolicy A) → List (AbacPolicy A)
  unfolding insert_policy
  sort_policies [] = []
  sort_policies (p ∷ ps) = insert_policy p (sort_policies ps)

  unfoldable pub add_policy : AbacPolicy A → List (AbacPolicy A) → List (AbacPolicy A)
  unfolding sort_policies
  add_policy p ps = sort_policies (ps ++ p ∷ [])

  unfoldable pub remove_policy : String → List (AbacPolicy A) → List (AbacPolicy A)
  remove_policy policy_id ps = filter (λ p. not (p.policy_id == policy_id)) ps
