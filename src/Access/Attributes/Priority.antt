-- ===== src/Access/Attributes/Priority.antt =====
-- The policies of an engine stand by priority, and the highest that matches decides.
use quantum_database.Prelude.{
  ◌≡◌, ◌∙◌, String, Bool, true, false, not, List, [], ◌∷◌, ◌++◌, Option, none, some, if_ind, ◌==◌,
  string_key, filter, ltb_ℤ, ℤ, All, arith,
}
use quantum_database.Query.Result.{ok, bind-ok}
use quantum_database.Access.Attributes.{
  Operators, AbacPolicy, Context, evaluate_policy, evaluate_engine, insert_policy, sort_policies,
  add_policy, remove_policy,
}

-- `a` is not lower than `b`.
abbrev NotBelow : ℤ → ℤ → Type 0
NotBelow a b = ltb_ℤ a b ≡ false

NotBelow-trans : (a b c : ℤ) → NotBelow a b → NotBelow b c → NotBelow a c
NotBelow-trans a b c h k = ground (arith, h, k)

below-NotBelow : (a b : ℤ) → ltb_ℤ a b ≡ true → NotBelow b a
below-NotBelow a b h = ground (arith, h)

All-map :
    {A : Type 0} {P Q : A → Type 0} (xs : List A) → ((x : A) → P x → Q x) → All P xs → All Q xs
All-map [] h ps = tt
All-map (x ∷ xs) h (p, ps) = (h x p, All-map xs h ps)

module _ {A : Type 0} where
  abbrev Over : ℤ → List (AbacPolicy A) → Type 0
  Over n ps = All (λ q. NotBelow n q.priority) ps

  -- No policy stands before one of higher priority.
  abbrev pub IsSorted : List (AbacPolicy A) → Type 0
  IsSorted [] = Unit
  IsSorted (p ∷ ps) = Over p.priority ps × IsSorted ps

  Over-insert :
      (n : ℤ) (p : AbacPolicy A) (qs : List (AbacPolicy A))
      → NotBelow n p.priority
      → Over n qs
      → Over n (insert_policy p qs)
  unfolding insert_policy
  Over-insert n p [] h hs = (h, tt)
  Over-insert n p (q ∷ qs) h (k, hs) =
      if_ind (Over n) (ltb_ℤ p.priority q.priority) (λ _. (k, Over-insert n p qs h hs))
        (λ _. (h, (k, hs)))

  insert_policy-IsSorted :
      (p : AbacPolicy A) (qs : List (AbacPolicy A)) → IsSorted qs → IsSorted (insert_policy p qs)
  unfolding insert_policy
  insert_policy-IsSorted p [] s = (tt, tt)
  insert_policy-IsSorted p (q ∷ qs) (o, s) =
      if_ind IsSorted (ltb_ℤ p.priority q.priority)
        (λ h. (
          Over-insert q.priority p qs (below-NotBelow p.priority q.priority h) o,
          insert_policy-IsSorted p qs s,
        ))
        (λ h.
          ((h, All-map qs (λ r k. NotBelow-trans p.priority q.priority r.priority h k) o), (o, s)))

  sort_policies-IsSorted : (ps : List (AbacPolicy A)) → IsSorted (sort_policies ps)
  unfolding sort_policies
  sort_policies-IsSorted [] = tt
  sort_policies-IsSorted (p ∷ ps) =
      insert_policy-IsSorted p (sort_policies ps) (sort_policies-IsSorted ps)

  All-filter :
      (P : AbacPolicy A → Type 0) (f : AbacPolicy A → Bool) (ps : List (AbacPolicy A))
      → All P ps
      → All P (filter f ps)
  All-filter P f [] h = tt
  All-filter P f (p ∷ ps) (h, hs) =
      if_ind (All P) (f p) (λ _. (h, All-filter P f ps hs)) (λ _. All-filter P f ps hs)

  filter-IsSorted :
      (f : AbacPolicy A → Bool) (ps : List (AbacPolicy A)) → IsSorted ps → IsSorted (filter f ps)
  filter-IsSorted f [] s = tt
  filter-IsSorted f (p ∷ ps) (o, s) =
      if_ind IsSorted (f p)
        (λ _. (All-filter (λ q. NotBelow p.priority q.priority) f ps o, filter-IsSorted f ps s))
        (λ _. filter-IsSorted f ps s)

-- A change of an engine
pub data Change (A : Type 0) : Type 0 where
  add : AbacPolicy A → Change A
  remove : String → Change A

module _ {A : Type 0} where
  unfoldable pub changes : List (Change A) → List (AbacPolicy A) → List (AbacPolicy A)
  unfolding add_policy remove_policy
  changes [] ps = ps
  changes (add p ∷ cs) ps = changes cs (add_policy p ps)
  changes (remove i ∷ cs) ps = changes cs (remove_policy i ps)

  changes-IsSorted :
      (cs : List (Change A)) (ps : List (AbacPolicy A)) → IsSorted ps → IsSorted (changes cs ps)
  unfolding changes add_policy remove_policy
  changes-IsSorted [] ps s = s
  changes-IsSorted (add p ∷ cs) ps s =
      changes-IsSorted cs (add_policy p ps) (sort_policies-IsSorted (ps ++ p ∷ []))
  changes-IsSorted (remove i ∷ cs) ps s =
      changes-IsSorted cs (remove_policy i ps) (filter-IsSorted (λ p. not (p.policy_id == i)) ps s)

module _ {A : Type 0} ⦃ops : Operators A⦄ where
  -- A policy of the list decides as said, and those of higher priority match nothing.
  pub data Decides (context : Context A) (b : Bool) : List (AbacPolicy A) → Type 0 where
    first :
        {p : AbacPolicy A} {ps : List (AbacPolicy A)}
        → evaluate_policy context p ≡ ok (some b)
        → Over p.priority ps
        → Decides context b (p ∷ ps)
    next :
        {p : AbacPolicy A} {ps : List (AbacPolicy A)}
        → evaluate_policy context p ≡ ok none
        → Decides context b ps
        → Decides context b (p ∷ ps)

  decides_of :
      (context : Context A) (b : Bool) (p : AbacPolicy A) (ps : List (AbacPolicy A))
      (r : Option Bool)
      → evaluate_policy context p ≡ ok r
      → (evaluate_engine context ps ≡ ok (some b) → Decides context b ps)
      → Over p.priority ps
      → (elim r [ some c ↦ ok (some c) | none ↦ evaluate_engine context ps ]) ≡ ok (some b)
      → Decides context b (p ∷ ps)
  decides_of context b p ps none e rest o h = next e (rest h)
  decides_of context b p ps (some c) e rest o h = first (e ∙ h) o

  evaluate_engine-Decides :
      (context : Context A) (b : Bool) (ps : List (AbacPolicy A))
      → IsSorted ps
      → evaluate_engine context ps ≡ ok (some b)
      → Decides context b ps
  unfolding evaluate_engine
  evaluate_engine-Decides context b [] s h = absurd (cc)
  evaluate_engine-Decides context b (p ∷ ps) (o, s) h =
      let (r, e, h1) = bind-ok {r = evaluate_policy context p} h in
      decides_of context b p ps r e (evaluate_engine-Decides context b ps s) o h1

  -- Whatever policies are added to an empty engine and removed from it: where the engine decides, a policy
  -- of it decides so, those before it match nothing, and none after it has a higher priority.
  pub evaluate_engine-changes :
      (cs : List (Change A)) (context : Context A) (b : Bool)
      → evaluate_engine context (changes cs []) ≡ ok (some b)
      → Decides context b (changes cs [])
  evaluate_engine-changes cs context b h =
      evaluate_engine-Decides context b (changes cs []) (changes-IsSorted cs [] tt) h
