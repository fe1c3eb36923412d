-- ===== src/Access/Hierarchy/Search.antt =====
-- qndb/security/authorization/rbac.py: what the search through the parents of a role visits and answers.
use quantum_database.Prelude.{
  ℕ, zero, suc, ◌≤◌, ◌<◌, String, ◌≡◌, refl, sym, ap, subst, ◌∙◌, Bool, true, false, Option, none,
  some, List, [], ◌∷◌, arith, length, contains, contains-add, contains_self, add, keys, Dict,
  lookup, some_injective, Bool-cases, if_ind, inl, inr, ◌==◌, string_key, Within, missing,
  missing-le, Within-add, missing-add-lt,
}
use native.Mathlib.Nat.{le_trans}
use quantum_database.Access.Models.{Permission, Role}
use quantum_database.Access.Hierarchy.{
  Found, or_next, try_each, enter, grants, search_role, has_by_role,
}

-- `role` is the role of the identifier, or one of its parents, or one of theirs, and so on.
pub data Inherits (roles : Dict String Role) (role : Role) : String → Type 0 where
  own : {role_id : String} → lookup role_id roles ≡ some role → Inherits roles role role_id
  parent :
      {role_id parent_id : String} {child : Role}
      → lookup role_id roles ≡ some child
      → contains parent_id child.parent_roles ≡ true
      → Inherits roles role parent_id
      → Inherits roles role role_id

keys-lookup :
    (k : String) (roles : Dict String Role) {role : Role}
    → lookup k roles ≡ some role
    → contains k (keys roles) ≡ true
unfolding lookup
keys-lookup k [] h = absurd (cc)
keys-lookup k ((q, r) ∷ roles) h = elim (Bool-cases (q == k)) [
  | inl here ↦ ground (arith, here, string_key.same_iff q k, string_key.same_iff k q)
  | inr later ↦ ground (arith, keys-lookup k roles (rw later at h))
]

missing-none : (roles : Dict String Role) → missing (keys roles) [] ≡ length roles
unfolding missing
missing-none [] = refl
missing-none (r ∷ roles) = ap suc (missing-none roles)

module _ (matches : (pattern text : String) → Bool) (roles : Dict String Role) (rid : String)
    (perm : Permission) where
  abbrev has : Role → Bool
  has = grants matches rid perm

  -- A role between `before` and `after` lacks the permission, and its parents are in `after`.
  abbrev Closed : List String → List String → Type 0
  Closed before after =
      (x : String) (role : Role)
      → contains x after ≡ true
      → contains x before ≡ false
      → lookup x roles ≡ some role
      → (has role ≡ false)
        × ((p : String) → contains p role.parent_roles ≡ true → contains p after ≡ true)

  Closed-trans : (u v w : List String) → Closed u v → Within v w → Closed v w → Closed u w
  Closed-trans u v w c g d x role here new e = elim (Bool-cases (contains x v)) [
    | inl old ↦ let (lacks, inside) = c x role old new e in (lacks, λ p m. g p (inside p m))
    | inr late ↦ d x role here late e
  ]

  -- The answer to a visit of roles
  data Answers (ids before : List String) : Found → Type 0 where
    holds :
        {after : List String} (id : String) (role : Role)
        → contains id ids ≡ true
        → Inherits roles role id
        → has role ≡ true
        → Answers ids before (some (true, after))
    lacks :
        {after : List String}
        → Within before after
        → Within ids after
        → Closed before after
        → Answers ids before (some (false, after))

  abbrev Visits : ℕ → (String → List String → Found) → Type 0
  Visits fuel visit =
      (p : String) (v : List String)
      → missing (keys roles) v ≤ fuel
      → Answers (p ∷ []) v (visit p v)

  each_after :
      (p : String) (ps v w : List String) (r : Found)
      → Within v w
      → Within (p ∷ []) w
      → Closed v w
      → Answers ps w r
      → Answers (p ∷ ps) v r
  each_after p ps v w r g i c (holds id role m inh h) = holds id role (ground (arith, m)) inh h
  each_after p ps v w r g i c (lacks {after} g' i' c') =
      lacks (λ x m. g' x (g x m)) (λ x m. ground (arith, i' x, g' x, i x, m))
        (Closed-trans v w after c g' c')

  or_next-Answers :
      (p : String) (ps v : List String) (r : Found) (next : List String → Found)
      → Answers (p ∷ []) v r
      → ((w : List String) → Within v w → Answers ps w (next w))
      → Answers (p ∷ ps) v (or_next r next)
  or_next-Answers p ps v r next (holds id role m inh h) go = holds id role (ground (arith, m)) inh h
  or_next-Answers p ps v r next (lacks {after} g i c) go =
      each_after p ps v after (next after) g i c (go after g)

  try_each-Answers :
      (fuel : ℕ) (visit : String → List String → Found)
      → Visits fuel visit
      → (ps v : List String) → missing (keys roles) v ≤ fuel
      → Answers ps v (try_each visit ps v)
  unfolding try_each
  try_each-Answers fuel visit go [] v h =
      lacks (λ x m. m) (λ x m. absurd (cc)) (λ x role m n e. absurd (cc))
  try_each-Answers fuel visit go (p ∷ ps) v h =
      or_next-Answers p ps v (visit p v) (try_each visit ps) (go p v h)
        (λ w g. try_each-Answers fuel visit go ps w (le_trans (missing-le (keys roles) v w g) h))

  -- What the parents answer is the answer of the role that has them, when it lacks the permission itself.
  from_parents :
      (id : String) (v : List String) (role : Role) (r : Found)
      → contains id v ≡ false
      → lookup id roles ≡ some role
      → has role ≡ false
      → Answers role.parent_roles (add id v) r
      → Answers (id ∷ []) v r
  from_parents id v role r new e n (holds p anc m inh h) =
      holds id anc (contains_self id []) (parent e m inh) h
  from_parents id v role r new e n (lacks {after} g i c) =
      lacks (λ x m. g x (Within-add id v x m)) (λ x m. ground (arith, m, g x, contains-add x id v))
        (λ x r' m out e'. elim (Bool-cases (x == id)) [
          | inl same ↦
              subst (λ a. (has a ≡ false) × Within a.parent_roles after)
                (some_injective
                  (sym e ∙ ap (λ k. lookup k roles) (sym ((string_key.same_iff x id).0 same)) ∙ e'))
                (n, i)
          | inr other ↦ c x r' m (rw (contains-add x id v) (ground (arith, other, out))) e'
        ])

  added_absent :
      (x id : String) (v : List String) {role : Role}
      → contains x (add id v) ≡ true
      → contains x v ≡ false
      → lookup id roles ≡ none
      → lookup x roles ≡ some role
      → ⊥
  added_absent x id v m out e e' =
      let same : x ≡ id =
        (string_key.same_iff x id).0 (ground (arith, contains-add x id v, m, out)) in
      cc (ap (λ k. lookup k roles) same, e, e')

  enter-Answers :
      (id : String) (v : List String) (visit : String → List String → Found) (o : Option Role)
      → contains id v ≡ false
      → lookup id roles ≡ o
      → ((role : Role)
          → lookup id roles ≡ some role
          → Answers role.parent_roles (add id v) (try_each visit role.parent_roles (add id v)))
      → Answers (id ∷ []) v (enter matches rid perm visit o (add id v))
  unfolding enter
  enter-Answers id v visit none new e go =
      lacks (Within-add id v) (λ x m. ground (arith, m, contains-add x id v))
        (λ x role m out e'. absurd (added_absent x id v m out e e'))
  enter-Answers id v visit (some role) new e go =
      if_ind (Answers (id ∷ []) v) (has role)
        (λ yes'. holds id role (contains_self id []) (own e) yes')
        (λ no'. from_parents id v role _ new e no' (go role e))

  search_role-Answers :
      (fuel : ℕ) (id : String) (v : List String)
      → missing (keys roles) v < fuel
      → Answers (id ∷ []) v (search_role matches fuel roles rid perm id v)
  unfolding search_role
  search_role-Answers zero id v h = absurd (omega arith)
  search_role-Answers (suc fuel) id v h =
      if_ind (Answers (id ∷ []) v) (contains id v)
        (λ old.
          lacks (λ x m. m) (λ x m. ground (arith, m, old, string_key.same_iff x id))
            (λ x role m n e. absurd (cc)))
        (λ new.
          enter-Answers id v (search_role matches fuel roles rid perm) (lookup id roles) new refl
            (λ role e.
              try_each-Answers (missing (keys roles) (add id v))
                (search_role matches fuel roles rid perm)
                (λ p w k.
                  search_role-Answers fuel p w (
                    omega
                      (arith, k, missing-add-lt (keys roles) v id (keys-lookup id roles e) new)))
                role.parent_roles (add id v) (omega arith)))

  descends :
      (after : List String) (role : Role) (id : String)
      → Closed [] after
      → contains id after ≡ true
      → Inherits roles role id
      → has role ≡ false
  descends after role id c m (own e) = (c id role m refl e).0
  descends after role id c m (parent {parent_id} {child} e p inh) =
      descends after role parent_id c ((c id child m refl e).1 parent_id p) inh

  -- What a whole search says of a role
  pub data Decided (id : String) : Found → Type 0 where
    granted :
        {after : List String} (role : Role)
        → Inherits roles role id
        → grants matches rid perm role ≡ true
        → Decided id (some (true, after))
    denied :
        {after : List String}
        → ((role : Role) → Inherits roles role id → grants matches rid perm role ≡ false)
        → Decided id (some (false, after))

  decided : (id : String) (r : Found) → Answers (id ∷ []) [] r → Decided id r
  decided id r (holds p role m inh h) =
      granted role
        (subst (λ k. Inherits roles role k) ((string_key.same_iff p id).0 (ground (arith, m))) inh)
        h
  decided id r (lacks {after} g i c) =
      denied (λ role inh. descends after role id c (i id (contains_self id [])) inh)

  -- The search ends. It says True only if the role, or one that it descends from through parents, has the
  -- permission, and False only if none of them has it.
  pub has_by_role-Decided : (id : String) → Decided id (has_by_role matches roles rid perm id)
  unfolding has_by_role
  has_by_role-Decided id =
      decided id _
        (search_role-Answers (suc (length roles)) id [] (omega (arith, missing-none roles)))
