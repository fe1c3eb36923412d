-- ===== src/Access/Checks/Allowed.antt =====
-- qndb/security/authorization/rbac.py: `check_permission`, where the attribute policies leave it open.
use quantum_database.Prelude.{
  ℕ, zero, suc, String, ◌≡◌, refl, sym, subst, ◌∙◌, ◌<◌, some_injective, Bool, true, false, Option,
  none, some, List, [], ◌∷◌, arith, if◌then◌else◌, if_ind, Bool-cases, inl, inr, contains,
  contains_self, lookup, string_key, ◌==◌,
}
use quantum_database.Query.Result.{Result, ok, ◌>>=◌}
use quantum_database.Access.Models.{Permission, Role, User}
use quantum_database.Access.Attributes.{Operators, Context, evaluate_engine}
use quantum_database.Access.RowSecurity.{is_admin}
use quantum_database.Access.Hierarchy.{Found, holds_in, grants, has_by_role}
use quantum_database.Access.Hierarchy.Search.{
  Inherits, Decided, granted, denied, has_by_role-Decided,
}
use quantum_database.Access.Manager.{AccessControlManager, Member}
use quantum_database.Access.Checks.{
  parent_of, result_of, or_else, any_role, check_grants, check_permission, abac_context, kind_of,
}

-- An answer that is True exactly if the claim holds
pub data Tells (P : Type 0) : Result Bool → Type 0 where
  holds : P → Tells P (ok true)
  fails : (P → ⊥) → Tells P (ok false)

module _ {A F : Type 0} (matches : (pattern text : String) → Bool) (m : AccessControlManager A F)
    (perm : Permission) where
  -- A role of the list has the permission, itself or through its parents.
  pub data ByRole (rid : String) (ids : List String) : Type 0 where
    by_role :
        (id : String) (role : Role)
        → contains id ids ≡ true
        → Inherits m.roles role id
        → grants matches rid perm role ≡ true
        → ByRole rid ids

  -- The user has the permission on the resource, directly, by a role, or by what holds the resource.
  pub data Allowed (user : User) : String → Type 0 where
    directly : {rid : String} → holds_in rid perm user.direct_permissions ≡ true → Allowed user rid
    through : {rid : String} → ByRole rid user.roles → Allowed user rid
    inherited :
        {rid parent : String}
        → parent_of (lookup rid m.resources) ≡ some parent
        → Allowed user parent
        → Allowed user rid

  -- The resource has at most so many others above it.
  pub data IsRooted : ℕ → String → Type 0 where
    top : {n : ℕ} {rid : String} → parent_of (lookup rid m.resources) ≡ none → IsRooted n rid
    below :
        {n : ℕ} {rid parent : String}
        → parent_of (lookup rid m.resources) ≡ some parent
        → IsRooted n parent
        → IsRooted (suc n) rid

  none_has : (rid : String) → ByRole rid [] → ⊥
  none_has rid (by_role id role c inh h) = cc

  neither :
      (rid id : String) (ids : List String)
      → ((role : Role) → Inherits m.roles role id → grants matches rid perm role ≡ false)
      → (ByRole rid ids → ⊥)
      → ByRole rid (id ∷ ids)
      → ⊥
  neither rid id ids no_role no_more (by_role i role c inh h) = elim (Bool-cases (i == id)) [
    | inl same ↦ cc (
      no_role role (subst (λ k. Inherits m.roles role k) ((string_key.same_iff i id).0 same) inh),
      h,
    )
    | inr other ↦ no_more (by_role i role (ground (arith, c, other)) inh h)
  ]

  next_role :
      (rid id : String) (ids : List String) (r : Found) (next : Result Bool)
      → Decided matches m.roles rid perm id r
      → Tells (ByRole rid ids) next
      → Tells (ByRole rid (id ∷ ids)) (result_of r >>= λ b. if b then ok true else next)
  next_role rid id ids r next (granted role inh h) t =
      holds (by_role id role (contains_self id ids) inh h)
  next_role rid id ids r next (denied no_role) (holds (by_role i role c inh h)) =
      holds (by_role i role (ground (arith, c)) inh h)
  next_role rid id ids r next (denied no_role) (fails no_more) =
      fails (neither rid id ids no_role no_more)

  any_role-Tells :
      (rid : String) (ids : List String)
      → Tells (ByRole rid ids) (any_role matches m.roles rid perm ids)
  unfolding any_role
  any_role-Tells rid [] = fails (none_has rid)
  any_role-Tells rid (id ∷ ids) =
      next_role rid id ids (has_by_role matches m.roles rid perm id)
        (any_role matches m.roles rid perm ids) (has_by_role-Decided matches m.roles rid perm id)
        (any_role-Tells rid ids)

  not-Allowed :
      (user : User) (rid : String)
      → holds_in rid perm user.direct_permissions ≡ false
      → (ByRole rid user.roles → ⊥)
      → ((p : String) → parent_of (lookup rid m.resources) ≡ some p → Allowed user p → ⊥)
      → Allowed user rid
      → ⊥
  not-Allowed user rid n r up (directly h) = cc
  not-Allowed user rid n r up (through h) = r h
  not-Allowed user rid n r up (inherited {parent} e h) = up parent e h

  ask_parent :
      (user : User) (rid : String) (roles_say parent_says : Result Bool)
      → holds_in rid perm user.direct_permissions ≡ false
      → Tells (ByRole rid user.roles) roles_say
      → Tells
          ((p : String) × (parent_of (lookup rid m.resources) ≡ some p) × Allowed user p)
          parent_says
      → Tells (Allowed user rid) (roles_say >>= λ b. if b then ok true else parent_says)
  ask_parent user rid roles_say parent_says n (holds h) t = holds (through h)
  ask_parent user rid roles_say parent_says n (fails r) (holds (p, e, h)) = holds (inherited e h)
  ask_parent user rid roles_say parent_says n (fails r) (fails up) =
      fails (not-Allowed user rid n r (λ p e h. up (p, e, h)))

  check_grants-Tells :
      (user : User) (rid : String) (parent_says : Result Bool)
      → Tells
          ((p : String) × (parent_of (lookup rid m.resources) ≡ some p) × Allowed user p)
          parent_says
      → Tells (Allowed user rid) (check_grants matches m user rid perm parent_says)
  unfolding check_grants
  check_grants-Tells user rid parent_says t =
      if_ind (Tells (Allowed user rid)) (holds_in rid perm user.direct_permissions)
        (λ h. holds (directly h))
        (λ n. ask_parent user rid _ parent_says n (any_role-Tells rid user.roles) t)

module _ {A F : Type 0} ⦃ops : Operators A⦄ (matches : (pattern text : String) → Bool)
    (text : String → A) (now : A) (m : AccessControlManager A F) (perm : Permission) where
  parent_tells :
      (user : User) (rid : String) (o : Option String) (ask : String → Result Bool)
      → parent_of (lookup rid m.resources) ≡ o
      → ((p : String) → o ≡ some p → Tells (Allowed matches m perm user p) (ask p))
      → Tells
          ((p : String) × (parent_of (lookup rid m.resources) ≡ some p)
            × Allowed matches m perm user p)
          (or_else o ask)
  parent_tells user rid none ask e go = fails (λ (p, e', h). cc)
  parent_tells user rid (some p) ask e go = passed p e (ask p) (go p refl)
    where
      passed :
          (p : String)
          → parent_of (lookup rid m.resources) ≡ some p
          → (r : Result Bool) → Tells (Allowed matches m perm user p) r
          → Tells
              ((p : String) × (parent_of (lookup rid m.resources) ≡ some p)
                × Allowed matches m perm user p)
              r
      passed p e r (holds h) = holds (p, e, h)
      passed p e r (fails n) =
          fails
            (λ (q, e', h). n (subst (Allowed matches m perm user) (some_injective (sym e' ∙ e)) h))

  -- One call, for what it asks of the parent resource
  call_tells :
      (uid : String) (member : Member A)
      → lookup uid m.users ≡ some member
      → is_admin member.user ≡ false
      → ((c : Context A) → evaluate_engine c m.policies ≡ ok none)
      → (fuel : ℕ) (rid : String)
      → ((p : String)
          → parent_of (lookup rid m.resources) ≡ some p
          → Tells
              (Allowed matches m perm member.user p)
              (check_permission matches text now fuel m uid p perm))
      → Tells
          (Allowed matches m perm member.user rid)
          (check_permission matches text now (suc fuel) m uid rid perm)
  unfolding check_permission
  call_tells uid member e a open_ fuel rid go =
      let context = abac_context text now member uid rid (kind_of (lookup rid m.resources)) perm in
      let above =
        parent_tells member.user rid (parent_of (lookup rid m.resources))
          (λ p. check_permission matches text now fuel m uid p perm) refl go in
      rw (e, check_permission, a, open_ context)
        (check_grants-Tells matches m perm member.user rid _ above)

  -- Where the attribute policies leave every request open, the check of a user who is no admin ends within
  -- the fuel that the parents of the resource need, and says True exactly if the user, one of the user's
  -- roles, or a role that one of these descends from has the permission on the resource or on one above it.
  pub check_permission-Tells :
      (uid : String) (member : Member A)
      → lookup uid m.users ≡ some member
      → is_admin member.user ≡ false
      → ((c : Context A) → evaluate_engine c m.policies ≡ ok none)
      → (fuel n : ℕ) (rid : String) → IsRooted matches m perm n rid
      → n < fuel
      → Tells
          (Allowed matches m perm member.user rid)
          (check_permission matches text now fuel m uid rid perm)
  check_permission-Tells uid member e a open_ zero n rid root lt = absurd (omega arith)
  check_permission-Tells uid member e a open_ (suc fuel) n rid (top r) lt =
      call_tells uid member e a open_ fuel rid (λ p e'. absurd (cc))
  check_permission-Tells uid member e a open_ (suc fuel) n rid (below {n = k} {parent} r up) lt =
      call_tells uid member e a open_ fuel rid (λ p e'.
        subst
          (λ q.
            Tells (Allowed matches m perm member.user q)
              (check_permission matches text now fuel m uid q perm))
          (some_injective (sym r ∙ e'))
          (check_permission-Tells uid member e a open_ fuel k parent up (omega arith)))
