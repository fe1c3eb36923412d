-- ===== src/Audit/Retention/Tiers.antt =====
-- qndb/security/audit/retention.py: the tiers of events, and the files after `apply_retention`.
use quantum_database.Prelude.{
  ℕ, ◌+◌, ◌≤◌, String, ◌≡◌, refl, ap, subst, map, if_ind, ltb→lt, contains_self, pair_key, nat_key,
  ◌||◌, ◌*◌, Bool, true, false, not, List, [], ◌∷◌, ◌++◌, filter, All, ltb, Bool-cases, inl, inr,
  ◌==◌, string_key, arith, contains,
}
use quantum_database.Audit.Retention.{
  RetentionPolicy, Policies, is_expired, insert_policy, sort_policies, add_policy, remove_policy,
  init_defaults, classify_event, File, Applied, treat, apply_retention,
}

-- The policies are in the order of their durations.
pub data IsSorted : Policies → Type 0 where
  empty : IsSorted []
  first :
      {p : RetentionPolicy} {ps : Policies}
      → All (λ q. p.duration_seconds ≤ q.duration_seconds) ps
      → IsSorted ps
      → IsSorted (p ∷ ps)

insert_policy-All :
    (n : ℕ) (p : RetentionPolicy) (ps : Policies)
    → n ≤ p.duration_seconds
    → All (λ q. n ≤ q.duration_seconds) ps
    → All (λ q. n ≤ q.duration_seconds) (insert_policy p ps)
insert_policy-All n p [] h hs = (h, tt)
insert_policy-All n p (q ∷ qs) h hs = ground (arith, h, hs, insert_policy-All n p qs h hs.1)

All-mono :
    (m n : ℕ) (ps : Policies)
    → m ≤ n
    → All (λ q. n ≤ q.duration_seconds) ps
    → All (λ q. m ≤ q.duration_seconds) ps
All-mono m n [] h hs = tt
All-mono m n (p ∷ ps) h hs = (omega (arith, hs.0), All-mono m n ps h hs.1)

insert_policy-IsSorted :
    (p : RetentionPolicy) (ps : Policies) → IsSorted ps → IsSorted (insert_policy p ps)
insert_policy-IsSorted p [] empty = first tt empty
insert_policy-IsSorted p (q ∷ qs) (first low s) =
    elim (Bool-cases (ltb q.duration_seconds p.duration_seconds)) [
      | inl lt ↦ rw lt (
          first (insert_policy-All q.duration_seconds p qs (ground (arith, lt)) low)
            (insert_policy-IsSorted p qs s))
      | inr ge ↦ rw ge (
          first
            (
              ground (arith, ge),
              All-mono p.duration_seconds q.duration_seconds qs (ground (arith, ge)) low,
            )
            (first low s))
    ]

sort_policies-IsSorted : (ps : Policies) → IsSorted (sort_policies ps)
unfolding sort_policies
sort_policies-IsSorted [] = empty
sort_policies-IsSorted (p ∷ ps) =
    insert_policy-IsSorted p (sort_policies ps) (sort_policies-IsSorted ps)

filter-All :
    (n : ℕ) (keep : RetentionPolicy → Bool) (ps : Policies)
    → All (λ q. n ≤ q.duration_seconds) ps
    → All (λ q. n ≤ q.duration_seconds) (filter keep ps)
filter-All n keep [] h = tt
filter-All n keep (p ∷ ps) h = ground (arith, h, filter-All n keep ps h.1)

filter-IsSorted :
    (keep : RetentionPolicy → Bool) (ps : Policies) → IsSorted ps → IsSorted (filter keep ps)
filter-IsSorted keep [] empty = empty
filter-IsSorted keep (p ∷ ps) (first low s) = elim (Bool-cases (keep p)) [
  | inl k ↦ rw k (first (filter-All p.duration_seconds keep ps low) (filter-IsSorted keep ps s))
  | inr d ↦ rw d (filter-IsSorted keep ps s)
]

pub data Change : Type 0 where
  adds : RetentionPolicy → Change
  removes : String → Change

abbrev pub changed : List Change → Policies → Policies
changed [] ps = ps
changed (adds p ∷ cs) ps = changed cs (add_policy p ps)
changed (removes name ∷ cs) ps = changed cs (remove_policy name ps)

changed-IsSorted : (cs : List Change) (ps : Policies) → IsSorted ps → IsSorted (changed cs ps)
unfolding add_policy remove_policy
changed-IsSorted [] ps s = s
changed-IsSorted (adds p ∷ cs) ps s = changed-IsSorted cs _ (sort_policies-IsSorted (ps ++ p ∷ []))
changed-IsSorted (removes name ∷ cs) ps s =
    changed-IsSorted cs _ (filter-IsSorted (λ p. not (p.name == name)) ps s)

-- The tier of an event: the first policy that has not expired, which is one of the shortest of these
pub data Tier (now ts : ℕ) (ps : Policies) : String → Type 0 where
  in_tier :
      (before : Policies) (p : RetentionPolicy) (after : Policies)
      → ps ≡ before ++ p ∷ after
      → All (λ q. is_expired now ts q ≡ true) before
      → is_expired now ts p ≡ false
      → All (λ q. p.duration_seconds ≤ q.duration_seconds) after
      → Tier now ts ps p.name
  too_old : All (λ q. is_expired now ts q ≡ true) ps → Tier now ts ps "expired"

Tier-cons :
    (now ts : ℕ) (p : RetentionPolicy) (ps : Policies) (name : String)
    → is_expired now ts p ≡ true
    → Tier now ts ps name
    → Tier now ts (p ∷ ps) name
Tier-cons now ts p ps name h (in_tier before q after e b n a) =
    in_tier (p ∷ before) q after (ap (λ qs. p ∷ qs) e) (h, b) n a
Tier-cons now ts p ps name h (too_old all_old) = too_old (h, all_old)

classify_event-IsSorted :
    (now ts : ℕ) (ps : Policies) → IsSorted ps → Tier now ts ps (classify_event now ts ps)
unfolding classify_event
classify_event-IsSorted now ts [] empty = too_old tt
classify_event-IsSorted now ts (p ∷ ps) (first low s) =
    if_ind (Tier now ts (p ∷ ps)) (is_expired now ts p)
      (λ h. Tier-cons now ts p ps _ h (classify_event-IsSorted now ts ps s))
      (λ n. in_tier [] p ps refl tt n low)

init_defaults-IsSorted : IsSorted init_defaults
unfolding init_defaults
init_defaults-IsSorted =
    first (omega arith, (omega arith, tt)) (first (omega arith, tt) (first tt empty))

-- Whatever policies are added to the default ones and removed from them, an event is of the tier of a policy
-- that has not expired, all before it have, and none after it is shorter; or all policies have expired.
pub classify_event-Tier :
    (cs : List Change) (now ts : ℕ)
    → Tier now ts (changed cs init_defaults) (classify_event now ts (changed cs init_defaults))
classify_event-Tier cs now ts =
    classify_event-IsSorted now ts (changed cs init_defaults)
      (changed-IsSorted cs init_defaults init_defaults-IsSorted)

-- The file is in the directory or in an archive.
abbrev pub survives : File → Applied → Bool
survives f a = contains f a.kept || contains f (map (λ m. m.1) a.moved)

treat-survives :
    (f g : File) (has_archive : Bool) (tier : String) (a : Applied)
    → survives f a ≡ true
    → survives f (treat has_archive tier g a) ≡ true
treat-survives f g has_archive tier a h = ground (arith, h)

treat_self :
    (f : File) (has_archive : Bool) (tier : String) (a : Applied)
    → (tier == "expired") ≡ false
    → survives f (treat has_archive tier f a) ≡ true
treat_self f has_archive tier a h =
    ground (arith, h, contains_self f a.kept, contains_self f (map (λ m. m.1) a.moved))

young-tier :
    (now ts : ℕ)
    → now ≤ ts + 7 * 365 * 86400
    → (classify_event now ts init_defaults == "expired") ≡ false
unfolding classify_event init_defaults add_policy sort_policies
young-tier now ts h =
    let is_kept = λ (tier : String). (tier == "expired") ≡ false in
    if_ind is_kept (ltb (ts + 30 * 86400) now)
      (λ _.
        if_ind is_kept (ltb (ts + 365 * 86400) now)
          (λ _.
            if_ind is_kept (ltb (ts + 7 * 365 * 86400) now)
              (λ old. absurd (omega (arith, ltb→lt (ts + 7 * 365 * 86400) now old, h))) (λ _. refl))
          (λ _. refl))
      (λ _. refl)

-- With the default tiers, a file of the directory that is not more than seven years old is in the directory
-- or in an archive afterwards.
pub apply_retention-survives :
    (now : ℕ) (has_archive : Bool) (fs : List File) (f : File)
    → contains f fs ≡ true
    → now ≤ f.1 + 7 * 365 * 86400
    → survives f (apply_retention now init_defaults has_archive fs) ≡ true
unfolding apply_retention
apply_retention-survives now has_archive [] f m h = absurd (cc)
apply_retention-survives now has_archive (g ∷ fs) f m h =
    let rest = apply_retention now init_defaults has_archive fs in
    elim (Bool-cases (f == g)) [
      | inl same ↦
          subst
            (λ x.
              survives f (treat has_archive (classify_event now x.1 init_defaults) x rest) ≡ true)
            (((pair_key {A = String} {B = ℕ}).same_iff f g).0 same)
            (treat_self f has_archive (classify_event now f.1 init_defaults) rest
              (young-tier now f.1 h))
      | inr other ↦
          treat-survives f g has_archive (classify_event now g.1 init_defaults) rest
            (apply_retention-survives now has_archive fs f (ground (arith, m, other)) h)
    ]
