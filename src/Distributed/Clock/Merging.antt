-- ===== src/Distributed/Clock/Merging.antt =====
-- Merging is the least upper bound, and increments at different nodes are concurrent.
use quantum_database.Prelude.{
  ℕ, ◌+◌, ◌≤◌, ◌≡◌, ◌≢◌, refl, ◌∙◌, sym, ap, subst, String, true, false, List, [], ◌∷◌, leb, leb→le,
  max, all, add, contains, contains-add, if◌then◌else◌, lookup, lookup-insert, Bool-cases, inl, inr,
  and_parts, arith, ◌==◌, ==_refl, string_key,
}
use quantum_database.Distributed.Clock.{
  VectorClock, reading, increment, add_keys, merged, merge, precedes, concurrent,
}

reading-precedes :
    (k : String) (a b : VectorClock) → precedes a b ≡ true → reading k a ≤ reading k b
unfolding precedes lookup
reading-precedes k [] b h = omega arith
reading-precedes k ((j, v) ∷ a) b h =
    let parts = and_parts (leb v (reading j b)) (all (λ e. leb e.1 (reading e.0 b)) a) h in
    elim (Bool-cases (j == k)) [
      | inl same ↦
          let e = (string_key.same_iff j k).0 same in
          let le = leb→le v (reading j b) parts.0 in rw same (subst (λ i. v ≤ reading i b) e le)
      | inr other ↦ rw other (reading-precedes k a b parts.1)
    ]

merged-lookup :
    (k : String) (a b : VectorClock) (ks : List String)
    → reading k (merged a b ks) ≡ (if contains k ks then max (reading k a) (reading k b) else 0)
unfolding lookup
merged-lookup k a b [] = refl
merged-lookup k a b (j ∷ ks) = elim (Bool-cases (j == k)) [
  | inl same ↦
      let e = (string_key.same_iff j k).0 same in
      let back : (k == j) ≡ true = (string_key.same_iff k j).1 (sym e) in
      rw (same, back) (ap (λ i. max (reading i a) (reading i b)) e)
  | inr other ↦
      let back : (k == j) ≡ false =
        ground (arith, string_key.same_iff k j, string_key.same_iff j k) in
      rw (other, back) (merged-lookup k a b ks)
]

contains-add_keys :
    (k : String) (c : VectorClock) (ks : List String)
    → contains k (add_keys c ks) ≡ false
    → (contains k ks ≡ false) × (reading k c ≡ 0)
unfolding lookup
contains-add_keys k [] ks h = (h, refl)
contains-add_keys k ((j, v) ∷ c) ks h =
    let r = contains-add_keys k c (add j ks) h in
    let both = contains-add k j ks in
    let apart : (j == k) ≡ false =
      ground (arith, r.0, both, string_key.same_iff k j, string_key.same_iff j k) in
    (ground (arith, r.0, both), rw apart (r.1))

-- At every node the merged clock reads the greater of the two readings.
pub reading-merge :
    (k : String) (a b : VectorClock) → reading k (merge a b) ≡ max (reading k a) (reading k b)
unfolding merge
reading-merge k a b =
    let ks = add_keys b (add_keys a []) in
    elim (Bool-cases (contains k ks)) [
      | inl known ↦ merged-lookup k a b ks ∙ rw known
      | inr unknown ↦
          let second = contains-add_keys k b (add_keys a []) unknown in
          let first = contains-add_keys k a [] second.0 in
          merged-lookup k a b ks ∙ rw (unknown) (omega (arith, first.1, second.1))
    ]

le→leb : {m n : ℕ} → m ≤ n → leb m n ≡ true
le→leb h = ground arith

merged-precedes :
    (a b c : VectorClock) (ks : List String)
    → ((k : String) → max (reading k a) (reading k b) ≤ reading k c)
    → precedes (merged a b ks) c ≡ true
unfolding precedes
merged-precedes a b c [] h = refl
merged-precedes a b c (k ∷ ks) h =
    let first : leb (max (reading k a) (reading k b)) (reading k c) ≡ true = le→leb (h k) in
    rw first (merged-precedes a b c ks h)

-- A clock that two clocks precede is preceded by their merge.
pub merge-precedes :
    (a b c : VectorClock)
    → precedes a c ≡ true
    → precedes b c ≡ true
    → precedes (merge a b) c ≡ true
unfolding merge
merge-precedes a b c ha hb =
    merged-precedes a b c (add_keys b (add_keys a []))
      (λ k. omega (arith, reading-precedes k a c ha, reading-precedes k b c hb))

increment-behind :
    (x y : String) (c : VectorClock) → x ≢ y → precedes (increment x c) (increment y c) ≡ false
unfolding increment
increment-behind x y c ne = elim (Bool-cases (precedes (increment x c) (increment y c))) [
  | inr b ↦ b
  | inl b ↦
      let le = reading-precedes x (increment x c) (increment y c) b in
      let other : (y == x) ≡ false = ground (arith, string_key.same_iff y x) in
      let own : reading x (increment x c) ≡ reading x c + 1 =
        rw (lookup-insert x x (reading x c + 1) c, ==_refl x) in
      let old : reading x (increment y c) ≡ reading x c =
        rw (lookup-insert y x (reading y c + 1) c, other) in
      absurd (omega (arith, le, own, old))
]

-- Two clocks that were incremented at different nodes from one clock are concurrent.
pub concurrent-increment :
    (x y : String) (c : VectorClock) → x ≢ y → concurrent (increment x c) (increment y c) ≡ true
unfolding concurrent
concurrent-increment x y c ne =
    rw (increment-behind x y c ne, increment-behind y x c (λ e. ne (sym e)))
