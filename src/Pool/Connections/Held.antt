-- ===== src/Pool/Connections/Held.antt =====
-- How often the pool and the clients hold a connection.
use quantum_database.Prelude.{
  ℕ, suc, ◌+◌, ◌≤◌, ◌≡◌, Bool, true, false, List, [], ◌∷◌, ◌++◌, Option, none, some, if_ind, ◌==◌,
  nat_key, contains, arith,
}
use quantum_database.Pool.Connections.{remove_first, remove_indices, remove_at, at}

abbrev one_if : Bool → ℕ
one_if true = 1
one_if false = 0

-- How often a connection is in a list
abbrev pub occurrences : ℕ → List ℕ → ℕ
occurrences i [] = 0
occurrences i (j ∷ js) = one_if (j == i) + occurrences i js

occurrences-append :
    (i : ℕ) (is' js : List ℕ) → occurrences i (is' ++ js) ≡ occurrences i is' + occurrences i js
occurrences-append i [] js = omega arith
occurrences-append i (k ∷ is') js = omega (arith, occurrences-append i is' js)

occurrences-remove_first-le :
    (i j : ℕ) (is' : List ℕ) → occurrences i (remove_first j is') ≤ occurrences i is'
occurrences-remove_first-le i j [] = omega arith
occurrences-remove_first-le i j (k ∷ is') =
    if_ind {A = List ℕ} (λ r. occurrences i r ≤ one_if (k == i) + occurrences i is') (k == j)
      (λ _. omega arith) (λ _. omega (arith, occurrences-remove_first-le i j is'))

-- Removing a connection that is there takes one occurrence of it away, and none of another.
occurrences-remove_first :
    (i j : ℕ) (is' : List ℕ)
    → contains i is' ≡ true
    → one_if (i == j) + occurrences j (remove_first i is') ≡ occurrences j is'
occurrences-remove_first i j [] h = absurd (cc)
occurrences-remove_first i j (k ∷ is') h = ground (arith, h, occurrences-remove_first i j is')

occurrences-remove_at-le :
    (i : ℕ) (o : Option ℕ) (is' : List ℕ) → occurrences i (remove_at o is') ≤ occurrences i is'
occurrences-remove_at-le i none is' = omega arith
occurrences-remove_at-le i (some j) is' = occurrences-remove_first-le i j is'

pub occurrences-remove_indices-le :
    (i : ℕ) (ns is' : List ℕ) → occurrences i (remove_indices ns is') ≤ occurrences i is'
unfolding remove_indices
occurrences-remove_indices-le i [] is' = omega arith
occurrences-remove_indices-le i (n ∷ ns) is' = omega (
  arith,
  occurrences-remove_indices-le i ns (remove_at (at n is') is'),
  occurrences-remove_at-le i (at n is') is',
)

-- No connection is held twice, and none is held that is not created.
pub record Held (idle active : List ℕ) (created : ℕ) : Type 0 where
  pub once : (i : ℕ) → occurrences i idle + occurrences i active ≤ 1
  pub exists : (i : ℕ) → created ≤ i → occurrences i idle + occurrences i active ≡ 0

pub Held-fewer :
    {idle active idle' : List ℕ} {created : ℕ}
    → Held idle active created
    → ((i : ℕ) → occurrences i idle' ≤ occurrences i idle)
    → Held idle' active created
Held-fewer v h = record {
  once = λ i. omega (arith, v.once i, h i);
  exists = λ i c. omega (arith, v.exists i c, h i);
}

-- A new connection, held by a client or by the pool
pub Held-create_active :
    {idle active : List ℕ} (created : ℕ)
    → Held idle active created
    → Held idle (active ++ created ∷ []) (suc created)
Held-create_active {idle} {active} created v = record {
  once = λ i. ground (arith, v.once i, v.exists i, occurrences-append i active (created ∷ []));
  exists = λ i c. ground (arith, c, v.exists i, occurrences-append i active (created ∷ []));
}

pub Held-create_idle :
    {idle active : List ℕ} (created : ℕ)
    → Held idle active created
    → Held (idle ++ created ∷ []) active (suc created)
Held-create_idle {idle} created v = record {
  once = λ i. ground (arith, v.once i, v.exists i, occurrences-append i idle (created ∷ []));
  exists = λ i c. ground (arith, c, v.exists i, occurrences-append i idle (created ∷ []));
}

-- The first idle connection goes to a client.
pub Held-hand_out :
    (i : ℕ) {idle active : List ℕ} {created : ℕ}
    → Held (i ∷ idle) active created
    → Held idle (active ++ i ∷ []) created
Held-hand_out i {idle} {active} v = record {
  once = λ j. omega (arith, v.once j, occurrences-append j active (i ∷ []));
  exists = λ j c. omega (arith, v.exists j c, occurrences-append j active (i ∷ []));
}

-- A client's connection goes back.
pub Held-release :
    (i : ℕ) {idle active : List ℕ} {created : ℕ}
    → contains i active ≡ true
    → Held idle active created
    → Held (idle ++ i ∷ []) (remove_first i active) created
Held-release i {idle} {active} h v = record {
  once = λ j.
      omega (
        arith,
        v.once j,
        occurrences-append j idle (i ∷ []),
        occurrences-remove_first i j active h,
      );
  exists = λ j c. omega (
    arith,
    v.exists j c,
    occurrences-append j idle (i ∷ []),
    occurrences-remove_first i j active h,
  );
}
