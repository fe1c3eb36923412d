-- ===== src/Prelude/Visited.antt =====
-- The set of what a search has visited: it grows, and what is left to visit shrinks.
use Prim.Native.Nat.{ℕ, suc, ◌≤◌, ◌<◌}
use Prim.Native.String.{String}
use mathlib.Core.Path.{◌≡◌}
use mathlib.Core.Logic.{inl, inr}
use mathlib.Core.Bool.{true, false}
use mathlib.Core.List.{List, [], ◌∷◌}
use native.Mathlib.Omega.{arith}
use quantum_database.Prelude.Tests.{if◌then◌else◌, Bool-cases}
use quantum_database.Prelude.Keys.{◌==◌, string_key}
use quantum_database.Prelude.Lists.{contains, add, contains-add}

-- The members of `xs` are members of `ys`.
abbrev pub Within : List String → List String → Type 0
Within xs ys = (x : String) → contains x xs ≡ true → contains x ys ≡ true

-- How many members of `u` are still to visit.
unfoldable pub missing : List String → List String → ℕ
missing [] visited = 0
missing (x ∷ u) visited = if contains x visited then missing u visited else suc (missing u visited)

pub missing-le : (u v w : List String) → Within v w → missing u w ≤ missing u v
unfolding missing
missing-le [] v w h = omega arith
missing-le (x ∷ u) v w h = ground (arith, missing-le u v w h, h x)

pub Within-add : (n : String) (v : List String) → Within v (add n v)
Within-add n v x h = rw (contains-add x n v) (ground arith)

pub missing-add-lt :
    (u v : List String) (n : String)
    → contains n u ≡ true
    → contains n v ≡ false
    → missing u (add n v) < missing u v
unfolding missing
missing-add-lt [] v n h k = absurd (cc)
missing-add-lt (x ∷ u) v n h k = elim (Bool-cases (n == x)) [
  | inl b ↦
      let e = (string_key.same_iff n x).0 b in
      let seen : contains x v ≡ false = rw (← e) k in
      ground (
        arith,
        seen,
        contains-add x n v,
        missing-le u v (add n v) (Within-add n v),
        string_key.same_iff x n,
      )
  | inr b ↦ ground (
    arith,
    contains-add x n v,
    missing-add-lt u v n,
    string_key.same_iff x n,
    string_key.same_iff n x,
  )
]
