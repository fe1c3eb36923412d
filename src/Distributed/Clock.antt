-- ===== src/Distributed/Clock.antt =====
-- qndb/distributed/synchronization.py, `VectorClock` and `GCounter`: both are dictionaries from nodes to
-- numbers, in which a node that is missing counts as 0.
pub mod Merging
use quantum_database.Prelude.{
  ℕ, zero, suc, ◌+◌, String, Bool, true, false, not, ◌&&◌, Option, none, some, List, [], ◌∷◌, leb,
  max, all, add, Dict, lookup, insert, values, string_key,
}

abbrev pub VectorClock : Type 0
VectorClock = Dict String ℕ

abbrev or_zero : Option ℕ → ℕ
or_zero none = 0
or_zero (some n) = n

-- `self._clock.get(k, 0)`
abbrev pub reading : String → VectorClock → ℕ
reading k c = or_zero (lookup k c)

unfoldable pub increment : String → VectorClock → VectorClock
increment node_id c = insert node_id (reading node_id c + 1) c

-- The union of the sets of keys.
abbrev pub add_keys : VectorClock → List String → List String
add_keys [] ks = ks
add_keys ((k, v) ∷ c) ks = add_keys c (add k ks)

-- The loop over the keys.
abbrev pub merged : VectorClock → VectorClock → List String → VectorClock
merged a b [] = []
merged a b (k ∷ ks) = (k, max (reading k a) (reading k b)) ∷ merged a b ks

unfoldable pub merge : VectorClock → VectorClock → VectorClock
merge a b = merged a b (add_keys b (add_keys a []))

-- `__le__`
unfoldable pub precedes : VectorClock → VectorClock → Bool
precedes a b = all (λ e. leb e.1 (reading e.0 b)) a

unfoldable pub concurrent : VectorClock → VectorClock → Bool
unfolding precedes
concurrent a b = not (precedes a b) && not (precedes b a)

-- `GCounter.increment`; its `merge` is that of the clocks.
unfoldable pub grow : String → (amount : ℕ) → Dict String ℕ → Dict String ℕ
grow node_id amount counts = insert node_id (reading node_id counts + amount) counts

abbrev sum : List ℕ → ℕ
sum [] = 0
sum (n ∷ ns) = n + sum ns

unfoldable pub value : Dict String ℕ → ℕ
value counts = sum (values counts)
