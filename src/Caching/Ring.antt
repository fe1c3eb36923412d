-- ===== src/Caching/Ring.antt =====
-- qndb/middleware/cache.py, `ConsistentHashRing`. The hash is a parameter, MD5 read as a number, and
-- so is the text of a replica, `node:i`.
use quantum_database.Prelude.{
  ℕ, zero, suc, String, Option, none, List, [], ◌∷◌, map, if◌then◌else◌, leb, Dict, lookup, insert,
  remove, nat_key,
}

pub record HashRing : Type 0 where
  pub replicas : ℕ
  pub ring : Dict ℕ String
  pub sorted_keys : List ℕ

abbrev pub empty_ring : ℕ → HashRing
empty_ring replicas = record { replicas = replicas; ring = []; sorted_keys = [] }

abbrev insert_sorted : ℕ → List ℕ → List ℕ
insert_sorted k [] = k ∷ []
insert_sorted k (n ∷ ns) = if leb k n then k ∷ n ∷ ns else n ∷ insert_sorted k ns

abbrev pub sorted : List ℕ → List ℕ
sorted [] = []
sorted (n ∷ ns) = insert_sorted n (sorted ns)

module _ (hash : String → ℕ) (replica : String → ℕ → String) where
  -- The loops over the replicas: `i` is the next one, `k` are left.
  abbrev insert_each : String → (k i : ℕ) → Dict ℕ String → Dict ℕ String
  insert_each node zero i d = d
  insert_each node (suc k) i d = insert_each node k (suc i) (insert (hash (replica node i)) node d)

  abbrev remove_each : String → (k i : ℕ) → Dict ℕ String → Dict ℕ String
  remove_each node zero i d = d
  remove_each node (suc k) i d = remove_each node k (suc i) (remove (hash (replica node i)) d)

  abbrev with_ring : Dict ℕ String → HashRing → HashRing
  with_ring d r = record r { ring = d; sorted_keys = sorted (map (λ e. e.0) d) }

  abbrev pub add_node : String → HashRing → HashRing
  add_node node r = with_ring (insert_each node r.replicas 0 r.ring) r

  abbrev pub remove_node : String → HashRing → HashRing
  remove_node node r = with_ring (remove_each node r.replicas 0 r.ring) r

  -- The loop over the sorted keys; `first` is where it wraps around to.
  abbrev successor : ℕ → ℕ → List ℕ → ℕ
  successor first h [] = first
  successor first h (k ∷ ks) = if leb h k then k else successor first h ks

  abbrev pub get_node : String → HashRing → Option String
  get_node key r = elim r.sorted_keys [
    | [] ↦ none
    | first ∷ rest ↦ lookup (successor first (hash key) (first ∷ rest)) r.ring
  ]
