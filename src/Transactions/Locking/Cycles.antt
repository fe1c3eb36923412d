-- ===== src/Transactions/Locking/Cycles.antt =====
-- The search for a cycle in the wait-for graph, `has_cycle` of manager.py: it ends, and it never
-- finds one. A node is put into `visited` when it is put into `path`, and only nodes outside
-- `visited` are entered, so the test `node in path` cannot pass.
use quantum_database.Prelude.{
  ℕ, zero, suc, ◌≤◌, String, ◌≡◌, refl, ap, Bool, true, false, Option, some, List, [], ◌∷◌, arith,
  if◌then◌else◌, length, contains, contains-add, add, lookup, All, All-append, contains_self, ◌++◌,
  map, AllValues, AllValues-insert, AllValues-lookup, Option-cases, Bool-cases, inl, inr,
  string_key, Within, missing, missing-le, Within-add, missing-add-lt,
}
use native.Mathlib.Nat.{le_trans}
use quantum_database.Transactions.Transaction.{Transaction}
use quantum_database.Transactions.Locking.{
  Lock, Graph, neighbours, add_edges, add_waits, waits_for, holds_against, wait_graph, explore,
  has_cycle, would_cause_deadlock,
}

abbrev AllIn : List String → List String → Type 0
AllIn u = All (λ x. contains x u ≡ true)

-- A visit ends without a cycle, and only adds to `visited`.
abbrev Ends : List String → Option (Bool × List String) → Type 0
Ends visited r = (after : List String) × (r ≡ some (false, after)) × Within visited after

abbrev Visits :
    List String → ℕ → (String → List String → Option (Bool × List String)) → List String → Type 0
Visits u fuel visit path =
    (node : String) (visited : List String)
    → contains node u ≡ true
    → contains node visited ≡ false
    → Within path visited
    → missing u visited ≤ fuel
    → Ends visited (visit node visited)

explore-Ends :
    (u : List String) (fuel : ℕ) (visit : String → List String → Option (Bool × List String))
    (path : List String)
    → Visits u fuel visit path
    → (ns visited : List String) → AllIn u ns
    → Within path visited
    → missing u visited ≤ fuel
    → Ends visited (explore visit ns visited)
unfolding explore
explore-Ends u fuel visit path go [] visited hn hp hm = (visited, refl, λ x h. h)
explore-Ends u fuel visit path go (n ∷ ns) visited hn hp hm =
    elim (Bool-cases (contains n visited)) [
      | inl old ↦ rw old (explore-Ends u fuel visit path go ns visited hn.1 hp hm)
      | inr new ↦
          let (mid, e, grown) = go n visited hn.0 new hp hm in
          let (after, e', grown') =
            explore-Ends u fuel visit path go ns mid hn.1 (λ x h. grown x (hp x h))
              (le_trans (missing-le u visited mid grown) hm) in
          (after, rw new (rw e e'), λ x h. grown' x (grown x h))
    ]

abbrev IsGraph : List String → Graph → Type 0
IsGraph u = AllValues (AllIn u)

neighbours-AllIn :
    (u : List String) (g : Graph) (n : String) → IsGraph u g → AllIn u (neighbours g n)
neighbours-AllIn u g n h = elim (Option-cases (lookup n g)) [
  | inl e ↦ rw (e, neighbours) tt
  | inr (ns, e) ↦ rw (e, neighbours) (AllValues-lookup (AllIn u) n g h e)
]

Within-cons :
    (node : String) (path visited : List String)
    → Within path visited
    → Within (node ∷ path) (add node visited)
Within-cons node path visited hp x h = rw (contains-add x node visited) (ground (arith, hp x))

not-in_path :
    (node : String) (path visited : List String)
    → contains node visited ≡ false
    → Within path visited
    → contains node path ≡ false
not-in_path node path visited new hp = ground (arith, hp node)

has_cycle-Ends :
    (u : List String) (g : Graph) (fuel : ℕ) (path : List String)
    → IsGraph u g
    → Visits u fuel (has_cycle fuel g path) path
unfolding has_cycle
has_cycle-Ends u g zero path hg node visited hu new hp hm =
    absurd (omega (arith, missing-add-lt u visited node hu new))
has_cycle-Ends u g (suc fuel) path hg node visited hu new hp hm =
    let (after, e, grown) =
      explore-Ends u fuel (has_cycle fuel g (node ∷ path)) (node ∷ path)
        (has_cycle-Ends u g fuel (node ∷ path) hg) (neighbours g node) (add node visited)
        (neighbours-AllIn u g node hg) (Within-cons node path visited hp)
        (omega (arith, missing-add-lt u visited node hu new)) in
    (
      after,
      rw (not-in_path node path visited new hp) e,
      λ x h. grown x (Within-add node visited x h),
    )

abbrev ids : List Transaction → List String
ids = map (λ tx. tx.transaction_id)

All-add :
    (u : List String) (x : String) (xs : List String)
    → contains x u ≡ true
    → AllIn u xs
    → AllIn u (add x xs)
All-add u x xs h hs = elim (contains x xs) as (λ b. AllIn u (if b then xs else xs ++ x ∷ [])) [
  | true ↦ hs
  | false ↦ All-append (λ y. contains y u ≡ true) xs (x ∷ []) hs (h, tt)
]

add_edges-AllIn :
    (u : List String) (test : Transaction → Bool) (txs : List Transaction) (edges : List String)
    → AllIn u (ids txs)
    → AllIn u edges
    → AllIn u (add_edges test txs edges)
unfolding add_edges
add_edges-AllIn u test [] edges h hs = hs
add_edges-AllIn u test (tx ∷ txs) edges h hs =
    add_edges-AllIn u test txs _ h.1
      (elim (test tx) as (λ b. AllIn u (if b then add tx.transaction_id edges else edges)) [
        | true ↦ All-add u tx.transaction_id edges h.0 hs
        | false ↦ hs
      ])

add_waits-IsGraph :
    (u : List String) (all_txs txs : List Transaction) (g : Graph)
    → AllIn u (ids all_txs)
    → IsGraph u g
    → IsGraph u (add_waits all_txs txs g)
unfolding add_waits
add_waits-IsGraph u all_txs [] g h hg = hg
add_waits-IsGraph u all_txs (tx ∷ txs) g h hg = add_waits-IsGraph u all_txs txs _ h (
    AllValues-insert (AllIn u) tx.transaction_id _ g
      (add_edges-AllIn u (waits_for tx) all_txs (neighbours g tx.transaction_id) h
        (neighbours-AllIn u g tx.transaction_id hg))
      hg)

wait_graph-IsGraph :
    (u : List String) (txs : List Transaction) (tx : Transaction) (l : Lock)
    → AllIn u (ids txs)
    → IsGraph u (wait_graph txs tx l)
unfolding wait_graph
wait_graph-IsGraph u txs tx l h =
    add_waits-IsGraph u txs txs _ h (add_edges-AllIn u (holds_against tx l) txs [] h tt, tt)

AllIn-mono : (u v xs : List String) → Within u v → AllIn u xs → AllIn v xs
AllIn-mono u v [] w h = tt
AllIn-mono u v (x ∷ xs) w h = (w x h.0, AllIn-mono u v xs w h.1)

Within-later : (x : String) (xs : List String) → Within xs (x ∷ xs)
Within-later x xs y h = ground arith

AllIn-self : (xs : List String) → AllIn xs xs
AllIn-self [] = tt
AllIn-self (x ∷ xs) =
    (contains_self x xs, AllIn-mono xs (x ∷ xs) xs (Within-later x xs) (AllIn-self xs))

missing-nil : (txs : List Transaction) → missing (ids txs) [] ≡ length txs
unfolding missing
missing-nil [] = refl
missing-nil (tx ∷ txs) = ap suc (missing-nil txs)

-- The search for a deadlock always ends, and its answer is always that there is none.
pub would_cause_deadlock-never :
    (txs : List Transaction) (tx : Transaction) (l : Lock)
    → would_cause_deadlock txs tx l ≡ some false
unfolding would_cause_deadlock missing
would_cause_deadlock-never txs tx l =
    let id = tx.transaction_id in
    let u = id ∷ ids txs in
    let inside =
      AllIn-mono (ids txs) u (ids txs) (Within-later id (ids txs)) (AllIn-self (ids txs)) in
    let (after, e, grown) =
      has_cycle-Ends u (wait_graph txs tx l) (suc (length txs)) []
        (wait_graph-IsGraph u txs tx l inside) id [] (contains_self id (ids txs)) refl (λ x h. h)
        (omega (arith, missing-nil txs)) in
    rw (e, would_cause_deadlock)
