-- ===== src/Transactions/Locking.antt =====
-- qndb/interface/transactions/manager.py: the tests on locks and the wait-for graph, over the list
-- of the active transactions.
pub mod Cycles
use quantum_database.Prelude.{
  ℕ, zero, suc, String, Bool, true, false, ◌||◌, ◌&&◌, not, Option, none, some, List, [], ◌∷◌,
  if◌then◌else◌, length, contains, add, any, Dict, lookup, insert, ◌==◌, string_key,
}
use quantum_database.Transactions.Transaction.{Transaction}

abbrev pub Lock : Type 0
Lock = String × String

-- The locks are on one resource, and one of them is for writing.
abbrev pub blocks : Lock → Lock → Bool
blocks a b = a.0 == b.0 && (a.1 == "WRITE" || b.1 == "WRITE")

-- Another transaction holds a lock that excludes this one.
abbrev pub holds_against : Transaction → Lock → Transaction → Bool
holds_against tx l other =
    not (other.transaction_id == tx.transaction_id) && any (blocks l) other.locks

unfoldable pub can_acquire_lock : List Transaction → Transaction → Lock → Bool
can_acquire_lock active_txs tx l = not (any (holds_against tx l) active_txs)

abbrev pub Graph : Type 0
Graph = Dict String (List String)

-- The inner loops: `test` says whether the waiting transaction waits for another one.
add_edges : (Transaction → Bool) → List Transaction → List String → List String
add_edges test [] edges = edges
add_edges test (other ∷ others) edges =
    add_edges test others (if test other then add other.transaction_id edges else edges)

abbrev pub neighbours : Graph → String → List String
neighbours g node = elim (lookup node g) [ none ↦ [] | some edges ↦ edges ]

abbrev waits_for : Transaction → Transaction → Bool
waits_for tx other =
    not (tx.transaction_id == other.transaction_id)
    && any (λ l. any (blocks l) other.locks) tx.locks

-- The second loop: edges between all active transactions.
add_waits : List Transaction → List Transaction → Graph → Graph
unfolding add_edges
add_waits active_txs [] g = g
add_waits active_txs (tx ∷ txs) g = add_waits active_txs txs (
    insert tx.transaction_id (add_edges (waits_for tx) active_txs (neighbours g tx.transaction_id))
      g)

wait_graph : List Transaction → Transaction → Lock → Graph
unfolding add_waits add_edges
wait_graph active_txs tx l =
    add_waits active_txs active_txs
      ((tx.transaction_id, add_edges (holds_against tx l) active_txs []) ∷ [])

-- The loop of `has_cycle` over the neighbours; it stops at the first cycle.
explore :
    (String → List String → Option (Bool × List String))
    → List String
    → List String
    → Option (Bool × List String)
explore visit [] visited = some (false, visited)
explore visit (n ∷ ns) visited =
    if contains n visited then explore visit ns visited else elim (visit n visited) [
      | none ↦ none
      | some (found, visited') ↦ if found then some (true, visited') else explore visit ns visited'
    ]

-- `has_cycle` with the set `visited` passed along; `none` means that the fuel ran out.
has_cycle : ℕ → Graph → List String → String → List String → Option (Bool × List String)
unfolding explore
has_cycle zero g path node visited = none
has_cycle (suc fuel) g path node visited =
    let rest = explore (has_cycle fuel g (node ∷ path)) (neighbours g node) (add node visited) in
    if contains node path then some (true, visited) else rest

-- Each call visits a new transaction, so one unit of fuel for each and one more are enough.
unfoldable pub would_cause_deadlock : List Transaction → Transaction → Lock → Option Bool
unfolding has_cycle wait_graph
would_cause_deadlock active_txs tx l =
    let fuel = suc (length active_txs) in
    elim (has_cycle fuel (wait_graph active_txs tx l) [] tx.transaction_id []) [
      | none ↦ none
      | some (found, visited) ↦ some found
    ]
