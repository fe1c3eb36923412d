-- ===== src/Distributed/Pbft/Primary.antt =====
-- The primary of a view.
use quantum_database.Prelude.{
  ◌%◌, ◌≡◌, refl, ◌∙◌, sym, ap, String, true, false, some, List, [], ◌∷◌, leb, length, Bool-cases,
  inl, inr, Dict, if_ind, ◌==◌, string_key, nat_key, option_key,
}
use quantum_database.Distributed.Log.{get_elem?}
use quantum_database.Distributed.Pbft.{
  Peers, Pbft, Slot, PbftMessage, pre_prepare, prepare, commit, view_change, checkpoint,
  client_request, other, primary, is_empty, Vote, Proposal, update_primary_status, start,
  submit_request, send_pre_prepare, handle_pre_prepare, handle_prepare, handle_commit,
  handle_view_change, process_message, process_all, check_prepared, commit_each, can_commit,
  committed, check_committed, maybe_checkpoint, tick,
}

-- The node knows the primary of its view, and whether that is itself.
abbrev pub IsLed : Peers → Pbft → Type 0
IsLed c p =
    (p.current_leader ≡ primary c p.view)
    × (p.is_leader ≡ (primary c p.view == some c.local_node_id))

-- The parts that decide who leads are the same.
abbrev SameView : Pbft → Pbft → Type 0
SameView p q =
    (q.view ≡ p.view) × (q.current_leader ≡ p.current_leader) × (q.is_leader ≡ p.is_leader)

SameView-IsLed : (c : Peers) (p q : Pbft) → SameView p q → IsLed c p → IsLed c q
SameView-IsLed c p q h led = rw (h.0, h.1, h.2) led

module _ (c : Peers) where
  update-IsLed : (p : Pbft) → is_empty c.nodes ≡ false → IsLed c (update_primary_status c p)
  unfolding update_primary_status
  update-IsLed p some_nodes = rw some_nodes (refl, refl)

  submit-SameView :
      (request_id request : String) (p : Pbft)
      → SameView p (submit_request c request_id request p).0
  unfolding submit_request send_pre_prepare
  submit-SameView request_id request p = elim (Bool-cases p.is_leader) [
    | inl b ↦ rw b (refl, refl, refl)
    | inr b ↦ rw b (refl, refl, refl)
  ]

  pre_prepare-SameView : (m : Proposal) (p : Pbft) → SameView p (handle_pre_prepare c m p).0
  unfolding handle_pre_prepare
  pre_prepare-SameView m p =
      if_ind {A = Pbft × List PbftMessage} (λ r. SameView p r.0) _ (λ _. (refl, refl, refl))
        (λ _. (refl, refl, refl))

  prepare-SameView : (m : Vote) (p : Pbft) → SameView p (handle_prepare m p)
  unfolding handle_prepare
  prepare-SameView m p =
      if_ind {A = Pbft} (SameView p) _ (λ _. (refl, refl, refl)) (λ _. (refl, refl, refl))

  commit-SameView : (m : Vote) (p : Pbft) → SameView p (handle_commit m p)
  unfolding handle_commit
  commit-SameView m p =
      if_ind {A = Pbft} (SameView p) _ (λ _. (refl, refl, refl)) (λ _. (refl, refl, refl))

  commit_each-SameView : (d : Dict String Slot) (p : Pbft) → SameView p (commit_each c d p).0
  unfolding commit_each
  commit_each-SameView [] p = (refl, refl, refl)
  commit_each-SameView ((rid, s) ∷ d) p = elim (Bool-cases (can_commit c rid s p)) [
    | inl b ↦ rw b (commit_each-SameView d (committed rid s p))
    | inr b ↦ rw b (commit_each-SameView d p)
  ]

  checkpoint-SameView : (p : Pbft) → SameView p (maybe_checkpoint c p).0
  unfolding maybe_checkpoint
  checkpoint-SameView p =
      if_ind {A = Pbft × List PbftMessage} (λ r. SameView p r.0) _ (λ _. (refl, refl, refl))
        (λ _. (refl, refl, refl))

  module _ (some_nodes : is_empty c.nodes ≡ false) where
    message-IsLed : (m : PbftMessage) (p : Pbft) → IsLed c p → IsLed c (process_message c m p).0
    unfolding process_message handle_view_change
    message-IsLed (pre_prepare m) p h =
        SameView-IsLed c p (handle_pre_prepare c m p).0 (pre_prepare-SameView m p) h
    message-IsLed (prepare m) p h = SameView-IsLed c p (handle_prepare m p) (prepare-SameView m p) h
    message-IsLed (commit m) p h = SameView-IsLed c p (handle_commit m p) (commit-SameView m p) h
    message-IsLed (view_change new_view sender proofs) p h =
        if_ind {A = Pbft} (IsLed c) (leb new_view p.view) (λ _. h)
          (λ _. update-IsLed (record p { view = new_view }) some_nodes)
    message-IsLed (checkpoint sequence sender) p h = h
    message-IsLed (client_request request_id request) p h =
        SameView-IsLed c p (submit_request c request_id request p).0
          (submit-SameView request_id request p) h
    message-IsLed other p h = h

    process_all-IsLed :
        (ms : List PbftMessage) (p : Pbft) → IsLed c p → IsLed c (process_all c ms p).0
    unfolding process_all
    process_all-IsLed [] p h = h
    process_all-IsLed (m ∷ ms) p h =
        process_all-IsLed ms (process_message c m p).0 (message-IsLed m p h)

    tick-IsLed : (ms : List PbftMessage) (p : Pbft) → IsLed c p → IsLed c (tick c ms p).0
    unfolding tick check_prepared check_committed
    tick-IsLed ms p h =
        let p2 = (check_prepared c (process_all c ms p).0).0 in
        let p3 = (check_committed c p2).0 in
        SameView-IsLed c p3 (maybe_checkpoint c p3).0 (checkpoint-SameView p3) (
          SameView-IsLed c p2 p3 (commit_each-SameView p2.prepared_requests p2)
            (process_all-IsLed ms p h))

-- The ticks of a node, each with the messages that have arrived.
unfoldable pub run : Peers → List (List PbftMessage) → Pbft → Pbft
unfolding tick
run c [] p = p
run c (ms ∷ batches) p = run c batches (tick c ms p).0

run-IsLed :
    (c : Peers) (batches : List (List PbftMessage)) (p : Pbft)
    → is_empty c.nodes ≡ false
    → IsLed c p
    → IsLed c (run c batches p)
unfolding run
run-IsLed c [] p some_nodes h = h
run-IsLed c (ms ∷ batches) p some_nodes h =
    run-IsLed c batches (tick c ms p).0 some_nodes (tick-IsLed c some_nodes ms p h)

start-IsLed : (c : Peers) (p : Pbft) → is_empty c.nodes ≡ false → IsLed c (start c p)
unfolding start
start-IsLed c p some_nodes = update-IsLed c (record p { running = true }) some_nodes

some_id : {a b : String} → some a ≡ some b → a ≡ b
some_id e = cc

-- Two nodes that were started with one list of nodes, which is not empty, and that are in the same
-- view after any messages, are not both primary unless they are one node.
pub one_primary :
    (c d : Peers) (p q : Pbft) (batches batches' : List (List PbftMessage))
    → c.nodes ≡ d.nodes
    → is_empty c.nodes ≡ false
    → (run c batches (start c p)).view ≡ (run d batches' (start d q)).view
    → (run c batches (start c p)).is_leader ≡ true
    → (run d batches' (start d q)).is_leader ≡ true
    → c.local_node_id ≡ d.local_node_id
one_primary c d p q batches batches' same some_nodes views lead lead' =
    let r = run c batches (start c p) in
    let r' = run d batches' (start d q) in
    let led = run-IsLed c batches (start c p) some_nodes (start-IsLed c p some_nodes) in
    let none_empty : is_empty d.nodes ≡ false = rw (← same) some_nodes in
    let led' = run-IsLed d batches' (start d q) none_empty (start-IsLed d q none_empty) in
    let mine =
      (option_key.same_iff (primary c r.view) (some c.local_node_id)).0 (sym led.1 ∙ lead) in
    let yours =
      (option_key.same_iff (primary d r'.view) (some d.local_node_id)).0 (sym led'.1 ∙ lead') in
    let agree : primary c r.view ≡ primary d r'.view =
      ap (primary c) views ∙ ap (λ ns. get_elem? ns (r'.view % length ns)) same in
    some_id (sym mine ∙ agree ∙ yours)
