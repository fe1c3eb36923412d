-- ===== src/Distributed/Node/Terms.antt =====
-- Terms only grow, as long as no snapshot is installed.
use quantum_database.Prelude.{
  ℕ, ◌≤◌, String, ◌≡◌, refl, ◌∙◌, ap, Bool, true, false, not, ◌||◌, some, List, [], ◌∷◌, arith, ltb,
  Bool-cases, inl, inr, All, if_ind, ◌==◌, string_key,
}
use quantum_database.Distributed.Raft.{
  Raft, Cluster, Message, AppendEntries, VoteRequest, VoteResponse, AppendResponse, vote_request,
  vote_response, append_entries, append_response, install_snapshot, other, leader, follower,
  is_role, become_follower, become_leader, start_election, check_election_timeout,
}
use quantum_database.Distributed.Handlers.{
  handle_vote_request, handle_append_entries, handle_append_response, handle_vote_response,
  adopt_leader, update_commit_index,
}
use quantum_database.Distributed.Handlers.Fields.{
  become_follower-fields, adopt_leader-log, accept_entries-meta,
}
use quantum_database.Distributed.Handlers.Votes.{
  handle-late, handle-ready, ready, ready-fields, decide_vote-term,
}
use quantum_database.Distributed.Handlers.Progress.{apply_committed-log}
use quantum_database.Distributed.Node.{
  Effect, heartbeat_each, send_heartbeats, process_message, process_all, advance, tick,
}

append-term :
    (c : Cluster) (now : ℕ) (m : AppendEntries) (r : Raft)
    → r.log.term ≤ (handle_append_entries c now m r).0.log.term
unfolding handle_append_entries
append-term c now m r = elim (Bool-cases (ltb m.term r.log.term)) [
  | inl old ↦ rw old (omega arith)
  | inr current ↦
      let r0 = record r { last_heartbeat = now } in
      let r1 = become_follower m.term (some m.leader_id) now r0 in
      let own = λ (x : Raft).
        (accept_entries-meta c m (adopt_leader m.leader_id x)).0
        ∙ ap (λ l. l.term) (adopt_leader-log m.leader_id x) in
      elim (Bool-cases (ltb r.log.term m.term || not (is_role r.role follower))) [
        | inl b ↦
            let t = own r1 ∙ (become_follower-fields m.term (some m.leader_id) now r0).0 in
            let le : r.log.term ≤ m.term = ground arith in rw (current, b) (omega (arith, t, le))
        | inr b ↦ let t = own r0 in rw (current, b) (omega (arith, t))
      ]
]

vote_request-term :
    (c : Cluster) (now : ℕ) (m : VoteRequest) (r : Raft)
    → r.log.term ≤ (handle_vote_request c now m r).0.log.term
vote_request-term c now m r = elim (Bool-cases (ltb m.term r.log.term)) [
  | inl b ↦ rw ((handle-late c now m r b).0) (omega arith)
  | inr b ↦
      let f = ready-fields c now m r b in
      let le : r.log.term ≤ m.term = ground arith in
      let t = decide_vote-term c now m (ready c now m r) ∙ f.0 in
      rw (handle-ready c now m r b) (omega (arith, t, le))
]

vote_response-term :
    (c : Cluster) (now : ℕ) (m : VoteResponse) (r : Raft)
    → (handle_vote_response c now m r).log.term ≡ r.log.term
unfolding handle_vote_response become_leader
vote_response-term c now m r = ground arith

append_response-term :
    (m : AppendResponse) (r : Raft) → (handle_append_response m r).log.term ≡ r.log.term
unfolding handle_append_response
append_response-term m r = ground arith

-- The message does not install a snapshot.
abbrev pub is_ordinary : Message → Bool
is_ordinary (install_snapshot s) = false
is_ordinary m = true

process_message-term :
    (c : Cluster) (now : ℕ) (m : Message) (r : Raft)
    → is_ordinary m ≡ true
    → r.log.term ≤ (process_message c now m r).0.log.term
unfolding process_message
process_message-term c now (append_entries m) r h = append-term c now m r
process_message-term c now (vote_request m) r h = vote_request-term c now m r
process_message-term c now (vote_response m) r h = omega (arith, vote_response-term c now m r)
process_message-term c now (append_response m) r h = omega (arith, append_response-term m r)
process_message-term c now (install_snapshot s) r h = absurd (cc)
process_message-term c now other r h = omega arith

process_all-term :
    (c : Cluster) (now : ℕ) (ms : List Message) (r : Raft)
    → All (λ m. is_ordinary m ≡ true) ms
    → r.log.term ≤ (process_all c now ms r).0.log.term
unfolding process_all
process_all-term c now [] r h = omega arith
process_all-term c now (m ∷ ms) r h = omega (
  arith,
  process_message-term c now m r h.0,
  process_all-term c now ms (process_message c now m r).0 h.1,
)

heartbeat_each-log :
    (c : Cluster) (ids : List String) (r : Raft) → (heartbeat_each c ids r).0.log ≡ r.log
unfolding heartbeat_each
heartbeat_each-log c [] r = refl
heartbeat_each-log c (id ∷ ids) r = elim (Bool-cases (id == c.local_node_id)) [
  | inl b ↦ rw b (heartbeat_each-log c ids r)
  | inr b ↦ rw b (heartbeat_each-log c ids r)
]

send_heartbeats-log : (c : Cluster) (r : Raft) → (send_heartbeats c r).0.log ≡ r.log
unfolding send_heartbeats
send_heartbeats-log c r = elim (Bool-cases (is_role r.role leader)) [
  | inl b ↦ rw b (heartbeat_each-log c c.all_nodes r)
  | inr b ↦ rw b
]

update_commit_index-log : (c : Cluster) (r : Raft) → (update_commit_index c r).log ≡ r.log
unfolding update_commit_index
update_commit_index-log c r = elim (Bool-cases (is_role r.role leader)) [
  | inl b ↦ rw b
  | inr b ↦ rw b
]

advance-term : (c : Cluster) (now : ℕ) (r : Raft) → r.log.term ≤ (advance c now r).0.log.term
unfolding advance start_election
advance-term c now r =
    let grown = λ (p : Raft × List Effect). r.log.term ≤ p.0.log.term in
    let same =
      apply_committed-log (update_commit_index c (send_heartbeats c r).0)
      ∙ update_commit_index-log c (send_heartbeats c r).0
      ∙ send_heartbeats-log c r in
    if_ind {A = Raft × List Effect} grown (is_role r.role leader)
      (λ _. omega (arith, ap (λ l. l.term) same))
      (λ _.
        if_ind {A = Raft × List Effect} grown (check_election_timeout now r) (λ _. omega arith)
          (λ _. omega arith))

-- A tick never takes a node back to an earlier term, whatever messages arrived, if none of them
-- installs a snapshot.
pub tick-term :
    (c : Cluster) (now : ℕ) (ms : List Message) (r : Raft)
    → All (λ m. is_ordinary m ≡ true) ms
    → r.log.term ≤ (tick c now ms r).0.log.term
unfolding tick
tick-term c now ms r h =
    omega (arith, process_all-term c now ms r h, advance-term c now (process_all c now ms r).0)
