-- ===== src/Distributed/Node.antt =====
-- qndb/distributed/consensus.py, `QuantumRaft`: which handler a message is for, the heartbeats and the
-- tick. What a node does besides changing its state is a list of effects: messages to one node,
-- messages to all others, and entries given to the apply callback.
pub mod Terms
use quantum_database.Prelude.{
  ℕ, ◌+◌, ◌-◌, String, Bool, false, true, ◌&&◌, ◌||◌, Option, none, some, List, [], ◌∷◌, ◌++◌, map,
  if◌then◌else◌, lookup, ◌==◌, string_key, nat_key, Dict,
}
use quantum_database.Distributed.Log
use quantum_database.Distributed.Log.{LogEntry, empty_log, PersistentLog, term_of, entries_from}
use quantum_database.Distributed.Raft.{
  Raft, ConsensusMetrics, Role, Cluster, Message, AppendEntries, vote_request, vote_response,
  append_entries, append_response, install_snapshot, other, is_role, leader, follower,
  start_election, check_election_timeout,
}
use quantum_database.Distributed.Handlers.{
  handle_append_entries, handle_append_response, handle_vote_request, handle_vote_response,
  handle_snapshot, update_commit_index, apply_committed, or_one,
}

pub data Effect : Type 0 where
  send : String → Message → Effect
  broadcast : Message → Effect
  applied : LogEntry → Effect

-- `__init__`; the timeout is what the random generator gives, the log is as it was loaded.
abbrev pub new_raft : (election_timeout now : ℕ) → PersistentLog → Raft
new_raft election_timeout now log = record {
  role = follower;
  is_leader = false;
  current_leader = none;
  metrics = record {
    elections_started = 0;
    elections_won = 0;
    entries_committed = 0;
    snapshots_sent = 0;
    snapshots_received = 0;
    messages_sent = 0;
    messages_received = 0;
    leader_changes = 0;
  };
  log = log;
  commit_index = 0;
  last_applied = 0;
  election_timeout = election_timeout;
  last_heartbeat = now;
  running = false;
  vote_count = 0;
  next_index = [];
  match_index = [];
  last_snapshot_index = 0;
  last_snapshot_term = 0;
  state_machine_snapshot = [];
}

abbrev pub start : Raft → Raft
start r = record r { running = true }

abbrev pub stop : Raft → Raft
stop r = record r { running = false }

-- The message for one node. Next positions are at least 1.
abbrev pub heartbeat : Cluster → String → Raft → AppendEntries
heartbeat c id r =
    let next = or_one (lookup id r.next_index) in
    record {
      term = r.log.term;
      leader_id = c.local_node_id;
      prev_log_index = next - 1;
      prev_log_term = term_of (Log.get (next - 1) r.log);
      entries = entries_from next r.log;
      leader_commit = r.commit_index;
    }

abbrev count_sent : Raft → Raft
count_sent r = record r {
  metrics = record r.metrics { messages_sent = r.metrics.messages_sent + 1 };
}

-- The loop over the nodes of the cluster.
unfoldable pub heartbeat_each : Cluster → List String → Raft → Raft × List Effect
heartbeat_each c [] r = (r, [])
heartbeat_each c (id ∷ ids) r =
    let (r', rest) = heartbeat_each c ids r in
    if id == c.local_node_id
    then (r', rest)
    else (count_sent r', send id (append_entries (heartbeat c id r)) ∷ rest)

unfoldable pub send_heartbeats : Cluster → Raft → Raft × List Effect
unfolding heartbeat_each
send_heartbeats c r = if is_role r.role leader then heartbeat_each c c.all_nodes r else (r, [])

unfoldable pub process_message : Cluster → ℕ → Message → Raft → Raft × List Effect
unfolding handle_append_entries handle_vote_request handle_vote_response handle_append_response
    handle_snapshot
process_message c now (append_entries m) r =
    let (r', resp) = handle_append_entries c now m r in
    (r', send m.leader_id (append_response resp) ∷ [])
process_message c now (vote_request m) r =
    let (r', resp) = handle_vote_request c now m r in
    (r', send m.candidate_id (vote_response resp) ∷ [])
process_message c now (vote_response m) r = (handle_vote_response c now m r, [])
process_message c now (append_response m) r = (handle_append_response m r, [])
process_message c now (install_snapshot s) r = ((handle_snapshot s r).0, [])
process_message c now other r = (r, [])

unfoldable pub process_all : Cluster → ℕ → List Message → Raft → Raft × List Effect
unfolding process_message
process_all c now [] r = (r, [])
process_all c now (m ∷ ms) r =
    let (r', sent) = process_message c now m r in
    let (r'', rest) = process_all c now ms r' in (r'', sent ++ rest)

-- What a tick does after the messages.
unfoldable pub advance : Cluster → ℕ → Raft → Raft × List Effect
unfolding send_heartbeats update_commit_index apply_committed start_election
advance c now r =
    if is_role r.role leader
    then (let (r1, sent) = send_heartbeats c r in
        let (r2, entries) = apply_committed (update_commit_index c r1) in
        (r2, sent ++ map applied entries))
    else if check_election_timeout now r
    then (let (r1, m) = start_election c now r in (r1, broadcast m ∷ []))
    else (r, [])

-- `messages` is what has arrived since the last tick.
unfoldable pub tick : Cluster → ℕ → List Message → Raft → Raft × List Effect
unfolding process_all advance
tick c now messages r =
    let (r1, answers) = process_all c now messages r in
    let (r2, sent) = advance c now r1 in (r2, answers ++ sent)

abbrev has_leader : Option String → Bool
has_leader none = false
has_leader (some id) = true

unfoldable pub is_agreement_reached : Raft → Bool
is_agreement_reached r =
    is_role r.role leader
    || (is_role r.role follower
        && (has_leader r.current_leader && r.last_applied == r.commit_index))
