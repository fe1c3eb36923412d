-- ===== src/Distributed/Raft.antt =====
-- qndb/distributed/consensus.py, `QuantumRaft`: one node. The node manager is the list of the cluster's
-- node identifiers and the number of active ones, and what is sent is a list of letters. `now` is
-- the clock's reading in milliseconds.
use quantum_database.Prelude.{
  ℕ, ◌+◌, ◌-◌, String, Bool, true, false, Option, none, some, List, [], ◌∷◌, if◌then◌else◌, ltb,
  Dict, insert, ◌==◌, string_key, nat_key, option_key,
}
use quantum_database.Distributed.Log
use quantum_database.Distributed.Log.{
  Command, EntryType, command, config, noop, LogEntry, PersistentLog, membership_change, last_index,
  last_term, term_of, entries_from, truncate_from, snapshot_data, restore_snapshot,
}

pub data Role : Type 0 where
  follower candidate leader : Role

pub record ConsensusMetrics : Type 0 where
  pub elections_started : ℕ
  pub elections_won : ℕ
  pub entries_committed : ℕ
  pub snapshots_sent : ℕ
  pub snapshots_received : ℕ
  pub messages_sent : ℕ
  pub messages_received : ℕ
  pub leader_changes : ℕ

-- The local node is one of the active ones.
-- What does not change: the node's own identifier, the cluster, and the active nodes.
pub record Cluster : Type 0 where
  pub local_node_id : String
  pub all_nodes : List String
  pub active_nodes : ℕ

pub record Snapshot : Type 0 where
  pub last_index : ℕ
  pub last_term : ℕ
  pub state : Dict String String
  pub log_snapshot : Option PersistentLog

pub record Raft : Type 0 where
  pub role : Role
  pub is_leader : Bool
  pub current_leader : Option String
  pub metrics : ConsensusMetrics
  pub log : PersistentLog
  pub commit_index : ℕ
  pub last_applied : ℕ
  pub election_timeout : ℕ
  pub last_heartbeat : ℕ
  pub running : Bool
  pub vote_count : ℕ
  pub next_index : Dict String ℕ
  pub match_index : Dict String ℕ
  pub last_snapshot_index : ℕ
  pub last_snapshot_term : ℕ
  pub state_machine_snapshot : Dict String String

pub record VoteRequest : Type 0 where
  pub term : ℕ
  pub candidate_id : String
  pub last_log_index : ℕ
  pub last_log_term : ℕ

pub record VoteResponse : Type 0 where
  pub term : ℕ
  pub vote_granted : Bool
  pub node_id : String

pub record AppendEntries : Type 0 where
  pub term : ℕ
  pub leader_id : String
  pub prev_log_index : ℕ
  pub prev_log_term : ℕ
  pub entries : List LogEntry
  pub leader_commit : ℕ

pub record AppendResponse : Type 0 where
  pub term : ℕ
  pub success : Bool
  pub node_id : String
  pub match_index : ℕ

pub data Message : Type 0 where
  vote_request : VoteRequest → Message
  vote_response : VoteResponse → Message
  append_entries : AppendEntries → Message
  append_response : AppendResponse → Message
  install_snapshot : Snapshot → Message
  other : Message

-- A message and whom it is for.
abbrev pub Letter : Type 0
Letter = String × Message

abbrev with_term : ℕ → Raft → Raft
with_term t r = record r { log = record r.log { term = t } }

abbrev with_vote : Option String → Raft → Raft
with_vote v r = record r { log = record r.log { voted_for = v } }

-- The role that a test `self.state == ...` asks for.
abbrev pub is_role : Role → Role → Bool
is_role follower follower = true
is_role candidate candidate = true
is_role leader leader = true
is_role _ _ = false

unfoldable pub start_election : Cluster → ℕ → Raft → Raft × Message
start_election c now r =
    let r' = record r {
      role = candidate;
      log = record r.log { term = r.log.term + 1; voted_for = some c.local_node_id };
      vote_count = 1;
      last_heartbeat = now;
      metrics = record r.metrics {
        elections_started = r.metrics.elections_started + 1;
        messages_sent = r.metrics.messages_sent + c.active_nodes - 1;
      };
    } in
    (
      r',
      vote_request (record {
        term = r.log.term + 1;
        candidate_id = c.local_node_id;
        last_log_index = last_index r.log;
        last_log_term = last_term r.log;
      }),
    )

abbrev pub check_election_timeout : ℕ → Raft → Bool
check_election_timeout now r = ltb (r.election_timeout + r.last_heartbeat) now

abbrev pub set_all : List String → ℕ → Dict String ℕ → Dict String ℕ
set_all [] v d = d
set_all (n ∷ ns) v d = set_all ns v (insert n v d)

-- The entry that a leader appends at its own end of the log.
abbrev pub own_entry : Command → EntryType → ℕ → Raft → LogEntry
own_entry cmd kind now r = record {
  term = r.log.term;
  index = last_index r.log + 1;
  content = cmd;
  timestamp = now;
  entry_type = kind;
}

unfoldable pub become_leader : Cluster → ℕ → Raft → Raft
become_leader c now r = record r {
  role = leader;
  is_leader = true;
  current_leader = some c.local_node_id;
  metrics = record r.metrics {
    elections_won = r.metrics.elections_won + 1;
    leader_changes = r.metrics.leader_changes + 1;
  };
  next_index = set_all c.all_nodes (last_index r.log + 1) r.next_index;
  match_index = set_all c.all_nodes 0 r.match_index;
  log = Log.append (own_entry (Log.payload []) noop now r) r.log;
}

abbrev note_leader : Option String → Raft → Raft
note_leader none r = r
note_leader (some id) r = if id == "" then r else record r {
  current_leader = some id;
  metrics = record r.metrics { leader_changes = r.metrics.leader_changes + 1 };
}

unfoldable pub become_follower : ℕ → Option String → ℕ → Raft → Raft
become_follower term leader_id now r =
    let r' = record r {
      role = follower;
      is_leader = false;
      log = record r.log { term = term; voted_for = none };
    } in
    record (note_leader leader_id r') { last_heartbeat = now }
