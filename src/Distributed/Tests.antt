-- ===== src/Distributed/Tests.antt =====
-- Runs of a node of a cluster of three on small inputs, and the theorems at such inputs.
use quantum_database.Prelude.{
  ℕ, ◌-◌, ◌≡◌, refl, String, true, ◌==◌, string_key, All, some, List, [], ◌∷◌, max, take, lookup,
  insert,
}
use quantum_database.Distributed.Log.{LogEntry, command, payload, empty_log, drop}
use quantum_database.Distributed.Raft.{
  Raft, Cluster, VoteRequest, AppendEntries, Message, append_entries, vote_request, other,
  start_election,
}
use quantum_database.Distributed.Handlers.{
  handle_vote_request, handle_append_entries, update_commit_index, apply_committed, create_snapshot,
  handle_snapshot, handle_vote_response, propose, handle_append_response,
}
use quantum_database.Distributed.Handlers.Votes
use quantum_database.Distributed.Handlers.Votes.{Grants}
use quantum_database.Distributed.Handlers.Elections
use quantum_database.Distributed.Handlers.Followers
use quantum_database.Distributed.Handlers.Followers.{Replicated}
use quantum_database.Distributed.Handlers.Progress
use quantum_database.Distributed.Handlers.Progress.{HasMajority, commands}
use quantum_database.Distributed.Node.{new_raft, tick}
use quantum_database.Distributed.Pbft
use quantum_database.Distributed.Pbft.{
  Peers, Pbft, PbftMessage, new_pbft, client_request, view_change, Vote, commit,
}
use quantum_database.Distributed.Pbft.Commits
use quantum_database.Distributed.Pbft.Commits.{BecameCommitted}
use quantum_database.Distributed.Clock.{VectorClock}
use quantum_database.Distributed.Replicas.{ReplicatedValue, lww}

program : Unit {0}
unfolding lookup insert start_election handle_vote_request handle_append_entries update_commit_index
    apply_committed create_snapshot handle_snapshot handle_vote_response propose
    handle_append_response tick
program = tt

abbrev three : Cluster
three = record { local_node_id = "a"; all_nodes = "a" ∷ "b" ∷ "c" ∷ []; active_nodes = 3 }

abbrev fresh : Raft
fresh = new_raft 200 0 empty_log

abbrev ask : String → VoteRequest
ask id = record { term = 1; candidate_id = id; last_log_index = 0; last_log_term = 0 }

one_vote_example : (ask "b").candidate_id ≡ "b"
unfolding program Votes.run_votes
one_vote_example =
    Elections.one_vote three 1 3 (ask "b") (ask "b") ((2, ask "c") ∷ []) fresh refl refl refl

abbrev entry : ℕ → LogEntry
entry n = record { term = 1; index = n; content = payload []; timestamp = 0; entry_type = command }

abbrev ping : AppendEntries
ping = record {
  term = 1;
  leader_id = "b";
  prev_log_index = 0;
  prev_log_term = 0;
  entries = entry 1 ∷ [];
  leader_commit = 1;
}

abbrev late_ask : VoteRequest
late_ask = record { term = 1; candidate_id = "c"; last_log_index = 1; last_log_term = 1 }

second_vote_example :
    ((start_election three 1 fresh).0.log.voted_for ≡ some "a")
    × ((handle_vote_request three 3 late_ask
          (handle_append_entries three 2 ping (start_election three 1 fresh).0).0).1.vote_granted
        ≡ true)
unfolding program
second_vote_example = Elections.second_vote three 1 2 3 ping late_ask fresh refl refl refl

abbrev one : Raft
unfolding program
one = (handle_append_entries three 2 ping fresh).0

abbrev more : AppendEntries
more = record {
  term = 1;
  leader_id = "b";
  prev_log_index = 1;
  prev_log_term = 1;
  entries = entry 2 ∷ entry 3 ∷ [];
  leader_commit = 2;
}

handle_append_entries-Replicated_example :
    Replicated more
      (handle_append_entries three 3 more one).0.log.entries
      (handle_append_entries three 3 more one).1.match_index
unfolding program
handle_append_entries-Replicated_example =
    Followers.handle_append_entries-Replicated three more (refl, (refl, tt)) 3 one refl

-- A candidate that a second node votes for leads the three, and commits what that node then has.
abbrev elected : Raft
unfolding program
elected =
    handle_vote_response three 2 (record { term = 1; vote_granted = true; node_id = "b" })
      (start_election three 1 fresh).0

abbrev proposed : Raft
unfolding program
proposed = (propose (payload []) 3 elected).0

abbrev answered : Raft
unfolding program
answered =
    handle_append_response (record { term = 1; success = true; node_id = "b"; match_index = 2 })
      proposed

committed_two :
    ((update_commit_index three answered).commit_index ≡ 2)
    × ((apply_committed (update_commit_index three answered)).0.last_applied ≡ 2)
    × ((update_commit_index three proposed).commit_index ≡ 0)
unfolding program
committed_two = (refl, refl, refl)

abbrev agreed : Raft
unfolding program
agreed = update_commit_index three answered

apply_committed_lem_example :
    ((apply_committed agreed).0.last_applied ≡ max agreed.last_applied agreed.commit_index)
    × ((apply_committed agreed).1
        ≡ commands (
            take
              (agreed.commit_index - agreed.last_applied)
              (drop agreed.last_applied agreed.log.entries)))
apply_committed_lem_example = Progress.apply_committed_lem agreed

abbrev maker : Raft
unfolding program
maker = (apply_committed agreed).0

abbrev arrived : List Message
arrived = vote_request (ask "b") ∷ append_entries ping ∷ other ∷ []

abbrev four : String → Peers
four id = record {
  local_node_id = id;
  nodes = "a" ∷ "b" ∷ "c" ∷ "d" ∷ [];
  digest = λ request. request;
}

abbrev idle : Pbft
idle = new_pbft fresh.metrics

abbrev second_view : List (List PbftMessage)
second_view = (view_change 1 "c" [] ∷ []) ∷ []

abbrev vote_of : String → PbftMessage
vote_of id = commit (record { view = 0; sequence = 1; request_id = "r"; digest = "q"; sender = id })

abbrev voted : Pbft
unfolding program Pbft.start Pbft.process_all
voted =
    (Pbft.process_all (four "a") (client_request "r" "q" ∷ vote_of "b" ∷ vote_of "c" ∷ [])
      (Pbft.start (four "a") idle)).0

-- With its own vote the primary has a quorum of three.
voted_commits : (Pbft.check_committed (four "a") voted).1 ≡ "r" ∷ []
unfolding program Pbft.check_committed Pbft.start Pbft.process_all Pbft.quorum
voted_commits = refl

check_committed-BecameCommitted_example :
    All
      (BecameCommitted
        (four "a")
        voted.prepared_requests
        voted
        (Pbft.check_committed (four "a") voted).0)
      (Pbft.check_committed (four "a") voted).1
check_committed-BecameCommitted_example = Commits.check_committed-BecameCommitted (four "a") voted

-- With six nodes, one of them faulty, a quorum is three: two quorums can have no node in common.
abbrev peers_six : Peers
peers_six = record (four "a") { nodes = "a" ∷ "b" ∷ "c" ∷ "d" ∷ "e" ∷ "f" ∷ [] }

quorum_of_six : (Pbft.faulty peers_six ≡ 1) × (Pbft.quorum peers_six ≡ 3)
unfolding Pbft.quorum Pbft.faulty
quorum_of_six = (refl, refl)

abbrev left : VectorClock
left = ("a", 2) ∷ ("b", 1) ∷ []

abbrev right : VectorClock
right = ("b", 3) ∷ ("c", 1) ∷ []

abbrev node_a : String
node_a = "a"

abbrev node_b : String
node_b = "b"

a_not_b : ¬ (node_a ≡ node_b)
a_not_b e =
    let same : (node_a == node_b) ≡ true = (string_key.same_iff node_a node_b).1 e in absurd cc

abbrev value_of : String → ℕ → ReplicatedValue
value_of id now = record {
  key = "k";
  content = "v";
  version = 1;
  timestamp = now;
  origin_node = id;
  clock = [];
  checksum = "";
}

later_name_wins : (lww (value_of "a" 3) (value_of "b" 3)).origin_node ≡ "b"
unfolding lww
later_name_wins = refl
