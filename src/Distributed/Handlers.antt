-- ===== src/Distributed/Handlers.antt =====
-- qndb/distributed/consensus.py, `QuantumRaft`: what a node does with messages, with its own log, and
-- at each tick.
pub mod Fields
pub mod Votes
pub mod Elections
pub mod Replication
pub mod Followers
pub mod Progress
pub mod Snapshots
use quantum_database.Prelude.{
  ℕ, zero, suc, ◌+◌, ◌-◌, ◌*◌, String, Bool, true, false, ◌&&◌, ◌||◌, not, Option, none, some, List,
  [], ◌∷◌, ◌++◌, map, if◌then◌else◌, ltb, leb, length, min, max, Dict, lookup, insert, ◌==◌,
  string_key, nat_key, option_key, values, filter,
}
use quantum_database.Distributed.Log
use quantum_database.Distributed.Log.{
  Command, EntryType, command, config, noop, LogEntry, PersistentLog, membership_change, last_index,
  last_term, term_of, entries_from, truncate_from, snapshot_data, restore_snapshot,
}
use quantum_database.Distributed.Raft.{
  Role, follower, candidate, leader, Cluster, Snapshot, Raft, VoteRequest, VoteResponse,
  AppendEntries, AppendResponse, Message, vote_request, vote_response, append_entries,
  append_response, install_snapshot, other, Letter, is_role, start_election, check_election_timeout,
  own_entry, become_leader, become_follower,
}

abbrev received : Raft → Raft
received r = record r {
  metrics = record r.metrics { messages_received = r.metrics.messages_received + 1 };
}

abbrev pub adopt_leader : String → Raft → Raft
adopt_leader id r = elim r.current_leader [
  | none ↦ record r { current_leader = some id }
  | some l ↦ if l == "" || not (l == id) then record r { current_leader = some id } else r
]

-- `existing is None or existing.term != prev_term`, at a position after 0
abbrev pub mismatch : ℕ → ℕ → PersistentLog → Bool
mismatch zero prev_term l = false
mismatch (suc i) prev_term l = elim (Log.get (suc i) l) [
  | none ↦ true
  | some e ↦ not (e.term == prev_term)
]

abbrev pub differs : Option LogEntry → ℕ → Bool
differs none t = false
differs (some e) t = not (e.term == t)

-- One round of the loop over the entries of a message, for an entry with the given index.
pub store_at : ℕ → LogEntry → PersistentLog → PersistentLog
store_at index e l =
    let l' = if differs (Log.get index l) e.term then truncate_from index l else l in
    if ltb (last_index l') index then Log.append e l' else l'

unfoldable pub store_entry : LogEntry → PersistentLog → PersistentLog
unfolding store_at
store_entry e = store_at e.index e

unfoldable pub store_entries : List LogEntry → PersistentLog → PersistentLog
unfolding store_entry
store_entries [] l = l
store_entries (e ∷ es) l = store_entries es (store_entry e l)

abbrev append_answer : Cluster → Bool → ℕ → Raft → AppendResponse
append_answer c success matched r = record {
  term = r.log.term;
  success = success;
  node_id = c.local_node_id;
  match_index = matched;
}

-- What follows once the message's term is accepted.
pub accept_entries : Cluster → AppendEntries → Raft → Raft × AppendResponse
unfolding store_entries
accept_entries c m r =
    if mismatch m.prev_log_index m.prev_log_term r.log
    then (r, append_answer c false 0 r)
    else (let log = store_entries m.entries r.log in
        let commit =
          if ltb r.commit_index m.leader_commit
          then min m.leader_commit (last_index log)
          else r.commit_index in
        let r' = received (record r { log = log; commit_index = commit }) in
        (r', append_answer c true (last_index log) r'))

unfoldable pub handle_append_entries : Cluster → ℕ → AppendEntries → Raft → Raft × AppendResponse
unfolding accept_entries become_follower
handle_append_entries c now m r =
    let r0 = record r { last_heartbeat = now } in
    if ltb m.term r.log.term
    then (r0, append_answer c false 0 r0)
    else accept_entries c m (
        adopt_leader m.leader_id (
          if ltb r.log.term m.term || not (is_role r.role follower)
          then become_follower m.term (some m.leader_id) now r0
          else r0))

abbrev pub or_one : Option ℕ → ℕ
or_one none = 1
or_one (some n) = n

unfoldable pub handle_append_response : AppendResponse → Raft → Raft
handle_append_response m r =
    if not (is_role r.role leader)
    then r
    else if m.success
    then record r {
      match_index = insert m.node_id m.match_index r.match_index;
      next_index = insert m.node_id (m.match_index + 1) r.next_index;
    }
    else record r {
      next_index =
          insert m.node_id (max 1 (or_one (lookup m.node_id r.next_index) - 1)) r.next_index;
    }

-- The candidate's log is at least as recent as the node's own.
abbrev pub is_recent : VoteRequest → PersistentLog → Bool
is_recent m l =
    ltb (last_term l) m.last_log_term
    || (m.last_log_term == last_term l && leb (last_index l) m.last_log_index)

abbrev pub may_vote : Option String → String → Bool
may_vote none candidate_id = true
may_vote (some v) candidate_id = v == candidate_id

abbrev vote_answer : Cluster → Bool → Raft → VoteResponse
vote_answer c granted r = record {
  term = r.log.term;
  vote_granted = granted;
  node_id = c.local_node_id;
}

pub decide_vote : Cluster → ℕ → VoteRequest → Raft → Raft × VoteResponse
decide_vote c now m r =
    if may_vote r.log.voted_for m.candidate_id && is_recent m r.log
    then (let r' = received (record r {
      log = record r.log { voted_for = some m.candidate_id };
      last_heartbeat = now;
    }) in
        (r', vote_answer c true r'))
    else (received r, vote_answer c false r)

unfoldable pub handle_vote_request : Cluster → ℕ → VoteRequest → Raft → Raft × VoteResponse
unfolding decide_vote become_follower
handle_vote_request c now m r =
    if ltb m.term r.log.term
    then (r, vote_answer c false r)
    else decide_vote c now m
        (if ltb r.log.term m.term then become_follower m.term none now r else r)

-- `vote_count > total / 2`, a division of floats
unfoldable pub handle_vote_response : Cluster → ℕ → VoteResponse → Raft → Raft
unfolding become_leader
handle_vote_response c now m r =
    if is_role r.role candidate && m.vote_granted
    then (let r' = record r { vote_count = r.vote_count + 1 } in
        if ltb (length c.all_nodes) (2 * r'.vote_count) then become_leader c now r' else r')
    else r

abbrev pub count_matching : ℕ → List ℕ → ℕ
count_matching n ms = length (filter (λ m. leb n m) ms)

-- The leader's entry at the position can be committed.
abbrev pub is_committable : Cluster → ℕ → Raft → Bool
is_committable c n r = elim (Log.get n r.log) [
  | none ↦ false
  | some e ↦
      e.term == r.log.term
      && ltb (length c.all_nodes) (2 * (1 + count_matching n (values r.match_index)))
]

-- The loop over `range(last_index, commit_index, -1)`; `k` positions are left.
pub highest_committable : Cluster → ℕ → Raft → ℕ
highest_committable c zero r = r.commit_index
highest_committable c (suc k) r =
    let lower = highest_committable c k r in
    if is_committable c (r.commit_index + suc k) r then r.commit_index + suc k else lower

unfoldable pub update_commit_index : Cluster → Raft → Raft
unfolding highest_committable
update_commit_index c r =
    if not (is_role r.role leader)
    then r
    else record r { commit_index = highest_committable c (last_index r.log - r.commit_index) r }

abbrev pub is_command : EntryType → Bool
is_command command = true
is_command _ = false

-- The body of the loop of `apply_committed`; the entry is what the callback is given.
abbrev pub apply_next : Raft → Raft × List LogEntry
apply_next r =
    let r' = record r { last_applied = suc r.last_applied } in
    elim (Log.get (suc r.last_applied) r.log) [
      | none ↦ (r', [])
      | some e ↦
          if is_command e.entry_type
          then (
            record r' {
              metrics = record r'.metrics { entries_committed = r'.metrics.entries_committed + 1 };
            },
            e ∷ [],
          )
          else (r', [])
    ]

-- `k` rounds are left of the loop.
pub apply_rounds : ℕ → Raft → Raft × List LogEntry
apply_rounds zero r = (r, [])
apply_rounds (suc k) r =
    let (r', applied) = apply_next r in
    let (r'', rest) = apply_rounds k r' in (r'', applied ++ rest)

unfoldable pub apply_committed : Raft → Raft × List LogEntry
unfolding apply_rounds
apply_committed r = apply_rounds (r.commit_index - r.last_applied) r

abbrev append_own : LogEntry → Raft → Raft × Option LogEntry
append_own e r = (record r { log = Log.append e r.log }, some e)

unfoldable pub propose : Command → ℕ → Raft → Raft × Option LogEntry
propose cmd now r =
    if not (is_role r.role leader) then (r, none) else append_own (own_entry cmd command now r) r

unfoldable pub propose_membership_change :
    (action node_id host : String) → (port now : ℕ) → Raft → Raft × Option LogEntry
propose_membership_change action node_id host port now r =
    if not (is_role r.role leader)
    then (r, none)
    else append_own (own_entry (membership_change action node_id host port) config now r) r

unfoldable pub create_snapshot : Dict String String → Raft → Raft × Snapshot
create_snapshot state r =
    let t = term_of (Log.get r.last_applied r.log) in
    (
      record r {
        state_machine_snapshot = state;
        last_snapshot_index = r.last_applied;
        last_snapshot_term = t;
        metrics = record r.metrics { snapshots_sent = r.metrics.snapshots_sent + 1 };
      },
      record {
        last_index = r.last_applied;
        last_term = t;
        state = state;
        log_snapshot = some (snapshot_data r.log);
      },
    )

abbrev restored : Option PersistentLog → PersistentLog → PersistentLog
restored none l = l
restored (some saved) l = restore_snapshot saved l

unfoldable pub handle_snapshot : Snapshot → Raft → Raft × Bool
handle_snapshot s r = if leb s.last_index r.last_snapshot_index then (r, false) else (
  record r {
    last_snapshot_index = s.last_index;
    last_snapshot_term = s.last_term;
    state_machine_snapshot = s.state;
    log = restored s.log_snapshot r.log;
    last_applied = s.last_index;
    commit_index = max r.commit_index s.last_index;
    metrics = record r.metrics { snapshots_received = r.metrics.snapshots_received + 1 };
  },
  true,
)
