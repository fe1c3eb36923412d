-- ===== src/Distributed/Pbft.antt =====
-- qndb/distributed/consensus.py, `QuantumPBFT`: one node. The list of nodes stands in the order of their
-- identifiers, requests are texts, and the digest is a parameter. What a node broadcasts is a list.
-- A committed request is reduced to its sequence number, the one part of it that is read.
pub mod Primary
pub mod Commits
use quantum_database.Prelude.{
  ℕ, zero, suc, ◌+◌, ◌-◌, ◌*◌, ◌/◌, ◌%◌, String, Bool, true, false, not, ◌&&◌, ◌||◌, Option, none,
  some, List, [], ◌∷◌, ◌++◌, map, if◌then◌else◌, ltb, leb, length, add, max, filter, Dict, lookup,
  insert, remove, values, ◌==◌, string_key, nat_key, option_key,
}
use quantum_database.Distributed.Log.{get_elem?}
use quantum_database.Distributed.Raft.{ConsensusMetrics}

pub record Peers : Type 0 where
  pub local_node_id : String
  pub nodes : List String
  pub digest : String → String

pub record Slot : Type 0 where
  pub request : String
  pub sequence : ℕ
  pub prepares : List String
  pub commits : List String

pub record Pbft : Type 0 where
  pub is_leader : Bool
  pub current_leader : Option String
  pub metrics : ConsensusMetrics
  pub view : ℕ
  pub sequence_number : ℕ
  pub running : Bool
  pub pending_requests : Dict String String
  pub prepared_requests : Dict String Slot
  pub committed_requests : Dict String ℕ
  pub checkpoint_interval : ℕ
  pub last_checkpoint : ℕ
  pub checkpoints : Dict ℕ (List String)

pub record Proposal : Type 0 where
  pub view : ℕ
  pub sequence : ℕ
  pub request_id : String
  pub request : String
  pub digest : String
  pub sender : String

pub record Vote : Type 0 where
  pub view : ℕ
  pub sequence : ℕ
  pub request_id : String
  pub digest : String
  pub sender : String

pub data PbftMessage : Type 0 where
  pre_prepare : Proposal → PbftMessage
  prepare commit : Vote → PbftMessage
  view_change : (new_view : ℕ) → (sender : String) → (proofs : List String) → PbftMessage
  checkpoint : (sequence : ℕ) → (sender : String) → PbftMessage
  client_request : (request_id request : String) → PbftMessage
  other : PbftMessage

abbrev pub new_pbft : ConsensusMetrics → Pbft
new_pbft metrics = record {
  is_leader = false;
  current_leader = none;
  metrics = metrics;
  view = 0;
  sequence_number = 0;
  running = false;
  pending_requests = [];
  prepared_requests = [];
  committed_requests = [];
  checkpoint_interval = 100;
  last_checkpoint = 0;
  checkpoints = [];
}

-- `f`, the number of faulty nodes that are tolerated
unfoldable pub faulty : Peers → ℕ
faulty c = (length c.nodes - 1) / 3

unfoldable pub quorum : Peers → ℕ
unfolding faulty
quorum c = 2 * faulty c + 1

abbrev pub primary : Peers → ℕ → Option String
primary c view = get_elem? c.nodes (view % length c.nodes)

abbrev pub is_empty : List String → Bool
is_empty [] = true
is_empty _ = false

unfoldable pub update_primary_status : Peers → Pbft → Pbft
update_primary_status c p = if is_empty c.nodes then p else record p {
  current_leader = primary c p.view;
  is_leader = primary c p.view == some c.local_node_id;
}

unfoldable pub start : Peers → Pbft → Pbft
unfolding update_primary_status
start c p = update_primary_status c (record p { running = true })

abbrev pub stop : Pbft → Pbft
stop p = record p { running = false }

unfoldable pub send_pre_prepare :
    Peers → (request_id request : String) → Pbft → Pbft × List PbftMessage
send_pre_prepare c request_id request p =
    let sequence = p.sequence_number + 1 in
    (
      record p {
        sequence_number = sequence;
        metrics = record p.metrics { messages_sent = p.metrics.messages_sent + 1 };
        prepared_requests =
            insert request_id
              (record {
                request = request;
                sequence = sequence;
                prepares = c.local_node_id ∷ [];
                commits = c.local_node_id ∷ [];
              })
              p.prepared_requests;
      },
      pre_prepare (record {
        view = p.view;
        sequence = sequence;
        request_id = request_id;
        request = request;
        digest = c.digest request;
        sender = c.local_node_id;
      })
          ∷ [],
    )

unfoldable pub submit_request :
    Peers → (request_id request : String) → Pbft → Pbft × List PbftMessage
unfolding send_pre_prepare
submit_request c request_id request p =
    let p' = record p { pending_requests = insert request_id request p.pending_requests } in
    if p'.is_leader then send_pre_prepare c request_id request p' else (p', [])

-- What is done to the request's entry in `prepared_requests`, if it has one.
abbrev update_slot : (Slot → Slot) → String → Dict String Slot → Dict String Slot
update_slot change rid d = elim (lookup rid d) [ none ↦ d | some s ↦ insert rid (change s) d ]

abbrev add_prepare : String → Slot → Slot
add_prepare id s = record s { prepares = add id s.prepares }

abbrev pub add_commit : String → Slot → Slot
add_commit id s = record s { commits = add id s.commits }

abbrev with_slot : Proposal → Dict String Slot → Dict String Slot
with_slot m d = elim (lookup m.request_id d) [
  | some s ↦ d
  | none ↦
      insert m.request_id
        (record { request = m.request; sequence = m.sequence; prepares = []; commits = [] }) d
]

unfoldable pub handle_pre_prepare : Peers → Proposal → Pbft → Pbft × List PbftMessage
handle_pre_prepare c m p =
    if not (p.current_leader == some m.sender)
      || (not (m.view == p.view) || not (c.digest m.request == m.digest))
    then (p, [])
    else (
      record p {
        pending_requests = insert m.request_id m.request p.pending_requests;
        prepared_requests =
            update_slot (add_prepare c.local_node_id) m.request_id
              (with_slot m p.prepared_requests);
      },
      prepare (record {
        view = p.view;
        sequence = m.sequence;
        request_id = m.request_id;
        digest = m.digest;
        sender = c.local_node_id;
      })
          ∷ [],
    )

unfoldable pub handle_prepare : Vote → Pbft → Pbft
handle_prepare m p = if not (m.view == p.view) then p else record p {
  prepared_requests = update_slot (add_prepare m.sender) m.request_id p.prepared_requests;
}

unfoldable pub handle_commit : Vote → Pbft → Pbft
handle_commit m p = if not (m.view == p.view) then p else record p {
  prepared_requests = update_slot (add_commit m.sender) m.request_id p.prepared_requests;
}

abbrev pub is_known {ℓ} : {A : Type ℓ} → Option A → Bool
is_known none = false
is_known (some a) = true

-- The loop of `check_prepared`; `p` is the node before it.
unfoldable pub commit_prepared :
    Peers → Pbft → Dict String Slot → Dict String Slot × List PbftMessage
commit_prepared c p [] = ([], [])
commit_prepared c p ((rid, s) ∷ d) =
    let (d', sent) = commit_prepared c p d in
    if is_known (lookup rid p.committed_requests) || ltb (length s.prepares) (quorum c)
    then ((rid, s) ∷ d', sent)
    else (
      (rid, add_commit c.local_node_id s) ∷ d',
      commit (record {
        view = p.view;
        sequence = s.sequence;
        request_id = rid;
        digest = c.digest s.request;
        sender = c.local_node_id;
      })
          ∷ sent,
    )

unfoldable pub check_prepared : Peers → Pbft → Pbft × List PbftMessage
unfolding commit_prepared
check_prepared c p =
    let (d, sent) = commit_prepared c p p.prepared_requests in
    (record p { prepared_requests = d }, sent)

abbrev pub committed : String → Slot → Pbft → Pbft
committed rid s p = record p {
  committed_requests = insert rid s.sequence p.committed_requests;
  pending_requests = remove rid p.pending_requests;
  metrics = record p.metrics { entries_committed = p.metrics.entries_committed + 1 };
}

abbrev pub can_commit : Peers → String → Slot → Pbft → Bool
can_commit c rid s p =
    not (is_known (lookup rid p.committed_requests)) && leb (quorum c) (length s.commits)

-- The loop of `check_committed`.
unfoldable pub commit_each : Peers → Dict String Slot → Pbft → Pbft × List String
commit_each c [] p = (p, [])
commit_each c ((rid, s) ∷ d) p =
    let ready = can_commit c rid s p in
    let (p', rids) = commit_each c d (if ready then committed rid s p else p) in
    (p', if ready then rid ∷ rids else rids)

unfoldable pub check_committed : Peers → Pbft → Pbft × List String
unfolding commit_each
check_committed c p = commit_each c p.prepared_requests p

abbrev keys : Dict String ℕ → List String
keys d = map (λ p. p.0) d

abbrev one_change : Pbft → Pbft
one_change p = record p {
  metrics = record p.metrics { leader_changes = p.metrics.leader_changes + 1 };
}

unfoldable pub initiate_view_change : Peers → Pbft → Pbft × List PbftMessage
unfolding update_primary_status
initiate_view_change c p =
    let p' = record p { view = p.view + 1 } in
    (
      one_change (update_primary_status c p'),
      view_change p'.view c.local_node_id (keys p.committed_requests) ∷ [],
    )

unfoldable pub handle_view_change : Peers → ℕ → Pbft → Pbft
unfolding update_primary_status
handle_view_change c new_view p =
    if leb new_view p.view
    then p
    else one_change (update_primary_status c (record p { view = new_view }))

abbrev or_nobody : Option (List String) → List String
or_nobody none = []
or_nobody (some ids) = ids

abbrev add_checkpoint : ℕ → String → Dict ℕ (List String) → Dict ℕ (List String)
add_checkpoint sequence id d = insert sequence (add id (or_nobody (lookup sequence d))) d

abbrev greatest : List ℕ → ℕ
greatest [] = 0
greatest (n ∷ ns) = max n (greatest ns)

unfoldable pub maybe_checkpoint : Peers → Pbft → Pbft × List PbftMessage
maybe_checkpoint c p =
    let highest = greatest (values p.committed_requests) in
    if ltb highest (p.last_checkpoint + p.checkpoint_interval) then (p, []) else (
      record p {
        last_checkpoint = highest;
        checkpoints = add_checkpoint highest c.local_node_id p.checkpoints;
        committed_requests = filter (λ e. leb highest e.1) p.committed_requests;
      },
      checkpoint highest c.local_node_id ∷ [],
    )

abbrev pub handle_checkpoint : ℕ → String → Pbft → Pbft
handle_checkpoint sequence sender p = record p {
  checkpoints = add_checkpoint sequence sender p.checkpoints;
}

unfoldable pub process_message : Peers → PbftMessage → Pbft → Pbft × List PbftMessage
unfolding handle_pre_prepare handle_prepare handle_commit handle_view_change submit_request
process_message c (pre_prepare m) p = handle_pre_prepare c m p
process_message c (prepare m) p = (handle_prepare m p, [])
process_message c (commit m) p = (handle_commit m p, [])
process_message c (view_change new_view sender proofs) p = (handle_view_change c new_view p, [])
process_message c (checkpoint sequence sender) p = (handle_checkpoint sequence sender p, [])
process_message c (client_request request_id request) p = submit_request c request_id request p
process_message c other p = (p, [])

unfoldable pub process_all : Peers → List PbftMessage → Pbft → Pbft × List PbftMessage
unfolding process_message
process_all c [] p = (p, [])
process_all c (m ∷ ms) p =
    let (p', sent) = process_message c m p in
    let (p'', rest) = process_all c ms p' in (p'', sent ++ rest)

-- The node, what it broadcasts, and the requests that it commits.
unfoldable pub tick : Peers → List PbftMessage → Pbft → Pbft × List PbftMessage × List String
unfolding process_all check_prepared check_committed maybe_checkpoint
tick c messages p =
    let (p1, answers) = process_all c messages p in
    let (p2, commits) = check_prepared c p1 in
    let (p3, rids) = check_committed c p2 in
    let (p4, checks) = maybe_checkpoint c p3 in (p4, answers ++ commits ++ checks, rids)

unfoldable pub is_agreement_reached : Pbft → Bool
is_agreement_reached p = ltb 0 (length p.committed_requests)
