-- ===== src/Distributed/Replicas.antt =====
-- qndb/distributed/synchronization.py: replicated values, the resolver of conflicts, and the store that
-- sends its values to peers. Values and checksums are texts; the checksum of a value, and which
-- peers acknowledge a message, are parameters.
pub mod Winners
use Prim.Native.Nat.{Ordering}
use Prim.Native.String.{compare}
use quantum_database.Prelude.{
  ℕ, suc, ◌+◌, ◌/◌, String, Bool, true, false, not, ◌&&◌, ◌||◌, Option, none, some, List, [], ◌∷◌,
  if◌then◌else◌, ltb, leb, max, length, filter, Dict, lookup, insert, ◌==◌, string_key, nat_key,
}
use quantum_database.Distributed.Clock.{VectorClock, increment, precedes}

pub data ConsistencyLevel : Type 0 where
  one quorum_level all_level : ConsistencyLevel

pub data ConflictResolutionPolicy : Type 0 where
  last_writer_wins vector_clock crdt : ConflictResolutionPolicy

pub record LwwRegister : Type 0 where
  pub content : Option String
  pub timestamp : ℕ
  pub node_id : String

pub record ReplicatedValue : Type 0 where
  pub key : String
  pub content : String
  pub version : ℕ
  pub timestamp : ℕ
  pub origin_node : String
  pub clock : VectorClock
  pub checksum : String

-- `a > b` on texts, by the code points
abbrev pub later : String → String → Bool
later a b = elim (compare a b) [ Ordering.gt ↦ true | _ ↦ false ]

-- `set` of a register; `ts` is the time given, or the clock's reading.
unfoldable pub set_register : String → (node_id : String) → (ts : ℕ) → LwwRegister → LwwRegister
set_register content node_id ts r =
    if ltb r.timestamp ts || (ts == r.timestamp && later node_id r.node_id)
    then record { content = some content; timestamp = ts; node_id = node_id }
    else r

unfoldable pub merge_register : LwwRegister → LwwRegister → LwwRegister
merge_register r other =
    if ltb r.timestamp other.timestamp
    then other
    else if other.timestamp == r.timestamp && later other.node_id r.node_id
    then other
    else r

unfoldable pub lww : ReplicatedValue → ReplicatedValue → ReplicatedValue
lww local remote =
    if ltb local.timestamp remote.timestamp
    then remote
    else if remote.timestamp == local.timestamp
    then (if later remote.origin_node local.origin_node then remote else local)
    else local

unfoldable pub by_clock : ReplicatedValue → ReplicatedValue → ReplicatedValue
unfolding lww
by_clock local remote =
    if precedes remote.clock local.clock
    then local
    else if precedes local.clock remote.clock
    then remote
    else lww local remote

unfoldable pub resolve :
    ConflictResolutionPolicy → ReplicatedValue → ReplicatedValue → ReplicatedValue
unfolding by_clock lww
resolve last_writer_wins local remote = lww local remote
resolve vector_clock local remote = by_clock local remote
resolve crdt local remote = remote

pub record Synchronizer : Type 0 where
  pub consistency : ConsistencyLevel
  pub policy : ConflictResolutionPolicy
  pub store : Dict String ReplicatedValue
  pub transfer_count : ℕ
  pub successful_transfers : ℕ

abbrev pub new_synchronizer : ConsistencyLevel → ConflictResolutionPolicy → Synchronizer
new_synchronizer consistency policy = record {
  consistency = consistency;
  policy = policy;
  store = [];
  transfer_count = 0;
  successful_transfers = 0;
}

unfoldable pub required_acks : ConsistencyLevel → (peer_count : ℕ) → ℕ
required_acks all_level peer_count = peer_count
required_acks quorum_level peer_count = max 1 ((peer_count + 1) / 2)
required_acks one peer_count = 1

abbrev transferred : Synchronizer → Synchronizer
transferred s = record s {
  transfer_count = s.transfer_count + 1;
  successful_transfers = s.successful_transfers + 1;
}

-- The loop of `_replicate` over the peers, with its `break`; the list is of the peers sent to.
unfoldable pub send_each :
    (String → Bool)
    → (required ack_count : ℕ) → List String
    → Synchronizer
    → Synchronizer × ℕ × List String
send_each acks required ack_count [] s = (s, ack_count, [])
send_each acks required ack_count (peer ∷ peers) s =
    let success = acks peer in
    let count = if success then ack_count + 1 else ack_count in
    let s' = if success then transferred s else s in
    let (s'', total, sent) = send_each acks required count peers s' in
    if leb required count then (s', count, peer ∷ []) else (s'', total, peer ∷ sent)

abbrev pub others : String → List String → List String
others local_node_id active_nodes = filter (λ id. not (id == local_node_id)) active_nodes

abbrev is_nobody : List String → Bool
is_nobody [] = true
is_nobody _ = false

unfoldable pub replicate :
    (String → Bool)
    → (local_node_id : String) → (active_nodes : List String) → ConsistencyLevel
    → Synchronizer
    → Synchronizer × Bool
unfolding send_each required_acks
replicate acks local_node_id active_nodes level s =
    let peers = others local_node_id active_nodes in
    let required = required_acks level (length peers) in
    let (s', count, sent) = send_each acks required 0 peers s in
    if is_nobody peers then (s, true) else (s', leb required count)

abbrev next_version : Option ReplicatedValue → ℕ
next_version none = 1
next_version (some rv) = rv.version + 1

abbrev clock_of : Option ReplicatedValue → VectorClock
clock_of none = []
clock_of (some rv) = rv.clock

-- The new value that `put` stores.
pub written :
    (compute_checksum : String → String → ℕ → String)
    → (local_node_id key content : String) → (now : ℕ) → Option ReplicatedValue
    → ReplicatedValue
unfolding increment
written compute_checksum local_node_id key content now existing = record {
  key = key;
  content = content;
  version = next_version existing;
  timestamp = now;
  origin_node = local_node_id;
  clock = increment local_node_id (clock_of existing);
  checksum = compute_checksum key content (next_version existing);
}

abbrev or_default : ConsistencyLevel → Option ConsistencyLevel → ConsistencyLevel
or_default d none = d
or_default d (some level) = level

unfoldable pub put :
    (compute_checksum : String → String → ℕ → String)
    → (String → Bool)
    → (local_node_id : String) → (active_nodes : List String) → (key content : String)
    → Option ConsistencyLevel
    → (now : ℕ) → Synchronizer
    → Synchronizer × ReplicatedValue
unfolding replicate written
put compute_checksum acks local_node_id active_nodes key content level now s =
    let rv = written compute_checksum local_node_id key content now (lookup key s.store) in
    let s' = record s { store = insert key rv s.store } in
    let (s'', enough) =
      replicate acks local_node_id active_nodes (or_default s.consistency level) s' in
    (s'', rv)

unfoldable pub apply_remote : ReplicatedValue → Synchronizer → Synchronizer × ReplicatedValue
unfolding resolve
apply_remote rv s = elim (lookup rv.key s.store) [
  | none ↦ (record s { store = insert rv.key rv s.store }, rv)
  | some existing ↦
      let winner = resolve s.policy existing rv in
      (record s { store = insert rv.key winner s.store }, winner)
]
