-- ===== src/Distributed/Handlers/Snapshots.antt =====
-- Snapshots, from one node to another.
use quantum_database.Prelude.{◌<◌, ◌≤◌, String, ◌≡◌, refl, true, false, arith, leb, Dict}
use quantum_database.Distributed.Raft.{Raft}
use quantum_database.Distributed.Handlers.{create_snapshot, handle_snapshot}

-- A node that installs a newer snapshot has the whole log of its maker, the maker's term and vote
-- included, its state and its applied position; its own commit index does not go back.
pub handle_snapshot-create_snapshot :
    (state : Dict String String) (maker node : Raft)
    → node.last_snapshot_index < maker.last_applied
    → let (after, installed) = handle_snapshot (create_snapshot state maker).1 node in
      (installed ≡ true)
      × (after.log ≡ maker.log)
      × (after.state_machine_snapshot ≡ state)
      × (after.last_applied ≡ maker.last_applied)
      × (maker.last_applied ≤ after.commit_index)
      × (node.commit_index ≤ after.commit_index)
unfolding handle_snapshot create_snapshot
handle_snapshot-create_snapshot state maker node newer =
    let later : leb maker.last_applied node.last_snapshot_index ≡ false = ground arith in
    rw later (refl, refl, refl, refl, omega arith, omega arith)
