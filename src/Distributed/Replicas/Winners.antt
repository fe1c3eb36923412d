-- ===== src/Distributed/Replicas/Winners.antt =====
-- Which value wins a conflict, and how many peers have a value that was written.
use quantum_database.Prelude.{
  ℕ, ◌+◌, ◌*◌, ◌≤◌, ◌<◌, ◌≡◌, ◌⊎◌, refl, ltb, max, Bool-cases, inl, inr, arith, ◌==◌, nat_key,
}
use quantum_database.Distributed.Replicas.{ReplicatedValue, later, lww, required_acks, quorum_level}

module _ (local remote : ReplicatedValue) where
  -- The last writer wins: the winner is one of the two values, with the greater time.
  pub lww-latest :
      ((lww local remote ≡ local) ⊎ (lww local remote ≡ remote))
      × ((lww local remote).timestamp ≡ max local.timestamp remote.timestamp)
  unfolding lww
  lww-latest = elim (Bool-cases (ltb local.timestamp remote.timestamp)) [
    | inl b ↦
        let le : local.timestamp ≤ remote.timestamp = ground arith in rw b (inr refl, omega arith)
    | inr b ↦
        let le : remote.timestamp ≤ local.timestamp = ground arith in
        elim (Bool-cases (remote.timestamp == local.timestamp)) [
          | inl e ↦
              let same = (nat_key.same_iff remote.timestamp local.timestamp).0 e in
              elim (Bool-cases (later remote.origin_node local.origin_node)) [
                | inl g ↦ rw (b, e, g) (inr refl, omega (arith, same))
                | inr g ↦ rw (b, e, g) (inl refl, omega (arith, same))
              ]
          | inr e ↦ rw (b, e) (inl refl, omega arith)
        ]
  ]

-- A quorum of acknowledgements makes, with the writer itself, a majority of the writer and its peers.
pub required_acks-majority :
    (peer_count : ℕ) → peer_count + 1 < 2 * (required_acks quorum_level peer_count + 1)
unfolding required_acks
required_acks-majority peer_count = omega arith
