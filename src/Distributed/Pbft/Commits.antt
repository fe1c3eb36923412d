-- ===== src/Distributed/Pbft/Commits.antt =====
-- What is committed.
use quantum_database.Prelude.{
  ℕ, suc, ◌≤◌, ◌≡◌, refl, String, true, false, not, some, List, [], ◌∷◌, leb, leb→le, arith, length,
  All, Bool-cases, inl, inr, Dict, lookup, lookup-insert, lookup-insert_self, and_parts, string_key,
}
use quantum_database.Distributed.Log.{get_elem?}
use quantum_database.Distributed.Pbft.{
  Peers, Pbft, Slot, quorum, commit_each, can_commit, committed, check_committed, is_known,
}

known-committed :
    (rid r : String) (s : Slot) (p : Pbft)
    → is_known (lookup r p.committed_requests) ≡ true
    → is_known (lookup r (committed rid s p).committed_requests) ≡ true
known-committed rid r s p h = ground (arith, lookup-insert rid r s.sequence p.committed_requests)

known-commit_each :
    (c : Peers) (r : String) (d : Dict String Slot) (p : Pbft)
    → is_known (lookup r p.committed_requests) ≡ true
    → is_known (lookup r (commit_each c d p).0.committed_requests) ≡ true
unfolding commit_each
known-commit_each c r [] p h = h
known-commit_each c r ((rid, s) ∷ d) p h = elim (Bool-cases (can_commit c rid s p)) [
  | inl b ↦ rw b (known-commit_each c r d (committed rid s p) (known-committed rid r s p h))
  | inr b ↦ rw b (known-commit_each c r d p h)
]

-- The request is among the prepared ones with a quorum of commits; it is committed in the second
-- node state, and not in the first.
abbrev pub BecameCommitted : Peers → Dict String Slot → Pbft → Pbft → String → Type 0
BecameCommitted c d before after rid =
    (i : ℕ) × (s : Slot) × (get_elem? d i ≡ some (rid, s))
    × (quorum c ≤ length s.commits)
    × (is_known (lookup rid before.committed_requests) ≡ false)
    × (is_known (lookup rid after.committed_requests) ≡ true)

later_round :
    (c : Peers) (rid : String) (s : Slot) (d : Dict String Slot) (p before after : Pbft)
    (rids : List String)
    → ((r : String)
        → is_known (lookup r p.committed_requests) ≡ true
        → is_known (lookup r before.committed_requests) ≡ true)
    → All (BecameCommitted c d before after) rids
    → All (BecameCommitted c ((rid, s) ∷ d) p after) rids
later_round c rid s d p before after [] grows h = tt
later_round c rid s d p before after (r ∷ rids) grows h =
    let (i, t, found, enough, fresh, now) = h.0 in
    let known = grows r in
    (
      (
        suc i,
        t,
        found,
        enough,
        elim (Bool-cases (is_known (lookup r p.committed_requests))) [
          | inl old ↦ absurd (cc (known old, fresh))
          | inr new ↦ new
        ],
        now,
      ),
      later_round c rid s d p before after rids grows h.1,
    )

commit_each-BecameCommitted :
    (c : Peers) (d : Dict String Slot) (p : Pbft)
    → All (BecameCommitted c d p (commit_each c d p).0) (commit_each c d p).1
unfolding commit_each
commit_each-BecameCommitted c [] p = tt
commit_each-BecameCommitted c ((rid, s) ∷ d) p = elim (Bool-cases (can_commit c rid s p)) [
  | inl b ↦
      let p1 = committed rid s p in
      let parts =
        and_parts (not (is_known (lookup rid p.committed_requests)))
          (leb (quorum c) (length s.commits)) b in
      let now : is_known (lookup rid p1.committed_requests) ≡ true =
        ground (arith, lookup-insert_self rid s.sequence p.committed_requests) in
      let fresh : is_known (lookup rid p.committed_requests) ≡ false = ground (arith, parts.0) in
      rw b (
        (
          0,
          s,
          refl,
          leb→le (quorum c) (length s.commits) parts.1,
          fresh,
          known-commit_each c rid d p1 now,
        ),
        later_round c rid s d p p1 (commit_each c d p1).0 (commit_each c d p1).1
            (λ r h. known-committed rid r s p h) (commit_each-BecameCommitted c d p1),
      )
  | inr b ↦ rw b (
      later_round c rid s d p p (commit_each c d p).0 (commit_each c d p).1 (λ r h. h)
        (commit_each-BecameCommitted c d p))
]

-- Every request that check_committed returns has a prepared entry with a quorum of commits, was not
-- committed before and is committed after.
pub check_committed-BecameCommitted :
    (c : Peers) (p : Pbft)
    → All (BecameCommitted c p.prepared_requests p (check_committed c p).0) (check_committed c p).1
unfolding check_committed
check_committed-BecameCommitted c p = commit_each-BecameCommitted c p.prepared_requests p
