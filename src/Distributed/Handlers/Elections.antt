-- ===== src/Distributed/Handlers/Elections.antt =====
-- One vote for each term, as long as only vote requests come in, and how a second one comes about.
use quantum_database.Prelude.{
  ℕ, ◌≡◌, refl, ◌∙◌, sym, ap, subst, true, false, ◌&&◌, ◌||◌, not, none, some, List, arith, ltb,
  inl, inr, string_key, nat_key,
}
use quantum_database.Distributed.Raft.{
  Raft, Cluster, AppendEntries, VoteRequest, follower, is_role, become_follower, start_election,
}
use quantum_database.Distributed.Handlers.{
  handle_vote_request, handle_append_entries, accept_entries, adopt_leader, may_vote, is_recent,
}
use quantum_database.Distributed.Handlers.Fields.{
  become_follower-fields, adopt_leader-log, accept_entries-meta,
}
use quantum_database.Distributed.Handlers.Votes.{
  handle_vote_request-Grants, run_votes, run_votes-Promised, decide_vote-granted,
}

-- Of two granted requests of one term, with any vote requests in between, the candidate is the same.
pub one_vote :
    (c : Cluster) (n1 n2 : ℕ) (m1 m2 : VoteRequest) (ms : List (ℕ × VoteRequest)) (r : Raft)
    → m1.term ≡ m2.term
    → (handle_vote_request c n1 m1 r).1.vote_granted ≡ true
    → (handle_vote_request c n2 m2
        (run_votes c ms (handle_vote_request c n1 m1 r).0)).1.vote_granted
      ≡ true
    → m1.candidate_id ≡ m2.candidate_id
one_vote c n1 n2 m1 m2 ms r same g1 g2 =
    let first = handle_vote_request-Grants c n1 m1 r g1 in
    let r2 = run_votes c ms (handle_vote_request c n1 m1 r).0 in
    let kept =
      run_votes-Promised m1.term m1.candidate_id c ms (handle_vote_request c n1 m1 r).0
        (inl (first.1, first.0)) in
    let second = handle_vote_request-Grants c n2 m2 r2 g2 in
    elim kept [
      | inl (t, v) ↦ elim second.3 [
        | inl later ↦ absurd (omega arith)
        | inr (e, may) ↦
            (string_key.same_iff m1.candidate_id m2.candidate_id).0
              (subst (λ o. may_vote o m2.candidate_id ≡ true) v may)
      ]
      | inr past ↦ elim second.3 [
        | inl later ↦ absurd (omega arith)
        | inr (e, may) ↦ absurd (omega arith)
      ]
    ]

-- A node that is not a follower forgets its vote when a leader of its own term writes to it.
append-forgets :
    (c : Cluster) (now : ℕ) (m : AppendEntries) (r : Raft)
    → m.term ≡ r.log.term
    → is_role r.role follower ≡ false
    → ((handle_append_entries c now m r).0.log.voted_for ≡ none)
      × ((handle_append_entries c now m r).0.log.term ≡ m.term)
unfolding handle_append_entries
append-forgets c now m r same busy =
    let r0 = record r { last_heartbeat = now } in
    let f = become_follower-fields m.term (some m.leader_id) now r0 in
    let r1 = become_follower m.term (some m.leader_id) now r0 in
    let a = accept_entries-meta c m (adopt_leader m.leader_id r1) in
    let current : ltb m.term r.log.term ≡ false = ground arith in
    let steps_down : (ltb r.log.term m.term || not (is_role r.role follower)) ≡ true =
      ground arith in
    let e : handle_append_entries c now m r ≡ accept_entries c m (adopt_leader m.leader_id r1) =
      rw (current, steps_down) in
    rw e (
      a.1 ∙ ap (λ l. l.voted_for) (adopt_leader-log m.leader_id r1) ∙ f.1,
      a.0 ∙ ap (λ l. l.term) (adopt_leader-log m.leader_id r1) ∙ f.0,
    )

grants_free :
    (c : Cluster) (now : ℕ) (v : VoteRequest) (r : Raft)
    → r.log.voted_for ≡ none
    → r.log.term ≡ v.term
    → is_recent v r.log ≡ true
    → (handle_vote_request c now v r).1.vote_granted ≡ true
unfolding handle_vote_request
grants_free c now v r free same recent =
    let current : ltb v.term r.log.term ≡ false = ground arith in
    let stays : ltb r.log.term v.term ≡ false = ground arith in
    rw (current, stays)
      (decide_vote-granted c now v r
        ∙ ap (λ o. may_vote o v.candidate_id && is_recent v r.log) free
        ∙ recent)

-- So a candidate that hears from a leader of its own term votes again in this term: it grants any
-- request of the term whose log is as recent, though it has voted for itself.
pub second_vote :
    (c : Cluster) (n1 n2 n3 : ℕ) (m : AppendEntries) (v : VoteRequest) (r : Raft)
    → m.term ≡ (start_election c n1 r).0.log.term
    → v.term ≡ m.term
    → is_recent v (handle_append_entries c n2 m (start_election c n1 r).0).0.log ≡ true
    → ((start_election c n1 r).0.log.voted_for ≡ some c.local_node_id)
      × ((handle_vote_request c n3 v
            (handle_append_entries c n2 m (start_election c n1 r).0).0).1.vote_granted
          ≡ true)
unfolding start_election
second_vote c n1 n2 n3 m v r same own recent =
    let r1 = (start_election c n1 r).0 in
    let r2 = (handle_append_entries c n2 m r1).0 in
    let f = append-forgets c n2 m r1 same refl in
    (refl, grants_free c n3 v r2 f.0 (f.1 ∙ sym own) recent)
