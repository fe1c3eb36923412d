-- ===== src/Distributed/Handlers/Votes.antt =====
-- Votes: when one is granted, one for each term, and how a second one comes about.
use quantum_database.Prelude.{
  ltb→lt, and_parts, ℕ, ◌<◌, String, ◌≡◌, ◌⊎◌, refl, ◌∙◌, subst, sym, ap, true, false, ◌&&◌, none,
  some, List, [], ◌∷◌, arith, if◌then◌else◌, ltb, Bool-cases, inl, inr, if_ind, string_key, nat_key,
}
use quantum_database.Distributed.Log.{PersistentLog}
use quantum_database.Distributed.Raft.{Raft, Cluster, VoteRequest, VoteResponse, become_follower}
use quantum_database.Distributed.Handlers.{handle_vote_request, decide_vote, may_vote, is_recent}
use quantum_database.Distributed.Handlers.Fields.{become_follower-fields}

-- Why a node granted a vote.
abbrev pub Grants : VoteRequest → PersistentLog → PersistentLog → Type 0
Grants m before after =
    (after.voted_for ≡ some m.candidate_id)
    × (after.term ≡ m.term)
    × (is_recent m before ≡ true)
    × ((before.term < m.term)
        ⊎ ((before.term ≡ m.term) × (may_vote before.voted_for m.candidate_id ≡ true)))

module _ (c : Cluster) (now : ℕ) (m : VoteRequest) where
  decide_vote-voted_for :
      (r : Raft)
      → (decide_vote c now m r).0.log.voted_for ≡ (
          if may_vote r.log.voted_for m.candidate_id && is_recent m r.log
          then some m.candidate_id
          else r.log.voted_for)
  unfolding decide_vote
  decide_vote-voted_for r =
      elim (Bool-cases (may_vote r.log.voted_for m.candidate_id && is_recent m r.log)) [
        | inl b ↦ rw b
        | inr b ↦ rw b
      ]

  pub decide_vote-granted :
      (r : Raft)
      → (decide_vote c now m r).1.vote_granted
        ≡ (may_vote r.log.voted_for m.candidate_id && is_recent m r.log)
  unfolding decide_vote
  decide_vote-granted r =
      elim (Bool-cases (may_vote r.log.voted_for m.candidate_id && is_recent m r.log)) [
        | inl b ↦ rw b
        | inr b ↦ rw b
      ]

  pub decide_vote-term : (r : Raft) → (decide_vote c now m r).0.log.term ≡ r.log.term
  unfolding decide_vote
  decide_vote-term r =
      elim (Bool-cases (may_vote r.log.voted_for m.candidate_id && is_recent m r.log)) [
        | inl b ↦ rw b
        | inr b ↦ rw b
      ]

  module _ (r : Raft) where
    -- The node as it is when it decides.
    abbrev pub ready : Raft
    ready = if ltb r.log.term m.term then become_follower m.term none now r else r

    pub ready-fields :
        ltb m.term r.log.term ≡ false
        → (ready.log.term ≡ m.term)
          × (ready.log.entries ≡ r.log.entries)
          × (((r.log.term < m.term) × (ready.log.voted_for ≡ none))
              ⊎ ((r.log.term ≡ m.term) × (ready.log.voted_for ≡ r.log.voted_for)))
    ready-fields h =
        let f = become_follower-fields m.term none now r in
        elim (Bool-cases (ltb r.log.term m.term)) [
          | inl b ↦ rw b (f.0, f.2, inl (ltb→lt _ _ b, f.1))
          | inr b ↦
              let same : r.log.term ≡ m.term = ground arith in rw b (same, refl, inr (same, refl))
        ]

    pub handle-late :
        ltb m.term r.log.term ≡ true
        → ((handle_vote_request c now m r).0 ≡ r)
          × ((handle_vote_request c now m r).1.vote_granted ≡ false)
    unfolding handle_vote_request
    handle-late b = (rw b, rw b)

    pub handle-ready :
        ltb m.term r.log.term ≡ false → handle_vote_request c now m r ≡ decide_vote c now m ready
    unfolding handle_vote_request
    handle-ready b = rw b

    is_recent-ready : ltb m.term r.log.term ≡ false → is_recent m ready.log ≡ is_recent m r.log
    is_recent-ready b = rw ((ready-fields b).1)

    -- A vote is granted only to a candidate whose log is as recent, in a later term or, in the node's
    -- own term, if it has not voted for another; term and vote are stored.
    pub handle_vote_request-Grants :
        (handle_vote_request c now m r).1.vote_granted ≡ true
        → Grants m r.log (handle_vote_request c now m r).0.log
    handle_vote_request-Grants h = elim (Bool-cases (ltb m.term r.log.term)) [
      | inl b ↦ absurd (cc ((handle-late b).1, h))
      | inr b ↦
          let f = ready-fields b in
          let granted =
            sym (decide_vote-granted ready)
            ∙ ap (λ p. p.1.vote_granted) (sym (handle-ready b))
            ∙ h in
          let parts = and_parts _ _ granted in
          rw (handle-ready b) (
            decide_vote-voted_for ready ∙ rw granted,
            decide_vote-term ready ∙ f.0,
            sym (is_recent-ready b) ∙ parts.1,
            elim f.2 [
              | inl (later, free) ↦ inl later
              | inr (same, v) ↦ inr (same, rw (← v) parts.0)
            ],
          )
    ]

-- The node has voted for the candidate in the term, or its term is over.
abbrev pub Promised : ℕ → String → PersistentLog → Type 0
Promised t cand l = ((l.term ≡ t) × (l.voted_for ≡ some cand)) ⊎ (t < l.term)

-- A list of vote requests, each with the time at which it is handled.
unfoldable pub run_votes : Cluster → List (ℕ × VoteRequest) → Raft → Raft
run_votes c [] r = r
run_votes c ((now, m) ∷ ms) r = run_votes c ms (handle_vote_request c now m r).0

module _ (t : ℕ) (cand : String) (c : Cluster) where
  decide-Promised :
      (now : ℕ) (m : VoteRequest) (r : Raft)
      → Promised t cand r.log
      → Promised t cand (decide_vote c now m r).0.log
  unfolding decide_vote
  decide-Promised now m r (inr past) =
      if_ind {A = Raft × VoteResponse} (λ p. Promised t cand p.0.log)
        (may_vote r.log.voted_for m.candidate_id && is_recent m r.log) (λ _. inr past)
        (λ _. inr past)
  decide-Promised now m r (inl (same, v)) =
      elim (Bool-cases (may_vote r.log.voted_for m.candidate_id && is_recent m r.log)) [
        | inl b ↦
            let own : may_vote (some cand) m.candidate_id ≡ true =
              subst (λ o. may_vote o m.candidate_id ≡ true) v (and_parts _ _ b).0 in
            rw b (inl (same, ap some (sym ((string_key.same_iff cand m.candidate_id).0 own))))
        | inr b ↦ rw b (inl (same, v))
      ]

  request-Promised :
      (now : ℕ) (m : VoteRequest) (r : Raft)
      → Promised t cand r.log
      → Promised t cand (handle_vote_request c now m r).0.log
  request-Promised now m r h = elim (Bool-cases (ltb m.term r.log.term)) [
    | inl b ↦ rw ((handle-late c now m r b).0) h
    | inr b ↦
        let f = ready-fields c now m r b in
        rw (handle-ready c now m r b) (
          decide-Promised now m (ready c now m r) (elim f.2 [
            | inl (later, free) ↦
                inr (elim h [ inl (same, v) ↦ omega arith | inr past ↦ omega arith ])
            | inr (same, v) ↦ elim h [
              | inl (own, w) ↦ inl (f.0 ∙ sym same ∙ own, v ∙ w)
              | inr past ↦ inr (omega arith)
            ]
          ]))
  ]

  pub run_votes-Promised :
      (ms : List (ℕ × VoteRequest)) (r : Raft)
      → Promised t cand r.log
      → Promised t cand (run_votes c ms r).log
  unfolding run_votes
  run_votes-Promised [] r h = h
  run_votes-Promised ((now, m) ∷ ms) r h =
      run_votes-Promised ms (handle_vote_request c now m r).0 (request-Promised now m r h)
