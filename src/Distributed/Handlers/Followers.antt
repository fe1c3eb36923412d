-- ===== src/Distributed/Handlers/Followers.antt =====
-- What a node's log holds after it answered a leader.
use quantum_database.Prelude.{
  ℕ, zero, suc, ◌+◌, ◌<◌, ◌≤◌, ◌≡◌, refl, ◌∙◌, sym, ap, true, false, not, ◌||◌, some, List, arith,
  ltb, Bool-cases, Option-cases, inl, inr, length, All, nat_key,
}
use quantum_database.Distributed.Log.{LogEntry, PersistentLog, get_elem?}
use quantum_database.Distributed.Raft.{
  Raft, Cluster, AppendEntries, become_follower, is_role, follower,
}
use quantum_database.Distributed.Handlers.{
  store_entries, accept_entries, adopt_leader, handle_append_entries, mismatch,
}
use quantum_database.Distributed.Handlers.Fields.{become_follower-fields, adopt_leader-log}
use quantum_database.Distributed.Handlers.Replication.{
  IsIndexed, Holds, get_elem?-lt, store_entries-below, store_entries-length, store_entries-Holds,
}

-- A message whose previous position fits stands on a log that reaches the position.
mismatch-reach : (n t : ℕ) (l : PersistentLog) → mismatch n t l ≡ false → n ≤ length l.entries
mismatch-reach zero t l h = omega arith
mismatch-reach (suc n) t l h = elim (Option-cases (get_elem? l.entries n)) [
  | inl e ↦ absurd (ground (arith, e))
  | inr (x, e) ↦ get_elem?-lt n l.entries e
]

-- A message of an old term is refused; any other is accepted over the same entries.
handle-accepts :
    (c : Cluster) (now : ℕ) (m : AppendEntries) (r : Raft)
    → ltb m.term r.log.term ≡ false
    → (r' : Raft) × (handle_append_entries c now m r ≡ accept_entries c m r')
      × (r'.log.entries ≡ r.log.entries)
unfolding handle_append_entries
handle-accepts c now m r current =
    let r0 = record r { last_heartbeat = now } in
    let r1 = become_follower m.term (some m.leader_id) now r0 in
    elim (Bool-cases (ltb r.log.term m.term || not (is_role r.role follower))) [
      | inl b ↦ (
        adopt_leader m.leader_id r1,
        rw (current, b),
        ap (λ l. l.entries) (adopt_leader-log m.leader_id r1)
            ∙ (become_follower-fields m.term (some m.leader_id) now r0).2,
      )
      | inr b ↦ (
        adopt_leader m.leader_id r0,
        rw (current, b),
        ap (λ l. l.entries) (adopt_leader-log m.leader_id r0),
      )
    ]

handle-refuses :
    (c : Cluster) (now : ℕ) (m : AppendEntries) (r : Raft)
    → ltb m.term r.log.term ≡ true
    → (handle_append_entries c now m r).1.success ≡ false
unfolding handle_append_entries
handle-refuses c now m r old = rw old

-- What a successful answer promises of the log, and of the position it names.
abbrev pub Replicated : AppendEntries → List LogEntry → ℕ → Type 0
Replicated m after matched =
    All (Holds after) m.entries
    × (matched ≡ length after)
    × (m.prev_log_index + length m.entries ≤ matched)

module _ (c : Cluster) (m : AppendEntries) (indexed : IsIndexed m.prev_log_index m.entries) where
  accept-Replicated :
      (r : Raft)
      → (accept_entries c m r).1.success ≡ true
      → Replicated m (accept_entries c m r).0.log.entries (accept_entries c m r).1.match_index
        × (m.prev_log_index ≤ length r.log.entries)
        × ((accept_entries c m r).0.log ≡ store_entries m.entries r.log)
  unfolding accept_entries
  accept-Replicated r h = elim (Bool-cases (mismatch m.prev_log_index m.prev_log_term r.log)) [
    | inl b ↦ absurd (ground (arith, b))
    | inr b ↦
        let reach = mismatch-reach m.prev_log_index m.prev_log_term r.log b in
        rw b (
          (
            store_entries-Holds m.prev_log_index m.entries r.log indexed reach,
            refl,
            store_entries-length m.prev_log_index m.entries r.log indexed reach,
          ),
          reach,
          refl,
        )
  ]

  module _ (now : ℕ) (r : Raft) (ok : (handle_append_entries c now m r).1.success ≡ true) where
    success-accepts :
        (r' : Raft) × (handle_append_entries c now m r ≡ accept_entries c m r')
        × (r'.log.entries ≡ r.log.entries)
        × ((accept_entries c m r').1.success ≡ true)
    success-accepts = elim (Bool-cases (ltb m.term r.log.term)) [
      | inl old ↦ absurd (cc (handle-refuses c now m r old, ok))
      | inr current ↦
          let (r', e, same) = handle-accepts c now m r current in
          (r', e, same, ap (λ p. p.1.success) (sym e) ∙ ok)
    ]

    -- After a successful answer the log has, at the position of each entry of the message, an entry of
    -- the same term, the answer names the end of the log, and that is past the message's entries.
    pub handle_append_entries-Replicated :
        Replicated m
          (handle_append_entries c now m r).0.log.entries
          (handle_append_entries c now m r).1.match_index
    handle_append_entries-Replicated =
        let (r', e, same, done) = success-accepts in rw e ((accept-Replicated r' done).0)

    -- And the entries up to the message's previous position are those from before.
    pub handle_append_entries-below :
        (j : ℕ)
        → j < m.prev_log_index
        → get_elem? (handle_append_entries c now m r).0.log.entries j ≡ get_elem? r.log.entries j
    handle_append_entries-below j lt =
        let (r', e, same, done) = success-accepts in
        let a = accept-Replicated r' done in
        rw e (
          ap (λ (l : PersistentLog). get_elem? l.entries j) a.2
          ∙ store_entries-below m.prev_log_index m.entries r'.log indexed a.1 j lt
          ∙ ap (λ es. get_elem? es j) same)
