-- ===== src/Distributed/Handlers/Fields.antt =====
-- Which parts of a node its steps leave alone.
use quantum_database.Prelude.{
  ℕ, String, ◌≡◌, refl, ◌∙◌, Option, none, List, [], ◌∷◌, arith, Bool-cases, inl, inr, string_key,
}
use quantum_database.Distributed.Log.{LogEntry, PersistentLog}
use quantum_database.Distributed.Raft.{Raft, Cluster, AppendEntries, follower, become_follower}
use quantum_database.Distributed.Handlers.{
  store_entry, store_entries, accept_entries, adopt_leader, mismatch,
}

-- The entries of a message do not touch the term and the vote.
pub store_entries-meta :
    (es : List LogEntry) (l : PersistentLog)
    → ((store_entries es l).term ≡ l.term) × ((store_entries es l).voted_for ≡ l.voted_for)
unfolding store_entries
store_entries-meta [] l = (refl, refl)
store_entries-meta (e ∷ es) l =
    let h = store_entries-meta es (store_entry e l) in (h.0 ∙ ground arith, h.1 ∙ ground arith)

module _ (term : ℕ) (leader_id : Option String) (now : ℕ) (r : Raft) where
  pub become_follower-fields :
      ((become_follower term leader_id now r).log.term ≡ term)
      × ((become_follower term leader_id now r).log.voted_for ≡ none)
      × ((become_follower term leader_id now r).log.entries ≡ r.log.entries)
      × ((become_follower term leader_id now r).commit_index ≡ r.commit_index)
      × ((become_follower term leader_id now r).role ≡ follower)
  unfolding become_follower
  become_follower-fields = (ground arith, ground arith, ground arith, ground arith, ground arith)

pub adopt_leader-log : (id : String) (r : Raft) → (adopt_leader id r).log ≡ r.log
adopt_leader-log id r = ground arith

pub adopt_leader-commit :
    (id : String) (r : Raft) → (adopt_leader id r).commit_index ≡ r.commit_index
adopt_leader-commit id r = ground arith

pub accept_entries-meta :
    (c : Cluster) (m : AppendEntries) (r : Raft)
    → ((accept_entries c m r).0.log.term ≡ r.log.term)
      × ((accept_entries c m r).0.log.voted_for ≡ r.log.voted_for)
unfolding accept_entries
accept_entries-meta c m r = elim (Bool-cases (mismatch m.prev_log_index m.prev_log_term r.log)) [
  | inl b ↦ rw b (refl, refl)
  | inr b ↦ rw b (store_entries-meta m.entries r.log)
]
