-- ===== src/Distributed/Handlers/Progress.antt =====
-- Commitment and application of entries.
use quantum_database.Prelude.{
  ℕ, zero, suc, ◌+◌, ◌-◌, ◌*◌, ◌<◌, ◌≡◌, ◌⊎◌, refl, ◌∙◌, true, ◌&&◌, none, some, List, [], ◌∷◌,
  ◌++◌, arith, if◌then◌else◌, ltb, Bool-cases, Option-cases, inl, inr, length, ◌==◌, nat_key,
  values, filter, max, and_parts, ltb→lt, take,
}
use quantum_database.Distributed.Log
use quantum_database.Distributed.Log.{
  LogEntry, PersistentLog, get_elem?, last_index, drop, EntryType,
}
use quantum_database.Distributed.Raft.{Raft, Cluster, is_role, leader}
use quantum_database.Distributed.Handlers.{
  count_matching, is_committable, highest_committable, update_commit_index, apply_next,
  apply_rounds, apply_committed, is_command,
}

-- A majority of the cluster, the leader among it, has the entry at the position, which is of the term.
abbrev pub HasMajority : Cluster → ℕ → Raft → Type 0
HasMajority c n r =
    (e : LogEntry) × (Log.get n r.log ≡ some e)
    × (e.term ≡ r.log.term)
    × (length c.all_nodes < 2 * (1 + count_matching n (values r.match_index)))

is_committable-HasMajority :
    (c : Cluster) (n : ℕ) (r : Raft) → is_committable c n r ≡ true → HasMajority c n r
is_committable-HasMajority c n r h = elim (Option-cases (Log.get n r.log)) [
  | inl e ↦ absurd (ground (arith, e))
  | inr (x, e) ↦
      let majority = ltb (length c.all_nodes) (2 * (1 + count_matching n (values r.match_index))) in
      let both : (x.term == r.log.term && majority) ≡ true = ground (arith, e) in
      let parts = and_parts _ _ both in
      (x, e, (nat_key.same_iff x.term r.log.term).0 parts.0, ltb→lt _ _ parts.1)
]

highest-cases :
    (c : Cluster) (k : ℕ) (r : Raft)
    → (highest_committable c k r ≡ r.commit_index)
      ⊎ ((r.commit_index < highest_committable c k r) × HasMajority c (highest_committable c k r) r)
unfolding highest_committable
highest-cases c zero r = inl refl
highest-cases c (suc k) r = elim (Bool-cases (is_committable c (r.commit_index + suc k) r)) [
  | inl b ↦ rw b (inr (omega arith, is_committable-HasMajority c (r.commit_index + suc k) r b))
  | inr b ↦ rw b (highest-cases c k r)
]

-- The leader's commit index stays, or moves on to an entry of its own term that a majority has.
pub update_commit_index-cases :
    (c : Cluster) (r : Raft)
    → ((update_commit_index c r).commit_index ≡ r.commit_index)
      ⊎ ((r.commit_index < (update_commit_index c r).commit_index)
          × HasMajority c (update_commit_index c r).commit_index r)
unfolding update_commit_index
update_commit_index-cases c r = elim (Bool-cases (is_role r.role leader)) [
  | inl b ↦ rw b (highest-cases c (last_index r.log - r.commit_index) r)
  | inr b ↦ rw b (inl refl)
]

-- The commands among the entries, in order.
abbrev pub commands : List LogEntry → List LogEntry
commands = filter (λ e. is_command e.entry_type)

commands-append : (es fs : List LogEntry) → commands (es ++ fs) ≡ commands es ++ commands fs
commands-append [] fs = refl
commands-append (e ∷ es) fs = ground (arith, commands-append es fs)

take-drop :
    (k n : ℕ) (es : List LogEntry)
    → take (suc k) (drop n es) ≡ take 1 (drop n es) ++ take k (drop (suc n) es)
take-drop zero zero [] = refl
take-drop (suc k) zero [] = refl
take-drop zero zero (e ∷ es) = refl
take-drop (suc k) zero (e ∷ es) = refl
take-drop zero (suc n) [] = refl
take-drop (suc k) (suc n) [] = refl
take-drop k (suc n) (e ∷ es) = take-drop k n es

next_command : (n : ℕ) (es : List LogEntry) → List LogEntry
next_command n es = commands (take 1 (drop n es))

next_command_lem :
    (n : ℕ) (es : List LogEntry)
    → next_command n es ≡ (elim (get_elem? es n) [
      | none ↦ []
      | some e ↦ if is_command e.entry_type then e ∷ [] else []
    ])
unfolding next_command
next_command_lem zero [] = refl
next_command_lem (suc n) [] = refl
next_command_lem zero (e ∷ es) = refl
next_command_lem (suc n) (e ∷ es) = next_command_lem n es

apply_next_lem :
    (r : Raft)
    → ((apply_next r).0.last_applied ≡ suc r.last_applied)
      × ((apply_next r).0.log ≡ r.log)
      × ((apply_next r).0.commit_index ≡ r.commit_index)
      × ((apply_next r).1 ≡ next_command r.last_applied r.log.entries)
apply_next_lem r = elim (Option-cases (get_elem? r.log.entries r.last_applied)) [
  | inl absent ↦
      rw (next_command_lem r.last_applied r.log.entries, absent, apply_next)
        (refl, refl, refl, refl)
  | inr (x, f) ↦ elim (Bool-cases (is_command x.entry_type)) [
    | inl b ↦
        rw (next_command_lem r.last_applied r.log.entries, f, apply_next, b)
          (refl, refl, refl, refl)
    | inr b ↦
        rw (next_command_lem r.last_applied r.log.entries, f, apply_next, b)
          (refl, refl, refl, refl)
  ]
]

apply_rounds_lem :
    (k : ℕ) (r : Raft)
    → ((apply_rounds k r).0.last_applied ≡ r.last_applied + k)
      × ((apply_rounds k r).1 ≡ commands (take k (drop r.last_applied r.log.entries)))
unfolding apply_rounds next_command
apply_rounds_lem zero r = (omega arith, refl)
apply_rounds_lem (suc k) r =
    let a = apply_next_lem r in
    let ih = apply_rounds_lem k (apply_next r).0 in
    (
      omega (arith, ih.0, a.0),
      rw (
        take-drop k r.last_applied r.log.entries,
        commands-append (take 1 (drop r.last_applied r.log.entries))
            (take k (drop (suc r.last_applied) r.log.entries)),
        a.3,
        ih.1,
        a.1,
        a.0,
      ),
    )

-- A call applies exactly the commands between the last applied position and the commit index, in order,
-- and moves the last applied position to the commit index, if that is ahead.
pub apply_committed_lem :
    (r : Raft)
    → ((apply_committed r).0.last_applied ≡ max r.last_applied r.commit_index)
      × ((apply_committed r).1
          ≡ commands (take (r.commit_index - r.last_applied) (drop r.last_applied r.log.entries)))
unfolding apply_committed
apply_committed_lem r =
    let h = apply_rounds_lem (r.commit_index - r.last_applied) r in (omega (arith, h.0), h.1)

apply_rounds-log : (k : ℕ) (r : Raft) → (apply_rounds k r).0.log ≡ r.log
unfolding apply_rounds
apply_rounds-log zero r = refl
apply_rounds-log (suc k) r = apply_rounds-log k (apply_next r).0 ∙ (apply_next_lem r).1

pub apply_committed-log : (r : Raft) → (apply_committed r).0.log ≡ r.log
unfolding apply_committed
apply_committed-log r = apply_rounds-log (r.commit_index - r.last_applied) r
