-- ===== src/Transactions/Manager/Waiting.antt =====
-- `acquire_lock`: it ends, it holds what it says, and it never aborts its caller.
use quantum_database.Prelude.{
  ℕ, String, ◌≡◌, refl, subst, Bool, true, false, Option, none, some, List, [], ◌∷◌, arith,
  if◌then◌else◌, any, add, contains, contains-add, lookup, lookup-insert_self, Option-cases, All,
  Bool-cases, inl, inr, ==_refl, string_key, pair_key, leb,
}
use quantum_database.Transactions.Transaction.{Transaction}
use quantum_database.Transactions.Locking.{Lock, can_acquire_lock}
use quantum_database.Transactions.Locking.Cycles.{would_cause_deadlock-never}
use quantum_database.Transactions.Manager
use quantum_database.Transactions.Manager.{
  get_active_transactions, try_lock, try_known, Attempt, granted, unknown, waiting, victim, Round,
  settle, acquire_rounds, acquire_lock, deadline_of,
}
use quantum_database.Transactions.Manager.Locks.{IsSafe}
use quantum_database.Transactions.Manager.Safety.{Reach, here, next, lock, Reach-IsSafe}

abbrev pub Manages : Type 0
Manages = Manager.Manager

-- The transaction is known and holds the lock.
abbrev pub Holds : String → Lock → Manages → Type 0
Holds id l m =
    (tx : Transaction) × (lookup id m.transactions ≡ some tx) × (contains l tx.locks ≡ true)

-- What a round may end with.
abbrev pub Outcome : String → Lock → Manages → Manages × Attempt → Type 0
Outcome id l m (n, granted) = Holds id l n
Outcome id l m (n, unknown) = (n ≡ m) × (lookup id m.transactions ≡ none)
Outcome id l m (n, victim) = ⊥
Outcome id l m (n, waiting) = n ≡ m

-- A round grants the lock, or changes nothing; none ends with the caller as a victim.
pub try_lock-Outcome :
    (id : String) (l : Lock) (now : ℕ) (m : Manages) → Outcome id l m (try_lock id l now m)
unfolding try_lock try_known
try_lock-Outcome id l now m = elim (Option-cases (lookup id m.transactions)) [
  | inl e ↦ rw (e, try_lock) (refl, e)
  | inr (tx, e) ↦
      rw (e, try_lock)
        (elim (Bool-cases (can_acquire_lock (get_active_transactions m) tx l)) [
          | inl free ↦ rw free (
            record tx { locks = add l tx.locks },
            lookup-insert_self id _ m.transactions,
            rw (contains-add l l tx.locks) (rw (==_refl l)),
          )
          | inr taken ↦
              rw (taken, would_cause_deadlock-never)
                (elim m.deadlock_detection_enabled
                  as (λ b. Outcome id l m (if b then (m, waiting) else (m, waiting))) [
                    | true ↦ refl
                    | false ↦ refl
                  ])
        ])
]

abbrev pub Returns : Option (Manages × Bool) → Type 0
Returns r = (n : Manages) × (b : Bool) × (r ≡ some (n, b))

settle-Returns :
    (deadline : ℕ) (r : Round) (again : Manages → Option (Manages × Bool)) (a : Manages × Attempt)
    → (leb deadline r.now ≡ false → (m : Manages) → Returns (again m))
    → Returns (settle deadline r again a)
unfolding settle
settle-Returns deadline r again (m, granted) h = (m, true, refl)
settle-Returns deadline r again (m, unknown) h = (m, false, refl)
settle-Returns deadline r again (m, victim) h = (m, false, refl)
settle-Returns deadline r again (m, waiting) h = elim (Bool-cases (leb deadline r.now)) [
  | inl b ↦ (m, false, rw b)
  | inr b ↦ rw b (h b (r.others m))
]

settle-Holds :
    (id : String) (l : Lock) (deadline : ℕ) (r : Round) (again : Manages → Option (Manages × Bool))
    (m : Manages) (a : Manages × Attempt) (n : Manages)
    → Outcome id l m a
    → ((k : Manages) → again k ≡ some (n, true) → Holds id l n)
    → settle deadline r again a ≡ some (n, true)
    → Holds id l n
unfolding settle
settle-Holds id l deadline r again m (k, granted) n o h e =
    let same : k ≡ n = ground arith in subst (Holds id l) same o
settle-Holds id l deadline r again m (k, unknown) n o h e = absurd (ground arith)
settle-Holds id l deadline r again m (k, victim) n o h e = absurd o
settle-Holds id l deadline r again m (k, waiting) n o h e = elim (Bool-cases (leb deadline r.now)) [
  | inl b ↦ absurd (ground arith)
  | inr b ↦ h (r.others k) (ground arith)
]

Reach-trans : {m n k : Manages} → Reach m n → Reach n k → Reach m k
Reach-trans r here = r
Reach-trans r (next q s) = next (Reach-trans r q) s

settle-Reach :
    (deadline : ℕ) (r : Round) (again : Manages → Option (Manages × Bool)) (m n : Manages)
    (b : Bool) (a : Manages × Attempt)
    → Reach m a.0
    → ((k : Manages) → Reach k (r.others k))
    → ((k : Manages) → again k ≡ some (n, b) → Reach k n)
    → settle deadline r again a ≡ some (n, b)
    → Reach m n
unfolding settle
settle-Reach deadline r again m n b (k, granted) s o h e =
    let same : k ≡ n = ground arith in subst (Reach m) same s
settle-Reach deadline r again m n b (k, unknown) s o h e =
    let same : k ≡ n = ground arith in subst (Reach m) same s
settle-Reach deadline r again m n b (k, victim) s o h e =
    let same : k ≡ n = ground arith in subst (Reach m) same s
settle-Reach deadline r again m n b (k, waiting) s o h e = elim (Bool-cases (leb deadline r.now)) [
  | inl t ↦ let same : k ≡ n = ground arith in subst (Reach m) same s
  | inr t ↦ Reach-trans s (Reach-trans (o k) (h (r.others k) (ground arith)))
]

abbrev pub Behaves : Round → Type 0
Behaves r = (k : Manages) → Reach k (r.others k)

module _ (id : String) (l : Lock) (deadline : ℕ) where
  rounds-Returns :
      (rs : List Round) (m : Manages)
      → any (λ (r : Round). leb deadline r.now) rs ≡ true
      → Returns (acquire_rounds id l deadline rs m)
  unfolding acquire_rounds
  rounds-Returns [] m h = absurd (cc)
  rounds-Returns (r ∷ rs) m h =
      settle-Returns deadline r (acquire_rounds id l deadline rs) (try_lock id l r.now m)
        (λ b k. rounds-Returns rs k (rw b at h))

  rounds-Holds :
      (rs : List Round) (m n : Manages)
      → acquire_rounds id l deadline rs m ≡ some (n, true)
      → Holds id l n
  unfolding acquire_rounds
  rounds-Holds [] m n e = absurd (cc)
  rounds-Holds (r ∷ rs) m n e =
      settle-Holds id l deadline r (acquire_rounds id l deadline rs) m (try_lock id l r.now m) n
        (try_lock-Outcome id l r.now m) (λ k h. rounds-Holds rs k n h) e

  rounds-Reach :
      (rs : List Round) (m n : Manages) (b : Bool)
      → All Behaves rs
      → acquire_rounds id l deadline rs m ≡ some (n, b)
      → Reach m n
  unfolding acquire_rounds
  rounds-Reach [] m n b h e = absurd (cc)
  rounds-Reach (r ∷ rs) m n b h e =
      settle-Reach deadline r (acquire_rounds id l deadline rs) m n b (try_lock id l r.now m)
        (next here (lock id l r.now)) h.0 (λ k f. rounds-Reach rs k n b h.1 f) e

module _ (id : String) (l : Lock) (timeout : Option ℕ) (start : ℕ) (rs : List Round)
    (m : Manages) where
  -- A call has returned by the first round that reads its deadline or later, whatever the other
  -- threads do.
  pub acquire_lock-returns :
      any (λ (r : Round). leb (deadline_of timeout start m) r.now) rs ≡ true
      → (n : Manages) × (b : Bool) × (acquire_lock id l timeout start rs m ≡ some (n, b))
  unfolding acquire_lock
  acquire_lock-returns h = rounds-Returns id l (deadline_of timeout start m) rs m h

  -- A call that returns True leaves its transaction with the lock.
  pub acquire_lock-Holds :
      (n : Manages) → acquire_lock id l timeout start rs m ≡ some (n, true) → Holds id l n
  unfolding acquire_lock
  acquire_lock-Holds n e = rounds-Holds id l (deadline_of timeout start m) rs m n e

  -- While the others go by the manager's methods, a whole call keeps the locks apart.
  pub acquire_lock-IsSafe :
      (n : Manages) (b : Bool)
      → IsSafe m
      → All Behaves rs
      → acquire_lock id l timeout start rs m ≡ some (n, b)
      → IsSafe n
  unfolding acquire_lock
  acquire_lock-IsSafe n b safe h e =
      Reach-IsSafe safe (rounds-Reach id l (deadline_of timeout start m) rs m n b h e)
