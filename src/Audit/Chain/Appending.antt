-- ===== src/Audit/Chain/Appending.antt =====
-- qndb/security/audit/hash_chain.py: the log after `append`.
use quantum_database.Prelude.{
  ℕ, zero, suc, ◌<◌, ◌≡◌, refl, ap, ◌∙◌, true, false, Option, some, List, [], ◌∷◌, ◌++◌, Key,
  length, arith, pos, ℤ,
}
use quantum_database.Audit.Event.{AuditEvent}
use quantum_database.Audit.Chain.{
  Payload, HashChainEntry, HashChainAuditLog, returned, compute_hash, head_hash, extend, append,
  check_from, verify, get_entry, get_entries, export_chain, nth, empty_log,
}
use quantum_database.Audit.Chain.Tampering.{final, final-append, head_hash-final}

module _ {V H : Type 0} where
  nth-end :
      (es : List (HashChainEntry V H)) (e : HashChainEntry V H)
      → nth (length es) (es ++ e ∷ []) ≡ some e
  nth-end [] e = refl
  nth-end (f ∷ es) e = nth-end es e

  nth-before :
      (n : ℕ) (es : List (HashChainEntry V H)) (e : HashChainEntry V H)
      → n < length es
      → nth n (es ++ e ∷ []) ≡ nth n es
  nth-before n [] e h = absurd (omega arith)
  nth-before zero (f ∷ es) e h = refl
  nth-before (suc n) (f ∷ es) e h = nth-before n es e (omega arith)

module _ {V J H : Type 0} ⦃k : Key H⦄ (genesis : H) (json : V → J) (hash : Payload J H → H) where
  check_from-append :
      (prev : H) (es : List (HashChainEntry V H)) (e : HashChainEntry V H)
      → check_from genesis json hash prev es ≡ returned true
      → e.prev_hash ≡ final prev es
      → compute_hash json hash e ≡ e.entry_hash
      → check_from genesis json hash prev (es ++ e ∷ []) ≡ returned true
  unfolding check_from
  check_from-append prev [] e h p q =
      ground
        (arith, k.same_iff e.prev_hash prev, k.same_iff (compute_hash json hash e) e.entry_hash)
  check_from-append prev (d ∷ es) e h p q = ground (arith, check_from-append d.entry_hash es e)

  -- What a call of `append` did to a log
  pub record Recorded (event : AuditEvent V) (l : HashChainAuditLog V H) : Type 0 where
    pub entry : HashChainEntry V H
    pub answer : (append genesis json hash event l).0 ≡ returned entry
    pub is_of_event : entry.event ≡ event
    pub verifies : (verify genesis json hash (append genesis json hash event l).1).0 ≡ returned true
    pub found :
        (get_entry (pos entry.sequence) (append genesis json hash event l).1).0
        ≡ returned (some entry)
    pub earlier :
        (n : ℕ)
        → n < length l.chain
        → (get_entry (pos n) (append genesis json hash event l).1).0 ≡ (get_entry (pos n) l).0
    pub is_head : head_hash genesis (append genesis json hash event l).1.chain ≡ entry.entry_hash

  -- The lock is free and the chain intact.
  pub record IsIntact (l : HashChainAuditLog V H) : Type 0 where
    pub is_free : l.is_held ≡ false
    pub is_checked : check_from genesis json hash genesis l.chain ≡ returned true

  verify-IsIntact :
      (l : HashChainAuditLog V H) → IsIntact l → (verify genesis json hash l).0 ≡ returned true
  unfolding verify
  verify-IsIntact l h = simp (h.is_free, h.is_checked)

  append-free :
      (event : AuditEvent V) (l : HashChainAuditLog V H)
      → l.is_held ≡ false
      → append genesis json hash event l ≡ (
        returned (extend genesis json hash event l.chain),
        record { chain = l.chain ++ extend genesis json hash event l.chain ∷ []; is_held = false },
      )
  unfolding append
  append-free event l h = simp h

  append-IsIntact :
      (event : AuditEvent V) (l : HashChainAuditLog V H)
      → IsIntact l
      → IsIntact (append genesis json hash event l).1
  append-IsIntact event l h = rw (append-free event l h.is_free) (record {
    is_free = refl;
    is_checked =
        check_from-append genesis l.chain (extend genesis json hash event l.chain) h.is_checked
          (head_hash-final genesis l.chain) refl;
  })

  -- Appending to a log that is free and intact returns an entry of the event, whose hash is the last one;
  -- the log verifies again, the entry is found under its number, and earlier entries are as they were.
  pub append-Recorded :
      (event : AuditEvent V) (l : HashChainAuditLog V H) → IsIntact l → Recorded event l
  unfolding get_entry
  append-Recorded event l h = record {
    entry = extend genesis json hash event l.chain;
    answer = ap (λ r. r.0) (append-free event l h.is_free);
    is_of_event = refl;
    verifies = verify-IsIntact _ (append-IsIntact event l h);
    found = rw (append-free event l h.is_free) (ap (λ e. returned e) (nth-end l.chain _));
    earlier = λ n lt.
        rw (append-free event l h.is_free, h.is_free)
          (ap (λ e. returned e) (nth-before n l.chain _ lt));
    is_head =
        let entry = extend genesis json hash event l.chain in
        ap (λ r. head_hash genesis r.1.chain) (append-free event l h.is_free)
        ∙ head_hash-final genesis (l.chain ++ entry ∷ [])
        ∙ final-append genesis l.chain entry;
  }

  pub data Call : Type 0 where
    appends : AuditEvent V → Call
    verifies get_exports : Call
    gets : ℤ → Call
    gets_slice : ℤ → Option ℤ → Call

  abbrev pub after : Call → HashChainAuditLog V H → HashChainAuditLog V H
  after (appends event) l = (append genesis json hash event l).1
  after verifies l = (verify genesis json hash l).1
  after get_exports l = (export_chain l).1
  after (gets z) l = (get_entry z l).1
  after (gets_slice start end) l = (get_entries start end l).1

  abbrev pub after_all : List Call → HashChainAuditLog V H → HashChainAuditLog V H
  after_all [] l = l
  after_all (c ∷ cs) l = after_all cs (after c l)

  after-IsIntact : (c : Call) (l : HashChainAuditLog V H) → IsIntact l → IsIntact (after c l)
  unfolding verify export_chain get_entry get_entries
  after-IsIntact (appends event) l h = append-IsIntact event l h
  after-IsIntact verifies l h = ground (arith, h.is_free, h.is_checked)
  after-IsIntact get_exports l h = ground (arith, h.is_free, h.is_checked)
  after-IsIntact (gets z) l h = ground (arith, h.is_free, h.is_checked)
  after-IsIntact (gets_slice start end) l h = ground (arith, h.is_free, h.is_checked)

  after_all-IsIntact :
      (cs : List Call) (l : HashChainAuditLog V H) → IsIntact l → IsIntact (after_all cs l)
  after_all-IsIntact [] l h = h
  after_all-IsIntact (c ∷ cs) l h = after_all-IsIntact cs (after c l) (after-IsIntact c l h)

  -- Whatever is appended to an empty log and read from it, in any order, `verify` returns True.
  pub verify-after_all :
      (cs : List Call) → (verify genesis json hash (after_all cs empty_log)).0 ≡ returned true
  unfolding check_from
  verify-after_all cs =
      verify-IsIntact _
        (after_all-IsIntact cs empty_log (record { is_free = refl; is_checked = refl }))
