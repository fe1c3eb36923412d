-- ===== src/Audit/Chain/Tampering.antt =====
-- qndb/security/audit/hash_chain.py: `verify`, and what it says of the entries.
use mathlib.Core.List.{append_assoc, append-nil}
use quantum_database.Prelude.{
  ◌≡◌, ◌≢◌, refl, sym, ap, subst, ◌∙◌, true, List, [], ◌∷◌, ◌++◌, Key, arith,
}
use quantum_database.Audit.Json.Details.{SameEvent, same_dumped}
use quantum_database.Audit.Chain.{
  Payload, HashChainEntry, HashChainAuditLog, returned, compute_hash, head_hash, check_from, verify,
}

module _ {V H : Type 0} where
  -- The hash that the next entry refers to
  abbrev pub final : H → List (HashChainEntry V H) → H
  final prev [] = prev
  final prev (e ∷ es) = final e.entry_hash es

  pub final-append :
      (p : H) (es : List (HashChainEntry V H)) (e : HashChainEntry V H)
      → final p (es ++ e ∷ []) ≡ e.entry_hash
  final-append p [] e = refl
  final-append p (f ∷ es) e = final-append f.entry_hash es e

  head_hash-cons :
      (p q : H) (e : HashChainEntry V H) (es : List (HashChainEntry V H))
      → head_hash p (e ∷ es) ≡ final q (e ∷ es)
  head_hash-cons p q e [] = refl
  head_hash-cons p q e (f ∷ es) = head_hash-cons p e.entry_hash f es

  pub head_hash-final :
      (genesis : H) (es : List (HashChainEntry V H)) → head_hash genesis es ≡ final genesis es
  head_hash-final genesis [] = refl
  head_hash-final genesis (e ∷ es) = head_hash-cons genesis genesis e es

module _ {V J H : Type 0} ⦃k : Key H⦄ (genesis : H) (json : V → J) (hash : Payload J H → H) where
  -- What a hash without collisions does: different texts have different hashes, none that of genesis.
  pub record IsCollisionFree : Type 0 where
    pub injective : (p q : Payload J H) → hash p ≡ hash q → p ≡ q
    pub not_genesis : (p : Payload J H) → hash p ≢ genesis

  -- A chain that is intact, with its last hash
  data Linked : List (HashChainEntry V H) → H → Type 0 where
    start : Linked [] genesis
    link :
        {es : List (HashChainEntry V H)} {h : H}
        → Linked es h
        → (e : HashChainEntry V H) → e.prev_hash ≡ h
        → compute_hash json hash e ≡ e.entry_hash
        → Linked (es ++ e ∷ []) e.entry_hash

  check_from-cons :
      (prev : H) (e : HashChainEntry V H) (es : List (HashChainEntry V H))
      → check_from genesis json hash prev (e ∷ es) ≡ returned true
      → (e.prev_hash ≡ prev)
        × (compute_hash json hash e ≡ e.entry_hash)
        × (check_from genesis json hash e.entry_hash es ≡ returned true)
  unfolding check_from
  check_from-cons prev e es h =
      ground
        (arith, k.same_iff e.prev_hash prev, k.same_iff (compute_hash json hash e) e.entry_hash)

  check_from-Linked :
      (acc : List (HashChainEntry V H)) (prev : H) (es : List (HashChainEntry V H))
      → Linked acc prev
      → check_from genesis json hash prev es ≡ returned true
      → Linked (acc ++ es) (final prev es)
  check_from-Linked acc prev [] l h = subst (λ es. Linked es prev) (sym (append-nil acc)) l
  check_from-Linked acc prev (e ∷ es) l h =
      let (before, own, rest) = check_from-cons prev e es h in
      subst (λ fs. Linked fs (final e.entry_hash es)) (append_assoc acc (e ∷ []) es)
        (check_from-Linked (acc ++ e ∷ []) e.entry_hash es (link l e before own) rest)

  -- The entries have the same number, hashes and event, whatever the order of its details.
  pub record SameEntry (e f : HashChainEntry V H) : Type 0 where
    pub sequence : e.sequence ≡ f.sequence
    pub prev_hash : e.prev_hash ≡ f.prev_hash
    pub entry_hash : e.entry_hash ≡ f.entry_hash
    pub event : SameEvent json e.event f.event

  -- Entry by entry
  abbrev pub AreSame : List (HashChainEntry V H) → List (HashChainEntry V H) → Type 0
  AreSame [] [] = Unit
  AreSame (e ∷ es) (f ∷ fs) = SameEntry e f × AreSame es fs
  AreSame _ _ = ⊥

  AreSame-append :
      (es fs : List (HashChainEntry V H)) {e f : HashChainEntry V H}
      → AreSame es fs
      → SameEntry e f
      → AreSame (es ++ e ∷ []) (fs ++ f ∷ [])
  AreSame-append [] [] h s = (s, tt)
  AreSame-append [] (f ∷ fs) h s = absurd h
  AreSame-append (e ∷ es) [] h s = absurd h
  AreSame-append (e ∷ es) (f ∷ fs) h s = (h.0, AreSame-append es fs h.1 s)

  same_entry :
      (c : IsCollisionFree) (e f : HashChainEntry V H)
      → compute_hash json hash e ≡ e.entry_hash
      → compute_hash json hash f ≡ f.entry_hash
      → e.entry_hash ≡ f.entry_hash
      → SameEntry e f
  same_entry c e f p q h =
      let same = c.injective _ _ (p ∙ h ∙ sym q) in
      record {
        sequence = ap (λ p. p.seq) same;
        prev_hash = ap (λ p. p.prev) same;
        entry_hash = h;
        event = same_dumped json e.event f.event (ap (λ p. p.event) same);
      }

  same_chain :
      (c : IsCollisionFree) {es fs : List (HashChainEntry V H)} {g h : H}
      → Linked es g
      → Linked fs h
      → g ≡ h
      → AreSame es fs
  same_chain c start start p = tt
  same_chain c start (link l f _ q) p = absurd (c.not_genesis _ (q ∙ sym p))
  same_chain c (link l e _ q) start p = absurd (c.not_genesis _ (q ∙ p))
  same_chain c (link {es} l e u q) (link {es = fs} m f v r) p =
      let same = same_entry c e f q r p in
      AreSame-append es fs (same_chain c l m (sym u ∙ same.prev_hash ∙ v)) same

  pub verify-check_from :
      (l : HashChainAuditLog V H)
      → (verify genesis json hash l).0 ≡ returned true
      → check_from genesis json hash genesis l.chain ≡ returned true
  unfolding verify
  verify-check_from l h = ground arith

  -- If different texts have different hashes and no text has the hash of genesis: two logs that verify and
  -- have the same last hash have the same entries, one by one, up to the order of the keys of the details
  -- and to values with the same text.
  pub verify_unique :
      (c : IsCollisionFree) (l m : HashChainAuditLog V H)
      → (verify genesis json hash l).0 ≡ returned true
      → (verify genesis json hash m).0 ≡ returned true
      → head_hash genesis l.chain ≡ head_hash genesis m.chain
      → AreSame l.chain m.chain
  verify_unique c l m p q h =
      same_chain c (check_from-Linked [] genesis l.chain start (verify-check_from l p))
        (check_from-Linked [] genesis m.chain start (verify-check_from m q))
        (sym (head_hash-final genesis l.chain) ∙ h ∙ head_hash-final genesis m.chain)
