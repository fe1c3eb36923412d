-- ===== src/Audit/Chain.antt =====
-- qndb/security/audit/hash_chain.py: a log in which each entry holds the hash of the one before. `hash` is
-- SHA-256 of the text that `json.dumps` writes with sorted keys, given what the text is made of. The lock is a `threading.Lock`: who takes it twice
-- waits for ever.
pub mod Appending
pub mod Tampering
pub mod Importing
use quantum_database.Prelude.{
  ℕ, zero, suc, ◌+◌, ◌-◌, ◌≡◌, Bool, true, false, Option, none, some, List, [], ◌∷◌, ◌++◌, map,
  if◌then◌else◌, Key, ◌==◌, length, take, last, ℤ, pos, negsuc, min,
}
use quantum_database.Distributed.Log.{drop}
use quantum_database.Audit.Event.{AuditEvent, EventData, to_dict, from_dict}
use quantum_database.Audit.Json.{dumped}

-- What is hashed: `seq`, `event`, `prev`, the event with its details sorted and as texts
pub record Payload (J H : Type 0) : Type 0 where
  pub seq : ℕ
  pub event : EventData J
  pub prev : H

pub record HashChainEntry (V H : Type 0) : Type 0 where
  pub sequence : ℕ
  pub event : AuditEvent V
  pub prev_hash : H
  pub entry_hash : H

pub record EntryData (V H : Type 0) : Type 0 where
  pub sequence : ℕ
  pub event : EventData V
  pub prev_hash : H
  pub entry_hash : H

-- The exceptions, the first three with the number of the entry
pub data Error : Type 0 where
  chain_broken hash_mismatch import_failed : ℕ → Error
  unknown_type : Error

-- A call returns, raises, or waits for ever.
pub data Outcome (A : Type 0) : Type 0 where
  returned : A → Outcome A
  raised : Error → Outcome A
  blocked : Outcome A

pub record HashChainAuditLog (V H : Type 0) : Type 0 where
  pub chain : List (HashChainEntry V H)
  pub is_held : Bool

-- A bound of a slice: a negative one counts from the end.
abbrev bound : ℕ → ℤ → ℕ
bound size (pos n) = min n size
bound size (negsuc n) = size - suc n

abbrev end_of : ℕ → Option ℤ → ℕ
end_of size none = size
end_of size (some z) = bound size z

module _ {V H : Type 0} where
  abbrev pub empty_log : HashChainAuditLog V H
  empty_log = record { chain = []; is_held = false }

  -- Leaving a `with` block by a value or an exception gives the lock back.
  abbrev pub release :
      {A : Type 0} → Outcome A × HashChainAuditLog V H → Outcome A × HashChainAuditLog V H
  release (returned a, l) = (returned a, record l { is_held = false })
  release (raised x, l) = (raised x, record l { is_held = false })
  release (blocked, l) = (blocked, l)

  -- `with self._lock:`
  abbrev pub with_lock :
      {A : Type 0}
      → (HashChainAuditLog V H → Outcome A × HashChainAuditLog V H)
      → HashChainAuditLog V H
      → Outcome A × HashChainAuditLog V H
  with_lock body l =
      if l.is_held then (blocked, l) else release (body (record l { is_held = true }))

  abbrev pub nth : ℕ → List (HashChainEntry V H) → Option (HashChainEntry V H)
  nth n [] = none
  nth zero (e ∷ es) = some e
  nth (suc n) (e ∷ es) = nth n es

  abbrev entry_at : ℤ → List (HashChainEntry V H) → Option (HashChainEntry V H)
  entry_at (pos n) es = nth n es
  entry_at (negsuc n) es = none

  unfoldable pub get_entry :
      ℤ → HashChainAuditLog V H → Outcome (Option (HashChainEntry V H)) × HashChainAuditLog V H
  get_entry sequence = with_lock (λ l. (returned (entry_at sequence l.chain), l))

  abbrev pub slice : ℤ → Option ℤ → List (HashChainEntry V H) → List (HashChainEntry V H)
  slice start end es =
      let first = bound (length es) start in drop first (take (end_of (length es) end) es)

  unfoldable pub get_entries :
      ℤ
      → Option ℤ
      → HashChainAuditLog V H
      → Outcome (List (HashChainEntry V H)) × HashChainAuditLog V H
  get_entries start end = with_lock (λ l. (returned (slice start end l.chain), l))

  abbrev pub entry_data : HashChainEntry V H → EntryData V H
  entry_data e = record {
    sequence = e.sequence;
    event = to_dict e.event;
    prev_hash = e.prev_hash;
    entry_hash = e.entry_hash;
  }

  unfoldable pub export_chain :
      HashChainAuditLog V H → Outcome (List (EntryData V H)) × HashChainAuditLog V H
  export_chain = with_lock (λ l. (returned (map entry_data l.chain), l))

module _ {V J H : Type 0} (json : V → J) (hash : Payload J H → H) where
  abbrev pub compute_hash : HashChainEntry V H → H
  compute_hash e =
      hash (record { seq = e.sequence; event = dumped json (to_dict e.event); prev = e.prev_hash })

  abbrev pub new_entry : ℕ → AuditEvent V → H → HashChainEntry V H
  new_entry sequence event prev_hash = record {
    sequence = sequence;
    event = event;
    prev_hash = prev_hash;
    entry_hash =
        hash (record { seq = sequence; event = dumped json (to_dict event); prev = prev_hash });
  }

module _ {V H : Type 0} (genesis : H) where
  abbrev pub head_hash : List (HashChainEntry V H) → H
  head_hash es = elim (last es) [ none ↦ genesis | some e ↦ e.entry_hash ]

module _ {V J H : Type 0} ⦃k : Key H⦄ (genesis : H) (json : V → J) (hash : Payload J H → H) where
  abbrev pub extend : AuditEvent V → List (HashChainEntry V H) → HashChainEntry V H
  extend event es = new_entry json hash (length es) event (head_hash genesis es)

  unfoldable pub append :
      AuditEvent V → HashChainAuditLog V H → Outcome (HashChainEntry V H) × HashChainAuditLog V H
  append event = with_lock (λ l.
      let entry = extend event l.chain in
      (returned entry, record l { chain = l.chain ++ entry ∷ [] }))

  -- The loop of `verify`
  unfoldable pub check_from : H → List (HashChainEntry V H) → Outcome Bool
  check_from prev [] = returned true
  check_from prev (e ∷ es) =
      if e.prev_hash == prev
      then if compute_hash json hash e == e.entry_hash
        then check_from e.entry_hash es
        else raised (hash_mismatch e.sequence)
      else raised (chain_broken e.sequence)

  unfoldable pub verify : HashChainAuditLog V H → Outcome Bool × HashChainAuditLog V H
  unfolding check_from
  verify = with_lock (λ l. (check_from genesis l.chain, l))

  -- The loop of `import_chain`, with the entries taken over so far
  unfoldable pub load :
      List (EntryData V H) → HashChainAuditLog V H → Outcome Unit × HashChainAuditLog V H
  load [] l = (returned tt, l)
  load (d ∷ ds) l = elim (from_dict d.event) [
    | none ↦ (raised unknown_type, l)
    | some event ↦
        let entry = new_entry json hash d.sequence event d.prev_hash in
        if entry.entry_hash == d.entry_hash
        then load ds (record l { chain = l.chain ++ entry ∷ [] })
        else (raised (import_failed d.sequence), l)
  ]

  abbrev forget : Outcome Bool × HashChainAuditLog V H → Outcome Unit × HashChainAuditLog V H
  forget (returned b, l) = (returned tt, l)
  forget (raised x, l) = (raised x, l)
  forget (blocked, l) = (blocked, l)

  abbrev and_verify : Outcome Unit × HashChainAuditLog V H → Outcome Unit × HashChainAuditLog V H
  and_verify (returned u, l) = forget (verify l)
  and_verify (raised x, l) = (raised x, l)
  and_verify (blocked, l) = (blocked, l)

  unfoldable pub import_chain :
      List (EntryData V H) → HashChainAuditLog V H → Outcome Unit × HashChainAuditLog V H
  unfolding load verify
  import_chain ds = with_lock (λ l. and_verify (load ds (record l { chain = [] })))
