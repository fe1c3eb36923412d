-- ===== src/Audit/Chain/Importing.antt =====
-- qndb/security/audit/hash_chain.py: `import_chain`.
use mathlib.Core.List.{append_assoc, append-nil}
use quantum_database.Prelude.{◌≡◌, ◌≢◌, refl, true, false, List, [], ◌∷◌, ◌++◌, map, Key, arith}
use quantum_database.Audit.Event.Printing.{from_dict-to_dict}
use quantum_database.Audit.Chain.{
  Payload, HashChainEntry, EntryData, HashChainAuditLog, raised, blocked, import_failed,
  compute_hash, entry_data, load, import_chain,
}

module _ {V J H : Type 0} ⦃k : Key H⦄ (genesis : H) (json : V → J) (hash : Payload J H → H) where
  -- Each entry has the hash of what it holds.
  pub data IsSealed : List (HashChainEntry V H) → Type 0 where
    none_left : IsSealed []
    sealed :
        (e : HashChainEntry V H) {es : List (HashChainEntry V H)}
        → compute_hash json hash e ≡ e.entry_hash
        → IsSealed es
        → IsSealed (e ∷ es)

  -- What comes after sealed entries is loaded behind them.
  load-append :
      {es : List (HashChainEntry V H)} (rest : List (EntryData V H)) (l : HashChainAuditLog V H)
      → IsSealed es
      → load genesis json hash (map entry_data es ++ rest) l
        ≡ load genesis json hash rest (record l { chain = l.chain ++ es })
  unfolding load
  load-append rest l none_left = rw (append-nil l.chain) refl
  load-append rest l (sealed e {es} h s) = ground (
    arith,
    from_dict-to_dict e.event,
    h,
    k.same_iff (compute_hash json hash e) e.entry_hash,
    load-append rest (record l { chain = l.chain ++ e ∷ [] }) s,
    append_assoc l.chain (e ∷ []) es,
  )

  load_bad :
      (bad : HashChainEntry V H) (rest : List (EntryData V H)) (l : HashChainAuditLog V H)
      → compute_hash json hash bad ≢ bad.entry_hash
      → load genesis json hash (entry_data bad ∷ rest) l ≡ (raised (import_failed bad.sequence), l)
  unfolding load
  load_bad bad rest l n = ground (
    arith,
    from_dict-to_dict bad.event,
    k.same_iff (compute_hash json hash bad) bad.entry_hash,
    n,
  )

  -- Importing the export of sealed entries into a free log replaces its entries by them, but the call waits
  -- for ever: it holds the lock that `verify` takes.
  pub import_chain-exported :
      (es : List (HashChainEntry V H)) (l : HashChainAuditLog V H)
      → IsSealed es
      → l.is_held ≡ false
      → import_chain genesis json hash (map entry_data es) l
        ≡ (blocked, record { chain = es; is_held = true })
  unfolding import_chain
  import_chain-exported es l s h = ground (
    arith,
    h,
    load-append [] (record { chain = []; is_held = true }) s,
    append-nil (map entry_data es),
  )

  -- An import of sealed entries that are followed by one whose hash is not that of its content raises with
  -- the number of that one; the entries before it have replaced the log.
  pub import_chain-refused :
      (es : List (HashChainEntry V H)) (bad : HashChainEntry V H) (rest : List (EntryData V H))
      (l : HashChainAuditLog V H)
      → IsSealed es
      → compute_hash json hash bad ≢ bad.entry_hash
      → l.is_held ≡ false
      → import_chain genesis json hash (map entry_data es ++ entry_data bad ∷ rest) l
        ≡ (raised (import_failed bad.sequence), record { chain = es; is_held = false })
  unfolding import_chain
  import_chain-refused es bad rest l s n h =
      let stop = k.same_iff (compute_hash json hash bad) bad.entry_hash in
      let more = load-append (entry_data bad ∷ rest) (record { chain = []; is_held = true }) s in
      ground (arith, h, more, n, stop, load_bad bad rest (record { chain = es; is_held = true }) n)
