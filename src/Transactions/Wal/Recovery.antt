-- ===== src/Transactions/Wal/Recovery.antt =====
-- What `replay` returns after a crash.
use quantum_database.Prelude.{
  String, ◌≡◌, refl, List, [], ◌∷◌, Bool, ◌&&◌, ◌||◌, not, arith, filter, any, contains, add,
  contains-add, ◌==◌, string_key, Bool-cases, inl, inr,
}
use quantum_database.Transactions.Wal.{WalEntry, WriteAheadLog, committed_ids, is_control, replay}

abbrev pub commits : String → WalEntry → Bool
commits id e = e.op_type == "COMMIT" && id == e.txn_id

-- The log holds a COMMIT record of the transaction.
abbrev pub has_commit : String → List WalEntry → Bool
has_commit id = any (commits id)

contains-committed_ids :
    (id : String) (es : List WalEntry) (acc : List String)
    → contains id (committed_ids es acc) ≡ (has_commit id es || contains id acc)
unfolding committed_ids
contains-committed_ids id [] acc = refl
contains-committed_ids id (e ∷ es) acc = elim (Bool-cases (e.op_type == "COMMIT")) [
  | inl b ↦
      rw (b, contains-committed_ids id es (add e.txn_id acc), contains-add id e.txn_id acc)
        (ground arith)
  | inr b ↦ rw (b, contains-committed_ids id es acc) (ground arith)
]

filter_congr :
    (p q : WalEntry → Bool) (es : List WalEntry)
    → ((e : WalEntry) → p e ≡ q e)
    → filter p es ≡ filter q es
filter_congr p q [] h = refl
filter_congr p q (e ∷ es) h = rw (h e, filter_congr p q es h)

-- Recovery returns, in order, the records of exactly the transactions with a COMMIT record, less
-- the COMMIT, ROLLBACK and SAVEPOINT records.
pub replay-eq-filter :
    (w : WriteAheadLog)
    → replay w ≡ filter (λ e. has_commit e.txn_id w.entries && not (is_control e.op_type)) w.entries
unfolding replay
replay-eq-filter w =
    filter_congr _ _ w.entries
      (λ e. rw (contains-committed_ids e.txn_id w.entries []) (ground arith))
