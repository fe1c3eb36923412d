-- ===== src/Transactions/Wal.antt =====
-- qndb/interface/transactions/wal.py: the write-ahead log. `file` is the sequence of records that
-- the log's file holds, and `writable` says whether it opens for appending; the JSON text of a
-- record is not modelled.
pub mod Numbers
pub mod Recovery
use quantum_database.Prelude.{
  ℕ, ◌+◌, String, Bool, ◌||◌, ◌&&◌, not, Option, none, some, List, [], ◌∷◌, ◌++◌, if◌then◌else◌,
  ltb, filter, contains, add, ◌==◌, string_key,
}
use quantum_database.Transactions.Transaction.{Row}

pub record WalEntry : Type 0 where
  pub lsn : ℕ
  pub txn_id : String
  pub op_type : String
  pub table : String
  pub pk : Option String
  pub before : Option Row
  pub after : Option Row
  pub ts : ℕ

pub record WriteAheadLog : Type 0 where
  pub entries : List WalEntry
  pub next_lsn : ℕ
  pub path : Option String
  pub file : List WalEntry
  pub writable : Bool

unfoldable pub new_log : Option String → List WalEntry → Bool → WriteAheadLog
new_log path file writable = record {
  entries = [];
  next_lsn = 1;
  path = path;
  file = file;
  writable = writable;
}

-- A failed flush is logged and swallowed.
abbrev pub flush : WalEntry → WriteAheadLog → WriteAheadLog
flush entry w = record w { file = if w.writable then w.file ++ entry ∷ [] else w.file }

abbrev pub flush_if_path : Option String → WalEntry → WriteAheadLog → WriteAheadLog
flush_if_path none entry w = w
flush_if_path (some p) entry w = if p == "" then w else flush entry w

-- What one call of `append` is given, its clock reading included.
pub record Append : Type 0 where
  pub txn_id : String
  pub op_type : String
  pub table : String
  pub pk : Option String
  pub before : Option Row
  pub after : Option Row
  pub now : ℕ

abbrev pub marker : String → String → ℕ → Append
marker id op now = record {
  txn_id = id;
  op_type = op;
  table = "";
  pk = none;
  before = none;
  after = none;
  now = now;
}

abbrev pub entry_of : ℕ → Append → WalEntry
entry_of lsn a = record {
  lsn = lsn;
  txn_id = a.txn_id;
  op_type = a.op_type;
  table = a.table;
  pk = a.pk;
  before = a.before;
  after = a.after;
  ts = a.now;
}

-- The log after the call, and the sequence number that it returns.
unfoldable pub append : Append → WriteAheadLog → WriteAheadLog × ℕ
append a w =
    let entry = entry_of w.next_lsn a in
    (
      flush_if_path w.path entry
          (record w { entries = w.entries ++ entry ∷ []; next_lsn = w.next_lsn + 1 }),
      w.next_lsn,
    )

-- The first loop of `replay`. Its set `aborted` is filled and never read.
unfoldable pub committed_ids : List WalEntry → List String → List String
committed_ids [] committed = committed
committed_ids (e ∷ es) committed =
    committed_ids es (if e.op_type == "COMMIT" then add e.txn_id committed else committed)

abbrev pub is_control : String → Bool
is_control op = op == "COMMIT" || (op == "ROLLBACK" || op == "SAVEPOINT")

unfoldable pub replay : WriteAheadLog → List WalEntry
unfolding committed_ids
replay w =
    let committed = committed_ids w.entries [] in
    filter (λ e. contains e.txn_id committed && not (is_control e.op_type)) w.entries

unfoldable pub truncate : ℕ → WriteAheadLog → WriteAheadLog
truncate up_to_lsn w = record w { entries = filter (λ e. ltb up_to_lsn e.lsn) w.entries }
