-- ===== src/Distributed/Log.antt =====
-- qndb/distributed/consensus.py, `LogEntry` and `PersistentLog`: the replicated log with the term and
-- the vote that are stored beside it. The file that mirrors it is not modelled. Positions count from
-- 1, and no message carries a negative one.
use quantum_database.Prelude.{
  ℕ, zero, suc, ◌-◌, String, Option, none, some, List, [], ◌∷◌, ◌++◌, Dict, length, take, last,
}

pub data Command : Type 0 where
  payload : Dict String String → Command
  membership_change : (action node_id host : String) → (port : ℕ) → Command

pub data EntryType : Type 0 where
  command config noop : EntryType

pub record LogEntry : Type 0 where
  pub term : ℕ
  pub index : ℕ
  pub content : Command
  pub timestamp : ℕ
  pub entry_type : EntryType

pub record PersistentLog : Type 0 where
  pub entries : List LogEntry
  pub term : ℕ
  pub voted_for : Option String

abbrev pub empty_log : PersistentLog
empty_log = record { entries = []; term = 0; voted_for = none }

abbrev pub append : LogEntry → PersistentLog → PersistentLog
append e l = record l { entries = l.entries ++ e ∷ [] }

abbrev pub drop {ℓ} : {A : Type ℓ} → ℕ → List A → List A
drop zero xs = xs
drop (suc n) [] = []
drop (suc n) (x ∷ xs) = drop n xs

-- An index below 1 is read as 1, which leaves nothing out.
abbrev pub entries_from : ℕ → PersistentLog → List LogEntry
entries_from index l = drop (index - 1) l.entries

abbrev drop_last : List LogEntry → List LogEntry
drop_last [] = []
drop_last (e ∷ []) = []
drop_last (e ∷ f ∷ es) = e ∷ drop_last (f ∷ es)

-- `entries[:index - 1]`; at 0 the slice ends before the last entry.
abbrev pub kept_before : ℕ → List LogEntry → List LogEntry
kept_before zero es = drop_last es
kept_before (suc n) es = take n es

abbrev pub truncate_from : ℕ → PersistentLog → PersistentLog
truncate_from index l = record l { entries = kept_before index l.entries }

abbrev pub last_index : PersistentLog → ℕ
last_index l = length l.entries

abbrev pub term_of : Option LogEntry → ℕ
term_of none = 0
term_of (some e) = e.term

abbrev pub last_term : PersistentLog → ℕ
last_term l = term_of (last l.entries)

abbrev pub get_elem? {ℓ} : {A : Type ℓ} → List A → ℕ → Option A
get_elem? [] i = none
get_elem? (x ∷ xs) zero = some x
get_elem? (x ∷ xs) (suc i) = get_elem? xs i

-- Positions outside the log have no entry.
abbrev pub at_position : ℕ → List LogEntry → Option LogEntry
at_position zero es = none
at_position (suc i) es = get_elem? es i

abbrev pub get : ℕ → PersistentLog → Option LogEntry
get index l = at_position index l.entries

-- `snapshot_data` and `restore_snapshot`: all three parts go along.
abbrev pub snapshot_data : PersistentLog → PersistentLog
snapshot_data l = record { entries = l.entries; term = l.term; voted_for = l.voted_for }

abbrev pub restore_snapshot : PersistentLog → PersistentLog → PersistentLog
restore_snapshot saved l = record l {
  entries = saved.entries;
  term = saved.term;
  voted_for = saved.voted_for;
}
