-- ===== src/Audit/Sinks.antt =====
-- qndb/security/audit/sinks.py: where events are written. A file is the list of its lines, and the rotated
-- copy with number i is `copies i`; `size` is the length of an event's line. Errors of the file system are
-- not modelled. A subscriber is a number with its queue, from which the consumer takes the oldest event.
pub mod Rotation
pub mod Queues
use quantum_database.Prelude.{
  ℕ, zero, suc, ◌+◌, ◌-◌, Bool, true, false, not, ◌&&◌, Option, none, some, List, [], ◌∷◌, ◌++◌,
  if◌then◌else◌, leb, ltb, length, filter, ◌==◌, nat_key,
}
use quantum_database.Audit.Event.{AuditEvent, EventData, to_dict}

abbrev pub Lines : Type 0 → Type 0
Lines V = List (AuditEvent V)

pub record FileAuditEventSink (V : Type 0) : Type 0 where
  pub lines : Lines V
  pub copies : ℕ → Option (Lines V)
  pub is_open : Bool
  pub current_size : ℕ
  pub rotate_size : ℕ
  pub max_files : ℕ

abbrev pub set : {A : Type 0} → ℕ → A → (ℕ → A) → ℕ → A
set i a f j = if j == i then a else f j

module _ {V : Type 0} where
  -- One turn of the loop: the oldest copy is removed, another goes up by one.
  abbrev pub move : (max_files i : ℕ) → (ℕ → Option (Lines V)) → ℕ → Option (Lines V)
  move max_files i copies = elim (copies i) [
    | none ↦ copies
    | some file ↦
        if i == max_files - 1
        then set i none copies
        else set (suc i) (some file) (set i none copies)
  ]

  -- `range(max_files - 1, 0, -1)`
  unfoldable pub shift : (max_files i : ℕ) → (ℕ → Option (Lines V)) → ℕ → Option (Lines V)
  shift max_files zero copies = copies
  shift max_files (suc i) copies = shift max_files i (move max_files (suc i) copies)

  -- `_rotate_file`, which opens a new file at the end
  unfoldable pub rotate_file : FileAuditEventSink V → FileAuditEventSink V
  unfolding shift
  rotate_file s = record s {
    lines = [];
    copies = set 1 (some s.lines) (shift s.max_files (s.max_files - 1) s.copies);
    is_open = true;
    current_size = 0;
  }

  abbrev pub total_size : (AuditEvent V → ℕ) → Lines V → ℕ
  total_size size [] = 0
  total_size size (e ∷ es) = size e + total_size size es

  -- A closed file is opened again, and its size read.
  abbrev pub reopened : (AuditEvent V → ℕ) → FileAuditEventSink V → FileAuditEventSink V
  reopened size s =
      if s.is_open then s else record s { is_open = true; current_size = total_size size s.lines }

  abbrev pub written :
      (AuditEvent V → ℕ) → AuditEvent V → FileAuditEventSink V → FileAuditEventSink V
  written size e s = record s { lines = s.lines ++ e ∷ []; current_size = s.current_size + size e }

  unfoldable pub write_event :
      (AuditEvent V → ℕ) → AuditEvent V → FileAuditEventSink V → FileAuditEventSink V
  unfolding rotate_file
  write_event size e s =
      let s' = written size e (reopened size s) in
      if leb s'.rotate_size s'.current_size then rotate_file s' else s'

  unfoldable pub close : FileAuditEventSink V → FileAuditEventSink V
  close s = record s { is_open = false }

pub record StreamAuditEventSink (V : Type 0) : Type 0 where
  pub subscribers : List (ℕ × List (EventData V))
  pub max_queue : ℕ
  pub total_events : ℕ
  pub dropped_events : ℕ

-- A queue of size 0 is never full.
abbrev pub is_full : {A : Type 0} → ℕ → List A → Bool
is_full max_queue q = ltb 0 max_queue && leb max_queue (length q)

module _ {V : Type 0} where
  unfoldable pub subscribe : ℕ → StreamAuditEventSink V → StreamAuditEventSink V
  subscribe i s = record s { subscribers = s.subscribers ++ (i, []) ∷ [] }

  unfoldable pub unsubscribe : ℕ → StreamAuditEventSink V → StreamAuditEventSink V
  unsubscribe i s = record s { subscribers = filter (λ q. not (q.0 == i)) s.subscribers }

  abbrev pub put_all :
      ℕ → EventData V → List (ℕ × List (EventData V)) → List (ℕ × List (EventData V))
  put_all max_queue data_ [] = []
  put_all max_queue data_ ((i, q) ∷ qs) =
      (i, if is_full max_queue q then q else q ++ data_ ∷ []) ∷ put_all max_queue data_ qs

  abbrev pub count_full : ℕ → List (ℕ × List (EventData V)) → ℕ
  count_full max_queue [] = 0
  count_full max_queue ((i, q) ∷ qs) =
      let rest = count_full max_queue qs in if is_full max_queue q then suc rest else rest

  unfoldable pub publish : AuditEvent V → StreamAuditEventSink V → StreamAuditEventSink V
  unfolding to_dict
  publish e s = record s {
    subscribers = put_all s.max_queue (to_dict e) s.subscribers;
    total_events = suc s.total_events;
    dropped_events = s.dropped_events + count_full s.max_queue s.subscribers;
  }

  unfoldable pub close_stream : StreamAuditEventSink V → StreamAuditEventSink V
  close_stream s = record s { subscribers = [] }
