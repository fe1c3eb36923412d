-- ===== src/Audit/Tests.antt =====
-- A log of two events; hashes are terms, which are different for different contents.
use native.Mathlib.Decide.{ℕ_discrete}
use text.Mathlib.TextEquality.{eq_iff}
use quantum_database.Prelude.{
  ℕ, ◌≡◌, refl, String, Bool, true, false, Option, none, some, List, [], ◌∷◌, ◌++◌, map, Key,
  nat_key, arith, pos, if◌then◌else◌, lookup, Bool-cases, inl, inr, ◌==◌, string_key, ◌↔◌,
}
use quantum_database.Audit.Event.{AuditEvent, EventData, login, query_executed, new_event, to_dict}
use quantum_database.Query.Texts.{text_less}
use quantum_database.Audit.Json.{dumped, sorted_details}
use quantum_database.Audit.Chain.{
  Payload, HashChainEntry, HashChainAuditLog, returned, raised, blocked, import_failed, empty_log,
  append, verify, get_entry, import_chain, entry_data, extend,
}
use quantum_database.Audit.Chain.Tampering.{
  IsCollisionFree, verify-check_from, verify_unique, AreSame,
}
use quantum_database.Audit.Chain.Appending.{
  Recorded, IsIntact, append-Recorded, Call, appends, gets as gets_entry, after_all,
  verify-after_all,
}
use quantum_database.Audit.Chain.Importing.{
  IsSealed, none_left, sealed, import_chain-exported, import_chain-refused,
}
use quantum_database.Audit.Retention.{
  init_defaults, File, apply_retention, classify_event, add_policy, remove_policy,
}
use quantum_database.Audit.Retention.Tiers.{
  Change, changed, adds, removes, survives, apply_retention-survives,
}
use quantum_database.Audit.Sinks.{
  FileAuditEventSink, StreamAuditEventSink, rotate_file, write_event, publish, subscribe,
  unsubscribe,
}
use quantum_database.Audit.Sinks.Rotation.{Rotated, rotate_file-Rotated}
use quantum_database.Audit.Sinks.Queues.{
  Step, subscribes, unsubscribes, gets, publishes, after_all as after_steps,
}
use quantum_database.Audit.Requests.{
  GdprRequest, GdprManager, completed, partial, empty_manager, new_request, process_request,
}

abbrev first_event : AuditEvent ℕ
unfolding new_event
first_event = new_event "e1" 10 7 1 login "ada" none

-- The same event, with its details in another order
abbrev reordered : List (String × ℕ) → AuditEvent ℕ
reordered d = record first_event { details = d }

abbrev second_event : AuditEvent ℕ
unfolding new_event
second_event = new_event "e2" 20 7 1 query_executed "bob" (some "orders")

abbrev json : ℕ → ℕ
json n = n

data Digest : Type 0 where
  genesis : Digest
  digest : ℕ → EventData ℕ → Digest → Digest

string_discrete : Discrete String
string_discrete a b = elim (Bool-cases (a == b)) [
  | inl same ↦ yes ((eq_iff a b).0 same)
  | inr different ↦ no (λ p. cc ((eq_iff a b).1 p))
]

EventData-discrete : Discrete (EventData ℕ)
EventData-discrete = hlevel (ℕ_discrete, string_discrete)

Digest-discrete : Discrete Digest
Digest-discrete = hlevel (ℕ_discrete, EventData-discrete)

abbrev same_digest : Digest → Digest → Bool
same_digest a b = elim (Digest-discrete a b) [ yes p ↦ true | no n ↦ false ]

same_digest_iff : (a b : Digest) → (same_digest a b ≡ true) ↔ (a ≡ b)
same_digest_iff a b = ground (arith, Digest-discrete a b)

instance abbrev digest_key : Key Digest
digest_key = record { same = same_digest; same_iff = same_digest_iff }

abbrev digest_of : Payload ℕ Digest → Digest
digest_of p = digest p.seq p.event p.prev

digest_of-IsCollisionFree : IsCollisionFree genesis json digest_of
digest_of-IsCollisionFree = record { injective = λ p q h. grind arith; not_genesis = λ p h. cc }

abbrev two_entries : List (HashChainEntry ℕ Digest)
two_entries =
    let one = extend genesis json digest_of first_event [] in
    one ∷ extend genesis json digest_of second_event (one ∷ []) ∷ []

abbrev filled : HashChainAuditLog ℕ Digest
filled = record { chain = two_entries; is_held = false }

filled-verifies : (verify genesis json digest_of filled).0 ≡ returned true
unfolding append
filled-verifies =
    verify-after_all genesis json digest_of (appends first_event ∷ appends second_event ∷ [])

-- The events, appended by calls, with the details of the first one in an order
abbrev steps : List (String × ℕ) → List (Call genesis json digest_of)
steps d = appends (reordered d) ∷ gets_entry (pos 0) ∷ appends second_event ∷ []

abbrev called : List (String × ℕ) → HashChainAuditLog ℕ Digest
called d = after_all genesis json digest_of (steps d) empty_log

abbrev one_way : List (String × ℕ)
one_way = ("port", 22) ∷ ("host", 1) ∷ []

abbrev other_way : List (String × ℕ)
other_way = ("host", 1) ∷ ("port", 22) ∷ []

verify_unique_example :
    AreSame genesis json digest_of (called one_way).chain (called other_way).chain
unfolding append get_entry dumped sorted_details to_dict text_less
verify_unique_example =
    verify_unique genesis json digest_of digest_of-IsCollisionFree (called one_way)
      (called other_way) (verify-after_all genesis json digest_of (steps one_way))
      (verify-after_all genesis json digest_of (steps other_way)) refl

filled-IsIntact : IsIntact genesis json digest_of filled
filled-IsIntact = record {
  is_free = refl;
  is_checked = verify-check_from genesis json digest_of filled filled-verifies;
}

append-Recorded_example : Recorded genesis json digest_of first_event filled
append-Recorded_example = append-Recorded genesis json digest_of first_event filled filled-IsIntact

two_entries-IsSealed : IsSealed genesis json digest_of two_entries
two_entries-IsSealed = sealed _ refl (sealed _ refl none_left)

import_chain-exported_example :
    import_chain genesis json digest_of (map entry_data two_entries) empty_log
    ≡ (blocked, record { chain = two_entries; is_held = true })
import_chain-exported_example =
    import_chain-exported genesis json digest_of two_entries empty_log two_entries-IsSealed refl

abbrev unsealed : HashChainEntry ℕ Digest
unsealed = record (extend genesis json digest_of second_event two_entries) { entry_hash = genesis }

import_chain-refused_example :
    import_chain genesis json digest_of
      (map entry_data two_entries ++ entry_data unsealed ∷ [])
      filled
    ≡ (raised (import_failed 2), record { chain = two_entries; is_held = false })
import_chain-refused_example =
    import_chain-refused genesis json digest_of two_entries unsealed [] filled two_entries-IsSealed
      (λ h. cc) refl

-- A tier of a week is added, and the one of a month removed.
abbrev tiers : List Change
tiers = adds (record { name = "week"; duration_seconds = 604800 }) ∷ removes "hot" ∷ []

two_weeks : classify_event 1300000 50000 (changed tiers init_defaults) ≡ "warm"
unfolding classify_event init_defaults add_policy remove_policy
two_weeks = refl

abbrev two_files : List File
two_files = ("a.log", 10) ∷ ("b.log", 200000000) ∷ []

apply_retention-survives_example :
    survives ("b.log", 200000000) (apply_retention 300000000 init_defaults false two_files) ≡ true
apply_retention-survives_example =
    apply_retention-survives 300000000 false two_files ("b.log", 200000000) refl (omega arith)

old_removed : (apply_retention 300000000 init_defaults false two_files).stats.deleted ≡ 1
unfolding apply_retention init_defaults
old_removed = refl

abbrev file_sink : FileAuditEventSink ℕ
file_sink = record {
  lines = first_event ∷ [];
  copies = λ i. if i == 1 then some (second_event ∷ []) else none;
  is_open = true;
  current_size = 60;
  rotate_size = 100;
  max_files = 3;
}

rotate_file-Rotated_example : Rotated file_sink (rotate_file file_sink)
rotate_file-Rotated_example = rotate_file-Rotated file_sink (omega arith)

abbrev sixty : AuditEvent ℕ → ℕ
sixty e = 60

rotated : (write_event sixty second_event file_sink).current_size ≡ 0
unfolding write_event rotate_file
rotated = refl

abbrev stream : StreamAuditEventSink ℕ
stream = record { subscribers = []; max_queue = 1; total_events = 0; dropped_events = 0 }

abbrev visits : List (Step ℕ)
visits =
    subscribes 1 ∷ publishes first_event ∷ publishes second_event ∷ gets 1 ∷ unsubscribes 1 ∷ []

one_dropped : (after_steps visits stream).dropped_events ≡ 1
unfolding publish subscribe unsubscribe to_dict
one_dropped = refl

-- The second eraser fails.
abbrev erasers : List (String → Option Bool)
erasers = (λ s. some true) ∷ (λ s. none) ∷ []

abbrev erasure : GdprRequest ℕ
erasure = new_request 5 "r1" "ada" "erasure"

abbrev requests : GdprManager ℕ
requests = record empty_manager { requests = ("r1", erasure) ∷ []; data_erasers = erasers }

partly_erased :
    (process_request 9 "r1" requests).0
    ≡ some (record erasure { status = partial; completed_at = some 9 })
unfolding process_request lookup
partly_erased = refl

-- Without erasers an erasure request is completed.
nothing_erased :
    (process_request 9 "r1" (record requests { data_erasers = [] })).0
    ≡ some (record erasure { status = completed; completed_at = some 9 })
unfolding process_request lookup
nothing_erased = refl
