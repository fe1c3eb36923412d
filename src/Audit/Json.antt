-- ===== src/Audit/Json.antt =====
-- qndb/security/audit/hash_chain.py: `json.dumps` with `sort_keys`, of an event. `json` is the JSON text of
-- a value of the details, which are values that `json` takes.
pub mod Details
use quantum_database.Prelude.{String, Option, none, some, List, [], ◌∷◌, if◌then◌else◌, Dict}
use quantum_database.Query.Texts.{text_less}
use quantum_database.Audit.Event.{EventData}

module _ {J : Type 0} where
  abbrev pub put_key : String → J → Dict String J → Dict String J
  put_key k v [] = (k, v) ∷ []
  put_key k v ((q, w) ∷ d) =
      let later = (q, w) ∷ put_key k v d in if text_less q k then later else (k, v) ∷ (q, w) ∷ d

module _ {V J : Type 0} (json : V → J) where
  -- The details in the order of their keys
  unfoldable pub sorted_details : Dict String V → Dict String J
  unfolding text_less
  sorted_details [] = []
  sorted_details ((k, v) ∷ d) = put_key k (json v) (sorted_details d)

  abbrev option_details : Option (Dict String V) → Option (Dict String J)
  option_details none = none
  option_details (some d) = some (sorted_details d)

  -- What the text of an event is made of
  unfoldable pub dumped : EventData V → EventData J
  unfolding sorted_details
  dumped d = record {
    event_id = d.event_id;
    event_type = d.event_type;
    timestamp = d.timestamp;
    user_id = d.user_id;
    resource_id = d.resource_id;
    details = option_details d.details;
    source_ip = d.source_ip;
    source_hostname = d.source_hostname;
    success = d.success;
    process_id = d.process_id;
    thread_id = d.thread_id;
    severity = d.severity;
    query_plan = d.query_plan;
  }
