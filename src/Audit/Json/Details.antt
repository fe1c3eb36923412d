-- ===== src/Audit/Json/Details.antt =====
-- qndb/security/audit/hash_chain.py: what the text of an event says of it.

use quantum_database.Prelude.{
  ◌≡◌, refl, sym, ap, ◌∙◌, String, true, false, Option, none, some, [], ◌∷◌, if◌then◌else◌, Dict,
  lookup, Bool-cases, inl, inr, ◌==◌, string_key, some_injective, arith,
}
use quantum_database.Query.Texts.{text_less}
use quantum_database.Audit.Event.{AuditEvent, EventData, to_dict, from_dict}
use quantum_database.Audit.Event.Printing.{from_dict-to_dict}
use quantum_database.Audit.Json.{put_key, sorted_details, dumped}

text_less_irrefl : (s : String) → text_less s s ≡ false
unfolding text_less
text_less_irrefl String.[] = refl
text_less_irrefl (String.◌∷◌ c s) = ground (arith, text_less_irrefl s)

apart : (q k : String) → text_less q k ≡ true → (q == k) ≡ false
apart q k h = elim (Bool-cases (q == k)) [
  | inl same ↦
      absurd
        (cc (ap (λ x. text_less x k) ((string_key.same_iff q k).0 same), h, text_less_irrefl k))
  | inr other ↦ other
]

module _ {J : Type 0} where
  lookup-put_key :
      (k x : String) (v : J) (d : Dict String J)
      → lookup x (put_key k v d) ≡ (if k == x then some v else lookup x d)
  unfolding lookup
  lookup-put_key k x v [] = refl
  lookup-put_key k x v ((q, w) ∷ d) = elim (Bool-cases (text_less q k)) [
    | inl before ↦ rw before (
        ground (
          arith,
          lookup-put_key k x v d,
          apart q k before,
          string_key.same_iff q x,
          string_key.same_iff k x,
          string_key.same_iff q k,
        ))
    | inr after ↦ rw after refl
  ]

module _ {V J : Type 0} (json : V → J) where
  -- The JSON text of what stands under a key
  abbrev pub json_at : String → Dict String V → Option J
  json_at k d = elim (lookup k d) [ none ↦ none | some v ↦ some (json v) ]

  lookup-sorted_details :
      (k : String) (d : Dict String V) → lookup k (sorted_details json d) ≡ json_at k d
  unfolding sorted_details lookup
  lookup-sorted_details k [] = refl
  lookup-sorted_details k ((q, v) ∷ d) =
      lookup-put_key q k (json v) (sorted_details json d)
      ∙ ground (arith, lookup-sorted_details k d)

  -- The events have the same fields, and the same keys in their details, with values of the same text.
  pub record SameEvent (e f : AuditEvent V) : Type 0 where
    pub fields : record e { details = [] } ≡ record f { details = [] }
    pub details : (k : String) → json_at k e.details ≡ json_at k f.details

  -- The fields of a text without its details
  abbrev blank : EventData J → EventData V
  blank d = record {
    details = some [];
    event_id = d.event_id;
    event_type = d.event_type;
    timestamp = d.timestamp;
    user_id = d.user_id;
    resource_id = d.resource_id;
    source_ip = d.source_ip;
    source_hostname = d.source_hostname;
    success = d.success;
    process_id = d.process_id;
    thread_id = d.thread_id;
    severity = d.severity;
    query_plan = d.query_plan;
  }

  pub same_dumped :
      (e f : AuditEvent V) → dumped json (to_dict e) ≡ dumped json (to_dict f) → SameEvent e f
  unfolding dumped to_dict
  same_dumped e f h =
      let d = some_injective (ap (λ x. x.details) h) in
      record {
        fields = some_injective (
            sym (from_dict-to_dict (record e { details = [] }))
            ∙ ap (λ x. from_dict (blank x)) h
            ∙ from_dict-to_dict (record f { details = [] }));
        details = λ k.
            sym (lookup-sorted_details k e.details)
            ∙ ap (lookup k) d
            ∙ lookup-sorted_details k f.details;
      }
