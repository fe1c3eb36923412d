-- ===== src/Audit/Requests/Processing.antt =====
-- qndb/security/audit/compliance.py: `process_request`.
use quantum_database.Prelude.{
  ℕ, String, ◌≡◌, refl, Bool, true, false, Option, some, List, [], ◌∷◌, if◌then◌else◌, lookup,
  lookup-insert_self, all, string_key, arith, ◌↔◌,
}
use quantum_database.Audit.Requests.{
  completed, partial, GdprRequest, GdprManager, succeeded, erase_all, processed, process_request,
  get_request,
}

erase_all-false :
    (subject : String) (es : List (String → Option Bool)) → erase_all subject es false ≡ false
unfolding erase_all
erase_all-false subject [] = refl
erase_all-false subject (e ∷ es) = ground (arith, erase_all-false subject es)

erase_all-all :
    (subject : String) (es : List (String → Option Bool))
    → erase_all subject es true ≡ all (λ e. succeeded (e subject)) es
unfolding erase_all
erase_all-all subject [] = refl
erase_all-all subject (e ∷ es) =
    ground (arith, erase_all-all subject es, erase_all-false subject es)

completed_iff : (b : Bool) → ((if b then completed else partial) ≡ completed) ↔ (b ≡ true)
completed_iff true = (λ h. refl, λ h. refl)
completed_iff false = (λ h. absurd (cc), λ h. absurd (cc))

module _ {D : Type 0} where
  processed-erasure :
      (now : ℕ) (m : GdprManager D) (r : GdprRequest D)
      → r.request_type ≡ "erasure"
      → processed now m r ≡ record r {
        status =
            if all (λ e. succeeded (e r.subject_id)) m.data_erasers then completed else partial;
        completed_at = some now;
      }
  unfolding processed
  processed-erasure now m r t = rw (t, erase_all-all r.subject_id m.data_erasers) refl

  -- What an erasure request is after it was processed
  pub record Erased (now : ℕ) (id : String) (m : GdprManager D) (r : GdprRequest D) : Type 0 where
    pub request : GdprRequest D
    pub answer : (process_request now id m).0 ≡ some request
    pub stored : get_request id (process_request now id m).1 ≡ some request
    pub at_now : request.completed_at ≡ some now
    pub status :
        (request.status ≡ completed) ↔ (all (λ e. succeeded (e r.subject_id)) m.data_erasers ≡ true)

  -- A processed erasure request is returned and stored, and completed exactly if every eraser returned True.
  pub process_request-Erased :
      (now : ℕ) (id : String) (m : GdprManager D) (r : GdprRequest D)
      → lookup id m.requests ≡ some r
      → r.request_type ≡ "erasure"
      → Erased now id m r
  unfolding process_request get_request
  process_request-Erased now id m r e t = record {
    request = processed now m r;
    answer = rw (process_request, e) refl;
    stored = rw (process_request, e) (lookup-insert_self id (processed now m r) m.requests);
    at_now = rw (processed-erasure now m r t) refl;
    status =
        rw (processed-erasure now m r t)
          (completed_iff (all (λ e. succeeded (e r.subject_id)) m.data_erasers));
  }
