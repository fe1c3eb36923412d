-- ===== src/Audit/Requests.antt =====
-- qndb/security/audit/compliance.py: requests of data subjects (GDPRManager). Collectors and erasers are
-- callbacks of the caller; none stands for an exception of one. The report for auditors is not modelled.
pub mod Processing
use quantum_database.Prelude.{
  ℕ, String, Bool, true, false, ◌&&◌, Option, none, some, List, [], ◌∷◌, ◌++◌, if◌then◌else◌, Dict,
  lookup, insert, values, filter, ◌==◌, string_key,
}

pub data Status : Type 0 where
  pending processing completed partial : Status

pub record GdprRequest (D : Type 0) : Type 0 where
  pub request_id : String
  pub subject_id : String
  pub request_type : String
  pub requested_at : ℕ
  pub completed_at : Option ℕ
  pub status : Status
  pub result : Option (Dict String D)

pub record GdprManager (D : Type 0) : Type 0 where
  pub requests : Dict String (GdprRequest D)
  pub data_collectors : List (String → Option (Dict String D))
  pub data_erasers : List (String → Option Bool)

module _ {D : Type 0} where
  abbrev pub empty_manager : GdprManager D
  empty_manager = record { requests = []; data_collectors = []; data_erasers = [] }

  unfoldable pub register_data_collector :
      (String → Option (Dict String D)) → GdprManager D → GdprManager D
  register_data_collector c m = record m { data_collectors = m.data_collectors ++ c ∷ [] }

  unfoldable pub register_data_eraser : (String → Option Bool) → GdprManager D → GdprManager D
  register_data_eraser e m = record m { data_erasers = m.data_erasers ++ e ∷ [] }

  abbrev pub new_request : (now : ℕ) (request_id subject_id request_type : String) → GdprRequest D
  new_request now request_id subject_id request_type = record {
    request_id = request_id;
    subject_id = subject_id;
    request_type = request_type;
    requested_at = now;
    completed_at = none;
    status = pending;
    result = none;
  }

  abbrev submit : GdprRequest D → GdprManager D → GdprRequest D × GdprManager D
  submit r m = (r, record m { requests = insert r.request_id r m.requests })

  unfoldable pub submit_access_request :
      (now : ℕ) (request_id subject_id : String) → GdprManager D → GdprRequest D × GdprManager D
  submit_access_request now request_id subject_id =
      submit (new_request now request_id subject_id "access")

  unfoldable pub submit_erasure_request :
      (now : ℕ) (request_id subject_id : String) → GdprManager D → GdprRequest D × GdprManager D
  submit_erasure_request now request_id subject_id =
      submit (new_request now request_id subject_id "erasure")

  -- `collected.update(data)`
  abbrev pub update : Dict String D → Dict String D → Dict String D
  update collected [] = collected
  update collected ((k, v) ∷ data_) = update (insert k v collected) data_

  -- A collector that raises is passed over.
  abbrev pub take_in : Dict String D → Option (Dict String D) → Dict String D
  take_in collected none = collected
  take_in collected (some data_) = update collected data_

  unfoldable pub collect :
      String → List (String → Option (Dict String D)) → Dict String D → Dict String D
  collect subject_id [] collected = collected
  collect subject_id (c ∷ cs) collected = collect subject_id cs (take_in collected (c subject_id))

-- An eraser that raises or returns False leaves the request partial; all are called.
abbrev pub succeeded : Option Bool → Bool
succeeded none = false
succeeded (some b) = b

unfoldable pub erase_all : String → List (String → Option Bool) → (all_ok : Bool) → Bool
erase_all subject_id [] all_ok = all_ok
erase_all subject_id (e ∷ es) all_ok =
    erase_all subject_id es (if succeeded (e subject_id) then all_ok else false)

abbrev same_status : Status → Status → Bool
same_status pending pending = true
same_status processing processing = true
same_status completed completed = true
same_status partial partial = true
same_status _ _ = false

module _ {D : Type 0} where
  -- What becomes of the request
  unfoldable pub processed : (now : ℕ) → GdprManager D → GdprRequest D → GdprRequest D
  unfolding collect erase_all
  processed now m r =
      if r.request_type == "access"
      then record r {
        result = some (collect r.subject_id m.data_collectors []);
        status = completed;
        completed_at = some now;
      }
      else if r.request_type == "erasure"
      then record r {
        status = if erase_all r.subject_id m.data_erasers true then completed else partial;
        completed_at = some now;
      }
      else record r { status = processing }

  -- none is a KeyError.
  unfoldable pub process_request :
      (now : ℕ) (request_id : String) → GdprManager D → Option (GdprRequest D) × GdprManager D
  unfolding processed
  process_request now request_id m = elim (lookup request_id m.requests) [
    | none ↦ (none, m)
    | some r ↦
        let r' = processed now m r in
        (some r', record m { requests = insert request_id r' m.requests })
  ]

  unfoldable pub get_request : String → GdprManager D → Option (GdprRequest D)
  get_request request_id m = lookup request_id m.requests

  abbrev of_status : Option Status → GdprRequest D → Bool
  of_status none r = true
  of_status (some s) r = same_status r.status s

  unfoldable pub list_requests : Option Status → GdprManager D → List (GdprRequest D)
  list_requests status m = filter (of_status status) (values m.requests)
