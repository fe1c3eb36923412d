-- ===== src/Audit/Event.antt =====
-- qndb/security/audit/events.py: the types of events, the record of one, and its dictionary. A value among
-- the details is a parameter; times are numbers. Left out are the text of
-- the date, which from_dict drops, and the formats for other tools.
pub mod Printing
use quantum_database.Prelude.{
  ℕ, String, Bool, true, false, not, Option, none, some, List, [], ◌∷◌, if◌then◌else◌, Dict, insert,
  string_key,
}
use quantum_database.Query.Lexer.{is_upper_of}

pub data AuditEventType : Type 0 where
  login logout authentication_failure authorization_failure user_created user_modified :
      AuditEventType
  user_deleted role_created role_modified role_deleted permission_granted permission_revoked :
      AuditEventType
  resource_created resource_modified resource_deleted query_executed database_created :
      AuditEventType
  database_modified database_deleted table_created table_modified table_deleted data_access :
      AuditEventType
  data_modification configuration_change encryption_key_rotation backup_created backup_restored :
      AuditEventType
  system_error system_startup system_shutdown quantum_circuit_execution distributed_consensus :
      AuditEventType
  quantum_state_access compliance_check : AuditEventType

-- The member with its name, in the order of the declaration
abbrev pub members : List (String × AuditEventType)
members =
    ("LOGIN", login)
    ∷ ("LOGOUT", logout)
    ∷ ("AUTHENTICATION_FAILURE", authentication_failure)
    ∷ ("AUTHORIZATION_FAILURE", authorization_failure)
    ∷ ("USER_CREATED", user_created)
    ∷ ("USER_MODIFIED", user_modified)
    ∷ ("USER_DELETED", user_deleted)
    ∷ ("ROLE_CREATED", role_created)
    ∷ ("ROLE_MODIFIED", role_modified)
    ∷ ("ROLE_DELETED", role_deleted)
    ∷ ("PERMISSION_GRANTED", permission_granted)
    ∷ ("PERMISSION_REVOKED", permission_revoked)
    ∷ ("RESOURCE_CREATED", resource_created)
    ∷ ("RESOURCE_MODIFIED", resource_modified)
    ∷ ("RESOURCE_DELETED", resource_deleted)
    ∷ ("QUERY_EXECUTED", query_executed)
    ∷ ("DATABASE_CREATED", database_created)
    ∷ ("DATABASE_MODIFIED", database_modified)
    ∷ ("DATABASE_DELETED", database_deleted)
    ∷ ("TABLE_CREATED", table_created)
    ∷ ("TABLE_MODIFIED", table_modified)
    ∷ ("TABLE_DELETED", table_deleted)
    ∷ ("DATA_ACCESS", data_access)
    ∷ ("DATA_MODIFICATION", data_modification)
    ∷ ("CONFIGURATION_CHANGE", configuration_change)
    ∷ ("ENCRYPTION_KEY_ROTATION", encryption_key_rotation)
    ∷ ("BACKUP_CREATED", backup_created)
    ∷ ("BACKUP_RESTORED", backup_restored)
    ∷ ("SYSTEM_ERROR", system_error)
    ∷ ("SYSTEM_STARTUP", system_startup)
    ∷ ("SYSTEM_SHUTDOWN", system_shutdown)
    ∷ ("QUANTUM_CIRCUIT_EXECUTION", quantum_circuit_execution)
    ∷ ("DISTRIBUTED_CONSENSUS", distributed_consensus)
    ∷ ("QUANTUM_STATE_ACCESS", quantum_state_access)
    ∷ ("COMPLIANCE_CHECK", compliance_check)
    ∷ []

abbrev pub name : AuditEventType → String
name login = "LOGIN"
name logout = "LOGOUT"
name authentication_failure = "AUTHENTICATION_FAILURE"
name authorization_failure = "AUTHORIZATION_FAILURE"
name user_created = "USER_CREATED"
name user_modified = "USER_MODIFIED"
name user_deleted = "USER_DELETED"
name role_created = "ROLE_CREATED"
name role_modified = "ROLE_MODIFIED"
name role_deleted = "ROLE_DELETED"
name permission_granted = "PERMISSION_GRANTED"
name permission_revoked = "PERMISSION_REVOKED"
name resource_created = "RESOURCE_CREATED"
name resource_modified = "RESOURCE_MODIFIED"
name resource_deleted = "RESOURCE_DELETED"
name query_executed = "QUERY_EXECUTED"
name database_created = "DATABASE_CREATED"
name database_modified = "DATABASE_MODIFIED"
name database_deleted = "DATABASE_DELETED"
name table_created = "TABLE_CREATED"
name table_modified = "TABLE_MODIFIED"
name table_deleted = "TABLE_DELETED"
name data_access = "DATA_ACCESS"
name data_modification = "DATA_MODIFICATION"
name configuration_change = "CONFIGURATION_CHANGE"
name encryption_key_rotation = "ENCRYPTION_KEY_ROTATION"
name backup_created = "BACKUP_CREATED"
name backup_restored = "BACKUP_RESTORED"
name system_error = "SYSTEM_ERROR"
name system_startup = "SYSTEM_STARTUP"
name system_shutdown = "SYSTEM_SHUTDOWN"
name quantum_circuit_execution = "QUANTUM_CIRCUIT_EXECUTION"
name distributed_consensus = "DISTRIBUTED_CONSENSUS"
name quantum_state_access = "QUANTUM_STATE_ACCESS"
name compliance_check = "COMPLIANCE_CHECK"

abbrev find_member : String → List (String × AuditEventType) → Option AuditEventType
find_member text [] = none
find_member text ((n, t) ∷ more) = if is_upper_of text n then some t else find_member text more

-- `from_string`: none is a KeyError.
unfoldable pub from_string : String → Option AuditEventType
from_string text = find_member text members

pub record AuditEvent (V : Type 0) : Type 0 where
  pub event_id : String
  pub event_type : AuditEventType
  pub timestamp : ℕ
  pub user_id : String
  pub resource_id : Option String
  pub details : Dict String V
  pub source_ip : Option String
  pub source_hostname : Option String
  pub success : Bool
  pub process_id : ℕ
  pub thread_id : ℕ
  pub severity : String
  pub query_plan : Option String

-- The dictionary of an event: a field that from_dict reads by `get` may be missing.
pub record EventData (V : Type 0) : Type 0 where
  pub event_id : String
  pub event_type : String
  pub timestamp : ℕ
  pub user_id : String
  pub resource_id : Option String
  pub details : Option (Dict String V)
  pub source_ip : Option String
  pub source_hostname : Option String
  pub success : Option Bool
  pub process_id : Option ℕ
  pub thread_id : Option ℕ
  pub severity : Option String
  pub query_plan : Option String

abbrev get_or {ℓ} : {A : Type ℓ} → Option A → A → A
get_or none a = a
get_or (some b) a = b

module _ {V : Type 0} where
  -- The identifier is drawn at random, and the time read from the clock.
  unfoldable pub new_event :
      (event_id : String) (now process_id thread_id : ℕ)
      → AuditEventType
      → (user_id : String) → (resource_id : Option String) → AuditEvent V
  new_event event_id now process_id thread_id event_type user_id resource_id = record {
    event_id = event_id;
    event_type = event_type;
    timestamp = now;
    user_id = user_id;
    resource_id = resource_id;
    details = [];
    source_ip = none;
    source_hostname = none;
    success = true;
    process_id = process_id;
    thread_id = thread_id;
    severity = "INFO";
    query_plan = none;
  }

  unfoldable pub add_detail : String → V → AuditEvent V → AuditEvent V
  add_detail key value e = record e { details = insert key value e.details }

  unfoldable pub set_source : String → Option String → AuditEvent V → AuditEvent V
  set_source ip hostname e = record e { source_ip = some ip; source_hostname = hostname }

  unfoldable pub set_success : Bool → AuditEvent V → AuditEvent V
  set_success success e = record e {
    success = success;
    severity = if not success then "WARNING" else e.severity;
  }

  unfoldable pub set_severity : String → AuditEvent V → AuditEvent V
  set_severity severity e = record e { severity = severity }

  unfoldable pub set_query_plan : String → AuditEvent V → AuditEvent V
  set_query_plan plan e = record e { query_plan = some plan }

  unfoldable pub to_dict : AuditEvent V → EventData V
  to_dict e = record {
    event_id = e.event_id;
    event_type = name e.event_type;
    timestamp = e.timestamp;
    user_id = e.user_id;
    resource_id = e.resource_id;
    details = some e.details;
    source_ip = e.source_ip;
    source_hostname = e.source_hostname;
    success = some e.success;
    process_id = some e.process_id;
    thread_id = some e.thread_id;
    severity = some e.severity;
    query_plan = e.query_plan;
  }

  abbrev of_type : EventData V → AuditEventType → AuditEvent V
  of_type d event_type = record {
    event_id = d.event_id;
    event_type = event_type;
    timestamp = d.timestamp;
    user_id = d.user_id;
    resource_id = d.resource_id;
    details = get_or d.details [];
    source_ip = d.source_ip;
    source_hostname = d.source_hostname;
    success = get_or d.success true;
    process_id = get_or d.process_id 0;
    thread_id = get_or d.thread_id 0;
    severity = get_or d.severity "INFO";
    query_plan = d.query_plan;
  }

  -- none is the KeyError of a type that there is not.
  unfoldable pub from_dict : EventData V → Option (AuditEvent V)
  unfolding from_string
  from_dict d = elim (from_string d.event_type) [
    | none ↦ none
    | some event_type ↦ some (of_type d event_type)
  ]
