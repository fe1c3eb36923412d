-- ===== src/Audit/Event/Printing.antt =====
-- qndb/security/audit/events.py: `to_dict` and `from_dict`.
use quantum_database.Prelude.{◌≡◌, refl, some, ap, arith}
use quantum_database.Audit.Event.{
  AuditEventType, login, logout, authentication_failure, authorization_failure, user_created,
  user_modified, user_deleted, role_created, role_modified, role_deleted, permission_granted,
  permission_revoked, resource_created, resource_modified, resource_deleted, query_executed,
  database_created, database_modified, database_deleted, table_created, table_modified,
  table_deleted, data_access, data_modification, configuration_change, encryption_key_rotation,
  backup_created, backup_restored, system_error, system_startup, system_shutdown,
  quantum_circuit_execution, distributed_consensus, quantum_state_access, compliance_check, name,
  from_string, AuditEvent, to_dict, from_dict,
}

pub from_string-name : (t : AuditEventType) → from_string (name t) ≡ some t
unfolding from_string
from_string-name login = refl
from_string-name logout = refl
from_string-name authentication_failure = refl
from_string-name authorization_failure = refl
from_string-name user_created = refl
from_string-name user_modified = refl
from_string-name user_deleted = refl
from_string-name role_created = refl
from_string-name role_modified = refl
from_string-name role_deleted = refl
from_string-name permission_granted = refl
from_string-name permission_revoked = refl
from_string-name resource_created = refl
from_string-name resource_modified = refl
from_string-name resource_deleted = refl
from_string-name query_executed = refl
from_string-name database_created = refl
from_string-name database_modified = refl
from_string-name database_deleted = refl
from_string-name table_created = refl
from_string-name table_modified = refl
from_string-name table_deleted = refl
from_string-name data_access = refl
from_string-name data_modification = refl
from_string-name configuration_change = refl
from_string-name encryption_key_rotation = refl
from_string-name backup_created = refl
from_string-name backup_restored = refl
from_string-name system_error = refl
from_string-name system_startup = refl
from_string-name system_shutdown = refl
from_string-name quantum_circuit_execution = refl
from_string-name distributed_consensus = refl
from_string-name quantum_state_access = refl
from_string-name compliance_check = refl

module _ {V : Type 0} where
  pub from_dict-to_dict : (e : AuditEvent V) → from_dict (to_dict e) ≡ some e
  unfolding from_dict to_dict
  from_dict-to_dict e = rw (from_dict, from_string-name e.event_type) refl

  -- Different events have different dictionaries.
  pub to_dict_inj : (e f : AuditEvent V) → to_dict e ≡ to_dict f → e ≡ f
  to_dict_inj e f h = grind (arith, from_dict-to_dict e, from_dict-to_dict f, ap from_dict h)
