-- ===== src/Scheduling/Quota.antt =====
-- qndb/middleware/scheduling/quota.py and monitor.py: what a tenant may use, and backpressure.
pub mod Limits
use quantum_database.Prelude.{
  ℕ, suc, ◌+◌, ◌-◌, ◌*◌, ◌≤◌, ◌<◌, ◌≡◌, refl, String, Bool, true, false, ◌&&◌, List, [], ◌∷◌, ◌++◌,
  if◌then◌else◌, ltb, leb, arith, Bool-cases, inl, inr, and_parts, ltb→lt,
}

pub record ResourceQuota : Type 0 where
  pub user_id : String
  pub max_qubits : ℕ
  pub max_concurrent_jobs : ℕ
  pub used_qubits : ℕ
  pub running_jobs : ℕ

abbrev pub new_quota : String → (max_qubits max_concurrent_jobs : ℕ) → ResourceQuota
new_quota user_id max_qubits max_concurrent_jobs = record {
  user_id = user_id;
  max_qubits = max_qubits;
  max_concurrent_jobs = max_concurrent_jobs;
  used_qubits = 0;
  running_jobs = 0;
}

unfoldable pub can_allocate : ℕ → ResourceQuota → Bool
can_allocate qubits q =
    leb (q.used_qubits + qubits) q.max_qubits && ltb q.running_jobs q.max_concurrent_jobs

unfoldable pub allocate : ℕ → ResourceQuota → ResourceQuota
allocate qubits q = record q {
  used_qubits = q.used_qubits + qubits;
  running_jobs = q.running_jobs + 1;
}

-- Subtraction that stops at 0, as the source's `max(0, ...)`.
unfoldable pub release : ℕ → ResourceQuota → ResourceQuota
release qubits q = record q {
  used_qubits = q.used_qubits - qubits;
  running_jobs = q.running_jobs - 1;
}

pub data Verdict : Type 0 where
  accept warn reject : Verdict

-- `warn_depth` is `int(max_queue_depth * warn_threshold)`, a product of floats.
pub record QueueMonitor : Type 0 where
  pub max_queue_depth : ℕ
  pub warn_depth : ℕ
  pub rejected : ℕ

unfoldable pub check : ℕ → QueueMonitor → QueueMonitor × Verdict
check current_depth m =
    if leb m.max_queue_depth current_depth
    then (record m { rejected = m.rejected + 1 }, reject)
    else if leb m.warn_depth current_depth
    then (m, warn)
    else (m, accept)
