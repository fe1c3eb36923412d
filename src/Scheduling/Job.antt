-- ===== src/Scheduling/Job.antt =====
-- qndb/middleware/scheduling/job.py and enums.py: `QuantumJob`. A query is reduced to what the
-- constructor reads of it, results and errors are texts, and times are whole seconds.
use quantum_database.Prelude.{
  ℕ, ◌-◌, String, Bool, false, ◌&&◌, Option, none, some, List, [], ◌∷◌, ltb, max,
}

pub data JobStatus : Type 0 where
  queued scheduled running completed failed cancelled preempted : JobStatus

pub data JobPriority : Type 0 where
  low normal high critical : JobPriority

-- The allocated qubits, where both keys are present, and the depth of each circuit.
pub record Query : Type 0 where
  pub total_qubits : Option ℕ
  pub circuits : List (Option ℕ)

pub record QuantumJob : Type 0 where
  pub job_id : String
  pub query : Query
  pub priority : JobPriority
  pub deadline : Option ℕ
  pub user_id : Option String
  pub estimated_runtime : ℕ
  pub status : JobStatus
  pub queued_time : ℕ
  pub start_time : Option ℕ
  pub end_time : Option ℕ
  pub result : Option String
  pub error : Option String
  pub qubit_count : ℕ
  pub circuit_depth : ℕ
  pub assigned_qubits : List ℕ

abbrev or_else : ℕ → Option ℕ → ℕ
or_else n none = n
or_else n (some m) = m

abbrev pub estimate_qubit_count : Query → ℕ
estimate_qubit_count q = or_else 10 q.total_qubits

abbrev deepest : ℕ → List (Option ℕ) → ℕ
deepest n [] = n
deepest n (d ∷ ds) = deepest (max n (or_else 100 d)) ds

abbrev pub estimate_circuit_depth : List (Option ℕ) → ℕ
estimate_circuit_depth [] = 100
estimate_circuit_depth (d ∷ ds) = deepest (or_else 100 d) ds

abbrev pub new_job :
    String
    → Query
    → JobPriority
    → (deadline : Option ℕ) → (user_id : Option String) → (estimated_runtime now : ℕ) → QuantumJob
new_job job_id query priority deadline user_id estimated_runtime now = record {
  job_id = job_id;
  query = query;
  priority = priority;
  deadline = deadline;
  user_id = user_id;
  estimated_runtime = estimated_runtime;
  status = queued;
  queued_time = now;
  start_time = none;
  end_time = none;
  result = none;
  error = none;
  qubit_count = estimate_qubit_count query;
  circuit_depth = estimate_circuit_depth query.circuits;
  assigned_qubits = [];
}

abbrev pub start : ℕ → QuantumJob → QuantumJob
start now j = record j { status = running; start_time = some now }

abbrev pub complete : String → ℕ → QuantumJob → QuantumJob
complete result now j = record j { status = completed; end_time = some now; result = some result }

abbrev pub fail : String → ℕ → QuantumJob → QuantumJob
fail error now j = record j { status = failed; end_time = some now; error = some error }

abbrev pub cancel : ℕ → QuantumJob → QuantumJob
cancel now j = record j { status = cancelled; end_time = some now }

abbrev pub preempt : ℕ → QuantumJob → QuantumJob
preempt now j = record j { status = preempted; end_time = some now }

-- A deadline that has passed is no longer approaching.
abbrev pub is_deadline_approaching : (threshold_seconds now : ℕ) → QuantumJob → Bool
is_deadline_approaching threshold_seconds now j = elim j.deadline [
  | none ↦ false
  | some d ↦ ltb now d && ltb (d - now) threshold_seconds
]
