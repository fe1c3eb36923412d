-- ===== src/Scheduling/Resources.antt =====
-- qndb/middleware/scheduling/resources.py: `ResourceManager`. A set of qubits is a list.
pub mod Blocks
pub mod Holding
use quantum_database.Prelude.{
  ℕ, ℤ, pos, negsuc, ◌+ℤ◌, ltb_ℤ, zero, suc, ◌+◌, ◌-◌, Bool, true, false, not, ◌&&◌, Option, none,
  some, List, [], ◌∷◌, ◌++◌, if◌then◌else◌, ltb, leb, contains, filter, any, ◌==◌, nat_key,
}
use quantum_database.Scheduling.Job.{QuantumJob}

pub record ResourceManager : Type 0 where
  pub total_qubits : ℕ
  pub max_parallel_jobs : ℕ
  pub available_qubits : ℕ
  pub running_jobs : ℤ
  pub in_use : List ℕ

abbrev pub new_manager : (total_qubits max_parallel_jobs : ℕ) → ResourceManager
new_manager total_qubits max_parallel_jobs = record {
  total_qubits = total_qubits;
  max_parallel_jobs = max_parallel_jobs;
  available_qubits = total_qubits;
  running_jobs = pos 0;
  in_use = [];
}

-- `range(start, start + size)`
unfoldable pub range : ℕ → ℕ → List ℕ
range start zero = []
range start (suc size) = start ∷ range (suc start) size

abbrev pub is_zero : ℕ → Bool
is_zero zero = true
is_zero (suc n) = false

-- The loop of `_next_free_block` at qubit `i`, with `k` qubits left.
unfoldable pub scan : List ℕ → (size k i run start : ℕ) → Option ℕ
scan in_use size zero i run start = none
scan in_use size (suc k) i run start =
    let used = contains i in_use in
    let start' = if used then start else if is_zero run then i else start in
    let rest = scan in_use size k (suc i) (if used then 0 else suc run) start' in
    if used then rest else if leb size (suc run) then some start' else rest

unfoldable pub next_free_block : ℕ → ResourceManager → Option ℕ
unfolding scan
next_free_block size m = scan m.in_use size m.total_qubits 0 0 0

unfoldable pub can_allocate : QuantumJob → ResourceManager → Bool
can_allocate job m =
    leb job.qubit_count m.available_qubits && ltb_ℤ m.running_jobs (pos m.max_parallel_jobs)

-- The job's assignment of a block and the manager after it.
abbrev pub assign : ℕ → QuantumJob → ResourceManager → ResourceManager × QuantumJob
assign start job m =
    let assigned = range start job.qubit_count in
    (
      record m {
        in_use = m.in_use ++ assigned;
        available_qubits = m.available_qubits - job.qubit_count;
        running_jobs = m.running_jobs +ℤ pos 1;
      },
      record job { assigned_qubits = assigned },
    )

-- `none` is the answer False, which leaves the manager and the job as they are.
unfoldable pub allocate : QuantumJob → ResourceManager → Option (ResourceManager × QuantumJob)
unfolding can_allocate next_free_block
allocate job m =
    if can_allocate job m
    then elim (next_free_block job.qubit_count m) [
      | none ↦ none
      | some start ↦ some (assign start job m)
    ]
    else none

unfoldable pub release : QuantumJob → ResourceManager → ResourceManager
release job m = record m {
  in_use = filter (λ q. not (contains q job.assigned_qubits)) m.in_use;
  available_qubits = m.available_qubits + job.qubit_count;
  running_jobs = m.running_jobs +ℤ negsuc 0;
}

unfoldable pub overlapping_qubits : QuantumJob → List ℕ → Bool
overlapping_qubits job other_qubits = any (λ q. contains q other_qubits) job.assigned_qubits
