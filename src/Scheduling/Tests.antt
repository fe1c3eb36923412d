-- ===== src/Scheduling/Tests.antt =====
-- Runs on a machine of six qubits, and the theorems at small inputs.
use quantum_database.Prelude.{ℕ, pos, ◌≡◌, refl, none, some, List, [], ◌∷◌, arith}
use quantum_database.Scheduling.Job.{QuantumJob, normal, new_job}
use quantum_database.Scheduling.Quota
use quantum_database.Scheduling.Quota.{QueueMonitor, new_quota}
use quantum_database.Scheduling.Quota.Limits
use quantum_database.Scheduling.Quota.Limits.{Use, ask, give_back, use_all, IsWithin, check_all}
use quantum_database.Scheduling.Resources
use quantum_database.Scheduling.Resources.{ResourceManager, new_manager, range}
use quantum_database.Scheduling.Resources.Holding
use quantum_database.Scheduling.Resources.Holding.{IsSound}

program : Unit {0}
unfolding range Resources.can_allocate Resources.allocate Resources.release
    Resources.next_free_block use_all Quota.check check_all Quota.can_allocate
program = tt

abbrev job : ℕ → QuantumJob
job n = new_job "j" (record { total_qubits = some n; circuits = [] }) normal none none 60 0

abbrev six : ResourceManager
six = new_manager 6 5

abbrev pair_held : QuantumJob
pair_held = record (job 2) { assigned_qubits = 0 ∷ 1 ∷ [] }

abbrev used : ResourceManager
used = record six { available_qubits = 4; running_jobs = pos 1; in_use = 0 ∷ 1 ∷ [] }

used-IsSound : IsSound used (pair_held ∷ [])
unfolding program
used-IsSound =
    Holding.allocate-IsSound (job 2) pair_held six used [] (Holding.new_manager-IsSound 6 5) refl

abbrev triple_held : QuantumJob
triple_held = record (job 3) { assigned_qubits = 2 ∷ 3 ∷ 4 ∷ [] }

abbrev full : ResourceManager
full = record six { available_qubits = 1; running_jobs = pos 2; in_use = 0 ∷ 1 ∷ 2 ∷ 3 ∷ 4 ∷ [] }

full-IsSound : IsSound full (triple_held ∷ pair_held ∷ [])
unfolding program
full-IsSound =
    Holding.allocate-IsSound (job 3) triple_held used full (pair_held ∷ []) used-IsSound refl

allocate-IsSound_example : IsSound full (triple_held ∷ pair_held ∷ [])
unfolding program
allocate-IsSound_example =
    Holding.allocate-IsSound (job 3) triple_held used full (pair_held ∷ []) used-IsSound refl

release-IsSound_example : IsSound (Resources.release pair_held full) (triple_held ∷ [])
release-IsSound_example =
    Holding.release-IsSound pair_held 1 full (triple_held ∷ pair_held ∷ []) full-IsSound refl

-- Three qubits are left, but no two of them lie together.
abbrev scattered : ResourceManager
scattered = record six { available_qubits = 3; running_jobs = pos 3; in_use = 1 ∷ 3 ∷ 5 ∷ [] }

abbrev uses : List Use
uses = ask 3 ∷ ask 30 ∷ give_back 3 ∷ give_back 3 ∷ ask 5 ∷ []

use_all-IsWithin_example : IsWithin (use_all uses (new_quota "u" 20 3)) 20 3
use_all-IsWithin_example =
    Limits.use_all-IsWithin uses (new_quota "u" 20 3) 20 3 (refl, refl, omega arith, omega arith)

abbrev monitor : QueueMonitor
monitor = record { max_queue_depth = 5; warn_depth = 4; rejected = 0 }

monitor_counts : (check_all (3 ∷ 5 ∷ 4 ∷ 9 ∷ []) monitor).rejected ≡ 2
unfolding program
monitor_counts = refl
