-- ===== src/Scheduling/Quota/Limits.antt =====
-- A tenant's quota over a sequence of jobs, and the monitor's count over a sequence of checks.
use quantum_database.Prelude.{
  ℕ, suc, ◌+◌, ◌≤◌, ◌≡◌, ◌∙◌, ap, List, [], ◌∷◌, if◌then◌else◌, leb, arith, Bool-cases, inl, inr,
  length, filter,
}
use quantum_database.Scheduling.Quota.{
  ResourceQuota, can_allocate, allocate, release, QueueMonitor, check,
}

-- What the scheduler does with a quota: it asks and then allocates for a job, or releases.
pub data Use : Type 0 where
  ask give_back : ℕ → Use

unfoldable pub use_quota : Use → ResourceQuota → ResourceQuota
use_quota (ask n) q = if can_allocate n q then allocate n q else q
use_quota (give_back n) q = release n q

unfoldable pub use_all : List Use → ResourceQuota → ResourceQuota
unfolding use_quota
use_all [] q = q
use_all (u ∷ us) q = use_all us (use_quota u q)

-- The tenant is within the limits `n` and `k`, which are those of the quota.
abbrev pub IsWithin : ResourceQuota → (n k : ℕ) → Type 0
IsWithin q n k =
    (q.max_qubits ≡ n) × (q.max_concurrent_jobs ≡ k) × (q.used_qubits ≤ n) × (q.running_jobs ≤ k)

use_quota-IsWithin :
    (u : Use) (q : ResourceQuota) (n k : ℕ) → IsWithin q n k → IsWithin (use_quota u q) n k
unfolding use_quota can_allocate allocate release
use_quota-IsWithin (ask a) q n k h = elim (Bool-cases (can_allocate a q)) [
  | inl b ↦ rw b (h.0, h.1, ground arith, ground arith)
  | inr b ↦ rw b h
]
use_quota-IsWithin (give_back a) q n k h = (h.0, h.1, omega arith, omega arith)

-- A tenant that is within its limits stays within them, whatever jobs ask for qubits and give them
-- back, and the limits stay.
pub use_all-IsWithin :
    (us : List Use) (q : ResourceQuota) (n k : ℕ) → IsWithin q n k → IsWithin (use_all us q) n k
unfolding use_all
use_all-IsWithin [] q n k h = h
use_all-IsWithin (u ∷ us) q n k h =
    use_all-IsWithin us (use_quota u q) n k (use_quota-IsWithin u q n k h)

unfoldable pub check_all : List ℕ → QueueMonitor → QueueMonitor
unfolding check
check_all [] m = m
check_all (d ∷ ds) m = check_all ds (check d m).0

check_counts :
    (d : ℕ) (m : QueueMonitor)
    → ((check d m).0.rejected ≡ (if leb m.max_queue_depth d then suc m.rejected else m.rejected))
      × ((check d m).0.max_queue_depth ≡ m.max_queue_depth)
unfolding check
check_counts d m = (ground arith, ground arith)

-- The count of rejections grows by the number of checks at a depth that is not below the limit.
pub check_all-rejected :
    (ds : List ℕ) (m : QueueMonitor)
    → (check_all ds m).rejected ≡ m.rejected + length (filter (λ d. leb m.max_queue_depth d) ds)
unfolding check_all
check_all-rejected [] m = omega arith
check_all-rejected (d ∷ ds) m =
    let (counts, same) = check_counts d m in
    let ih = check_all-rejected ds (check d m).0 in
    let depth : length (filter (λ e. leb (check d m).0.max_queue_depth e) ds)
        ≡ length (filter (λ e. leb m.max_queue_depth e) ds) =
      ap (λ n. length (filter (λ e. leb n e) ds)) same in
    elim (Bool-cases (leb m.max_queue_depth d)) [
      | inl b ↦
          let c : (check d m).0.rejected ≡ suc m.rejected = counts ∙ rw b in
          rw b (omega (arith, ih, depth, c))
      | inr b ↦
          let c : (check d m).0.rejected ≡ m.rejected = counts ∙ rw b in
          rw b (omega (arith, ih, depth, c))
    ]
