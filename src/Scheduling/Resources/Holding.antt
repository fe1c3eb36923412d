-- ===== src/Scheduling/Resources/Holding.antt =====
-- What running jobs hold: the manager's counters and its set agree with the jobs that have been given
-- qubits and have not returned them, and no two of these share a qubit.
use quantum_database.Prelude.{
  some_injective, ℕ, pos, negsuc, ◌+ℤ◌, zero, suc, ◌+◌, ◌≤◌, ◌<◌, ◌≡◌, refl, ◌∙◌, sym, ap, Bool,
  true, false, not, ◌&&◌, Option, none, some, List, [], ◌∷◌, leb→le, arith, contains,
  contains-append, filter, any, length, Bool-cases, Option-cases, inl, inr, ◌==◌, nat_key, All,
  and_parts, subst,
}
use quantum_database.Scheduling.Job.{QuantumJob}
use quantum_database.Scheduling.Resources.{
  ResourceManager, range, next_free_block, can_allocate, allocate, release, assign, new_manager,
}
use quantum_database.Scheduling.Resources.Blocks.{Free, next_free_block-Free, next_free_block-none}

abbrev pub qubits : List QuantumJob → ℕ
qubits [] = 0
qubits (j ∷ js) = j.qubit_count + qubits js

abbrev pub is_held : ℕ → List QuantumJob → Bool
is_held q js = any (λ j. contains q j.assigned_qubits) js

abbrev pub SharesNone : QuantumJob → QuantumJob → Type 0
SharesNone a b =
    (q : ℕ) → contains q a.assigned_qubits ≡ true → contains q b.assigned_qubits ≡ false

abbrev pub Apart : List QuantumJob → Type 0
Apart [] = Unit
Apart (j ∷ js) = All (SharesNone j) js × Apart js

pub record IsSound (m : ResourceManager) (held : List QuantumJob) : Type 0 where
  pub counted : m.available_qubits + qubits held ≡ m.total_qubits
  pub running : m.running_jobs ≡ pos (length held)
  pub covered : (q : ℕ) → contains q m.in_use ≡ is_held q held
  pub apart : Apart held
  pub within : (q : ℕ) → contains q m.in_use ≡ true → q < m.total_qubits

contains-range : (q s n : ℕ) → contains q (range s n) ≡ true → (s ≤ q) × (q < s + n)
unfolding range
contains-range q s zero h = absurd (cc)
contains-range q s (suc n) h = elim (Bool-cases (q == s)) [
  | inl same ↦ let e = (nat_key.same_iff q s).0 same in (omega (arith, e), omega (arith, e))
  | inr other ↦
      let r = contains-range q (suc s) n (ground (arith, other)) in
      (omega (arith, r.0), omega (arith, r.1))
]

contains-filter :
    (p : ℕ → Bool) (q : ℕ) (xs : List ℕ) → contains q (filter p xs) ≡ (contains q xs && p q)
contains-filter p q [] = refl
contains-filter p q (x ∷ xs) = ground (arith, contains-filter p q xs, nat_key.same_iff q x)

-- Qubits that nothing holds are shared with nothing.
unheld-SharesNone :
    (j : QuantumJob) (held : List QuantumJob)
    → ((q : ℕ) → contains q j.assigned_qubits ≡ true → is_held q held ≡ false)
    → All (SharesNone j) held
unheld-SharesNone j [] h = tt
unheld-SharesNone j (k ∷ held) h = (
  (λ q own. let none_held = h q own in ground arith),
  unheld-SharesNone j held (λ q own. let none_held = h q own in ground arith),
)

one_more : (n : ℕ) → pos n +ℤ pos 1 ≡ pos (suc n)
one_more n = ground arith

one_fewer : (n k : ℕ) → suc k ≡ n → pos n +ℤ negsuc 0 ≡ pos k
one_fewer zero k e = absurd (omega (arith, e))
one_fewer (suc n) k e = ground (arith, e)

assign-IsSound :
    (s : ℕ) (job : QuantumJob) (m : ResourceManager) (held : List QuantumJob)
    → job.qubit_count ≤ m.available_qubits
    → s + job.qubit_count ≤ m.total_qubits
    → Free m.in_use s (s + job.qubit_count)
    → IsSound m held
    → IsSound (assign s job m).0 ((assign s job m).1 ∷ held)
assign-IsSound s job m held enough inside free ok = record {
  counted = omega (arith, ok.counted);
  running = ap (λ r. r +ℤ pos 1) ok.running ∙ one_more (length held);
  covered = λ q.
      let both = contains-append q m.in_use (range s job.qubit_count) in
      let old = ok.covered q in ground (arith, both, old);
  apart = (
    unheld-SharesNone (assign s job m).1 held (λ q own.
        let r = contains-range q s job.qubit_count own in sym (ok.covered q) ∙ free q r.0 r.1),
    ok.apart,
  );
  within = λ q h. elim (Bool-cases (contains q m.in_use)) [
    | inl old ↦ ok.within q old
    | inr new ↦
        let both = contains-append q m.in_use (range s job.qubit_count) in
        let own : contains q (range s job.qubit_count) ≡ true = ground (arith, both) in
        let r = contains-range q s job.qubit_count own in omega (arith, r.1)
  ];
}

pub new_manager-IsSound :
    (total_qubits max_parallel_jobs : ℕ) → IsSound (new_manager total_qubits max_parallel_jobs) []
new_manager-IsSound total_qubits max_parallel_jobs = record {
  counted = omega arith;
  running = refl;
  covered = λ q. refl;
  apart = tt;
  within = λ q h. absurd (cc);
}

allocate-assign :
    (job job' : QuantumJob) (m m' : ResourceManager)
    → allocate job m ≡ some (m', job')
    → (s : ℕ) × (can_allocate job m ≡ true)
      × (next_free_block job.qubit_count m ≡ some s)
      × ((m', job') ≡ assign s job m)
unfolding allocate
allocate-assign job job' m m' e = elim (Bool-cases (can_allocate job m)) [
  | inr b ↦ absurd (cc)
  | inl b ↦ elim (Option-cases (next_free_block job.qubit_count m)) [
    | inl f ↦ absurd (cc)
    | inr (s, f) ↦ (s, b, f, cc)
  ]
]

-- A job that is given qubits joins those that hold some: the counters and the set of qubits still
-- agree with the jobs, and it shares no qubit with another.
pub allocate-IsSound :
    (job job' : QuantumJob) (m m' : ResourceManager) (held : List QuantumJob)
    → IsSound m held
    → allocate job m ≡ some (m', job')
    → IsSound m' (job' ∷ held)
unfolding can_allocate
allocate-IsSound job job' m m' held ok e =
    let (s, can, found, same) = allocate-assign job job' m m' e in
    let r = next_free_block-Free job.qubit_count s m found in
    subst (λ (p : ResourceManager × QuantumJob). IsSound p.0 (p.1 ∷ held)) (sym same)
      (assign-IsSound s job m held (leb→le _ _ (and_parts _ _ can).0) r.0 r.1 ok)

-- A job that the counters admit is refused only if no block of its size, which is not 0, is free.
pub allocate-refused :
    (job : QuantumJob) (m : ResourceManager) (s : ℕ)
    → 0 < job.qubit_count
    → can_allocate job m ≡ true
    → allocate job m ≡ none
    → s + job.qubit_count ≤ m.total_qubits
    → ¬ Free m.in_use s (s + job.qubit_count)
unfolding allocate
allocate-refused job m s some_size can e within =
    elim (Option-cases (next_free_block job.qubit_count m)) [
      | inl f ↦ next_free_block-none job.qubit_count s m some_size f within
      | inr (t, f) ↦ absurd (cc)
    ]

abbrev pub get_job? : List QuantumJob → ℕ → Option QuantumJob
get_job? [] i = none
get_job? (j ∷ js) zero = some j
get_job? (j ∷ js) (suc i) = get_job? js i

-- The jobs without the one at a position.
abbrev pub remove_at : ℕ → List QuantumJob → List QuantumJob
remove_at i [] = []
remove_at zero (j ∷ js) = js
remove_at (suc i) (j ∷ js) = j ∷ remove_at i js

held_elsewhere :
    (q : ℕ) (j : QuantumJob) (js : List QuantumJob)
    → All (SharesNone j) js
    → contains q j.assigned_qubits ≡ true
    → is_held q js ≡ false
held_elsewhere q j [] h own = refl
held_elsewhere q j (k ∷ js) h own =
    let first = h.0 q own in
    let others = held_elsewhere q j js h.1 own in ground (arith, first, others)

module _ (job : QuantumJob) where
  All-get :
      (P : QuantumJob → Type 0) (i : ℕ) (js : List QuantumJob)
      → get_job? js i ≡ some job
      → All P js
      → P job
  All-get P i [] e h = absurd (cc)
  All-get P zero (j ∷ js) e h = subst P (some_injective e) h.0
  All-get P (suc i) (j ∷ js) e h = All-get P i js e h.1

  All-remove_at :
      (P : QuantumJob → Type 0) (i : ℕ) (js : List QuantumJob) → All P js → All P (remove_at i js)
  All-remove_at P i [] h = tt
  All-remove_at P zero (j ∷ js) h = h.1
  All-remove_at P (suc i) (j ∷ js) h = (h.0, All-remove_at P i js h.1)

  Apart-remove_at : (i : ℕ) (js : List QuantumJob) → Apart js → Apart (remove_at i js)
  Apart-remove_at i [] h = tt
  Apart-remove_at zero (j ∷ js) h = h.1
  Apart-remove_at (suc i) (j ∷ js) h =
      (All-remove_at (SharesNone j) i js h.0, Apart-remove_at i js h.1)

  qubits-remove_at :
      (i : ℕ) (js : List QuantumJob)
      → get_job? js i ≡ some job
      → (qubits (remove_at i js) + job.qubit_count ≡ qubits js)
        × (suc (length (remove_at i js)) ≡ length js)
  qubits-remove_at i [] e = absurd (cc)
  qubits-remove_at zero (j ∷ js) e =
      let same = ap (λ (k : QuantumJob). k.qubit_count) (some_injective e) in
      (omega (arith, same), refl)
  qubits-remove_at (suc i) (j ∷ js) e =
      let r = qubits-remove_at i js e in (omega (arith, r.0), omega (arith, r.1))

  -- Apart from the released job's qubits, the rest hold what they held.
  is_held-remove_at :
      (q i : ℕ) (js : List QuantumJob)
      → get_job? js i ≡ some job
      → Apart js
      → (is_held q js && not (contains q job.assigned_qubits)) ≡ is_held q (remove_at i js)
  is_held-remove_at q i [] e h = refl
  is_held-remove_at q zero (j ∷ js) e h =
      let same = ap (λ (k : QuantumJob). contains q k.assigned_qubits) (some_injective e) in
      let clear = held_elsewhere q j js h.0 in ground (arith, same, clear)
  is_held-remove_at q (suc i) (j ∷ js) e h =
      let ih = is_held-remove_at q i js e h.1 in
      let clear = All-get (SharesNone j) i js e h.0 q in ground (arith, ih, clear)

  -- If the counters and the set of qubits agree with the jobs that hold some, no two of which share one:
  -- when one of these jobs returns its qubits, they agree with the other jobs.
  pub release-IsSound :
      (i : ℕ) (m : ResourceManager) (held : List QuantumJob)
      → IsSound m held
      → get_job? held i ≡ some job
      → IsSound (release job m) (remove_at i held)
  unfolding release
  release-IsSound i m held ok e =
      let fewer = qubits-remove_at i held e in
      record {
        counted = omega (arith, fewer.0, ok.counted);
        running = ap (λ r. r +ℤ negsuc 0) ok.running ∙ one_fewer _ _ fewer.1;
        covered = λ q.
            contains-filter (λ q. not (contains q job.assigned_qubits)) q m.in_use
            ∙ ap (λ b. b && not (contains q job.assigned_qubits)) (ok.covered q)
            ∙ is_held-remove_at q i held e ok.apart;
        apart = Apart-remove_at i held ok.apart;
        within = λ q h. ok.within q (
            (and_parts _ _ (
              sym (contains-filter (λ q. not (contains q job.assigned_qubits)) q m.in_use) ∙ h)).0);
      }
