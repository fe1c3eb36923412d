-- ===== src/Scheduling/Resources/Blocks.antt =====
-- The search for a block of free qubits finds one exactly if there is one.
use quantum_database.Prelude.{
  ℕ, zero, suc, ◌+◌, ◌≤◌, ◌<◌, ◌≡◌, ◌⊎◌, refl, true, false, none, some, List, if◌then◌else◌, leb,
  ltb, ltb→lt, leb→le, arith, contains, Bool-cases, inl, inr, nat_key,
}
use quantum_database.Scheduling.Resources.{ResourceManager, scan, is_zero, next_free_block}

-- No qubit from the first position up to the second is in use.
abbrev pub Free : List ℕ → ℕ → ℕ → Type 0
Free in_use from until = (q : ℕ) → from ≤ q → q < until → contains q in_use ≡ false

-- The run of free qubits that ends before a position.
abbrev Run : List ℕ → (i run start : ℕ) → Type 0
Run in_use i run start = (run ≡ 0) ⊎ ((start + run ≡ i) × Free in_use start i)

below_suc : (q i : ℕ) → q < suc i → (q ≡ i) ⊎ (q < i)
below_suc q i lt = elim (Bool-cases (ltb q i)) [
  | inl b ↦ inr (ltb→lt q i b)
  | inr b ↦ inl (ground arith)
]

Free-suc :
    (in_use : List ℕ) (from i : ℕ)
    → contains i in_use ≡ false
    → Free in_use from i
    → Free in_use from (suc i)
Free-suc in_use from i free f q le lt = elim (below_suc q i lt) [
  | inl same ↦ rw same free
  | inr below ↦ f q le below
]

Run-start :
    (in_use : List ℕ) (i run start : ℕ)
    → contains i in_use ≡ false
    → Run in_use i run start
    → let s = if is_zero run then i else start in (s + suc run ≡ suc i) × Free in_use s (suc i)
Run-start in_use i zero start free h =
    (omega arith, Free-suc in_use i i free (λ q le lt. absurd (omega arith)))
Run-start in_use i (suc run) start free (inl z) = absurd (omega arith)
Run-start in_use i (suc run) start free (inr (e, f)) = (omega arith, Free-suc in_use start i free f)

scan-Free :
    (in_use : List ℕ) (size k i run start s : ℕ)
    → Run in_use i run start
    → scan in_use size k i run start ≡ some s
    → (s + size ≤ i + k) × Free in_use s (s + size)
unfolding scan
scan-Free in_use size zero i run start s h = λ e. absurd (cc)
scan-Free in_use size (suc k) i run start s h = elim (Bool-cases (contains i in_use)) [
  | inl used ↦ rw used (λ e.
      let r = scan-Free in_use size k (suc i) 0 start s (inl refl) e in (omega (arith, r.0), r.1))
  | inr free ↦
      let s' = if is_zero run then i else start in
      let (ends, clear) = Run-start in_use i run start free h in
      elim (Bool-cases (leb size (suc run))) [
        | inl fits ↦
            rw (free, fits)
              (λ e.
                let le = leb→le size (suc run) fits in
                let same : s' ≡ s = cc in
                rw (← same)
                  (omega (arith, ends, le), λ q from until. clear q from (omega (arith, ends, le))))
        | inr small ↦
            rw (free, small)
              (λ e.
                let r = scan-Free in_use size k (suc i) (suc run) s' s (inr (ends, clear)) e in
                (omega (arith, r.0), r.1))
      ]
]

-- No free qubits before a position start earlier than the run that is counted.
abbrev IsLongest : List ℕ → (i run : ℕ) → Type 0
IsLongest in_use i run = (s : ℕ) → s ≤ i → Free in_use s i → i ≤ s + run

IsLongest-free :
    (in_use : List ℕ) (i run : ℕ) → IsLongest in_use i run → IsLongest in_use (suc i) (suc run)
IsLongest-free in_use i run h s le f = elim (below_suc s (suc i) (omega arith)) [
  | inl same ↦ omega arith
  | inr below ↦ omega (arith, h s (omega arith) (λ q from lt. f q from (omega arith)))
]

IsLongest-used : (in_use : List ℕ) (i : ℕ) → contains i in_use ≡ true → IsLongest in_use (suc i) 0
IsLongest-used in_use i used s le f = elim (below_suc s (suc i) (omega arith)) [
  | inl same ↦ omega arith
  | inr below ↦
      let free : contains i in_use ≡ false = f i (omega arith) (omega arith) in
      absurd (cc (used, free))
]

scan-none :
    (in_use : List ℕ) (size k i run start s : ℕ)
    → 0 < size
    → IsLongest in_use i run
    → scan in_use size k i run start ≡ none
    → i < s + size
    → s + size ≤ i + k
    → Free in_use s (s + size)
    → ⊥
unfolding scan
scan-none in_use size zero i run start s some_size h = λ e past within f. absurd (omega arith)
scan-none in_use size (suc k) i run start s some_size h = elim (Bool-cases (contains i in_use)) [
  | inl used ↦ rw used (λ e past within f. elim (Bool-cases (leb s i)) [
    | inl b ↦ let free = f i (leb→le s i b) past in absurd (cc (used, free))
    | inr later ↦
        scan-none in_use size k (suc i) 0 start s some_size (IsLongest-used in_use i used) e
          (ground arith) (omega arith) f
  ])
  | inr free ↦ elim (Bool-cases (leb size (suc run))) [
    | inl fits ↦ rw (free, fits) (λ e past within f. absurd (cc))
    | inr small ↦
        rw (free, small)
          (λ e past within f.
            let more : suc run < size = ground arith in
            elim (Bool-cases (ltb (suc i) (s + size))) [
              | inl b ↦
                  scan-none in_use size k (suc i) (suc run) (if is_zero run then i else start) s
                    some_size (IsLongest-free in_use i run h) e (ltb→lt (suc i) (s + size) b)
                    (omega arith) f
              | inr b ↦
                  let last : s + size ≤ suc i = ground arith in
                  let le = h s (omega arith) (λ q from lt. f q from (omega arith)) in
                  absurd (omega arith)
            ])
  ]
]

-- The block found lies among the qubits, and none of its qubits is in use.
pub next_free_block-Free :
    (size s : ℕ) (m : ResourceManager)
    → next_free_block size m ≡ some s
    → (s + size ≤ m.total_qubits) × Free m.in_use s (s + size)
unfolding next_free_block
next_free_block-Free size s m e =
    let r = scan-Free m.in_use size m.total_qubits 0 0 0 s (inl refl) e in (omega (arith, r.0), r.1)

-- If no block is found, no block of that size among the qubits is free; the size is not 0.
pub next_free_block-none :
    (size s : ℕ) (m : ResourceManager)
    → 0 < size
    → next_free_block size m ≡ none
    → s + size ≤ m.total_qubits
    → ¬ Free m.in_use s (s + size)
unfolding next_free_block
next_free_block-none size s m some_size e within =
    scan-none m.in_use size m.total_qubits 0 0 0 s some_size (λ p le f. omega arith) e (omega arith)
      (omega arith)
