-- ===== src/Audit/Sinks/Rotation.antt =====
-- qndb/security/audit/sinks.py: `_rotate_file`, and the size of the current file.
use quantum_database.Prelude.{
  ℕ, zero, suc, ◌+◌, ◌-◌, ◌≤◌, ◌<◌, ◌≡◌, refl, sym, ap, ◌∙◌, Bool-cases, if_ind, true, false,
  Option, none, some, [], ◌∷◌, arith, ◌==◌, nat_key, leb, subst, ◌++◌, Option-cases, inl, inr,
}
use quantum_database.Audit.Event.{AuditEvent}
use quantum_database.Audit.Sinks.{
  Lines, FileAuditEventSink, set, move, shift, rotate_file, written, reopened, write_event,
  total_size,
}

not_last : (max_files i : ℕ) → suc i < max_files → (i == max_files - 1) ≡ false
not_last max_files i lt = ground (arith, lt)

is_last : (k : ℕ) → (suc k == suc (suc k) - 1) ≡ true
is_last k = ground arith

module _ {V : Type 0} where
  -- The copies 1 to i of the first are the copies 2 to i + 1 of the second, which has no copy 1; those after
  -- are the same.
  record Shifted (i : ℕ) (f g : ℕ → Option (Lines V)) : Type 0 where
    freed : g 1 ≡ none
    up : (j : ℕ) → 1 ≤ j → j ≤ i → g (suc j) ≡ f j
    rest : (j : ℕ) → suc i < j → g j ≡ f j

  record Moved (i : ℕ) (f g : ℕ → Option (Lines V)) : Type 0 where
    gone : g i ≡ none
    next : g (suc i) ≡ f i
    others : (j : ℕ) → (j ≡ i → ⊥) → (j ≡ suc i → ⊥) → g j ≡ f j

  set-Moved :
      (i : ℕ) (file : Lines V) (f : ℕ → Option (Lines V))
      → f i ≡ some file
      → Moved i f (set (suc i) (some file) (set i none f))
  set-Moved i file f e = record {
    gone = ground arith;
    next = ground (arith, e);
    others = λ j a b. ground (arith, a, b);
  }

  move-Moved :
      (max_files i : ℕ) (f : ℕ → Option (Lines V))
      → suc i < max_files
      → f (suc i) ≡ none
      → Moved i f (move max_files i f)
  move-Moved max_files i f lt n = elim (Option-cases (f i)) [
    | inl e ↦ rw (move, e) (record { gone = e; next = n ∙ sym e; others = λ j a b. refl })
    | inr (file, e) ↦ rw (move, e) (rw (not_last max_files i lt) (set-Moved i file f e))
  ]

  shift-Shifted :
      (max_files i : ℕ) (f : ℕ → Option (Lines V))
      → suc i < max_files
      → f (suc i) ≡ none
      → Shifted i f (shift max_files i f)
  unfolding shift
  shift-Shifted max_files zero f lt n = record {
    freed = n;
    up = λ j a b. absurd (omega arith);
    rest = λ j a. refl;
  }
  shift-Shifted max_files (suc i) f lt n =
      let m = move-Moved max_files (suc i) f lt n in
      let s = shift-Shifted max_files i (move max_files (suc i) f) (omega arith) m.gone in
      record {
        freed = s.freed;
        up = λ j a b. elim (Bool-cases (j == suc i)) [
          | inl last ↦
              let here = (nat_key.same_iff j (suc i)).0 last in
              subst (λ k. shift max_files i (move max_files (suc i) f) (suc k) ≡ f k) (sym here)
                (s.rest (suc (suc i)) (omega arith) ∙ m.next)
          | inr earlier ↦
              let apart : j ≡ suc i → ⊥ = λ e. cc ((nat_key.same_iff j (suc i)).1 e, earlier) in
              s.up j a (omega (arith, apart)) ∙ m.others j apart (λ e. omega arith)
        ];
        rest = λ j a. s.rest j (omega arith) ∙ m.others j (λ e. omega arith) (λ e. omega arith);
      }

  -- What a rotation made of the copies
  pub record Rotated (s t : FileAuditEventSink V) : Type 0 where
    pub current : t.copies 1 ≡ some s.lines
    pub copies : (j : ℕ) → 1 ≤ j → suc j < s.max_files → t.copies (suc j) ≡ s.copies j
    pub beyond : (j : ℕ) → s.max_files ≤ j → t.copies j ≡ s.copies j

  drop_oldest :
      (k : ℕ) (f : ℕ → Option (Lines V))
      → (move (suc (suc k)) (suc k) f (suc k) ≡ none)
        × ((j : ℕ) → (j ≡ suc k → ⊥) → move (suc (suc k)) (suc k) f j ≡ f j)
  drop_oldest k f = elim (Option-cases (f (suc k))) [
    | inl e ↦ (rw (move, e) e, λ j n. rw (move, e) refl)
    | inr (file, e) ↦
        (rw (move, e, is_last k) (ground arith), λ j n. rw (move, e, is_last k) (ground (arith, n)))
  ]

  shift_all :
      (k j : ℕ) (f : ℕ → Option (Lines V))
      → (1 ≤ j → j ≤ k → shift (suc (suc k)) (suc k) f (suc j) ≡ f j)
        × (suc k < j → shift (suc (suc k)) (suc k) f j ≡ f j)
  unfolding shift
  shift_all k j f =
      let (gone, others) = drop_oldest k f in
      let s = shift-Shifted (suc (suc k)) k (move (suc (suc k)) (suc k) f) (omega arith) gone in
      (
        λ a b. s.up j a b ∙ others j (λ e. omega arith),
        λ a. s.rest j a ∙ others j (λ e. omega arith),
      )

  set_other : (a : Option (Lines V)) (f : ℕ → Option (Lines V)) (j : ℕ) → 1 < j → set 1 a f j ≡ f j
  set_other a f j h = ground (arith, h)

  same_shift :
      {m n k : ℕ} (j : ℕ) (f : ℕ → Option (Lines V))
      → m ≡ suc (suc k)
      → n ≡ suc k
      → shift m n f j ≡ shift (suc (suc k)) (suc k) f j
  same_shift j f e e' = cc

  -- With `max_files` 2 or more, a rotation makes the current file copy 1 and each copy the next one, except
  -- copy `max_files - 1`, which is removed; files with higher numbers stay.
  pub rotate_file-Rotated : (s : FileAuditEventSink V) → 2 ≤ s.max_files → Rotated s (rotate_file s)
  unfolding rotate_file
  rotate_file-Rotated s h =
      let k = s.max_files - 2 in
      let e : s.max_files ≡ suc (suc k) = omega (arith, h) in
      let e' : s.max_files - 1 ≡ suc k = omega (arith, h) in
      record {
        current = refl;
        copies = λ j a b.
            set_other (some s.lines) (shift s.max_files (s.max_files - 1) s.copies) (suc j)
              (omega arith)
            ∙ same_shift (suc j) s.copies e e'
            ∙ (shift_all k j s.copies).0 a (omega arith);
        beyond = λ j a.
            set_other (some s.lines) (shift s.max_files (s.max_files - 1) s.copies) j (omega arith)
            ∙ same_shift j s.copies e e'
            ∙ (shift_all k j s.copies).1 (omega arith);
      }

module _ {V : Type 0} (size : AuditEvent V → ℕ) where
  -- An open file has the size that was counted, and less than what makes it rotate.
  pub record IsMeasured (s : FileAuditEventSink V) : Type 0 where
    pub counted : s.is_open ≡ true → s.current_size ≡ total_size size s.lines
    pub below : total_size size s.lines < s.rotate_size

  total_size-append :
      (es : Lines V) (e : AuditEvent V)
      → total_size size (es ++ e ∷ []) ≡ total_size size es + size e
  total_size-append [] e = omega arith
  total_size-append (f ∷ es) e = omega (arith, total_size-append es e)

  reopened-counted :
      (s : FileAuditEventSink V)
      → IsMeasured s
      → (reopened size s).current_size ≡ total_size size s.lines
  reopened-counted s h = ground (arith, h.counted)

  reopened-same :
      (s : FileAuditEventSink V)
      → ((reopened size s).lines ≡ s.lines) × ((reopened size s).rotate_size ≡ s.rotate_size)
  reopened-same s = ground arith

  written-counted :
      (e : AuditEvent V) (s : FileAuditEventSink V)
      → IsMeasured s
      → (written size e (reopened size s)).current_size
        ≡ total_size size (written size e (reopened size s)).lines
  written-counted e s h = omega (
    arith,
    reopened-counted s h,
    total_size-append (reopened size s).lines e,
    ap (total_size size) (reopened-same s).0,
  )

  small_enough :
      {total current limit : ℕ} → current ≡ total → leb limit current ≡ false → total < limit
  small_enough e h = ground (arith, e, h)

  -- Writing an event keeps the current file below the size at which files are rotated.
  pub write_event-IsMeasured :
      (e : AuditEvent V) (s : FileAuditEventSink V)
      → IsMeasured s
      → IsMeasured (write_event size e s)
  unfolding write_event rotate_file
  write_event-IsMeasured e s h =
      let s' = written size e (reopened size s) in
      if_ind IsMeasured (leb s'.rotate_size s'.current_size)
        (λ _. record { counted = λ _. refl; below = omega (arith, (reopened-same s).1, h.below) })
        (λ small. record {
          counted = λ _. written-counted e s h;
          below = small_enough (written-counted e s h) small;
        })
