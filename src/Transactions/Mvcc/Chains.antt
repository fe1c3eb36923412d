-- ===== src/Transactions/Mvcc/Chains.antt =====
-- One chain of versions: its invariant, and what a snapshot sees of it.
use quantum_database.Prelude.{
  ℕ, ◌≤◌, ◌<◌, ◌≡◌, refl, inl, inr, Bool, true, false, Option, none, some, [], ◌∷◌, arith,
  if◌then◌else◌, leb, filter, last, Bool-cases, tests, subst, sym, ◌≢◌,
}
use quantum_database.Transactions.Mvcc.{
  VersionedRecord, Chain, extend, visible_from, shown, is_kept, gc_chain,
}

-- Each version expires when the next one is created, and the last one has not expired.
abbrev pub IsLinked : Chain → Type 0
IsLinked [] = Unit
IsLinked (v ∷ []) = v.expired_ts ≡ none
IsLinked (v ∷ w ∷ chain) =
    (v.expired_ts ≡ some w.created_ts) × (v.created_ts ≤ w.created_ts) × IsLinked (w ∷ chain)

abbrev pub CreatedBy : ℕ → Chain → Type 0
CreatedBy now [] = Unit
CreatedBy now (v ∷ chain) = (v.created_ts ≤ now) × CreatedBy now chain

abbrev pub created_by : ℕ → VersionedRecord → Bool
created_by t v = leb v.created_ts t

pub CreatedBy-mono : (n m : ℕ) (chain : Chain) → n ≤ m → CreatedBy n chain → CreatedBy m chain
CreatedBy-mono n m [] le h = tt
CreatedBy-mono n m (v ∷ chain) le h = (omega arith, CreatedBy-mono n m chain le h.1)

pub extend-IsLinked :
    (v : VersionedRecord) (chain : Chain)
    → v.expired_ts ≡ none
    → CreatedBy v.created_ts chain
    → IsLinked chain
    → IsLinked (extend v chain)
unfolding extend
extend-IsLinked v [] e by h = e
extend-IsLinked v (a ∷ []) e by h = (refl, by.0, e)
extend-IsLinked v (a ∷ b ∷ []) e by h = (h.0, h.1, (refl, by.1.0, e))
extend-IsLinked v (a ∷ b ∷ c ∷ chain) e by h =
    (h.0, h.1, extend-IsLinked v (b ∷ c ∷ chain) e by.1 h.2)

pub extend-CreatedBy :
    (now : ℕ) (v : VersionedRecord) (chain : Chain)
    → v.created_ts ≤ now
    → CreatedBy now chain
    → CreatedBy now (extend v chain)
unfolding extend
extend-CreatedBy now v [] e by = (e, tt)
extend-CreatedBy now v (a ∷ []) e by = (by.0, (e, tt))
extend-CreatedBy now v (a ∷ b ∷ chain) e by = (by.0, extend-CreatedBy now v (b ∷ chain) e by.1)

-- Versions after one that is too new are too new.
none_created :
    (t : ℕ) (v : VersionedRecord) (chain : Chain)
    → IsLinked (v ∷ chain)
    → leb v.created_ts t ≡ false
    → filter (created_by t) (v ∷ chain) ≡ []
none_created t v [] h new = ground arith
none_created t v (w ∷ chain) h new = ground (arith, none_created t w chain h.2 (ground arith))

visible-eq-last :
    (t : ℕ) (seen : Option VersionedRecord) (v : VersionedRecord) (chain : Chain)
    → IsLinked (v ∷ chain)
    → leb v.created_ts t ≡ true
    → visible_from t seen (v ∷ chain) ≡ last (filter (created_by t) (v ∷ chain))
unfolding visible_from
visible-eq-last t seen v [] h old = ground arith
visible-eq-last t seen v (w ∷ chain) h old = elim (Bool-cases (leb w.created_ts t)) [
  | inl o ↦ ground (arith, visible-eq-last t seen w chain h.2 o)
  | inr n ↦ ground (arith, none_created t w chain h.2 n)
]

-- A snapshot at `t` sees of a linked chain the last version that was created by then.
pub visible_from-linked :
    (t : ℕ) (chain : Chain)
    → IsLinked chain
    → visible_from t none chain ≡ last (filter (created_by t) chain)
unfolding visible_from
visible_from-linked t [] h = refl
visible_from-linked t (v ∷ chain) h = elim (Bool-cases (leb v.created_ts t)) [
  | inl o ↦ visible-eq-last t none v chain h o
  | inr n ↦ ground (arith, none_created t v chain h n)
]

pub last-filter-extend :
    (t : ℕ) (v : VersionedRecord) (chain : Chain)
    → v.created_ts ≤ t
    → last (filter (created_by t) (extend v chain)) ≡ some v
unfolding extend
last-filter-extend t v [] h = ground arith
last-filter-extend t v (a ∷ []) h = ground arith
last-filter-extend t v (a ∷ b ∷ chain) h = ground (arith, last-filter-extend t v (b ∷ chain) h)

-- A version that is created after a snapshot changes nothing in it.
pub shown-extend :
    (t : ℕ) (seen : Option VersionedRecord) (v : VersionedRecord) (chain : Chain)
    → t < v.created_ts
    → IsLinked chain
    → shown (visible_from t seen (extend v chain)) ≡ shown (visible_from t seen chain)
unfolding extend visible_from
shown-extend t seen v [] later h = ground arith
shown-extend t seen v (a ∷ []) later h = ground arith
shown-extend t seen v (a ∷ b ∷ chain) later h = ground (
  arith,
  shown-extend t seen v (b ∷ chain) later h.2,
  shown-extend t (some a) v (b ∷ chain) later h.2,
)

-- Garbage collection at or before the snapshot keeps what the snapshot sees.
visible_from-filter :
    (oldest t : ℕ) (seen : Option VersionedRecord) (chain : Chain)
    → oldest ≤ t
    → IsLinked chain
    → visible_from t seen (filter (is_kept oldest) chain) ≡ visible_from t seen chain
unfolding visible_from
visible_from-filter oldest t seen [] le h = refl
visible_from-filter oldest t seen (v ∷ []) le h = ground arith
visible_from-filter oldest t seen (v ∷ w ∷ chain) le h = ground (
  arith,
  visible_from-filter oldest t seen (w ∷ chain) le h.2,
  visible_from-filter oldest t (some v) (w ∷ chain) le h.2,
)

-- What follows a kept version is kept.
filter-kept :
    (oldest : ℕ) (v : VersionedRecord) (chain : Chain)
    → oldest ≤ v.created_ts
    → IsLinked (v ∷ chain)
    → filter (is_kept oldest) (v ∷ chain) ≡ v ∷ chain
filter-kept oldest v [] le h = ground arith
filter-kept oldest v (w ∷ chain) le h = ground (arith, filter-kept oldest w chain (omega arith) h.2)

filter-eq :
    (oldest : ℕ) (v w : VersionedRecord) (chain : Chain)
    → IsLinked (v ∷ w ∷ chain)
    → filter (is_kept oldest) (v ∷ w ∷ chain)
      ≡ (if leb oldest w.created_ts then v ∷ w ∷ chain else filter (is_kept oldest) (w ∷ chain))
filter-eq oldest v w chain h = elim (Bool-cases (leb oldest w.created_ts)) [
  | inl kept ↦ ground (arith, filter-kept oldest w chain (omega tests) h.2)
  | inr gone ↦ ground arith
]

filter-IsLinked :
    (oldest : ℕ) (chain : Chain) → IsLinked chain → IsLinked (filter (is_kept oldest) chain)
filter-IsLinked oldest [] h = tt
filter-IsLinked oldest (v ∷ []) h =
    let e : filter (is_kept oldest) (v ∷ []) ≡ v ∷ [] = ground arith in subst IsLinked (sym e) h
filter-IsLinked oldest (v ∷ w ∷ chain) h =
    let ih = filter-IsLinked oldest (w ∷ chain) h.2 in
    elim (Bool-cases (leb oldest w.created_ts)) [
      | inl kept ↦
          let e : filter (is_kept oldest) (v ∷ w ∷ chain) ≡ v ∷ w ∷ chain =
            rw (filter-eq oldest v w chain h) (rw kept) in
          subst IsLinked (sym e) h
      | inr gone ↦
          let e : filter (is_kept oldest) (v ∷ w ∷ chain) ≡ filter (is_kept oldest) (w ∷ chain) =
            rw (filter-eq oldest v w chain h) (rw gone) in
          subst IsLinked (sym e) ih
    ]

filter-CreatedBy :
    (now oldest : ℕ) (chain : Chain)
    → CreatedBy now chain
    → CreatedBy now (filter (is_kept oldest) chain)
filter-CreatedBy now oldest [] h = tt
filter-CreatedBy now oldest (v ∷ chain) h =
    let ih = filter-CreatedBy now oldest chain h.1 in
    elim (is_kept oldest v)
      as (λ b.
        CreatedBy now (let rest = filter (is_kept oldest) chain in if b then v ∷ rest else rest)) [
          | true ↦ (h.0, ih)
          | false ↦ ih
        ]

-- The last version of a linked chain is kept, so the fallback to it is never taken.
filter-ne-nil :
    (oldest : ℕ) (v : VersionedRecord) (chain : Chain)
    → IsLinked (v ∷ chain)
    → filter (is_kept oldest) (v ∷ chain) ≢ []
filter-ne-nil oldest v [] h = ground arith
filter-ne-nil oldest v (w ∷ chain) h = ground (arith, filter-ne-nil oldest w chain h.2)

pub gc_chain-eq-filter :
    (oldest : ℕ) (chain : Chain)
    → IsLinked chain
    → (gc_chain oldest chain).0 ≡ filter (is_kept oldest) chain
unfolding gc_chain
gc_chain-eq-filter oldest [] h = refl
gc_chain-eq-filter oldest (v ∷ chain) h = ground (arith, filter-ne-nil oldest v chain h)

module _ (oldest : ℕ) (chain : Chain) (linked : IsLinked chain) where
  pub gc_chain-IsLinked : IsLinked (gc_chain oldest chain).0
  gc_chain-IsLinked =
      rw (gc_chain-eq-filter oldest chain linked) (filter-IsLinked oldest chain linked)

  pub gc_chain-CreatedBy : (now : ℕ) → CreatedBy now chain → CreatedBy now (gc_chain oldest chain).0
  gc_chain-CreatedBy now by =
      rw (gc_chain-eq-filter oldest chain linked) (filter-CreatedBy now oldest chain by)

  pub visible_from-gc_chain :
      (t : ℕ)
      → oldest ≤ t
      → visible_from t none (gc_chain oldest chain).0 ≡ visible_from t none chain
  visible_from-gc_chain t le =
      rw (gc_chain-eq-filter oldest chain linked)
        (visible_from-filter oldest t none chain le linked)
