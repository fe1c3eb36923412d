-- ===== src/Distributed/Handlers/Replication.antt =====
-- Log replication: what an accepted message leaves in the log.
use quantum_database.Prelude.{
  ℕ, zero, suc, ◌+◌, ◌<◌, ◌≤◌, ◌≡◌, refl, ◌∙◌, sym, ap, subst, ◌⊎◌, true, false, none, some, List,
  [], ◌∷◌, ◌++◌, arith, ltb, Bool-cases, Option-cases, inl, inr, length, take, All, ◌==◌, nat_key,
}
use quantum_database.Distributed.Log.{LogEntry, PersistentLog, get_elem?, at_position}
use quantum_database.Distributed.Handlers.{store_at, store_entry, store_entries}

-- The entries stand at the positions `n + 1`, `n + 2`, ….
abbrev pub IsIndexed : ℕ → List LogEntry → Type 0
IsIndexed n [] = Unit
IsIndexed n (e ∷ es) = (e.index ≡ suc n) × IsIndexed (suc n) es

-- The log has an entry of the term at the entry's position.
abbrev pub Holds : List LogEntry → LogEntry → Type 0
Holds es e = (x : LogEntry) × (at_position e.index es ≡ some x) × (x.term ≡ e.term)

get_elem?-take :
    (n j : ℕ) (es fs : List LogEntry)
    → j < n
    → n ≤ length es
    → get_elem? (take n es ++ fs) j ≡ get_elem? es j
get_elem?-take (suc n) zero (e ∷ es) fs h k = refl
get_elem?-take (suc n) (suc j) (e ∷ es) fs h k =
    get_elem?-take n j es fs (omega arith) (omega arith)
get_elem?-take (suc n) j [] fs h k = absurd (omega arith)
get_elem?-take zero j es fs h k = absurd (omega arith)

get_elem?-append_at :
    (n : ℕ) (e : LogEntry) (es : List LogEntry)
    → n ≤ length es
    → get_elem? (take n es ++ e ∷ []) n ≡ some e
get_elem?-append_at zero e es h = refl
get_elem?-append_at (suc n) e [] h = absurd (omega arith)
get_elem?-append_at (suc n) e (x ∷ es) h = get_elem?-append_at n e es (omega arith)

length-take-append :
    (n : ℕ) (e : LogEntry) (es : List LogEntry)
    → n ≤ length es
    → length (take n es ++ e ∷ []) ≡ suc n
length-take-append zero e es h = refl
length-take-append (suc n) e [] h = absurd (omega arith)
length-take-append (suc n) e (x ∷ es) h = ap suc (length-take-append n e es (omega arith))

length-take : (n : ℕ) (es : List LogEntry) → n ≤ length es → length (take n es) ≡ n
length-take zero es h = refl
length-take (suc n) [] h = absurd (omega arith)
length-take (suc n) (x ∷ es) h = ap suc (length-take n es (omega arith))

take-length : (es : List LogEntry) → take (length es) es ≡ es
take-length [] = refl
take-length (e ∷ es) = ap (◌∷◌ e) (take-length es)

pub get_elem?-lt :
    (n : ℕ) (es : List LogEntry) {x : LogEntry} → get_elem? es n ≡ some x → n < length es
get_elem?-lt n [] h = absurd (cc)
get_elem?-lt zero (e ∷ es) h = omega arith
get_elem?-lt (suc n) (e ∷ es) h = omega (arith, get_elem?-lt n es h)

get_elem?-ge : (n : ℕ) (es : List LogEntry) → get_elem? es n ≡ none → length es ≤ n
get_elem?-ge n [] h = omega arith
get_elem?-ge zero (e ∷ es) h = absurd (cc)
get_elem?-ge (suc n) (e ∷ es) h = omega (arith, get_elem?-ge n es h)

-- What storing one entry does to a log that reaches the position before it.
abbrev Stored : ℕ → LogEntry → List LogEntry → List LogEntry → Type 0
Stored n e es fs =
    ((x : LogEntry) × (get_elem? es n ≡ some x) × (x.term ≡ e.term) × (fs ≡ es))
    ⊎ (fs ≡ take n es ++ e ∷ [])

store_at-Stored :
    (n : ℕ) (e : LogEntry) (l : PersistentLog)
    → n ≤ length l.entries
    → Stored n e l.entries (store_at (suc n) e l).entries
unfolding store_at
store_at-Stored n e l reach = elim (Option-cases (get_elem? l.entries n)) [
  | inl missing ↦
      let full : length l.entries ≡ n = omega (arith, get_elem?-ge n l.entries missing) in
      let short : ltb (length l.entries) (suc n) ≡ true = ground arith in
      let whole : take n l.entries ≡ l.entries =
        ap (λ k. take k l.entries) (sym full) ∙ take-length l.entries in
      inr (rw missing (rw short (ap (λ es. es ++ e ∷ []) (sym whole))))
  | inr (x, found) ↦ elim (Bool-cases (x.term == e.term)) [
    | inl same ↦
        let long : ltb (length l.entries) (suc n) ≡ false =
          ground (arith, get_elem?-lt n l.entries found) in
        inl (x, found, (nat_key.same_iff x.term e.term).0 same, rw found (rw same (rw long)))
    | inr other ↦
        let short : ltb (length (take n l.entries)) (suc n) ≡ true =
          ground (arith, length-take n l.entries reach) in
        inr (rw found (rw other (rw short)))
  ]
]

store_entry-Stored :
    (n : ℕ) (e : LogEntry) (l : PersistentLog)
    → e.index ≡ suc n
    → n ≤ length l.entries
    → Stored n e l.entries (store_entry e l).entries
unfolding store_entry
store_entry-Stored n e l own reach =
    subst (λ i. Stored n e l.entries (store_at i e l).entries) (sym own)
      (store_at-Stored n e l reach)

module _ (n : ℕ) (e : LogEntry) (es fs : List LogEntry) (reach : n ≤ length es)
    (stored : Stored n e es fs) where
  Stored-holds : (x : LogEntry) × (get_elem? fs n ≡ some x) × (x.term ≡ e.term)
  Stored-holds = elim stored [
    | inl (x, found, same, e') ↦ (x, ap (λ l. get_elem? l n) e' ∙ found, same)
    | inr e' ↦ (e, ap (λ l. get_elem? l n) e' ∙ get_elem?-append_at n e es reach, refl)
  ]

  Stored-below : (j : ℕ) → j < n → get_elem? fs j ≡ get_elem? es j
  Stored-below j lt = elim stored [
    | inl (x, found, same, e') ↦ ap (λ l. get_elem? l j) e'
    | inr e' ↦ ap (λ l. get_elem? l j) e' ∙ get_elem?-take n j es (e ∷ []) lt reach
  ]

  Stored-length : suc n ≤ length fs
  Stored-length = elim stored [
    | inl (x, found, same, e') ↦ omega (arith, ap (length {0}) e', get_elem?-lt n es found)
    | inr e' ↦ omega (arith, ap (length {0}) e', length-take-append n e es reach)
  ]

-- The loop: the positions before the entries stay, and each entry's position has its term.
pub store_entries-below :
    (n : ℕ) (ms : List LogEntry) (l : PersistentLog)
    → IsIndexed n ms
    → n ≤ length l.entries
    → (j : ℕ) → j < n
    → get_elem? (store_entries ms l).entries j ≡ get_elem? l.entries j
unfolding store_entries
store_entries-below n [] l h reach j lt = refl
store_entries-below n (m ∷ ms) l h reach j lt =
    let s = store_entry-Stored n m l h.0 reach in
    store_entries-below (suc n) ms (store_entry m l) h.1
      (Stored-length n m l.entries (store_entry m l).entries reach s) j (omega arith)
    ∙ Stored-below n m l.entries (store_entry m l).entries reach s j lt

pub store_entries-length :
    (n : ℕ) (ms : List LogEntry) (l : PersistentLog)
    → IsIndexed n ms
    → n ≤ length l.entries
    → n + length ms ≤ length (store_entries ms l).entries
unfolding store_entries
store_entries-length n [] l h reach = omega arith
store_entries-length n (m ∷ ms) l h reach =
    let s = store_entry-Stored n m l h.0 reach in
    let long = Stored-length n m l.entries (store_entry m l).entries reach s in
    omega (arith, store_entries-length (suc n) ms (store_entry m l) h.1 long)

pub store_entries-Holds :
    (n : ℕ) (ms : List LogEntry) (l : PersistentLog)
    → IsIndexed n ms
    → n ≤ length l.entries
    → All (Holds (store_entries ms l).entries) ms
unfolding store_entries
store_entries-Holds n [] l h reach = tt
store_entries-Holds n (m ∷ ms) l h reach =
    let s = store_entry-Stored n m l h.0 reach in
    let l' = store_entry m l in
    let long = Stored-length n m l.entries l'.entries reach s in
    let (x, found, same) = Stored-holds n m l.entries l'.entries reach s in
    (
      (
        x,
        ap (λ i. at_position i (store_entries ms l').entries) h.0
            ∙ store_entries-below (suc n) ms l' h.1 long n (omega arith)
            ∙ found,
        same,
      ),
      store_entries-Holds (suc n) ms l' h.1 long,
    )
