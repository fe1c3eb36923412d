-- ===== src/Transactions/Wal/Numbers.antt =====
-- Log sequence numbers: increasing, never reused, and what truncation leaves.
use quantum_database.Prelude.{
  ℕ, ◌+◌, ◌<◌, ◌≡◌, refl, List, [], ◌∷◌, ◌++◌, Bool, true, false, arith, filter, ltb, All,
  All-append, if◌then◌else◌, subst,
}
use quantum_database.Transactions.Wal.{WalEntry, WriteAheadLog, Append, append, truncate, entry_of}

abbrev pub IsAscending : List WalEntry → Type 0
IsAscending [] = Unit
IsAscending (e ∷ es) = All (λ (f : WalEntry). e.lsn < f.lsn) es × IsAscending es

-- The numbers in the log increase, and all are below the next one.
pub record IsOrdered (w : WriteAheadLog) : Type 0 where
  pub ascending : IsAscending w.entries
  pub below : All (λ (e : WalEntry). e.lsn < w.next_lsn) w.entries

IsAscending-append :
    (es : List WalEntry) (e : WalEntry)
    → IsAscending es
    → All (λ (f : WalEntry). f.lsn < e.lsn) es
    → IsAscending (es ++ e ∷ [])
IsAscending-append [] e h b = (tt, tt)
IsAscending-append (f ∷ es) e h b = (
  All-append (λ (g : WalEntry). f.lsn < g.lsn) es (e ∷ []) h.0 (b.0, tt),
  IsAscending-append es e h.1 b.1,
)

below_suc :
    (n : ℕ) (es : List WalEntry)
    → All (λ (e : WalEntry). e.lsn < n) es
    → All (λ (e : WalEntry). e.lsn < n + 1) es
below_suc n [] h = tt
below_suc n (e ∷ es) h = (omega arith, below_suc n es h.1)

All-filter :
    (P : WalEntry → Type 0) (p : WalEntry → Bool) (es : List WalEntry)
    → All P es
    → All P (filter p es)
All-filter P p [] h = tt
All-filter P p (e ∷ es) h =
    let ih = All-filter P p es h.1 in
    elim (p e) as (λ b. All P (let rest = filter p es in if b then e ∷ rest else rest)) [
      | true ↦ (h.0, ih)
      | false ↦ ih
    ]

IsAscending-filter :
    (p : WalEntry → Bool) (es : List WalEntry) → IsAscending es → IsAscending (filter p es)
IsAscending-filter p [] h = tt
IsAscending-filter p (e ∷ es) h =
    let ih = IsAscending-filter p es h.1 in
    elim (p e) as (λ b. IsAscending (let rest = filter p es in if b then e ∷ rest else rest)) [
      | true ↦ (All-filter (λ (f : WalEntry). e.lsn < f.lsn) p es h.0, ih)
      | false ↦ ih
    ]

module _ (a : Append) (w : WriteAheadLog) where
  -- The file of the log plays no part in its entries.
  pub entries-append : (append a w).0.entries ≡ w.entries ++ entry_of w.next_lsn a ∷ []
  unfolding append
  entries-append = ground arith

  pub next_lsn-append : (append a w).0.next_lsn ≡ w.next_lsn + 1
  unfolding append
  next_lsn-append = ground arith

  -- `append` keeps the order of the log.
  pub append-IsOrdered : IsOrdered w → IsOrdered (append a w).0
  append-IsOrdered h = record {
    ascending =
        rw entries-append
          (IsAscending-append w.entries (entry_of w.next_lsn a) h.ascending h.below);
    below =
        rw (entries-append, next_lsn-append)
          (All-append (λ (e : WalEntry). e.lsn < w.next_lsn + 1) w.entries
            (entry_of w.next_lsn a ∷ []) (below_suc w.next_lsn w.entries h.below)
            (omega arith, tt));
  }

-- So does `truncate`, and it leaves only greater numbers.
pub truncate-IsOrdered : (n : ℕ) (w : WriteAheadLog) → IsOrdered w → IsOrdered (truncate n w)
unfolding truncate
truncate-IsOrdered n w h = record {
  ascending = IsAscending-filter (λ e. ltb n e.lsn) w.entries h.ascending;
  below = All-filter (λ (e : WalEntry). e.lsn < w.next_lsn) (λ e. ltb n e.lsn) w.entries h.below;
}

filter-none :
    (n : ℕ) (es : List WalEntry)
    → All (λ (e : WalEntry). e.lsn < n + 1) es
    → filter (λ e. ltb n e.lsn) es ≡ []
filter-none n [] h = refl
filter-none n (e ∷ es) h = ground (arith, filter-none n es h.1)

-- Truncating up to the number that `append` returned empties an ordered log.
pub truncate-append :
    (a : Append) (w : WriteAheadLog)
    → IsOrdered w
    → (truncate (append a w).1 (append a w).0).entries ≡ []
unfolding truncate append
truncate-append a w h = filter-none w.next_lsn (append a w).0.entries (
    subst (λ n. All (λ (e : WalEntry). e.lsn < n) (append a w).0.entries) (next_lsn-append a w)
      (append-IsOrdered a w h).below)
