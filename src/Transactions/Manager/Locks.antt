-- ===== src/Transactions/Manager/Locks.antt =====
-- Two-phase locking: active transactions never hold locks that exclude one another, whatever the
-- clients call and in whatever order.
use quantum_database.Prelude.{
  String, ◌≡◌, refl, ◌∙◌, sym, ap, Bool, true, false, ◌||◌, some, List, [], ◌∷◌, ◌++◌, arith,
  if◌then◌else◌, any, filter, add, contains, Dict, lookup, insert, values, lookup-insert,
  Bool-cases, inl, inr, ◌==◌, string_key, pair_key,
}
use quantum_database.Transactions.Transaction.{Transaction, is_active}
use quantum_database.Transactions.Transaction.Identity.{SameIdentity}
use quantum_database.Transactions.Locking.{Lock, blocks}
use quantum_database.Transactions.Manager
use quantum_database.Transactions.Manager.{
  begin_transaction, commit_transaction, commit_known, rollback_transaction, rollback_known,
  create_savepoint, create_known, rollback_to_savepoint, rewind_known, get_active_transactions,
  try_lock, try_known, release_lock, release_known, add_operation, finish_commit, release_locks,
}

-- Some lock of one excludes some lock of the other.
abbrev pub clash : Transaction → Transaction → Bool
clash a b = any (λ l. any (blocks l) b.locks) a.locks

blocks_comm : (a b : Lock) → blocks a b ≡ blocks b a
blocks_comm a b = ground (arith, string_key.same_iff a.0 b.0, string_key.same_iff b.0 a.0)

any-nil : (ls : List Lock) → any (λ l. any (blocks l) []) ls ≡ false
any-nil [] = refl
any-nil (l ∷ ls) = any-nil ls

any-cons :
    (k : Lock) (ls ks : List Lock)
    → any (λ l. any (blocks l) (k ∷ ks)) ls ≡ (any (blocks k) ls || any (λ l. any (blocks l) ks) ls)
any-cons k [] ks = refl
any-cons k (l ∷ ls) ks = ground (arith, any-cons k ls ks, blocks_comm l k)

any_comm : (ls ks : List Lock) → any (λ l. any (blocks l) ks) ls ≡ any (λ k. any (blocks k) ls) ks
any_comm [] ks = sym (any-nil ks)
any_comm (l ∷ ls) ks = rw (any-cons l ks ls, any_comm ls ks)

pub clash_comm : (a b : Transaction) → clash a b ≡ clash b a
clash_comm a b = any_comm a.locks b.locks

any-append_one :
    (p : Lock → Bool) (l : Lock) (ls : List Lock) → any p (ls ++ l ∷ []) ≡ (any p ls || p l)
any-append_one p l [] = ground arith
any-append_one p l (k ∷ ls) = ground (arith, any-append_one p l ls)

pub any-filter :
    (p q : Lock → Bool) (ls : List Lock) → any p ls ≡ false → any p (filter q ls) ≡ false
any-filter p q [] h = refl
any-filter p q (l ∷ ls) h = ground (arith, any-filter p q ls)

-- The invariant: a transaction stands under its own identifier, and two that are active hold no
-- locks that exclude one another.
pub record IsSafe (m : Manager.Manager) : Type 0 where
  pub keyed :
      (i : String) (t : Transaction) → lookup i m.transactions ≡ some t → t.transaction_id ≡ i
  pub apart :
      (i j : String) (s t : Transaction)
      → lookup i m.transactions ≡ some s
      → lookup j m.transactions ≡ some t
      → (i == j) ≡ false
      → is_active s.status ≡ true
      → is_active t.status ≡ true
      → clash s t ≡ false

-- A transaction may be replaced by one that clashes with no other active one.
module _ (m : Manager.Manager) (id : String) (tx : Transaction) (safe : IsSafe m)
    (own : tx.transaction_id ≡ id)
    (ok : (j : String) (t : Transaction)
      → lookup j m.transactions ≡ some t
      → (id == j) ≡ false
      → is_active tx.status ≡ true
      → is_active t.status ≡ true
      → clash tx t ≡ false) where
  pub replace-IsSafe :
      (n : Manager.Manager) → n.transactions ≡ insert id tx m.transactions → IsSafe n
  replace-IsSafe n e = record {
    keyed = λ i t f.
        let f' : (if id == i then some tx else lookup i m.transactions) ≡ some t =
          sym (lookup-insert id i tx m.transactions) ∙ ap (lookup i) (sym e) ∙ f in
        ground (arith, f', own, string_key.same_iff id i, safe.keyed i t);
    apart = λ i j s t f g ne on_s on_t.
        let f' : (if id == i then some tx else lookup i m.transactions) ≡ some s =
          sym (lookup-insert id i tx m.transactions) ∙ ap (lookup i) (sym e) ∙ f in
        let g' : (if id == j then some tx else lookup j m.transactions) ≡ some t =
          sym (lookup-insert id j tx m.transactions) ∙ ap (lookup j) (sym e) ∙ g in
        elim (Bool-cases (id == i)) [
          | inl b ↦ ground (
            arith,
            f',
            g',
            string_key.same_iff id i,
            string_key.same_iff id j,
            string_key.same_iff i j,
            ok j t,
          )
          | inr b ↦ elim (Bool-cases (id == j)) [
            | inl c ↦ ground (arith, f', g', ok i s, clash_comm s tx)
            | inr c ↦ ground (arith, f', g', safe.apart i j s t)
          ]
        ];
  }

-- So it may by one that is no more active and holds no more than the one it replaces.
module _ (m : Manager.Manager) (id : String) (old tx : Transaction) (safe : IsSafe m)
    (found : lookup id m.transactions ≡ some old) (own : tx.transaction_id ≡ old.transaction_id)
    (on : is_active tx.status ≡ true → is_active old.status ≡ true)
    (held : (t : Transaction) → clash old t ≡ false → clash tx t ≡ false) where
  pub keep-IsSafe : (n : Manager.Manager) → n.transactions ≡ insert id tx m.transactions → IsSafe n
  keep-IsSafe =
      replace-IsSafe m id tx safe (own ∙ safe.keyed id old found)
        λ j t f ne a b. held t (safe.apart id j old t found f ne (on a) b)

pub same-IsSafe : (m n : Manager.Manager) → IsSafe m → n.transactions ≡ m.transactions → IsSafe n
same-IsSafe m n h e = record {
  keyed = λ i t f. h.keyed i t (ap (lookup i) (sym e) ∙ f);
  apart = λ i j s t f g. h.apart i j s t (ap (lookup i) (sym e) ∙ f) (ap (lookup j) (sym e) ∙ g);
}

pub filter-lookup :
    (p : Transaction → Bool) (d : Dict String Transaction) (j : String) (t : Transaction)
    (q : Transaction → Bool)
    → any q (filter p (values d)) ≡ false
    → lookup j d ≡ some t
    → p t ≡ true
    → q t ≡ false
unfolding lookup
filter-lookup p [] j t q h f on = cc
filter-lookup p ((k, s) ∷ d) j t q h f on = elim (Bool-cases (k == j)) [
  | inl b ↦ ground arith
  | inr b ↦ ground (arith, filter-lookup p d j t q)
]

pub clash-add :
    (tx t : Transaction) (l : Lock)
    → clash tx t ≡ false
    → any (blocks l) t.locks ≡ false
    → clash (record tx { locks = add l tx.locks }) t ≡ false
clash-add tx t l h k = elim (Bool-cases (contains l tx.locks)) [
  | inl b ↦ rw b h
  | inr b ↦ rw (b, any-append_one (λ x. any (blocks x) t.locks) l tx.locks) (rw (h, k))
]

pub alike-IsSafe :
    (m : Manager.Manager) (id : String) (old tx : Transaction)
    → IsSafe m
    → lookup id m.transactions ≡ some old
    → SameIdentity old tx
    → (n : Manager.Manager) → n.transactions ≡ insert id tx m.transactions
    → IsSafe n
alike-IsSafe m id old tx safe found same =
    keep-IsSafe m id old tx safe found same.id (λ h. rw (← same.status) h)
      (λ t h. rw (same.locks) h)
