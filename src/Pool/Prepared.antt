-- ===== src/Pool/Prepared.antt =====
-- qndb/interface/connection_pool.py: `PreparedStatementCache`. The time of creation, which nothing reads,
-- is left out.
use quantum_database.Prelude.{
  ℕ, suc, ◌≤◌, ◌<◌, ◌≡◌, refl, String, false, [], ◌∷◌, length, Option, none, some, if◌then◌else◌,
  if_ind, leb, ltb, ◌==◌, string_key, Dict, lookup, insert, remove, lookup-insert_self, arith,
  Bool-cases, inl, inr, ==_refl,
}

pub record PreparedStatement (Q : Type 0) : Type 0 where
  pub parsed_query : Q
  pub use_count : ℕ

pub record PreparedStatementCache (Q : Type 0) : Type 0 where
  pub capacity : ℕ
  pub cache : Dict String (PreparedStatement Q)

leb_zero : (n : ℕ) → 1 ≤ n → leb n 0 ≡ false
leb_zero n h = ground (arith, h)

module _ {Q : Type 0} where
  abbrev used : Option (PreparedStatement Q) → Option (PreparedStatement Q)
  used none = none
  used (some ps) = some (record { parsed_query = ps.parsed_query; use_count = suc ps.use_count })

  abbrev set_found :
      String → Option (PreparedStatement Q) → PreparedStatementCache Q → PreparedStatementCache Q
  set_found name none c = c
  set_found name (some ps) c = record { capacity = c.capacity; cache = insert name ps c.cache }

  -- `get`
  unfoldable pub get :
      String → PreparedStatementCache Q → Option (PreparedStatement Q) × PreparedStatementCache Q
  get name c = (used (lookup name c.cache), set_found name (used (lookup name c.cache)) c)

  -- `min(..., key=use_count)`: the first of the least used, which is known by its name
  abbrev least_used :
      String × PreparedStatement Q
      → Dict String (PreparedStatement Q)
      → String × PreparedStatement Q
  least_used best [] = best
  least_used best (e ∷ d) =
      if ltb e.1.use_count best.1.use_count then least_used e d else least_used best d

  unfoldable pub victim : Dict String (PreparedStatement Q) → Option (String × PreparedStatement Q)
  victim [] = none
  victim (e ∷ d) = some (least_used e d)

  -- Room for one more; `min` raises on an empty cache.
  unfoldable pub make_room :
      ℕ → Dict String (PreparedStatement Q) → Option (Dict String (PreparedStatement Q))
  unfolding victim
  make_room capacity d =
      if leb capacity (length d)
      then elim (victim d) [ none ↦ none | some e ↦ some (remove e.0 d) ]
      else some d

  abbrev fresh : Q → PreparedStatement Q
  fresh q = record { parsed_query = q; use_count = 0 }

  abbrev stored :
      String
      → Q
      → ℕ
      → Option (Dict String (PreparedStatement Q))
      → Option (PreparedStatementCache Q)
  stored name q capacity none = none
  stored name q capacity (some d) =
      some (record { capacity = capacity; cache = insert name (fresh q) d })

  -- `put`
  unfoldable pub put : String → Q → PreparedStatementCache Q → Option (PreparedStatementCache Q)
  unfolding make_room
  put name q c = stored name q c.capacity (make_room c.capacity c.cache)

  unfoldable pub invalidate : String → PreparedStatementCache Q → PreparedStatementCache Q
  invalidate name c = record { capacity = c.capacity; cache = remove name c.cache }

  unfoldable pub clear : PreparedStatementCache Q → PreparedStatementCache Q
  clear c = record { capacity = c.capacity; cache = [] }

  -- The dictionary does not grow by a removal, and shrinks by that of a key it has.
  length-remove-le :
      (k : String) (d : Dict String (PreparedStatement Q)) → length (remove k d) ≤ length d
  unfolding remove
  length-remove-le k [] = omega arith
  length-remove-le k ((q, v) ∷ d) =
      if_ind {A = Dict String (PreparedStatement Q)} (λ r. length r ≤ suc (length d)) (q == k)
        (λ _. omega (arith, length-remove-le k d)) (λ _. omega (arith, length-remove-le k d))

  length-insert-le :
      (k : String) (v : PreparedStatement Q) (d : Dict String (PreparedStatement Q))
      → length (insert k v d) ≤ suc (length d)
  unfolding insert
  length-insert-le k v [] = omega arith
  length-insert-le k v ((q, w) ∷ d) =
      if_ind {A = Dict String (PreparedStatement Q)} (λ r. length r ≤ suc (suc (length d))) (q == k)
        (λ _. omega arith) (λ _. omega (arith, length-insert-le k v d))

  data Has (k : String) : Dict String (PreparedStatement Q) → Type 0 where
    here : {v : PreparedStatement Q} {d : Dict String (PreparedStatement Q)} → Has k ((k, v) ∷ d)
    later :
        {e : String × PreparedStatement Q} {d : Dict String (PreparedStatement Q)}
        → Has k d
        → Has k (e ∷ d)

  length-remove-lt :
      (k : String) (d : Dict String (PreparedStatement Q))
      → Has k d
      → length (remove k d) < length d
  unfolding remove
  length-remove-lt k [] h = elim h [ ]
  length-remove-lt k ((q, v) ∷ d) here = rw (==_refl k) (omega (arith, length-remove-le k d))
  length-remove-lt k ((q, v) ∷ d) (later h) =
      if_ind {A = Dict String (PreparedStatement Q)} (λ r. length r < suc (length d)) (q == k)
        (λ _. omega (arith, length-remove-le k d)) (λ _. omega (arith, length-remove-lt k d h))

  Has-between :
      (e : String × PreparedStatement Q) {k : String} {b : String × PreparedStatement Q}
      {d : Dict String (PreparedStatement Q)}
      → Has k (b ∷ d)
      → Has k (b ∷ e ∷ d)
  Has-between e here = here
  Has-between e (later h) = later (later h)

  -- The victim is an entry.
  least_used-Has :
      (best : String × PreparedStatement Q) (d : Dict String (PreparedStatement Q))
      → Has (least_used best d).0 (best ∷ d)
  least_used-Has best [] = here
  least_used-Has best (e ∷ d) =
      if_ind {A = String × PreparedStatement Q} (λ r. Has r.0 (best ∷ e ∷ d))
        (ltb e.1.use_count best.1.use_count) (λ _. later (least_used-Has e d))
        (λ _. Has-between e (least_used-Has best d))

  abbrev pub IsBounded : PreparedStatementCache Q → Type 0
  IsBounded c = length c.cache ≤ c.capacity

  -- There is room for one more.
  make_room-lt :
      (capacity : ℕ) (d : Dict String (PreparedStatement Q))
      → 1 ≤ capacity
      → length d ≤ capacity
      → (r : Dict String (PreparedStatement Q)) × (make_room capacity d ≡ some r)
        × (length r < capacity)
  unfolding make_room victim
  make_room-lt capacity [] pos le = ([], rw (leb_zero capacity pos) refl, omega (arith, pos))
  make_room-lt capacity (e ∷ d) pos le = elim (Bool-cases (leb capacity (suc (length d)))) [
    | inl full ↦ (
      remove (least_used e d).0 (e ∷ d),
      rw full refl,
      omega (arith, le, length-remove-lt (least_used e d).0 (e ∷ d) (least_used-Has e d)),
    )
    | inr room ↦ (e ∷ d, rw room refl, ground (arith, room))
  ]

  -- Where the capacity is not zero, a bounded cache takes every statement and stays bounded, and the next
  -- `get` of its name finds it with one use.
  pub put-IsBounded :
      (name : String) (q : Q) (c : PreparedStatementCache Q)
      → 1 ≤ c.capacity
      → IsBounded c
      → (c' : PreparedStatementCache Q) × (put name q c ≡ some c')
        × IsBounded c'
        × ((get name c').0 ≡ some (record { parsed_query = q; use_count = 1 }))
  unfolding put get
  put-IsBounded name q c pos le =
      let (d, e, lt) = make_room-lt c.capacity c.cache pos le in
      (
        record { capacity = c.capacity; cache = insert name (fresh q) d },
        rw e refl,
        omega (arith, lt, length-insert-le name (fresh q) d),
        rw (lookup-insert_self name (fresh q) d) refl,
      )
