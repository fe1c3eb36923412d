-- ===== src/Caching/Results/Bounds.antt =====
-- The result cache does not outgrow its size.
use quantum_database.Prelude.{
  ℕ, suc, ◌≤◌, ◌<◌, ◌≡◌, refl, ap, String, Bool, true, ◌||◌, some, [], ◌∷◌, ltb, leb, length, Dict,
  insert, remove, Bool-cases, Option-cases, inl, inr, any, if_ind, arith, ◌==◌, ==_refl, string_key,
}
use quantum_database.Caching.Results.{Entry, ResultCache, put, make_room, evict, oldest}

length-insert :
    (k : String) (e : Entry) (d : Dict String Entry) → length (insert k e d) ≤ suc (length d)
unfolding insert
length-insert k e [] = omega arith
length-insert k e ((j, f) ∷ d) = let ih = length-insert k e d in ground (arith, ih)

length-remove : (k : String) (d : Dict String Entry) → length (remove k d) ≤ length d
unfolding remove
length-remove k [] = omega arith
length-remove k ((j, f) ∷ d) = let ih = length-remove k d in ground (arith, ih)

abbrev has_key : String → Dict String Entry → Bool
has_key k d = any (λ e. e.0 == k) d

remove-shorter :
    (k : String) (d : Dict String Entry) → has_key k d ≡ true → length (remove k d) < length d
unfolding remove
remove-shorter k [] h = absurd cc
remove-shorter k ((j, f) ∷ d) h = elim (Bool-cases (j == k)) [
  | inl b ↦ let le = length-remove k d in rw b (omega (arith, le))
  | inr b ↦ let ih = remove-shorter k d (ground (arith, b)) in rw b (omega (arith, ih))
]

or_right : (a b : Bool) → b ≡ true → (a || b) ≡ true
or_right a b h = ground arith

or_middle : (a b c : Bool) → (a || c) ≡ true → (a || (b || c)) ≡ true
or_middle a b c h = ground arith

oldest-has_key :
    (k : String) (ts : ℕ) (d : Dict String Entry)
    → ((k == oldest k ts d) || has_key (oldest k ts d) d) ≡ true
unfolding oldest
oldest-has_key k ts [] = ground (arith, ==_refl k)
oldest-has_key k ts ((j, e) ∷ d) =
    if_ind (λ z. ((k == z) || has_key z ((j, e) ∷ d)) ≡ true) (ltb e.1 ts)
      (λ _. or_right (k == oldest j e.1 d) _ (oldest-has_key j e.1 d))
      (λ _. or_middle (k == oldest k ts d) (j == oldest k ts d) _ (oldest-has_key k ts d))

evict-shorter : (d d' : Dict String Entry) → evict d ≡ some d' → length d' < length d
unfolding evict
evict-shorter [] d' e = absurd cc
evict-shorter ((k, f) ∷ d) d' e =
    let same : remove (oldest k f.1 d) ((k, f) ∷ d) ≡ d' = cc in
    rw (← same) (remove-shorter (oldest k f.1 d) ((k, f) ∷ d) (oldest-has_key k f.1 d))

some_inj {ℓ} : {A : Type ℓ} {a b : A} → some a ≡ some b → a ≡ b
some_inj e = cc

make_room-shorter :
    (c : ResultCache) (d : Dict String Entry)
    → length c.cache ≤ c.max_size
    → make_room c ≡ some d
    → length d < c.max_size
unfolding make_room
make_room-shorter c d within = elim (Bool-cases (leb c.max_size (length c.cache))) [
  | inl full ↦ rw full (λ e. let short = evict-shorter c.cache d e in omega arith)
  | inr free ↦ rw free (λ e.
      let same : length c.cache ≡ length d = ap (length {0}) (some_inj e) in
      let less : length c.cache < c.max_size = ground arith in omega arith)
]

-- A cache that is not above its size is not above it after a result was stored.
pub put-within :
    (key result : String) (now : ℕ) (c c' : ResultCache)
    → length c.cache ≤ c.max_size
    → put key result now c ≡ some c'
    → (c'.max_size ≡ c.max_size) × (length c'.cache ≤ c'.max_size)
unfolding put
put-within key result now c c' within = elim (Option-cases (make_room c)) [
  | inl f ↦ rw (f, put) (λ e. absurd cc)
  | inr (d, f) ↦
      rw (f, put)
        (λ e.
          let short = make_room-shorter c d within f in
          let le = length-insert key (result, now) d in
          let same : record c { cache = insert key (result, now) d } ≡ c' = cc in
          rw (← same) (refl, omega (arith, short, le)))
]
