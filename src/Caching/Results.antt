-- ===== src/Caching/Results.antt =====
-- qndb/middleware/cache.py, `QuantumResultCache` and `QueryCache`. The hash of a query or of a circuit
-- with its parameters, taken over its JSON text, is an argument, and results are texts. Each method holds
-- the lock of its cache; `now` is the clock's reading.
pub mod Bounds
use text.Mathlib.Text.{find?}
use quantum_database.Prelude.{
  ℕ, suc, ◌+◌, ◌-◌, String, Bool, true, false, not, ◌&&◌, ◌||◌, Option, none, some, List, [], ◌∷◌,
  ◌++◌, map, if◌then◌else◌, ltb, leb, length, filter, any, contains, Dict, lookup, insert, remove,
  ◌==◌, string_key,
}

-- A result and when it was stored.
abbrev pub Entry : Type 0
Entry = String × ℕ

pub record ResultCache : Type 0 where
  pub cache : Dict String Entry
  pub max_size : ℕ
  pub ttl : ℕ
  pub hits : ℕ
  pub misses : ℕ

abbrev pub new_cache : (max_size ttl : ℕ) → ResultCache
new_cache max_size ttl = record { cache = []; max_size = max_size; ttl = ttl; hits = 0; misses = 0 }

unfoldable pub get : (key : String) → (now : ℕ) → ResultCache → ResultCache × Option String
get key now c = elim (lookup key c.cache) [
  | none ↦ (record c { misses = c.misses + 1 }, none)
  | some (result, ts) ↦
      if leb (now - ts) c.ttl
      then (record c { hits = c.hits + 1 }, some result)
      else (record c { cache = remove key c.cache; misses = c.misses + 1 }, none)
]

-- The first key with the least time.
unfoldable pub oldest : String → ℕ → Dict String Entry → String
oldest key ts [] = key
oldest key ts ((k, e) ∷ d) = if ltb e.1 ts then oldest k e.1 d else oldest key ts d

-- The cache without its oldest entry; `min` of an empty cache raises an error, here `none`.
unfoldable pub evict : Dict String Entry → Option (Dict String Entry)
unfolding oldest
evict [] = none
evict ((k, e) ∷ d) = some (remove (oldest k e.1 d) ((k, e) ∷ d))

unfoldable pub make_room : ResultCache → Option (Dict String Entry)
unfolding evict
make_room c = if leb c.max_size (length c.cache) then evict c.cache else some c.cache

unfoldable pub put : (key result : String) → (now : ℕ) → ResultCache → Option ResultCache
unfolding make_room
put key result now c = elim (make_room c) [
  | none ↦ none
  | some d ↦ some (record c { cache = insert key (result, now) d })
]

-- `pattern in k`
abbrev pub occurs_in : String → String → Bool
occurs_in pattern k = elim (find? k pattern) [ none ↦ false | some i ↦ true ]

unfoldable pub invalidate : Option String → ResultCache → ResultCache
invalidate none c = record c { cache = [] }
invalidate (some pattern) c = record c { cache = filter (λ e. not (occurs_in pattern e.0)) c.cache }

pub record QueryCache : Type 0 where
  pub result_cache : ResultCache
  pub query_plans : Dict String String
  pub query_tables : Dict String (List String)

abbrev pub new_query_cache : (max_size ttl : ℕ) → QueryCache
new_query_cache max_size ttl = record {
  result_cache = new_cache max_size ttl;
  query_plans = [];
  query_tables = [];
}

-- `if tables`: neither None nor empty
abbrev with_tables :
    String → Option (List String) → Dict String (List String) → Dict String (List String)
with_tables qh none d = d
with_tables qh (some []) d = d
with_tables qh (some (t ∷ ts)) d = insert qh (t ∷ ts) d

unfoldable pub store_plan : (qh plan_hash : String) → Option (List String) → QueryCache → QueryCache
store_plan qh plan_hash tables q = record q {
  query_plans = insert qh plan_hash q.query_plans;
  query_tables = with_tables qh tables q.query_tables;
}

-- `result_key` is the key of a plan's result, which depends on the parameters.
unfoldable pub get_result :
    (result_key : String → String)
    → (qh : String) → (now : ℕ) → QueryCache
    → QueryCache × Option String
unfolding get
get_result result_key qh now q = elim (lookup qh q.query_plans) [
  | none ↦ (q, none)
  | some ph ↦
      let (c, answer) = get (result_key ph) now q.result_cache in
      (record q { result_cache = c }, answer)
]

unfoldable pub store_result :
    (result_key : String → String)
    → (qh plan_hash result : String) → Option (List String)
    → (now : ℕ) → QueryCache
    → Option QueryCache
unfolding store_plan put
store_result result_key qh plan_hash result tables now q =
    let q' = store_plan qh plan_hash tables q in
    elim (put (result_key plan_hash) result now q'.result_cache) [
      | none ↦ none
      | some c ↦ some (record q' { result_cache = c })
    ]

-- `if ph`: neither None nor the empty text
abbrev drop_results : Option String → ResultCache → ResultCache
drop_results none c = c
drop_results (some ph) c = if ph == "" then c else invalidate (some ph) c

unfoldable pub invalidate_query : String → QueryCache → QueryCache
unfolding invalidate
invalidate_query qh q = record {
  result_cache = drop_results (lookup qh q.query_plans) q.result_cache;
  query_plans = remove qh q.query_plans;
  query_tables = remove qh q.query_tables;
}

abbrev keys {ℓ} : {A : Type ℓ} → Dict String A → List String
keys d = map (λ e. e.0) d

-- The queries that depend on the table, and those whose hash has its name in it.
abbrev pub affected : String → QueryCache → List String
affected table_name q =
    let known = keys (filter (λ e. contains table_name e.1) q.query_tables) in
    known ++ filter (λ qh. occurs_in table_name qh && not (contains qh known)) (keys q.query_plans)

abbrev invalidate_each : List String → QueryCache → QueryCache
invalidate_each [] q = q
invalidate_each (qh ∷ qhs) q = invalidate_each qhs (invalidate_query qh q)

unfoldable pub invalidate_by_table : String → QueryCache → QueryCache
unfolding invalidate_query
invalidate_by_table table_name q = invalidate_each (affected table_name q) q
