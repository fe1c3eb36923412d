-- ===== src/Pool/Tests.antt =====
-- A small pool, a cache of two statements and a short message.
use quantum_database.Prelude.{
  ℕ, ◌+◌, ◌≡◌, ◌≤◌, refl, List, [], ◌∷◌, length, some, arith, lookup, insert,
}
use quantum_database.Pool.Prepared.{PreparedStatementCache, get, put, IsBounded, put-IsBounded}
use quantum_database.Pool.Connections.{ConnectionPool, get_connection, initialize}
use quantum_database.Pool.Connections.Held.{occurrences}
use quantum_database.Pool.Connections.Minimum.{IsAnswered, get_connection-IsAnswered}
use quantum_database.Pool.Connections.Handing.{
  Act, acquire, release, maintain, close_object, acts, acts-once,
}

abbrev hello : List ℕ
hello = 104 ∷ 105 ∷ []

abbrev two_cached : PreparedStatementCache ℕ
two_cached = record {
  capacity = 2;
  cache =
      ("a", record { parsed_query = 10; use_count = 3 })
      ∷ ("b", record { parsed_query = 20; use_count = 1 })
      ∷ [];
}

put-IsBounded_example :
    (c : PreparedStatementCache ℕ) × (put "c" 30 two_cached ≡ some c)
    × IsBounded c
    × ((get "c" c).0 ≡ some (record { parsed_query = 30; use_count = 1 }))
put-IsBounded_example = put-IsBounded "c" 30 two_cached (omega arith) (omega arith)

abbrev small_pool : ConnectionPool ℕ
small_pool = initialize 0 1 1 30 3600

abbrev steps : List (ℕ × Act)
steps = (1, acquire) ∷ (2, maintain) ∷ (3, acquire) ∷ (4, close_object 0) ∷ (5, release 0) ∷ []

acts-once_example :
    occurrences 0 (acts steps small_pool).idle_connections
      + occurrences 0 (acts steps small_pool).active_connections
    ≤ 1
acts-once_example = acts-once ℕ 0 1 1 30 3600 steps 0

get_connection-IsAnswered_example : IsAnswered (get_connection 5 small_pool)
unfolding initialize
get_connection-IsAnswered_example = get_connection-IsAnswered 5 small_pool (omega arith)

-- Maintenance between two requests of clients lets a pool of one connection hand out two.
two_of_one :
    length (acts ((1, acquire) ∷ (2, maintain) ∷ (3, acquire) ∷ []) small_pool).active_connections
    ≡ 2
unfolding acts initialize lookup insert
two_of_one = refl
