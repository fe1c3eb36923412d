-- ===== src/Pool/Connections/Minimum.antt =====
-- Maintenance keeps idle connections in store, and requests are answered while there is room.
use quantum_database.Prelude.{
  ℕ, zero, suc, ◌+◌, ◌-◌, ◌≤◌, ◌<◌, ◌≡◌, refl, List, [], ◌∷◌, ◌++◌, length, length-append, Option,
  some, not, if_ind, lt→ltb, lookup, nat_key, arith,
}
use quantum_database.Pool.Connections.{
  ConnectionPool, create_connection, refill, perform_maintenance, retire, retired, grow, take_idle,
  get_connection, alive, expired, change, close,
}

module _ {Q : Type 0} where
  length-refill :
      (now n : ℕ) (p : ConnectionPool Q)
      → length (refill now n p).idle_connections ≡ length p.idle_connections + n
  unfolding refill create_connection
  length-refill now zero p = omega arith
  length-refill now (suc n) p = omega (
    arith,
    length-refill now n (record (create_connection now p) {
      idle_connections = p.idle_connections ++ p.created ∷ [];
    }),
    length-append p.idle_connections (p.created ∷ []),
  )

  -- After maintenance, whatever it closed, there are at least `min_connections` idle connections.
  pub perform_maintenance-le :
      (now : ℕ) (p : ConnectionPool Q)
      → p.min_connections ≤ length (perform_maintenance now p).idle_connections
  unfolding perform_maintenance
  perform_maintenance-le now p =
      let q = retired (retire now (length p.idle_connections) 0 p.idle_connections [] p) in
      omega (arith, length-refill now (p.min_connections - length q.idle_connections) q)

module _ {Q : Type 0} where
  -- What was answered is a connection.
  abbrev pub IsAnswered : Option ℕ × ConnectionPool Q → Type 0
  IsAnswered r = (i : ℕ) × (r.0 ≡ some i)

  take_idle-IsAnswered :
      (now : ℕ) (idle : List ℕ) (p : ConnectionPool Q)
      → length p.active_connections < p.max_connections
      → IsAnswered (take_idle now idle p)
  unfolding take_idle grow
  take_idle-IsAnswered now [] p h =
      (p.created, rw (lt→ltb (length p.active_connections) p.max_connections h) refl)
  take_idle-IsAnswered now (i ∷ idle) p h =
      if_ind IsAnswered (not (alive (lookup i p.objects))) (λ _. take_idle-IsAnswered now idle p h)
        λ _.
          if_ind IsAnswered (expired p.connection_lifetime now (lookup i p.objects))
            (λ _. take_idle-IsAnswered now idle (record p { objects = change i close p.objects }) h)
            (λ _. (i, refl))

  -- While the clients hold fewer than `max_connections`, a request for a connection is answered with one,
  -- whatever has become of the idle ones.
  pub get_connection-IsAnswered :
      (now : ℕ) (p : ConnectionPool Q)
      → length p.active_connections < p.max_connections
      → IsAnswered (get_connection now p)
  unfolding get_connection
  get_connection-IsAnswered now p h = take_idle-IsAnswered now p.idle_connections p h
