-- ===== src/Pool/Connections/Handing.antt =====
-- Who holds a connection: the pool, as an idle one, or one client.
use quantum_database.Prelude.{
  ℕ, zero, suc, ◌+◌, ◌-◌, ◌≤◌, ◌≡◌, refl, not, List, [], ◌∷◌, ◌++◌, length, Option, none, some,
  if_ind, ltb, nat_key, lookup, contains, arith,
}
use quantum_database.Pool.Connections.{
  ConnectionPool, create_connection, grow, take_idle, get_connection, release_connection, retire,
  refill, perform_maintenance, close_all_connections, initialize, change, close, alive, expired,
  retired, retires,
}
use quantum_database.Pool.Connections.Held.{
  occurrences, occurrences-remove_indices-le, Held, Held-fewer, Held-create_active,
  Held-create_idle, Held-hand_out, Held-release,
}

-- A step of a client or of the maintenance thread; a client may close the object of a connection.
pub data Act : Type 0 where
  acquire : Act
  release : ℕ → Act
  maintain : Act
  close_object : ℕ → Act
  close_all : Act

module _ {Q : Type 0} where
  abbrev pub IsValid : ConnectionPool Q → Type 0
  IsValid p = Held p.idle_connections p.active_connections p.created

  -- What was handed out to a client: a connection that no client holds, and the pool does not keep.
  abbrev pub HandedOut : List ℕ → Option ℕ × ConnectionPool Q → Type 0
  HandedOut active (none, q) = q.active_connections ≡ active
  HandedOut active (some i, q) =
      (occurrences i active ≡ 0)
      × (q.active_connections ≡ active ++ i ∷ [])
      × (occurrences i q.idle_connections ≡ 0)

  abbrev Good : ConnectionPool Q → Option ℕ × ConnectionPool Q → Type 0
  Good p r = IsValid r.1 × HandedOut p.active_connections r

  grow-Good : (now : ℕ) (p : ConnectionPool Q) → IsValid p → Good p (grow now p)
  unfolding grow create_connection
  grow-Good now p v =
      if_ind (Good p) (ltb (length p.active_connections) p.max_connections)
        (λ _. (
          Held-create_active p.created v,
          (
            omega (arith, v.exists p.created (omega arith)),
            refl,
            omega (arith, v.exists p.created (omega arith)),
          ),
        ))
        (λ _. (v, refl))

  take_idle-Good :
      (now : ℕ) (idle : List ℕ) (p : ConnectionPool Q)
      → Held idle p.active_connections p.created
      → Good p (take_idle now idle p)
  unfolding take_idle
  take_idle-Good now [] p v = grow-Good now (record p { idle_connections = [] }) v
  take_idle-Good now (i ∷ idle) p v =
      let rest = Held-fewer {idle' = idle} v (λ j. omega arith) in
      if_ind (Good p) (not (alive (lookup i p.objects))) (λ _. take_idle-Good now idle p rest)
        λ _.
          if_ind (Good p) (expired p.connection_lifetime now (lookup i p.objects))
            (λ _. take_idle-Good now idle (record p { objects = change i close p.objects }) rest)
            (λ _. (Held-hand_out i v, (ground (arith, v.once i), refl, ground (arith, v.once i))))

  -- `get_connection` keeps the pool valid. The connection that it hands out is in no client's hands and is
  -- no longer idle; where it raises, the clients' connections are what they were.
  pub get_connection-HandedOut :
      (now : ℕ) (p : ConnectionPool Q)
      → IsValid p
      → IsValid (get_connection now p).1 × HandedOut p.active_connections (get_connection now p)
  unfolding get_connection
  get_connection-HandedOut now p v = take_idle-Good now p.idle_connections p v

  release_connection-IsValid :
      (now i : ℕ) (p : ConnectionPool Q) → IsValid p → IsValid (release_connection now i p)
  unfolding release_connection
  release_connection-IsValid now i p v =
      if_ind IsValid (contains i p.active_connections) (λ h. Held-release i h v) (λ _. v)

  refill-IsValid : (now n : ℕ) (p : ConnectionPool Q) → IsValid p → IsValid (refill now n p)
  unfolding refill create_connection
  refill-IsValid now zero p v = v
  refill-IsValid now (suc n) p v =
      refill-IsValid now n
        (record (create_connection now p) {
          idle_connections = p.idle_connections ++ p.created ∷ [];
        })
        (Held-create_idle p.created v)

  -- Retiring connections closes them, and leaves the lists to the step after it.
  retire-IsValid :
      (now total index : ℕ) (idle to_remove : List ℕ) (p : ConnectionPool Q)
      → IsValid p
      → IsValid (retire now total index idle to_remove p).1
  unfolding retire
  retire-IsValid now total index [] to_remove p v = v
  retire-IsValid now total index (i ∷ idle) to_remove p v =
      if_ind {A = List ℕ × ConnectionPool Q} (λ r. IsValid r.1)
        (retires now total (length to_remove) p (lookup i p.objects))
        (λ _.
          retire-IsValid now total (suc index) idle (index ∷ to_remove)
            (record p { objects = change i close p.objects }) v)
        (λ _. retire-IsValid now total (suc index) idle to_remove p v)

  perform_maintenance-IsValid :
      (now : ℕ) (p : ConnectionPool Q) → IsValid p → IsValid (perform_maintenance now p)
  unfolding perform_maintenance
  perform_maintenance-IsValid now p v =
      let r = retire now (length p.idle_connections) 0 p.idle_connections [] p in
      refill-IsValid now (p.min_connections - length (retired r).idle_connections) (retired r) (
        Held-fewer (retire-IsValid now (length p.idle_connections) 0 p.idle_connections [] p v)
          (λ i. occurrences-remove_indices-le i r.0 r.1.idle_connections))

  unfoldable pub act : (now : ℕ) → Act → ConnectionPool Q → ConnectionPool Q
  unfolding get_connection release_connection perform_maintenance close_all_connections
  act now acquire p = (get_connection now p).1
  act now (release i) p = release_connection now i p
  act now maintain p = perform_maintenance now p
  act now (close_object i) p = record p { objects = change i close p.objects }
  act now close_all p = close_all_connections p

  unfoldable pub acts : List (ℕ × Act) → ConnectionPool Q → ConnectionPool Q
  unfolding act
  acts [] p = p
  acts ((now, a) ∷ more) p = acts more (act now a p)

  act-IsValid : (now : ℕ) (a : Act) (p : ConnectionPool Q) → IsValid p → IsValid (act now a p)
  unfolding act close_all_connections
  act-IsValid now acquire p v = (get_connection-HandedOut now p v).0
  act-IsValid now (release i) p v = release_connection-IsValid now i p v
  act-IsValid now maintain p v = perform_maintenance-IsValid now p v
  act-IsValid now (close_object i) p v = v
  act-IsValid now close_all p v = record { once = λ i. omega arith; exists = λ i c. refl }

  acts-IsValid :
      (steps : List (ℕ × Act)) (p : ConnectionPool Q) → IsValid p → IsValid (acts steps p)
  unfolding acts
  acts-IsValid [] p v = v
  acts-IsValid ((now, a) ∷ more) p v = acts-IsValid more (act now a p) (act-IsValid now a p v)

pub initialize-IsValid :
    (Q : Type 0) (now max min timeout lifetime : ℕ)
    → IsValid (initialize {Q = Q} now max min timeout lifetime)
unfolding initialize
initialize-IsValid Q now max min timeout lifetime =
    refill-IsValid now min _ record { once = λ i. omega arith; exists = λ i c. refl }

-- Whatever clients and the maintenance thread do with a new pool, one after the other and at whatever
-- times, no connection is held twice: it is idle once, or one client's, or neither.
pub acts-once :
    (Q : Type 0) (now max min timeout lifetime : ℕ) (steps : List (ℕ × Act)) (i : ℕ)
    → let p = acts steps (initialize {Q = Q} now max min timeout lifetime) in
      occurrences i p.idle_connections + occurrences i p.active_connections ≤ 1
acts-once Q now max min timeout lifetime steps i =
    (acts-IsValid steps (initialize {Q = Q} now max min timeout lifetime)
        (initialize-IsValid Q now max min timeout lifetime)).once
      i
