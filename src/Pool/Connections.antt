-- ===== src/Pool/Connections.antt =====
-- qndb/interface/connection_pool.py: `DatabaseConnection` and `ConnectionPool`. A connection is an object
-- in a store, known by a number in the order of creation: clients and the pool share it. Every operation
-- of the pool holds the lock, so it is one step; the semaphore that creation takes is free whenever the
-- lock is held. The time is an argument. `reconnect` has no step that fails.
pub mod Held
pub mod Handing
pub mod Minimum
use quantum_database.Prelude.{
  ℕ, zero, suc, ◌+◌, ◌-◌, ◌≤◌, ◌<◌, ◌≡◌, String, Bool, true, false, not, ◌&&◌, List, [], ◌∷◌, ◌++◌,
  length, Option, none, some, if◌then◌else◌, leb, ltb, ◌==◌, nat_key, Dict, lookup, insert,
  contains,
}
use quantum_database.Pool.Prepared.{PreparedStatementCache, clear}

pub record Connection (Q : Type 0) : Type 0 where
  pub is_active : Bool
  pub connected_at : ℕ
  pub last_activity : ℕ
  pub prepared_statements : PreparedStatementCache Q

pub record ConnectionPool (Q : Type 0) : Type 0 where
  pub max_connections : ℕ
  pub min_connections : ℕ
  pub connection_timeout : ℕ
  pub connection_lifetime : ℕ
  pub objects : Dict ℕ (Connection Q)
  pub created : ℕ
  pub idle_connections : List ℕ
  pub active_connections : List ℕ

abbrev pub remove_first : ℕ → List ℕ → List ℕ
remove_first i [] = []
remove_first i (j ∷ js) = if j == i then js else j ∷ remove_first i js

abbrev pub at : ℕ → List ℕ → Option ℕ
at n [] = none
at zero (i ∷ is') = some i
at (suc n) (i ∷ is') = at n is'

abbrev pub remove_at : Option ℕ → List ℕ → List ℕ
remove_at none idle = idle
remove_at (some i) idle = remove_first i idle

-- `self.idle_connections.remove(self.idle_connections[i])` for each index
unfoldable pub remove_indices : (indices : List ℕ) → List ℕ → List ℕ
remove_indices [] idle = idle
remove_indices (n ∷ ns) idle = remove_indices ns (remove_at (at n idle) idle)

module _ {Q : Type 0} where
  -- `DatabaseConnection.__init__`
  unfoldable pub new_connection : (now : ℕ) → Connection Q
  new_connection now = record {
    is_active = true;
    connected_at = now;
    last_activity = now;
    prepared_statements = record { capacity = 128; cache = [] };
  }

  unfoldable pub ping : (now : ℕ) → Connection Q → Bool × Connection Q
  ping now c = if c.is_active then (true, record c { last_activity = now }) else (false, c)

  unfoldable pub reconnect : (now : ℕ) → Connection Q → Connection Q
  reconnect now c = record c { is_active = true; last_activity = now }

  unfoldable pub close : Connection Q → Connection Q
  unfolding clear
  close c = record c { is_active = false; prepared_statements = clear c.prepared_statements }

  -- A change of an object of the store
  abbrev change : ℕ → (Connection Q → Connection Q) → Dict ℕ (Connection Q) → Dict ℕ (Connection Q)
  change i f objects = elim (lookup i objects) [ none ↦ objects | some c ↦ insert i (f c) objects ]

  -- `_create_connection`: the store with a new object, whose number is `created`
  unfoldable pub create_connection : (now : ℕ) → ConnectionPool Q → ConnectionPool Q
  unfolding new_connection
  create_connection now p = record p {
    objects = insert p.created (new_connection now) p.objects;
    created = suc p.created;
  }

  -- `self.active_connections.add`, of a connection that is not in the set
  abbrev hand_out : ℕ → ConnectionPool Q → ConnectionPool Q
  hand_out i p = record p { active_connections = p.active_connections ++ i ∷ [] }

  -- A new connection, if there is room for one; none is RuntimeError.
  unfoldable pub grow : (now : ℕ) → ConnectionPool Q → Option ℕ × ConnectionPool Q
  unfolding create_connection
  grow now p =
      if ltb (length p.active_connections) p.max_connections
      then (some p.created, hand_out p.created (create_connection now p))
      else (none, p)

  abbrev alive : Option (Connection Q) → Bool
  alive none = false
  alive (some c) = c.is_active

  abbrev expired : (lifetime now : ℕ) → Option (Connection Q) → Bool
  expired lifetime now none = false
  expired lifetime now (some c) = ltb lifetime (now - c.connected_at)

  abbrev touch : (now : ℕ) → Connection Q → Connection Q
  touch now c = (ping now c).1

  -- The loop over the idle connections, of which `idle` are left. A live connection answers `ping`.
  unfoldable pub take_idle :
      (now : ℕ) → (idle : List ℕ) → ConnectionPool Q → Option ℕ × ConnectionPool Q
  unfolding grow ping close
  take_idle now [] p = grow now (record p { idle_connections = [] })
  take_idle now (i ∷ idle) p =
      let discarded = take_idle now idle p in
      let closed = take_idle now idle (record p { objects = change i close p.objects }) in
      if not (alive (lookup i p.objects))
      then discarded
      else if expired p.connection_lifetime now (lookup i p.objects)
      then closed
      else (
        some i,
        hand_out i (record p { objects = change i (touch now) p.objects; idle_connections = idle }),
      )

  unfoldable pub get_connection : (now : ℕ) → ConnectionPool Q → Option ℕ × ConnectionPool Q
  unfolding take_idle
  get_connection now p = take_idle now p.idle_connections p

  unfoldable pub release_connection : (now : ℕ) → ℕ → ConnectionPool Q → ConnectionPool Q
  unfolding reconnect
  release_connection now i p =
      if contains i p.active_connections
      then record p {
        active_connections = remove_first i p.active_connections;
        objects = change i (reconnect now) p.objects;
        idle_connections = p.idle_connections ++ i ∷ [];
      }
      else p

  -- The first loop of `_perform_maintenance`, from index `i` on with so many closed: what it closes, and
  -- the indices of that in reverse.
  abbrev idle_secs : (now : ℕ) → Option (Connection Q) → ℕ
  idle_secs now none = 0
  idle_secs now (some c) = now - c.last_activity

  abbrev retires : (now total removed : ℕ) → ConnectionPool Q → Option (Connection Q) → Bool
  retires now total removed p c =
      if ltb p.connection_timeout (idle_secs now c) && ltb p.min_connections (total - removed)
      then true
      else expired p.connection_lifetime now c

  unfoldable pub retire :
      (now total : ℕ)
      → (index : ℕ) → (idle : List ℕ) → (to_remove : List ℕ) → ConnectionPool Q
      → List ℕ × ConnectionPool Q
  unfolding close
  retire now total index [] to_remove p = (to_remove, p)
  retire now total index (i ∷ idle) to_remove p =
      let closed =
        retire now total (suc index) idle (index ∷ to_remove)
          (record p { objects = change i close p.objects }) in
      let kept = retire now total (suc index) idle to_remove p in
      if retires now total (length to_remove) p (lookup i p.objects) then closed else kept

  -- So many new connections, each appended to the idle ones
  unfoldable pub refill : (now : ℕ) → ℕ → ConnectionPool Q → ConnectionPool Q
  unfolding create_connection
  refill now zero p = p
  refill now (suc n) p =
      refill now n (record (create_connection now p) {
        idle_connections = p.idle_connections ++ p.created ∷ [];
      })

  abbrev retired : List ℕ × ConnectionPool Q → ConnectionPool Q
  retired (to_remove, p) = record p {
    idle_connections = remove_indices to_remove p.idle_connections;
  }

  unfoldable pub perform_maintenance : (now : ℕ) → ConnectionPool Q → ConnectionPool Q
  unfolding retire remove_indices refill
  perform_maintenance now p =
      let q = retired (retire now (length p.idle_connections) 0 p.idle_connections [] p) in
      refill now (p.min_connections - length q.idle_connections) q

  abbrev close_each : List ℕ → Dict ℕ (Connection Q) → Dict ℕ (Connection Q)
  close_each [] objects = objects
  close_each (i ∷ is') objects = close_each is' (change i close objects)

  unfoldable pub close_all_connections : ConnectionPool Q → ConnectionPool Q
  unfolding close
  close_all_connections p = record p {
    objects = close_each p.idle_connections (close_each p.active_connections p.objects);
    idle_connections = [];
    active_connections = [];
  }

  -- `__init__`, where the maintenance thread has not run yet
  unfoldable pub initialize : (now max min timeout lifetime : ℕ) → ConnectionPool Q
  unfolding refill
  initialize now max min timeout lifetime = refill now min record {
    max_connections = max;
    min_connections = min;
    connection_timeout = timeout;
    connection_lifetime = lifetime;
    objects = [];
    created = 0;
    idle_connections = [];
    active_connections = [];
  }
