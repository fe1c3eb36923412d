-- ===== src/Audit/Sinks/Queues.antt =====
-- qndb/security/audit/sinks.py: the queues of the subscribers of a stream.
use quantum_database.Prelude.{
  ℕ, ◌+◌, ◌≤◌, ◌<◌, ◌≡◌, refl, Bool, not, List, [], ◌∷◌, arith, All, All-append, if◌then◌else◌,
  length, length-append, filter, ◌==◌, nat_key,
}
use quantum_database.Audit.Event.{AuditEvent, EventData, to_dict}
use quantum_database.Audit.Sinks.{
  StreamAuditEventSink, put_all, count_full, subscribe, unsubscribe, publish,
}

abbrev pub Subscribers : Type 0 → Type 0
Subscribers V = List (ℕ × List (EventData V))

abbrev pub AreWithin : {V : Type 0} → ℕ → Subscribers V → Type 0
AreWithin max_queue = All (λ q. length q.1 ≤ max_queue)

-- The consumer of a queue takes the oldest event.
abbrev pub get : {V : Type 0} → ℕ → Subscribers V → Subscribers V
get i [] = []
get i ((j, []) ∷ qs) = (j, []) ∷ get i qs
get i ((j, e ∷ q) ∷ qs) = if j == i then (j, q) ∷ qs else (j, e ∷ q) ∷ get i qs

-- What happens to the stream, with the number of a subscriber
pub data Step (V : Type 0) : Type 0 where
  subscribes unsubscribes gets : ℕ → Step V
  publishes : AuditEvent V → Step V

module _ {V : Type 0} where
  abbrev pub after : Step V → StreamAuditEventSink V → StreamAuditEventSink V
  after (subscribes i) s = subscribe i s
  after (unsubscribes i) s = unsubscribe i s
  after (gets i) s = record s { subscribers = get i s.subscribers }
  after (publishes e) s = publish e s

  abbrev pub after_all : List (Step V) → StreamAuditEventSink V → StreamAuditEventSink V
  after_all [] s = s
  after_all (c ∷ cs) s = after_all cs (after c s)

  put_all-AreWithin :
      (max_queue : ℕ) (d : EventData V) (qs : Subscribers V)
      → 0 < max_queue
      → AreWithin max_queue qs
      → AreWithin max_queue (put_all max_queue d qs)
  put_all-AreWithin max_queue d [] pos h = tt
  put_all-AreWithin max_queue d ((i, q) ∷ qs) pos h =
      ground (arith, pos, h, put_all-AreWithin max_queue d qs pos h.1, length-append q (d ∷ []))

  filter-AreWithin :
      (n : ℕ) (keep : ℕ × List (EventData V) → Bool) (qs : Subscribers V)
      → AreWithin n qs
      → AreWithin n (filter keep qs)
  filter-AreWithin n keep [] h = tt
  filter-AreWithin n keep (q ∷ qs) h = ground (arith, h, filter-AreWithin n keep qs h.1)

  get-AreWithin : (n i : ℕ) (qs : Subscribers V) → AreWithin n qs → AreWithin n (get i qs)
  get-AreWithin n i [] h = tt
  get-AreWithin n i ((j, []) ∷ qs) h = (h.0, get-AreWithin n i qs h.1)
  get-AreWithin n i ((j, e ∷ q) ∷ qs) h = ground (arith, h, get-AreWithin n i qs h.1)

  -- The size of the queues stays, and none is longer.
  pub record IsWithin (n : ℕ) (s : StreamAuditEventSink V) : Type 0 where
    pub is_size : s.max_queue ≡ n
    pub are_within : AreWithin n s.subscribers

  after-IsWithin :
      (n : ℕ) (c : Step V) (s : StreamAuditEventSink V)
      → 0 < n
      → IsWithin n s
      → IsWithin n (after c s)
  unfolding subscribe unsubscribe publish
  after-IsWithin n (subscribes i) s pos h = record {
    is_size = h.is_size;
    are_within =
        All-append (λ q. length q.1 ≤ n) s.subscribers ((i, []) ∷ []) h.are_within
          (omega arith, tt);
  }
  after-IsWithin n (unsubscribes i) s pos h = record {
    is_size = h.is_size;
    are_within = filter-AreWithin n (λ q. not (q.0 == i)) s.subscribers h.are_within;
  }
  after-IsWithin n (gets i) s pos h = record {
    is_size = h.is_size;
    are_within = get-AreWithin n i s.subscribers h.are_within;
  }
  after-IsWithin n (publishes e) s pos h = record {
    is_size = h.is_size;
    are_within = rw h.is_size (put_all-AreWithin n (to_dict e) s.subscribers pos h.are_within);
  }

  -- Whoever subscribes, reads, leaves or publishes, in any order: no queue gets longer than its size.
  pub after_all-IsWithin :
      (n : ℕ) (cs : List (Step V)) (s : StreamAuditEventSink V)
      → 0 < n
      → IsWithin n s
      → IsWithin n (after_all cs s)
  after_all-IsWithin n [] s pos h = h
  after_all-IsWithin n (c ∷ cs) s pos h =
      after_all-IsWithin n cs (after c s) pos (after-IsWithin n c s pos h)

  abbrev pub waiting : Subscribers V → ℕ
  waiting [] = 0
  waiting ((i, q) ∷ qs) = length q + waiting qs

  put_all-waiting :
      (max_queue : ℕ) (d : EventData V) (qs : Subscribers V)
      → waiting (put_all max_queue d qs) + count_full max_queue qs ≡ waiting qs + length qs
  put_all-waiting max_queue d [] = refl
  put_all-waiting max_queue d ((i, q) ∷ qs) =
      ground (arith, put_all-waiting max_queue d qs, length-append q (d ∷ []))

  -- A published event is put into the queue of each subscriber or counted as dropped.
  pub publish-waiting :
      (e : AuditEvent V) (s : StreamAuditEventSink V)
      → waiting (publish e s).subscribers + (publish e s).dropped_events
        ≡ waiting s.subscribers + s.dropped_events + length s.subscribers
  unfolding publish
  publish-waiting e s = omega (arith, put_all-waiting s.max_queue (to_dict e) s.subscribers)
