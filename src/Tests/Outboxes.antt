-- ===== src/Tests/Outboxes.antt =====
-- The outbox at concrete inputs: one pair, whose state is published again while the first one is in
-- flight.
use advanced_distributed_sys.Base.{
  ◌≡◌, refl, true, false, List, [], ◌∷◌, some, ok, raise, key_error, backpressure_error, arith,
}
use advanced_distributed_sys.Order.{Str, list_ord, nat_ord, pair_ord}
use advanced_distributed_sys.Sorted
use advanced_distributed_sys.Sorted.{find, member}
use advanced_distributed_sys.Storage.Entry.{StoredCrdtEntry, gcounter, of_gcounter}
use advanced_distributed_sys.Replication.Outbox.{
  Pair, Pending, new_pending, OutboxReservation, ReplicationOutbox, reserve, reserve_all,
  reserve_found, create_all, publish, publish_all, publish_one, enqueue, next_ready, next_loop,
  ready_state, after_next, complete,
}
use advanced_distributed_sys.Replication.Outbox.Ownership.{Owned, Hands}
use advanced_distributed_sys.Replication.Outbox.Delivery.{
  Reaches, here, next, reserved, published_to, next_ready-Hands, Reaches-Owned,
}

abbrev entry : StoredCrdtEntry
entry = record {
  key = 107 ∷ [];
  crdt_type = gcounter;
  state = of_gcounter (record { components = [] });
  state_version = record { entries = [] };
  causal_context = record { entries = [] };
}

abbrev pair : Pair
pair = (112 ∷ [], 107 ∷ [])

abbrev states : List (Str × StoredCrdtEntry)
states = (107 ∷ [], entry) ∷ []

abbrev reservation : OutboxReservation
reservation = record { pairs = pair ∷ []; created_pairs = pair ∷ [] }

abbrev empty_outbox : ReplicationOutbox
empty_outbox = record { capacity = 1; pending = []; ready = [] }

abbrev once : Pending
once = record {
  generation = 1;
  state = some entry;
  queued = true;
  in_flight = false;
  reservations = 0;
}

abbrev outbox_once : ReplicationOutbox
outbox_once = record { capacity = 1; pending = (pair, once) ∷ []; ready = pair ∷ [] }

-- in flight with the first state, when a second one was published
abbrev twice : Pending
twice = record {
  generation = 2;
  state = some entry;
  queued = false;
  in_flight = true;
  reservations = 0;
}

abbrev outbox_twice : ReplicationOutbox
outbox_twice = record { capacity = 1; pending = (pair, twice) ∷ []; ready = [] }

program : Unit {0}
unfolding list_ord nat_ord pair_ord Sorted.find Sorted.put Sorted.pop Sorted.member Sorted.dedup
    reserve reserve_all reserve_found create_all publish publish_all publish_one enqueue next_ready
    next_loop ready_state after_next complete
program = tt

reserved_once : (reserve (pair ∷ []) empty_outbox).1 ≡ ok reservation
unfolding program
reserved_once = refl

published_once :
    publish reservation states (reserve (pair ∷ []) empty_outbox).0 ≡ (outbox_once, ok tt)
unfolding program
published_once = refl

-- another pair does not fit
refused : (reserve (([], []) ∷ []) outbox_once) ≡ (outbox_once, raise backpressure_error)
unfolding program
refused = refl

empty-Owned : Owned [] []
unfolding program
empty-Owned = record { distinct = tt; sound = λ k. tt; listed = λ k h. absurd (ground (arith, h)) }

to_once : Reaches empty_outbox outbox_once
to_once =
    next (reserved (pair ∷ []))
      (next (published_to reservation states outbox_once published_once) (here _))

once-Owned : Owned outbox_once.pending outbox_once.ready
once-Owned = Reaches-Owned empty_outbox outbox_once to_once empty-Owned

next_ready-Hands_example :
    Hands outbox_once.pending (
      ((next_ready outbox_once).0.ready, (next_ready outbox_once).0.pending),
      (next_ready outbox_once).1,
    )
    × Owned (next_ready outbox_once).0.pending (next_ready outbox_once).0.ready
next_ready-Hands_example = next_ready-Hands outbox_once once-Owned

-- A publication that lacks the state of its second pair raises, and leaves the first pair marked as
-- queued and not on the queue.
half_published :
    publish
      (record { pairs = pair ∷ (112 ∷ [], []) ∷ []; created_pairs = [] })
      states
      (reserve (pair ∷ (112 ∷ [], []) ∷ []) (record empty_outbox { capacity = 2 })).0
    ≡ (
      record {
        capacity = 2;
        pending = (pair, once) ∷ ((112 ∷ [], []), record new_pending { reservations = 1 }) ∷ [];
        ready = [];
      },
      raise key_error,
    )
unfolding program
half_published = refl
