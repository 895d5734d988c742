-- ===== src/Replication/Outbox.antt =====
-- replication/outbox.py: the bounded outbox of a node. Each method is one step: it holds the lock, and
-- what it puts on the queue behind it is put before any other task runs.
pub mod Ownership
pub mod Publishing
pub mod Delivery
pub mod Capacity
use advanced_distributed_sys.Base.{
  ℕ, zero, suc, ◌+◌, ◌-◌, Bool, true, false, not, ◌&&◌, ◌||◌, List, [], ◌∷◌, ◌++◌, Option, none,
  some, Result, ok, raise, value_error, key_error, runtime_error, backpressure_error, leb, ltb,
  ◌==◌, if◌then◌else◌, filter, length,
}
use advanced_distributed_sys.Base.Int.{ℤ, pos, negsuc}
use advanced_distributed_sys.Order.{Str, str_ord, list_ord, nat_ord, pair_ord, same}
use advanced_distributed_sys.Sorted.{find, put, pop, dedup}
use advanced_distributed_sys.Storage.Entry.{StoredCrdtEntry}

-- a peer's name and a key
abbrev pub Pair : Type 0
Pair = Str × Str

pub record Pending : Type 0 where
  pub generation : ℕ
  pub state : Option StoredCrdtEntry
  pub queued : Bool
  pub in_flight : Bool
  pub reservations : ℕ

-- `_Pending()`
abbrev pub new_pending : Pending
new_pending = record {
  generation = 0;
  state = none;
  queued = false;
  in_flight = false;
  reservations = 0;
}

pub record OutboxReservation : Type 0 where
  pub pairs : List Pair
  pub created_pairs : List Pair

pub record PendingReplication : Type 0 where
  pub peer_node_id : Str
  pub key : Str
  pub generation : ℕ
  pub state : StoredCrdtEntry

pub record ReplicationOutbox : Type 0 where
  pub capacity : ℕ
  pub pending : List (Pair × Pending)
  pub ready : List Pair

unfoldable pub new_outbox : ℤ → Result ReplicationOutbox
new_outbox (pos (suc capacity)) = ok (record { capacity = suc capacity; pending = []; ready = [] })
new_outbox _ = raise value_error

-- `pair not in self._pending`
abbrev pub is_new : List (Pair × Pending) → Pair → Bool
is_new pending pair = elim (find pair pending) [ none ↦ true | some _ ↦ false ]

-- the loop that adds a fresh entry for each new pair
unfoldable pub create_all : List Pair → List (Pair × Pending) → List (Pair × Pending)
create_all [] pending = pending
create_all (pair ∷ pairs) pending = create_all pairs (put pair new_pending pending)

abbrev pub reserve_one : Pending → Pending
reserve_one p = record p { reservations = p.reservations + 1 }

unfoldable pub reserve_found : Pair → Option Pending → List (Pair × Pending) → List (Pair × Pending)
reserve_found pair none pending = pending
reserve_found pair (some p) pending = put pair (reserve_one p) pending

-- the loop that counts the reservations; every pair is there
unfoldable pub reserve_all : List Pair → List (Pair × Pending) → List (Pair × Pending)
unfolding reserve_found
reserve_all [] pending = pending
reserve_all (pair ∷ pairs) pending =
    reserve_all pairs (reserve_found pair (find pair pending) pending)

unfoldable pub reserve :
    List Pair → ReplicationOutbox → ReplicationOutbox × Result OutboxReservation
unfolding create_all reserve_all
reserve pairs o =
    let unique = dedup pairs in
    let new_pairs = filter (is_new o.pending) unique in
    if ltb o.capacity (length o.pending + length new_pairs)
    then (o, raise backpressure_error)
    else (
      record o { pending = reserve_all unique (create_all new_pairs o.pending) },
      ok (record { pairs = unique; created_pairs = new_pairs }),
    )

-- an entry that nothing refers to
abbrev pub is_idle : Pending → Bool
is_idle p =
    (p.reservations == 0)
    && elim p.state [ none ↦ true | some _ ↦ false ]
    && not p.queued
    && not p.in_flight

unfoldable pub cancel_one : Pair → Option Pending → List (Pair × Pending) → List (Pair × Pending)
cancel_one pair none pending = pending
cancel_one pair (some p) pending =
    let p' = record p { reservations = p.reservations - 1 } in
    if is_idle p' then pop pair pending else put pair p' pending

unfoldable pub cancel_all : List Pair → List (Pair × Pending) → List (Pair × Pending)
unfolding cancel_one
cancel_all [] pending = pending
cancel_all (pair ∷ pairs) pending = cancel_all pairs (cancel_one pair (find pair pending) pending)

unfoldable pub cancel : OutboxReservation → ReplicationOutbox → ReplicationOutbox
unfolding cancel_all
cancel r o = record o { pending = cancel_all r.pairs o.pending }

abbrev pub published : StoredCrdtEntry → Pending → Pending
published state p = record p {
  generation = p.generation + 1;
  state = some state;
  reservations = p.reservations - 1;
  queued = p.queued || not p.in_flight;
}

-- the body of the loop of `publish`: the entries after it, and whether the pair is to be queued
unfoldable pub publish_one :
    Pair
    → Option StoredCrdtEntry
    → Option Pending
    → List (Pair × Pending)
    → Result (List (Pair × Pending) × Bool)
publish_one pair none found pending = raise key_error
publish_one pair (some state) none pending = raise runtime_error
publish_one pair (some state) (some p) pending =
    if ltb p.reservations 1
    then raise runtime_error
    else ok (put pair (published state p) pending, not p.queued && not p.in_flight)

-- The loop of `publish`. Where it raises, the entries keep what the earlier pairs have changed, and
-- nothing is queued.
unfoldable pub publish_all :
    List Pair
    → List (Str × StoredCrdtEntry)
    → List Pair
    → List (Pair × Pending)
    → List (Pair × Pending) × Result (List Pair)
unfolding publish_one
publish_all [] states to_queue pending = (pending, ok to_queue)
publish_all (pair ∷ pairs) states to_queue pending =
    elim (publish_one pair (find pair.1 states) (find pair pending) pending) [
      | raise e ↦ (pending, raise e)
      | ok (pending', q) ↦
          publish_all pairs states (if q then to_queue ++ (pair ∷ []) else to_queue) pending'
    ]

unfoldable pub enqueue :
    ReplicationOutbox
    → List (Pair × Pending) × Result (List Pair)
    → ReplicationOutbox × Result (Unit {0})
enqueue o (pending, ok to_queue) =
    (record o { pending = pending; ready = o.ready ++ to_queue }, ok tt)
enqueue o (pending, raise e) = (record o { pending = pending }, raise e)

unfoldable pub publish :
    OutboxReservation
    → List (Str × StoredCrdtEntry)
    → ReplicationOutbox
    → ReplicationOutbox × Result (Unit {0})
unfolding publish_all enqueue
publish r states_by_key o = enqueue o (publish_all r.pairs states_by_key [] o.pending)

-- what is handed out for a pair, if its entry can be sent now
unfoldable pub ready_state : Option Pending → Option (Pending × StoredCrdtEntry)
ready_state none = none
ready_state (some p) = elim p.state [
  | none ↦ none
  | some state ↦ if p.in_flight then none else some (p, state)
]

abbrev pub handed_out : Pending → Pending
handed_out p = record p { queued = false; in_flight = true }

-- The loop of `next_ready` over the queue as it is; `none` is to wait for the next `put`.
unfoldable pub next_loop :
    List Pair
    → List (Pair × Pending)
    → (List Pair × List (Pair × Pending)) × Option PendingReplication
unfolding ready_state
next_loop [] pending = (([], pending), none)
next_loop (pair ∷ ready) pending =
    let rest = next_loop ready pending in
    elim (ready_state (find pair pending)) [
      | none ↦ rest
      | some (p, state) ↦ (
        (ready, put pair (handed_out p) pending),
        some (record {
          peer_node_id = pair.0;
          key = pair.1;
          generation = p.generation;
          state = state;
        }),
      )
    ]

unfoldable pub after_next :
    ReplicationOutbox
    → (List Pair × List (Pair × Pending)) × Option PendingReplication
    → ReplicationOutbox × Option PendingReplication
after_next o ((ready, pending), item) = (record o { ready = ready; pending = pending }, item)

unfoldable pub next_ready : ReplicationOutbox → ReplicationOutbox × Option PendingReplication
unfolding next_loop after_next
next_ready o = after_next o (next_loop o.ready o.pending)

-- the end of a send, which `complete` and `abandon` treat alike
unfoldable pub finish_one : Pair → ℕ → Option Pending → ReplicationOutbox → ReplicationOutbox
finish_one pair sent none o = o
finish_one pair sent (some p) o =
    if p.generation == sent
    then if p.reservations == 0 then record o { pending = pop pair o.pending } else record o {
      pending = put pair (record p { in_flight = false; state = none; queued = false }) o.pending;
    }
    else if p.queued
    then record o { pending = put pair (record p { in_flight = false }) o.pending }
    else record o {
      pending = put pair (record p { in_flight = false; queued = true }) o.pending;
      ready = o.ready ++ (pair ∷ []);
    }

unfoldable pub complete : Str → Str → ℕ → ReplicationOutbox → ReplicationOutbox
unfolding finish_one
complete peer_node_id key sent_generation o =
    finish_one (peer_node_id, key) sent_generation (find (peer_node_id, key) o.pending) o

unfoldable pub abandon : Str → Str → ℕ → ReplicationOutbox → ReplicationOutbox
unfolding finish_one
abandon peer_node_id key sent_generation o =
    finish_one (peer_node_id, key) sent_generation (find (peer_node_id, key) o.pending) o

unfoldable pub pending_count : ReplicationOutbox → ℕ
pending_count o = length o.pending
