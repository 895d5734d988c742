-- ===== src/Replication/Outbox/Delivery.antt =====
-- The steps of the outbox, and what they keep: a published state waits on the queue or is in flight
-- until its send ends.
use advanced_distributed_sys.Base.{
  ℕ, ◌+◌, ◌≡◌, refl, true, false, List, [], ◌∷◌, Option, none, some, ok, arith, ltb, filter, length,
  Bool-cases, inl, inr,
}
use mathlib.Core.Path.{subst}
use advanced_distributed_sys.Order.{Str, list_ord, nat_ord, pair_ord}
use advanced_distributed_sys.Sorted.{find, dedup}
use advanced_distributed_sys.Sorted.Laws.{find-put, same_self}
use advanced_distributed_sys.Storage.Entry.{StoredCrdtEntry}
use advanced_distributed_sys.Replication.Outbox.{
  Pair, Pending, is_new, OutboxReservation, PendingReplication, ReplicationOutbox, reserve, cancel,
  publish, ready_state, handed_out, next_loop, after_next, next_ready, complete, abandon,
}
use advanced_distributed_sys.Replication.Outbox.Publishing.{Enqueued, publish-Enqueued}
use advanced_distributed_sys.Replication.Outbox.Ownership.{
  Entries, Sound, is_queued, is_sending, Owned, Hands, create_all-Owned, reserve_all-Owned,
  cancel_all-Owned, finish_one-Owned, drop-Owned, hand-Owned, next_loop-none,
}

unready : (o : Option Pending) → Sound o → ready_state o ≡ none → is_queued o ≡ false
unfolding ready_state
unready none s h = refl
unready (some p) s h = ground arith

pub readied :
    (o : Option Pending) (p : Pending) (x : StoredCrdtEntry)
    → ready_state o ≡ some (p, x)
    → (o ≡ some p) × (p.in_flight ≡ false) × (p.state ≡ some x)
unfolding ready_state
readied none p x h = absurd cc
readied (some q) p x h = ground arith

abbrev NextOk : Entries → (List Pair × Entries) × Option PendingReplication → Type 0
NextOk pending r = Hands pending r × Owned r.0.1 r.0.0

next_loop-Hands :
    (ready : List Pair) (pending : Entries)
    → Owned pending ready
    → NextOk pending (next_loop ready pending)
unfolding next_loop
next_loop-Hands [] pending w = (λ k. next_loop-none k pending w, w)
next_loop-Hands (k ∷ ready) pending w =
    go (find k pending) (ready_state (find k pending)) refl refl
      (λ n. next_loop-Hands ready pending (drop-Owned k pending ready w n))
  where
    go :
        (o : Option Pending) (x : Option (Pending × StoredCrdtEntry))
        → find k pending ≡ o
        → ready_state (find k pending) ≡ x
        → (is_queued (find k pending) ≡ false → NextOk pending (next_loop ready pending))
        → NextOk pending (next_loop (k ∷ ready) pending)
    go o none e h rest = rw (next_loop, h) (rest (unready _ (w.sound k) h))
    go o (some (p, x)) e h rest =
        let (f, i, s) = readied (find k pending) p x h in
        rw (next_loop, h)
          (
            (p, f, i, s, refl, rw (find-put k k (handed_out p) pending, same_self k) refl),
            hand-Owned k p pending ready w (rw s refl),
          )

-- `next_ready` of an outbox whose queued pairs are all on the queue waits only when no pair is queued.
-- Else it hands out the newest state and generation of a pair that was not in flight, and marks it as in
-- flight; and the queued pairs that are left are all on the queue.
pub next_ready-Hands :
    (o : ReplicationOutbox)
    → Owned o.pending o.ready
    → Hands o.pending (((next_ready o).0.ready, (next_ready o).0.pending), (next_ready o).1)
      × Owned (next_ready o).0.pending (next_ready o).0.ready
unfolding next_ready after_next
next_ready-Hands o w = next_loop-Hands o.ready o.pending w

-- One step of the outbox: a method that succeeds, where a send that ends was in flight.
pub data OutboxStep (o : ReplicationOutbox) : ReplicationOutbox → Type 0 where
  reserved : (pairs : List Pair) → OutboxStep o (reserve pairs o).0
  cancelled : (r : OutboxReservation) → OutboxStep o (cancel r o)
  published_to :
      (r : OutboxReservation) (states : List (Str × StoredCrdtEntry)) (o' : ReplicationOutbox)
      → publish r states o ≡ (o', ok tt)
      → OutboxStep o o'
  taken : OutboxStep o (next_ready o).0
  completed :
      (peer_node_id key : Str) (sent : ℕ)
      → is_sending (find (peer_node_id, key) o.pending) ≡ true
      → OutboxStep o (complete peer_node_id key sent o)
  abandoned :
      (peer_node_id key : Str) (sent : ℕ)
      → is_sending (find (peer_node_id, key) o.pending) ≡ true
      → OutboxStep o (abandon peer_node_id key sent o)

pub data Reaches : ReplicationOutbox → ReplicationOutbox → Type 0 where
  here : (o : ReplicationOutbox) → Reaches o o
  next : {o p q : ReplicationOutbox} → OutboxStep o p → Reaches p q → Reaches o q

reserve-Owned :
    (pairs : List Pair) (o : ReplicationOutbox)
    → Owned o.pending o.ready
    → Owned (reserve pairs o).0.pending (reserve pairs o).0.ready
unfolding reserve
reserve-Owned pairs o w =
    let new_pairs = filter (is_new o.pending) (dedup pairs) in
    elim (Bool-cases (ltb o.capacity (length o.pending + length new_pairs))) [
      | inl h ↦ rw (reserve, h) w
      | inr h ↦
          rw (reserve, h)
            (reserve_all-Owned (dedup pairs) _ o.ready
              (create_all-Owned new_pairs o.pending o.ready w))
    ]

step-Owned :
    (o o' : ReplicationOutbox)
    → OutboxStep o o'
    → Owned o.pending o.ready
    → Owned o'.pending o'.ready
unfolding cancel complete abandon
step-Owned o _ (reserved pairs) w = reserve-Owned pairs o w
step-Owned o _ (cancelled r) w = cancel_all-Owned r.pairs o.pending o.ready w
step-Owned o _ (published_to r states o' e) w = subst Enqueued e (publish-Enqueued r states o w)
step-Owned o _ taken w = (next_ready-Hands o w).1
step-Owned o _ (completed peer key sent f) w = finish_one-Owned (peer, key) sent _ o refl f w
step-Owned o _ (abandoned peer key sent f) w = finish_one-Owned (peer, key) sent _ o refl f w

pub Reaches-Owned :
    (o o' : ReplicationOutbox) → Reaches o o' → Owned o.pending o.ready → Owned o'.pending o'.ready
Reaches-Owned o _ (here _) w = w
Reaches-Owned o o' (next s r) w = Reaches-Owned _ o' r (step-Owned o _ s w)
