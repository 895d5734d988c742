-- ===== src/Replication/Outbox/Publishing.antt =====
-- A publication that succeeds keeps every queued pair on the queue.
use advanced_distributed_sys.Base.{
  ◌≡◌, refl, sym, ap, Bool, true, false, not, ◌&&◌, List, [], ◌∷◌, ◌++◌, Option, none, some, Result,
  ok, raise, arith, ltb, if◌then◌else◌, Bool-cases, inl, inr,
}
use mathlib.Core.Path.{subst}
use advanced_distributed_sys.Order.{Str, list_ord, nat_ord, pair_ord}
use advanced_distributed_sys.Sorted.{find, put}
use advanced_distributed_sys.Storage.Entry.{StoredCrdtEntry}
use advanced_distributed_sys.Replication.Outbox.{
  Pair, Pending, OutboxReservation, ReplicationOutbox, published, publish_one, publish_all, enqueue,
  publish,
}
use advanced_distributed_sys.Replication.Outbox.Ownership.{
  Entries, Sound, Owned, put-Owned, queue-Owned, published-Sound,
}

append_assoc : (xs ys zs : List Pair) → (xs ++ ys) ++ zs ≡ xs ++ (ys ++ zs)
append_assoc [] ys zs = refl
append_assoc (x ∷ xs) ys zs = ap (λ (l : List Pair). x ∷ l) (append_assoc xs ys zs)

published_queued :
    (p : Pending) (x : StoredCrdtEntry)
    → (not p.queued && not p.in_flight) ≡ false
    → (published x p).queued ≡ true
    → p.queued ≡ true
published_queued p x n h = ground arith

-- what one pair of `publish` leaves
abbrev Publishes : List Pair → List Pair → Pair → Result (Entries × Bool) → Type 0
Publishes ready to_queue k (raise e) = Unit {0}
Publishes ready to_queue k (ok (pending, q)) =
    Owned pending (ready ++ (if q then to_queue ++ (k ∷ []) else to_queue))

publish_one-Publishes :
    (k : Pair) (x : Option StoredCrdtEntry) (o : Option Pending) (pending : Entries)
    (ready to_queue : List Pair)
    → find k pending ≡ o
    → Owned pending (ready ++ to_queue)
    → Publishes ready to_queue k (publish_one k x o pending)
unfolding publish_one
publish_one-Publishes k none o pending ready to_queue f w = tt
publish_one-Publishes k (some x) none pending ready to_queue f w = tt
publish_one-Publishes k (some x) (some p) pending ready to_queue f w =
    let s = published-Sound x p (subst Sound f (w.sound k)) in
    elim (Bool-cases (ltb p.reservations 1)) [
      | inl h ↦ rw (publish_one, h) tt
      | inr h ↦ elim (Bool-cases (not p.queued && not p.in_flight)) [
        | inl q ↦
            rw (publish_one, h, q)
              (subst (Owned (put k (published x p) pending)) (append_assoc ready to_queue (k ∷ []))
                (queue-Owned k (published x p) pending (ready ++ to_queue) w s))
        | inr q ↦
            rw (publish_one, h, q)
              (put-Owned k (published x p) pending (ready ++ to_queue) w s
                (λ h'. rw f (published_queued p x q h')))
      ]
    ]

abbrev Published : List Pair → Entries × Result (List Pair) → Type 0
Published ready (pending, raise e) = Unit {0}
Published ready (pending, ok to_queue) = Owned pending (ready ++ to_queue)

publish_all-Published :
    (pairs : List Pair) (states : List (Str × StoredCrdtEntry)) (to_queue : List Pair)
    (pending : Entries) (ready : List Pair)
    → Owned pending (ready ++ to_queue)
    → Published ready (publish_all pairs states to_queue pending)
unfolding publish_all
publish_all-Published [] states to_queue pending ready w = w
publish_all-Published (k ∷ pairs) states to_queue pending ready w =
    go (publish_one k (find k.1 states) (find k pending) pending) refl
      (publish_one-Publishes k (find k.1 states) (find k pending) pending ready to_queue refl w)
      (λ pending' q w'.
        publish_all-Published pairs states (if q then to_queue ++ (k ∷ []) else to_queue) pending'
          ready w')
  where
    go :
        (r : Result (Entries × Bool))
        → publish_one k (find k.1 states) (find k pending) pending ≡ r
        → Publishes ready to_queue k r
        → ((pending' : Entries) (q : Bool)
            → Owned pending' (ready ++ (if q then to_queue ++ (k ∷ []) else to_queue))
            → Published ready
                (publish_all pairs states (if q then to_queue ++ (k ∷ []) else to_queue) pending'))
        → Published ready (publish_all (k ∷ pairs) states to_queue pending)
    go (raise e) h i rest = rw (publish_all, h) tt
    go (ok (pending', q)) h i rest = rw (publish_all, h) (rest pending' q i)

append-nil : (xs : List Pair) → xs ++ [] ≡ xs
append-nil [] = refl
append-nil (x ∷ xs) = ap (λ (l : List Pair). x ∷ l) (append-nil xs)

abbrev pub Enqueued : ReplicationOutbox × Result (Unit {0}) → Type 0
Enqueued (o, raise e) = Unit {0}
Enqueued (o, ok u) = Owned o.pending o.ready

enqueue-Enqueued :
    (o : ReplicationOutbox) (r : Entries × Result (List Pair))
    → Published o.ready r
    → Enqueued (enqueue o r)
unfolding enqueue
enqueue-Enqueued o (pending, raise e) h = tt
enqueue-Enqueued o (pending, ok to_queue) h = h

pub publish-Enqueued :
    (r : OutboxReservation) (states : List (Str × StoredCrdtEntry)) (o : ReplicationOutbox)
    → Owned o.pending o.ready
    → Enqueued (publish r states o)
unfolding publish
publish-Enqueued r states o w = enqueue-Enqueued o _ (
    publish_all-Published r.pairs states [] o.pending o.ready
      (subst (Owned o.pending) (sym (append-nil o.ready)) w))
