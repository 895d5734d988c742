-- ===== src/Replication/Outbox/Ownership.antt =====
-- Who answers for a pending entry: a state that waits to be sent is on the queue or in flight.
use advanced_distributed_sys.Base.{
  ℕ, ◌-◌, ◌≡◌, refl, sym, ap, Bool, true, false, ◌&&◌, ◌||◌, List, [], ◌∷◌, ◌++◌, Option, none,
  some, arith, ◌==◌, if◌then◌else◌, Bool-cases, inl, inr,
}
use mathlib.Core.Path.{subst}
use advanced_distributed_sys.Order.{list_ord, nat_ord, pair_ord, same}
use advanced_distributed_sys.Sorted.{find, put, pop, member, Distinct}
use advanced_distributed_sys.Sorted.Laws.{
  find-put, put-Distinct, find-pop, pop-Distinct, same-eq, same_self,
}
use advanced_distributed_sys.Sorted.FrozenSet.{is_some}
use advanced_distributed_sys.Storage.Entry.{StoredCrdtEntry}
use advanced_distributed_sys.Replication.Outbox.{
  Pair, Pending, new_pending, PendingReplication, ReplicationOutbox, create_all, reserve_one,
  reserve_found, reserve_all, is_idle, cancel_one, cancel_all, published, handed_out, finish_one,
}

-- an entry has a state exactly while it is queued or in flight, and is never both
abbrev pub Sound : Option Pending → Type 0
Sound none = Unit {0}
Sound (some p) = ((p.queued || p.in_flight) ≡ is_some p.state) × ((p.queued && p.in_flight) ≡ false)

abbrev pub is_queued : Option Pending → Bool
is_queued none = false
is_queued (some p) = p.queued

abbrev pub is_sending : Option Pending → Bool
is_sending none = false
is_sending (some p) = p.in_flight

abbrev pub Entries : Type 0
Entries = List (Pair × Pending)

-- The entries and the queue: every queued pair is on the queue.
pub record Owned (pending : Entries) (ready : List Pair) : Type 0 where
  pub distinct : Distinct pending
  pub sound : (k : Pair) → Sound (find k pending)
  pub listed : (k : Pair) → is_queued (find k pending) ≡ true → member k ready ≡ true

-- one entry is changed, and the queue keeps the other pairs
set-Owned :
    (k : Pair) (o : Option Pending) (pending pending' : Entries) (ready ready' : List Pair)
    → Owned pending ready
    → Distinct pending'
    → ((j : Pair) → find j pending' ≡ (if same k j then o else find j pending))
    → Sound o
    → (is_queued o ≡ true → member k ready' ≡ true)
    → ((j : Pair) → same k j ≡ false → member j ready ≡ true → member j ready' ≡ true)
    → Owned pending' ready'
set-Owned k o pending pending' ready ready' w d found s q keep = record {
  distinct = d;
  sound = λ j. elim (Bool-cases (same k j)) [
    | inl e ↦ rw (found j, e) s
    | inr e ↦ rw (found j, e) (w.sound j)
  ];
  listed = λ j h. elim (Bool-cases (same k j)) [
    | inl e ↦ subst (λ i. member i ready' ≡ true) (same-eq k j e) (q (rw (found j, e) at h))
    | inr e ↦ keep j e (w.listed j (rw (found j, e) at h))
  ];
}

-- an entry is written and the queue stays
pub put-Owned :
    (k : Pair) (p : Pending) (pending : Entries) (ready : List Pair)
    → Owned pending ready
    → Sound (some p)
    → (p.queued ≡ true → is_queued (find k pending) ≡ true)
    → Owned (put k p pending) ready
put-Owned k p pending ready w s q =
    set-Owned k (some p) pending _ ready ready w (put-Distinct k p pending w.distinct)
      (λ j. find-put k j p pending) s (λ h. w.listed k (q h)) (λ j e h. h)

pop-Owned :
    (k : Pair) (pending : Entries) (ready : List Pair)
    → Owned pending ready
    → Owned (pop k pending) ready
pop-Owned k pending ready w =
    set-Owned k none pending _ ready ready w (pop-Distinct k pending w.distinct)
      (λ j. find-pop k j pending w.distinct) tt (λ h. absurd cc) (λ j e h. h)

member-append : (k : Pair) (xs ys : List Pair) → member k (xs ++ ys) ≡ (member k xs || member k ys)
unfolding member
member-append k [] ys = refl
member-append k (x ∷ xs) ys = ground (arith, member-append k xs ys)

pub create_all-Owned :
    (pairs : List Pair) (pending : Entries) (ready : List Pair)
    → Owned pending ready
    → Owned (create_all pairs pending) ready
unfolding create_all
create_all-Owned [] pending ready w = w
create_all-Owned (k ∷ pairs) pending ready w =
    create_all-Owned pairs _ ready
      (put-Owned k new_pending pending ready w (refl, refl) (λ h. absurd cc))

reserve_found-Owned :
    (k : Pair) (o : Option Pending) (pending : Entries) (ready : List Pair)
    → find k pending ≡ o
    → Owned pending ready
    → Owned (reserve_found k o pending) ready
unfolding reserve_found
reserve_found-Owned k none pending ready e w = w
reserve_found-Owned k (some p) pending ready e w =
    put-Owned k (reserve_one p) pending ready w (subst Sound e (w.sound k)) (λ h. rw e h)

pub reserve_all-Owned :
    (pairs : List Pair) (pending : Entries) (ready : List Pair)
    → Owned pending ready
    → Owned (reserve_all pairs pending) ready
unfolding reserve_all
reserve_all-Owned [] pending ready w = w
reserve_all-Owned (k ∷ pairs) pending ready w =
    reserve_all-Owned pairs _ ready (reserve_found-Owned k (find k pending) pending ready refl w)

cancel_one-Owned :
    (k : Pair) (o : Option Pending) (pending : Entries) (ready : List Pair)
    → find k pending ≡ o
    → Owned pending ready
    → Owned (cancel_one k o pending) ready
unfolding cancel_one
cancel_one-Owned k none pending ready e w = w
cancel_one-Owned k (some p) pending ready e w =
    let p' : Pending = record p { reservations = p.reservations - 1 } in
    elim (Bool-cases (is_idle p')) [
      | inl i ↦ rw (cancel_one, i) (pop-Owned k pending ready w)
      | inr i ↦
          rw (cancel_one, i)
            (put-Owned k p' pending ready w (subst Sound e (w.sound k)) (λ h. rw e h))
    ]

pub cancel_all-Owned :
    (pairs : List Pair) (pending : Entries) (ready : List Pair)
    → Owned pending ready
    → Owned (cancel_all pairs pending) ready
unfolding cancel_all
cancel_all-Owned [] pending ready w = w
cancel_all-Owned (k ∷ pairs) pending ready w =
    cancel_all-Owned pairs _ ready (cancel_one-Owned k (find k pending) pending ready refl w)

pub listed_last : (k : Pair) (ready : List Pair) → member k (ready ++ (k ∷ [])) ≡ true
unfolding member
listed_last k ready = ground (arith, member-append k ready (k ∷ []), same_self k)

-- an entry is written and its pair goes on the queue
pub queue-Owned :
    (k : Pair) (p : Pending) (pending : Entries) (ready : List Pair)
    → Owned pending ready
    → Sound (some p)
    → Owned (put k p pending) (ready ++ (k ∷ []))
queue-Owned k p pending ready w s =
    set-Owned k (some p) pending _ ready _ w (put-Distinct k p pending w.distinct)
      (λ j. find-put k j p pending) s (λ h. listed_last k ready)
      (λ j e h. ground (arith, member-append j ready (k ∷ []), h))

pub published-Sound :
    (x : StoredCrdtEntry) (p : Pending) → Sound (some p) → Sound (some (published x p))
published-Sound x p s = ground (arith, s)

-- The end of a send of an entry that is in flight: it goes, or waits for its reservations, or is back
-- on the queue.
pub finish_one-Owned :
    (k : Pair) (sent : ℕ) (o : Option Pending) (b : ReplicationOutbox)
    → find k b.pending ≡ o
    → is_sending o ≡ true
    → Owned b.pending b.ready
    → Owned (finish_one k sent o b).pending (finish_one k sent o b).ready
unfolding finish_one
finish_one-Owned k sent none b e f w = absurd cc
finish_one-Owned k sent (some r) b e f w = elim (Bool-cases (r.generation == sent)) [
  | inl g ↦ elim (Bool-cases (r.reservations == 0)) [
    | inl z ↦ rw (finish_one, g, z) (pop-Owned k b.pending b.ready w)
    | inr z ↦
        rw (finish_one, g, z) (put-Owned k _ b.pending b.ready w (refl, refl) (λ h. absurd cc))
  ]
  | inr g ↦ elim (Bool-cases r.queued) [
    | inl z ↦ absurd (ground (arith, f, z, subst Sound e (w.sound k)))
    | inr z ↦
        rw (finish_one, g, z)
          (queue-Owned k _ b.pending b.ready w (ground (arith, f, subst Sound e (w.sound k))))
  ]
]

-- the head of the queue is dropped, if it is not queued
pub drop-Owned :
    (k : Pair) (pending : Entries) (ready : List Pair)
    → Owned pending (k ∷ ready)
    → is_queued (find k pending) ≡ false
    → Owned pending ready
unfolding member
drop-Owned k pending ready w n = record {
  distinct = w.distinct;
  sound = w.sound;
  listed = λ j h. elim (Bool-cases (same k j)) [
    | inl e ↦ absurd (ground (arith, h, n, ap (λ i. is_queued (find i pending)) (same-eq k j e)))
    | inr e ↦ ground (arith, w.listed j h, e)
  ];
}

-- the head of the queue is handed out
pub hand-Owned :
    (k : Pair) (p : Pending) (pending : Entries) (ready : List Pair)
    → Owned pending (k ∷ ready)
    → is_some p.state ≡ true
    → Owned (put k (handed_out p) pending) ready
unfolding member
hand-Owned k p pending ready w s =
    set-Owned k (some (handed_out p)) pending _ (k ∷ ready) ready w
      (put-Distinct k (handed_out p) pending w.distinct) (λ j. find-put k j (handed_out p) pending)
      (sym s, refl) (λ h. absurd cc) (λ j e h. ground (arith, h, e))

-- What the loop of `next_ready` gives: it waits only when no pair is queued, and else hands out the
-- newest state of a pair that was neither in flight nor without a state, and marks it as in flight.
abbrev pub Hands : Entries → (List Pair × Entries) × Option PendingReplication → Type 0
Hands pending ((ready, pending'), none) = (k : Pair) → is_queued (find k pending) ≡ false
Hands pending ((ready, pending'), some item) =
    (p : Pending) × (find (item.peer_node_id, item.key) pending ≡ some p)
    × (p.in_flight ≡ false)
    × (p.state ≡ some item.state)
    × (p.generation ≡ item.generation)
    × (find (item.peer_node_id, item.key) pending' ≡ some (handed_out p))

pub next_loop-none :
    (k : Pair) (pending : Entries) → Owned pending [] → is_queued (find k pending) ≡ false
unfolding member
next_loop-none k pending w = elim (Bool-cases (is_queued (find k pending))) [
  | inl h ↦ absurd (ground (arith, w.listed k h))
  | inr h ↦ h
]
