-- ===== src/Cluster/Ring/Complete.antt =====
-- The candidates of a key are all the alive nodes, each once, and its replicas are the first of them.
use advanced_distributed_sys.Base.{
  ℕ, zero, suc, ◌+◌, ◌<◌, ◌≤◌, ◌≡◌, refl, sym, ap, ◌∙◌, Bool, false, not, ◌||◌, ◌&&◌, List, [], ◌∷◌,
  ◌++◌, ok, length, take, length-take, filter, any, arith, Bool-cases, inl, inr, >>=-eq-ok,
  ok-injective,
}
use mathlib.Core.Path.{subst}
use advanced_distributed_sys.Order.{Str, list_ord, nat_ord, pair_ord, same}
use advanced_distributed_sys.Sorted.{insort, sort_items, member}
use advanced_distributed_sys.Sorted.Laws.{same-eq, same_self}
use advanced_distributed_sys.Cluster.Member.{ClusterMember}
use advanced_distributed_sys.Cluster.Membership.{is_alive}
use advanced_distributed_sys.Cluster.Ring.{
  Hashing, ConsistentHashRing, Point, owners_of, range_from, member_points, points_of, rebuild,
  first_seen, candidates, replicas,
}
use advanced_distributed_sys.Cluster.Ring.Clockwise.{
  is_ahead, is_behind, clockwise, routed, candidates-clockwise_nodes,
}

-- a node is among members
abbrev pub listed : Str → List ClusterMember → Bool
listed k ms = any (λ m. same m.node_id k) ms

-- each node once
abbrev pub NoRepeat : List ClusterMember → Type 0
NoRepeat [] = Unit {0}
NoRepeat (m ∷ ms) = (listed m.node_id ms ≡ false) × NoRepeat ms

abbrev owned : Str → List Point → Bool
owned k points = any (λ p. same p.1.node_id k) points

any-append :
    {A : Type 0} (p : A → Bool) (xs ys : List A) → any p (xs ++ ys) ≡ (any p xs || any p ys)
any-append p [] ys = refl
any-append p (x ∷ xs) ys = ground (arith, any-append p xs ys)

owned-insort : (k : Str) (e : Point) (m : List Point) → owned k (insort e m) ≡ owned k (e ∷ m)
unfolding insort
owned-insort k e [] = refl
owned-insort k e (f ∷ m) = ground (arith, owned-insort k e m)

owned-sort_items : (k : Str) (m : List Point) → owned k (sort_items m) ≡ owned k m
unfolding sort_items
owned-sort_items k [] = refl
owned-sort_items k (e ∷ m) = ground (arith, owned-insort k e (sort_items m), owned-sort_items k m)

listed-owners_of : (k : Str) (points : List Point) → listed k (owners_of points) ≡ owned k points
listed-owners_of k [] = refl
listed-owners_of k (p ∷ points) = ground (arith, listed-owners_of k points)

owned_sides :
    (k : Str) (x : ℕ) (points : List Point)
    → (owned k (filter (is_ahead x) points) || owned k (filter (is_behind x) points))
      ≡ owned k points
owned_sides k x [] = refl
owned_sides k x (p ∷ points) = ground (arith, owned_sides k x points)

listed-clockwise :
    (k : Str) (x : ℕ) (points : List Point) → listed k (clockwise x points) ≡ owned k points
listed-clockwise k x points =
    any-append (λ m. same m.node_id k) (owners_of (filter (is_ahead x) points))
      (owners_of (filter (is_behind x) points))
    ∙ rw
        (
          listed-owners_of k (filter (is_ahead x) points),
          listed-owners_of k (filter (is_behind x) points),
        )
        (owned_sides k x points)

owned-member_points :
    (h : Hashing) (k : Str) (m : ClusterMember) (first n : ℕ)
    → owned k (member_points h m (range_from first (suc n))) ≡ same m.node_id k
unfolding member_points range_from
owned-member_points h k m first zero = ground arith
owned-member_points h k m first (suc n) = ground (arith, owned-member_points h k m (first + 1) n)

-- an alive member of the node
abbrev pub lives : Str → List ClusterMember → Bool
lives k members = any (λ m. is_alive m.status && same m.node_id k) members

owned-points_of :
    (h : Hashing) (k : Str) (n : ℕ) (members : List ClusterMember)
    → owned k (points_of h (suc n) members) ≡ lives k members
unfolding points_of
owned-points_of h k n [] = refl
owned-points_of h k n (m ∷ members) = ground (
  arith,
  owned-points_of h k n members,
  owned-member_points h k m 0 n,
  any-append (λ p. same p.1.node_id k) (member_points h m (range_from 0 (suc n)))
      (points_of h (suc n) members),
)

listed-first_seen :
    (k : Str) (seen : List Str) (ms : List ClusterMember)
    → listed k (first_seen seen ms) ≡ (listed k ms && not (member k seen))
unfolding first_seen member
listed-first_seen k seen [] = refl
listed-first_seen k seen (m ∷ ms) = elim (Bool-cases (same m.node_id k)) [
  | inl e ↦
      let agree = ap (λ (j : Str). member j seen) (same-eq m.node_id k e) in
      ground
        (arith, e, agree, listed-first_seen k seen ms, listed-first_seen k (m.node_id ∷ seen) ms)
  | inr e ↦
      ground (arith, e, listed-first_seen k seen ms, listed-first_seen k (m.node_id ∷ seen) ms)
]

first_seen-NoRepeat : (seen : List Str) (ms : List ClusterMember) → NoRepeat (first_seen seen ms)
unfolding first_seen member
first_seen-NoRepeat seen [] = tt
first_seen-NoRepeat seen (m ∷ ms) = elim (Bool-cases (member m.node_id seen)) [
  | inl e ↦ rw e (first_seen-NoRepeat seen ms)
  | inr e ↦ rw e (
    listed-first_seen m.node_id (m.node_id ∷ seen) ms ∙ rw (same_self m.node_id) (ground arith),
    first_seen-NoRepeat (m.node_id ∷ seen) ms,
  )
]

routed-eq : (ms : List ClusterMember) {all : List ClusterMember} → routed ms ≡ ok all → ms ≡ all
routed-eq [] h = cc
routed-eq (m ∷ ms) h = cc

-- On a ring that is rebuilt with at least one point for a node, the candidates of every key are exactly
-- the nodes with an alive member, each once.
pub candidates_complete :
    (h : Hashing) (key : Str) (members ms : List ClusterMember) (r : ConsistentHashRing) (n : ℕ)
    → r.virtual_nodes ≡ suc n
    → candidates h key (rebuild h members r) ≡ ok ms
    → NoRepeat ms × ((k : Str) → listed k ms ≡ lives k members)
unfolding member
candidates_complete h key members ms r n v e =
    let points = sort_items (points_of h r.virtual_nodes members) in
    let nodes = clockwise (h.hash key) points in
    let all : first_seen [] nodes ≡ ms =
      routed-eq (first_seen [] nodes) (sym (candidates-clockwise_nodes h key members r) ∙ e) in
    (
      subst NoRepeat all (first_seen-NoRepeat [] nodes),
      λ k.
          ap (listed k) (sym all)
          ∙ listed-first_seen k [] nodes
          ∙ no_more (listed k nodes)
          ∙ listed-clockwise k (h.hash key) points
          ∙ owned-sort_items k (points_of h r.virtual_nodes members)
          ∙ ap (λ c. owned k (points_of h c members)) v
          ∙ owned-points_of h k n members,
    )
  where
    no_more : (b : Bool) → (b && not false) ≡ b
    no_more b = ground arith

listed-take :
    (k : Str) (n : ℕ) (ms : List ClusterMember) → listed k ms ≡ false → listed k (take n ms) ≡ false
listed-take k zero ms e = refl
listed-take k (suc n) [] e = refl
listed-take k (suc n) (m ∷ ms) e = ground (arith, listed-take k n ms)

take-NoRepeat : (n : ℕ) (ms : List ClusterMember) → NoRepeat ms → NoRepeat (take n ms)
take-NoRepeat zero ms h = tt
take-NoRepeat (suc n) [] h = tt
take-NoRepeat (suc n) (m ∷ ms) h = (listed-take m.node_id n ms h.0, take-NoRepeat n ms h.1)

take_all : (n : ℕ) (ms : List ClusterMember) → length (take n ms) < n → take n ms ≡ ms
take_all zero ms l = absurd omega arith
take_all (suc n) [] l = refl
take_all (suc n) (m ∷ ms) l = ap (λ (x : List ClusterMember). m ∷ x) (take_all n ms (omega arith))

-- The replicas of a key are at most as many as the replication factor, of alive nodes, and each node
-- once; and where they are fewer, every alive node is one of them. The ring is one that is rebuilt
-- with at least one point for a node.
pub replicas_placed :
    (h : Hashing) (key : Str) (members rs : List ClusterMember) (r : ConsistentHashRing)
    (factor n : ℕ)
    → r.virtual_nodes ≡ suc n
    → replicas h key (record { ring = rebuild h members r; replication_factor = factor }) ≡ ok rs
    → NoRepeat rs
      × (length rs ≤ factor)
      × ((k : Str) → lives k members ≡ false → listed k rs ≡ false)
      × (length rs < factor → (k : Str) → lives k members ≡ listed k rs)
unfolding replicas
replicas_placed h key members rs r factor n v e =
    let (all, c, t) = >>=-eq-ok (candidates h key (rebuild h members r)) _ e in
    let first : take factor all ≡ rs = ok-injective t in
    let (once, cover) = candidates_complete h key members all r n v c in
    (
      subst NoRepeat first (take-NoRepeat factor all once),
      omega (arith, length-take factor all, ap (λ (x : List ClusterMember). length x) first),
      (λ k d. ap (listed k) (sym first) ∙ listed-take k factor all (cover k ∙ d)),
      λ l k.
          sym (cover k)
          ∙ ap (listed k) (
              sym (
                take_all factor all
                  (subst (λ (x : List ClusterMember). length x < factor) (sym first) l))
              ∙ first),
    )
