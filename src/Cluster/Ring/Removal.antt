-- ===== src/Cluster/Ring/Removal.antt =====
-- A node that leaves takes only itself out of the candidates of a key.
use advanced_distributed_sys.Base.{
  ℕ, ◌≡◌, refl, sym, ap, ◌∙◌, Bool, true, false, not, ◌||◌, List, [], ◌∷◌, ◌++◌, filter, arith,
  Bool-cases, inl, inr, ◌>>=◌,
}
use advanced_distributed_sys.Order.{Str, list_ord, nat_ord, pair_ord, same}
use advanced_distributed_sys.Sorted.{sort_items, member}
use advanced_distributed_sys.Sorted.Laws.{same-eq, same_comm}
use advanced_distributed_sys.Sorted.Stable.{filter-sort_items}
use advanced_distributed_sys.Cluster.Member.{ClusterMember}
use advanced_distributed_sys.Cluster.Ring.{
  Hashing, ConsistentHashRing, Point, owners_of, range_from, member_points, points_of, rebuild,
  first_seen, candidates,
}
use advanced_distributed_sys.Cluster.Ring.Clockwise.{
  is_ahead, is_behind, clockwise, routed, clockwise_nodes, candidates-clockwise_nodes,
}

filter-append :
    {A : Type 0} (p : A → Bool) (xs ys : List A) → filter p (xs ++ ys) ≡ filter p xs ++ filter p ys
filter-append p [] ys = refl
filter-append p (x ∷ xs) ys = ground (arith, filter-append p xs ys)

filter_comm :
    {A : Type 0} (p q : A → Bool) (xs : List A) → filter p (filter q xs) ≡ filter q (filter p xs)
filter_comm p q [] = refl
filter_comm p q (x ∷ xs) = ground (arith, filter_comm p q xs)

-- the members of other nodes
abbrev pub without : Str → List ClusterMember → List ClusterMember
without node_id ms = filter (λ m. not (same m.node_id node_id)) ms

abbrev of_others : Str → Point → Bool
of_others node_id p = not (same p.1.node_id node_id)

module _ (h : Hashing) (node_id : Str) where
  member_points-kept :
      (m : ClusterMember) (indices : List ℕ)
      → same m.node_id node_id ≡ false
      → filter (of_others node_id) (member_points h m indices) ≡ member_points h m indices
  unfolding member_points
  member_points-kept m [] e = refl
  member_points-kept m (i ∷ indices) e = rw (e, member_points-kept m indices e) refl

  member_points-dropped :
      (m : ClusterMember) (indices : List ℕ)
      → same m.node_id node_id ≡ true
      → filter (of_others node_id) (member_points h m indices) ≡ []
  unfolding member_points
  member_points-dropped m [] e = refl
  member_points-dropped m (i ∷ indices) e = rw (e, member_points-dropped m indices e) refl

  points_of-without :
      (n : ℕ) (members : List ClusterMember)
      → points_of h n (without node_id members) ≡ filter (of_others node_id) (points_of h n members)
  unfolding points_of
  points_of-without n [] = refl
  points_of-without n (m ∷ members) = elim (Bool-cases (same m.node_id node_id)) [
    | inl e ↦ ground (
      arith,
      e,
      points_of-without n members,
      filter-append (of_others node_id) (member_points h m (range_from 0 n))
          (points_of h n members),
      member_points-dropped m (range_from 0 n) e,
    )
    | inr e ↦ ground (
      arith,
      e,
      points_of-without n members,
      filter-append (of_others node_id) (member_points h m (range_from 0 n))
          (points_of h n members),
      member_points-kept m (range_from 0 n) e,
    )
  ]

owners_of-without :
    (node_id : Str) (points : List Point)
    → owners_of (filter (of_others node_id) points) ≡ without node_id (owners_of points)
owners_of-without node_id [] = refl
owners_of-without node_id (p ∷ points) = ground (arith, owners_of-without node_id points)

clockwise-without :
    (node_id : Str) (x : ℕ) (points : List Point)
    → clockwise x (filter (of_others node_id) points) ≡ without node_id (clockwise x points)
clockwise-without node_id x points =
    rw
      (
        filter_comm (is_ahead x) (of_others node_id) points,
        filter_comm (is_behind x) (of_others node_id) points,
        owners_of-without node_id (filter (is_ahead x) points),
        owners_of-without node_id (filter (is_behind x) points),
      )
      (sym (
        filter-append (λ m. not (same m.node_id node_id)) (owners_of (filter (is_ahead x) points))
          (owners_of (filter (is_behind x) points))))

first_seen-without :
    (node_id : Str) (seen seen' : List Str) (ms : List ClusterMember)
    → ((k : Str) → same k node_id ≡ false → member k seen ≡ member k seen')
    → first_seen seen (without node_id ms) ≡ without node_id (first_seen seen' ms)
unfolding first_seen member
first_seen-without node_id seen seen' [] f = refl
first_seen-without node_id seen seen' (m ∷ ms) f = elim (Bool-cases (same m.node_id node_id)) [
  | inl e ↦
      let first = first_seen-without node_id seen seen' ms f in
      let later =
        first_seen-without node_id seen (m.node_id ∷ seen') ms (λ k d. f k d ∙ other_node k d e) in
      ground (arith, e, first, later)
  | inr e ↦
      let agree = f m.node_id e in
      let old = first_seen-without node_id seen seen' ms f in
      let fresh =
        first_seen-without node_id (m.node_id ∷ seen) (m.node_id ∷ seen') ms
          (λ k d. ap (λ b. same m.node_id k || b) (f k d)) in
      ground (arith, e, agree, old, fresh)
]
  where
    other_node :
        (k : Str)
        → same k node_id ≡ false
        → same m.node_id node_id ≡ true
        → member k seen' ≡ member k (m.node_id ∷ seen')
    other_node k d e =
        let i = same-eq m.node_id node_id e in
        let apart : same m.node_id k ≡ false = rw i (same_comm node_id k ∙ d) in rw apart refl

routed-without :
    (node_id : Str) (ms : List ClusterMember)
    → routed (without node_id ms) ≡ (routed ms >>= λ all. routed (without node_id all))
routed-without node_id [] = refl
routed-without node_id (m ∷ ms) = refl

-- When a node leaves, the candidates of every key are those that it had, in the same order, less that
-- node; and there is no route where it was the only one.
pub candidates-without :
    (h : Hashing) (node_id key : Str) (members : List ClusterMember) (r : ConsistentHashRing)
    → candidates h key (rebuild h (without node_id members) r)
      ≡ (candidates h key (rebuild h members r) >>= λ ms. routed (without node_id ms))
candidates-without h node_id key members r =
    let x = h.hash key in
    let points = points_of h r.virtual_nodes members in
    let fewer : sort_items (points_of h r.virtual_nodes (without node_id members))
        ≡ filter (of_others node_id) (sort_items points) =
      ap sort_items (points_of-without h node_id r.virtual_nodes members)
      ∙ sym (filter-sort_items (of_others node_id) points) in
    let nodes = clockwise x (sort_items points) in
    let left : clockwise_nodes x (filter (of_others node_id) (sort_items points))
        ≡ without node_id (clockwise_nodes x (sort_items points)) =
      ap (first_seen []) (clockwise-without node_id x (sort_items points))
      ∙ first_seen-without node_id [] [] nodes (λ k d. refl) in
    candidates-clockwise_nodes h key (without node_id members) r
    ∙ ap (λ ps. routed (clockwise_nodes x ps)) fewer
    ∙ ap routed left
    ∙ routed-without node_id (clockwise_nodes x (sort_items points))
    ∙ ap (λ ms. ms >>= λ all. routed (without node_id all))
        (sym (candidates-clockwise_nodes h key members r))
