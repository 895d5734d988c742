-- ===== src/Cluster/Ring.antt =====
-- cluster/consistent_hash.py and replication/replica_selector.py: the ring of the virtual nodes, and the
-- replicas of a key. SHA-256 and the text of a number are not this program's: they are parameters.
pub mod Clockwise
pub mod Removal
pub mod Complete
use advanced_distributed_sys.Base.{
  ℕ, zero, suc, ◌+◌, ◌%◌, ◌≡◌, Bool, true, false, not, List, [], ◌∷◌, ◌++◌, Option, none, some,
  Result, ok, raise, value_error, no_route_error, runtime_error, ltb, if◌then◌else◌, ◌>>=◌, length,
  take, any,
}
use advanced_distributed_sys.Base.Int.{ℤ, pos, negsuc}
use advanced_distributed_sys.Order.{Str, str_ord, list_ord, nat_ord, pair_ord, same}
use advanced_distributed_sys.Sorted.{sort_items, member}
use advanced_distributed_sys.Cluster.Member.{ClusterMember}
use advanced_distributed_sys.Cluster.Membership.{is_alive}

-- the number that the digest of a text is, and the text of a number in an f-string
pub record Hashing : Type 0 where
  pub hash : Str → ℕ
  pub text : ℕ → Str

pub record ConsistentHashRing : Type 0 where
  pub virtual_nodes : ℕ
  pub positions : List ℕ
  pub owners : List ClusterMember

-- the constructor, with its guard
unfoldable pub new_ring : ℤ → Result ConsistentHashRing
new_ring (negsuc n) = raise value_error
new_ring (pos zero) = raise value_error
new_ring (pos (suc n)) = ok (record { virtual_nodes = suc n; positions = []; owners = [] })

-- a point with the key that the points are sorted by
abbrev pub Point : Type 0
Point = (ℕ × Str) × ClusterMember

abbrev pub positions_of : List Point → List ℕ
positions_of [] = []
positions_of (p ∷ points) = p.0.0 ∷ positions_of points

abbrev pub owners_of : List Point → List ClusterMember
owners_of [] = []
owners_of (p ∷ points) = p.1 ∷ owners_of points

-- `range(first, first + count)`
unfoldable pub range_from : ℕ → ℕ → List ℕ
range_from first zero = []
range_from first (suc count) = first ∷ range_from (first + 1) count

module _ (h : Hashing) where
  -- the points of one member; `#` is 35
  unfoldable pub member_points : ClusterMember → List ℕ → List Point
  member_points m [] = []
  member_points m (index ∷ indices) =
      ((h.hash (m.node_id ++ (35 ∷ h.text index)), m.node_id), m) ∷ member_points m indices

  -- the loop of `rebuild` over the members
  unfoldable pub points_of : ℕ → List ClusterMember → List Point
  unfolding member_points range_from
  points_of virtual_nodes [] = []
  points_of virtual_nodes (m ∷ members) =
      let rest = points_of virtual_nodes members in
      if not (is_alive m.status) then rest else member_points m (range_from 0 virtual_nodes) ++ rest

  unfoldable pub rebuild : List ClusterMember → ConsistentHashRing → ConsistentHashRing
  unfolding points_of
  rebuild members r =
      let points = sort_items (points_of r.virtual_nodes members) in
      record r { positions = positions_of points; owners = owners_of points }

-- `bisect.bisect_left` on rising positions: how many stand before the first that is not smaller
unfoldable pub bisect_left : List ℕ → ℕ → ℕ
bisect_left [] x = 0
bisect_left (p ∷ positions) x = if ltb p x then suc (bisect_left positions x) else 0

unfoldable pub get_elem? : List ClusterMember → ℕ → Option ClusterMember
get_elem? [] i = none
get_elem? (m ∷ ms) zero = some m
get_elem? (m ∷ ms) (suc i) = get_elem? ms i

abbrev pub cons_some : Option ClusterMember → List ClusterMember → List ClusterMember
cons_some none ms = ms
cons_some (some m) ms = m ∷ ms

-- the owners that the loop of `candidates` visits; each index is in range
unfoldable pub visits : List ClusterMember → ℕ → List ℕ → List ClusterMember
unfolding get_elem?
visits owners start [] = []
visits owners start (offset ∷ offsets) =
    cons_some (get_elem? owners ((start + offset) % length owners)) (visits owners start offsets)

-- the owners whose node was not seen before
unfoldable pub first_seen : List Str → List ClusterMember → List ClusterMember
first_seen seen [] = []
first_seen seen (m ∷ owners) =
    let fresh = m ∷ first_seen (m.node_id ∷ seen) owners in
    let rest = first_seen seen owners in if member m.node_id seen then rest else fresh

module _ (h : Hashing) where
  unfoldable pub candidates : Str → ConsistentHashRing → Result (List ClusterMember)
  unfolding bisect_left visits first_seen range_from
  candidates key r = elim r.positions [
    | [] ↦ raise no_route_error
    | _ ∷ _ ↦ ok (
        first_seen []
          (visits r.owners (bisect_left r.positions (h.hash key)) (range_from 0 (length r.owners))))
  ]

  -- `candidates(key)[0]`, which has an element where it does not raise
  unfoldable pub owner : Str → ConsistentHashRing → Result ClusterMember
  unfolding candidates
  owner key r = do ms ← candidates key r; elim ms [ [] ↦ raise runtime_error | m ∷ _ ↦ ok m ]

-- `ReplicaSelector`: the ring is the one of its service
pub record ReplicaSelector : Type 0 where
  pub ring : ConsistentHashRing
  pub replication_factor : ℕ

unfoldable pub new_selector : ConsistentHashRing → ℤ → Result ReplicaSelector
new_selector r (negsuc n) = raise value_error
new_selector r (pos zero) = raise value_error
new_selector r (pos (suc n)) = ok (record { ring = r; replication_factor = suc n })

-- the first whose node is another
unfoldable pub first_other : Str → List ClusterMember → Option ClusterMember
first_other node_id [] = none
first_other node_id (m ∷ ms) =
    let rest = first_other node_id ms in if not (same m.node_id node_id) then some m else rest

module _ (h : Hashing) where
  unfoldable pub replicas : Str → ReplicaSelector → Result (List ClusterMember)
  unfolding candidates
  replicas key s = do ms ← candidates h key s.ring; ok (take s.replication_factor ms)

  unfoldable pub is_replica : Str → Str → ReplicaSelector → Result Bool
  unfolding replicas
  is_replica node_id key s = do ms ← replicas key s; ok (any (λ m. same m.node_id node_id) ms)

  unfoldable pub first_remote_replica : Str → Str → ReplicaSelector → Result (Option ClusterMember)
  unfolding replicas first_other
  first_remote_replica local_node_id key s = do
    ms ← replicas key s
    ok (first_other local_node_id ms)
