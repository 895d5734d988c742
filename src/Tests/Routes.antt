-- ===== src/Tests/Routes.antt =====
-- The ring of three nodes, a node that leaves it, and the routing of a task, at concrete inputs.
use advanced_distributed_sys.Base.{
  ℕ, ◌+◌, ◌<◌, ◌≤◌, ◌≡◌, refl, false, List, [], ◌∷◌, ◌++◌, ok, raise, local_overloaded,
  peer_transport_error, peer_unavailable, length, ◌>>=◌, if◌then◌else◌,
}
use advanced_distributed_sys.Order.{Str, list_ord, nat_ord, pair_ord, same}
use advanced_distributed_sys.Sorted.{sort_items, insort, member}
use advanced_distributed_sys.Cluster.Member.{ClusterMember, alive, dead}
use advanced_distributed_sys.Cluster.Ring.{
  Hashing, ConsistentHashRing, rebuild, points_of, member_points, range_from, bisect_left, visits,
  get_elem?, first_seen, candidates, replicas,
}
use advanced_distributed_sys.Cluster.Ring.Clockwise.{routed}
use advanced_distributed_sys.Cluster.Ring.Removal.{without, candidates-without}
use advanced_distributed_sys.Cluster.Ring.Complete.{NoRepeat, listed, lives, replicas_placed}
use advanced_distributed_sys.Cluster.Router.{
  World, execute, retryable, local_retryable, peer_retryable,
}
use advanced_distributed_sys.Cluster.Router.Outcome.{decides, execute-decides, execute_unavailable}

-- a hash that spreads short texts over a small ring
abbrev pub sum : Str → ℕ
sum [] = 0
sum (c ∷ cs) = c + sum cs

abbrev pub small_hash : Hashing
small_hash = record { hash = λ s. sum s; text = λ n. (n + 48) ∷ [] }

abbrev pub node : ℕ → ClusterMember
node n = record { node_id = n ∷ []; host = 104 ∷ []; port = 7000; status = alive; incarnation = 1 }

abbrev gone : ClusterMember
gone = record (node 99) { status = dead }

abbrev members : List ClusterMember
members = node 97 ∷ node 98 ∷ gone ∷ []

abbrev ring : ConsistentHashRing
ring = record { virtual_nodes = 2; positions = []; owners = [] }

abbrev key : Str
key = 100 ∷ 82 ∷ []

program : Unit {0}
unfolding rebuild points_of member_points range_from bisect_left visits get_elem? first_seen
    candidates replicas sort_items insort member list_ord nat_ord pair_ord retryable local_retryable
    peer_retryable
program = tt

candidates_found :
    candidates small_hash key (rebuild small_hash members ring) ≡ ok (node 98 ∷ node 97 ∷ [])
unfolding program
candidates_found = refl

candidates-without_example :
    candidates small_hash key (rebuild small_hash (without (98 ∷ []) members) ring) ≡ (
      candidates small_hash key (rebuild small_hash members ring) >>= λ ms.
      routed (without (98 ∷ []) ms))
candidates-without_example = candidates-without small_hash (98 ∷ []) key members ring

replicas_placed_example :
    NoRepeat (node 98 ∷ [])
    × (length (node 98 ∷ []) ≤ 1)
    × ((k : Str) → lives k members ≡ false → listed k (node 98 ∷ []) ≡ false)
    × (length (node 98 ∷ []) < 1 → (k : Str) → lives k members ≡ listed k (node 98 ∷ []))
unfolding program
replicas_placed_example = replicas_placed small_hash key members (node 98 ∷ []) ring 1 1 refl refl

-- node b is the local one and has no room; node a answers
abbrev world : World ℕ
world = record {
  expired = λ m. false;
  answer = λ m. if same m.node_id (98 ∷ []) then raise local_overloaded else ok 7;
}

abbrev down : World ℕ
down = record {
  expired = λ m. false;
  answer =
      λ m. if same m.node_id (98 ∷ []) then raise local_overloaded else raise peer_transport_error;
}

execute-decides_example :
    execute (98 ∷ []) small_hash (rebuild small_hash members ring) key world ≡ (
      (node 98 ∷ []) ++ (decides (98 ∷ []) world (node 97)).0,
      (decides (98 ∷ []) world (node 97)).1,
    )
unfolding program
execute-decides_example =
    execute-decides (98 ∷ []) small_hash (rebuild small_hash members ring) key world (node 98 ∷ [])
      [] (node 97) candidates_found (refl, tt) refl

execute_unavailable_example :
    execute (98 ∷ []) small_hash (rebuild small_hash members ring) key down
    ≡ (node 98 ∷ node 97 ∷ [], raise peer_unavailable)
unfolding program
execute_unavailable_example =
    execute_unavailable (98 ∷ []) small_hash (rebuild small_hash members ring) key down
      (node 98 ∷ node 97 ∷ []) candidates_found (refl, (refl, tt))
