-- ===== src/Tests/Clusters.antt =====
-- A node `a` that hears of `b`, cannot reach it and suspects it, at concrete inputs.
use advanced_distributed_sys.Base.{◌≡◌, refl, true, List, [], ◌∷◌, ok, raise, peer_transport_error}
use advanced_distributed_sys.Base.Int.{pos, negsuc}
use advanced_distributed_sys.Order.{Str, list_ord, nat_ord, pair_ord}
use advanced_distributed_sys.Sorted.{find, put, pop, sort_items, insort, member}
use advanced_distributed_sys.Cluster.Member.{make_member}
use advanced_distributed_sys.Cluster.Membership.{
  new_table, snapshot, alive_members, set_default, set_timers, record_timer_state, store,
  merge_remote, merge_one, merge_loop, bump, merge,
}
use advanced_distributed_sys.Cluster.Ring.{
  new_ring, rebuild, points_of, member_points, range_from, bisect_left, visits, get_elem?,
  first_seen, candidates,
}
use advanced_distributed_sys.Cluster.Ring.Complete.{NoRepeat, listed}
use advanced_distributed_sys.Cluster.Service.{
  ClusterService, Settings, host_or, new_service, is_transport, caught, is_version, sync_ring,
  vouches, after_change, after_merge, after_sync, merge_and_sync,
}
use advanced_distributed_sys.Cluster.Service.Probing.{Probe, helpers, gather, successful}
use advanced_distributed_sys.Cluster.Service.InStep.{InStep}
use advanced_distributed_sys.Cluster.Service.Steps.{ServiceStep, receives, hears_gossip, step, run}
use advanced_distributed_sys.Cluster.Service.Control.{
  Pinging, ping_req, ack, relayed, handle_control,
}
use advanced_distributed_sys.Cluster.Service.Detection.{found_alive, serve-candidates}
use advanced_distributed_sys.Tests.Routes.{small_hash, node}

abbrev settings : Settings
settings = record {
  node_id = 97 ∷ [];
  host = 104 ∷ [];
  advertise_host = [];
  suspicion_timeout = 5;
  dead_retention = 20;
  virtual_nodes = pos 2;
  indirect_probe_count = 2;
  cluster_seeds = [];
}

abbrev fresh : ClusterService
fresh = record {
  local_member = node 97;
  membership = record {
    local_node_id = 97 ∷ [];
    suspicion_timeout = 5;
    dead_retention = 20;
    members = (97 ∷ [], node 97) ∷ [];
    suspected_at = [];
    dead_at = [];
    version = 1;
  };
  ring = record { virtual_nodes = 2; positions = []; owners = [] };
  ring_version = negsuc 0;
  bootstrap_seeds = [];
  indirect_probe_count = 2;
}

abbrev heard : List ServiceStep
heard = receives ((3, node 98) ∷ []) ∷ hears_gossip (raise peer_transport_error) ∷ []

abbrev serving : ClusterService
serving = run small_hash heard (sync_ring small_hash fresh)

program : Unit {0}
unfolding rebuild points_of member_points range_from bisect_left visits get_elem? first_seen
    candidates sort_items insort member list_ord nat_ord pair_ord find put pop make_member new_table
    new_ring host_or new_service snapshot alive_members set_default set_timers record_timer_state
    store merge_remote merge_one merge_loop bump merge is_transport caught is_version sync_ring
    after_sync merge_and_sync step run helpers gather successful vouches after_change after_merge
    relayed handle_control
program = tt

made : new_service settings (pos 7000) (pos 1) ≡ ok fresh
unfolding program
made = refl

routed_key : candidates small_hash (100 ∷ 82 ∷ []) serving.ring ≡ ok (node 98 ∷ node 97 ∷ [])
unfolding program
routed_key = refl

serve-candidates_example :
    NoRepeat (node 98 ∷ node 97 ∷ [])
    × ((k : Str)
        → listed k (node 98 ∷ node 97 ∷ []) ≡ found_alive (find k serving.membership.members))
serve-candidates_example =
    serve-candidates small_hash settings (pos 7000) (pos 1) fresh heard (100 ∷ 82 ∷ [])
      (node 98 ∷ node 97 ∷ []) made routed_key

-- a target that no one reaches
abbrev lost : Probe
lost = record {
  starts = 4;
  suspects = 5;
  choose = λ m ms. m;
  ping = λ m ms. raise peer_transport_error;
  ping_request = λ m target ms. raise peer_transport_error;
  during_ping = λ s. s;
  during_requests = λ s. s;
}

-- `b` asks for a ping of `c`, which answers
abbrev relay : Pinging
relay = record {
  ping_target =
      λ m ms. ok (record { success = true; target_node_id = 99 ∷ []; gossip = (6, node 99) ∷ [] });
  during_ping = λ s. s;
}

relayed_reply :
    (handle_control small_hash relay (ping_req (node 99) ((5, node 98) ∷ [])) serving).1
    ≡ ok (ack true (99 ∷ []) (node 97 ∷ node 98 ∷ node 99 ∷ []))
unfolding program
relayed_reply = refl
