-- ===== src/Tests/Repairs.antt =====
-- A node `a` that repairs the key `k` from `b` before it reads, at concrete inputs.
use advanced_distributed_sys.Base.{
  ◌≡◌, refl, true, List, [], ◌∷◌, some, Result, ok, raise, peer_transport_error, deadline_exceeded,
  causal_unavailable, ok-injective, All,
}
use mathlib.Core.Path.{subst}
use advanced_distributed_sys.Order.{list_ord, nat_ord, pair_ord}
use advanced_distributed_sys.Sorted
use advanced_distributed_sys.Counts
use advanced_distributed_sys.Causal.Actor.{actor_ord}
use advanced_distributed_sys.Causal.Version
use advanced_distributed_sys.Causal.Version.{VersionVector}
use advanced_distributed_sys.Crdt.GCounter
use advanced_distributed_sys.Storage.Entry
use advanced_distributed_sys.Storage.Entry.{merge_state, merge_entries, with_context}
use advanced_distributed_sys.Storage.Store
use advanced_distributed_sys.Storage.Store.{CrdtStore, merge_entry, merge_metadata}
use advanced_distributed_sys.Cluster.Ring.{
  ConsistentHashRing, rebuild, points_of, member_points, range_from, bisect_left, visits, get_elem?,
  first_seen, candidates, ReplicaSelector, replicas,
}
use advanced_distributed_sys.Replication.CausalRepair.{
  PeerCrdtFetch, Fetching, fetch_error, with_merged, with_entry, merge_fetched, version_after,
  settle_current, satisfy, after_fetch, repair_from, ensure,
}
use advanced_distributed_sys.Replication.CausalRepair.Ensured.{Ensures, ensure-Ensures}
use advanced_distributed_sys.Replication.CausalRepair.Validity.{IsSound}
use advanced_distributed_sys.Tests.Routes.{small_hash, node}
use advanced_distributed_sys.Tests.Stores.{
  b1, remote_likes, remote-IsValid, likes_store, likes_store-IsValid,
}

abbrev required : VersionVector
required = record { entries = (b1, 1) ∷ [] }

abbrev fetched : List (Result PeerCrdtFetch)
fetched =
    ok (record { peer_node_id = 98 ∷ []; entry = some remote_likes; causal_frontier = required })
    ∷ raise peer_transport_error
    ∷ []

abbrev asked : Fetching
asked = record { fetch = λ ms. ok fetched; during = λ s. s }

abbrev late : Fetching
late = record { fetch = λ ms. raise deadline_exceeded; during = λ s. s }

abbrev ring : ConsistentHashRing
ring = record { virtual_nodes = 2; positions = []; owners = [] }

abbrev selector : ReplicaSelector
selector = record {
  ring = rebuild small_hash (node 97 ∷ node 98 ∷ []) ring;
  replication_factor = 2;
}

program : Unit {0}
unfolding actor_ord list_ord nat_ord pair_ord Counts.all_keys Counts.get Counts.merge
    Counts.of_counts Counts.nonzero Sorted.find Sorted.put Sorted.sort_items Sorted.insort
    Sorted.member Sorted.dedup Version.merge Version.compare Version.dominates GCounter.merge
    merge_state merge_entries Entry.make_entry with_context merge_entry merge_metadata Store.get
    Store.replace Store.replace_by rebuild points_of member_points range_from bisect_left visits
    get_elem? first_seen candidates replicas fetch_error with_merged with_entry merge_fetched
    version_after settle_current satisfy after_fetch repair_from ensure
program = tt

repaired :
    (ensure small_hash asked (97 ∷ []) selector (107 ∷ []) required likes_store).1
    ≡ ok (record {
      satisfied = true;
      merged_version = required;
      contacted_nodes = (98 ∷ []) ∷ [];
      successful_nodes = (98 ∷ []) ∷ [];
    })
unfolding program
repaired = refl

too_late :
    (ensure small_hash late (97 ∷ []) selector (107 ∷ []) required likes_store).1
    ≡ raise causal_unavailable
unfolding program
too_late = refl

ensure-Ensures_example :
    Ensures
      (107 ∷ [])
      required
      (ensure small_hash asked (97 ∷ []) selector (107 ∷ []) required likes_store)
ensure-Ensures_example =
    ensure-Ensures small_hash asked (97 ∷ []) selector (107 ∷ []) required likes_store
      (λ ms results e. subst (All IsSound) (ok-injective e) (remote-IsValid, (tt, tt)))
      likes_store-IsValid
