-- ===== src/Tests/Stores.antt =====
-- Entries and their store at concrete inputs.
use advanced_distributed_sys.Base.{◌≡◌, refl, List, [], ◌∷◌, none, some, ok, arith}
use mathlib.Core.Path.{subst}
use advanced_distributed_sys.Order.{list_ord, nat_ord, pair_ord}
use advanced_distributed_sys.Sorted
use advanced_distributed_sys.Counts
use advanced_distributed_sys.Causal.Actor.{CausalActor, actor_ord}
use advanced_distributed_sys.Causal.Version
use advanced_distributed_sys.Crdt.GCounter
use advanced_distributed_sys.Crdt.GCounter.{GCounter}
use advanced_distributed_sys.Replication.Digest.{from_entry, compare_digest}
use advanced_distributed_sys.Replication.Digest.Compare.{Compares, compare_digest-Compares}
use advanced_distributed_sys.Storage.Entry
use advanced_distributed_sys.Storage.Entry.{
  StoredCrdtEntry, gcounter, orset, of_gcounter, merge_state, merge_entries,
}
use advanced_distributed_sys.Storage.Entry.Merging
use advanced_distributed_sys.Storage.Entry.Merging.{merge_entries_comm}
use advanced_distributed_sys.Storage.Store
use advanced_distributed_sys.Storage.Store.{
  CrdtStore, StoreCall, puts, replaces, merges, learns, merge_entry,
}
use advanced_distributed_sys.Storage.Store.Typed.{type_at, run-type_at}
use advanced_distributed_sys.Storage.Store.Delivery
use advanced_distributed_sys.Storage.Store.Delivery.{
  Delivers, merge_entry-Delivers, merge_entry-redelivered,
}

abbrev pub a1 : CausalActor
a1 = record { node_id = 97 ∷ []; incarnation = 1 }

abbrev pub b1 : CausalActor
b1 = record { node_id = 98 ∷ []; incarnation = 1 }

abbrev pub likes : StoredCrdtEntry
likes = record {
  key = 107 ∷ [];
  crdt_type = gcounter;
  state = of_gcounter (record { components = (a1, 2) ∷ [] });
  state_version = record { entries = (a1, 1) ∷ [] };
  causal_context = record { entries = [] };
}

abbrev pub remote_likes : StoredCrdtEntry
remote_likes = record likes {
  state = of_gcounter (record { components = (b1, 5) ∷ [] });
  state_version = record { entries = (b1, 1) ∷ [] };
}

abbrev all_likes : StoredCrdtEntry
all_likes = record likes {
  state = of_gcounter (record { components = (a1, 2) ∷ (b1, 5) ∷ [] });
  state_version = record { entries = (a1, 1) ∷ (b1, 1) ∷ [] };
}

program : Unit {0}
unfolding actor_ord list_ord nat_ord pair_ord Counts.all_keys Counts.get Counts.merge
    Counts.of_counts Counts.nonzero Sorted.find Sorted.put Sorted.sort_items Sorted.insort
    Sorted.member Sorted.dedup Version.merge GCounter.merge merge_state merge_entries
    Entry.make_entry merge_entry Store.get Store.replace Store.replace_by Store.run
program = tt

pub likes-IsValid : Merging.IsValid likes
unfolding program
likes-IsValid = record {
  named = refl;
  typed = refl;
  state = ((tt, tt), (omega arith, tt));
  version = ((tt, tt), (omega arith, tt));
  context = (tt, tt);
}

pub remote-IsValid : Merging.IsValid remote_likes
unfolding program
remote-IsValid = record {
  named = refl;
  typed = refl;
  state = ((tt, tt), (omega arith, tt));
  version = ((tt, tt), (omega arith, tt));
  context = (tt, tt);
}

merged_likes : merge_entries likes remote_likes ≡ ok all_likes
unfolding program
merged_likes = refl

abbrev pub likes_store : CrdtStore
likes_store = record { entries = (107 ∷ [], likes) ∷ [] }

empty-IsValid : Delivery.IsValid Store.empty
unfolding program
empty-IsValid = record { distinct = tt; filed = λ k. tt }

stored : merge_entry likes Store.empty ≡ (likes_store, ok likes)
unfolding program
stored = refl

pub likes_store-IsValid : Delivery.IsValid likes_store
likes_store-IsValid =
    let d : Delivers likes Store.empty (likes_store, ok likes) =
      subst (Delivers likes Store.empty) stored
        (merge_entry-Delivers likes Store.empty likes-IsValid empty-IsValid) in
    d.4

delivered :
    merge_entry remote_likes likes_store
    ≡ (record { entries = (107 ∷ [], all_likes) ∷ [] }, ok all_likes)
unfolding program
delivered = refl

merge_entry-Delivers_example :
    Delivers remote_likes likes_store (merge_entry remote_likes likes_store)
merge_entry-Delivers_example =
    merge_entry-Delivers remote_likes likes_store remote-IsValid likes_store-IsValid

merge_entry-redelivered_example :
    merge_entry remote_likes (record { entries = (107 ∷ [], all_likes) ∷ [] })
    ≡ (record { entries = (107 ∷ [], all_likes) ∷ [] }, ok all_likes)
merge_entry-redelivered_example =
    merge_entry-redelivered remote_likes all_likes likes_store
      (record { entries = (107 ∷ [], all_likes) ∷ [] }) remote-IsValid likes_store-IsValid delivered

abbrev calls : List StoreCall
calls =
    puts remote_likes
    ∷ merges remote_likes
    ∷ replaces (record likes { crdt_type = orset }) none
    ∷ learns (107 ∷ []) (record { entries = (b1, 4) ∷ [] })
    ∷ []

run-type_at_example : type_at (107 ∷ []) (Store.run calls likes_store) ≡ some gcounter
unfolding program
run-type_at_example = run-type_at calls likes_store (107 ∷ []) gcounter refl

compare_digest-Compares_example :
    Compares
      (from_entry likes)
      (from_entry remote_likes)
      (compare_digest (from_entry likes) (from_entry remote_likes))
compare_digest-Compares_example =
    compare_digest-Compares (from_entry likes) (from_entry remote_likes) likes-IsValid.version
      remote-IsValid.version
