-- ===== src/Recovery/Restore/Refines.antt =====
-- After a crash at any time, a node comes back with what its memory held.
use advanced_distributed_sys.Base.{◌≡◌, refl, sym, ap, ◌∙◌, Option, none, some, Result, ok, arith}
use mathlib.Core.Path.{subst}
use advanced_distributed_sys.Order.{Str, list_ord, nat_ord, pair_ord}
use advanced_distributed_sys.Sorted.{find, Distinct}
use advanced_distributed_sys.Causal.Actor.{actor_ord}
use advanced_distributed_sys.Causal.Version.{get}
use advanced_distributed_sys.Causal.Version.Lattice.{◌⊑◌}
use advanced_distributed_sys.Causal.Clock.{restore}
use advanced_distributed_sys.Storage.Entry.{StoredCrdtEntry}
use advanced_distributed_sys.Storage.Store
use advanced_distributed_sys.Storage.Store.{CrdtStore}
use advanced_distributed_sys.Persistence.Repository.{Codec, RoundTrips, Database}
use advanced_distributed_sys.Persistence.Durable.{DurableCrdtStore}
use advanced_distributed_sys.Persistence.Durable.Invariant.{Floor, IsDurable, decoded_row}
use advanced_distributed_sys.Recovery.Restore.{
  RestoredNodeState, merge_contexts, rebuild, restore_node,
}
use advanced_distributed_sys.Recovery.Restore.Entries.{
  or_else, restore_entries-holds, merge_contexts-knows,
}
use advanced_distributed_sys.Recovery.Restore.Loading.{
  smooth, load_entries-all, raise_clock-Raised, restore_node-loaded, same-IsValid, contexts_known,
}

-- the node that a restoration gives, with the file behind it
abbrev pub restarted : Database → RestoredNodeState → DurableCrdtStore
restarted db state = record { memory = state.memory_store; clock = state.clock; database = db }

-- What a restoration gives: a node of the same actor, with the entries that the memory held and no
-- other, whose clock knows the floor and what each entry depends on, and whose file is in order again.
abbrev pub Restores :
    Codec → Floor → DurableCrdtStore → Database × Result RestoredNodeState → Type 0
Restores codec floor s (db, r) =
    (state : RestoredNodeState) × (r ≡ ok state)
    × (state.clock.actor ≡ s.clock.actor)
    × ((k : Str) → find k state.memory_store.entries ≡ find k s.memory.entries)
    × (floor.1 ⊑ state.clock.frontier)
    × ((k : Str) (e : StoredCrdtEntry)
        → find k s.memory.entries ≡ some e
        → e.causal_context ⊑ state.clock.frontier)
    × IsDurable codec floor (restarted db state)

module _ (codec : Codec) (laws : RoundTrips codec) where
  pub restore_node-Restores :
      (floor : Floor) (s : DurableCrdtStore)
      → (d : IsDurable codec floor s)
      → Restores codec floor s (restore_node codec smooth d.identity.configured_node_id s.database)
  unfolding rebuild restore find
  restore_node-Restores floor s d =
      let (es, e, looks, once) = load_entries-all codec laws floor s d in
      let (valid, below, all) = merge_contexts-knows d.saved es d.saved_valid in
      let merged = merge_contexts d.saved es in
      let up = raise_clock-Raised codec laws floor s merged d valid in
      let (memory, r, holds, distinct) =
        restore_entries-holds codec laws es Store.empty once tt (λ k x h. refl) in
      let found : (k : Str) → find k memory.entries ≡ find k s.memory.entries =
        λ k. holds k ∙ rw (looks k) (or_else-none (find k s.memory.entries)) in
      let state : RestoredNodeState = record {
        identity = d.identity;
        causal_state = record {
          actor = s.clock.actor;
          local_counter = get up.frontier s.clock.actor;
          frontier = up.frontier;
        };
        clock = record { actor = s.clock.actor; frontier = up.frontier };
        memory_store = memory;
      } in
      let result : restore_node codec smooth d.identity.configured_node_id s.database
          ≡ (up.database, ok state) =
        restore_node-loaded codec laws floor s es d e ∙ rw (up.result, r) refl in
      subst (Restores codec floor s) (sym result) (
        state,
        refl,
        refl,
        found,
        (λ a. omega (arith, d.floor_known a, below a, up.knows a)),
        (λ k x h a.
            omega (arith, contexts_known codec laws es merged k x all (looks k ∙ h) a, up.knows a)),
        record {
          opened = up.opened;
          identity = d.identity;
          identified = up.identity ∙ d.identified;
          owner = d.owner;
          memory = same-IsValid codec laws s.memory memory distinct found d.memory;
          distinct = subst (λ rows. Distinct rows) (sym up.rows) d.distinct;
          rows = λ k.
              ap (λ rows. decoded_row codec (find k rows)) up.rows
              ∙ d.rows k
              ∙ ap ok (sym (found k));
          saved = up.frontier;
          saved_valid = up.valid;
          clock_row = up.clock_row;
          known = λ a. omega arith;
          frontier_valid = up.valid;
          owned = d.owned;
          floor_known = λ a. omega (arith, d.floor_known a, below a, up.knows a);
        },
      )
    where
      or_else-none : (o : Option StoredCrdtEntry) → or_else o none ≡ o
      or_else-none none = refl
      or_else-none (some x) = refl
