-- ===== src/Recovery/Restore.antt =====
-- recovery/restore.py: the identity, the clock and the entries of a node, read back from its file. How each
-- access of the file ends is an argument.
pub mod Entries
pub mod Loading
pub mod Refines
pub mod Dots
use advanced_distributed_sys.Base.{
  ℕ, ◌≡◌, refl, Bool, true, false, not, List, [], ◌∷◌, Option, none, some, Result, ok, raise, Error,
  if◌then◌else◌, ◌>>=◌,
}
use advanced_distributed_sys.Base.Int.{pos}
use advanced_distributed_sys.Order.{Str, list_ord, nat_ord, pair_ord, same}
use advanced_distributed_sys.Causal.Actor.{CausalActor, actor_ord}
use advanced_distributed_sys.Causal.Version
use advanced_distributed_sys.Causal.Version.{VersionVector, get}
use advanced_distributed_sys.Causal.Clock.{CausalClock, new_clock, restore}
use advanced_distributed_sys.Storage.Entry.{StoredCrdtEntry}
use advanced_distributed_sys.Storage.Store
use advanced_distributed_sys.Storage.Store.{CrdtStore}
use advanced_distributed_sys.Persistence.Models.{
  DurableNodeIdentity, DurableCausalState, make_state,
}
use advanced_distributed_sys.Persistence.Repository.{
  Codec, Database, Access, integrity_check, load_identity, initialize_identity, actor_of,
  load_clock, save_clock, load_entries,
}
use advanced_distributed_sys.Persistence.Durable.{restore_entries}

pub record RestoredNodeState : Type 0 where
  pub identity : DurableNodeIdentity
  pub causal_state : DurableCausalState
  pub clock : CausalClock
  pub memory_store : CrdtStore

-- how the accesses of a restoration end, a reading of the clock and a fresh identifier
pub record Start : Type 0 where
  pub now : ℕ
  pub fresh_uuid : Str
  pub checks : Access
  pub loads_identity : Access
  pub initializes : Access
  pub loads_clock : Access
  pub saves_first : Access
  pub loads_entries : Access
  pub saves_merged : Access

-- what follows a call that may write and may raise
abbrev pub behind :
    {A B : Type 0}
    → Database × Result A
    → (Database → A → Database × Result B)
    → Database × Result B
behind (db, raise e) next = (db, raise e)
behind (db, ok a) next = next db a

-- a call that only reads
abbrev pub reading : {A : Type 0} → Database → Result A → Database × Result A
reading db r = (db, r)

-- the identity that is loaded, or the one that is made; the call that follows a mismatch raises
unfoldable pub settle_identity :
    Start → Str → Option DurableNodeIdentity → Database → Database × Result DurableNodeIdentity
unfolding initialize_identity
settle_identity start configured_node_id none db =
    initialize_identity start.now start.fresh_uuid start.initializes configured_node_id db
settle_identity start configured_node_id (some identity) db =
    if not (same identity.configured_node_id configured_node_id)
    then behind
        (initialize_identity start.now start.fresh_uuid start.initializes configured_node_id db)
        (λ db' _. (db', ok identity))
    else (db, ok identity)

-- the loop over the entries
unfoldable pub merge_contexts : VersionVector → List StoredCrdtEntry → VersionVector
merge_contexts frontier [] = frontier
merge_contexts frontier (e ∷ entries) =
    merge_contexts (Version.merge frontier e.causal_context) entries

-- `==` on the items of two vectors
unfoldable pub same_items : VersionVector → VersionVector → Bool
unfolding list_ord pair_ord actor_ord nat_ord
same_items v w = same v.entries w.entries

-- the memory and the clock of the node
unfoldable pub rebuild :
    DurableNodeIdentity
    → CausalActor
    → DurableCausalState
    → List StoredCrdtEntry
    → Result RestoredNodeState
unfolding restore_entries restore
rebuild identity actor state entries =
    let (memory, r) = restore_entries entries Store.empty in
    r >>= λ _. ok (record {
      identity = identity;
      causal_state = state;
      clock = (restore state.frontier (new_clock actor)).0;
      memory_store = memory;
    })

module _ (codec : Codec) where
  -- the clock that is loaded, or an empty one that is saved
  unfoldable pub settle_clock :
      Start
      → CausalActor
      → Option DurableCausalState
      → Database
      → Database × Result DurableCausalState
  unfolding make_state save_clock
  settle_clock start actor (some state) db = (db, ok state)
  settle_clock start actor none db =
      behind (reading db (make_state actor (pos 0) Version.empty)) (λ db' state.
        behind (save_clock codec start.saves_first state db') (λ db'' _. (db'', ok state)))

  -- the clock with what the entries know, saved if that is more
  unfoldable pub raise_clock :
      Start
      → CausalActor
      → VersionVector
      → DurableCausalState
      → Database
      → Database × Result DurableCausalState
  unfolding make_state save_clock same_items
  raise_clock start actor merged state db =
      if same_items merged state.frontier
      then (db, ok state)
      else behind (reading db (make_state actor (pos (get merged actor)) merged)) (λ db' raised.
        behind (save_clock codec start.saves_merged raised db') (λ db'' _. (db'', ok raised)))

  unfoldable pub restore_node : Start → Str → Database → Database × Result RestoredNodeState
  unfolding integrity_check load_identity settle_identity actor_of load_clock settle_clock
      load_entries raise_clock merge_contexts rebuild
  restore_node start configured_node_id db =
      behind (reading db (integrity_check start.checks db)) (λ db1 _.
        behind (reading db1 (load_identity start.loads_identity db1)) (λ db2 loaded.
          behind (settle_identity start configured_node_id loaded db2) (λ db3 identity.
            behind (reading db3 (actor_of identity)) (λ db4 actor.
              behind (reading db4 (load_clock codec start.loads_clock db4)) (λ db5 saved.
                behind (settle_clock start actor saved db5) (λ db6 state.
                  behind (reading db6 (load_entries codec start.loads_entries db6)) (λ db7 entries.
                    behind
                      (raise_clock start actor (merge_contexts state.frontier entries) state db7)
                      (λ db8 raised. reading db8 (rebuild identity actor raised entries)))))))))
