-- ===== src/Recovery/Restore/Loading.antt =====
-- The accesses of a restoration, one by one: what each gives on the file of a node in order.
use advanced_distributed_sys.Base.{
  ◌≡◌, refl, sym, ap, ◌∙◌, true, List, [], ◌∷◌, some, Result, ok, arith, Bool-cases, inl, inr, All,
}
use mathlib.Core.Path.{subst}
use advanced_distributed_sys.Order.{Str, list_ord, nat_ord, pair_ord, same}
use advanced_distributed_sys.Sorted.{find, Distinct, sort_items}
use advanced_distributed_sys.Sorted.Laws.{
  find-sort_items, sort_items-IsSorted, IsSorted-Distinct, same-eq, same_self,
}
use advanced_distributed_sys.Causal.Actor.{actor_ord}
use advanced_distributed_sys.Causal.Version
use advanced_distributed_sys.Causal.Version.{VersionVector, get}
use advanced_distributed_sys.Causal.Version.Lattice.{◌⊑◌}
use advanced_distributed_sys.Storage.Entry.{StoredCrdtEntry}
use advanced_distributed_sys.Storage.Store.{CrdtStore}
use advanced_distributed_sys.Storage.Store.Delivery
use advanced_distributed_sys.Persistence.Models.{
  DurableNodeIdentity, DurableCausalState, make_state-get,
}
use advanced_distributed_sys.Persistence.Repository.{
  Codec, RoundTrips, Database, goes, ensure_open, integrity_check, load_identity, clock_of,
  load_clock, upsert_clock, save_clock, load_entries,
}
use advanced_distributed_sys.Persistence.Durable.{DurableCrdtStore}
use advanced_distributed_sys.Persistence.Durable.Invariant.{Floor, IsDurable, decoded_row}
use advanced_distributed_sys.Recovery.Restore.{
  Start, behind, reading, settle_identity, merge_contexts, same_items, settle_clock, raise_clock,
  rebuild, restore_node,
}
use advanced_distributed_sys.Recovery.Restore.Entries.{keyed, decode_rows-Decodes}

-- the accesses of a start that all go through
abbrev pub smooth : Start
smooth = record {
  now = 1;
  fresh_uuid = [];
  checks = goes;
  loads_identity = goes;
  initializes = goes;
  loads_clock = goes;
  saves_first = goes;
  loads_entries = goes;
  saves_merged = goes;
}

module _ (codec : Codec) (laws : RoundTrips codec) where
  -- the clock that is loaded
  load_clock-saved :
      (floor : Floor) (s : DurableCrdtStore)
      → (d : IsDurable codec floor s)
      → load_clock codec goes s.database
        ≡ ok (
            some (record {
              actor = s.clock.actor;
              local_counter = get d.saved s.clock.actor;
              frontier = d.saved;
            }))
  unfolding load_clock clock_of ensure_open
  load_clock-saved floor s d =
      rw
        (
          d.opened,
          d.identified,
          d.clock_row,
          d.owner,
          laws.vectors d.saved d.saved_valid,
          make_state-get s.clock.actor d.saved,
        )
        refl

  -- the entries that are loaded: those of the memory, each under its key
  pub load_entries-all :
      (floor : Floor) (s : DurableCrdtStore)
      → IsDurable codec floor s
      → (es : List StoredCrdtEntry) × (load_entries codec goes s.database ≡ ok es)
        × ((k : Str) → find k (keyed es) ≡ find k s.memory.entries)
        × Distinct (keyed es)
  unfolding load_entries ensure_open
  load_entries-all floor s d =
      let sorted = sort_items s.database.rows in
      let (es, e, looks, once) =
        decode_rows-Decodes codec laws sorted (λ k. find k s.memory.entries)
          (IsSorted-Distinct sorted (sort_items-IsSorted s.database.rows d.distinct))
          (λ k. ap (decoded_row codec) (find-sort_items k s.database.rows) ∙ d.rows k)
          d.memory.filed in
      (es, rw (d.opened, e) refl, looks, once)

  -- the saved clock after it was raised to what the entries know
  pub record Raised (s : DurableCrdtStore) (merged : VersionVector)
      (x : Database × Result DurableCausalState) : Type 0 where
    pub database : Database
    pub frontier : VersionVector
    pub result : x ≡ (
      database,
      ok (record {
        actor = s.clock.actor;
        local_counter = get frontier s.clock.actor;
        frontier = frontier;
      }),
    )
    pub knows : merged ⊑ frontier
    pub valid : Version.IsValid frontier
    pub opened : database.is_open ≡ true
    pub identity : database.identity ≡ s.database.identity
    pub rows : database.rows ≡ s.database.rows
    pub clock_row :
        database.clock ≡ some (get frontier s.clock.actor, codec.encode_version_vector frontier)

  pub raise_clock-Raised :
      (floor : Floor) (s : DurableCrdtStore) (merged : VersionVector)
      → (d : IsDurable codec floor s) → Version.IsValid merged
      → Raised s merged (
          raise_clock codec smooth s.clock.actor merged
            (record {
              actor = s.clock.actor;
              local_counter = get d.saved s.clock.actor;
              frontier = d.saved;
            })
            s.database)
  unfolding raise_clock same_items save_clock ensure_open upsert_clock
  raise_clock-Raised floor s merged d v = elim (Bool-cases (same_items merged d.saved)) [
    | inl e ↦
        let items = same-eq merged.entries d.saved.entries e in
        record {
          database = s.database;
          frontier = d.saved;
          result = rw e refl;
          knows =
              subst (λ w. merged ⊑ w) (ap (λ i. record { entries = i }) items) (λ a. omega arith);
          valid = d.saved_valid;
          opened = d.opened;
          identity = refl;
          rows = refl;
          clock_row = d.clock_row;
        }
    | inr e ↦ record {
      database =
          upsert_clock codec
            (record {
              actor = s.clock.actor;
              local_counter = get merged s.clock.actor;
              frontier = merged;
            })
            s.database;
      frontier = merged;
      result = rw (e, make_state-get s.clock.actor merged, d.opened) refl;
      knows = λ a. omega arith;
      valid = v;
      opened = d.opened;
      identity = refl;
      rows = refl;
      clock_row = refl;
    }
  ]

  checks_pass :
      (floor : Floor) (s : DurableCrdtStore)
      → IsDurable codec floor s
      → integrity_check goes s.database ≡ ok tt
  unfolding integrity_check ensure_open
  checks_pass floor s d = rw d.opened refl

  identity_loaded :
      (floor : Floor) (s : DurableCrdtStore)
      → (d : IsDurable codec floor s) → load_identity goes s.database ≡ ok (some d.identity)
  unfolding load_identity ensure_open
  identity_loaded floor s d = rw (d.opened, d.identified) refl

  identity_settled :
      (identity : DurableNodeIdentity) (db : Database)
      → settle_identity smooth identity.configured_node_id (some identity) db ≡ (db, ok identity)
  unfolding settle_identity
  identity_settled identity db = rw (same_self identity.configured_node_id) refl

  -- the calls of a restoration up to the entries
  pub restore_node-loaded :
      (floor : Floor) (s : DurableCrdtStore) (es : List StoredCrdtEntry)
      → (d : IsDurable codec floor s) → load_entries codec goes s.database ≡ ok es
      → restore_node codec smooth d.identity.configured_node_id s.database
        ≡ behind
            (raise_clock codec smooth s.clock.actor
              (merge_contexts d.saved es)
              (record {
                actor = s.clock.actor;
                local_counter = get d.saved s.clock.actor;
                frontier = d.saved;
              })
              s.database)
            (λ db raised. reading db (rebuild d.identity s.clock.actor raised es))
  unfolding restore_node settle_clock
  restore_node-loaded floor s es d e =
      rw
        (
          restore_node,
          checks_pass floor s d,
          identity_loaded floor s d,
          identity_settled d.identity s.database,
          d.owner,
          load_clock-saved floor s d,
          e,
        )
        refl

  -- the restored memory files each entry under its key
  pub same-IsValid :
      (m n : CrdtStore)
      → Distinct n.entries
      → ((k : Str) → find k n.entries ≡ find k m.entries)
      → Delivery.IsValid m
      → Delivery.IsValid n
  same-IsValid m n d h v = record {
    distinct = d;
    filed = λ k. subst (Delivery.Filed k) (sym (h k)) (v.filed k);
  }

  pub contexts_known :
      (es : List StoredCrdtEntry) (v : VersionVector) (k : Str) (e : StoredCrdtEntry)
      → All (λ x. x.causal_context ⊑ v) es
      → find k (keyed es) ≡ some e
      → e.causal_context ⊑ v
  unfolding find
  contexts_known [] v k e h f = absurd cc
  contexts_known (x ∷ es) v k e h f = elim (Bool-cases (same x.key k)) [
    | inl s ↦
        let here : x ≡ e = ground (arith, s, f) in
        subst (λ (y : StoredCrdtEntry). y.causal_context ⊑ v) here h.0
    | inr s ↦ contexts_known es v k e h.1 (ground (arith, s, f))
  ]
