-- ===== src/Persistence/Durable/Steps.antt =====
-- Every call of the durable store keeps what its file promises, whether the access of the file goes
-- through or not.
use advanced_distributed_sys.Base.{◌≡◌, refl, false, Option, ok, raise}
use advanced_distributed_sys.Order.{Str, list_ord, nat_ord}
use advanced_distributed_sys.Sorted.{find}
use advanced_distributed_sys.Causal.Version
use advanced_distributed_sys.Causal.Clock.{CausalAllocation, settle}
use advanced_distributed_sys.Storage.Entry.{StoredCrdtEntry}
use advanced_distributed_sys.Storage.Entry.Merging
use advanced_distributed_sys.Storage.Store
use advanced_distributed_sys.Storage.Store.{retypes}
use advanced_distributed_sys.Storage.Store.Delivery
use advanced_distributed_sys.Persistence.Models.{make_state-get}
use advanced_distributed_sys.Persistence.Repository.{
  Codec, RoundTrips, Access, goes, refuses, commit_mutation,
}
use advanced_distributed_sys.Persistence.Durable.{
  DurableCrdtStore, remember, committed, commit_local, allocated, Build, DurableCall, writes,
  merges, learns, observes,
}
use advanced_distributed_sys.Persistence.Durable.Invariant.{
  Floor, IsDurable, stored, Writes, replace_typed, commit-goes, commit-refuses,
}

-- what a step that makes an entry of a key must make of what is there: a valid entry of the key, of the
-- type that is there
abbrev pub Builds : Str → Build → Type 0
Builds key build =
    (o : Option StoredCrdtEntry) (a : CausalAllocation) (e : StoredCrdtEntry)
    → Delivery.Filed key o
    → build o a ≡ ok e
    → (e.key ≡ key) × Merging.IsValid e × (retypes e.crdt_type o ≡ false)

abbrev pub WellFormed : DurableCall → Type 0
WellFormed (writes access key seen build) = Builds key build
WellFormed (merges access incoming) = Merging.IsValid incoming
WellFormed (learns access key context) = Unit {0}
WellFormed (observes version) = Unit {0}

module _ (codec : Codec) (laws : RoundTrips codec) where
  -- the block of a local write, once the entry is made
  pub commit_local-Writes :
      (access : Access) (floor : Floor) (s : DurableCrdtStore) (entry : StoredCrdtEntry)
      (allocation : CausalAllocation)
      → IsDurable codec floor s
      → Merging.IsValid entry
      → retypes entry.crdt_type (find entry.key s.memory.entries) ≡ false
      → Writes codec laws access s entry allocation.frontier
          (allocated allocation (commit_local codec access entry allocation.frontier s))
  unfolding commit_local commit_mutation committed remember allocated settle
  commit_local-Writes goes floor s entry allocation d v h =
      let frontier = allocation.frontier in
      let (row, e, k, dec) = laws.entries entry v in
      let done : allocated allocation (commit_local codec goes entry frontier s)
          ≡ (stored codec s entry row frontier, ok entry) =
        rw
          (
            commit_local,
            make_state-get s.clock.actor frontier,
            commit-goes codec laws s entry row frontier d.opened e,
            replace_typed codec laws entry s.memory h,
          )
          refl in
      rw done (refl, row, e, k, dec, refl)
  commit_local-Writes (refuses x) floor s entry allocation d v h =
      let frontier = allocation.frontier in
      let (row, e, k, dec) = laws.entries entry v in
      let undone : allocated allocation (commit_local codec (refuses x) entry frontier s)
          ≡ (s, raise x) =
        rw
          (
            commit_local,
            make_state-get s.clock.actor frontier,
            commit-refuses codec laws s entry row x frontier d.opened e,
          )
          refl in
      rw undone (refl, refl)
