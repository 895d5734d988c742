-- ===== src/Persistence/Durable.antt =====
-- persistence/durable_store.py: the store that persists each change before its memory and its clock see
-- it. An operation holds the lock of its key and that of the clock, and is one step. How each access of
-- the file ends is an argument.
pub mod Invariant
pub mod Steps
use advanced_distributed_sys.Base.{
  ℕ, ◌≡◌, refl, Bool, true, false, List, [], ◌∷◌, Option, none, some, Result, ok, raise, Error,
  ◌>>=◌,
}
use advanced_distributed_sys.Base.Int.{pos}
use advanced_distributed_sys.Order.{Str, list_ord, nat_ord}
use advanced_distributed_sys.Causal.Actor.{CausalActor}
use advanced_distributed_sys.Causal.Version
use advanced_distributed_sys.Causal.Version.{VersionVector, get}
use advanced_distributed_sys.Causal.Clock.{
  CausalClock, CausalAllocation, settle, new_allocation, observe,
}
use advanced_distributed_sys.Storage.Entry.{CrdtType, StoredCrdtEntry, merge_entries, with_context}
use advanced_distributed_sys.Storage.Store
use advanced_distributed_sys.Storage.Store.{CrdtStore, replace}
use advanced_distributed_sys.Persistence.Models.{DurableCausalState, make_state}
use advanced_distributed_sys.Persistence.Repository.{
  Codec, Database, Access, commit_mutation, commit_observed_entry,
}

-- The memory and the clock, which a crash loses, and the file behind the repository.
pub record DurableCrdtStore : Type 0 where
  pub memory : CrdtStore
  pub clock : CausalClock
  pub database : Database

-- what follows a replacement in a loop
unfoldable pub replaced :
    CrdtStore × Result StoredCrdtEntry
    → (CrdtStore → CrdtStore × Result (Unit {0}))
    → CrdtStore × Result (Unit {0})
replaced (memory, raise x) next = (memory, raise x)
replaced (memory, ok _) next = next memory

-- the loop of `restore_entries`
unfoldable pub restore_entries : List StoredCrdtEntry → CrdtStore → CrdtStore × Result (Unit {0})
unfolding replace replaced
restore_entries [] memory = (memory, ok tt)
restore_entries (e ∷ entries) memory =
    replaced (replace e (some e.crdt_type) memory) (λ memory'. restore_entries entries memory')

-- the memory takes an entry that is persisted
unfoldable pub remember :
    StoredCrdtEntry → CrdtType → DurableCrdtStore → DurableCrdtStore × Result StoredCrdtEntry
unfolding replace
remember entry expected s =
    let (memory, r) = replace entry (some expected) s.memory in (record s { memory = memory }, r)

-- what follows a commit to the file
unfoldable pub committed :
    {A : Type 0}
    → Database × Result (Unit {0})
    → DurableCrdtStore
    → (DurableCrdtStore → DurableCrdtStore × Result A)
    → DurableCrdtStore × Result A
committed (database, raise e) s body = (record s { database = database }, raise e)
committed (database, ok _) s body = body (record s { database = database })

-- `observation.commit()` behind a body that raised nothing, and the assignment of the staged block
unfoldable pub observed :
    VersionVector
    → DurableCrdtStore × Result StoredCrdtEntry
    → DurableCrdtStore × Result StoredCrdtEntry
unfolding settle
observed frontier (s, raise e) = (s, raise e)
observed frontier (s, ok entry) = (record s { clock = settle s.clock frontier true }, ok entry)

-- `incoming if existing is None else merge_entries(existing, incoming)`
unfoldable pub merged_with : Option StoredCrdtEntry → StoredCrdtEntry → Result StoredCrdtEntry
merged_with none incoming = ok incoming
merged_with (some existing) incoming = merge_entries existing incoming

abbrev pub as_optional :
    DurableCrdtStore × Result StoredCrdtEntry → DurableCrdtStore × Result (Option StoredCrdtEntry)
as_optional (s, raise e) = (s, raise e)
as_optional (s, ok entry) = (s, ok (some entry))

-- an entry with more in its context
unfoldable pub with_more : VersionVector → StoredCrdtEntry → Result StoredCrdtEntry
with_more causal_context existing =
    with_context existing (Version.merge existing.causal_context causal_context)

-- what makes the next entry of a key from the one that is there and the allocated dot
abbrev pub Build : Type 0
Build = Option StoredCrdtEntry → CausalAllocation → Result StoredCrdtEntry

-- `allocation.commit()` behind a body that raised nothing, and the assignment of the staged block
unfoldable pub allocated :
    CausalAllocation
    → DurableCrdtStore × Result StoredCrdtEntry
    → DurableCrdtStore × Result StoredCrdtEntry
unfolding settle
allocated allocation (s, raise e) = (s, raise e)
allocated allocation (s, ok entry) =
    (record s { clock = settle s.clock allocation.frontier true }, ok entry)

-- the calls that change a node's memory, its clock or its file
pub data DurableCall : Type 0 where
  writes : Access → Str → (Option StoredCrdtEntry → VersionVector) → Build → DurableCall
  merges : Access → StoredCrdtEntry → DurableCall
  learns : Access → Str → VersionVector → DurableCall
  observes : VersionVector → DurableCall

module _ (codec : Codec) where
  unfoldable pub commit_local :
      Access
      → StoredCrdtEntry
      → VersionVector
      → DurableCrdtStore
      → DurableCrdtStore × Result StoredCrdtEntry
  unfolding make_state remember committed
  commit_local access entry frontier s =
      elim (make_state s.clock.actor (pos (get frontier s.clock.actor)) frontier) [
        | raise e ↦ (s, raise e)
        | ok causal_state ↦
            committed (commit_mutation codec access entry causal_state s.database) s
              (remember entry entry.crdt_type)
      ]

  -- the staged block that both merges end with
  unfoldable pub store_observed :
      Access
      → StoredCrdtEntry
      → CrdtType
      → DurableCrdtStore
      → DurableCrdtStore × Result StoredCrdtEntry
  unfolding make_state remember committed observed
  store_observed access entry expected s =
      let frontier = Version.merge s.clock.frontier entry.causal_context in
      elim (make_state s.clock.actor (pos (get frontier s.clock.actor)) frontier) [
        | raise e ↦ (s, raise e)
        | ok causal_state ↦ observed frontier (
            committed (commit_observed_entry codec access entry causal_state s.database) s
              (remember entry expected))
      ]

  unfoldable pub merge_entry :
      Access → StoredCrdtEntry → DurableCrdtStore → DurableCrdtStore × Result StoredCrdtEntry
  unfolding merged_with store_observed
  merge_entry access incoming s = elim (merged_with (Store.get incoming.key s.memory) incoming) [
    | raise e ↦ (s, raise e)
    | ok merged ↦ store_observed access merged merged.crdt_type s
  ]

  unfoldable pub merge_metadata :
      Access
      → Str
      → VersionVector
      → DurableCrdtStore
      → DurableCrdtStore × Result (Option StoredCrdtEntry)
  unfolding with_more store_observed
  merge_metadata access key causal_context s = elim (Store.get key s.memory) [
    | none ↦ (s, ok none)
    | some existing ↦ elim (with_more causal_context existing) [
      | raise e ↦ (s, raise e)
      | ok updated ↦ as_optional (store_observed access updated existing.crdt_type s)
    ]
  ]

  -- the block of a local write, which `CrdtService.mutate` runs under the lock of the key: what was
  -- observed and the next entry are made from the entry that is there
  unfoldable pub write_local :
      Access
      → Str
      → (Option StoredCrdtEntry → VersionVector)
      → Build
      → DurableCrdtStore
      → DurableCrdtStore × Result StoredCrdtEntry
  unfolding commit_local allocated new_allocation
  write_local access key seen build s =
      let allocation = new_allocation s.clock (some (seen (Store.get key s.memory))) in
      elim (build (Store.get key s.memory) allocation) [
        | raise e ↦ (s, raise e)
        | ok entry ↦ allocated allocation (commit_local access entry allocation.frontier s)
      ]

  unfoldable pub step : DurableCall → DurableCrdtStore → DurableCrdtStore
  unfolding write_local merge_entry merge_metadata
  step (writes access key seen build) s = (write_local access key seen build s).0
  step (merges access incoming) s = (merge_entry access incoming s).0
  step (learns access key context) s = (merge_metadata access key context s).0
  step (observes version) s = record s { clock = (observe version s.clock).0 }

  unfoldable pub run : List DurableCall → DurableCrdtStore → DurableCrdtStore
  unfolding step
  run [] s = s
  run (call ∷ calls) s = run calls (step call s)
