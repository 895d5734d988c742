-- ===== src/Replication/CausalRepair.antt =====
-- replication/causal_repair.py: what a node fetches and merges before it serves a request that requires
-- a version. What the peers answer under the deadline is an input, and so is what other tasks do to the
-- store meanwhile; behind it the repair runs with no other task between.
pub mod Validity
pub mod Ensured
pub mod Frontier
pub mod Success
use advanced_distributed_sys.Base.{
  Bool, true, false, not, List, [], ◌∷◌, ◌++◌, Option, none, some, Result, ok, raise, Error,
  causal_unavailable, deadline_exceeded, if◌then◌else◌, filter,
}
use advanced_distributed_sys.Order.{Str, list_ord, nat_ord, pair_ord, same}
use advanced_distributed_sys.Causal.Actor.{actor_ord}
use advanced_distributed_sys.Causal.Version
use advanced_distributed_sys.Causal.Version.{VersionVector, dominates}
use advanced_distributed_sys.Cluster.Member.{ClusterMember}
use advanced_distributed_sys.Cluster.Ring.{Hashing, ReplicaSelector, replicas}
use advanced_distributed_sys.Storage.Entry.{StoredCrdtEntry}
use advanced_distributed_sys.Storage.Store.{CrdtStore, get, merge_entry, merge_metadata}
use advanced_distributed_sys.Replication.Digest.{same_vector}

pub record PeerCrdtFetch : Type 0 where
  pub peer_node_id : Str
  pub entry : Option StoredCrdtEntry
  pub causal_frontier : VersionVector

pub record CausalRepairResult : Type 0 where
  pub satisfied : Bool
  pub merged_version : VersionVector
  pub contacted_nodes : List Str
  pub successful_nodes : List Str

-- `deadline.run(asyncio.gather(…, return_exceptions=True))`: the answers of the peers, or the exception
-- of the deadline; and what other tasks do meanwhile
pub record Fetching : Type 0 where
  pub fetch : List ClusterMember → Result (List (Result PeerCrdtFetch))
  pub during : CrdtStore → CrdtStore

-- `except DeadlineExceeded as exc: raise CausalUnavailableError`
unfoldable pub fetch_error : Error → Error
fetch_error deadline_exceeded = causal_unavailable
fetch_error e = e

-- the version and the names that the loop over the answers leaves
abbrev pub Merged : Type 0
Merged = CrdtStore × Result (VersionVector × List Str)

-- an entry that is merged, and what follows
unfoldable pub with_merged :
    VersionVector
    → CrdtStore × Result StoredCrdtEntry
    → (VersionVector → CrdtStore → Merged)
    → Merged
with_merged version (s, raise e) next = (s, raise e)
with_merged version (s, ok merged) next = next (Version.merge version merged.causal_context) s

-- the entry of an answer, if there is one, and what follows
unfoldable pub with_entry :
    VersionVector
    → Option StoredCrdtEntry
    → CrdtStore
    → (VersionVector → CrdtStore → Merged)
    → Merged
unfolding with_merged
with_entry version none s next = next version s
with_entry version (some entry) s next = with_merged version (merge_entry entry s) next

unfoldable pub merge_fetched :
    List (Result PeerCrdtFetch) → VersionVector → List Str → CrdtStore → Merged
unfolding with_entry
merge_fetched [] version successful s = (s, ok (version, successful))
merge_fetched (raise e ∷ results) version successful s = merge_fetched results version successful s
merge_fetched (ok r ∷ results) version successful s =
    with_entry (Version.merge version r.causal_frontier) r.entry s
      (λ version' s'. merge_fetched results version' (successful ++ (r.peer_node_id ∷ [])) s')

-- the version of what `merge_metadata` gives, if that is an entry
unfoldable pub version_after :
    VersionVector → CrdtStore × Result (Option StoredCrdtEntry) → CrdtStore × Result VersionVector
version_after version (s, raise e) = (s, raise e)
version_after version (s, ok none) = (s, ok version)
version_after version (s, ok (some current)) = (s, ok current.causal_context)

-- the stored entry learns the version, unless it has it
unfoldable pub settle_current : Str → VersionVector → CrdtStore → CrdtStore × Result VersionVector
unfolding get version_after
settle_current key version s = elim (get key s) [
  | none ↦ (s, ok version)
  | some current ↦
      let version' = Version.merge version current.causal_context in
      if not (same_vector current.causal_context version')
      then version_after version' (merge_metadata key version' s)
      else (s, ok version')
]

-- the last test
unfoldable pub satisfy :
    VersionVector
    → List Str
    → List Str
    → CrdtStore × Result VersionVector
    → CrdtStore × Result CausalRepairResult
satisfy required contacted successful (s, raise e) = (s, raise e)
satisfy required contacted successful (s, ok version) =
    if not (dominates version required) then (s, raise causal_unavailable) else (
      s,
      ok (record {
        satisfied = true;
        merged_version = version;
        contacted_nodes = contacted;
        successful_nodes = successful;
      }),
    )

-- behind the loop over the answers
unfoldable pub after_fetch :
    Str → VersionVector → List Str → Merged → CrdtStore × Result CausalRepairResult
unfolding settle_current satisfy
after_fetch key required contacted (s, raise e) = (s, raise e)
after_fetch key required contacted (s, ok (version, successful)) =
    satisfy required contacted successful (settle_current key version s)

abbrev pub context_of : Option StoredCrdtEntry → VersionVector
context_of none = Version.empty
context_of (some e) = e.causal_context

abbrev pub names_of : List ClusterMember → List Str
names_of [] = []
names_of (m ∷ ms) = m.node_id ∷ names_of ms

-- the replicas of the key but this node, which are asked
unfoldable pub repair_from :
    Fetching
    → Str
    → VersionVector
    → VersionVector
    → List ClusterMember
    → CrdtStore
    → CrdtStore × Result CausalRepairResult
unfolding fetch_error merge_fetched after_fetch
repair_from w key required version [] s = (s, raise causal_unavailable)
repair_from w key required version (m ∷ peers) s = elim (w.fetch (m ∷ peers)) [
  | raise e ↦ (w.during s, raise (fetch_error e))
  | ok results ↦
      after_fetch key required (names_of (m ∷ peers))
        (merge_fetched results version [] (w.during s))
]

unfoldable pub ensure :
    Hashing
    → Fetching
    → Str
    → ReplicaSelector
    → Str
    → VersionVector
    → CrdtStore
    → CrdtStore × Result CausalRepairResult
unfolding get repair_from
ensure h w local_node_id selector key required s =
    let version = context_of (get key s) in
    if dominates version required
    then (
      s,
      ok (record {
        satisfied = true;
        merged_version = version;
        contacted_nodes = [];
        successful_nodes = [];
      }),
    )
    else elim (replicas h key selector) [
      | raise e ↦ (s, raise e)
      | ok members ↦
          repair_from w key required version
            (filter (λ m. not (same m.node_id local_node_id)) members) s
    ]
