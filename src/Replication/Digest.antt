-- ===== src/Replication/Digest.antt =====
-- replication/digest.py: the causal summary of an entry, and how two of them compare.
pub mod Compare
use advanced_distributed_sys.Base.{
  ℕ, ◌≡◌, Bool, true, false, not, Result, ok, raise, value_error, if◌then◌else◌,
}
use advanced_distributed_sys.Order.{Str, str_ord, list_ord, nat_ord, pair_ord, same}
use advanced_distributed_sys.Causal.Actor.{CausalActor, actor_ord}
use advanced_distributed_sys.Causal.Version
use advanced_distributed_sys.Causal.Version.{
  VersionVector, VersionRelation, before, after, equal, concurrent,
}
use advanced_distributed_sys.Storage.Entry.{CrdtType, StoredCrdtEntry, same_type}

pub record CrdtDigestEntry : Type 0 where
  pub key : Str
  pub crdt_type : CrdtType
  pub state_version : VersionVector
  pub causal_context : VersionVector

abbrev pub from_entry : StoredCrdtEntry → CrdtDigestEntry
from_entry e = record {
  key = e.key;
  crdt_type = e.crdt_type;
  state_version = e.state_version;
  causal_context = e.causal_context;
}

pub data DigestRelation : Type 0 where
  equal_digests local_ahead remote_ahead concurrent_digests metadata_only : DigestRelation

-- `VersionVector.__eq__`
abbrev pub same_vector : VersionVector → VersionVector → Bool
same_vector v w = same v.entries w.entries

-- the answer, from the relation of the state versions
unfoldable pub relate : VersionRelation → Bool → DigestRelation
relate equal same_context = if same_context then equal_digests else metadata_only
relate after same_context = local_ahead
relate before same_context = remote_ahead
relate concurrent same_context = concurrent_digests

unfoldable pub compare_digest : CrdtDigestEntry → CrdtDigestEntry → Result DigestRelation
unfolding relate
compare_digest here there =
    if not (same here.key there.key)
    then raise value_error
    else if not (same_type here.crdt_type there.crdt_type)
    then raise value_error
    else ok (
        relate (Version.compare here.state_version there.state_version)
          (same_vector here.causal_context there.causal_context))
