-- ===== src/Tests/Durables.antt =====
-- A node with a file, its crash and its restart, at concrete inputs.
use advanced_distributed_sys.Base.{
  List, [], ◌∷◌, Option, none, some, Result, ok, persistence_unavailable, true,
}
use advanced_distributed_sys.Order.{Str}
use advanced_distributed_sys.Counts
use advanced_distributed_sys.Causal.Version
use advanced_distributed_sys.Causal.Version.{VersionVector}
use advanced_distributed_sys.Storage.Entry.{StoredCrdtEntry}
use advanced_distributed_sys.Storage.Entry.Merging
use advanced_distributed_sys.Storage.Store
use advanced_distributed_sys.Persistence.Models.{DurableNodeIdentity}
use advanced_distributed_sys.Persistence.Repository.{goes, refuses}
use advanced_distributed_sys.Persistence.Durable.{
  DurableCrdtStore, DurableCall, Build, writes, merges, learns, observes, write_local,
}
use advanced_distributed_sys.Persistence.Durable.Invariant.{Floor}
use advanced_distributed_sys.Tests.Stores.{a1, likes, remote_likes}
use advanced_distributed_sys.Tests.Encoding.{number_codec}

abbrev identity : DurableNodeIdentity
identity = record { node_uuid = 117 ∷ []; configured_node_id = 97 ∷ []; causal_incarnation = 1 }

abbrev new_node : DurableCrdtStore
new_node = record {
  memory = Store.empty;
  clock = record { actor = a1; frontier = Version.empty };
  database = record {
    is_open = true;
    identity = some identity;
    clock = some (0, number_codec.encode_version_vector Version.empty);
    rows = [];
  };
}

abbrev floor : Floor
floor = (a1, Version.empty)

abbrev likes_key : Str
likes_key = 107 ∷ []

abbrev keeps_or_likes : Build
keeps_or_likes none a = ok likes
keeps_or_likes (some old) a = ok old

abbrev unseen : Option StoredCrdtEntry → VersionVector
unseen o = Version.empty

-- a write, a delivery that the file refuses, the same delivery again, and what a peer knows
abbrev calls : List DurableCall
calls =
    writes goes likes_key unseen keeps_or_likes
    ∷ merges (refuses persistence_unavailable) remote_likes
    ∷ merges goes remote_likes
    ∷ learns goes likes_key (record { entries = (a1, 1) ∷ [] })
    ∷ observes (record { entries = (a1, 1) ∷ [] })
    ∷ []

abbrev written : DurableCrdtStore × Result StoredCrdtEntry
written = write_local number_codec goes likes_key unseen keeps_or_likes new_node

abbrev written_call : List DurableCall
written_call = writes goes likes_key unseen keeps_or_likes ∷ []
