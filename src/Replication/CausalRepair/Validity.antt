-- ===== src/Replication/CausalRepair/Validity.antt =====
-- Merging what the peers sent keeps the store valid.
use advanced_distributed_sys.Base.{
  sym, List, [], ◌∷◌, ◌++◌, Option, none, some, Result, ok, raise, All,
}
use mathlib.Core.Path.{subst}
use advanced_distributed_sys.Order.{Str, list_ord, nat_ord}
use advanced_distributed_sys.Causal.Version
use advanced_distributed_sys.Causal.Version.{VersionVector, dominates}
use advanced_distributed_sys.Storage.Entry.{StoredCrdtEntry}
use advanced_distributed_sys.Storage.Entry.Merging
use advanced_distributed_sys.Storage.Store.{CrdtStore, merge_entry}
use advanced_distributed_sys.Storage.Store.Delivery
use advanced_distributed_sys.Storage.Store.Delivery.{Filed, Delivers, merge_entry-Delivers}
use advanced_distributed_sys.Replication.CausalRepair.{
  PeerCrdtFetch, Merged, with_merged, with_entry, merge_fetched,
}

abbrev pub IsSoundEntry : Option StoredCrdtEntry → Type 0
IsSoundEntry none = Unit {0}
IsSoundEntry (some e) = Merging.IsValid e

-- the entry of an answer is valid
abbrev pub IsSound : Result PeerCrdtFetch → Type 0
IsSound (raise e) = Unit {0}
IsSound (ok r) = IsSoundEntry r.entry

abbrev pub ValidStore : Merged → Type 0
ValidStore (s, r) = Delivery.IsValid s

merge_entry-ValidStore :
    (incoming : StoredCrdtEntry) (s : CrdtStore)
    → Merging.IsValid incoming
    → Delivery.IsValid s
    → Delivery.IsValid (merge_entry incoming s).0
merge_entry-ValidStore incoming s p v =
    delivered (merge_entry incoming s) (merge_entry-Delivers incoming s p v)
  where
    delivered :
        (r : CrdtStore × Result StoredCrdtEntry) → Delivers incoming s r → Delivery.IsValid r.0
    delivered (s', ok m) d = d.4
    delivered (s', raise e) d = subst Delivery.IsValid (sym d) v

with_merged-ValidStore :
    (version : VersionVector) (r : CrdtStore × Result StoredCrdtEntry)
    (next : VersionVector → CrdtStore → Merged)
    → Delivery.IsValid r.0
    → ((version' : VersionVector) (s : CrdtStore)
        → Delivery.IsValid s
        → ValidStore (next version' s))
    → ValidStore (with_merged version r next)
unfolding with_merged
with_merged-ValidStore version (s, raise e) next v n = v
with_merged-ValidStore version (s, ok m) next v n = n _ s v

with_entry-ValidStore :
    (version : VersionVector) (o : Option StoredCrdtEntry) (s : CrdtStore)
    (next : VersionVector → CrdtStore → Merged)
    → IsSoundEntry o
    → Delivery.IsValid s
    → ((version' : VersionVector) (s' : CrdtStore)
        → Delivery.IsValid s'
        → ValidStore (next version' s'))
    → ValidStore (with_entry version o s next)
unfolding with_entry
with_entry-ValidStore version none s next p v n = n version s v
with_entry-ValidStore version (some e) s next p v n =
    with_merged-ValidStore version (merge_entry e s) next (merge_entry-ValidStore e s p v) n

pub merge_fetched-ValidStore :
    (results : List (Result PeerCrdtFetch)) (version : VersionVector) (names : List Str)
    (s : CrdtStore)
    → All IsSound results
    → Delivery.IsValid s
    → ValidStore (merge_fetched results version names s)
unfolding merge_fetched
merge_fetched-ValidStore [] version names s p v = v
merge_fetched-ValidStore (raise e ∷ results) version names s p v =
    merge_fetched-ValidStore results version names s p.1 v
merge_fetched-ValidStore (ok r ∷ results) version names s p v =
    with_entry-ValidStore (Version.merge version r.causal_frontier) r.entry s _ p.0 v
      (λ version' s'.
        merge_fetched-ValidStore results version' (names ++ (r.peer_node_id ∷ [])) s' p.1)
