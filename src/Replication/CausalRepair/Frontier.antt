-- ===== src/Replication/CausalRepair/Frontier.antt =====
-- The version that the loop over the answers leaves knows what any of them knows.
use advanced_distributed_sys.Base.{
  List, [], ◌∷◌, ◌++◌, Option, none, some, Result, ok, raise, arith, inl, inr, ◌⊎◌,
}
use advanced_distributed_sys.Order.{Str, list_ord, nat_ord}
use advanced_distributed_sys.Causal.Version
use advanced_distributed_sys.Causal.Version.{VersionVector, dominates}
use advanced_distributed_sys.Causal.Version.Lattice.{◌⊑◌, merge-least_iff}
use advanced_distributed_sys.Storage.Entry.{StoredCrdtEntry}
use advanced_distributed_sys.Storage.Store.{CrdtStore, merge_entry}
use advanced_distributed_sys.Replication.CausalRepair.{
  PeerCrdtFetch, Merged, with_merged, with_entry, merge_fetched,
}

-- what a merge has of its left side, and of its right
pub below_left : (v w : VersionVector) → v ⊑ Version.merge v w
below_left v w = ((merge-least_iff (Version.merge v w) v w).0 (λ a. omega arith)).0

pub below_right : (v w : VersionVector) → w ⊑ Version.merge v w
below_right v w = ((merge-least_iff (Version.merge v w) v w).0 (λ a. omega arith)).1

pub known_trans : (u v w : VersionVector) → u ⊑ v → v ⊑ w → u ⊑ w
known_trans u v w p q a = omega (arith, p a, q a)

-- an answer knows the version
abbrev pub Knows : VersionVector → List (Result PeerCrdtFetch) → Type 0
Knows u [] = ⊥
Knows u (raise e ∷ results) = Knows u results
Knows u (ok r ∷ results) = (u ⊑ r.causal_frontier) ⊎ Knows u results

abbrev pub Above : VersionVector → Merged → Type 0
Above u (s, raise e) = Unit {0}
Above u (s, ok (version, names)) = u ⊑ version

with_merged-Above :
    (u version : VersionVector) (r : CrdtStore × Result StoredCrdtEntry)
    (next : VersionVector → CrdtStore → Merged)
    → u ⊑ version
    → ((version' : VersionVector) (s : CrdtStore) → u ⊑ version' → Above u (next version' s))
    → Above u (with_merged version r next)
unfolding with_merged
with_merged-Above u version (s, raise e) next l n = tt
with_merged-Above u version (s, ok m) next l n =
    n _ s (known_trans u version _ l (below_left version m.causal_context))

with_entry-Above :
    (u version : VersionVector) (o : Option StoredCrdtEntry) (s : CrdtStore)
    (next : VersionVector → CrdtStore → Merged)
    → u ⊑ version
    → ((version' : VersionVector) (s' : CrdtStore) → u ⊑ version' → Above u (next version' s'))
    → Above u (with_entry version o s next)
unfolding with_entry
with_entry-Above u version none s next l n = n version s l
with_entry-Above u version (some e) s next l n =
    with_merged-Above u version (merge_entry e s) next l n

merge_fetched-Above :
    (u : VersionVector) (results : List (Result PeerCrdtFetch)) (version : VersionVector)
    (names : List Str) (s : CrdtStore)
    → u ⊑ version
    → Above u (merge_fetched results version names s)
unfolding merge_fetched
merge_fetched-Above u [] version names s l = l
merge_fetched-Above u (raise e ∷ results) version names s l =
    merge_fetched-Above u results version names s l
merge_fetched-Above u (ok r ∷ results) version names s l =
    with_entry-Above u (Version.merge version r.causal_frontier) r.entry s _
      (known_trans u version _ l (below_left version r.causal_frontier))
      (λ version' s'. merge_fetched-Above u results version' (names ++ (r.peer_node_id ∷ [])) s')

anything-with_entry :
    (u version : VersionVector) (o : Option StoredCrdtEntry) (s : CrdtStore)
    (next : VersionVector → CrdtStore → Merged)
    → ((version' : VersionVector) (s' : CrdtStore) → Above u (next version' s'))
    → Above u (with_entry version o s next)
unfolding with_entry with_merged
anything-with_entry u version none s next n = n version s
anything-with_entry u version (some e) s next n = both (merge_entry e s)
  where
    both : (r : CrdtStore × Result StoredCrdtEntry) → Above u (with_merged version r next)
    both (s', ok m) = n _ s'
    both (s', raise x) = tt

pub merge_fetched-Knows :
    (u : VersionVector) (results : List (Result PeerCrdtFetch)) (version : VersionVector)
    (names : List Str) (s : CrdtStore)
    → Knows u results
    → Above u (merge_fetched results version names s)
unfolding merge_fetched
merge_fetched-Knows u [] version names s k = absurd k
merge_fetched-Knows u (raise e ∷ results) version names s k =
    merge_fetched-Knows u results version names s k
merge_fetched-Knows u (ok r ∷ results) version names s (inl l) =
    with_entry-Above u (Version.merge version r.causal_frontier) r.entry s _
      (known_trans u r.causal_frontier _ l (below_right version r.causal_frontier))
      (λ version' s'. merge_fetched-Above u results version' (names ++ (r.peer_node_id ∷ [])) s')
merge_fetched-Knows u (ok r ∷ results) version names s (inr k) =
    anything-with_entry u (Version.merge version r.causal_frontier) r.entry s _
      (λ version' s'. merge_fetched-Knows u results version' (names ++ (r.peer_node_id ∷ [])) s' k)
