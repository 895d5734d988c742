-- ===== src/Replication/CausalRepair/Ensured.antt =====
-- What a request finds behind a causal repair that raised nothing.
use advanced_distributed_sys.Base.{
  ◌≡◌, refl, sym, ap, ◌∙◌, true, not, List, [], ◌∷◌, Option, none, some, Result, ok, raise, filter,
  All, Bool-cases, Result-cases, inl, inr,
}
use advanced_distributed_sys.Order.{Str, list_ord, nat_ord, same}
use advanced_distributed_sys.Sorted.{find, put}
use advanced_distributed_sys.Sorted.Laws.{find-put, same_self}
use advanced_distributed_sys.Causal.Version
use advanced_distributed_sys.Causal.Version.{VersionVector, dominates}
use advanced_distributed_sys.Causal.Version.Lattice.{◌⊑◌}
use advanced_distributed_sys.Causal.Version.Compare.{dominates_iff}
use advanced_distributed_sys.Cluster.Member.{ClusterMember}
use advanced_distributed_sys.Cluster.Ring.{Hashing, ReplicaSelector, replicas}
use advanced_distributed_sys.Storage.Entry.{StoredCrdtEntry, with_context}
use advanced_distributed_sys.Storage.Entry.Redelivery.{made-fields}
use advanced_distributed_sys.Storage.Store.{
  CrdtStore, get, unexpected, retypes, replace, replace_by, as_some, merge_metadata,
}
use advanced_distributed_sys.Storage.Store.Delivery
use advanced_distributed_sys.Storage.Store.Delivery.{Filed, Delivers, merge_entry-Delivers}
use advanced_distributed_sys.Replication.Digest.{same_vector}
use advanced_distributed_sys.Replication.Digest.Compare.{same_vector-eq}
use advanced_distributed_sys.Replication.CausalRepair.{
  PeerCrdtFetch, CausalRepairResult, Fetching, Merged, merge_fetched, version_after, settle_current,
  satisfy, after_fetch, context_of, names_of, repair_from, ensure,
}
use advanced_distributed_sys.Replication.CausalRepair.Validity.{
  IsSound, ValidStore, merge_fetched-ValidStore,
}

-- what is stored under the key has the version as its context
abbrev pub Holds : Str → VersionVector → CrdtStore → Type 0
Holds key version s =
    (e : StoredCrdtEntry) → find key s.entries ≡ some e → e.causal_context ≡ version

with_context-keeps :
    (e c : StoredCrdtEntry) (v : VersionVector)
    → with_context e v ≡ ok c
    → (c.key ≡ e.key) × (c.causal_context ≡ v)
unfolding with_context
with_context-keeps e c v h =
    let fields = (made-fields e.key e.crdt_type e.state e.state_version v h).0 in
    (
      ap (λ (x : StoredCrdtEntry). x.key) fields,
      ap (λ (x : StoredCrdtEntry). x.causal_context) fields,
    )

-- what a call that gives a version leaves under the key
abbrev Settles : Str → CrdtStore × Result VersionVector → Type 0
Settles key (s, raise e) = Unit {0}
Settles key (s, ok version) = Holds key version s

version_after-Settles :
    (key : Str) (version : VersionVector) (existing : StoredCrdtEntry) (s : CrdtStore)
    (made : Result StoredCrdtEntry)
    → ((c : StoredCrdtEntry) → made ≡ ok c → c.key ≡ key)
    → Settles key (version_after version (as_some (replace_by existing made s)))
unfolding version_after as_some replace_by replace
version_after-Settles key version existing s (raise e) k = tt
version_after-Settles key version existing s (ok c) k =
    elim (Bool-cases (unexpected (some existing.crdt_type) (get c.key s))) [
      | inl a ↦ rw a tt
      | inr a ↦ elim (Bool-cases (retypes c.crdt_type (get c.key s))) [
        | inl b ↦ rw (a, b) tt
        | inr b ↦
            rw (a, b)
              (λ e f.
                let there : find key (put c.key c s.entries) ≡ some c =
                  find-put c.key key c s.entries ∙ rw (k c refl, same_self key) refl in
                ap context_of (sym f ∙ there))
      ]
    ]

settle_current-Settles :
    (key : Str) (version : VersionVector) (s : CrdtStore)
    → Delivery.IsValid s
    → Settles key (settle_current key version s)
unfolding settle_current merge_metadata get
settle_current-Settles key version s v = go (find key s.entries) refl (v.filed key)
  where
    go :
        (o : Option StoredCrdtEntry)
        → find key s.entries ≡ o
        → Filed key o
        → Settles key (settle_current key version s)
    go none f p = rw (settle_current, f) (λ e g. let clash : none ≡ some e = sym f ∙ g in absurd cc)
    go (some c) f p =
        let version' = Version.merge version c.causal_context in
        elim (Bool-cases (same_vector c.causal_context version')) [
          | inl b ↦
              rw (settle_current, f, b)
                (λ e g. ap context_of (sym g ∙ f) ∙ same_vector-eq c.causal_context version' b)
          | inr b ↦
              rw (settle_current, f, b)
                (rw (merge_metadata, f)
                  (version_after-Settles key version' c s
                    (with_context c (Version.merge c.causal_context version'))
                    (λ d h.
                      (with_context-keeps c d (Version.merge c.causal_context version') h).0
                      ∙ p.0)))
        ]

-- What a repair gives where it raises nothing: a version that knows the one that is required, and that
-- is the context of what is stored under the key, if anything is.
abbrev pub Ensures : Str → VersionVector → CrdtStore × Result CausalRepairResult → Type 0
Ensures key required (s, raise e) = Unit {0}
Ensures key required (s, ok r) =
    (required ⊑ r.merged_version) × Holds key r.merged_version s × (r.satisfied ≡ true)

satisfy-Ensures :
    (key : Str) (required : VersionVector) (contacted successful : List Str)
    (r : CrdtStore × Result VersionVector)
    → Settles key r
    → Ensures key required (satisfy required contacted successful r)
unfolding satisfy
satisfy-Ensures key required contacted successful (s, raise e) h = tt
satisfy-Ensures key required contacted successful (s, ok version) h =
    elim (Bool-cases (dominates version required)) [
      | inl d ↦ rw d ((dominates_iff version required).0 d, h, refl)
      | inr d ↦ rw d tt
    ]

after_fetch-Ensures :
    (key : Str) (required : VersionVector) (contacted : List Str) (r : Merged)
    → ValidStore r
    → Ensures key required (after_fetch key required contacted r)
unfolding after_fetch
after_fetch-Ensures key required contacted (s, raise e) v = tt
after_fetch-Ensures key required contacted (s, ok (version, successful)) v =
    satisfy-Ensures key required contacted successful (settle_current key version s)
      (settle_current-Settles key version s v)

repair_from-Ensures :
    (w : Fetching) (key : Str) (required version : VersionVector) (peers : List ClusterMember)
    (s : CrdtStore)
    → ((ms : List ClusterMember) (results : List (Result PeerCrdtFetch))
        → w.fetch ms ≡ ok results
        → All IsSound results)
    → Delivery.IsValid (w.during s)
    → Ensures key required (repair_from w key required version peers s)
unfolding repair_from
repair_from-Ensures w key required version [] s p v = tt
repair_from-Ensures w key required version (m ∷ peers) s p v =
    elim (Result-cases (w.fetch (m ∷ peers))) [
      | inr (e, q) ↦ rw (repair_from, q) tt
      | inl (results, q) ↦
          rw (repair_from, q)
            (after_fetch-Ensures key required (names_of (m ∷ peers))
              (merge_fetched results version [] (w.during s))
              (merge_fetched-ValidStore results version [] (w.during s) (p (m ∷ peers) results q)
                v))
    ]

-- Where the repair of a key raises nothing, the version that it returns knows the required one, and it is the
-- causal context of what is stored under the key, if anything is: a read that follows sees all that
-- was required. The entries that the peers send are valid, and what other tasks do during the fetches
-- leaves the store valid.
pub ensure-Ensures :
    (h : Hashing) (w : Fetching) (local_node_id : Str) (selector : ReplicaSelector) (key : Str)
    (required : VersionVector) (s : CrdtStore)
    → ((ms : List ClusterMember) (results : List (Result PeerCrdtFetch))
        → w.fetch ms ≡ ok results
        → All IsSound results)
    → Delivery.IsValid (w.during s)
    → Ensures key required (ensure h w local_node_id selector key required s)
unfolding ensure get
ensure-Ensures h w local_node_id selector key required s p v =
    let version = context_of (find key s.entries) in
    elim (Bool-cases (dominates version required)) [
      | inl d ↦
          rw (ensure, d)
            ((dominates_iff version required).0 d, (λ e f. ap context_of (sym f)), refl)
      | inr d ↦ elim (Result-cases (replicas h key selector)) [
        | inr (e, q) ↦ rw (ensure, d, q) tt
        | inl (members, q) ↦
            rw (ensure, d, q)
              (repair_from-Ensures w key required version
                (filter (λ m. not (same m.node_id local_node_id)) members) s p v)
      ]
    ]
