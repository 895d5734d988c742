-- ===== src/Replication/Digest/Compare.antt =====
-- What the comparison of two digests says of the vectors behind them.
use advanced_distributed_sys.Base.{
  ℕ, ◌≡◌, ◌≢◌, ◌⊎◌, inl, inr, refl, ap, true, false, Result, ok, raise, value_error, arith,
  Bool-cases, List,
}
use mathlib.Core.Path.{subst}
use advanced_distributed_sys.Order.{list_ord, nat_ord, pair_ord, same}
use advanced_distributed_sys.Sorted.Laws.{same-eq, same_self}
use advanced_distributed_sys.Causal.Actor.{CausalActor, actor_ord}
use advanced_distributed_sys.Causal.Version
use advanced_distributed_sys.Causal.Version.{
  VersionVector, VersionRelation, before, after, equal, concurrent, compare,
}
use advanced_distributed_sys.Causal.Version.Compare.{Relates, compare-Relates, compare-equal_iff}
use advanced_distributed_sys.Storage.Entry.{same_type}
use advanced_distributed_sys.Replication.Digest.{
  CrdtDigestEntry, DigestRelation, equal_digests, local_ahead, remote_ahead, concurrent_digests,
  metadata_only, same_vector, relate, compare_digest,
}

-- What each answer means.
abbrev pub Means : CrdtDigestEntry → CrdtDigestEntry → DigestRelation → Type 0
Means d e equal_digests =
    (d.state_version ≡ e.state_version) × (d.causal_context ≡ e.causal_context)
Means d e metadata_only =
    (d.state_version ≡ e.state_version) × (d.causal_context ≢ e.causal_context)
Means d e local_ahead = Relates after d.state_version e.state_version
Means d e remote_ahead = Relates before d.state_version e.state_version
Means d e concurrent_digests = Relates concurrent d.state_version e.state_version

abbrev pub Compares : CrdtDigestEntry → CrdtDigestEntry → Result DigestRelation → Type 0
Compares d e (raise x) =
    (x ≡ value_error) × ((d.key ≢ e.key) ⊎ (same_type d.crdt_type e.crdt_type ≡ false))
Compares d e (ok r) = (d.key ≡ e.key) × (same_type d.crdt_type e.crdt_type ≡ true) × Means d e r

of_items : List (CausalActor × ℕ) → VersionVector
of_items items = record { entries = items }

pub same_vector-eq : (v w : VersionVector) → same_vector v w ≡ true → v ≡ w
unfolding of_items
same_vector-eq v w h = ap of_items (same-eq v.entries w.entries h)

differs : {v w : VersionVector} → same_vector v w ≡ false → v ≢ w
differs {v} {w} h e =
    absurd (ground (arith, h, subst (λ x. same_vector v x ≡ true) e (same_self v.entries)))

relate-Means :
    (d e : CrdtDigestEntry) (r : VersionRelation)
    → Version.IsValid d.state_version
    → Version.IsValid e.state_version
    → compare d.state_version e.state_version ≡ r
    → Relates r d.state_version e.state_version
    → Means d e (relate r (same_vector d.causal_context e.causal_context))
unfolding relate
relate-Means d e before p q c h = h
relate-Means d e after p q c h = h
relate-Means d e concurrent p q c h = h
relate-Means d e equal p q c h =
    let v = (compare-equal_iff d.state_version e.state_version p q).0 c in
    elim (Bool-cases (same_vector d.causal_context e.causal_context)) [
      | inl s ↦ rw s (v, same_vector-eq d.causal_context e.causal_context s)
      | inr s ↦ rw s (v, differs s)
    ]

-- The comparison of two digests with valid vectors raises `ValueError` exactly for different keys or
-- types. Else EQUAL is equality of both vectors and METADATA_ONLY of the state versions alone; an
-- answer that one side is ahead, or that they are concurrent, is the relation of the state versions.
pub compare_digest-Compares :
    (d e : CrdtDigestEntry)
    → Version.IsValid d.state_version
    → Version.IsValid e.state_version
    → Compares d e (compare_digest d e)
unfolding compare_digest
compare_digest-Compares d e p q = elim (Bool-cases (same d.key e.key)) [
  | inr n ↦
      rw n
        (refl, inl (λ k. ground (arith, n, subst (λ x. same d.key x ≡ true) k (same_self d.key))))
  | inl k ↦ elim (Bool-cases (same_type d.crdt_type e.crdt_type)) [
    | inr n ↦ rw (k, n) (refl, inr n)
    | inl t ↦
        rw (k, t)
          (
            same-eq d.key e.key k,
            t,
            relate-Means d e (compare d.state_version e.state_version) p q refl
                (compare-Relates d.state_version e.state_version),
          )
  ]
]
