-- ===== src/Cluster/Service/InStep.antt =====
-- The hash ring in step with the membership table, and what keeps it so.
use advanced_distributed_sys.Base.{
  ℕ, zero, suc, ◌≡◌, refl, sym, ap, ◌∙◌, Bool, true, false, ◌∷◌, Result, ok, raise, arith,
  Bool-cases, inl, inr, >>=-eq-ok, ok-injective,
}
use mathlib.Core.Path.{subst}
use advanced_distributed_sys.Base.Int.{ℤ, pos, negsuc}
use advanced_distributed_sys.Order.{Str, list_ord, nat_ord}
use advanced_distributed_sys.Sorted.{sort_items}
use advanced_distributed_sys.Cluster.Member.{MemberStatus, alive, ClusterMember, make_member}
use advanced_distributed_sys.Cluster.Membership.{
  MembershipTable, new_table, values_of, snapshot, merge,
}
use advanced_distributed_sys.Cluster.Membership.Timers.{
  IsValid, Good, new_table-IsValid, merge-Good,
}
use advanced_distributed_sys.Cluster.Ring.{Hashing, ConsistentHashRing, new_ring, rebuild}
use advanced_distributed_sys.Cluster.Service.{
  ClusterService, Settings, Records, is_version, host_or, new_service, sync_ring, after_change,
  after_merge, after_sync,
}
use advanced_distributed_sys.Cluster.Service.Moves.{Moved, ResultMoved, merge-Moved}

make_member-status :
    (node_id host : Str) (port : ℤ) (status : MemberStatus) (incarnation : ℤ) {m : ClusterMember}
    → make_member node_id host port status incarnation ≡ ok m
    → m.status ≡ status
unfolding make_member
make_member-status (n ∷ ns) (h ∷ hs) (pos port) status (pos (suc i)) e = ground arith
make_member-status _ _ _ _ _ e = absurd cc

new_ring-nodes :
    (virtual_nodes : ℤ) {r : ConsistentHashRing}
    → new_ring virtual_nodes ≡ ok r
    → (n : ℕ) × (r.virtual_nodes ≡ suc n)
unfolding new_ring
new_ring-nodes (pos (suc n)) e =
    (n, ap (λ (r : ConsistentHashRing). r.virtual_nodes) (sym (ok-injective e)))
new_ring-nodes (pos zero) e = absurd cc
new_ring-nodes (negsuc n) e = absurd cc

module _ (h : Hashing) where
  -- The table is valid, and the ring is the one that is built from it, of its version.
  pub record InStep (s : ClusterService) : Type 0 where
    pub table : IsValid s.membership
    pub ring : s.ring ≡ rebuild h (snapshot s.membership) s.ring
    pub version : s.ring_version ≡ pos s.membership.version
    pub placed : (n : ℕ) × (s.ring.virtual_nodes ≡ suc n)

  -- a ring of another version is built again
  pub sync_ring-InStep-other :
      (s : ClusterService)
      → IsValid s.membership
      → is_version s.ring_version s.membership.version ≡ false
      → (n : ℕ) × (s.ring.virtual_nodes ≡ suc n)
      → InStep (sync_ring h s)
  unfolding sync_ring rebuild
  sync_ring-InStep-other s v e p =
      rw e (record { table = v; ring = refl; version = refl; placed = p })

  pub sync_ring-InStep : (s : ClusterService) → InStep s → InStep (sync_ring h s)
  unfolding sync_ring
  sync_ring-InStep s i = elim (Bool-cases (is_version s.ring_version s.membership.version)) [
    | inl e ↦ rw e i
    | inr e ↦ sync_ring-InStep-other s i.table e i.placed
  ]

  pub after_change-InStep :
      (t : MembershipTable) (changed : Bool) (s : ClusterService)
      → InStep s
      → IsValid t
      → Moved s.membership t changed
      → InStep (after_change h t changed s)
  unfolding after_change is_version
  after_change-InStep t true s i v m =
      sync_ring-InStep-other (record s { membership = t }) v (rw i.version (ground (arith, m)))
        i.placed
  after_change-InStep t false s i v (m, n) = record {
    table = v;
    ring =
        i.ring ∙ unfold snapshot in ap (λ ms. rebuild h (values_of (sort_items ms)) s.ring) (sym m);
    version = i.version ∙ ap pos (sym n);
    placed = i.placed;
  }

  pub after_merge-InStep :
      (r : MembershipTable × Result Bool) (s : ClusterService)
      → InStep s
      → Good r
      → ResultMoved s.membership r
      → InStep (after_merge h r s).0
  unfolding after_merge
  after_merge-InStep (t, ok c) s i g m = after_change-InStep t c s i g.0 m
  after_merge-InStep (t, raise e) s i g m = absurd g.1

  pub merged-InStep :
      (records : Records) (s : ClusterService)
      → InStep s
      → InStep (after_merge h (merge records s.membership) s).0
  merged-InStep records s i =
      after_merge-InStep (merge records s.membership) s i (merge-Good records s.membership i.table)
        (merge-Moved records s.membership)

  pub after_sync-InStep :
      (r : MembershipTable × Result Bool) (s : ClusterService)
      → InStep s
      → Good r
      → ResultMoved s.membership r
      → InStep (after_sync h r s).0
  unfolding after_sync after_change
  after_sync-InStep (t, ok true) s i g m = after_change-InStep t true s i g.0 m
  after_sync-InStep (t, ok false) s i g m =
      sync_ring-InStep (record s { membership = t }) (after_change-InStep t false s i g.0 m)
  after_sync-InStep (t, raise e) s i g m = absurd g.1

  pub new_service-valid :
      (settings : Settings) (port incarnation : ℤ) (s : ClusterService)
      → new_service settings port incarnation ≡ ok s
      → IsValid s.membership
        × (s.ring_version ≡ negsuc 0)
        × ((n : ℕ) × (s.ring.virtual_nodes ≡ suc n))
  unfolding new_service
  new_service-valid settings port incarnation s e =
      let (local, p, q) =
        >>=-eq-ok
          (make_member settings.node_id (host_or settings.advertise_host settings.host) port alive
            incarnation)
          _ e in
      let (table, p', q') =
        >>=-eq-ok (new_table local settings.suspicion_timeout settings.dead_retention) _ q in
      let (ring, p'', q'') = >>=-eq-ok (new_ring settings.virtual_nodes) _ q' in
      let same_service = ok-injective q'' in
      (
        subst (λ (x : ClusterService). IsValid x.membership) same_service
            (new_table-IsValid local settings.suspicion_timeout settings.dead_retention
              (make_member-status _ _ port alive incarnation p) p').0,
        ap (λ (x : ClusterService). x.ring_version) (sym same_service),
        subst (λ (x : ClusterService). (n : ℕ) × (x.ring.virtual_nodes ≡ suc n)) same_service
            (new_ring-nodes settings.virtual_nodes p''),
      )
