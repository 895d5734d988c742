-- ===== src/Cluster/Service/Steps.antt =====
-- At every wait of every task, the hash ring of a node is that of its membership table.
use advanced_distributed_sys.Base.{
  ℕ, ◌≡◌, refl, List, [], ◌∷◌, Option, none, some, Result, ok, raise, Bool-cases, Result-cases, inl,
  inr,
}
use advanced_distributed_sys.Base.Int.{ℤ}
use advanced_distributed_sys.Order.{list_ord, nat_ord}
use advanced_distributed_sys.Cluster.Member.{ClusterMember}
use advanced_distributed_sys.Cluster.Membership.{merge}
use advanced_distributed_sys.Cluster.Membership.Timers.{merge-Good}
use advanced_distributed_sys.Cluster.Membership.Timeouts.{mark_suspect-IsValid, advance-IsValid}
use advanced_distributed_sys.Cluster.Ring.{Hashing}
use advanced_distributed_sys.Cluster.Service.{
  ClusterService, Settings, Records, AckData, caught, vouches, gossip_of, is_version, new_service,
  sync_ring, after_merge, merge_and_sync,
}
use advanced_distributed_sys.Cluster.Service.Probing.{
  probe_start, probe_answered, gather, successful, conclude, ended, probe_finish, gossip_answered,
}
use advanced_distributed_sys.Cluster.Service.Control.{with_state, relayed}
use advanced_distributed_sys.Cluster.Service.Moves.{merge-Moved, mark_suspect-Moved, advance-Moved}
use advanced_distributed_sys.Cluster.Service.InStep.{
  InStep, sync_ring-InStep, sync_ring-InStep-other, after_change-InStep, after_sync-InStep,
  merged-InStep, new_service-valid,
}

-- What one task does between two of its waits.
pub data ServiceStep : Type 0 where
  starts_probe : ℕ → (ClusterMember → List ClusterMember → ClusterMember) → ServiceStep
  hears_target : ClusterMember → Result AckData → ServiceStep
  hears_helpers : ℕ → ClusterMember → List (Result AckData) → ServiceStep
  hears_gossip : Result AckData → ServiceStep
  receives : Records → ServiceStep
  relays : ClusterMember → Result AckData → ServiceStep
  syncs : ServiceStep

module _ (h : Hashing) where
  unfoldable pub step : ServiceStep → ClusterService → ClusterService
  unfolding probe_start probe_answered probe_finish gossip_answered merge_and_sync relayed sync_ring
  step (starts_probe now choose) s = (probe_start h now choose s).0
  step (hears_target target answer) s = (probe_answered h target answer s).0
  step (hears_helpers now target answers) s = (probe_finish h now target answers s).0
  step (hears_gossip answer) s = (gossip_answered h answer s).0
  step (receives records) s = (merge_and_sync h records s).0
  step (relays target answer) s = (relayed h target answer s).0
  step syncs s = sync_ring h s

  unfoldable pub run : List ServiceStep → ClusterService → ClusterService
  unfolding step
  run [] s = s
  run (x ∷ xs) s = run xs (step x s)

  pub merge_and_sync-InStep :
      (records : Records) (s : ClusterService)
      → InStep h s
      → InStep h (merge_and_sync h records s).0
  unfolding merge_and_sync
  merge_and_sync-InStep records s i =
      after_sync-InStep h (merge records s.membership) s i (merge-Good records s.membership i.table)
        (merge-Moved records s.membership)

  probe_start-InStep :
      (now : ℕ) (choose : ClusterMember → List ClusterMember → ClusterMember) (s : ClusterService)
      → InStep h s
      → InStep h (probe_start h now choose s).0
  unfolding probe_start
  probe_start-InStep now choose s i =
      after_change-InStep h _ _ s i (advance-IsValid now s.membership i.table)
        (advance-Moved now s.membership)

  ended-InStep : (r : ClusterService × Result (Unit {0})) → InStep h r.0 → InStep h (ended r).0
  ended-InStep (s, ok x) i = i
  ended-InStep (s, raise e) i = i

  with_state-InStep :
      {A B : Type 0} (r : ClusterService × Result A)
      (next : ClusterService → ClusterService × Result B)
      → InStep h r.0
      → ((s : ClusterService) → InStep h s → InStep h (next s).0)
      → InStep h (with_state r next).0
  with_state-InStep (s, raise e) next i n = i
  with_state-InStep (s, ok x) next i n = n s i

  probe_answered-InStep :
      (target : ClusterMember) (answer : Result AckData) (s : ClusterService)
      → InStep h s
      → InStep h (probe_answered h target answer s).0
  unfolding probe_answered
  probe_answered-InStep target answer s i = elim (Result-cases (caught answer)) [
    | inr (e, q) ↦ rw (probe_answered, q) i
    | inl (ack, q) ↦ elim (Bool-cases (vouches target ack)) [
      | inr n ↦ rw (probe_answered, q, n) i
      | inl y ↦
          rw (probe_answered, q, y)
            (ended-InStep (after_merge h (merge (gossip_of ack) s.membership) s)
              (merged-InStep h (gossip_of ack) s i))
    ]
  ]

  conclude-InStep :
      (now : ℕ) (target : ClusterMember) (found : Option AckData) (s : ClusterService)
      → InStep h s
      → InStep h (conclude h now target found s).0
  unfolding conclude
  conclude-InStep now target (some ack) s i = merged-InStep h ack.gossip s i
  conclude-InStep now target none s i =
      after_change-InStep h _ _ s i (mark_suspect-IsValid now target.node_id s.membership i.table)
        (mark_suspect-Moved now target.node_id s.membership)

  probe_finish-InStep :
      (now : ℕ) (target : ClusterMember) (answers : List (Result AckData)) (s : ClusterService)
      → InStep h s
      → InStep h (probe_finish h now target answers s).0
  unfolding probe_finish
  probe_finish-InStep now target answers s i = elim (Result-cases (gather answers)) [
    | inr (e, q) ↦ rw (probe_finish, q) i
    | inl (acks, q) ↦ rw (probe_finish, q) (conclude-InStep now target (successful target acks) s i)
  ]

  gossip_answered-InStep :
      (answer : Result AckData) (s : ClusterService)
      → InStep h s
      → InStep h (gossip_answered h answer s).0
  unfolding gossip_answered
  gossip_answered-InStep answer s i = elim (Result-cases (caught answer)) [
    | inr (e, q) ↦ rw (gossip_answered, q) i
    | inl (none, q) ↦ rw (gossip_answered, q) i
    | inl (some ack, q) ↦ rw (gossip_answered, q) (merged-InStep h ack.gossip s i)
  ]

  relayed-InStep :
      (target : ClusterMember) (answer : Result AckData) (s : ClusterService)
      → InStep h s
      → InStep h (relayed h target answer s).0
  unfolding relayed
  relayed-InStep target answer s i = elim (Result-cases (caught answer)) [
    | inr (e, q) ↦ rw (relayed, q) i
    | inl (found, q) ↦ elim (Bool-cases (vouches target found)) [
      | inr n ↦ rw (relayed, q, n) i
      | inl y ↦
          rw (relayed, q, y)
            (with_state-InStep (after_merge h (merge (gossip_of found) s.membership) s) _
              (merged-InStep h (gossip_of found) s i) (λ s' j. j))
    ]
  ]

  pub step-InStep : (x : ServiceStep) (s : ClusterService) → InStep h s → InStep h (step x s)
  unfolding step
  step-InStep (starts_probe now choose) s i = probe_start-InStep now choose s i
  step-InStep (hears_target target answer) s i = probe_answered-InStep target answer s i
  step-InStep (hears_helpers now target answers) s i = probe_finish-InStep now target answers s i
  step-InStep (hears_gossip answer) s i = gossip_answered-InStep answer s i
  step-InStep (receives records) s i = merge_and_sync-InStep records s i
  step-InStep (relays target answer) s i = relayed-InStep target answer s i
  step-InStep syncs s i = sync_ring-InStep h s i

  pub run-InStep : (xs : List ServiceStep) (s : ClusterService) → InStep h s → InStep h (run xs s)
  unfolding run
  run-InStep [] s i = i
  run-InStep (x ∷ xs) s i = run-InStep xs (step x s) (step-InStep x s i)

  -- From a node that the constructor made and that has built its ring once, the ring is the one that is
  -- built from the members of the table, and its version is the table's, at every wait of every task,
  -- in whatever order the tasks take their turns and whatever the peers answer; the table is valid.
  pub serve-InStep :
      (settings : Settings) (port incarnation : ℤ) (s : ClusterService) (xs : List ServiceStep)
      → new_service settings port incarnation ≡ ok s
      → InStep h (run xs (sync_ring h s))
  unfolding is_version
  serve-InStep settings port incarnation s xs e =
      let (v, n, placed) = new_service-valid h settings port incarnation s e in
      run-InStep xs (sync_ring h s) (sync_ring-InStep-other h s v (rw n refl) placed)
