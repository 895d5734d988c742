-- ===== src/Cluster/Service/Probing.antt =====
-- cluster/failure_detector.py and cluster/gossip.py: the rounds of the probes and of the gossip.
use advanced_distributed_sys.Base.{
  ℕ, false, not, List, [], ◌∷◌, Option, none, some, Result, ok, raise, if◌then◌else◌, filter, take,
}
use advanced_distributed_sys.Order.{list_ord, nat_ord, same}
use advanced_distributed_sys.Cluster.Member.{ClusterMember}
use advanced_distributed_sys.Cluster.Membership.{
  snapshot, alive_members, probe_candidates, merge, mark_suspect, advance_timeouts_and_purge,
}
use advanced_distributed_sys.Cluster.Ring.{Hashing}
use advanced_distributed_sys.Cluster.Service.{
  ClusterService, AckData, caught, vouches, gossip_of, after_change, after_merge,
}

-- `choose` of a list, unless it is empty
abbrev pub chosen :
    (ClusterMember → List ClusterMember → ClusterMember) → List ClusterMember → Option ClusterMember
chosen choose [] = none
chosen choose (m ∷ ms) = some (choose m ms)

-- no helper is asked
abbrev pub ended :
    ClusterService × Result (Unit {0}) → ClusterService × Result (Option (List ClusterMember))
ended (s, ok _) = (s, ok none)
ended (s, raise e) = (s, raise e)

-- the other members that are asked to ping the target
unfoldable pub helpers : ClusterMember → ClusterService → List ClusterMember
helpers target s =
    take s.indirect_probe_count
      (filter (λ m. not (same m.node_id target.node_id)) (alive_members false s.membership))

-- `asyncio.gather` of the indirect pings; one that raises makes it raise
unfoldable pub gather : List (Result AckData) → Result (List (Option AckData))
unfolding caught
gather [] = ok []
gather (answer ∷ answers) = elim (caught answer) [
  | raise e ↦ raise e
  | ok ack ↦ elim (gather answers) [ raise e ↦ raise e | ok acks ↦ ok (ack ∷ acks) ]
]

-- the first result that vouches for the target
unfoldable pub successful : ClusterMember → List (Option AckData) → Option AckData
unfolding vouches
successful target [] = none
successful target (ack ∷ acks) =
    let rest = successful target acks in if vouches target ack then ack else rest

module _ (h : Hashing) where
  -- The probe of a target, up to its ping: the target that is chosen, if there is a candidate.
  unfoldable pub probe_start :
      ℕ
      → (ClusterMember → List ClusterMember → ClusterMember)
      → ClusterService
      → ClusterService × Option ClusterMember
  unfolding after_change
  probe_start now choose s =
      let (t, changed) = advance_timeouts_and_purge now s.membership in
      let s' = after_change h t changed s in (s', chosen choose (probe_candidates s'.membership))

  -- behind the ping, up to the requests: the helpers, if the target did not answer
  unfoldable pub probe_answered :
      ClusterMember
      → Result AckData
      → ClusterService
      → ClusterService × Result (Option (List ClusterMember))
  unfolding caught vouches after_merge helpers
  probe_answered target answer s = elim (caught answer) [
    | raise e ↦ (s, raise e)
    | ok ack ↦
        if vouches target ack
        then ended (after_merge h (merge (gossip_of ack) s.membership) s)
        else (s, ok (some (helpers target s)))
  ]

  -- the gossip of a helper that reached the target, or a suspicion
  unfoldable pub conclude :
      ℕ → ClusterMember → Option AckData → ClusterService → ClusterService × Result (Unit {0})
  unfolding after_merge after_change
  conclude now target (some ack) s = after_merge h (merge ack.gossip s.membership) s
  conclude now target none s = (
    let (t, changed) = mark_suspect now target.node_id s.membership in after_change h t changed s,
    ok tt,
  )

  -- behind the requests
  unfoldable pub probe_finish :
      ℕ
      → ClusterMember
      → List (Result AckData)
      → ClusterService
      → ClusterService × Result (Unit {0})
  unfolding gather successful conclude
  probe_finish now target answers s = elim (gather answers) [
    | raise e ↦ (s, raise e)
    | ok acks ↦ conclude now target (successful target acks) s
  ]

-- What a probe meets: readings of the clock, the choice, the peers, and what other tasks do during
-- the ping and during the requests.
pub record Probe : Type 0 where
  pub starts : ℕ
  pub suspects : ℕ
  pub choose : ClusterMember → List ClusterMember → ClusterMember
  pub ping : ClusterMember → List ClusterMember → Result AckData
  pub ping_request : ClusterMember → ClusterMember → List ClusterMember → Result AckData
  pub during_ping : ClusterService → ClusterService
  pub during_requests : ClusterService → ClusterService

abbrev pub ask_all :
    Probe → ClusterMember → List ClusterMember → List ClusterMember → List (Result AckData)
ask_all w target members [] = []
ask_all w target members (helper ∷ rest) =
    w.ping_request helper target members ∷ ask_all w target members rest

module _ (h : Hashing) where
  -- the helpers are asked, if there is need
  unfoldable pub ask_helpers :
      Probe
      → ClusterMember
      → List ClusterMember
      → ClusterService × Result (Option (List ClusterMember))
      → ClusterService × Result (Unit {0})
  unfolding probe_finish
  ask_helpers w target members (s, raise e) = (s, raise e)
  ask_helpers w target members (s, ok none) = (s, ok tt)
  ask_helpers w target members (s, ok (some asked)) =
      probe_finish h w.suspects target (ask_all w target members asked) (w.during_requests s)

  -- behind the choice of a target, with the snapshot that the messages carry
  unfoldable pub probe_target :
      Probe
      → ClusterMember
      → List ClusterMember
      → ClusterService
      → ClusterService × Result (Unit {0})
  unfolding probe_answered ask_helpers
  probe_target w target members s =
      ask_helpers w target members
        (probe_answered h target (w.ping target members) (w.during_ping s))

  -- `FailureDetector.run_once`
  unfoldable pub probe_once : Probe → ClusterService → ClusterService × Result (Unit {0})
  unfolding probe_start probe_target
  probe_once w s =
      let (s', chosen) = probe_start h w.starts w.choose s in
      elim chosen [
        | none ↦ (s', ok tt)
        | some target ↦ probe_target w target (snapshot s'.membership) s'
      ]

  -- behind the call of a gossip round
  unfoldable pub gossip_answered :
      Result AckData → ClusterService → ClusterService × Result (Unit {0})
  unfolding caught after_merge
  gossip_answered answer s = elim (caught answer) [
    | raise e ↦ (s, raise e)
    | ok none ↦ (s, ok tt)
    | ok (some ack) ↦ after_merge h (merge ack.gossip s.membership) s
  ]

  -- `GossipLoop.run_once`
  unfoldable pub gossip_once :
      (ClusterMember → List ClusterMember → ClusterMember)
      → (ClusterMember → List ClusterMember → Result AckData)
      → (ClusterService → ClusterService)
      → ClusterService
      → ClusterService × Result (Unit {0})
  unfolding gossip_answered
  gossip_once choose gossip during s = elim (alive_members false s.membership) [
    | [] ↦ (s, ok tt)
    | m ∷ ms ↦ gossip_answered (gossip (choose m ms) (snapshot s.membership)) (during s)
  ]
