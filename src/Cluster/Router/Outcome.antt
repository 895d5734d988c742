-- ===== src/Cluster/Router/Outcome.antt =====
-- Which candidate decides how the routing of a task ends.
use advanced_distributed_sys.Base.{
  ◌≡◌, refl, ap, ◌∙◌, Bool, true, false, not, ◌&&◌, List, [], ◌∷◌, ◌++◌, Result, ok, raise,
  deadline_exceeded, peer_unavailable, if◌then◌else◌, All, arith, Bool-cases, inl, inr,
}
use advanced_distributed_sys.Order.{Str}
use advanced_distributed_sys.Cluster.Member.{ClusterMember}
use advanced_distributed_sys.Cluster.Ring.{Hashing, ConsistentHashRing, candidates}
use advanced_distributed_sys.Cluster.Router.{
  World, Routed, retryable, after_call, route_loop, execute,
}

module _ {A : Type 0} (local_node_id : Str) where
  -- the exception is one that the loop goes on from
  abbrev pub fails_over : ClusterMember → Result A → Bool
  fails_over m (ok a) = false
  fails_over m (raise e) = retryable local_node_id m e

  -- the candidate is called, and the loop goes on
  abbrev pub passes : World A → ClusterMember → Bool
  passes w m = not (w.expired m) && fails_over m (w.answer m)

  -- how a candidate that does not pass ends the routing
  abbrev pub decides : World A → ClusterMember → Routed A
  decides w m = if w.expired m then ([], raise deadline_exceeded) else (m ∷ [], w.answer m)

  after_call-passes :
      (m : ClusterMember) (r : Result A) (later : Routed A)
      → fails_over m r ≡ true
      → after_call local_node_id m r later ≡ (m ∷ later.0, later.1)
  unfolding after_call
  after_call-passes m (ok a) later h = absurd cc
  after_call-passes m (raise e) later h = rw h refl

  after_call-decides :
      (m : ClusterMember) (r : Result A) (later : Routed A)
      → fails_over m r ≡ false
      → after_call local_node_id m r later ≡ (m ∷ [], r)
  unfolding after_call
  after_call-decides m (ok a) later h = refl
  after_call-decides m (raise e) later h = rw h refl

  route_loop-passes :
      (w : World A) (m : ClusterMember) (ms : List ClusterMember)
      → passes w m ≡ true
      → route_loop local_node_id w (m ∷ ms)
        ≡ (m ∷ (route_loop local_node_id w ms).0, (route_loop local_node_id w ms).1)
  unfolding route_loop
  route_loop-passes w m ms h =
      let e : w.expired m ≡ false = ground arith in
      let f : fails_over m (w.answer m) ≡ true = ground arith in
      rw e (after_call-passes m (w.answer m) (route_loop local_node_id w ms) f)

  first_decides :
      (w : World A) (before behind : List ClusterMember) (m : ClusterMember)
      → All (λ c. passes w c ≡ true) before
      → passes w m ≡ false
      → route_loop local_node_id w (before ++ (m ∷ behind))
        ≡ (before ++ (decides w m).0, (decides w m).1)
  unfolding route_loop
  first_decides w [] behind m h d = elim (Bool-cases (w.expired m)) [
    | inl e ↦ rw e refl
    | inr e ↦
        let f : fails_over m (w.answer m) ≡ false = ground arith in
        rw e (after_call-decides m (w.answer m) (route_loop local_node_id w behind) f)
  ]
  first_decides w (c ∷ before) behind m h d =
      route_loop-passes w c (before ++ (m ∷ behind)) h.0
      ∙ ap (λ (r : Routed A). (c ∷ r.0, r.1)) (first_decides w before behind m h.1 d)

  all_pass :
      (w : World A) (ms : List ClusterMember)
      → All (λ c. passes w c ≡ true) ms
      → route_loop local_node_id w ms ≡ (ms, raise peer_unavailable)
  unfolding route_loop
  all_pass w [] h = refl
  all_pass w (c ∷ ms) h =
      route_loop-passes w c ms h.0 ∙ ap (λ (r : Routed A). (c ∷ r.0, r.1)) (all_pass w ms h.1)

  -- Where the candidates in front of one all fail over, each before the deadline, and that one does not,
  -- it decides: if the deadline has expired before its turn, the routing raises that and does not call
  -- it; else its answer is the answer, or its exception is raised. They are called in this order, each
  -- once, and none behind it is called.
  pub execute-decides :
      (h : Hashing) (ring : ConsistentHashRing) (routing_key : Str) (w : World A)
      (before behind : List ClusterMember) (m : ClusterMember)
      → candidates h routing_key ring ≡ ok (before ++ (m ∷ behind))
      → All (λ c. passes w c ≡ true) before
      → passes w m ≡ false
      → execute local_node_id h ring routing_key w ≡ (before ++ (decides w m).0, (decides w m).1)
  unfolding execute
  execute-decides h ring routing_key w before behind m c p d =
      rw (execute, c) (first_decides w before behind m p d)

  -- Where every candidate fails over before the deadline, each of them was called, and the routing
  -- raises that no peer is available.
  pub execute_unavailable :
      (h : Hashing) (ring : ConsistentHashRing) (routing_key : Str) (w : World A)
      (ms : List ClusterMember)
      → candidates h routing_key ring ≡ ok ms
      → All (λ c. passes w c ≡ true) ms
      → execute local_node_id h ring routing_key w ≡ (ms, raise peer_unavailable)
  unfolding execute
  execute_unavailable h ring routing_key w ms c p = rw (execute, c) (all_pass w ms p)
