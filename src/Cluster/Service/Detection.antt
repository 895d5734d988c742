-- ===== src/Cluster/Service/Detection.antt =====
-- Where a key is routed follows the table, and a target that nobody reaches is suspected.
use advanced_distributed_sys.Base.{
  ◌≡◌, refl, sym, ap, ◌∙◌, Bool, true, false, List, [], ◌∷◌, Option, none, some, ok, arith,
  if◌then◌else◌, Bool-cases, inl, inr,
}
use mathlib.Core.Path.{subst}
use advanced_distributed_sys.Base.Int.{ℤ}
use advanced_distributed_sys.Order.{Str, list_ord, nat_ord, same}
use advanced_distributed_sys.Sorted.{find, Distinct, sort_items}
use advanced_distributed_sys.Sorted.Laws.{
  find-sort_items, sort_items-IsSorted, IsSorted-Distinct, same-eq, same_self,
}
use advanced_distributed_sys.Cluster.Member.{ClusterMember}
use advanced_distributed_sys.Cluster.Membership.{MembershipTable, values_of, snapshot, is_alive}
use advanced_distributed_sys.Cluster.Membership.Timers.{IsValid, HasId}
use advanced_distributed_sys.Cluster.Ring.{Hashing, candidates}
use advanced_distributed_sys.Cluster.Ring.Complete.{NoRepeat, listed, lives, candidates_complete}
use advanced_distributed_sys.Cluster.Service.{ClusterService, Settings, new_service, sync_ring}
use advanced_distributed_sys.Cluster.Service.Steps.{ServiceStep, run, serve-InStep}
use advanced_distributed_sys.Cluster.Service.InStep.{InStep}

-- the table has the node as alive
abbrev pub found_alive : Option ClusterMember → Bool
found_alive none = false
found_alive (some m) = is_alive m.status

find-cons :
    (k j : Str) (m : ClusterMember) (es : List (Str × ClusterMember))
    → find k ((j, m) ∷ es) ≡ (if same j k then some m else find k es)
unfolding find
find-cons k j m es = refl

-- a node that is filed first is not filed again
find-again :
    (k j : Str) (es : List (Str × ClusterMember))
    → same j k ≡ true
    → find j es ≡ none
    → find k es ≡ none
find-again k j es e d = ap (λ (i : Str). find i es) (sym (same-eq j k e)) ∙ d

lives-values_of :
    (k : Str) (es : List (Str × ClusterMember))
    → Distinct es
    → ((j : Str) → HasId j (find j es))
    → lives k (values_of es) ≡ found_alive (find k es)
lives-values_of k [] d ids = unfold find in refl
lives-values_of k ((j, m) ∷ es) d ids =
    let own : m.node_id ≡ j =
      subst (HasId j) {y = some m} (find-cons j j m es ∙ rw (same_self j) refl) (ids j) in
    let rest = lives-values_of k es d.1 (λ i. elim (Bool-cases (same j i)) [
      | inl e ↦ subst (HasId i) (sym (find-again i j es e d.0)) tt
      | inr e ↦ subst (HasId i) {y = find i es} (find-cons i j m es ∙ rw e refl) (ids i)
    ]) in
    elim (Bool-cases (same j k)) [
      | inl e ↦
          rw (find-cons k j m es, own)
            (ground (arith, e, rest, ap found_alive (find-again k j es e d.0)))
      | inr e ↦ rw (find-cons k j m es, own) (ground (arith, e, rest))
    ]

lives-snapshot :
    (k : Str) (t : MembershipTable)
    → IsValid t
    → lives k (snapshot t) ≡ found_alive (find k t.members)
unfolding snapshot
lives-snapshot k t v =
    lives-values_of k (sort_items t.members)
      (IsSorted-Distinct _ (sort_items-IsSorted t.members v.distinct.members))
      (λ j. subst (HasId j) (sym (find-sort_items j t.members)) (v.ids j))
    ∙ ap found_alive (find-sort_items k t.members)

module _ (h : Hashing) where
  -- what a node that is in step answers for a key
  pub InStep-candidates :
      (s : ClusterService) (key : Str) (ms : List ClusterMember)
      → InStep h s
      → candidates h key s.ring ≡ ok ms
      → NoRepeat ms × ((k : Str) → listed k ms ≡ found_alive (find k s.membership.members))
  InStep-candidates s key ms i e =
      let (n, placed) = i.placed in
      let (once, cover) =
        candidates_complete h key (snapshot s.membership) ms s.ring n placed
          (ap (candidates h key) (sym i.ring) ∙ e) in
      (once, λ k. cover k ∙ lives-snapshot k s.membership i.table)

  -- From a node that the constructor made and that has built its ring once, at every wait of every
  -- task, in whatever order the tasks take their turns and whatever the peers answer: the candidates
  -- that the ring gives for a key are exactly the nodes that the table has as alive, each once.
  pub serve-candidates :
      (settings : Settings) (port incarnation : ℤ) (s : ClusterService) (xs : List ServiceStep)
      (key : Str) (ms : List ClusterMember)
      → new_service settings port incarnation ≡ ok s
      → candidates h key (run h xs (sync_ring h s)).ring ≡ ok ms
      → NoRepeat ms
        × ((k : Str)
            → listed k ms ≡ found_alive (find k (run h xs (sync_ring h s)).membership.members))
  serve-candidates settings port incarnation s xs key ms e =
      InStep-candidates (run h xs (sync_ring h s)) key ms
        (serve-InStep h settings port incarnation s xs e)
