-- ===== src/Cluster/Membership/Refutation.antt =====
-- The local node's own record: its incarnation outbids every rumour that it failed.
use advanced_distributed_sys.Base.{
  ℕ, ◌+◌, ◌≡◌, refl, sym, ap, ◌∙◌, Bool, true, false, ◌||◌, ◌&&◌, List, [], ◌∷◌, Option, none, some,
  arith, leb, if◌then◌else◌, Bool-cases, inl, inr, max,
}
use mathlib.Core.Path.{subst}
use advanced_distributed_sys.Order.{Str, str_ord, list_ord, nat_ord, same}
use advanced_distributed_sys.Sorted.{find}
use advanced_distributed_sys.Sorted.Laws.{same-eq, same_self}
use advanced_distributed_sys.Cluster.Member.{alive, ClusterMember}
use advanced_distributed_sys.Cluster.Membership.{
  MembershipTable, is_suspect, is_dead, store, merge_local, merge_remote, merge_one, merge_loop,
  merge,
}
use advanced_distributed_sys.Cluster.Membership.Keyed.{store-Sets}
use advanced_distributed_sys.Cluster.Membership.Timers.{
  IsValid, merge_one-IsValid, merge_one-Returns,
}
use advanced_distributed_sys.Cluster.Membership.Ranks.{
  bump_keeps, merge_loop-cons, returned, merge_one-local_id,
}

-- the incarnation of the local node in its own table
abbrev pub incarnation_of : Option ClusterMember → ℕ
incarnation_of none = 0
incarnation_of (some m) = m.incarnation

abbrev pub own_incarnation : MembershipTable → ℕ
own_incarnation t = incarnation_of (find t.local_node_id t.members)

-- the incarnation that refutes a record: one more than that of a rumour about `k`
abbrev pub bid : Str → ClusterMember → ℕ
bid k m =
    if same m.node_id k && (is_suspect m.status || is_dead m.status) then m.incarnation + 1 else 0

pub highest_bid : Str → List (ℕ × ClusterMember) → ℕ
highest_bid k [] = 0
highest_bid k ((now, m) ∷ records) = max (bid k m) (highest_bid k records)

stored-incarnation :
    (now : ℕ) (k j : Str) (m : ClusterMember) (t : MembershipTable)
    → IsValid t
    → m.node_id ≡ k
    → incarnation_of (find j (store now k m t).members)
      ≡ (if same k j then m.incarnation else incarnation_of (find j t.members))
stored-incarnation now k j m t v h = ground (arith, (store-Sets now k m t h v.distinct).members j)

merge_local-own :
    (now : ℕ) (incoming : ClusterMember) (t : MembershipTable)
    → IsValid t
    → incoming.node_id ≡ t.local_node_id
    → (o : Option ClusterMember) → find t.local_node_id t.members ≡ o
    → incarnation_of (find t.local_node_id (merge_local now incoming o t).0.members)
      ≡ max (own_incarnation t) (bid t.local_node_id incoming)
unfolding merge_local
merge_local-own now incoming t v e none f = absurd (rw f at v.local)
merge_local-own now incoming t v e (some m) f =
    elim (Bool-cases (
      (is_suspect incoming.status || is_dead incoming.status)
      && leb m.incarnation incoming.incarnation)) [
        | inr quiet ↦ rw quiet (ground (arith, known))
        | inl refutes ↦ rw refutes (
            ground (
              arith,
              known,
              itself,
              str_ord.cmp_self t.local_node_id,
              stored-incarnation now t.local_node_id t.local_node_id
                  (record m { status = alive; incarnation = incoming.incarnation + 1 }) t v id,
            ))
      ]
  where
    id : m.node_id ≡ t.local_node_id
    id = rw f at (v.ids t.local_node_id)

    known : own_incarnation t ≡ m.incarnation
    known = ap incarnation_of f

    itself : same incoming.node_id t.local_node_id ≡ true
    itself = rw e (same_self t.local_node_id)

merge_remote-own :
    (now : ℕ) (incoming : ClusterMember) (t : MembershipTable)
    → IsValid t
    → same incoming.node_id t.local_node_id ≡ false
    → (o : Option ClusterMember) → find incoming.node_id t.members ≡ o
    → incarnation_of (find t.local_node_id (merge_remote now incoming o t).0.members)
      ≡ own_incarnation t
unfolding merge_remote
merge_remote-own now incoming t v e none f =
    ground (arith, stored-incarnation now incoming.node_id t.local_node_id incoming t v refl)
merge_remote-own now incoming t v e (some m) f = ground (
  arith,
  stored-incarnation now incoming.node_id t.local_node_id incoming t v refl,
  stored-incarnation now incoming.node_id t.local_node_id (record m { status = incoming.status }) t
      v (rw f at (v.ids incoming.node_id)),
)

merge_one-here :
    (now : ℕ) (incoming : ClusterMember) (t : MembershipTable)
    → same incoming.node_id t.local_node_id ≡ true
    → merge_one now incoming t ≡ merge_local now incoming (find incoming.node_id t.members) t
unfolding merge_one
merge_one-here now incoming t h = rw h

merge_one-there :
    (now : ℕ) (incoming : ClusterMember) (t : MembershipTable)
    → same incoming.node_id t.local_node_id ≡ false
    → merge_one now incoming t ≡ merge_remote now incoming (find incoming.node_id t.members) t
unfolding merge_one
merge_one-there now incoming t h = rw h

merge_one-own :
    (now : ℕ) (incoming : ClusterMember) (t : MembershipTable)
    → IsValid t
    → incarnation_of (find t.local_node_id (merge_one now incoming t).0.members)
      ≡ max (own_incarnation t) (bid t.local_node_id incoming)
merge_one-own now incoming t v = elim (Bool-cases (same incoming.node_id t.local_node_id)) [
  | inl here ↦
      let e : incoming.node_id ≡ t.local_node_id = same-eq _ _ here in
      rw (merge_one-here now incoming t here) (
        subst
          (λ (k : Str).
            incarnation_of
              (find t.local_node_id (merge_local now incoming (find k t.members) t).0.members)
            ≡ max (own_incarnation t) (bid t.local_node_id incoming))
          (sym e) (merge_local-own now incoming t v e (find t.local_node_id t.members) refl))
  | inr there ↦ rw (merge_one-there now incoming t there) (
      merge_remote-own now incoming t v there (find incoming.node_id t.members) refl ∙ ground arith)
]

-- the loop, from a table with the same local node
merge_loop-own :
    (records : List (ℕ × ClusterMember)) (changed : Bool) (k : Str) (t : MembershipTable)
    → t.local_node_id ≡ k
    → IsValid t
    → incarnation_of (find k (merge_loop records changed t).0.members)
      ≡ max (incarnation_of (find k t.members)) (highest_bid k records)
unfolding highest_bid
merge_loop-own [] changed k t h v = unfold merge_loop in omega arith
merge_loop-own ((now, m) ∷ records) changed k t h v =
    let (c, e) = returned _ (merge_one-Returns now m t v) in
    let t' = (merge_one now m t).0 in
    let one =
      subst
        (λ (i : Str).
          incarnation_of (find i t'.members) ≡ max (incarnation_of (find i t.members)) (bid i m))
        h (merge_one-own now m t v) in
    rw (merge_loop-cons now m records changed c t e) (
      omega (
        arith,
        merge_loop-own records (c || changed) k t' (merge_one-local_id now m t ∙ h)
            (merge_one-IsValid now m t v),
        one,
      ))

-- After any records are merged into a valid table, the local node's incarnation is the largest of
-- what it was and one more than that of each rumour that the local node is suspected or dead.
pub merge-own_incarnation :
    (records : List (ℕ × ClusterMember)) (t : MembershipTable)
    → IsValid t
    → incarnation_of (find t.local_node_id (merge records t).0.members)
      ≡ max (own_incarnation t) (highest_bid t.local_node_id records)
unfolding merge
merge-own_incarnation records t v =
    bump_keeps
      (λ t'.
        incarnation_of (find t.local_node_id t'.members)
        ≡ max (own_incarnation t) (highest_bid t.local_node_id records))
      (λ t' n h. h) (merge_loop records false t)
      (merge_loop-own records false t.local_node_id t refl v)
