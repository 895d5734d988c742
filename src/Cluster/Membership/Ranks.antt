-- ===== src/Cluster/Membership/Ranks.antt =====
-- What gossip does to the view of a member: the highest incarnation wins, within it the worst status,
-- whatever the order of the records; and the local node outbids every rumour of its failure.
use advanced_distributed_sys.Base.{
  ℕ, ◌+◌, ◌*◌, ◌≤◌, ◌≡◌, ◌≢◌, refl, sym, ap, ◌∙◌, Bool, true, false, ◌||◌, ◌&&◌, List, [], ◌∷◌,
  Option, none, some, Result, ok, raise, arith, leb, ltb, if◌then◌else◌, Bool-cases, inl, inr, max,
}
use advanced_distributed_sys.Order.{Str, str_ord, list_ord, nat_ord, same}
use advanced_distributed_sys.Sorted.{find}
use advanced_distributed_sys.Sorted.Laws.{same-eq}
use advanced_distributed_sys.Cluster.Member.{
  MemberStatus, alive, suspect, dead, status_value, ClusterMember,
}
use advanced_distributed_sys.Cluster.Membership.{
  MembershipTable, is_suspect, is_dead, store, merge_local, merge_remote, merge_one, merge_loop,
  bump, merge,
}
use advanced_distributed_sys.Cluster.Membership.Keyed.{store-Sets, store-local}
use advanced_distributed_sys.Cluster.Membership.Timers.{
  IsValid, Returns, merge_one-IsValid, merge_one-Returns,
}

-- The precedence of what is known of a member: by incarnation, then by status, as one number.
abbrev pub rank : Option ClusterMember → ℕ
rank none = 0
rank (some m) = m.incarnation * 4 + status_value m.status

-- what a record says of node `k`
abbrev pub said : Str → ClusterMember → ℕ
said k m = if same m.node_id k then rank (some m) else 0

-- the highest precedence that the records give to node `k`
pub best : Str → List (ℕ × ClusterMember) → ℕ
best k [] = 0
best k ((now, m) ∷ records) = max (said k m) (best k records)

status-range : (s : MemberStatus) → (1 ≤ status_value s) × (status_value s ≤ 3)
status-range alive = omega arith
status-range suspect = omega arith
status-range dead = omega arith

stored-rank :
    (now : ℕ) (k j : Str) (m : ClusterMember) (t : MembershipTable)
    → IsValid t
    → m.node_id ≡ k
    → rank (find j (store now k m t).members)
      ≡ (if same k j then rank (some m) else rank (find j t.members))
stored-rank now k j m t v h = ground (arith, (store-Sets now k m t h v.distinct).members j)

merge_remote-rank :
    (now : ℕ) (incoming : ClusterMember) (t : MembershipTable) (j : Str)
    → IsValid t
    → (o : Option ClusterMember) → find incoming.node_id t.members ≡ o
    → rank (find j (merge_remote now incoming o t).0.members)
      ≡ max (rank (find j t.members)) (said j incoming)
unfolding merge_remote
merge_remote-rank now incoming t j v none f =
    ground (
      arith,
      stored-rank now incoming.node_id j incoming t v refl,
      str_ord.cmp_eq incoming.node_id j,
    )
merge_remote-rank now incoming t j v (some m) f =
    elim (Bool-cases (ltb incoming.incarnation m.incarnation)) [
      | inl older ↦
          rw older (ground (arith, here, status-range m.status, status-range incoming.status))
      | inr a ↦ rw a (elim (Bool-cases (ltb m.incarnation incoming.incarnation)) [
        | inl newer ↦ rw newer (
            ground (
              arith,
              here,
              stored-rank now incoming.node_id j incoming t v refl,
              status-range m.status,
              status-range incoming.status,
            ))
        | inr b ↦
            rw b (elim (Bool-cases (ltb (status_value m.status) (status_value incoming.status))) [
              | inl worse ↦ rw worse (
                  ground (
                    arith,
                    here,
                    stored-rank now incoming.node_id j (record m { status = incoming.status }) t v
                        id,
                  ))
              | inr c ↦ rw c (ground (arith, here))
            ])
      ])
    ]
  where
    id : m.node_id ≡ incoming.node_id
    id = rw f at (v.ids incoming.node_id)

    here : same incoming.node_id j ≡ true → rank (find j t.members) ≡ rank (some m)
    here e = ap (λ (k : Str). rank (find k t.members)) (sym (same-eq _ _ e)) ∙ ap rank f

merge_local-rank :
    (now : ℕ) (incoming : ClusterMember) (t : MembershipTable) (j : Str)
    → IsValid t
    → same incoming.node_id t.local_node_id ≡ true
    → j ≢ t.local_node_id
    → (o : Option ClusterMember) → find incoming.node_id t.members ≡ o
    → rank (find j (merge_local now incoming o t).0.members) ≡ rank (find j t.members)
unfolding merge_local
merge_local-rank now incoming t j v e ne none f = refl
merge_local-rank now incoming t j v e ne (some m) f =
    elim (Bool-cases (
      (is_suspect incoming.status || is_dead incoming.status)
      && leb m.incarnation incoming.incarnation)) [
        | inr quiet ↦ rw quiet
        | inl refutes ↦ rw refutes (
            ground (
              arith,
              stored-rank now t.local_node_id j
                  (record m { status = alive; incarnation = incoming.incarnation + 1 }) t v
                  ((rw f at (v.ids incoming.node_id)) ∙ same-eq _ _ e),
              str_ord.cmp_eq t.local_node_id j,
            ))
      ]

merge_one-rank :
    (now : ℕ) (incoming : ClusterMember) (t : MembershipTable) (j : Str)
    → IsValid t
    → j ≢ t.local_node_id
    → rank (find j (merge_one now incoming t).0.members)
      ≡ max (rank (find j t.members)) (said j incoming)
unfolding merge_one
merge_one-rank now incoming t j v ne = elim (Bool-cases (same incoming.node_id t.local_node_id)) [
  | inr there ↦
      rw there (merge_remote-rank now incoming t j v (find incoming.node_id t.members) refl)
  | inl here ↦ rw here (
      merge_local-rank now incoming t j v here ne (find incoming.node_id t.members) refl
      ∙ ground (
        arith,
        str_ord.cmp_eq incoming.node_id j,
        str_ord.cmp_eq incoming.node_id t.local_node_id,
      ))
]

merge_local-local_id :
    (now : ℕ) (incoming : ClusterMember) (o : Option ClusterMember) (t : MembershipTable)
    → (merge_local now incoming o t).0.local_node_id ≡ t.local_node_id
unfolding merge_local
merge_local-local_id now incoming none t = refl
merge_local-local_id now incoming (some m) t = ground (
  arith,
  store-local now t.local_node_id
      (record m { status = alive; incarnation = incoming.incarnation + 1 }) t,
)

merge_remote-local_id :
    (now : ℕ) (incoming : ClusterMember) (o : Option ClusterMember) (t : MembershipTable)
    → (merge_remote now incoming o t).0.local_node_id ≡ t.local_node_id
unfolding merge_remote
merge_remote-local_id now incoming none t = store-local now incoming.node_id incoming t
merge_remote-local_id now incoming (some m) t = ground (
  arith,
  store-local now incoming.node_id incoming t,
  store-local now incoming.node_id (record m { status = incoming.status }) t,
)

pub merge_one-local_id :
    (now : ℕ) (incoming : ClusterMember) (t : MembershipTable)
    → (merge_one now incoming t).0.local_node_id ≡ t.local_node_id
unfolding merge_one
merge_one-local_id now incoming t = ground (
  arith,
  merge_local-local_id now incoming (find incoming.node_id t.members) t,
  merge_remote-local_id now incoming (find incoming.node_id t.members) t,
)

-- what is folded over the records
module _ (P : MembershipTable → Type 0)
    (bumped : (t : MembershipTable) (n : ℕ) → P t → P (record t { version = n })) where
  pub bump_keeps : (s : MembershipTable × Result Bool) → P s.0 → P (bump s).0
  unfolding bump
  bump_keeps (t, ok true) h = bumped t _ h
  bump_keeps (t, ok false) h = h
  bump_keeps (t, raise e) h = h

-- one step of the loop, given that the record was merged without an exception
pub merge_loop-cons :
    (now : ℕ) (m : ClusterMember) (records : List (ℕ × ClusterMember)) (changed c : Bool)
    (t : MembershipTable)
    → (merge_one now m t).1 ≡ ok c
    → merge_loop ((now, m) ∷ records) changed t
      ≡ merge_loop records (c || changed) (merge_one now m t).0
unfolding merge_loop
merge_loop-cons now m records changed c t e = rw (e, merge_loop)

pub returned : (r : Result Bool) → Returns r → (c : Bool) × (r ≡ ok c)
returned (ok c) h = (c, refl)
returned (raise e) h = absurd h

merge_loop-rank :
    (records : List (ℕ × ClusterMember)) (changed : Bool) (t : MembershipTable) (j : Str)
    → IsValid t
    → j ≢ t.local_node_id
    → rank (find j (merge_loop records changed t).0.members)
      ≡ max (rank (find j t.members)) (best j records)
unfolding best
merge_loop-rank [] changed t j v ne = unfold merge_loop in omega arith
merge_loop-rank ((now, m) ∷ records) changed t j v ne =
    let (c, e) = returned _ (merge_one-Returns now m t v) in
    let t' = (merge_one now m t).0 in
    rw (merge_loop-cons now m records changed c t e) (
      omega (
        arith,
        merge_loop-rank records (c || changed) t' j (merge_one-IsValid now m t v)
            (λ p. ne (p ∙ merge_one-local_id now m t)),
        merge_one-rank now m t j v ne,
      ))

-- After any records are merged into a valid table, the precedence of what it has of a node other
-- than the local one is the highest of what it had and of what each record says, in whatever
-- order they come.
pub merge-rank :
    (records : List (ℕ × ClusterMember)) (t : MembershipTable) (j : Str)
    → IsValid t
    → j ≢ t.local_node_id
    → rank (find j (merge records t).0.members) ≡ max (rank (find j t.members)) (best j records)
unfolding merge
merge-rank records t j v ne =
    bump_keeps (λ t'. rank (find j t'.members) ≡ max (rank (find j t.members)) (best j records))
      (λ t' n h. h) (merge_loop records false t) (merge_loop-rank records false t j v ne)
