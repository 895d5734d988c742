-- ===== src/Cluster/Membership/Timeouts.antt =====
-- Suspicion, the timeouts and the purge keep the invariant of the table.
use advanced_distributed_sys.Base.{
  ℕ, ◌-◌, ◌≡◌, ◌≢◌, refl, sym, Bool, true, false, not, ◌||◌, List, [], ◌∷◌, Option, none, some,
  arith, leb, if◌then◌else◌, Bool-cases, inl, inr,
}
use mathlib.Core.Path.{subst}
use advanced_distributed_sys.Order.{Str, str_ord, list_ord, nat_ord, same}
use advanced_distributed_sys.Sorted.{find, pop}
use advanced_distributed_sys.Sorted.Laws.{find-pop, pop-Distinct, same-eq}
use advanced_distributed_sys.Cluster.Member.{alive, suspect, ClusterMember}
use advanced_distributed_sys.Cluster.Membership.{
  MembershipTable, is_alive, is_suspect, is_dead, suspect_member, mark_suspect, expire_suspect,
  suspect_loop, purge_dead, dead_loop, bump_changed, advance_timeouts_and_purge,
}
use advanced_distributed_sys.Cluster.Membership.Keyed.{
  flag_suspect, flag_dead, Sets, store-Sets, killed-Sets, purged-Sets,
}
use advanced_distributed_sys.Cluster.Membership.Timers.{
  IsValid, IsAlive, Sets-IsValid, version-IsValid,
}

suspect_member-IsValid :
    (now : ℕ) (k : Str) (t : MembershipTable)
    → IsValid t
    → (o : Option ClusterMember) → find k t.members ≡ o
    → IsValid (suspect_member now k o t).0
unfolding suspect_member
suspect_member-IsValid now k t v none f = v
suspect_member-IsValid now k t v (some m) f =
    elim (Bool-cases (same k t.local_node_id || not (is_alive m.status))) [
      | inl e ↦ rw e v
      | inr e ↦ rw e (
          version-IsValid _ _ (
            Sets-IsValid k _ t _ v
              (store-Sets now k (record m { status = suspect }) t id v.distinct) id
              (λ x. absurd (ground arith))))
    ]
  where
    id : m.node_id ≡ k
    id = rw f at (v.ids k)

-- Suspecting any node keeps a valid table valid: the local node is not suspected, and the timers
-- are those of the suspects and of the dead.
pub mark_suspect-IsValid :
    (now : ℕ) (k : Str) (t : MembershipTable) → IsValid t → IsValid (mark_suspect now k t).0
unfolding mark_suspect
mark_suspect-IsValid now k t v = suspect_member-IsValid now k t v (find k t.members) refl

local_not_suspect :
    (k : Str) (t : MembershipTable) (m : ClusterMember)
    → IsValid t
    → find k t.members ≡ some m
    → m.status ≢ alive
    → same k t.local_node_id ≡ true
    → ⊥
local_not_suspect k t m v f h e =
    let here : IsAlive (find k t.members) =
      subst (λ (j : Str). IsAlive (find j t.members)) (sym (same-eq _ _ e)) v.local in
    h (rw f at here)

-- dropping the timer of a member that is not suspected changes nothing that counts
drop_suspicion-Sets :
    (k : Str) (t : MembershipTable)
    → IsValid t
    → flag_suspect (find k t.members) ≡ false
    → Sets k (find k t.members) t (record t { suspected_at = pop k t.suspected_at })
drop_suspicion-Sets k t v h = record {
  local_node_id = refl;
  suspicion_timeout = refl;
  dead_retention = refl;
  members = λ j. ground (arith, str_ord.cmp_eq k j);
  suspects = λ j. ground (arith, find-pop k j t.suspected_at v.distinct.suspects);
  deads = λ j. ground (arith, str_ord.cmp_eq k j, v.deads j);
  distinct_members = v.distinct.members;
  distinct_suspects = pop-Distinct k t.suspected_at v.distinct.suspects;
  distinct_deads = v.distinct.deads;
}

drop_death-Sets :
    (k : Str) (t : MembershipTable)
    → IsValid t
    → flag_dead (find k t.members) ≡ false
    → Sets k (find k t.members) t (record t { dead_at = pop k t.dead_at })
drop_death-Sets k t v h = record {
  local_node_id = refl;
  suspicion_timeout = refl;
  dead_retention = refl;
  members = λ j. ground (arith, str_ord.cmp_eq k j);
  suspects = λ j. ground (arith, str_ord.cmp_eq k j, v.suspects j);
  deads = λ j. ground (arith, find-pop k j t.dead_at v.distinct.deads);
  distinct_members = v.distinct.members;
  distinct_suspects = v.distinct.suspects;
  distinct_deads = pop-Distinct k t.dead_at v.distinct.deads;
}

unchanged-IsValid :
    (k : Str) (t t' : MembershipTable) → IsValid t → Sets k (find k t.members) t t' → IsValid t'
unchanged-IsValid k t t' v s =
    Sets-IsValid k (find k t.members) t t' v s (v.ids k)
      (λ e. subst (λ (j : Str). IsAlive (find j t.members)) (sym (same-eq _ _ e)) v.local)

expire_suspect-IsValid :
    (now since : ℕ) (k : Str) (t : MembershipTable)
    → IsValid t
    → (o : Option ClusterMember) → find k t.members ≡ o
    → IsValid (expire_suspect now k since o t).0
unfolding expire_suspect
expire_suspect-IsValid now since k t v none f =
    unchanged-IsValid k t _ v (drop_suspicion-Sets k t v (rw f))
expire_suspect-IsValid now since k t v (some m) f = elim (Bool-cases (is_suspect m.status)) [
  | inr other ↦ rw other (unchanged-IsValid k t _ v (drop_suspicion-Sets k t v (rw f other)))
  | inl suspected ↦ rw suspected (elim (Bool-cases (leb t.suspicion_timeout (now - since))) [
    | inr early ↦ rw early v
    | inl late ↦ rw late (
        Sets-IsValid k _ t _ v (killed-Sets now k m t v.distinct) (rw f at (v.ids k))
          (λ e. absurd (local_not_suspect k t m v f (λ a. ground arith) e)))
  ])
]

suspect_loop-IsValid :
    (now : ℕ) (items : List (Str × ℕ)) (changed : Bool) (t : MembershipTable)
    → IsValid t
    → IsValid (suspect_loop now items changed t).0
unfolding suspect_loop
suspect_loop-IsValid now [] changed t v = v
suspect_loop-IsValid now ((k, since) ∷ items) changed t v =
    suspect_loop-IsValid now items _ _
      (expire_suspect-IsValid now since k t v (find k t.members) refl)

purge_dead-IsValid :
    (now since : ℕ) (k : Str) (t : MembershipTable)
    → IsValid t
    → same k t.local_node_id ≡ false
    → (o : Option ClusterMember) → find k t.members ≡ o
    → IsValid (purge_dead now k since o t).0
unfolding purge_dead
purge_dead-IsValid now since k t v e none f =
    unchanged-IsValid k t _ v (drop_death-Sets k t v (rw f))
purge_dead-IsValid now since k t v e (some m) f = elim (Bool-cases (is_dead m.status)) [
  | inr other ↦ rw other (unchanged-IsValid k t _ v (drop_death-Sets k t v (rw f other)))
  | inl died ↦ rw died (elim (Bool-cases (leb t.dead_retention (now - since))) [
    | inr early ↦ rw early v
    | inl late ↦ rw late (
        Sets-IsValid k none t _ v (purged-Sets k t v.distinct (ground (arith, v.suspects k, f))) tt
          (λ x. cc))
  ])
]

dead_loop-IsValid :
    (now : ℕ) (items : List (Str × ℕ)) (changed : Bool) (t : MembershipTable)
    → IsValid t
    → IsValid (dead_loop now items changed t).0
unfolding dead_loop
dead_loop-IsValid now [] changed t v = v
dead_loop-IsValid now ((k, since) ∷ items) changed t v =
    dead_loop-IsValid now items _ _ (entry (same k t.local_node_id) refl)
  where
    entry :
        (b : Bool)
        → same k t.local_node_id ≡ b
        → IsValid (if b then (t, false) else purge_dead now k since (find k t.members) t).0
    entry true e = v
    entry false e = purge_dead-IsValid now since k t v e (find k t.members) refl

bump_changed-IsValid : (s : MembershipTable × Bool) → IsValid s.0 → IsValid (bump_changed s).0
unfolding bump_changed
bump_changed-IsValid (t, true) v = version-IsValid t _ v
bump_changed-IsValid (t, false) v = v

-- At any reading of the clock, the timeouts and the purge keep a valid table valid: the local
-- node stays listed as alive, each member under its name, and the timers are those of the
-- suspects and of the dead.
pub advance-IsValid :
    (now : ℕ) (t : MembershipTable) → IsValid t → IsValid (advance_timeouts_and_purge now t).0
unfolding advance_timeouts_and_purge
advance-IsValid now t v =
    let s = suspect_loop now t.suspected_at false t in
    bump_changed-IsValid _ (
      dead_loop-IsValid now s.0.dead_at s.1 s.0 (suspect_loop-IsValid now t.suspected_at false t v))
