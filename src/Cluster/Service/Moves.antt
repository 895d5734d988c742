-- ===== src/Cluster/Service/Moves.antt =====
-- What the operations of the table say of a change: it has a new version, or its members are as before.
use advanced_distributed_sys.Base.{
  ℕ, ◌+◌, ◌-◌, ◌≡◌, refl, ◌∙◌, Bool, true, false, not, ◌||◌, List, [], ◌∷◌, Option, none, some,
  Result, ok, raise, leb, ltb, ◌&&◌, ap, if◌then◌else◌, Bool-cases, inl, inr,
}
use advanced_distributed_sys.Order.{Str, list_ord, nat_ord, same}
use advanced_distributed_sys.Sorted.{find, put}
use advanced_distributed_sys.Cluster.Member.{
  MemberStatus, alive, suspect, dead, status_value, ClusterMember,
}
use advanced_distributed_sys.Cluster.Membership.{
  MembershipTable, is_alive, is_suspect, is_dead, set_timers, store, record_timer_state,
  merge_local, merge_remote, merge_one, merge_loop, bump, merge, suspect_member, mark_suspect,
  expire_suspect, suspect_loop, purge_dead, dead_loop, bump_changed, advance_timeouts_and_purge,
}

-- Before the version is counted up: it stands, and so do the members where nothing is said to change.
pub record Stays (t t' : MembershipTable) (changed : Bool) : Type 0 where
  pub version : t'.version ≡ t.version
  pub members : changed ≡ false → t'.members ≡ t.members

abbrev pub ResultStays : MembershipTable → MembershipTable × Result Bool → Type 0
ResultStays t (t', raise e) = Unit {0}
ResultStays t (t', ok changed) = Stays t t' changed

-- After an operation: the version is the next one, or all that counts is as before.
abbrev pub Moved : MembershipTable → MembershipTable → Bool → Type 0
Moved t t' true = t'.version ≡ t.version + 1
Moved t t' false = (t'.members ≡ t.members) × (t'.version ≡ t.version)

abbrev pub ResultMoved : MembershipTable → MembershipTable × Result Bool → Type 0
ResultMoved t (t', raise e) = Unit {0}
ResultMoved t (t', ok changed) = Moved t t' changed

same_table : (t : MembershipTable) (changed : Bool) → Stays t t changed
same_table t changed = record { version = refl; members = λ e. refl }

is_changed : (t t' : MembershipTable) → t'.version ≡ t.version → Stays t t' true
is_changed t t' v = record { version = v; members = λ e. absurd cc }

-- what a loop changes, behind what it changed before
Stays-both :
    (t t' t'' : MembershipTable) (c c' : Bool)
    → Stays t t' c
    → Stays t' t'' c'
    → Stays t t'' (c' || c)
Stays-both t t' t'' c true p q = record {
  version = q.version ∙ p.version;
  members = λ e. absurd cc;
}
Stays-both t t' t'' c false p q = record {
  version = q.version ∙ p.version;
  members = λ e. q.members refl ∙ p.members e;
}

pub store-version :
    (now : ℕ) (k : Str) (m : ClusterMember) (t : MembershipTable)
    → (store now k m t).version ≡ t.version
unfolding store record_timer_state
store-version now k m t = by_status m.status
  where
    by_status :
        (status : MemberStatus)
        → (set_timers now m.node_id status (record t { members = put k m t.members })).version
          ≡ t.version
    by_status alive = unfold set_timers in refl
    by_status suspect = unfold set_timers in refl
    by_status dead = unfold set_timers in refl

merge_local-Stays :
    (now : ℕ) (m : ClusterMember) (o : Option ClusterMember) (t : MembershipTable)
    → ResultStays t (merge_local now m o t)
unfolding merge_local
merge_local-Stays now m none t = tt
merge_local-Stays now m (some current) t =
    elim (Bool-cases
      ((is_suspect m.status || is_dead m.status) && leb current.incarnation m.incarnation)) [
        | inl e ↦ rw e (
            is_changed t _ (
              store-version now t.local_node_id
                (record current { status = alive; incarnation = m.incarnation + 1 }) t))
        | inr e ↦ rw e (same_table t false)
      ]

merge_remote-Stays :
    (now : ℕ) (m : ClusterMember) (o : Option ClusterMember) (t : MembershipTable)
    → ResultStays t (merge_remote now m o t)
unfolding merge_remote
merge_remote-Stays now m none t = is_changed t _ (store-version now m.node_id m t)
merge_remote-Stays now m (some current) t =
    elim (Bool-cases (ltb m.incarnation current.incarnation)) [
      | inl e ↦ rw e (same_table t false)
      | inr e ↦ elim (Bool-cases (ltb current.incarnation m.incarnation)) [
        | inl e' ↦ rw (e, e') (is_changed t _ (store-version now m.node_id m t))
        | inr e' ↦ elim (Bool-cases (ltb (status_value current.status) (status_value m.status))) [
          | inl e'' ↦
              rw (e, e', e'')
                (is_changed t _
                  (store-version now m.node_id (record current { status = m.status }) t))
          | inr e'' ↦ rw (e, e', e'') (same_table t false)
        ]
      ]
    ]

merge_one-Stays :
    (now : ℕ) (m : ClusterMember) (t : MembershipTable) → ResultStays t (merge_one now m t)
unfolding merge_one
merge_one-Stays now m t = elim (Bool-cases (same m.node_id t.local_node_id)) [
  | inl e ↦ rw e (merge_local-Stays now m (find m.node_id t.members) t)
  | inr e ↦ rw e (merge_remote-Stays now m (find m.node_id t.members) t)
]

merge_loop-Stays :
    (records : List (ℕ × ClusterMember)) (changed : Bool) (t0 t : MembershipTable)
    → Stays t0 t changed
    → ResultStays t0 (merge_loop records changed t)
unfolding merge_loop
merge_loop-Stays [] changed t0 t s = s
merge_loop-Stays ((now, m) ∷ records) changed t0 t s =
    by_result (merge_one now m t) (merge_one-Stays now m t)
      (λ t' c. merge_loop-Stays records (c || changed) t0 t')
  where
    by_result :
        (r : MembershipTable × Result Bool)
        → ResultStays t r
        → ((t' : MembershipTable) (c : Bool)
            → Stays t0 t' (c || changed)
            → ResultStays t0 (merge_loop records (c || changed) t'))
        → ResultStays t0
            (elim r.1 [ ok c ↦ merge_loop records (c || changed) r.0 | raise e ↦ (r.0, raise e) ])
    by_result (t', ok c) q later = later t' c (Stays-both t0 t t' changed c s q)
    by_result (t', raise e) q later = tt

bump-Moved :
    (t : MembershipTable) (r : MembershipTable × Result Bool)
    → ResultStays t r
    → ResultMoved t (bump r)
unfolding bump
bump-Moved t (t', ok true) s = ap (λ n. n + 1) s.version
bump-Moved t (t', ok false) s = (s.members refl, s.version)
bump-Moved t (t', raise e) s = tt

pub merge-Moved :
    (records : List (ℕ × ClusterMember)) (t : MembershipTable) → ResultMoved t (merge records t)
unfolding merge
merge-Moved records t =
    bump-Moved t (merge_loop records false t)
      (merge_loop-Stays records false t t (same_table t false))

suspect_member-Moved :
    (now : ℕ) (k : Str) (o : Option ClusterMember) (t : MembershipTable)
    → Moved t (suspect_member now k o t).0 (suspect_member now k o t).1
unfolding suspect_member
suspect_member-Moved now k none t = (refl, refl)
suspect_member-Moved now k (some m) t =
    elim (Bool-cases (same k t.local_node_id || not (is_alive m.status))) [
      | inl e ↦ rw e (refl, refl)
      | inr e ↦ rw e (ap (λ n. n + 1) (store-version now k (record m { status = suspect }) t))
    ]

pub mark_suspect-Moved :
    (now : ℕ) (k : Str) (t : MembershipTable)
    → Moved t (mark_suspect now k t).0 (mark_suspect now k t).1
unfolding mark_suspect
mark_suspect-Moved now k t = suspect_member-Moved now k (find k t.members) t

expire_suspect-Stays :
    (now : ℕ) (k : Str) (since : ℕ) (o : Option ClusterMember) (t : MembershipTable)
    → Stays t (expire_suspect now k since o t).0 (expire_suspect now k since o t).1
unfolding expire_suspect
expire_suspect-Stays now k since none t = record { version = refl; members = λ e. refl }
expire_suspect-Stays now k since (some m) t = elim (Bool-cases (not (is_suspect m.status))) [
  | inl e ↦ rw e (record { version = refl; members = λ e'. refl })
  | inr e ↦ elim (Bool-cases (leb t.suspicion_timeout (now - since))) [
    | inl e' ↦ rw (e, e') (is_changed t _ refl)
    | inr e' ↦ rw (e, e') (same_table t false)
  ]
]

purge_dead-Stays :
    (now : ℕ) (k : Str) (since : ℕ) (o : Option ClusterMember) (t : MembershipTable)
    → Stays t (purge_dead now k since o t).0 (purge_dead now k since o t).1
unfolding purge_dead
purge_dead-Stays now k since none t = record { version = refl; members = λ e. refl }
purge_dead-Stays now k since (some m) t = elim (Bool-cases (not (is_dead m.status))) [
  | inl e ↦ rw e (record { version = refl; members = λ e'. refl })
  | inr e ↦ elim (Bool-cases (leb t.dead_retention (now - since))) [
    | inl e' ↦ rw (e, e') (is_changed t _ refl)
    | inr e' ↦ rw (e, e') (same_table t false)
  ]
]

suspect_loop-Stays :
    (now : ℕ) (items : List (Str × ℕ)) (changed : Bool) (t0 t : MembershipTable)
    → Stays t0 t changed
    → Stays t0 (suspect_loop now items changed t).0 (suspect_loop now items changed t).1
unfolding suspect_loop
suspect_loop-Stays now [] changed t0 t s = s
suspect_loop-Stays now ((k, since) ∷ items) changed t0 t s =
    let (t', c) = expire_suspect now k since (find k t.members) t in
    suspect_loop-Stays now items (c || changed) t0 t'
      (Stays-both t0 t t' changed c s (expire_suspect-Stays now k since (find k t.members) t))

-- what the loop does to an entry of a node that may be the local one
abbrev dead_entry : ℕ → Str → ℕ → MembershipTable → MembershipTable × Bool
dead_entry now k since t =
    if same k t.local_node_id then (t, false) else purge_dead now k since (find k t.members) t

dead_entry-Stays :
    (now : ℕ) (k : Str) (since : ℕ) (t : MembershipTable)
    → Stays t (dead_entry now k since t).0 (dead_entry now k since t).1
dead_entry-Stays now k since t = elim (Bool-cases (same k t.local_node_id)) [
  | inl e ↦ rw e (same_table t false)
  | inr e ↦ rw e (purge_dead-Stays now k since (find k t.members) t)
]

dead_loop-Stays :
    (now : ℕ) (items : List (Str × ℕ)) (changed : Bool) (t0 t : MembershipTable)
    → Stays t0 t changed
    → Stays t0 (dead_loop now items changed t).0 (dead_loop now items changed t).1
unfolding dead_loop
dead_loop-Stays now [] changed t0 t s = s
dead_loop-Stays now ((k, since) ∷ items) changed t0 t s =
    let (t', c) = dead_entry now k since t in
    dead_loop-Stays now items (c || changed) t0 t'
      (Stays-both t0 t t' changed c s (dead_entry-Stays now k since t))

bump_changed-Moved :
    (t : MembershipTable) (r : MembershipTable × Bool)
    → Stays t r.0 r.1
    → Moved t (bump_changed r).0 (bump_changed r).1
unfolding bump_changed
bump_changed-Moved t (t', true) s = ap (λ n. n + 1) s.version
bump_changed-Moved t (t', false) s = (s.members refl, s.version)

pub advance-Moved :
    (now : ℕ) (t : MembershipTable)
    → Moved t (advance_timeouts_and_purge now t).0 (advance_timeouts_and_purge now t).1
unfolding advance_timeouts_and_purge
advance-Moved now t =
    let (t1, c1) = suspect_loop now t.suspected_at false t in
    bump_changed-Moved t (dead_loop now t1.dead_at c1 t1) (
      dead_loop-Stays now t1.dead_at c1 t t1
        (suspect_loop-Stays now t.suspected_at false t t (same_table t false)))
