-- ===== src/Cluster/Membership/Keyed.antt =====
-- Each change of the table concerns one key: what it sets there, and that nothing else moves.
use advanced_distributed_sys.Base.{
  ℕ, ◌≡◌, refl, sym, Bool, true, false, List, Option, none, some, arith, if◌then◌else◌,
}
use mathlib.Core.Path.{subst}
use advanced_distributed_sys.Order.{Str, str_ord, list_ord, nat_ord, same}
use advanced_distributed_sys.Sorted.{find, put, pop, Distinct}
use advanced_distributed_sys.Sorted.Laws.{find-put, find-pop, put-Distinct, pop-Distinct}
use advanced_distributed_sys.Sorted.FrozenSet.{is_some}
use advanced_distributed_sys.Cluster.Member.{MemberStatus, alive, suspect, dead, ClusterMember}
use advanced_distributed_sys.Cluster.Membership.{
  MembershipTable, is_suspect, is_dead, set_default, set_timers, record_timer_state, store,
}

abbrev pub flag_suspect : Option ClusterMember → Bool
flag_suspect none = false
flag_suspect (some m) = is_suspect m.status

abbrev pub flag_dead : Option ClusterMember → Bool
flag_dead none = false
flag_dead (some m) = is_dead m.status

-- The table after key `k` is set to `o`: only that key's member and timers differ, and its timers are
-- those of its status.
pub record Sets (k : Str) (o : Option ClusterMember) (t t' : MembershipTable) : Type 0 where
  pub local_node_id : t'.local_node_id ≡ t.local_node_id
  pub suspicion_timeout : t'.suspicion_timeout ≡ t.suspicion_timeout
  pub dead_retention : t'.dead_retention ≡ t.dead_retention
  pub members : (j : Str) → find j t'.members ≡ (if same k j then o else find j t.members)
  pub suspects :
      (j : Str)
      → is_some (find j t'.suspected_at)
        ≡ (if same k j then flag_suspect o else is_some (find j t.suspected_at))
  pub deads :
      (j : Str)
      → is_some (find j t'.dead_at) ≡ (if same k j then flag_dead o else is_some (find j t.dead_at))
  pub distinct_members : Distinct t'.members
  pub distinct_suspects : Distinct t'.suspected_at
  pub distinct_deads : Distinct t'.dead_at

-- no dict of the table lists a key twice
pub record AllDistinct (t : MembershipTable) : Type 0 where
  pub members : Distinct t.members
  pub suspects : Distinct t.suspected_at
  pub deads : Distinct t.dead_at

has-put :
    (k j : Str) (v : ℕ) (d : List (Str × ℕ))
    → is_some (find j (put k v d)) ≡ (if same k j then true else is_some (find j d))
has-put k j v d = ground (arith, find-put k j v d)

has-pop :
    (k j : Str) (d : List (Str × ℕ))
    → Distinct d
    → is_some (find j (pop k d)) ≡ (if same k j then false else is_some (find j d))
has-pop k j d h = ground (arith, find-pop k j d h)

has-set_default :
    (k j : Str) (v : ℕ) (d : List (Str × ℕ))
    → is_some (find j (set_default k v d)) ≡ (if same k j then true else is_some (find j d))
unfolding set_default
has-set_default k j v d = ground (arith, find-put k j v d, str_ord.cmp_eq k j)

set_default-Distinct :
    (k : Str) (v : ℕ) (d : List (Str × ℕ)) → Distinct d → Distinct (set_default k v d)
unfolding set_default
set_default-Distinct k v d h = ground (arith, put-Distinct k v d h)

set_timers-Sets :
    (now : ℕ) (k : Str) (m : ClusterMember) (s : MemberStatus) (t : MembershipTable)
    → m.status ≡ s
    → AllDistinct t
    → Sets k (some m) t (set_timers now k s (record t { members = put k m t.members }))
unfolding set_timers
set_timers-Sets now k m alive t e d = record {
  local_node_id = refl;
  suspicion_timeout = refl;
  dead_retention = refl;
  members = λ j. find-put k j m t.members;
  suspects = λ j. ground (arith, has-pop k j t.suspected_at d.suspects);
  deads = λ j. ground (arith, has-pop k j t.dead_at d.deads);
  distinct_members = put-Distinct k m t.members d.members;
  distinct_suspects = pop-Distinct k t.suspected_at d.suspects;
  distinct_deads = pop-Distinct k t.dead_at d.deads;
}
set_timers-Sets now k m suspect t e d = record {
  local_node_id = refl;
  suspicion_timeout = refl;
  dead_retention = refl;
  members = λ j. find-put k j m t.members;
  suspects = λ j. ground (arith, has-set_default k j now t.suspected_at);
  deads = λ j. ground (arith, has-pop k j t.dead_at d.deads);
  distinct_members = put-Distinct k m t.members d.members;
  distinct_suspects = set_default-Distinct k now t.suspected_at d.suspects;
  distinct_deads = pop-Distinct k t.dead_at d.deads;
}
set_timers-Sets now k m dead t e d = record {
  local_node_id = refl;
  suspicion_timeout = refl;
  dead_retention = refl;
  members = λ j. find-put k j m t.members;
  suspects = λ j. ground (arith, has-pop k j t.suspected_at d.suspects);
  deads = λ j. ground (arith, has-set_default k j now t.dead_at);
  distinct_members = put-Distinct k m t.members d.members;
  distinct_suspects = pop-Distinct k t.suspected_at d.suspects;
  distinct_deads = set_default-Distinct k now t.dead_at d.deads;
}

pub store-Sets :
    (now : ℕ) (k : Str) (m : ClusterMember) (t : MembershipTable)
    → m.node_id ≡ k
    → AllDistinct t
    → Sets k (some m) t (store now k m t)
unfolding store record_timer_state
store-Sets now k m t e d =
    subst
      (λ (i : Str).
        Sets k (some m) t (set_timers now i m.status (record t { members = put k m t.members })))
      (sym e) (set_timers-Sets now k m m.status t refl d)

set_timers-local :
    (now : ℕ) (k : Str) (s : MemberStatus) (t : MembershipTable)
    → (set_timers now k s t).local_node_id ≡ t.local_node_id
unfolding set_timers
set_timers-local now k alive t = refl
set_timers-local now k suspect t = refl
set_timers-local now k dead t = refl

pub store-local :
    (now : ℕ) (k : Str) (m : ClusterMember) (t : MembershipTable)
    → (store now k m t).local_node_id ≡ t.local_node_id
unfolding store record_timer_state
store-local now k m t =
    set_timers-local now m.node_id m.status (record t { members = put k m t.members })

-- A suspicion that has run out makes the member dead.
pub killed-Sets :
    (now : ℕ) (k : Str) (m : ClusterMember) (t : MembershipTable)
    → AllDistinct t
    → Sets k (some (record m { status = dead })) t (record t {
      members = put k (record m { status = dead }) t.members;
      suspected_at = pop k t.suspected_at;
      dead_at = put k now t.dead_at;
    })
killed-Sets now k m t d = record {
  local_node_id = refl;
  suspicion_timeout = refl;
  dead_retention = refl;
  members = λ j. find-put k j (record m { status = dead }) t.members;
  suspects = λ j. has-pop k j t.suspected_at d.suspects;
  deads = λ j. has-put k j now t.dead_at;
  distinct_members = put-Distinct k _ t.members d.members;
  distinct_suspects = pop-Distinct k t.suspected_at d.suspects;
  distinct_deads = put-Distinct k now t.dead_at d.deads;
}

-- A dead member that is purged is forgotten, with its timer.
pub purged-Sets :
    (k : Str) (t : MembershipTable)
    → AllDistinct t
    → find k t.suspected_at ≡ none
    → Sets k none t (record t { members = pop k t.members; dead_at = pop k t.dead_at })
purged-Sets k t d h = record {
  local_node_id = refl;
  suspicion_timeout = refl;
  dead_retention = refl;
  members = λ j. find-pop k j t.members d.members;
  suspects = λ j. ground (arith, h, str_ord.cmp_eq k j);
  deads = λ j. has-pop k j t.dead_at d.deads;
  distinct_members = pop-Distinct k t.members d.members;
  distinct_suspects = d.suspects;
  distinct_deads = pop-Distinct k t.dead_at d.deads;
}
