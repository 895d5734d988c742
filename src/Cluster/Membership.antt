-- ===== src/Cluster/Membership.antt =====
-- cluster/membership.py: the table of one node. The lock makes each method one step; each reading of
-- the clock is an argument.
pub mod Keyed
pub mod Timers
pub mod Timeouts
pub mod Ranks
pub mod Refutation
use advanced_distributed_sys.Base.{
  ℕ, zero, suc, ◌+◌, ◌-◌, Bool, true, false, not, ◌||◌, ◌&&◌, List, [], ◌∷◌, Option, none, some,
  Result, ok, raise, value_error, assertion_error, leb, ltb, ◌==◌, if◌then◌else◌, filter,
}
use advanced_distributed_sys.Order.{Str, str_ord, list_ord, nat_ord, same}
use advanced_distributed_sys.Sorted.{find, put, pop, sort_items}
use advanced_distributed_sys.Cluster.Member.{
  MemberStatus, alive, suspect, dead, status_value, ClusterMember,
}

pub record MembershipTable : Type 0 where
  pub local_node_id : Str
  pub suspicion_timeout : ℕ
  pub dead_retention : ℕ
  pub members : List (Str × ClusterMember)
  pub suspected_at : List (Str × ℕ)
  pub dead_at : List (Str × ℕ)
  pub version : ℕ

-- the constructor, with its guards
unfoldable pub new_table : ClusterMember → ℕ → ℕ → Result MembershipTable
new_table local suspicion retention =
    if leb suspicion 0 || leb retention suspicion
    then raise value_error
    else ok (record {
      local_node_id = local.node_id;
      suspicion_timeout = suspicion;
      dead_retention = retention;
      members = (local.node_id, local) ∷ [];
      suspected_at = [];
      dead_at = [];
      version = 1;
    })

-- the dict's values in the order of the items
abbrev pub values_of : List (Str × ClusterMember) → List ClusterMember
values_of [] = []
values_of ((k, m) ∷ ms) = m ∷ values_of ms

unfoldable pub snapshot : MembershipTable → List ClusterMember
snapshot t = values_of (sort_items t.members)

abbrev pub is_alive : MemberStatus → Bool
is_alive alive = true
is_alive suspect = false
is_alive dead = false

abbrev pub is_dead : MemberStatus → Bool
is_dead alive = false
is_dead suspect = false
is_dead dead = true

abbrev pub is_suspect : MemberStatus → Bool
is_suspect alive = false
is_suspect suspect = true
is_suspect dead = false

unfoldable pub alive_members : Bool → MembershipTable → List ClusterMember
alive_members include_self t = values_of (
    filter (λ e. is_alive e.1.status && (include_self || not (same e.0 t.local_node_id)))
      (sort_items t.members))

unfoldable pub probe_candidates : MembershipTable → List ClusterMember
probe_candidates t = values_of (
    filter (λ e. not (same e.0 t.local_node_id) && (is_alive e.1.status || is_suspect e.1.status))
      (sort_items t.members))

-- `d.setdefault(k, v)`
unfoldable pub set_default : Str → ℕ → List (Str × ℕ) → List (Str × ℕ)
set_default k v d = elim (find k d) [ none ↦ put k v d | some _ ↦ d ]

-- `_record_timer_state`, by the status of the member
unfoldable pub set_timers : ℕ → Str → MemberStatus → MembershipTable → MembershipTable
unfolding set_default
set_timers now k alive t = record t {
  suspected_at = pop k t.suspected_at;
  dead_at = pop k t.dead_at;
}
set_timers now k suspect t = record t {
  suspected_at = set_default k now t.suspected_at;
  dead_at = pop k t.dead_at;
}
set_timers now k dead t = record t {
  suspected_at = pop k t.suspected_at;
  dead_at = set_default k now t.dead_at;
}

unfoldable pub record_timer_state : ℕ → ClusterMember → MembershipTable → MembershipTable
unfolding set_timers
record_timer_state now m t = set_timers now m.node_id m.status t

-- `self._members[k] = m; self._record_timer_state(m)`
unfoldable pub store : ℕ → Str → ClusterMember → MembershipTable → MembershipTable
unfolding record_timer_state
store now k m t = record_timer_state now m (record t { members = put k m t.members })

-- a record about the local node: a rumour that it failed is refuted
unfoldable pub merge_local :
    ℕ → ClusterMember → Option ClusterMember → MembershipTable → MembershipTable × Result Bool
unfolding store
merge_local now incoming none t = (t, raise assertion_error)
merge_local now incoming (some current) t =
    if (is_suspect incoming.status || is_dead incoming.status)
      && leb current.incarnation incoming.incarnation
    then (
      store now t.local_node_id
          (record current { status = alive; incarnation = incoming.incarnation + 1 }) t,
      ok true,
    )
    else (t, ok false)

-- a record about another node
unfoldable pub merge_remote :
    ℕ → ClusterMember → Option ClusterMember → MembershipTable → MembershipTable × Result Bool
unfolding store
merge_remote now incoming none t = (store now incoming.node_id incoming t, ok true)
merge_remote now incoming (some current) t =
    if ltb incoming.incarnation current.incarnation
    then (t, ok false)
    else if ltb current.incarnation incoming.incarnation
    then (store now incoming.node_id incoming t, ok true)
    else if ltb (status_value current.status) (status_value incoming.status)
    then (store now incoming.node_id (record current { status = incoming.status }) t, ok true)
    else (t, ok false)

-- `_merge_one_locked`
unfoldable pub merge_one : ℕ → ClusterMember → MembershipTable → MembershipTable × Result Bool
unfolding merge_local merge_remote
merge_one now incoming t =
    if same incoming.node_id t.local_node_id
    then merge_local now incoming (find incoming.node_id t.members) t
    else merge_remote now incoming (find incoming.node_id t.members) t

-- the loop of `merge`, over records that come with the clock's reading at each
unfoldable pub merge_loop :
    List (ℕ × ClusterMember) → Bool → MembershipTable → MembershipTable × Result Bool
unfolding merge_one
merge_loop [] changed t = (t, ok changed)
merge_loop ((now, record_) ∷ records) changed t =
    let (t', r) = merge_one now record_ t in
    elim r [ ok c ↦ merge_loop records (c || changed) t' | raise e ↦ (t', raise e) ]

-- `self._version += 1`, if anything changed
unfoldable pub bump : MembershipTable × Result Bool → MembershipTable × Result Bool
bump (t, ok true) = (record t { version = t.version + 1 }, ok true)
bump (t, ok false) = (t, ok false)
bump (t, raise e) = (t, raise e)

unfoldable pub merge : List (ℕ × ClusterMember) → MembershipTable → MembershipTable × Result Bool
unfolding merge_loop bump
merge records t = bump (merge_loop records false t)

-- `mark_suspect`, past the lookup
unfoldable pub suspect_member :
    ℕ → Str → Option ClusterMember → MembershipTable → MembershipTable × Bool
unfolding store
suspect_member now k none t = (t, false)
suspect_member now k (some current) t =
    if same k t.local_node_id || not (is_alive current.status) then (t, false) else (
      let t' = store now k (record current { status = suspect }) t in
          record t' { version = t'.version + 1 },
      true,
    )

unfoldable pub mark_suspect : ℕ → Str → MembershipTable → MembershipTable × Bool
unfolding suspect_member
mark_suspect now k t = suspect_member now k (find k t.members) t

-- one entry of the loop over the suspicions
unfoldable pub expire_suspect :
    ℕ → Str → ℕ → Option ClusterMember → MembershipTable → MembershipTable × Bool
expire_suspect now k since none t = (record t { suspected_at = pop k t.suspected_at }, false)
expire_suspect now k since (some m) t =
    if not (is_suspect m.status)
    then (record t { suspected_at = pop k t.suspected_at }, false)
    else if leb t.suspicion_timeout (now - since)
    then (
      record t {
        members = put k (record m { status = dead }) t.members;
        suspected_at = pop k t.suspected_at;
        dead_at = put k now t.dead_at;
      },
      true,
    )
    else (t, false)

unfoldable pub suspect_loop : ℕ → List (Str × ℕ) → Bool → MembershipTable → MembershipTable × Bool
unfolding expire_suspect
suspect_loop now [] changed t = (t, changed)
suspect_loop now ((k, since) ∷ items) changed t =
    let (t', c) = expire_suspect now k since (find k t.members) t in
    suspect_loop now items (c || changed) t'

-- one entry of the loop over the dead
unfoldable pub purge_dead :
    ℕ → Str → ℕ → Option ClusterMember → MembershipTable → MembershipTable × Bool
purge_dead now k since none t = (record t { dead_at = pop k t.dead_at }, false)
purge_dead now k since (some m) t =
    if not (is_dead m.status)
    then (record t { dead_at = pop k t.dead_at }, false)
    else if leb t.dead_retention (now - since)
    then (record t { members = pop k t.members; dead_at = pop k t.dead_at }, true)
    else (t, false)

unfoldable pub dead_loop : ℕ → List (Str × ℕ) → Bool → MembershipTable → MembershipTable × Bool
unfolding purge_dead
dead_loop now [] changed t = (t, changed)
dead_loop now ((k, since) ∷ items) changed t =
    let (t', c) =
      if same k t.local_node_id then (t, false) else purge_dead now k since (find k t.members) t in
    dead_loop now items (c || changed) t'

-- `if changed: self._version += 1`
unfoldable pub bump_changed : MembershipTable × Bool → MembershipTable × Bool
bump_changed (t, true) = (record t { version = t.version + 1 }, true)
bump_changed (t, false) = (t, false)

-- `advance_timeouts_and_purge`: the second loop runs over the entries that the first one left
unfoldable pub advance_timeouts_and_purge : ℕ → MembershipTable → MembershipTable × Bool
unfolding suspect_loop dead_loop bump_changed
advance_timeouts_and_purge now t =
    let (t1, c1) = suspect_loop now t.suspected_at false t in
    let (t2, c2) = dead_loop now t1.dead_at c1 t1 in bump_changed (t2, c2)
