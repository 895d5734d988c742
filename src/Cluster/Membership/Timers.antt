-- ===== src/Cluster/Membership/Timers.antt =====
-- The invariant of the table: the local node is listed and alive, and a timer runs for exactly the
-- members that are suspected, and one for exactly those that are dead.
use advanced_distributed_sys.Base.{
  ℕ, ◌+◌, ◌<◌, ◌≡◌, refl, sym, ◌∙◌, Bool, true, false, ◌||◌, ◌&&◌, List, [], ◌∷◌, Option, none,
  some, Result, ok, raise, arith, leb, ltb, Bool-cases, inl, inr,
}
use mathlib.Core.Path.{subst}
use advanced_distributed_sys.Order.{Str, list_ord, nat_ord, same}
use advanced_distributed_sys.Sorted.{find}
use advanced_distributed_sys.Sorted.Laws.{same-eq, same_self}
use advanced_distributed_sys.Sorted.FrozenSet.{is_some}
use advanced_distributed_sys.Cluster.Member.{alive, status_value, ClusterMember}
use advanced_distributed_sys.Cluster.Membership.{
  MembershipTable, is_suspect, is_dead, new_table, store, merge_local, merge_remote, merge_one,
  merge_loop, bump, merge,
}
use advanced_distributed_sys.Cluster.Membership.Keyed.{
  flag_suspect, flag_dead, Sets, AllDistinct, store-Sets,
}

-- a member is stored under its own name
abbrev pub HasId : Str → Option ClusterMember → Type 0
HasId k none = Unit {0}
HasId k (some m) = m.node_id ≡ k

abbrev pub IsAlive : Option ClusterMember → Type 0
IsAlive none = ⊥
IsAlive (some m) = m.status ≡ alive

pub record IsValid (t : MembershipTable) : Type 0 where
  pub distinct : AllDistinct t
  pub ids : (k : Str) → HasId k (find k t.members)
  pub local : IsAlive (find t.local_node_id t.members)
  pub suspects : (k : Str) → is_some (find k t.suspected_at) ≡ flag_suspect (find k t.members)
  pub deads : (k : Str) → is_some (find k t.dead_at) ≡ flag_dead (find k t.members)

-- An operation that sets one key keeps the invariant, if the member is filed under its name and the
-- local node is only ever set alive.
pub Sets-IsValid :
    (k : Str) (o : Option ClusterMember) (t t' : MembershipTable)
    → IsValid t
    → Sets k o t t'
    → HasId k o
    → (same k t.local_node_id ≡ true → IsAlive o)
    → IsValid t'
Sets-IsValid k o t t' v s h l = record {
  distinct = record {
    members = s.distinct_members;
    suspects = s.distinct_suspects;
    deads = s.distinct_deads;
  };
  ids = λ j. elim (Bool-cases (same k j)) [
    | inl e ↦ rw (s.members j, e) (subst (λ (i : Str). HasId i o) (same-eq k j e) h)
    | inr e ↦ rw (s.members j, e) (v.ids j)
  ];
  local = elim (Bool-cases (same k t.local_node_id)) [
    | inl e ↦ rw (s.local_node_id, s.members t.local_node_id, e) (l e)
    | inr e ↦ rw (s.local_node_id, s.members t.local_node_id, e) v.local
  ];
  suspects = λ j. ground (arith, s.suspects j, s.members j, v.suspects j);
  deads = λ j. ground (arith, s.deads j, s.members j, v.deads j);
}

pub version-IsValid : (t : MembershipTable) (n : ℕ) → IsValid t → IsValid (record t { version = n })
version-IsValid t n v = record {
  distinct = record {
    members = v.distinct.members;
    suspects = v.distinct.suspects;
    deads = v.distinct.deads;
  };
  ids = v.ids;
  local = v.local;
  suspects = v.suspects;
  deads = v.deads;
}

-- the table that the constructor makes
abbrev first_table : ClusterMember → ℕ → ℕ → MembershipTable
first_table m s r = record {
  local_node_id = m.node_id;
  suspicion_timeout = s;
  dead_retention = r;
  members = (m.node_id, m) ∷ [];
  suspected_at = [];
  dead_at = [];
  version = 1;
}

first_table-IsValid : (m : ClusterMember) (s r : ℕ) → m.status ≡ alive → IsValid (first_table m s r)
unfolding find
first_table-IsValid m s r a = record {
  distinct = record { members = (refl, tt); suspects = tt; deads = tt };
  ids = λ k. elim (Bool-cases (same m.node_id k)) [
    | inl e ↦ rw e (same-eq m.node_id k e)
    | inr e ↦ rw e tt
  ];
  local = rw (same_self m.node_id) a;
  suspects = λ k. ground arith;
  deads = λ k. ground arith;
}

pub new_table-IsValid :
    (m : ClusterMember) (s r : ℕ) {t : MembershipTable}
    → m.status ≡ alive
    → new_table m s r ≡ ok t
    → IsValid t × (s < r) × (0 < s)
unfolding new_table
new_table-IsValid m s r {t} a e =
    (subst IsValid (ground arith) (first_table-IsValid m s r a), ground arith, ground arith)

merge_local-IsValid :
    (now : ℕ) (incoming : ClusterMember) (t : MembershipTable)
    → IsValid t
    → incoming.node_id ≡ t.local_node_id
    → (o : Option ClusterMember) → find incoming.node_id t.members ≡ o
    → IsValid (merge_local now incoming o t).0
unfolding merge_local
merge_local-IsValid now incoming t v e none f = v
merge_local-IsValid now incoming t v e (some m) f =
    elim (Bool-cases (
      (is_suspect incoming.status || is_dead incoming.status)
      && leb m.incarnation incoming.incarnation)) [
        | inr quiet ↦ rw quiet v
        | inl refutes ↦ rw refutes (
            Sets-IsValid t.local_node_id _ t _ v
              (store-Sets now t.local_node_id
                (record m { status = alive; incarnation = incoming.incarnation + 1 }) t id
                v.distinct)
              id (λ x. refl))
      ]
  where
    id : m.node_id ≡ t.local_node_id
    id = (rw f at (v.ids incoming.node_id)) ∙ e

merge_remote-IsValid :
    (now : ℕ) (incoming : ClusterMember) (t : MembershipTable)
    → IsValid t
    → same incoming.node_id t.local_node_id ≡ false
    → (o : Option ClusterMember) → find incoming.node_id t.members ≡ o
    → IsValid (merge_remote now incoming o t).0
unfolding merge_remote
merge_remote-IsValid now incoming t v e none f = stored incoming refl
  where
    stored :
        (m : ClusterMember)
        → m.node_id ≡ incoming.node_id
        → IsValid (store now incoming.node_id m t)
    stored m h =
        Sets-IsValid incoming.node_id (some m) t _ v
          (store-Sets now incoming.node_id m t h v.distinct) h (λ x. cc)
merge_remote-IsValid now incoming t v e (some m) f =
    elim (Bool-cases (ltb incoming.incarnation m.incarnation)) [
      | inl older ↦ rw older v
      | inr a ↦ rw a (elim (Bool-cases (ltb m.incarnation incoming.incarnation)) [
        | inl newer ↦ rw newer (stored incoming refl)
        | inr b ↦
            rw b (elim (Bool-cases (ltb (status_value m.status) (status_value incoming.status))) [
              | inl worse ↦ rw worse (stored (record m { status = incoming.status }) id)
              | inr c ↦ rw c v
            ])
      ])
    ]
  where
    id : m.node_id ≡ incoming.node_id
    id = rw f at (v.ids incoming.node_id)

    stored :
        (n : ClusterMember)
        → n.node_id ≡ incoming.node_id
        → IsValid (store now incoming.node_id n t)
    stored n h =
        Sets-IsValid incoming.node_id (some n) t _ v
          (store-Sets now incoming.node_id n t h v.distinct) h (λ x. cc)

pub merge_one-IsValid :
    (now : ℕ) (incoming : ClusterMember) (t : MembershipTable)
    → IsValid t
    → IsValid (merge_one now incoming t).0
unfolding merge_one
merge_one-IsValid now incoming t v = elim (Bool-cases (same incoming.node_id t.local_node_id)) [
  | inl here ↦ rw here (
      merge_local-IsValid now incoming t v (same-eq _ _ here) (find incoming.node_id t.members)
        refl)
  | inr there ↦
      rw there (merge_remote-IsValid now incoming t v there (find incoming.node_id t.members) refl)
]

-- the call came back with an answer
abbrev pub Returns : Result Bool → Type 0
Returns (ok c) = Unit {0}
Returns (raise e) = ⊥

merge_local-Returns :
    (now : ℕ) (incoming : ClusterMember) (o : Option ClusterMember) (t : MembershipTable)
    → IsAlive o
    → Returns (merge_local now incoming o t).1
unfolding merge_local
merge_local-Returns now incoming none t h = h
merge_local-Returns now incoming (some m) t h =
    elim (Bool-cases (
      (is_suspect incoming.status || is_dead incoming.status)
      && leb m.incarnation incoming.incarnation)) [ inl e ↦ rw e tt | inr e ↦ rw e tt ]

merge_remote-Returns :
    (now : ℕ) (incoming : ClusterMember) (o : Option ClusterMember) (t : MembershipTable)
    → Returns (merge_remote now incoming o t).1
unfolding merge_remote
merge_remote-Returns now incoming none t = tt
merge_remote-Returns now incoming (some m) t =
    elim (Bool-cases (ltb incoming.incarnation m.incarnation)) [
      | inl a ↦ rw a tt
      | inr a ↦ rw a (elim (Bool-cases (ltb m.incarnation incoming.incarnation)) [
        | inl b ↦ rw b tt
        | inr b ↦
            rw b (elim (Bool-cases (ltb (status_value m.status) (status_value incoming.status))) [
              | inl c ↦ rw c tt
              | inr c ↦ rw c tt
            ])
      ])
    ]

pub merge_one-Returns :
    (now : ℕ) (incoming : ClusterMember) (t : MembershipTable)
    → IsValid t
    → Returns (merge_one now incoming t).1
unfolding merge_one
merge_one-Returns now incoming t v = elim (Bool-cases (same incoming.node_id t.local_node_id)) [
  | inl here ↦ rw here (
      merge_local-Returns now incoming (find incoming.node_id t.members) t
        (subst (λ (k : Str). IsAlive (find k t.members)) (sym (same-eq _ _ here)) v.local))
  | inr there ↦ rw there (merge_remote-Returns now incoming (find incoming.node_id t.members) t)
]

-- the table is valid and the call came back
abbrev pub Good : MembershipTable × Result Bool → Type 0
Good (t, r) = IsValid t × Returns r

merge_loop-Good :
    (records : List (ℕ × ClusterMember)) (changed : Bool) (t : MembershipTable)
    → IsValid t
    → Good (merge_loop records changed t)
unfolding merge_loop
merge_loop-Good [] changed t v = (v, tt)
merge_loop-Good ((now, m) ∷ records) changed t v =
    go
      (λ c.
        merge_loop-Good records (c || changed) (merge_one now m t).0 (merge_one-IsValid now m t v))
      (merge_one now m t).1 (merge_one-Returns now m t v)
  where
    go :
        ((c : Bool) → Good (merge_loop records (c || changed) (merge_one now m t).0))
        → (r : Result Bool) → Returns r
        → Good (elim r [
          | ok c ↦ merge_loop records (c || changed) (merge_one now m t).0
          | raise e ↦ ((merge_one now m t).0, raise e)
        ])
    go rest (ok c) h = rest c
    go rest (raise e) h = absurd h

bump-Good : (s : MembershipTable × Result Bool) → Good s → Good (bump s)
unfolding bump
bump-Good (t, ok true) g = (version-IsValid t _ g.0, tt)
bump-Good (t, ok false) g = g
bump-Good (t, raise e) g = g

-- Merging any records into a valid table keeps it valid and raises nothing: the assertion that
-- the local node is listed holds.
pub merge-Good :
    (records : List (ℕ × ClusterMember)) (t : MembershipTable) → IsValid t → Good (merge records t)
unfolding merge
merge-Good records t v = bump-Good _ (merge_loop-Good records false t v)
