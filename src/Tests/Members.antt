-- ===== src/Tests/Members.antt =====
-- The membership table at concrete inputs: node `a` is local, `b` is suspected and `c` is alive.
use advanced_distributed_sys.Base.{ℕ, ◌≡◌, ◌≢◌, refl, max, List, [], ◌∷◌, arith}
use advanced_distributed_sys.Order.{Str, list_ord, nat_ord}
use advanced_distributed_sys.Sorted.{find}
use advanced_distributed_sys.Cluster.Member.{alive, suspect, dead, ClusterMember}
use advanced_distributed_sys.Cluster.Membership.{
  MembershipTable, new_table, merge, advance_timeouts_and_purge,
}
use advanced_distributed_sys.Cluster.Membership.Timers.{IsValid, new_table-IsValid, merge-Good}
use advanced_distributed_sys.Cluster.Membership.Timeouts.{advance-IsValid}
use advanced_distributed_sys.Cluster.Membership.Ranks.{rank, best, merge-rank}
use advanced_distributed_sys.Cluster.Membership.Refutation.{
  incarnation_of, own_incarnation, highest_bid, merge-own_incarnation,
}

abbrev member_a : ClusterMember
member_a = record { node_id = 97 ∷ []; host = 104 ∷ []; port = 1; status = alive; incarnation = 1 }

abbrev member_b : ClusterMember
member_b = record {
  node_id = 98 ∷ [];
  host = 104 ∷ [];
  port = 2;
  status = suspect;
  incarnation = 4;
}

abbrev records : List (ℕ × ClusterMember)
records =
    (1, member_b)
    ∷ (2, record member_a { status = suspect; incarnation = 3 })
    ∷ (3, record member_b { status = dead })
    ∷ []

abbrev first_table : MembershipTable
first_table = record {
  local_node_id = 97 ∷ [];
  suspicion_timeout = 5;
  dead_retention = 20;
  members = (97 ∷ [], member_a) ∷ [];
  suspected_at = [];
  dead_at = [];
  version = 1;
}

first-IsValid : IsValid first_table
unfolding new_table
first-IsValid = (new_table-IsValid member_a 5 20 refl refl).0

table : MembershipTable
table = (merge records first_table).0

table-IsValid : IsValid table
unfolding table
table-IsValid = (merge-Good records first_table first-IsValid).0

merge-rank_example :
    rank (find (98 ∷ []) (merge records first_table).0.members)
    ≡ max (rank (find (98 ∷ []) first_table.members)) (best (98 ∷ []) records)
merge-rank_example = merge-rank records first_table (98 ∷ []) first-IsValid other
  where
    other : ◌≢◌ {A = Str} (98 ∷ []) (97 ∷ [])
    other = ground arith

merge-own_incarnation_example :
    incarnation_of (find (97 ∷ []) (merge records first_table).0.members)
    ≡ max (own_incarnation first_table) (highest_bid (97 ∷ []) records)
merge-own_incarnation_example = merge-own_incarnation records first_table first-IsValid

advance-IsValid_example : IsValid (advance_timeouts_and_purge 30 table).0
advance-IsValid_example = advance-IsValid 30 table table-IsValid
