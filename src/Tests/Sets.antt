-- ===== src/Tests/Sets.antt =====
-- The observed-remove set at concrete inputs.
use advanced_distributed_sys.Base.{◌≡◌, refl, true, [], ◌∷◌}
use advanced_distributed_sys.Order.{Str, list_ord, nat_ord, pair_ord}
use advanced_distributed_sys.Causal.Actor.{Dot, actor_ord, dot_ord}
use advanced_distributed_sys.Tests.Deliveries.{once_in_twice, twice_in_once}
use advanced_distributed_sys.Sorted
use advanced_distributed_sys.Sorted.FrozenSet
use advanced_distributed_sys.Crdt.Semilattice.{deliver}
use advanced_distributed_sys.Crdt.Convergence.{orset_converges}
use advanced_distributed_sys.Crdt.OrSet.{OrSet, IsValid, empty, add, remove, merge, contains}
use advanced_distributed_sys.Crdt.OrSet.Laws
use advanced_distributed_sys.Crdt.OrSet.Laws.{add-IsValid, remove-IsValid, merge-IsValid}
use advanced_distributed_sys.Crdt.OrSet.Membership.{add_wins}

abbrev first_dot : Dot
first_dot = record { actor = record { node_id = 97 ∷ []; incarnation = 1 }; counter = 1 }

abbrev second_dot : Dot
second_dot = record { actor = record { node_id = 98 ∷ []; incarnation = 1 }; counter = 1 }

abbrev apple : Str
apple = 112 ∷ []

program : Unit {0}
unfolding actor_ord dot_ord list_ord nat_ord pair_ord add remove merge contains FrozenSet.contains
    Sorted.find Sorted.sort_items Sorted.put Sorted.insort FrozenSet.union
program = tt

empty-IsValid : IsValid empty
empty-IsValid = record { sorted = tt; dots = tt; removed = tt }

-- one replica has added the apple, and another adds it again without having seen the first
abbrev seen : OrSet
seen = add empty apple first_dot

abbrev unseen : OrSet
unseen = add empty apple second_dot

seen-IsValid : IsValid seen
seen-IsValid = add-IsValid empty apple first_dot empty-IsValid

unseen-IsValid : IsValid unseen
unseen-IsValid = add-IsValid empty apple second_dot empty-IsValid

add_wins_example : contains (merge (remove seen apple) (add empty apple second_dot)) apple ≡ true
unfolding program
add_wins_example =
    add_wins seen empty apple second_dot (add-IsValid empty apple second_dot empty-IsValid)
      (merge-IsValid _ _ (remove-IsValid seen apple seen-IsValid)
        (add-IsValid empty apple second_dot empty-IsValid))
      refl refl refl

orset_converges_example :
    deliver Laws.semilattice empty (seen ∷ unseen ∷ [])
    ≡ deliver Laws.semilattice empty (unseen ∷ seen ∷ unseen ∷ [])
orset_converges_example =
    orset_converges empty (seen ∷ unseen ∷ []) (unseen ∷ seen ∷ unseen ∷ []) empty-IsValid
      (seen-IsValid, (unseen-IsValid, tt)) (unseen-IsValid, (seen-IsValid, (unseen-IsValid, tt)))
      (once_in_twice seen unseen) (twice_in_once seen unseen)
