-- ===== src/Tests/Vectors.antt =====
-- Version vectors and the clock at concrete inputs.
use advanced_distributed_sys.Base.{
  ℕ, ◌≡◌, refl, ◌↔◌, true, List, [], ◌∷◌, none, some, raise, runtime_error, arith,
}
use advanced_distributed_sys.Order.{list_ord, nat_ord, pair_ord}
use advanced_distributed_sys.Sorted
use advanced_distributed_sys.Sorted.{find}
use advanced_distributed_sys.Counts
use advanced_distributed_sys.Causal.Actor.{CausalActor, actor_ord, dot_ord}
use advanced_distributed_sys.Causal.Version.{
  VersionVector, before, concurrent, IsValid, get, merge, compare, dominates, missing_from,
}
use advanced_distributed_sys.Causal.Version.Compare.{Relates, compare_iff}
use advanced_distributed_sys.Causal.Clock.{
  CausalClock, CausalAllocation, Body, ClockCall, observes, allocates,
}

abbrev a1 : CausalActor
a1 = record { node_id = 97 ∷ []; incarnation = 1 }

abbrev b1 : CausalActor
b1 = record { node_id = 98 ∷ []; incarnation = 1 }

abbrev v21 : VersionVector
v21 = record { entries = (a1, 2) ∷ (b1, 1) ∷ [] }

abbrev v13 : VersionVector
v13 = record { entries = (a1, 1) ∷ (b1, 3) ∷ [] }

abbrev v10 : VersionVector
v10 = record { entries = (a1, 1) ∷ [] }

program : Unit {0}
unfolding actor_ord list_ord nat_ord pair_ord get merge compare dominates missing_from
    Counts.all_keys Sorted.dedup Sorted.member Counts.get find Counts.merge Sorted.sort_items
    Sorted.insort
program = tt

v13-IsValid : IsValid v13
unfolding program
v13-IsValid = (((refl, tt), (tt, tt)), (omega arith, (omega arith, tt)))

compare-v21 :
    (compare v21 v13 ≡ concurrent)
    × (compare v10 v21 ≡ before)
    × (merge v21 v13 ≡ record { entries = (a1, 2) ∷ (b1, 3) ∷ [] })
unfolding program
compare-v21 = (refl, refl, refl)

compare_iff_example : (compare v10 v21 ≡ before) ↔ Relates before v10 v21
compare_iff_example = compare_iff v10 v21 before

abbrev clock : CausalClock
clock = record { actor = a1; frontier = v21 }

abbrev calls : List ClockCall
calls = allocates none ∷ observes v13 ∷ allocates (some v13) ∷ []

-- a body that commits and then raises
abbrev failing : Body CausalAllocation ℕ
failing a = (record a { committed = true }, raise runtime_error)
