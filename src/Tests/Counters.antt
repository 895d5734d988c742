-- ===== src/Tests/Counters.antt =====
-- The counters at concrete inputs.
use advanced_distributed_sys.Base.{◌≡◌, refl, List, [], ◌∷◌, arith}
use advanced_distributed_sys.Order.{list_ord, nat_ord, pair_ord}
use advanced_distributed_sys.Causal.Actor.{CausalActor, actor_ord}
use advanced_distributed_sys.Tests.Deliveries.{once_in_twice, twice_in_once}
use advanced_distributed_sys.Crdt.Semilattice.{deliver}
use advanced_distributed_sys.Crdt.Convergence.{gcounter_converges}
use advanced_distributed_sys.Crdt.GCounter
use advanced_distributed_sys.Crdt.GCounter.{GCounter}
use advanced_distributed_sys.Crdt.GCounter.Value
use advanced_distributed_sys.Crdt.GCounter.Value.{Increments, increment-Increments, value-le-merge}
use advanced_distributed_sys.Crdt.PnCounter.{PnCounter}
use advanced_distributed_sys.Crdt.PnCounter.Laws
use advanced_distributed_sys.Crdt.PnCounter.Laws.{Moves, increment-Moves, decrement-Moves}

abbrev a1 : CausalActor
a1 = record { node_id = 97 ∷ []; incarnation = 1 }

abbrev b1 : CausalActor
b1 = record { node_id = 98 ∷ []; incarnation = 1 }

abbrev g21 : GCounter
g21 = record { components = (a1, 2) ∷ (b1, 1) ∷ [] }

abbrev g03 : GCounter
g03 = record { components = (b1, 3) ∷ [] }

g21-IsValid : GCounter.IsValid g21
unfolding actor_ord list_ord nat_ord pair_ord
g21-IsValid = (((refl, tt), (tt, tt)), (omega arith, (omega arith, tt)))

g03-IsValid : GCounter.IsValid g03
g03-IsValid = ((tt, tt), (omega arith, tt))

empty-IsValid : GCounter.IsValid GCounter.empty
empty-IsValid = (tt, tt)

abbrev sent : List GCounter
sent = g21 ∷ g03 ∷ []

-- the other way round, with one state delivered twice
abbrev resent : List GCounter
resent = g03 ∷ g21 ∷ g03 ∷ []

gcounter_converges_example :
    deliver Value.semilattice GCounter.empty sent ≡ deliver Value.semilattice GCounter.empty resent
gcounter_converges_example =
    gcounter_converges GCounter.empty sent resent empty-IsValid (g21-IsValid, (g03-IsValid, tt))
      (g03-IsValid, (g21-IsValid, (g03-IsValid, tt))) (once_in_twice g21 g03)
      (twice_in_once g21 g03)

abbrev c21 : PnCounter
c21 = record { positive = g21; negative = g03 }

c21-IsValid : Laws.IsValid c21
c21-IsValid = (g21-IsValid, g03-IsValid)

abbrev c03 : PnCounter
c03 = record { positive = g03; negative = GCounter.empty }

c03-IsValid : Laws.IsValid c03
c03-IsValid = (g03-IsValid, empty-IsValid)
