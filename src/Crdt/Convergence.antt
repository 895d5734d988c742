-- ===== src/Crdt/Convergence.antt =====
-- crdt/: strong eventual convergence, for the types whose merge never raises. Replicas exchange whole
-- states, so what a replica holds is a fold of `merge` over the states that were delivered to it.
use advanced_distributed_sys.Base.{◌≡◌, List, All}
use mathlib.Core.List.{Memᴰ}
use advanced_distributed_sys.Crdt.Semilattice.{deliver, deliver-converges}
use advanced_distributed_sys.Crdt.GCounter as G
use advanced_distributed_sys.Crdt.GCounter.{GCounter}
use advanced_distributed_sys.Crdt.GCounter.Value as GValue
use advanced_distributed_sys.Crdt.PnCounter.{PnCounter}
use advanced_distributed_sys.Crdt.PnCounter.Laws as PN
use advanced_distributed_sys.Crdt.OrSet as Set
use advanced_distributed_sys.Crdt.OrSet.{OrSet}
use advanced_distributed_sys.Crdt.OrSet.Laws as SetLaws

-- Two replicas of a grow-only counter that start alike and are delivered the same valid states, in any
-- order and any number of times each, end in the same state.
pub gcounter_converges :
    (g : GCounter) (xs ys : List GCounter)
    → G.IsValid g
    → All G.IsValid xs
    → All G.IsValid ys
    → ((x : GCounter) → Memᴰ x xs → Memᴰ x ys)
    → ((x : GCounter) → Memᴰ x ys → Memᴰ x xs)
    → deliver GValue.semilattice g xs ≡ deliver GValue.semilattice g ys
unfolding GValue.semilattice
gcounter_converges = deliver-converges GValue.semilattice

-- Two replicas of a counter of increments and decrements that start alike and are delivered the same
-- valid states, in any order and any number of times each, end in the same state.
pub pncounter_converges :
    (c : PnCounter) (xs ys : List PnCounter)
    → PN.IsValid c
    → All PN.IsValid xs
    → All PN.IsValid ys
    → ((x : PnCounter) → Memᴰ x xs → Memᴰ x ys)
    → ((x : PnCounter) → Memᴰ x ys → Memᴰ x xs)
    → deliver PN.semilattice c xs ≡ deliver PN.semilattice c ys
unfolding PN.semilattice
pncounter_converges = deliver-converges PN.semilattice

-- Two replicas of an observed-remove set that start alike and are delivered the same valid states, in
-- any order and any number of times each, end in the same state.
pub orset_converges :
    (s : OrSet) (xs ys : List OrSet)
    → Set.IsValid s
    → All Set.IsValid xs
    → All Set.IsValid ys
    → ((x : OrSet) → Memᴰ x xs → Memᴰ x ys)
    → ((x : OrSet) → Memᴰ x ys → Memᴰ x xs)
    → deliver SetLaws.semilattice s xs ≡ deliver SetLaws.semilattice s ys
unfolding SetLaws.semilattice
orset_converges = deliver-converges SetLaws.semilattice
