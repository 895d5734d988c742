-- ===== src/Crdt/PnCounter.antt =====
-- crdt/pncounter.py: a counter of increments and one of decrements.
pub mod Laws
use advanced_distributed_sys.Base.{Result, ok, raise, ◌>>=◌}
use advanced_distributed_sys.Base.Int.{ℤ, pos, ◌-ℤ◌}
use advanced_distributed_sys.Causal.Actor.{CausalActor}
use advanced_distributed_sys.Crdt.GCounter
use advanced_distributed_sys.Crdt.GCounter.{GCounter}

pub record PnCounter : Type 0 where
  pub positive : GCounter
  pub negative : GCounter

abbrev pub empty : PnCounter
empty = record { positive = GCounter.empty; negative = GCounter.empty }

unfoldable pub increment : PnCounter → CausalActor → ℤ → Result PnCounter
increment c a amount = do
  positive ← GCounter.increment c.positive a amount
  ok (record c { positive = positive })

unfoldable pub decrement : PnCounter → CausalActor → ℤ → Result PnCounter
decrement c a amount = do
  negative ← GCounter.increment c.negative a amount
  ok (record c { negative = negative })

unfoldable pub value : PnCounter → ℤ
value c = pos (GCounter.value c.positive) -ℤ pos (GCounter.value c.negative)

unfoldable pub merge : PnCounter → PnCounter → PnCounter
merge c d = record {
  positive = GCounter.merge c.positive d.positive;
  negative = GCounter.merge c.negative d.negative;
}
