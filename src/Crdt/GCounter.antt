-- ===== src/Crdt/GCounter.antt =====
-- crdt/gcounter.py: the grow-only counter.
pub mod Value
use advanced_distributed_sys.Base.{
  ℕ, ◌+◌, ◌<◌, List, [], ◌∷◌, Result, ok, raise, value_error, ltb, if◌then◌else◌, ◌>>=◌, ◌>>◌,
  raise_if,
}
use advanced_distributed_sys.Base.Int.{ℤ, pos, negsuc}
use advanced_distributed_sys.Sorted.{put}
use advanced_distributed_sys.Counts
use advanced_distributed_sys.Counts.{IsCounts}
use advanced_distributed_sys.Causal.Actor.{CausalActor, actor_ord}

pub record GCounter : Type 0 where
  pub components : List (CausalActor × ℕ)

abbrev pub IsValid : GCounter → Type 0
IsValid g = IsCounts g.components

abbrev pub empty : GCounter
empty = record { components = [] }

-- `GCounter(components)` at values that pass its guard
unfoldable pub of_dict : List (CausalActor × ℕ) → GCounter
of_dict d = record { components = Counts.of_counts d }

-- `GCounter(components)` over any integers
unfoldable pub make : List (CausalActor × ℤ) → Result GCounter
unfolding of_dict
make components = Counts.check_counts components >>= λ d. ok (of_dict d)

unfoldable pub component : GCounter → CausalActor → ℕ
component g a = Counts.get g.components a

-- `increment`, past its guard
unfoldable pub increment_by : GCounter → CausalActor → ℕ → GCounter
unfolding of_dict component
increment_by g a amount = of_dict (put a (component g a + amount) g.components)

unfoldable pub increment : GCounter → CausalActor → ℤ → Result GCounter
unfolding increment_by
increment g a (negsuc n) = raise value_error
increment g a (pos amount) =
    if ltb amount 1 then raise value_error else ok (increment_by g a amount)

unfoldable pub sum_values : List (CausalActor × ℕ) → ℕ
sum_values [] = 0
sum_values ((a, n) ∷ m) = n + sum_values m

unfoldable pub value : GCounter → ℕ
unfolding sum_values
value g = sum_values g.components

unfoldable pub merge : GCounter → GCounter → GCounter
merge g h = record { components = Counts.merge g.components h.components }
