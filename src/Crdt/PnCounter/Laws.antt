-- ===== src/Crdt/PnCounter/Laws.antt =====
-- The positive/negative counter: its value under each operation, and its merge as a semilattice.
use advanced_distributed_sys.Base.{
  ℕ, zero, suc, ◌≡◌, Result, ok, raise, value_error, true, false, arith,
}
use advanced_distributed_sys.Base.Int.{ℤ, pos, negsuc, ◌+ℤ◌, ◌-ℤ◌, ltb_ℤ, int_laws}
use advanced_distributed_sys.Causal.Actor.{CausalActor}
use advanced_distributed_sys.Crdt.Semilattice.{Semilattice}
use advanced_distributed_sys.Crdt.GCounter
use advanced_distributed_sys.Crdt.GCounter.{GCounter}
use advanced_distributed_sys.Crdt.GCounter.Value
use advanced_distributed_sys.Crdt.GCounter.Value.{
  increment_by-IsValid, value-increment_by, increment_by-increment, increment_refused,
}
use advanced_distributed_sys.Crdt.PnCounter.{PnCounter, increment, decrement, value, merge}

abbrev pub IsValid : PnCounter → Type 0
IsValid c = GCounter.IsValid c.positive × GCounter.IsValid c.negative

pub merge-IsValid : (c d : PnCounter) → IsValid c → IsValid d → IsValid (merge c d)
unfolding merge
merge-IsValid c d p q = (
  Value.merge-IsValid c.positive d.positive p.0 q.0,
  Value.merge-IsValid c.negative d.negative p.1 q.1,
)

pub merge_comm : (c d : PnCounter) → IsValid c → IsValid d → merge c d ≡ merge d c
unfolding merge
merge_comm c d p q =
    cc (
      Value.merge_comm c.positive d.positive p.0 q.0,
      Value.merge_comm c.negative d.negative p.1 q.1,
    )

pub merge_assoc :
    (c d e : PnCounter)
    → IsValid c
    → IsValid d
    → IsValid e
    → merge (merge c d) e ≡ merge c (merge d e)
unfolding merge
merge_assoc c d e p q r = cc (
  Value.merge_assoc c.positive d.positive e.positive p.0 q.0 r.0,
  Value.merge_assoc c.negative d.negative e.negative p.1 q.1 r.1,
)

pub merge_self : (c : PnCounter) → IsValid c → merge c c ≡ c
unfolding merge
merge_self c p = cc (Value.merge_self c.positive p.0, Value.merge_self c.negative p.1)

unfoldable pub semilattice : Semilattice PnCounter
semilattice = record {
  merge = merge;
  Valid = IsValid;
  merge-Valid = merge-IsValid;
  merge_comm = merge_comm;
  merge_assoc = merge_assoc;
  merge_self = merge_self;
}

incremented-value :
    (c : PnCounter) (a : CausalActor) (n : ℕ)
    → value (record c { positive = GCounter.increment_by c.positive a n }) ≡ value c +ℤ pos n
unfolding value
incremented-value c a n = omega (int_laws, value-increment_by c.positive a n)

decremented-value :
    (c : PnCounter) (a : CausalActor) (n : ℕ)
    → value (record c { negative = GCounter.increment_by c.negative a n })
      ≡ value c +ℤ (pos 0 -ℤ pos n)
unfolding value
decremented-value c a n = omega (int_laws, value-increment_by c.negative a n)

-- What a call gives that is to move the value by `change`: an amount below 1 raises, and any other
-- moves the value by the change.
abbrev pub Moves : PnCounter → ℤ → ℤ → Result PnCounter → Type 0
Moves c amount change (raise e) = (e ≡ value_error) × (ltb_ℤ amount (pos 1) ≡ true)
Moves c amount change (ok d) =
    (ltb_ℤ amount (pos 1) ≡ false) × (value d ≡ value c +ℤ change) × IsValid d

-- Of a valid counter, an increment by an amount below 1 raises `ValueError`, and any other adds
-- the amount to the value and gives a valid counter.
pub increment-Moves :
    (c : PnCounter) (a : CausalActor) (amount : ℤ)
    → IsValid c
    → Moves c amount amount (increment c a amount)
unfolding increment
increment-Moves c a (negsuc n) p =
    rw (increment_refused c.positive a (negsuc n) (ground arith)) (ground arith)
increment-Moves c a (pos zero) p =
    rw (increment_refused c.positive a (pos 0) (ground arith)) (ground arith)
increment-Moves c a (pos (suc n)) p = rw (increment_by-increment c.positive a n) (
  ground arith,
  incremented-value c a (suc n),
  (increment_by-IsValid c.positive a (suc n) p.0, p.1),
)

-- Of a valid counter, a decrement by an amount below 1 raises `ValueError`, and any other takes
-- the amount from the value and gives a valid counter.
pub decrement-Moves :
    (c : PnCounter) (a : CausalActor) (amount : ℤ)
    → IsValid c
    → Moves c amount (pos 0 -ℤ amount) (decrement c a amount)
unfolding decrement
decrement-Moves c a (negsuc n) p =
    rw (increment_refused c.negative a (negsuc n) (ground arith)) (ground arith)
decrement-Moves c a (pos zero) p =
    rw (increment_refused c.negative a (pos 0) (ground arith)) (ground arith)
decrement-Moves c a (pos (suc n)) p = rw (increment_by-increment c.negative a n) (
  ground arith,
  decremented-value c a (suc n),
  (p.0, increment_by-IsValid c.negative a (suc n) p.1),
)
