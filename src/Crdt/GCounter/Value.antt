-- ===== src/Crdt/GCounter/Value.antt =====
-- The grow-only counter as a semilattice whose value only grows.
use advanced_distributed_sys.Base.{
  ℕ, zero, suc, ◌+◌, ◌≤◌, ◌≡◌, refl, ap, List, [], ◌∷◌, Result, ok, raise, value_error, true, false,
  arith, max, if◌then◌else◌,
}
use advanced_distributed_sys.Base.Int.{ℤ, pos, negsuc, ◌+ℤ◌, ltb_ℤ}
use advanced_distributed_sys.Order.{same}
use advanced_distributed_sys.Sorted.{find, put, pop, insort, sort_items, Distinct}
use advanced_distributed_sys.Sorted.Laws.{find-pop, pop-Distinct, IsSorted-Distinct}
use advanced_distributed_sys.Counts
use advanced_distributed_sys.Counts.{count_or_zero, nonzero}
use advanced_distributed_sys.Counts.Laws
use advanced_distributed_sys.Causal.Actor.{CausalActor, actor_ord}
use advanced_distributed_sys.Crdt.Semilattice.{Semilattice}
use advanced_distributed_sys.Crdt.GCounter.{
  GCounter, IsValid, component, increment, increment_by, sum_values, value, merge,
}

of_components : List (CausalActor × ℕ) → GCounter
of_components m = record { components = m }

pub component-merge :
    (g h : GCounter) (a : CausalActor)
    → component (merge g h) a ≡ max (component g a) (component h a)
unfolding component merge
component-merge g h a = Laws.get-merge g.components h.components a

pub ext :
    (g h : GCounter)
    → IsValid g
    → IsValid h
    → ((a : CausalActor) → component g a ≡ component h a)
    → g ≡ h
unfolding component of_components
ext g h p q e = ap of_components (Laws.IsCounts-ext g.components h.components p q e)

pub merge-IsValid : (g h : GCounter) → IsValid g → IsValid h → IsValid (merge g h)
unfolding merge
merge-IsValid g h p q = Laws.merge-IsCounts g.components h.components

pub merge_comm : (g h : GCounter) → IsValid g → IsValid h → merge g h ≡ merge h g
unfolding merge of_components
merge_comm g h p q = ap of_components (Laws.merge_comm g.components h.components)

pub merge_assoc :
    (g h k : GCounter)
    → IsValid g
    → IsValid h
    → IsValid k
    → merge (merge g h) k ≡ merge g (merge h k)
unfolding merge of_components
merge_assoc g h k p q r = ap of_components (Laws.merge_assoc g.components h.components k.components)

pub merge_self : (g : GCounter) → IsValid g → merge g g ≡ g
unfolding merge of_components
merge_self g p = ap of_components (Laws.merge_self g.components p)

unfoldable pub semilattice : Semilattice GCounter
semilattice = record {
  merge = merge;
  Valid = IsValid;
  merge-Valid = merge-IsValid;
  merge_comm = merge_comm;
  merge_assoc = merge_assoc;
  merge_self = merge_self;
}

get-pop :
    (k j : CausalActor) (m : List (CausalActor × ℕ))
    → Distinct m
    → Counts.get (pop k m) j ≡ (if same k j then 0 else Counts.get m j)
unfolding Counts.get
get-pop k j m h = ground (arith, find-pop k j m h)

sum-pop :
    (k : CausalActor) (m : List (CausalActor × ℕ))
    → sum_values m ≡ Counts.get m k + sum_values (pop k m)
unfolding sum_values pop Counts.get find
sum-pop k [] = refl
sum-pop k ((j, n) ∷ m) = ground (arith, sum-pop k m)

head-le :
    (k : CausalActor) (c : ℕ) (m n : List (CausalActor × ℕ))
    → ((j : CausalActor) → Counts.get ((k, c) ∷ m) j ≤ Counts.get n j)
    → c ≤ Counts.get n k
unfolding Counts.get find
head-le k c m n h = ground (arith, h k, actor_ord.cmp_self k)

le-popped :
    (k : CausalActor) (c : ℕ) (m n : List (CausalActor × ℕ))
    → Distinct ((k, c) ∷ m)
    → Distinct n
    → ((j : CausalActor) → Counts.get ((k, c) ∷ m) j ≤ Counts.get n j)
    → (j : CausalActor) → Counts.get m j ≤ Counts.get (pop k n) j
unfolding Counts.get find
le-popped k c m n p q h j = ground (arith, h j, get-pop k j n q, actor_ord.cmp_eq k j)

-- a map with smaller counts has a smaller sum
sum_mono :
    (m n : List (CausalActor × ℕ))
    → Distinct m
    → Distinct n
    → ((k : CausalActor) → Counts.get m k ≤ Counts.get n k)
    → sum_values m ≤ sum_values n
unfolding sum_values
sum_mono [] n p q h = omega arith
sum_mono ((k, c) ∷ m) n p q h =
    let rest = sum_mono m (pop k n) p.1 (pop-Distinct k n q) (le-popped k c m n p q h) in
    omega (arith, rest, sum-pop k n, head-le k c m n h)

-- The value of a merge of two valid counters is at least the value of each.
pub value-le-merge :
    (g h : GCounter)
    → IsValid g
    → IsValid h
    → (value g ≤ value (merge g h)) × (value h ≤ value (merge g h))
unfolding value
value-le-merge g h p q =
    let r = merge-IsValid g h p q in
    let distinct : Distinct (merge g h).components = IsSorted-Distinct _ r.0 in
    (
      sum_mono g.components _ (IsSorted-Distinct _ p.0) distinct
          (λ k. unfold component in omega (arith, component-merge g h k)),
      sum_mono h.components _ (IsSorted-Distinct _ q.0) distinct
          (λ k. unfold component in omega (arith, component-merge g h k)),
    )

sum-insort :
    (e : CausalActor × ℕ) (m : List (CausalActor × ℕ))
    → sum_values (insort e m) ≡ e.1 + sum_values m
unfolding sum_values insort
sum-insort e [] = refl
sum-insort e (f ∷ m) = ground (arith, sum-insort e m)

sum-sort_items : (m : List (CausalActor × ℕ)) → sum_values (sort_items m) ≡ sum_values m
unfolding sum_values sort_items
sum-sort_items [] = refl
sum-sort_items (e ∷ m) = omega (arith, sum-insort e (sort_items m), sum-sort_items m)

sum-nonzero : (m : List (CausalActor × ℕ)) → sum_values (nonzero m) ≡ sum_values m
unfolding sum_values nonzero
sum-nonzero [] = refl
sum-nonzero ((k, n) ∷ m) = ground (arith, sum-nonzero m)

sum-put :
    (k : CausalActor) (n : ℕ) (m : List (CausalActor × ℕ))
    → sum_values (put k n m) + Counts.get m k ≡ sum_values m + n
unfolding sum_values put Counts.get find
sum-put k n [] = omega arith
sum-put k n ((j, c) ∷ m) = ground (arith, sum-put k n m)

pub value-increment_by :
    (g : GCounter) (a : CausalActor) (n : ℕ) → value (increment_by g a n) ≡ value g + n
unfolding value increment_by component Counts.of_counts
value-increment_by g a n = omega (
  arith,
  sum-sort_items (nonzero (put a (Counts.get g.components a + n) g.components)),
  sum-nonzero (put a (Counts.get g.components a + n) g.components),
  sum-put a (Counts.get g.components a + n) g.components,
)

component-increment_by :
    (g : GCounter) (a b : CausalActor) (n : ℕ)
    → IsValid g
    → component (increment_by g a n) b ≡ (if same a b then component g a + n else component g b)
unfolding component increment_by
component-increment_by g a b n p = Laws.get-put_counts g.components a b _ p

pub increment_by-IsValid :
    (g : GCounter) (a : CausalActor) (n : ℕ) → IsValid g → IsValid (increment_by g a n)
unfolding increment_by
increment_by-IsValid g a n p = Laws.put-IsCounts g.components a _ p

-- What a call of `increment` gives: an amount below 1 raises; any other raises the actor's component
-- and the value by the amount, changes no other component, and gives a state above the old one.
abbrev pub Increments : GCounter → CausalActor → ℤ → Result GCounter → Type 0
Increments g a amount (raise e) = (e ≡ value_error) × (ltb_ℤ amount (pos 1) ≡ true)
Increments g a amount (ok h) =
    (ltb_ℤ amount (pos 1) ≡ false)
    × (pos (value h) ≡ pos (value g) +ℤ amount)
    × ((b : CausalActor)
        → pos (component h b)
          ≡ (if same a b then pos (component g b) +ℤ amount else pos (component g b)))
    × (merge g h ≡ h)
    × IsValid h

increment_by-Increments :
    (g : GCounter) (a : CausalActor) (n : ℕ)
    → IsValid g
    → Increments g a (pos (suc n)) (ok (increment_by g a (suc n)))
unfolding ◌+ℤ◌
increment_by-Increments g a n p =
    let h = increment_by g a (suc n) in
    let q = increment_by-IsValid g a (suc n) p in
    (
      ground arith,
      ground (arith, value-increment_by g a (suc n)),
      λ b. ground (arith, component-increment_by g a b (suc n) p, actor_ord.cmp_eq a b),
      ext (merge g h) h (merge-IsValid g h p q) q (λ b. ground (
        arith,
        component-merge g h b,
        component-increment_by g a b (suc n) p,
        actor_ord.cmp_eq a b,
      )),
      q,
    )

pub increment_by-increment :
    (g : GCounter) (a : CausalActor) (n : ℕ)
    → increment g a (pos (suc n)) ≡ ok (increment_by g a (suc n))
unfolding increment
increment_by-increment g a n = ground arith

pub increment_refused :
    (g : GCounter) (a : CausalActor) (amount : ℤ)
    → ltb_ℤ amount (pos 1) ≡ true
    → increment g a amount ≡ raise value_error
unfolding increment
increment_refused g a (negsuc n) h = refl
increment_refused g a (pos n) h = ground arith

-- An increment of a valid counter by an amount below 1 raises `ValueError`. Any other adds the amount to
-- the actor's component and to the value, changes no other component, and gives a valid state that a
-- merge with the old one leaves as it is.
pub increment-Increments :
    (g : GCounter) (a : CausalActor) (amount : ℤ)
    → IsValid g
    → Increments g a amount (increment g a amount)
unfolding increment
increment-Increments g a (negsuc n) p = ground arith
increment-Increments g a (pos zero) p = ground arith
increment-Increments g a (pos (suc n)) p =
    rw (increment_by-increment g a n) (increment_by-Increments g a n p)
