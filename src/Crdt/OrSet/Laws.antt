-- ===== src/Crdt/OrSet/Laws.antt =====
-- The observed-remove set as a semilattice, and that every operation keeps it well formed.
use mathlib.Core.Path.{ap₂}
use advanced_distributed_sys.Base.{
  ◌≡◌, refl, sym, ap, ◌∙◌, List, [], ◌∷◌, Option, none, some, All, arith, Option-cases, inl, inr,
}
use advanced_distributed_sys.Order.{Str, str_ord, list_ord, nat_ord}
use advanced_distributed_sys.Sorted.{find, put, IsSorted, Distinct}
use advanced_distributed_sys.Sorted.Laws.{
  find-sort_items, find-put, IsSorted-Distinct, IsSorted-ext, sort_items-IsSorted, put-Distinct,
  All-sort_items, All-put, All-find,
}
use advanced_distributed_sys.Sorted.FrozenSet
use advanced_distributed_sys.Sorted.FrozenSet.{
  FrozenSet, union-IsSorted, union_comm, union_assoc, union_self, union-nil_left,
}
use advanced_distributed_sys.Causal.Actor.{Dot, dot_ord}
use advanced_distributed_sys.Crdt.Semilattice.{Semilattice}
use advanced_distributed_sys.Crdt.OrSet.{
  OrSet, IsValid, make, or_empty, dots_of, add, remove, merge_adds, merge,
}

abbrev Dots : Type 0
Dots = FrozenSet Dot

abbrev AllSorted : List (Str × Dots) → Type 0
AllSorted m = All (λ e. IsSorted e.1) m

dots_of-IsSorted : (e : Str) (m : List (Str × Dots)) → AllSorted m → IsSorted (dots_of e m)
unfolding dots_of
dots_of-IsSorted e m h = elim (Option-cases (find e m)) [
  | inl absent ↦ rw absent tt
  | inr (dots, found) ↦ rw found (All-find IsSorted e m h found)
]

make-IsValid :
    (adds : List (Str × Dots)) (removed : Dots)
    → Distinct adds
    → AllSorted adds
    → IsSorted removed
    → IsValid (make adds removed)
unfolding make
make-IsValid adds removed d h r = record {
  sorted = sort_items-IsSorted adds d;
  dots = All-sort_items (λ e. IsSorted e.1) adds h;
  removed = r;
}

pub add-IsValid : (s : OrSet) (e : Str) (dot : Dot) → IsValid s → IsValid (add s e dot)
unfolding add
add-IsValid s e dot v =
    make-IsValid _ s.removed (put-Distinct e _ s.adds (IsSorted-Distinct s.adds v.sorted))
      (All-put IsSorted e _ s.adds
        (union-IsSorted _ (FrozenSet.singleton dot) (dots_of-IsSorted e s.adds v.dots)) v.dots)
      v.removed

pub remove-IsValid : (s : OrSet) (e : Str) → IsValid s → IsValid (remove s e)
unfolding remove
remove-IsValid s e v =
    make-IsValid s.adds _ (IsSorted-Distinct s.adds v.sorted) v.dots
      (union-IsSorted s.removed _ v.removed)

merge_adds-Distinct :
    (adds others : List (Str × Dots)) → Distinct adds → Distinct (merge_adds adds others)
unfolding merge_adds
merge_adds-Distinct adds [] h = h
merge_adds-Distinct adds ((e, dots) ∷ others) h =
    merge_adds-Distinct (put e _ adds) others (put-Distinct e _ adds h)

merge_adds-AllSorted :
    (adds others : List (Str × Dots)) → AllSorted adds → AllSorted (merge_adds adds others)
unfolding merge_adds
merge_adds-AllSorted adds [] h = h
merge_adds-AllSorted adds ((e, dots) ∷ others) h =
    merge_adds-AllSorted (put e _ adds) others
      (All-put IsSorted e _ adds (union-IsSorted _ dots (dots_of-IsSorted e adds h)) h)

pub merge-IsValid : (s t : OrSet) → IsValid s → IsValid t → IsValid (merge s t)
unfolding merge
merge-IsValid s t v w =
    make-IsValid _ _ (merge_adds-Distinct s.adds t.adds (IsSorted-Distinct s.adds v.sorted))
      (merge_adds-AllSorted s.adds t.adds v.dots) (union-IsSorted s.removed t.removed v.removed)

-- the dots of one element on the two sides of a merge
join : Option Dots → Option Dots → Option Dots
join none none = none
join none (some d) = some (FrozenSet.union [] d)
join (some c) none = some c
join (some c) (some d) = some (FrozenSet.union c d)

find-merge_adds :
    (e : Str) (adds others : List (Str × Dots))
    → Distinct others
    → find e (merge_adds adds others) ≡ join (find e adds) (find e others)
unfolding merge_adds join find dots_of
find-merge_adds e adds [] h = ground arith
find-merge_adds e adds ((f, dots) ∷ others) h = ground (
  arith,
  find-merge_adds e (put f (FrozenSet.union (or_empty (find f adds)) dots) adds) others h.1,
  find-put f e (FrozenSet.union (or_empty (find f adds)) dots) adds,
  str_ord.cmp_eq f e,
)

find-merge :
    (e : Str) (s t : OrSet)
    → IsValid t
    → find e (merge s t).adds ≡ join (find e s.adds) (find e t.adds)
unfolding merge make
find-merge e s t v =
    find-sort_items e (merge_adds s.adds t.adds)
    ∙ find-merge_adds e s.adds t.adds (IsSorted-Distinct t.adds v.sorted)

abbrev OptionSorted : Option Dots → Type 0
OptionSorted none = Unit {0}
OptionSorted (some d) = IsSorted d

find-OptionSorted : (e : Str) (s : OrSet) → IsValid s → OptionSorted (find e s.adds)
find-OptionSorted e s v = elim (Option-cases (find e s.adds)) [
  | inl absent ↦ rw absent tt
  | inr (dots, found) ↦ rw found (All-find IsSorted e s.adds v.dots found)
]

join_comm : (c d : Option Dots) → OptionSorted c → OptionSorted d → join c d ≡ join d c
unfolding join
join_comm none none p q = refl
join_comm none (some d) p q = ap some (union-nil_left d q)
join_comm (some c) none p q = ap some (sym (union-nil_left c p))
join_comm (some c) (some d) p q = ap some (union_comm c d p q)

join_assoc :
    (b c d : Option Dots)
    → OptionSorted b
    → OptionSorted c
    → OptionSorted d
    → join (join b c) d ≡ join b (join c d)
unfolding join
join_assoc none none none p q r = refl
join_assoc none none (some d) p q r = ap some (sym (ap (FrozenSet.union []) (union-nil_left d r)))
join_assoc none (some c) none p q r = refl
join_assoc none (some c) (some d) p q r = ap some (union_assoc [] c d tt)
join_assoc (some b) none none p q r = refl
join_assoc (some b) none (some d) p q r =
    ap some (sym (ap (FrozenSet.union b) (union-nil_left d r)))
join_assoc (some b) (some c) none p q r = refl
join_assoc (some b) (some c) (some d) p q r = ap some (union_assoc b c d p)

join_self : (c : Option Dots) → OptionSorted c → join c c ≡ c
unfolding join
join_self none p = refl
join_self (some c) p = ap some (union_self c p)

of_parts : List (Str × Dots) → Dots → OrSet
of_parts adds removed = record { adds = adds; removed = removed }

ext :
    (s t : OrSet)
    → IsValid s
    → IsValid t
    → ((e : Str) → find e s.adds ≡ find e t.adds)
    → s.removed ≡ t.removed
    → s ≡ t
unfolding of_parts
ext s t v w h r = ap₂ of_parts (IsSorted-ext s.adds t.adds v.sorted w.sorted h) r

removed-merge : (s t : OrSet) → (merge s t).removed ≡ FrozenSet.union s.removed t.removed
unfolding merge make
removed-merge s t = refl

pub merge_comm : (s t : OrSet) → IsValid s → IsValid t → merge s t ≡ merge t s
merge_comm s t v w =
    ext _ _ (merge-IsValid s t v w) (merge-IsValid t s w v)
      (λ e.
        find-merge e s t w
        ∙ join_comm _ _ (find-OptionSorted e s v) (find-OptionSorted e t w)
        ∙ sym (find-merge e t s v))
      (removed-merge s t
        ∙ union_comm s.removed t.removed v.removed w.removed
        ∙ sym (removed-merge t s))

pub merge_assoc :
    (s t u : OrSet) → IsValid s → IsValid t → IsValid u → merge (merge s t) u ≡ merge s (merge t u)
merge_assoc s t u v w x =
    ext _ _ (merge-IsValid (merge s t) u (merge-IsValid s t v w) x)
      (merge-IsValid s (merge t u) v (merge-IsValid t u w x))
      (λ e.
        rw
          (
            find-merge e (merge s t) u x,
            find-merge e s t w,
            find-merge e s (merge t u) (merge-IsValid t u w x),
            find-merge e t u x,
          )
          (join_assoc _ _ _ (find-OptionSorted e s v) (find-OptionSorted e t w)
            (find-OptionSorted e u x)))
      (rw
        (
          removed-merge (merge s t) u,
          removed-merge s t,
          removed-merge s (merge t u),
          removed-merge t u,
        )
        (union_assoc s.removed t.removed u.removed v.removed))

pub merge_self : (s : OrSet) → IsValid s → merge s s ≡ s
merge_self s v =
    ext _ _ (merge-IsValid s s v v) v
      (λ e. find-merge e s s v ∙ join_self _ (find-OptionSorted e s v))
      (removed-merge s s ∙ union_self s.removed v.removed)

unfoldable pub semilattice : Semilattice OrSet
semilattice = record {
  merge = merge;
  Valid = IsValid;
  merge-Valid = merge-IsValid;
  merge_comm = merge_comm;
  merge_assoc = merge_assoc;
  merge_self = merge_self;
}
