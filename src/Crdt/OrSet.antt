-- ===== src/Crdt/OrSet.antt =====
-- crdt/orset.py: the observed-remove set. A set of dots is kept for each element, and removal
-- supersedes the dots that were seen. Elements are texts by type, so the `TypeError` guards pass.
pub mod Membership
pub mod Laws
use advanced_distributed_sys.Base.{
  ◌≡◌, Bool, true, false, not, List, [], ◌∷◌, Option, none, some, if◌then◌else◌, All,
}
use advanced_distributed_sys.Order.{Str, list_ord, nat_ord}
use advanced_distributed_sys.Sorted.{find, put, sort_items, IsSorted}
use advanced_distributed_sys.Sorted.FrozenSet
use advanced_distributed_sys.Sorted.FrozenSet.{FrozenSet}
use advanced_distributed_sys.Causal.Actor.{Dot, dot_ord}

pub record OrSet : Type 0 where
  pub adds : List (Str × FrozenSet Dot)
  pub removed : FrozenSet Dot

-- `OrSet(adds, removed)`
unfoldable pub make : List (Str × FrozenSet Dot) → FrozenSet Dot → OrSet
make adds removed = record { adds = sort_items adds; removed = removed }

abbrev pub empty : OrSet
empty = record { adds = []; removed = [] }

-- `adds.get(element, frozenset())`
abbrev pub or_empty : Option (FrozenSet Dot) → FrozenSet Dot
or_empty none = []
or_empty (some dots) = dots

unfoldable pub dots_of : Str → List (Str × FrozenSet Dot) → FrozenSet Dot
dots_of e adds = or_empty (find e adds)

unfoldable pub add : OrSet → Str → Dot → OrSet
unfolding make dots_of
add s e dot =
    make (put e (FrozenSet.union (dots_of e s.adds) (FrozenSet.singleton dot)) s.adds) s.removed

unfoldable pub remove : OrSet → Str → OrSet
unfolding make dots_of
remove s e =
    make s.adds (FrozenSet.union s.removed (FrozenSet.difference (dots_of e s.adds) s.removed))

-- `bool(dots - self._removed)`
unfoldable pub is_active : FrozenSet Dot → FrozenSet Dot → Bool
is_active dots removed = elim (FrozenSet.difference dots removed) [ [] ↦ false | _ ∷ _ ↦ true ]

-- the generator of `value`
unfoldable pub active_elements : List (Str × FrozenSet Dot) → FrozenSet Dot → List Str
unfolding is_active
active_elements [] removed = []
active_elements ((e, dots) ∷ adds) removed =
    let rest = active_elements adds removed in if is_active dots removed then e ∷ rest else rest

unfoldable pub value : OrSet → FrozenSet Str
unfolding active_elements
value s = FrozenSet.of_list (active_elements s.adds s.removed)

unfoldable pub contains : OrSet → Str → Bool
unfolding value
contains s e = FrozenSet.contains e (value s)

-- the loop of `merge` over the other side's items
unfoldable pub merge_adds :
    List (Str × FrozenSet Dot) → List (Str × FrozenSet Dot) → List (Str × FrozenSet Dot)
unfolding dots_of
merge_adds adds [] = adds
merge_adds adds ((e, dots) ∷ others) =
    merge_adds (put e (FrozenSet.union (dots_of e adds) dots) adds) others

unfoldable pub merge : OrSet → OrSet → OrSet
unfolding make merge_adds
merge s t = make (merge_adds s.adds t.adds) (FrozenSet.union s.removed t.removed)

-- Items sorted by element, each with a set of dots.
pub record IsValid (s : OrSet) : Type 0 where
  pub sorted : IsSorted s.adds
  pub dots : All (λ e. IsSorted e.1) s.adds
  pub removed : IsSorted s.removed
