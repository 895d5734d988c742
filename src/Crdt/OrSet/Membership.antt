-- ===== src/Crdt/OrSet/Membership.antt =====
-- Which elements an observed-remove set holds after each operation.
use advanced_distributed_sys.Base.{
  ◌≡◌, refl, sym, ap, ◌∙◌, ◌↔◌, inl, inr, Bool, true, false, ◌||◌, ◌&&◌, List, [], ◌∷◌, none,
  if◌then◌else◌, arith, Bool-cases,
}
use advanced_distributed_sys.Order.{Str, str_ord, list_ord, nat_ord, same}
use advanced_distributed_sys.Sorted.{find, put, sort_items, Distinct}
use advanced_distributed_sys.Sorted.Laws.{find-sort_items, find-put, IsSorted-Distinct}
use advanced_distributed_sys.Sorted.FrozenSet
use advanced_distributed_sys.Sorted.FrozenSet.{
  FrozenSet, contains-union, contains-difference, contains-singleton, contains-insert, contains-nil,
  first_element,
}
use advanced_distributed_sys.Causal.Actor.{Dot, dot_ord}
use advanced_distributed_sys.Crdt.OrSet.{
  OrSet, IsValid, or_empty, dots_of, add, remove, is_active, active_elements, value, contains,
  merge_adds, merge,
}

-- the dot is recorded for the element
abbrev pub tagged : OrSet → Str → Dot → Bool
tagged s e d = FrozenSet.contains d (dots_of e s.adds)

abbrev pub is_removed : OrSet → Dot → Bool
is_removed s d = FrozenSet.contains d s.removed

is_active-of_dot :
    (d : Dot) (dots removed : FrozenSet Dot)
    → FrozenSet.contains d dots ≡ true
    → FrozenSet.contains d removed ≡ false
    → is_active dots removed ≡ true
unfolding is_active
is_active-of_dot d dots removed h k = elim (first_element (FrozenSet.difference dots removed)) [
  | inl e ↦ absurd (ground (arith, contains-difference d dots removed, contains-nil d))
  | inr (j, e) ↦ ground (arith, contains-nil j)
]

dot-of_is_active :
    (dots removed : FrozenSet Dot)
    → is_active dots removed ≡ true
    → (d : Dot) × (FrozenSet.contains d dots ≡ true) × (FrozenSet.contains d removed ≡ false)
unfolding is_active
dot-of_is_active dots removed h = elim (first_element (FrozenSet.difference dots removed)) [
  | inl e ↦ absurd (ground arith)
  | inr (d, e) ↦ (
    d,
    ground (arith, contains-difference d dots removed),
    ground (arith, contains-difference d dots removed),
  )
]

is_active-nil : (removed : FrozenSet Dot) → is_active [] removed ≡ false
unfolding is_active FrozenSet.difference
is_active-nil removed = refl

-- an element is listed exactly if it has an active set of dots
contains-active_elements :
    (e : Str) (adds : List (Str × FrozenSet Dot)) (removed : FrozenSet Dot)
    → Distinct adds
    → FrozenSet.contains e (FrozenSet.of_list (active_elements adds removed))
      ≡ is_active (dots_of e adds) removed
unfolding active_elements FrozenSet.of_list dots_of find
contains-active_elements e [] removed h = ground (arith, contains-nil e, is_active-nil removed)
contains-active_elements e ((f, dots) ∷ adds) removed h = ground (
  arith,
  contains-active_elements e adds removed h.1,
  is_active-nil removed,
  contains-insert f e (FrozenSet.of_list (active_elements adds removed)),
  str_ord.cmp_eq f e,
)

-- An element is in a valid set exactly if one of its dots is not removed.
pub contains_iff :
    (s : OrSet) (e : Str)
    → IsValid s
    → (contains s e ≡ true) ↔ ((d : Dot) × (tagged s e d ≡ true) × (is_removed s d ≡ false))
unfolding contains value
contains_iff s e h =
    let eq = contains-active_elements e s.adds s.removed (IsSorted-Distinct s.adds h.sorted) in
    (
      λ c. dot-of_is_active (dots_of e s.adds) s.removed (sym eq ∙ c),
      λ (d, t, r). eq ∙ is_active-of_dot d (dots_of e s.adds) s.removed t r,
    )

dots-make :
    (e : Str) (adds : List (Str × FrozenSet Dot)) → dots_of e (sort_items adds) ≡ dots_of e adds
unfolding dots_of
dots-make e adds = ap or_empty (find-sort_items e adds)

dots-put :
    (f e : Str) (dots : FrozenSet Dot) (adds : List (Str × FrozenSet Dot))
    → dots_of e (put f dots adds) ≡ (if same f e then dots else dots_of e adds)
unfolding dots_of
dots-put f e dots adds = ground (arith, find-put f e dots adds)

-- What each operation does to the dots of an element, and to the removed dots.
pub tagged-add :
    (s : OrSet) (f : Str) (dot : Dot) (e : Str) (d : Dot)
    → tagged (add s f dot) e d ≡ (tagged s e d || (same f e && same dot d))
unfolding add
tagged-add s f dot e d = ground (
  arith,
  dots-make e (put f (FrozenSet.union (dots_of f s.adds) (FrozenSet.singleton dot)) s.adds),
  dots-put f e (FrozenSet.union (dots_of f s.adds) (FrozenSet.singleton dot)) s.adds,
  contains-union d (dots_of f s.adds) (FrozenSet.singleton dot),
  contains-singleton dot d,
  str_ord.cmp_eq f e,
)

pub removed-add : (s : OrSet) (f : Str) (dot d : Dot) → is_removed (add s f dot) d ≡ is_removed s d
unfolding add
removed-add s f dot d = refl

pub tagged-remove : (s : OrSet) (f e : Str) (d : Dot) → tagged (remove s f) e d ≡ tagged s e d
unfolding remove
tagged-remove s f e d = ap (FrozenSet.contains d) (dots-make e s.adds)

pub removed-remove :
    (s : OrSet) (f : Str) (d : Dot) → is_removed (remove s f) d ≡ (is_removed s d || tagged s f d)
unfolding remove
removed-remove s f d = ground (
  arith,
  contains-union d s.removed (FrozenSet.difference (dots_of f s.adds) s.removed),
  contains-difference d (dots_of f s.adds) s.removed,
)

dots_of-nil : (e : Str) → dots_of e [] ≡ []
unfolding dots_of find
dots_of-nil e = refl

dots_of-cons :
    (f e : Str) (dots : FrozenSet Dot) (adds : List (Str × FrozenSet Dot))
    → dots_of e ((f, dots) ∷ adds) ≡ (if same f e then dots else dots_of e adds)
unfolding dots_of find
dots_of-cons f e dots adds = ground arith

dots_of_absent :
    (e : Str) (adds : List (Str × FrozenSet Dot)) → find e adds ≡ none → dots_of e adds ≡ []
unfolding dots_of
dots_of_absent e adds h = rw h

dots-merge_adds :
    (adds others : List (Str × FrozenSet Dot)) (e : Str) (d : Dot)
    → Distinct others
    → FrozenSet.contains d (dots_of e (merge_adds adds others))
      ≡ (FrozenSet.contains d (dots_of e adds) || FrozenSet.contains d (dots_of e others))
unfolding merge_adds
dots-merge_adds adds [] e d h = ground (arith, dots_of-nil e, contains-nil d)
dots-merge_adds adds ((f, dots) ∷ others) e d h = ground (
  arith,
  dots-merge_adds (put f (FrozenSet.union (dots_of f adds) dots) adds) others e d h.1,
  dots-put f e (FrozenSet.union (dots_of f adds) dots) adds,
  contains-union d (dots_of f adds) dots,
  dots_of-cons f e dots others,
  dots_of_absent f others h.0,
  contains-nil d,
  str_ord.cmp_eq f e,
)

pub tagged-merge :
    (s t : OrSet) (e : Str) (d : Dot)
    → IsValid t
    → tagged (merge s t) e d ≡ (tagged s e d || tagged t e d)
unfolding merge
tagged-merge s t e d h =
    ap (FrozenSet.contains d) (dots-make e (merge_adds s.adds t.adds))
    ∙ dots-merge_adds s.adds t.adds e d (IsSorted-Distinct t.adds h.sorted)

pub removed-merge :
    (s t : OrSet) (d : Dot) → is_removed (merge s t) d ≡ (is_removed s d || is_removed t d)
unfolding merge
removed-merge s t d = contains-union d s.removed t.removed

-- A removed element is not in the merge with a set whose dots for it were all seen by the
-- remover, where both sets and the merge are valid.
pub remove-observed :
    (s t : OrSet) (e : Str)
    → IsValid s
    → IsValid t
    → IsValid (merge (remove s e) t)
    → ((d : Dot) → tagged t e d ≡ true → tagged s e d ≡ true)
    → contains (merge (remove s e) t) e ≡ false
remove-observed s t e p q r seen = elim (Bool-cases (contains (merge (remove s e) t) e)) [
  | inl c ↦
      let (d, tag, kept) = (contains_iff (merge (remove s e) t) e r).0 c in
      absurd (
        ground (
          arith,
          tagged-merge (remove s e) t e d q,
          tagged-remove s e e d,
          removed-merge (remove s e) t d,
          removed-remove s e d,
          seen d,
        ))
  | inr c ↦ c
]

-- An add wins over a concurrent removal: where a side that adds an element under a dot is valid,
-- as is its merge with a side that removes the element, the element is in the merge, if the
-- remover had not seen the dot and neither side had removed it.
pub add_wins :
    (s t : OrSet) (e : Str) (dot : Dot)
    → IsValid (add t e dot)
    → IsValid (merge (remove s e) (add t e dot))
    → tagged s e dot ≡ false
    → is_removed s dot ≡ false
    → is_removed t dot ≡ false
    → contains (merge (remove s e) (add t e dot)) e ≡ true
add_wins s t e dot p q unseen kept_s kept_t =
    (contains_iff (merge (remove s e) (add t e dot)) e q).1 (
      dot,
      ground (
        arith,
        tagged-merge (remove s e) (add t e dot) e dot p,
        tagged-add t e dot e dot,
        str_ord.cmp_self e,
        dot_ord.cmp_self dot,
      ),
      ground (
        arith,
        removed-merge (remove s e) (add t e dot) dot,
        removed-remove s e dot,
        removed-add t e dot dot,
      ),
    )
