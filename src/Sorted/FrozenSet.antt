-- ===== src/Sorted/FrozenSet.antt =====
-- Python's `frozenset`: its elements as sorted items with no value, so that equal sets are equal.
use advanced_distributed_sys.Base.{
  ◌≡◌, refl, Bool, true, false, not, ◌||◌, ◌&&◌, List, [], ◌∷◌, Option, none, some, arith,
  if◌then◌else◌, inl, inr, ◌⊎◌,
}
use advanced_distributed_sys.Order.{Ord, same}
use advanced_distributed_sys.Sorted.{find, insort, IsSorted}
use advanced_distributed_sys.Sorted.Laws.{find-insort, insort-IsSorted, IsSorted-ext}

abbrev pub FrozenSet {ℓ} : Type ℓ → Type ℓ
FrozenSet K = List (K × Unit {0})

abbrev pub is_some {ℓ} : {A : Type ℓ} → Option A → Bool
is_some none = false
is_some (some a) = true

module _ {ℓ} {K : Type ℓ} ⦃o : Ord K⦄ where
  -- `k in s`
  unfoldable pub contains : K → FrozenSet K → Bool
  contains k s = is_some (find k s)

  unfoldable pub insert : K → FrozenSet K → FrozenSet K
  unfolding contains
  insert k s = if contains k s then s else insort (k, tt) s

  -- `s | t`
  unfoldable pub union : FrozenSet K → FrozenSet K → FrozenSet K
  unfolding insert
  union s [] = s
  union s ((k, _) ∷ t) = insert k (union s t)

  -- `s - t`
  unfoldable pub difference : FrozenSet K → FrozenSet K → FrozenSet K
  unfolding contains
  difference [] t = []
  difference ((k, u) ∷ s) t =
      let rest = difference s t in if contains k t then rest else (k, u) ∷ rest

  abbrev pub singleton : K → FrozenSet K
  singleton k = (k, tt) ∷ []

  -- `frozenset(keys)`
  unfoldable pub of_list : List K → FrozenSet K
  unfolding insert
  of_list [] = []
  of_list (k ∷ ks) = insert k (of_list ks)

  pub contains-insert :
      (j k : K) (s : FrozenSet K) → contains k (insert j s) ≡ (same j k || contains k s)
  unfolding contains insert
  contains-insert j k s = ground (arith, find-insort (j, tt) k s, o.cmp_eq j k)

  pub insert-IsSorted : (k : K) (s : FrozenSet K) → IsSorted s → IsSorted (insert k s)
  unfolding insert contains
  insert-IsSorted k s h = ground (arith, insort-IsSorted (k, tt) s h)

  pub contains-nil : (k : K) → contains k [] ≡ false
  unfolding contains find
  contains-nil k = refl

  pub contains-cons :
      (j k : K) (u : Unit {0}) (s : FrozenSet K)
      → contains k ((j, u) ∷ s) ≡ (same j k || contains k s)
  unfolding contains find
  contains-cons j k u s = ground arith

  pub contains-union :
      (k : K) (s t : FrozenSet K) → contains k (union s t) ≡ (contains k s || contains k t)
  unfolding union
  contains-union k s [] = ground (arith, contains-nil k)
  contains-union k s ((j, u) ∷ t) =
      ground (arith, contains-union k s t, contains-insert j k (union s t), contains-cons j k u t)

  pub union-IsSorted : (s t : FrozenSet K) → IsSorted s → IsSorted (union s t)
  unfolding union
  union-IsSorted s [] h = h
  union-IsSorted s ((j, u) ∷ t) h = insert-IsSorted j (union s t) (union-IsSorted s t h)

  pub contains-difference :
      (k : K) (s t : FrozenSet K)
      → contains k (difference s t) ≡ (contains k s && not (contains k t))
  unfolding difference
  contains-difference k [] t = ground (arith, contains-nil k)
  contains-difference k ((j, u) ∷ s) t = ground (
    arith,
    contains-difference k s t,
    contains-cons j k u s,
    contains-cons j k u (difference s t),
    o.cmp_eq j k,
  )

  pub contains-singleton : (j k : K) → contains k (singleton j) ≡ same j k
  contains-singleton j k = ground (arith, contains-cons j k tt [], contains-nil k)

  find_of_contains : (k : K) (s t : FrozenSet K) → contains k s ≡ contains k t → find k s ≡ find k t
  unfolding contains
  find_of_contains k s t h = ground arith

  -- Sets with the same elements are equal.
  pub FrozenSet-ext :
      (s t : FrozenSet K)
      → IsSorted s
      → IsSorted t
      → ((k : K) → contains k s ≡ contains k t)
      → s ≡ t
  FrozenSet-ext s t p q h = IsSorted-ext s t p q (λ k. find_of_contains k s t (h k))

  pub union_comm : (s t : FrozenSet K) → IsSorted s → IsSorted t → union s t ≡ union t s
  union_comm s t p q =
      FrozenSet-ext _ _ (union-IsSorted s t p) (union-IsSorted t s q)
        (λ k. ground (arith, contains-union k s t, contains-union k t s))

  pub union_assoc : (s t u : FrozenSet K) → IsSorted s → union (union s t) u ≡ union s (union t u)
  union_assoc s t u p =
      FrozenSet-ext _ _ (union-IsSorted (union s t) u (union-IsSorted s t p))
        (union-IsSorted s (union t u) p)
        (λ k. ground (
          arith,
          contains-union k (union s t) u,
          contains-union k s t,
          contains-union k s (union t u),
          contains-union k t u,
        ))

  pub union_self : (s : FrozenSet K) → IsSorted s → union s s ≡ s
  union_self s p =
      FrozenSet-ext _ _ (union-IsSorted s s p) p (λ k. ground (arith, contains-union k s s))

  pub union-nil_left : (s : FrozenSet K) → IsSorted s → union [] s ≡ s
  union-nil_left s p =
      FrozenSet-ext _ _ (union-IsSorted [] s tt) p
        (λ k. ground (arith, contains-union k [] s, contains-nil k))

  -- some element of the set; none of an empty one
  pub first_element : (s : FrozenSet K) → (s ≡ []) ⊎ ((k : K) × (contains k s ≡ true))
  first_element [] = inl refl
  first_element ((k, u) ∷ s) = inr (k, ground (arith, contains-cons k k u s, o.cmp_self k))
