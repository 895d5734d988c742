-- ===== src/Sorted/Keys.antt =====
-- Sets of keys and dict comprehensions over them: `{k: f(k) for k in keys}`.
use advanced_distributed_sys.Base.{
  ◌≡◌, refl, false, not, ◌&&◌, ◌||◌, none, some, List, [], ◌∷◌, ◌++◌, arith, if◌then◌else◌,
}
use advanced_distributed_sys.Order.{Ord}
use advanced_distributed_sys.Sorted.{find, Distinct, member, dedup_from, dedup}

module _ {ℓ κ} {K : Type ℓ} {V : Type κ} ⦃o : Ord K⦄ where
  -- the dict comprehension
  abbrev pub tabulate : (K → V) → List K → List (K × V)
  tabulate f [] = []
  tabulate f (k ∷ ks) = (k, f k) ∷ tabulate f ks

  abbrev pub keys : List (K × V) → List K
  keys [] = []
  keys ((k, v) ∷ m) = k ∷ keys m

  pub find-tabulate :
      (f : K → V) (k : K) (ks : List K)
      → find k (tabulate f ks) ≡ (if member k ks then some (f k) else none)
  unfolding find member
  find-tabulate f k [] = refl
  find-tabulate f k (j ∷ ks) = ground (arith, find-tabulate f k ks, o.cmp_eq j k)

  pub member-keys-none : (k : K) (m : List (K × V)) → member k (keys m) ≡ false → find k m ≡ none
  unfolding find member
  member-keys-none k [] h = refl
  member-keys-none k ((j, v) ∷ m) h = ground (arith, member-keys-none k m)

module _ {ℓ} {K : Type ℓ} ⦃o : Ord K⦄ where
  pub member-append : (k : K) (xs ys : List K) → member k (xs ++ ys) ≡ (member k xs || member k ys)
  unfolding member
  member-append k [] ys = refl
  member-append k (x ∷ xs) ys = ground (arith, member-append k xs ys)

  member-dedup_from :
      (k : K) (seen ks : List K)
      → member k (dedup_from seen ks) ≡ (member k ks && not (member k seen))
  unfolding member dedup_from
  member-dedup_from k seen [] = refl
  member-dedup_from k seen (j ∷ ks) =
      ground (arith, member-dedup_from k seen ks, member-dedup_from k (j ∷ seen) ks, o.cmp_eq j k)

  pub member-dedup : (k : K) (ks : List K) → member k (dedup ks) ≡ member k ks
  unfolding dedup member
  member-dedup k ks = ground (arith, member-dedup_from k [] ks)

module _ {ℓ κ} {K : Type ℓ} {V : Type κ} ⦃o : Ord K⦄ (f : K → V) where
  seen_once : (j : K) (seen ks : List K) → find j (tabulate f (dedup_from (j ∷ seen) ks)) ≡ none
  unfolding member
  seen_once j seen ks = ground (
    arith,
    find-tabulate f j (dedup_from (j ∷ seen) ks),
    member-dedup_from j (j ∷ seen) ks,
    o.cmp_self j,
  )

  tabulate-dedup_from-Distinct : (seen ks : List K) → Distinct (tabulate f (dedup_from seen ks))
  unfolding dedup_from
  tabulate-dedup_from-Distinct seen [] = tt
  tabulate-dedup_from-Distinct seen (j ∷ ks) = ground (
    arith,
    tabulate-dedup_from-Distinct seen ks,
    tabulate-dedup_from-Distinct (j ∷ seen) ks,
    seen_once j seen ks,
  )

  pub tabulate-dedup-Distinct : (ks : List K) → Distinct (tabulate f (dedup ks))
  unfolding dedup
  tabulate-dedup-Distinct ks = tabulate-dedup_from-Distinct [] ks
