-- ===== src/Counts/Laws.antt =====
-- Counter maps as functions from keys to counts: what each operation does to every count, and that
-- a normalised map is determined by its counts.
use advanced_distributed_sys.Base.{
  ℕ, ◌<◌, ◌≡◌, refl, ap, ◌∙◌, false, ◌||◌, none, some, List, [], ◌∷◌, ◌++◌, arith, All, max, ◌==◌,
  if◌then◌else◌,
}
use advanced_distributed_sys.Order.{Ord, same}
use advanced_distributed_sys.Sorted.{find, put, sort_items, member, Distinct}
use advanced_distributed_sys.Sorted.Laws.{
  find-put, find-sort_items, put-Distinct, sort_items-IsSorted, IsSorted-ext, IsSorted-Distinct,
  All-insort,
}
use advanced_distributed_sys.Sorted.Keys.{
  tabulate, keys, find-tabulate, member-keys-none, member-append, member-dedup,
  tabulate-dedup-Distinct,
}
use advanced_distributed_sys.Counts.{
  get, count_or_zero, nonzero, of_counts, all_keys, merge, IsCounts,
}

module _ {ℓ} {K : Type ℓ} ⦃o : Ord K⦄ where
  find-nonzero-none : (k : K) (d : List (K × ℕ)) → find k d ≡ none → find k (nonzero d) ≡ none
  unfolding nonzero find
  find-nonzero-none k [] h = refl
  find-nonzero-none k ((j, n) ∷ d) h = ground (arith, find-nonzero-none k d)

  nonzero-Distinct : (d : List (K × ℕ)) → Distinct d → Distinct (nonzero d)
  unfolding nonzero
  nonzero-Distinct [] h = tt
  nonzero-Distinct ((j, n) ∷ d) h =
      ground (arith, nonzero-Distinct d h.1, find-nonzero-none j d h.0)

  nonzero-positive : (d : List (K × ℕ)) → All (λ e. 0 < e.1) (nonzero d)
  unfolding nonzero
  nonzero-positive [] = tt
  nonzero-positive ((j, n) ∷ d) = ground (arith, nonzero-positive d)

  get-nonzero : (k : K) (d : List (K × ℕ)) → Distinct d → get (nonzero d) k ≡ get d k
  unfolding nonzero get find
  get-nonzero k [] h = refl
  get-nonzero k ((j, n) ∷ d) h =
      ground (arith, get-nonzero k d h.1, o.cmp_eq j k, find-nonzero-none j d h.0)

  sort_items-positive :
      (d : List (K × ℕ)) → All (λ e. 0 < e.1) d → All (λ e. 0 < e.1) (sort_items d)
  unfolding sort_items
  sort_items-positive [] h = tt
  sort_items-positive (e ∷ d) h =
      All-insort (λ f. 0 < f.1) e (sort_items d) h.0 (sort_items-positive d h.1)

  pub of_counts-IsCounts : (d : List (K × ℕ)) → Distinct d → IsCounts (of_counts d)
  unfolding of_counts
  of_counts-IsCounts d h = (
    sort_items-IsSorted (nonzero d) (nonzero-Distinct d h),
    sort_items-positive (nonzero d) (nonzero-positive d),
  )

  get-sort_items : (k : K) (m : List (K × ℕ)) → get (sort_items m) k ≡ get m k
  unfolding get
  get-sort_items k m = ap count_or_zero (find-sort_items k m)

  pub get-of_counts : (k : K) (d : List (K × ℕ)) → Distinct d → get (of_counts d) k ≡ get d k
  unfolding of_counts
  get-of_counts k d h = get-sort_items k (nonzero d) ∙ get-nonzero k d h

  find-get :
      (k : K) (m : List (K × ℕ))
      → All (λ e. 0 < e.1) m
      → find k m ≡ (if get m k == 0 then none else some (get m k))
  unfolding get find
  find-get k [] h = refl
  find-get k ((j, n) ∷ m) h = ground (arith, find-get k m h.1)

  -- Normalised maps with the same counts are equal.
  pub IsCounts-ext :
      (m n : List (K × ℕ)) → IsCounts m → IsCounts n → ((k : K) → get m k ≡ get n k) → m ≡ n
  IsCounts-ext m n a b h =
      IsSorted-ext m n a.0 b.0 (λ k. ground (arith, find-get k m a.1, find-get k n b.1, h k))

  merged-Distinct : (f : K → ℕ) (m n : List (K × ℕ)) → Distinct (tabulate f (all_keys m n))
  unfolding all_keys
  merged-Distinct f m n = tabulate-dedup-Distinct f (keys m ++ keys n)

  pub merge-IsCounts : (m n : List (K × ℕ)) → IsCounts (merge m n)
  unfolding merge
  merge-IsCounts m n = of_counts-IsCounts _ (merged-Distinct _ m n)

  pub member-all_keys :
      (k : K) (m n : List (K × ℕ))
      → member k (all_keys m n) ≡ (member k (keys m) || member k (keys n))
  unfolding all_keys
  member-all_keys k m n = member-dedup k (keys m ++ keys n) ∙ member-append k (keys m) (keys n)

  pub get-absent : (k : K) (m : List (K × ℕ)) → member k (keys m) ≡ false → get m k ≡ 0
  unfolding get
  get-absent k m h = rw (member-keys-none k m h)

  get-tabulate :
      (f : K → ℕ) (k : K) (ks : List K) → get (tabulate f ks) k ≡ (if member k ks then f k else 0)
  unfolding get
  get-tabulate f k ks = ground (arith, find-tabulate f k ks)

  -- A merge takes the larger count of every key.
  pub get-merge : (m n : List (K × ℕ)) (k : K) → get (merge m n) k ≡ max (get m k) (get n k)
  unfolding merge
  get-merge m n k =
      get-of_counts k _ (merged-Distinct _ m n)
      ∙ get-tabulate _ k (all_keys m n)
      ∙ ground (arith, member-all_keys k m n, get-absent k m, get-absent k n)

  -- Raising the count of one key, as `with_dot` and `increment` do.
  pub get-put :
      (m : List (K × ℕ)) (j k : K) (n : ℕ) → get (put j n m) k ≡ (if same j k then n else get m k)
  unfolding get
  get-put m j k n = ground (arith, find-put j k n m)

  pub merge_comm : (m n : List (K × ℕ)) → merge m n ≡ merge n m
  merge_comm m n =
      IsCounts-ext _ _ (merge-IsCounts m n) (merge-IsCounts n m)
        (λ k. omega (arith, get-merge m n k, get-merge n m k))

  pub merge_assoc : (m n p : List (K × ℕ)) → merge (merge m n) p ≡ merge m (merge n p)
  merge_assoc m n p =
      IsCounts-ext _ _ (merge-IsCounts (merge m n) p) (merge-IsCounts m (merge n p)) (λ k. omega (
        arith,
        get-merge (merge m n) p k,
        get-merge m n k,
        get-merge m (merge n p) k,
        get-merge n p k,
      ))

  pub merge_self : (m : List (K × ℕ)) → IsCounts m → merge m m ≡ m
  merge_self m h = IsCounts-ext _ _ (merge-IsCounts m m) h (λ k. omega (arith, get-merge m m k))

  -- the dict that the constructor is given in `with_dot` and `increment`
  pub put-IsCounts :
      (m : List (K × ℕ)) (k : K) (n : ℕ) → IsCounts m → IsCounts (of_counts (put k n m))
  put-IsCounts m k n h = of_counts-IsCounts _ (put-Distinct k n m (IsSorted-Distinct m h.0))

  pub get-put_counts :
      (m : List (K × ℕ)) (j k : K) (n : ℕ)
      → IsCounts m
      → get (of_counts (put j n m)) k ≡ (if same j k then n else get m k)
  get-put_counts m j k n h =
      get-of_counts k _ (put-Distinct j n m (IsSorted-Distinct m h.0)) ∙ get-put m j k n
