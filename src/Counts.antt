-- ===== src/Counts.antt =====
-- The counter maps that version vectors and grow-only counters are made of: a tuple of items sorted
-- by key, with no zero count (causal/version_vector.py, crdt/gcounter.py share this code).
pub mod Laws
use advanced_distributed_sys.Base.{
  ℕ, zero, suc, ◌+◌, ◌<◌, Option, none, some, List, [], ◌∷◌, ◌++◌, All, max, ◌==◌, if◌then◌else◌,
  filter, not,
}
use advanced_distributed_sys.Base.Int.{ℤ, pos, negsuc}
use advanced_distributed_sys.Base.{Result, ok, raise, value_error}
use advanced_distributed_sys.Order.{Ord}
use advanced_distributed_sys.Sorted.{find, put, sort_items, dedup, IsSorted}
use advanced_distributed_sys.Sorted.Keys.{tabulate, keys}

-- the loop over the items that returns the count of the first match, or 0
abbrev pub count_or_zero : Option ℕ → ℕ
count_or_zero none = 0
count_or_zero (some n) = n

module _ {ℓ} {K : Type ℓ} ⦃o : Ord K⦄ where
  unfoldable pub get : List (K × ℕ) → K → ℕ
  get m k = count_or_zero (find k m)

  -- `if counter: normalized.append(...)`
  unfoldable pub nonzero : List (K × ℕ) → List (K × ℕ)
  nonzero [] = []
  nonzero ((k, n) ∷ d) = let rest = nonzero d in if n == 0 then rest else (k, n) ∷ rest

  -- the constructor, at counts that pass its guard
  unfoldable pub of_counts : List (K × ℕ) → List (K × ℕ)
  unfolding nonzero
  of_counts d = sort_items (nonzero d)

  -- the guard of the constructor over any integers
  unfoldable pub check_counts : List (K × ℤ) → Result (List (K × ℕ))
  check_counts [] = ok []
  check_counts ((k, negsuc n) ∷ d) = raise value_error
  check_counts ((k, pos n) ∷ d) = elim (check_counts d) [
    | ok rest ↦ ok ((k, n) ∷ rest)
    | raise e ↦ raise e
  ]

  -- `{actor for actor, _ in left} | {actor for actor, _ in right}`
  unfoldable pub all_keys : List (K × ℕ) → List (K × ℕ) → List K
  all_keys m n = dedup (keys m ++ keys n)

  unfoldable pub merge : List (K × ℕ) → List (K × ℕ) → List (K × ℕ)
  unfolding of_counts all_keys
  merge m n = of_counts (tabulate (λ k. max (get m k) (get n k)) (all_keys m n))

  abbrev pub IsCounts : List (K × ℕ) → Type 0
  IsCounts m = IsSorted m × All (λ e. 0 < e.1) m
