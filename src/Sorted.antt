-- ===== src/Sorted.antt =====
-- Python's built-in containers where the sources use them: a `dict` in insertion order, `sorted`
-- over its items, and a `set` of keys. The children hold the laws.
pub mod Laws
pub mod Keys
pub mod FrozenSet
pub mod Stable
use Prim.Native.Nat.{Ordering}
use advanced_distributed_sys.Base.{
  ◌≡◌, Bool, true, false, Option, none, some, List, [], ◌∷◌, ◌||◌, All, if◌then◌else◌,
}
use advanced_distributed_sys.Order.{Ord, ◌≺◌, same}

module _ {ℓ κ} {K : Type ℓ} {V : Type κ} ⦃o : Ord K⦄ where
  -- the value of the first entry with the key
  unfoldable pub find : K → List (K × V) → Option V
  find k [] = none
  find k ((j, v) ∷ m) = if same j k then some v else find k m

  -- `d[k] = v`: in place, or behind the other entries
  unfoldable pub put : K → V → List (K × V) → List (K × V)
  put k v [] = (k, v) ∷ []
  put k v ((j, w) ∷ m) = if same j k then (j, v) ∷ m else (j, w) ∷ put k v m

  -- `d.pop(k, None)`
  unfoldable pub pop : K → List (K × V) → List (K × V)
  pop k [] = []
  pop k ((j, w) ∷ m) = if same j k then m else (j, w) ∷ pop k m

  -- one step of a stable sort by key
  unfoldable pub insort : K × V → List (K × V) → List (K × V)
  insort e [] = e ∷ []
  insort e (f ∷ m) = elim (o.cmp e.0 f.0) [ Ordering.gt ↦ f ∷ insort e m | _ ↦ e ∷ f ∷ m ]

  -- `sorted(items, key=lambda item: item[0])`
  unfoldable pub sort_items : List (K × V) → List (K × V)
  sort_items [] = []
  sort_items (e ∷ m) = insort e (sort_items m)

  -- no key is listed twice, as in a dict
  abbrev pub Distinct : List (K × V) → Type κ
  Distinct [] = Unit {κ}
  Distinct ((k, v) ∷ m) = (find k m ≡ none) × Distinct m

  -- keys in strictly rising order, as in the tuple that `sorted` makes of a dict's items
  abbrev pub IsSorted : List (K × V) → Type 0
  IsSorted [] = Unit {0}
  IsSorted (e ∷ m) = All (λ f. e.0 ≺ f.0) m × IsSorted m

module _ {ℓ} {K : Type ℓ} ⦃o : Ord K⦄ where
  -- `k in keys`
  unfoldable pub member : K → List K → Bool
  member k [] = false
  member k (j ∷ ks) = same j k || member k ks

  -- the elements in the order of their first mention: a `set` comprehension, `dict.fromkeys`
  unfoldable pub dedup_from : List K → List K → List K
  dedup_from seen [] = []
  dedup_from seen (k ∷ ks) =
      let fresh = k ∷ dedup_from (k ∷ seen) ks in
      let rest = dedup_from seen ks in if member k seen then rest else fresh

  unfoldable pub dedup : List K → List K
  unfolding dedup_from
  dedup ks = dedup_from [] ks
