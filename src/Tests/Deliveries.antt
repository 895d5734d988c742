-- ===== src/Tests/Deliveries.antt =====
-- Two deliveries of the same two states: in another order, and with one of them twice.
use mathlib.Core.List.{[], ◌∷◌, Memᴰ}
use mathlib.Core.List.Memᴰ.{head, tail}

module _ {ℓ} {A : Type ℓ} (x y : A) where
  pub once_in_twice : (z : A) → Memᴰ z (x ∷ y ∷ []) → Memᴰ z (y ∷ x ∷ y ∷ [])
  once_in_twice z (head e) = tail (head e)
  once_in_twice z (tail (head e)) = head e
  once_in_twice z (tail (tail m)) = elim m [ ]

  pub twice_in_once : (z : A) → Memᴰ z (y ∷ x ∷ y ∷ []) → Memᴰ z (x ∷ y ∷ [])
  twice_in_once z (head e) = tail (head e)
  twice_in_once z (tail (head e)) = head e
  twice_in_once z (tail (tail (head e))) = tail (head e)
  twice_in_once z (tail (tail (tail m))) = elim m [ ]
