-- ===== src/Crdt/Semilattice.antt =====
-- crdt/base.py: what replication asks of a CRDT's `merge`, and what it gives. The laws are those of
-- a join-semilattice on the valid states.
use advanced_distributed_sys.Base.{◌≡◌, refl, sym, ap, ◌∙◌, List, [], ◌∷◌, All}
use mathlib.Core.List.{Memᴰ}
use mathlib.Core.Path.{subst}

pub record Semilattice {ℓ} (S : Type ℓ) : Type (ℓ + 1) where
  pub merge : S → S → S
  pub Valid : S → Type 0
  pub merge-Valid : (s t : S) → Valid s → Valid t → Valid (merge s t)
  pub merge_comm : (s t : S) → Valid s → Valid t → merge s t ≡ merge t s
  pub merge_assoc :
      (s t u : S) → Valid s → Valid t → Valid u → merge (merge s t) u ≡ merge s (merge t u)
  pub merge_self : (s : S) → Valid s → merge s s ≡ s

module _ {ℓ} {S : Type ℓ} (l : Semilattice S) where
  open l use {merge, Valid, merge-Valid, merge_comm, merge_assoc, merge_self}

  -- a replica's state after the deliveries, the first one first
  pub deliver : S → List S → S
  deliver s [] = s
  deliver s (x ∷ xs) = deliver (merge s x) xs

  pub deliver-Valid : (s : S) (xs : List S) → Valid s → All Valid xs → Valid (deliver s xs)
  unfolding deliver
  deliver-Valid s [] p h = p
  deliver-Valid s (x ∷ xs) p h = deliver-Valid (merge s x) xs (merge-Valid s x p h.0) h.1

  deliver-merge :
      (s t : S) (xs : List S)
      → Valid s
      → Valid t
      → All Valid xs
      → deliver (merge s t) xs ≡ merge s (deliver t xs)
  unfolding deliver
  deliver-merge s t [] p q h = refl
  deliver-merge s t (x ∷ xs) p q h =
      ap (λ (u : S). deliver u xs) (merge_assoc s t x p q h.0)
      ∙ deliver-merge s (merge t x) xs p (merge-Valid t x q h.0) h.1

  -- a state is at or below another
  abbrev pub ◌⊑◌ : S → S → Type ℓ
  ◌⊑◌ s t = merge s t ≡ t

  infix 50 ◌⊑◌
  ⊑_trans : (s t u : S) → Valid s → Valid t → Valid u → s ⊑ t → t ⊑ u → s ⊑ u
  ⊑_trans s t u p q r h k =
      ap (merge s) (sym k) ∙ sym (merge_assoc s t u p q r) ∙ ap (λ (x : S). merge x u) h ∙ k

  ⊑_antisymm : (s t : S) → Valid s → Valid t → s ⊑ t → t ⊑ s → s ≡ t
  ⊑_antisymm s t p q h k = sym k ∙ merge_comm t s q p ∙ h

  ⊑-merge_left : (s t : S) → Valid s → Valid t → s ⊑ merge s t
  ⊑-merge_left s t p q = sym (merge_assoc s s t p p q) ∙ ap (λ (x : S). merge x t) (merge_self s p)

  ⊑-merge_right : (s t : S) → Valid s → Valid t → t ⊑ merge s t
  ⊑-merge_right s t p q = subst (λ (x : S). t ⊑ x) (merge_comm t s q p) (⊑-merge_left t s q p)

  merge_least : (s t u : S) → Valid s → Valid t → Valid u → s ⊑ u → t ⊑ u → merge s t ⊑ u
  merge_least s t u p q r h k = merge_assoc s t u p q r ∙ ap (merge s) k ∙ h

  -- the start and every delivery are at or below the result, and the result is the least such state
  deliver-above : (s : S) (xs : List S) → Valid s → All Valid xs → s ⊑ deliver s xs
  unfolding deliver
  deliver-above s [] p h = merge_self s p
  deliver-above s (x ∷ xs) p h =
      ⊑_trans s (merge s x) (deliver (merge s x) xs) p (merge-Valid s x p h.0)
        (deliver-Valid (merge s x) xs (merge-Valid s x p h.0) h.1) (⊑-merge_left s x p h.0)
        (deliver-above (merge s x) xs (merge-Valid s x p h.0) h.1)

  deliver-above_each :
      (s : S) (xs : List S) → Valid s → All Valid xs → All (λ x. x ⊑ deliver s xs) xs
  unfolding deliver
  deliver-above_each s [] p h = tt
  deliver-above_each s (x ∷ xs) p h = (
    ⊑_trans x (merge s x) (deliver (merge s x) xs) h.0 (merge-Valid s x p h.0)
        (deliver-Valid (merge s x) xs (merge-Valid s x p h.0) h.1) (⊑-merge_right s x p h.0)
        (deliver-above (merge s x) xs (merge-Valid s x p h.0) h.1),
    deliver-above_each (merge s x) xs (merge-Valid s x p h.0) h.1,
  )

  deliver-least :
      (s u : S) (xs : List S)
      → Valid s
      → Valid u
      → All Valid xs
      → s ⊑ u
      → All (λ x. x ⊑ u) xs
      → deliver s xs ⊑ u
  unfolding deliver
  deliver-least s u [] p q h a b = a
  deliver-least s u (x ∷ xs) p q h a b =
      deliver-least (merge s x) u xs (merge-Valid s x p h.0) q h.1 (merge_least s x u p h.0 q a b.0)
        b.1

  mem-All {κ} : (P : S → Type κ) {x : S} {xs : List S} → All P xs → Memᴰ x xs → P x
  mem-All P h (Memᴰ.head e) = subst P (sym e) h.0
  mem-All P h (Memᴰ.tail m) = mem-All P h.1 m

  All-of-mem {κ} : {P : S → Type κ} (xs : List S) → ((x : S) → Memᴰ x xs → P x) → All P xs
  All-of-mem [] f = tt
  All-of-mem (x ∷ xs) f = (f x (Memᴰ.head refl), All-of-mem xs (λ y m. f y (Memᴰ.tail m)))

  deliver-le_of_mem :
      (s : S) (xs ys : List S)
      → Valid s
      → All Valid xs
      → All Valid ys
      → ((x : S) → Memᴰ x xs → Memᴰ x ys)
      → deliver s xs ⊑ deliver s ys
  deliver-le_of_mem s xs ys p h k sub =
      deliver-least s (deliver s ys) xs p (deliver-Valid s ys p k) h (deliver-above s ys p k)
        (All-of-mem xs (λ x m. mem-All _ (deliver-above_each s ys p k) (sub x m)))

  -- Strong convergence: two replicas that start alike and are delivered the same states, in any
  -- order and any number of times each, end in the same state.
  pub deliver-converges :
      (s : S) (xs ys : List S)
      → Valid s
      → All Valid xs
      → All Valid ys
      → ((x : S) → Memᴰ x xs → Memᴰ x ys)
      → ((x : S) → Memᴰ x ys → Memᴰ x xs)
      → deliver s xs ≡ deliver s ys
  deliver-converges s xs ys p h k sub sup =
      ⊑_antisymm (deliver s xs) (deliver s ys) (deliver-Valid s xs p h) (deliver-Valid s ys p k)
        (deliver-le_of_mem s xs ys p h k sub) (deliver-le_of_mem s ys xs p k h sup)
