-- ===== src/Sorted/Laws.antt =====
-- What a lookup finds in a dict after each operation, and that sorting keeps it.
use advanced_distributed_sys.Base.{
  ◌≡◌, refl, ◌∙◌, ap, true, none, some, List, [], ◌∷◌, arith, All, All-imp, Bool-cases, inl, inr,
  if◌then◌else◌,
}
use mathlib.Core.Path.{ap₂, subst}
use advanced_distributed_sys.Order.{Ord, ◌≺◌, same}
use advanced_distributed_sys.Sorted.{find, put, pop, insort, sort_items, Distinct, IsSorted}

module _ {ℓ} {K : Type ℓ} ⦃o : Ord K⦄ where
  pub same-eq : (j k : K) → same j k ≡ true → j ≡ k
  same-eq j k h = ground (arith, o.cmp_eq j k)

  pub same_self : (k : K) → same k k ≡ true
  same_self k = ground (arith, o.cmp_self k)

  pub same_comm : (j k : K) → same j k ≡ same k j
  same_comm j k = ground (arith, o.cmp_swap j k)

module _ {ℓ κ} {K : Type ℓ} {V : Type κ} ⦃o : Ord K⦄ where
  pub find-put :
      (k j : K) (v : V) (m : List (K × V))
      → find j (put k v m) ≡ (if same k j then some v else find j m)
  unfolding find put
  find-put k j v [] = refl
  find-put k j v ((i, w) ∷ m) = ground (
    arith,
    o.cmp_eq i k,
    o.cmp_eq i j,
    o.cmp_eq k j,
    o.cmp_self j,
    o.cmp_self k,
    o.cmp_self i,
    find-put k j v m,
  )

  pub find-insort :
      (e : K × V) (k : K) (m : List (K × V))
      → find k (insort e m) ≡ (if same e.0 k then some e.1 else find k m)
  unfolding find insort
  find-insort e k [] = refl
  find-insort e k (f ∷ m) =
      ground (arith, find-insort e k m, o.cmp_eq e.0 k, o.cmp_eq f.0 k, o.cmp_self k)

  -- a stable sort finds the same first entry
  pub find-sort_items : (k : K) (m : List (K × V)) → find k (sort_items m) ≡ find k m
  unfolding find sort_items
  find-sort_items k [] = refl
  find-sort_items k (e ∷ m) = ground (arith, find-insort e k (sort_items m), find-sort_items k m)

  pub put-Distinct : (k : K) (v : V) (m : List (K × V)) → Distinct m → Distinct (put k v m)
  unfolding put find
  put-Distinct k v [] h = (refl, tt)
  put-Distinct k v ((j, w) ∷ m) h =
      ground (arith, put-Distinct k v m h.1, find-put k j v m, o.cmp_swap j k)

  pub All-insort :
      (P : K × V → Type 0) (e : K × V) (m : List (K × V)) → P e → All P m → All P (insort e m)
  unfolding insort
  All-insort P e [] p h = (p, tt)
  All-insort P e (f ∷ m) p h = ground (arith, All-insort P e m p h.1)

  pub All-sort_items : (P : K × V → Type 0) (m : List (K × V)) → All P m → All P (sort_items m)
  unfolding sort_items
  All-sort_items P [] h = tt
  All-sort_items P (e ∷ m) h = All-insort P e (sort_items m) h.0 (All-sort_items P m h.1)

  -- a property of the values
  pub All-put :
      (P : V → Type 0) (k : K) (v : V) (m : List (K × V))
      → P v
      → All (λ e. P e.1) m
      → All (λ e. P e.1) (put k v m)
  unfolding put
  All-put P k v [] p h = (p, tt)
  All-put P k v ((j, w) ∷ m) p h = ground (arith, All-put P k v m p h.1)

  pub All-find :
      (P : V → Type 0) (k : K) (m : List (K × V)) {v : V}
      → All (λ e. P e.1) m
      → find k m ≡ some v
      → P v
  unfolding find
  All-find P k [] h e = cc
  All-find P k ((j, w) ∷ m) {v} h e = elim (Bool-cases (same j k)) [
    | inl q ↦ let here : w ≡ v = ground arith in subst P here h.0
    | inr q ↦ All-find P k m h.1 (ground arith)
  ]

  pub below_trans :
      (a b : K) (m : List (K × V)) → a ≺ b → All (λ f. b ≺ f.0) m → All (λ f. a ≺ f.0) m
  below_trans a b m p h = All-imp (λ f q. o.cmp_trans a b f.0 p q) m h

  pub insort-IsSorted :
      (e : K × V) (m : List (K × V)) → IsSorted m → find e.0 m ≡ none → IsSorted (insort e m)
  unfolding insort find
  insort-IsSorted e [] h n = (tt, tt)
  insort-IsSorted e (f ∷ m) h n = ground (
    arith,
    o.cmp_swap e.0 f.0,
    below_trans e.0 f.0 m,
    All-insort (λ g. f.0 ≺ g.0) e m,
    insort-IsSorted e m h.1,
  )

  pub sort_items-IsSorted : (m : List (K × V)) → Distinct m → IsSorted (sort_items m)
  unfolding sort_items
  sort_items-IsSorted [] h = tt
  sort_items-IsSorted (e ∷ m) h =
      insort-IsSorted e (sort_items m) (sort_items-IsSorted m h.1) (find-sort_items e.0 m ∙ h.0)

  pub find-below : (k : K) (m : List (K × V)) → All (λ f. k ≺ f.0) m → find k m ≡ none
  unfolding find
  find-below k [] h = refl
  find-below k (f ∷ m) h = ground (arith, o.cmp_swap k f.0, find-below k m h.1)

  pub IsSorted-Distinct : (m : List (K × V)) → IsSorted m → Distinct m
  IsSorted-Distinct [] h = tt
  IsSorted-Distinct (e ∷ m) h = (find-below e.0 m h.0, IsSorted-Distinct m h.1)

  pub find-pop :
      (k j : K) (m : List (K × V))
      → Distinct m
      → find j (pop k m) ≡ (if same k j then none else find j m)
  unfolding find pop
  find-pop k j [] h = ground arith
  find-pop k j ((i, w) ∷ m) h =
      ground (arith, o.cmp_eq i k, o.cmp_eq i j, o.cmp_eq k j, o.cmp_self j, find-pop k j m h.1)

  pub pop-Distinct : (k : K) (m : List (K × V)) → Distinct m → Distinct (pop k m)
  unfolding pop find
  pop-Distinct k [] h = tt
  pop-Distinct k ((j, w) ∷ m) h = ground (arith, pop-Distinct k m h.1, find-pop k j m h.1)

  find_lower_key :
      (a k : K) (m : List (K × V)) → All (λ f. a ≺ f.0) m → same a k ≡ true → find k m ≡ none
  find_lower_key a k m h e = find-below k m (rw (same-eq a k e) at h)

  find_tails :
      (e f : K × V) (m n : List (K × V))
      → e.0 ≡ f.0
      → IsSorted (e ∷ m)
      → IsSorted (f ∷ n)
      → (k : K) → find k (e ∷ m) ≡ find k (f ∷ n)
      → find k m ≡ find k n
  unfolding find
  find_tails e f m n p s t k h =
      ground (arith, find_lower_key e.0 k m s.0, find_lower_key f.0 k n t.0)

  below-none : (a b : K) (m : List (K × V)) → All (λ f. b ≺ f.0) m → a ≺ b → find a m ≡ none
  below-none a b m h p = find-below a m (below_trans a b m p h)

  -- the heads of two sorted lists with the same lookups have the same key
  find_heads :
      (e f : K × V) (m n : List (K × V))
      → IsSorted (e ∷ m)
      → IsSorted (f ∷ n)
      → find e.0 (e ∷ m) ≡ find e.0 (f ∷ n)
      → find f.0 (e ∷ m) ≡ find f.0 (f ∷ n)
      → (e ≡ f)
  unfolding find
  find_heads e f m n s t he hf = ground (
    arith,
    o.cmp_eq e.0 f.0,
    o.cmp_self e.0,
    o.cmp_self f.0,
    o.cmp_swap e.0 f.0,
    below-none e.0 f.0 n t.0,
    below-none f.0 e.0 m s.0,
  )

  -- Sorted items with the same lookups are the same tuple.
  pub IsSorted-ext :
      (m n : List (K × V)) → IsSorted m → IsSorted n → ((k : K) → find k m ≡ find k n) → m ≡ n
  unfolding find
  IsSorted-ext [] [] s t h = refl
  IsSorted-ext [] (f ∷ n) s t h = absurd (ground (arith, h f.0, o.cmp_self f.0))
  IsSorted-ext (e ∷ m) [] s t h = absurd (ground (arith, h e.0, o.cmp_self e.0))
  IsSorted-ext (e ∷ m) (f ∷ n) s t h =
      let heads : e ≡ f = find_heads e f m n s t (h e.0) (h f.0) in
      ap₂ ◌∷◌ heads (
        IsSorted-ext m n s.1 t.1
          (λ k. find_tails e f m n (ap (λ (g : K × V). g.0) heads) s t k (h k)))
