-- ===== src/Sorted/Stable.antt =====
-- `sorted` with a key that may repeat: it is stable, so that leaving items out before or after the sort
-- is the same.
use Prim.Native.Nat.{Ordering}
use advanced_distributed_sys.Base.{
  ◌≡◌, refl, Bool, true, false, List, [], ◌∷◌, All, All-imp, All-filter, filter, arith,
  if◌then◌else◌, Bool-cases, inl, inr,
}
use advanced_distributed_sys.Order.{Ord}
use advanced_distributed_sys.Sorted.{insort, sort_items}
use advanced_distributed_sys.Sorted.Laws.{All-insort}

abbrev pub is_above : Ordering → Bool
is_above Ordering.gt = true
is_above _ = false

module _ {ℓ} {K : Type ℓ} ⦃o : Ord K⦄ where
  not_above_trans :
      (x y z : K)
      → is_above (o.cmp x y) ≡ false
      → is_above (o.cmp y z) ≡ false
      → is_above (o.cmp x z) ≡ false
  not_above_trans x y z h k =
      grind (arith, o.cmp_eq x y, o.cmp_eq y z, o.cmp_trans x y z, o.cmp_self x)

  above_swap : (x y : K) → is_above (o.cmp x y) ≡ true → is_above (o.cmp y x) ≡ false
  above_swap x y h = grind (arith, o.cmp_swap x y)

module _ {ℓ κ} {K : Type ℓ} {V : Type κ} ⦃o : Ord K⦄ where
  -- nothing is above `e`
  abbrev pub Least : K × V → List (K × V) → Type 0
  Least e m = All (λ f. is_above (o.cmp e.0 f.0) ≡ false) m

  -- no item stands behind one with a greater key
  abbrev pub Rising : List (K × V) → Type 0
  Rising [] = Unit {0}
  Rising (e ∷ m) = Least e m × Rising m

  Least-trans :
      (e f : K × V) (m : List (K × V)) → is_above (o.cmp e.0 f.0) ≡ false → Least f m → Least e m
  Least-trans e f m h l = All-imp (λ g k. not_above_trans e.0 f.0 g.0 h k) m l

  insort-above :
      (e f : K × V) (m : List (K × V))
      → is_above (o.cmp e.0 f.0) ≡ true
      → insort e (f ∷ m) ≡ f ∷ insort e m
  unfolding insort
  insort-above e f m h = ground arith

  insort-Least : (e : K × V) (m : List (K × V)) → Least e m → insort e m ≡ e ∷ m
  unfolding insort
  insort-Least e [] l = refl
  insort-Least e (f ∷ m) l = let b = l.0 in ground arith

  insort-Rising : (e : K × V) (m : List (K × V)) → Rising m → Rising (insort e m)
  unfolding insort
  insort-Rising e [] h = (tt, tt)
  insort-Rising e (f ∷ m) h = elim (Bool-cases (is_above (o.cmp e.0 f.0))) [
    | inl a ↦ rw (insort-above e f m a) (
      All-insort (λ g. is_above (o.cmp f.0 g.0) ≡ false) e m (above_swap e.0 f.0 a) h.0,
      insort-Rising e m h.1,
    )
    | inr b ↦
        let l : Least e (f ∷ m) = (b, Least-trans e f m b h.0) in
        rw (insort-Least e (f ∷ m) l) (l, h)
  ]

  pub sort_items-Rising : (m : List (K × V)) → Rising (sort_items m)
  unfolding sort_items
  sort_items-Rising [] = tt
  sort_items-Rising (e ∷ m) = insort-Rising e (sort_items m) (sort_items-Rising m)

  filter-insort :
      (p : K × V → Bool) (e : K × V) (m : List (K × V))
      → Rising m
      → filter p (insort e m) ≡ (if p e then insort e (filter p m) else filter p m)
  unfolding insort
  filter-insort p e [] h = refl
  filter-insort p e (f ∷ m) h = elim (Bool-cases (is_above (o.cmp e.0 f.0))) [
    | inl a ↦
        rw (insort-above e f m a)
          (ground (arith, filter-insort p e m h.1, insort-above e f (filter p m) a))
    | inr b ↦
        let l : Least e (f ∷ m) = (b, Least-trans e f m b h.0) in
        let q =
          insort-Least e (filter p (f ∷ m))
            (All-filter (λ g. is_above (o.cmp e.0 g.0) ≡ false) p (f ∷ m) l) in
        rw (insort-Least e (f ∷ m) l) (ground (arith, q))
  ]

  pub filter-sort_items :
      (p : K × V → Bool) (m : List (K × V)) → filter p (sort_items m) ≡ sort_items (filter p m)
  unfolding sort_items
  filter-sort_items p [] = refl
  filter-sort_items p (e ∷ m) =
      rw (filter-insort p e (sort_items m) (sort_items-Rising m), filter-sort_items p m)
        (ground arith)
