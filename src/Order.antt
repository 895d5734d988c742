-- ===== src/Order.antt =====
-- The order that `sorted` and dictionary keys rest on: Python's order on numbers, on texts (by
-- code points) and on tuples, with what makes it a total order.
use Prim.Native.Nat.{compare, Ordering}
use Prim.Native.Nat.Ordering.{lt, eq, gt}
use advanced_distributed_sys.Base.{ℕ, ◌≡◌, refl, Bool, true, false, List, [], ◌∷◌, arith}

abbrev pub swap : Ordering → Ordering
swap lt = gt
swap eq = eq
swap gt = lt

-- A comparison that is total, antisymmetric up to `≡`, and transitive.
pub record IsTotal {ℓ} {K : Type ℓ} (cmp : K → K → Ordering) : Type ℓ where
  pub cmp_self : (a : K) → cmp a a ≡ eq
  pub cmp_eq : (a b : K) → cmp a b ≡ eq → a ≡ b
  pub cmp_swap : (a b : K) → cmp b a ≡ swap (cmp a b)
  pub cmp_trans : (x y z : K) → cmp x y ≡ lt → cmp y z ≡ lt → cmp x z ≡ lt

pub record Ord {ℓ} (K : Type ℓ) : Type ℓ where
  pub cmp : K → K → Ordering
  pub total : IsTotal cmp
  pub open total use *

-- `a == b` on keys
abbrev pub same {ℓ} : {K : Type ℓ} ⦃o : Ord K⦄ → K → K → Bool
same ⦃o⦄ a b = elim (o.cmp a b) [ eq ↦ true | _ ↦ false ]

infix 50 ◌≺◌
abbrev pub ◌≺◌ {κ} : {J : Type κ} ⦃order : Ord J⦄ (i j : J) → Type 0
◌≺◌ ⦃order⦄ i j = order.cmp i j ≡ lt

pub compare-IsTotal : IsTotal compare
compare-IsTotal = ground arith

instance unfoldable pub nat_ord : Ord ℕ
nat_ord = record { cmp = compare; total = compare-IsTotal }

-- the second comparison decides where the first one ties
abbrev pub then_by : Ordering → Ordering → Ordering
then_by lt o = lt
then_by eq o = o
then_by gt o = gt

module _ {ℓ κ} {A : Type ℓ} {B : Type κ} ⦃a : Ord A⦄ ⦃b : Ord B⦄ where
  abbrev pub pair_cmp : A × B → A × B → Ordering
  pair_cmp x y = then_by (a.cmp x.0 y.0) (b.cmp x.1 y.1)

  pair_cmp_trans : (x y z : A × B) → pair_cmp x y ≡ lt → pair_cmp y z ≡ lt → pair_cmp x z ≡ lt
  pair_cmp_trans x y z =
      grind (
        arith,
        a.cmp_eq x.0 y.0,
        a.cmp_eq y.0 z.0,
        a.cmp_trans x.0 y.0 z.0,
        b.cmp_trans x.1 y.1 z.1,
      )

  pub pair_cmp-IsTotal : IsTotal {K = A × B} pair_cmp
  pair_cmp-IsTotal = record {
    cmp_self = λ x. simp (a.cmp_self, b.cmp_self);
    cmp_eq = λ x y. ground (arith, a.cmp_eq x.0 y.0, b.cmp_eq x.1 y.1);
    cmp_swap = λ x y. ground (arith, a.cmp_swap x.0 y.0, b.cmp_swap x.1 y.1);
    cmp_trans = pair_cmp_trans;
  }

  instance unfoldable pub pair_ord : Ord (A × B)
  pair_ord = record { cmp = pair_cmp; total = pair_cmp-IsTotal }

module _ {ℓ} {A : Type ℓ} ⦃a : Ord A⦄ where
  abbrev pub list_cmp : List A → List A → Ordering
  list_cmp [] [] = eq
  list_cmp [] (y ∷ ys) = lt
  list_cmp (x ∷ xs) [] = gt
  list_cmp (x ∷ xs) (y ∷ ys) = let rest = list_cmp xs ys in then_by (a.cmp x y) rest

  list_cmp_self : (xs : List A) → list_cmp xs xs ≡ eq
  list_cmp_self [] = refl
  list_cmp_self (x ∷ xs) = ground (arith, a.cmp_self x, list_cmp_self xs)

  list_cmp-eq : (xs ys : List A) → list_cmp xs ys ≡ eq → xs ≡ ys
  list_cmp-eq [] [] h = refl
  list_cmp-eq [] (y ∷ ys) h = cc
  list_cmp-eq (x ∷ xs) [] h = cc
  list_cmp-eq (x ∷ xs) (y ∷ ys) h = ground (arith, a.cmp_eq x y, list_cmp-eq xs ys)

  list_cmp-swap : (xs ys : List A) → list_cmp ys xs ≡ swap (list_cmp xs ys)
  list_cmp-swap [] [] = refl
  list_cmp-swap [] (y ∷ ys) = refl
  list_cmp-swap (x ∷ xs) [] = refl
  list_cmp-swap (x ∷ xs) (y ∷ ys) = ground (arith, a.cmp_swap x y, list_cmp-swap xs ys)

  list_cmp_trans :
      (xs ys zs : List A) → list_cmp xs ys ≡ lt → list_cmp ys zs ≡ lt → list_cmp xs zs ≡ lt
  list_cmp_trans [] [] zs p q = cc
  list_cmp_trans [] (y ∷ ys) [] p q = cc
  list_cmp_trans [] (y ∷ ys) (z ∷ zs) p q = refl
  list_cmp_trans (x ∷ xs) [] zs p q = cc
  list_cmp_trans (x ∷ xs) (y ∷ ys) [] p q = cc
  list_cmp_trans (x ∷ xs) (y ∷ ys) (z ∷ zs) p q =
      grind (arith, a.cmp_eq x y, a.cmp_eq y z, a.cmp_trans x y z, list_cmp_trans xs ys zs)

  pub list_cmp-IsTotal : IsTotal list_cmp
  list_cmp-IsTotal = record {
    cmp_self = list_cmp_self;
    cmp_eq = list_cmp-eq;
    cmp_swap = list_cmp-swap;
    cmp_trans = list_cmp_trans;
  }

  instance unfoldable pub list_ord : Ord (List A)
  list_ord = record { cmp = list_cmp; total = list_cmp-IsTotal }

-- The order of a class that compares by a tuple of its fields.
module _ {ℓ κ} {A : Type ℓ} {B : Type κ} (key : A → B) ⦃b : Ord B⦄ where
  pub key_cmp-IsTotal : ((x y : A) → key x ≡ key y → x ≡ y) → IsTotal (λ x y. b.cmp (key x) (key y))
  key_cmp-IsTotal inj = record {
    cmp_self = λ x. b.cmp_self (key x);
    cmp_eq = λ x y h. inj x y (b.cmp_eq (key x) (key y) h);
    cmp_swap = λ x y. b.cmp_swap (key x) (key y);
    cmp_trans = λ x y z. b.cmp_trans (key x) (key y) (key z);
  }

-- A Python `str`: its code points.
abbrev pub Str : Type 0
Str = List ℕ

-- its order, by name
abbrev pub str_ord : Ord Str
str_ord = list_ord {A = ℕ} ⦃a = nat_ord⦄
