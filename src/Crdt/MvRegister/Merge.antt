-- ===== src/Crdt/MvRegister/Merge.antt =====
-- The merge of two registers: it raises exactly where one dot has two texts, and otherwise joins.
use advanced_distributed_sys.Base.{
  ◌≡◌, refl, sym, ap, ◌∙◌, ◌⊎◌, inl, inr, false, List, [], ◌∷◌, Option, none, some, Result, ok,
  raise, value_error, Bool-cases, Option-cases, ◌>>=◌, arith,
}
use mathlib.Core.Path.{ap₂}
use advanced_distributed_sys.Order.{Str, str_ord, list_ord, nat_ord, same}
use advanced_distributed_sys.Sorted.{find, put, Distinct}
use advanced_distributed_sys.Sorted.Laws.{
  find-put, find-sort_items, put-Distinct, sort_items-IsSorted, IsSorted-ext, IsSorted-Distinct,
}
use advanced_distributed_sys.Sorted.FrozenSet
use advanced_distributed_sys.Sorted.FrozenSet.{
  FrozenSet, union-IsSorted, union_comm, union_assoc, union_self,
}
use advanced_distributed_sys.Causal.Actor.{Dot, dot_ord}
use advanced_distributed_sys.Crdt.MvRegister.{MvRegister, IsValid, make, merge_values, merge}

abbrev Items : Type 0
Items = List (Dot × Str)

-- one dot with two texts
pub record Clash (m n : Items) : Type 0 where
  pub dot : Dot
  pub left : Str
  pub right : Str
  pub in_left : find dot m ≡ some left
  pub in_right : find dot n ≡ some right
  pub differ : same left right ≡ false

abbrev pub Agree : Items → Items → Type 0
Agree m n = (d : Dot) (x y : Str) → find d m ≡ some x → find d n ≡ some y → x ≡ y

abbrev pub or_else : Option Str → Option Str → Option Str
or_else none o = o
or_else (some x) o = some x

-- What the loop gives.
abbrev pub Joins : Items → Items → Result Items → Type 0
Joins m n (raise e) = (e ≡ value_error) × Clash m n
Joins m n (ok p) =
    Agree m n × ((d : Dot) → find d p ≡ or_else (find d m) (find d n)) × (Distinct m → Distinct p)

Joins-here :
    (m n : Items) (d : Dot) (x : Str) (r : Result Items)
    → Distinct ((d, x) ∷ n)
    → (find d m ≡ none) ⊎ (find d m ≡ some x)
    → Joins (put d x m) n r
    → Joins m ((d, x) ∷ n) r
unfolding find
Joins-here m n d x (raise e) h k (value, c) = (
  value,
  record {
    dot = c.dot;
    left = c.left;
    right = c.right;
    in_left = ground (arith, c.in_left, c.in_right, find-put d c.dot x m, dot_ord.cmp_eq d c.dot);
    in_right = ground (arith, c.in_right, dot_ord.cmp_eq d c.dot);
    differ = c.differ;
  },
)
Joins-here m n d x (ok p) h k (agree, found, distinct) = (
  λ e y z a b. ground (arith, agree e y z, find-put d e x m, dot_ord.cmp_eq d e),
  λ e. ground (arith, found e, find-put d e x m, dot_ord.cmp_eq d e),
  λ q. distinct (put-Distinct d x m q),
)

-- The loop raises `ValueError` on a dot with two texts, and otherwise holds what either side holds.
merge_values-Joins : (m n : Items) → Distinct n → Joins m n (merge_values m n)
unfolding merge_values
merge_values-Joins m [] h =
    (λ d x y a b. unfold find in (cc), λ d. unfold find in (ground arith), λ q. q)
merge_values-Joins m ((d, x) ∷ n) h = elim (Option-cases (find d m)) [
  | inl e ↦
      rw (e, merge_values) (Joins-here m n d x _ h (inl e) (merge_values-Joins (put d x m) n h.1))
  | inr (y, e) ↦ elim (Bool-cases (same y x)) [
    | inl q ↦
        rw (e, q, merge_values)
          (Joins-here m n d x _ h (inr (e ∙ ap some (str_ord.cmp_eq y x (ground arith))))
            (merge_values-Joins (put d x m) n h.1))
    | inr q ↦
        rw (e, q, merge_values)
          (
            refl,
            record {
              dot = d;
              left = y;
              right = x;
              in_left = e;
              in_right = unfold find in ground (arith, dot_ord.cmp_self d);
              differ = q;
            },
          )
  ]
]

-- What `merge` gives: `ValueError` where one dot has two texts, and otherwise a valid register that
-- holds what either side holds and has superseded what either side has.
abbrev pub Merges : MvRegister → MvRegister → Result MvRegister → Type 0
Merges r s (raise e) = (e ≡ value_error) × Clash r.entries s.entries
Merges r s (ok t) =
    Agree r.entries s.entries
    × ((d : Dot) → find d t.entries ≡ or_else (find d r.entries) (find d s.entries))
    × (t.superseded ≡ FrozenSet.union r.superseded s.superseded)
    × IsValid t

made-Merges :
    (r s : MvRegister) (v : Result Items)
    → IsValid r
    → IsValid s
    → Joins r.entries s.entries v
    → Merges r s (v >>= λ values. ok (make values (FrozenSet.union r.superseded s.superseded)))
unfolding make
made-Merges r s (raise e) p q j = j
made-Merges r s (ok m) p q (agree, found, distinct) = (
  agree,
  λ d. find-sort_items d m ∙ found d,
  refl,
  record {
    sorted = sort_items-IsSorted m (distinct (IsSorted-Distinct r.entries p.sorted));
    superseded = union-IsSorted r.superseded s.superseded p.superseded;
  },
)

-- The merge of two valid registers raises `ValueError` exactly where they give one dot two texts, and
-- else is a valid register that holds each text that either side holds and has superseded what either
-- side has.
pub merge-Merges : (r s : MvRegister) → IsValid r → IsValid s → Merges r s (merge r s)
unfolding merge
merge-Merges r s p q =
    made-Merges r s _ p q
      (merge_values-Joins r.entries s.entries (IsSorted-Distinct s.entries q.sorted))

of_parts : Items → FrozenSet Dot → MvRegister
of_parts m s = record { entries = m; superseded = s }

pub ext :
    (r s : MvRegister)
    → IsValid r
    → IsValid s
    → ((d : Dot) → find d r.entries ≡ find d s.entries)
    → r.superseded ≡ s.superseded
    → r ≡ s
unfolding of_parts
ext r s p q h k = ap₂ of_parts (IsSorted-ext r.entries s.entries p.sorted q.sorted h) k

pub Clash-of-Agree : (m n : Items) → Agree m n → ¬ Clash m n
Clash-of-Agree m n h c =
    let e : c.left ≡ c.right = h c.dot c.left c.right c.in_left c.in_right in
    absurd (ground (arith, c.differ, str_ord.cmp_self c.right))

Agree-swap : (m n : Items) → Agree m n → Agree n m
Agree-swap m n h d x y p q = sym (h d y x q p)

or_else_comm :
    (a b : Option Str) → ((x y : Str) → a ≡ some x → b ≡ some y → x ≡ y) → or_else a b ≡ or_else b a
or_else_comm none none h = refl
or_else_comm none (some y) h = refl
or_else_comm (some x) none h = refl
or_else_comm (some x) (some y) h = ap some (h x y refl refl)

Merges-alike :
    (r s : MvRegister) (a b : Result MvRegister)
    → IsValid r
    → IsValid s
    → Merges r s a
    → Merges s r b
    → a ≡ b
Merges-alike r s (raise e) (raise f) p q h k = cc (h.0, k.0)
Merges-alike r s (raise e) (ok t) p q h k = absurd (Clash-of-Agree _ _ (Agree-swap _ _ k.0) h.1)
Merges-alike r s (ok t) (raise f) p q h k = absurd (Clash-of-Agree _ _ (Agree-swap _ _ h.0) k.1)
Merges-alike r s (ok t) (ok u) p q (agree, found, gone, valid) (_, found', gone', valid') = ap ok (
    ext t u valid valid' (λ d. found d ∙ or_else_comm _ _ (agree d) ∙ sym (found' d))
      (gone ∙ union_comm r.superseded s.superseded p.superseded q.superseded ∙ sym gone'))

-- The order of two valid registers does not matter to their merge: the result is the same, or the
-- same exception.
pub merge_comm : (r s : MvRegister) → IsValid r → IsValid s → merge r s ≡ merge s r
merge_comm r s p q = Merges-alike r s _ _ p q (merge-Merges r s p q) (merge-Merges s r q p)
