-- ===== src/Crdt/MvRegister/Redelivery.antt =====
-- A register that was merged with another is not changed by it again.
use advanced_distributed_sys.Base.{◌≡◌, sym, ap, ◌∙◌, Result, ok, raise, arith}
use mathlib.Core.Path.{subst}
use advanced_distributed_sys.Sorted.{find}
use advanced_distributed_sys.Sorted.FrozenSet
use advanced_distributed_sys.Sorted.FrozenSet.{union_assoc, union_self}
use advanced_distributed_sys.Causal.Actor.{Dot, dot_ord}
use advanced_distributed_sys.Crdt.MvRegister.{MvRegister, IsValid, merge}
use advanced_distributed_sys.Crdt.MvRegister.Merge.{
  Agree, or_else, Merges, merge-Merges, ext, Clash-of-Agree,
}

Agree-merged :
    (r s t : MvRegister)
    → Agree r.entries s.entries
    → ((d : Dot) → find d t.entries ≡ or_else (find d r.entries) (find d s.entries))
    → Agree t.entries s.entries
Agree-merged r s t agree found d x y p q = ground (arith, found d, agree d x y)

found_again :
    (r s t : MvRegister)
    → ((d : Dot) → find d t.entries ≡ or_else (find d r.entries) (find d s.entries))
    → (d : Dot) → or_else (find d t.entries) (find d s.entries) ≡ find d t.entries
found_again r s t found d = ground (arith, found d)

-- If a merge of two valid registers succeeds, merging the second one again gives the same register.
pub merge-merged :
    (r s t : MvRegister) → IsValid r → IsValid s → merge r s ≡ ok t → merge t s ≡ ok t
merge-merged r s t p q e =
    let (agree, found, gone, valid) : Merges r s (ok t) =
      subst (Merges r s) e (merge-Merges r s p q) in
    again (merge t s) agree found gone valid (merge-Merges t s valid q)
  where
    again :
        (m : Result MvRegister)
        → Agree r.entries s.entries
        → ((d : Dot) → find d t.entries ≡ or_else (find d r.entries) (find d s.entries))
        → t.superseded ≡ FrozenSet.union r.superseded s.superseded
        → IsValid t
        → Merges t s m
        → m ≡ ok t
    again (raise _) agree found gone valid (_, c) =
        absurd (Clash-of-Agree _ _ (Agree-merged r s t agree found) c)
    again (ok u) agree found gone valid (_, found', gone', valid') = ap ok (
        ext u t valid' valid (λ d. found' d ∙ found_again r s t found d)
          (gone'
            ∙ ap (λ x. FrozenSet.union x s.superseded) gone
            ∙ union_assoc r.superseded s.superseded s.superseded p.superseded
            ∙ ap (FrozenSet.union r.superseded) (union_self s.superseded q.superseded)
            ∙ sym gone))

pub merged-IsValid : (r s t : MvRegister) → IsValid r → IsValid s → merge r s ≡ ok t → IsValid t
merged-IsValid r s t p q e =
    let (agree, found, gone, valid) : Merges r s (ok t) =
      subst (Merges r s) e (merge-Merges r s p q) in
    valid

self-Agree : (r : MvRegister) → Agree r.entries r.entries
self-Agree r d x y p q = ground (arith, p, q)

-- A valid register merged with itself is itself.
pub merge_self : (r : MvRegister) → IsValid r → merge r r ≡ ok r
merge_self r p = go (merge r r) (merge-Merges r r p p)
  where
    go : (m : Result MvRegister) → Merges r r m → m ≡ ok r
    go (raise _) (_, c) = absurd (Clash-of-Agree _ _ (self-Agree r) c)
    go (ok u) (agree, found, gone, valid) = ap ok (
        ext u r valid p (λ d. ground (arith, found d))
          (gone ∙ union_self r.superseded p.superseded))
