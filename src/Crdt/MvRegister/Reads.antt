-- ===== src/Crdt/MvRegister/Reads.antt =====
-- What a register shows after a write, and after concurrent writes are merged.
use advanced_distributed_sys.Base.{
  ◌≡◌, refl, ap, ◌∙◌, ◌≢◌, inl, inr, false, not, ◌||◌, ◌&&◌, List, [], ◌∷◌, Option, none, some,
  Result, ok, raise, if◌then◌else◌, arith, Bool-cases,
}
use advanced_distributed_sys.Order.{Str, str_ord, list_ord, nat_ord, same}
use advanced_distributed_sys.Sorted.{find, put, Distinct}
use advanced_distributed_sys.Sorted.Laws.{
  find-put, find-sort_items, put-Distinct, sort_items-IsSorted, IsSorted-Distinct,
}
use advanced_distributed_sys.Sorted.FrozenSet
use advanced_distributed_sys.Sorted.FrozenSet.{
  FrozenSet, contains-union, contains-insert, contains-nil, union-IsSorted, is_some,
}
use advanced_distributed_sys.Causal.Actor.{Dot, dot_ord}
use advanced_distributed_sys.Crdt.MvRegister.{
  MvRegister, IsValid, merge, visible_dots, visible_texts, write, values, decode_all,
}
use advanced_distributed_sys.Crdt.MvRegister.Merge.{Merges, merge-Merges, Clash, or_else}

-- the text that a dot shows: none once it is superseded
abbrev pub visible : MvRegister → Dot → Option Str
visible r d = if FrozenSet.contains d r.superseded then none else find d r.entries

contains-visible_dots :
    (d : Dot) (m : List (Dot × Str)) (s : FrozenSet Dot)
    → Distinct m
    → FrozenSet.contains d (visible_dots m s) ≡ (is_some (find d m) && not (FrozenSet.contains d s))
unfolding visible_dots find
contains-visible_dots d [] s h = ground (arith, contains-nil d)
contains-visible_dots d ((e, x) ∷ m) s h = ground (
  arith,
  contains-visible_dots d m s h.1,
  contains-insert e d (visible_dots m s),
  dot_ord.cmp_eq e d,
)

abbrev shown : List (Dot × Str) → FrozenSet Dot → Dot → Option Str
shown m s d = if FrozenSet.contains d s then none else find d m

shown-head :
    (e : Dot) (x : Str) (m : List (Dot × Str)) (s : FrozenSet Dot)
    → shown ((e, x) ∷ m) s e ≡ (if FrozenSet.contains e s then none else some x)
unfolding find
shown-head e x m s = ground (arith, dot_ord.cmp_self e)

shown-tail :
    (e : Dot) (x : Str) (m : List (Dot × Str)) (s : FrozenSet Dot) (d : Dot)
    → find e m ≡ none
    → shown m s d ≡ (if same e d then none else shown ((e, x) ∷ m) s d)
unfolding find
shown-tail e x m s d h = ground (arith, dot_ord.cmp_eq e d)

visible_texts-none :
    (m : List (Dot × Str)) (s : FrozenSet Dot)
    → Distinct m
    → ((d : Dot) → shown m s d ≡ none)
    → visible_texts m s ≡ []
unfolding visible_texts
visible_texts-none [] s q h = refl
visible_texts-none ((e, x) ∷ m) s q h =
    let rest : visible_texts m s ≡ [] =
      visible_texts-none m s q.1 (λ d. ground (arith, shown-tail e x m s d q.0, h d)) in
    ground (arith, shown-head e x m s, h e)

-- where one dot shows, its text is all that is listed
visible_texts-one :
    (dot : Dot) (x : Str) (m : List (Dot × Str)) (s : FrozenSet Dot)
    → Distinct m
    → ((d : Dot) → shown m s d ≡ (if same dot d then some x else none))
    → visible_texts m s ≡ x ∷ []
unfolding visible_texts
visible_texts-one dot x [] s q h =
    absurd (unfold find in ground (arith, h dot, dot_ord.cmp_self dot))
visible_texts-one dot x ((e, y) ∷ m) s q h = elim (Bool-cases (same dot e)) [
  | inl here ↦
      let rest : visible_texts m s ≡ [] =
        visible_texts-none m s q.1
          (λ d. ground (arith, shown-tail e y m s d q.0, h d, dot_ord.cmp_eq dot e)) in
      ground (arith, shown-head e y m s, h e)
  | inr other ↦
      let rest : visible_texts m s ≡ x ∷ [] = visible_texts-one dot x m s q.1 (λ d. ground (
        arith,
        shown-tail e y m s d q.0,
        h d,
        dot_ord.cmp_eq dot d,
        dot_ord.cmp_eq e d,
        dot_ord.cmp_swap dot e,
      )) in
      ground (arith, shown-head e y m s, h e)
]

module _ {V : Type 0} (encode : V → Str) (decode : Str → V) where
  find-write :
      (r : MvRegister) (v : V) (dot d : Dot)
      → find d (write encode decode r v dot).entries
        ≡ (if same dot d then some (encode v) else find d r.entries)
  unfolding write
  find-write r v dot d =
      find-sort_items d (put dot (encode v) r.entries) ∙ find-put dot d (encode v) r.entries

  superseded-write :
      (r : MvRegister) (v : V) (dot d : Dot)
      → IsValid r
      → FrozenSet.contains d (write encode decode r v dot).superseded
        ≡ (FrozenSet.contains d r.superseded || is_some (find d r.entries))
  unfolding write
  superseded-write r v dot d p = ground (
    arith,
    contains-union d r.superseded (visible_dots r.entries r.superseded),
    contains-visible_dots d r.entries r.superseded (IsSorted-Distinct r.entries p.sorted),
  )

  pub write-IsValid :
      (r : MvRegister) (v : V) (dot : Dot) → IsValid r → IsValid (write encode decode r v dot)
  unfolding write
  write-IsValid r v dot p = record {
    sorted =
        sort_items-IsSorted _
          (put-Distinct dot (encode v) r.entries (IsSorted-Distinct r.entries p.sorted));
    superseded = union-IsSorted r.superseded _ p.superseded;
  }

  -- a dot that the register has neither stored nor superseded
  abbrev pub Fresh : MvRegister → Dot → Type 0
  Fresh r dot = (find dot r.entries ≡ none) × (FrozenSet.contains dot r.superseded ≡ false)

  -- A write under a fresh dot hides all that was visible: only its own dot shows, with its text.
  pub visible-write :
      (r : MvRegister) (v : V) (dot d : Dot)
      → IsValid r
      → Fresh r dot
      → visible (write encode decode r v dot) d ≡ (if same dot d then some (encode v) else none)
  visible-write r v dot d p f =
      ground (arith, find-write r v dot d, superseded-write r v dot d p, dot_ord.cmp_eq dot d)

  -- After a write to a valid register under a fresh dot, `values` is the one value that was
  -- written, as the encoding and the decoding give it back.
  pub values-write :
      (r : MvRegister) (v : V) (dot : Dot)
      → IsValid r
      → Fresh r dot
      → values encode decode (write encode decode r v dot) ≡ decode (encode v) ∷ []
  unfolding values decode_all
  values-write r v dot p f = rw (
      visible_texts-one dot (encode v) _ _ (IsSorted-Distinct _ (write-IsValid r v dot p).sorted)
        (λ d. visible-write r v dot d p f))

  module _ (r : MvRegister) (v w : V) (d e : Dot) where
    abbrev left : MvRegister
    left = write encode decode r v d

    abbrev right : MvRegister
    right = write encode decode r w e

    writes_agree : IsValid r → Fresh r d → Fresh r e → d ≢ e → ¬ Clash left.entries right.entries
    writes_agree p f g ne c = ground (
      arith,
      c.in_left,
      c.in_right,
      c.differ,
      find-write r v d c.dot,
      find-write r w e c.dot,
      dot_ord.cmp_eq d c.dot,
      dot_ord.cmp_eq e c.dot,
      str_ord.cmp_self c.left,
    )

    merged_shows :
        IsValid r
        → Fresh r d
        → Fresh r e
        → d ≢ e
        → (t : MvRegister) (x : Dot)
        → find x t.entries ≡ or_else (find x left.entries) (find x right.entries)
        → t.superseded ≡ FrozenSet.union left.superseded right.superseded
        → visible t x
          ≡ (if same d x then some (encode v) else if same e x then some (encode w) else none)
    merged_shows p f g ne t x found gone = ground (
      arith,
      ap (FrozenSet.contains x) gone,
      contains-union x left.superseded right.superseded,
      superseded-write r v d x p,
      superseded-write r w e x p,
      find-write r v d x,
      find-write r w e x,
      dot_ord.cmp_eq d x,
      dot_ord.cmp_eq e x,
    )

    -- Two writes to copies of a valid register, under two different dots that are fresh to it,
    -- merge without an exception, and both values show, each at its dot, and nothing else does.
    pub concurrent_writes :
        IsValid r
        → Fresh r d
        → Fresh r e
        → d ≢ e
        → (t : MvRegister) × (merge left right ≡ ok t)
          × ((x : Dot)
              → visible t x ≡ (
                  if same d x then some (encode v) else if same e x then some (encode w) else none))
    concurrent_writes p f g ne =
        go (merge left right) refl
          (merge-Merges left right (write-IsValid r v d p) (write-IsValid r w e p))
      where
        go :
            (m : Result MvRegister)
            → merge left right ≡ m
            → Merges left right m
            → (t : MvRegister) × (merge left right ≡ ok t)
              × ((x : Dot)
                  → visible t x ≡ (
                      if same d x
                      then some (encode v)
                      else if same e x
                      then some (encode w)
                      else none))
        go (raise _) q (_, c) = absurd (writes_agree p f g ne c)
        go (ok t) q (agree, found, gone, valid) =
            (t, q, λ x. merged_shows p f g ne t x (found x) gone)
