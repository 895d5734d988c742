-- ===== src/Storage/Store/Delivery.antt =====
-- The delivery of an entry to a store: what is stored under its key, and that a second delivery changes
-- nothing.
use advanced_distributed_sys.Base.{
  ◌≡◌, refl, sym, ap, ◌∙◌, List, [], ◌∷◌, Option, none, some, Result, ok, raise, arith,
  if◌then◌else◌, Bool-cases, inl, inr,
}
use mathlib.Core.Path.{subst}
use advanced_distributed_sys.Order.{Str, list_ord, nat_ord, same}
use advanced_distributed_sys.Sorted.{find, put, Distinct}
use advanced_distributed_sys.Sorted.Laws.{find-put, put-Distinct, same-eq, same_self}
use advanced_distributed_sys.Causal.Version.Lattice.{◌⊑◌, get-merge}
use advanced_distributed_sys.Storage.Entry.{StoredCrdtEntry, merge_entries}
use advanced_distributed_sys.Storage.Entry.Merging
use advanced_distributed_sys.Storage.Entry.Merging.{same_type-eq}
use advanced_distributed_sys.Storage.Entry.Redelivery.{
  Merged, merge_entries-Merged, merge_entries_self, same_type_self,
}
use advanced_distributed_sys.Storage.Store.{CrdtStore, get, replace, replace_by, merge_entry}

-- an entry is filed under its key and is valid
abbrev pub Filed : Str → Option StoredCrdtEntry → Type 0
Filed k none = Unit {0}
Filed k (some e) = (e.key ≡ k) × Merging.IsValid e

pub record IsValid (s : CrdtStore) : Type 0 where
  pub distinct : Distinct s.entries
  pub filed : (k : Str) → Filed k (find k s.entries)

-- what is stored under a key knows all that was stored before
abbrev pub Grows : Option StoredCrdtEntry → StoredCrdtEntry → Type 0
Grows none m = Unit {0}
Grows (some old) m =
    (m.crdt_type ≡ old.crdt_type)
    × (old.state_version ⊑ m.state_version)
    × (old.causal_context ⊑ m.causal_context)

-- What a delivery gives. Where it raises, the store is as it was; else the result is stored under the
-- key, knows what was known and what came, and no other key is touched.
abbrev pub Delivers : StoredCrdtEntry → CrdtStore → CrdtStore × Result StoredCrdtEntry → Type 0
Delivers incoming s (s', raise e) = s' ≡ s
Delivers incoming s (s', ok m) =
    ((k : Str) → find k s'.entries ≡ (if same incoming.key k then some m else find k s.entries))
    × Grows (find incoming.key s.entries) m
    × (incoming.state_version ⊑ m.state_version)
    × (incoming.causal_context ⊑ m.causal_context)
    × IsValid s'

pub put-IsValid :
    (k : Str) (m : StoredCrdtEntry) (s : CrdtStore)
    → IsValid s
    → m.key ≡ k
    → Merging.IsValid m
    → IsValid (record s { entries = put k m s.entries })
put-IsValid k m s v i p = record {
  distinct = put-Distinct k m s.entries v.distinct;
  filed = λ j. elim (Bool-cases (same k j)) [
    | inl e ↦ rw (find-put k j m s.entries, e) (i ∙ same-eq k j e, p)
    | inr e ↦ rw (find-put k j m s.entries, e) (v.filed j)
  ];
}

-- a replacement of the same type goes through
replace_same :
    (m old : StoredCrdtEntry) (s : CrdtStore)
    → find m.key s.entries ≡ some old
    → m.crdt_type ≡ old.crdt_type
    → replace m (some old.crdt_type) s ≡ (record s { entries = put m.key m s.entries }, ok m)
unfolding replace get
replace_same m old s f t = rw (f, t, same_type_self old.crdt_type) refl

replace_new :
    (m : StoredCrdtEntry) (s : CrdtStore)
    → find m.key s.entries ≡ none
    → replace m none s ≡ (record s { entries = put m.key m s.entries }, ok m)
unfolding replace get
replace_new m s f = rw f refl

replaced :
    (incoming old m : StoredCrdtEntry) (s : CrdtStore)
    → find incoming.key s.entries ≡ some old
    → old.key ≡ incoming.key
    → Merged old incoming m
    → replace m (some old.crdt_type) s ≡ (record s { entries = put incoming.key m s.entries }, ok m)
replaced incoming old m s f i d =
    replace_same m old s (ap (λ k. find k s.entries) (d.key ∙ i) ∙ f) d.crdt_type
    ∙ ap (λ k. (record s { entries = put k m s.entries }, ok m)) (d.key ∙ i)

Merged-Delivers :
    (incoming old m : StoredCrdtEntry) (s : CrdtStore)
    → IsValid s
    → find incoming.key s.entries ≡ some old
    → old.key ≡ incoming.key
    → Merged old incoming m
    → Delivers incoming s (record s { entries = put incoming.key m s.entries }, ok m)
Merged-Delivers incoming old m s v f i p = (
  λ k. find-put incoming.key k m s.entries,
  subst (λ o. Grows o m) (sym f)
      (
        p.crdt_type,
        (λ a.
            rw p.state_version
              (omega (arith, get-merge old.state_version incoming.state_version a))),
        λ a.
            rw p.causal_context
              (omega (arith, get-merge old.causal_context incoming.causal_context a)),
      ),
  (λ a. rw p.state_version (omega (arith, get-merge old.state_version incoming.state_version a))),
  (λ a.
      rw p.causal_context (omega (arith, get-merge old.causal_context incoming.causal_context a))),
  put-IsValid incoming.key m s v (p.key ∙ i) p.valid,
)

-- The delivery of a valid entry to a valid store either raises and changes nothing, or stores the
-- merge under its key: of the type that was there, knowing all that was known and all that came, with
-- every other key as it was and the store still valid.
pub merge_entry-Delivers :
    (incoming : StoredCrdtEntry) (s : CrdtStore)
    → Merging.IsValid incoming
    → IsValid s
    → Delivers incoming s (merge_entry incoming s)
unfolding merge_entry get replace_by
merge_entry-Delivers incoming s p v = go (find incoming.key s.entries) refl (v.filed incoming.key)
  where
    merged :
        (old : StoredCrdtEntry) (r : Result StoredCrdtEntry)
        → find incoming.key s.entries ≡ some old
        → old.key ≡ incoming.key
        → Merging.IsValid old
        → merge_entries old incoming ≡ r
        → Delivers incoming s (replace_by old r s)
    merged old (raise e) f i q h = refl
    merged old (ok m) f i q h =
        let d = merge_entries-Merged old incoming m q p h in
        subst (Delivers incoming s) (sym (replaced incoming old m s f i d))
          (Merged-Delivers incoming old m s v f i d)

    go :
        (o : Option StoredCrdtEntry)
        → find incoming.key s.entries ≡ o
        → Filed incoming.key (find incoming.key s.entries)
        → Delivers incoming s (merge_entry incoming s)
    go none f h =
        rw (merge_entry, f, replace_new incoming s f)
          (
            (λ k. find-put incoming.key k incoming s.entries),
            subst (λ o. Grows o incoming) (sym f) tt,
            (λ a. omega arith),
            (λ a. omega arith),
            put-IsValid incoming.key incoming s v refl p,
          )
    go (some old) f h =
        let (i, q) = subst (Filed incoming.key) f h in
        rw (merge_entry, f) (merged old (merge_entries old incoming) f i q refl)

put_again :
    (k : Str) (m : StoredCrdtEntry) (d : List (Str × StoredCrdtEntry))
    → put k m (put k m d) ≡ put k m d
unfolding put
put_again k m [] = rw (same_self k) refl
put_again k m ((j, e) ∷ d) = elim (Bool-cases (same j k)) [
  | inl h ↦ rw (h, h) refl
  | inr h ↦ rw (h, h) (ap (λ (d' : List (Str × StoredCrdtEntry)). (j, e) ∷ d') (put_again k m d))
]

-- an entry that takes in nothing more from what comes is left as it is
settled_store :
    (incoming m : StoredCrdtEntry) (s : CrdtStore)
    → m.key ≡ incoming.key
    → merge_entries m incoming ≡ ok m
    → merge_entry incoming (record s { entries = put incoming.key m s.entries })
      ≡ (record s { entries = put incoming.key m s.entries }, ok m)
unfolding merge_entry get replace_by
settled_store incoming m s i h =
    let s' : CrdtStore = record s { entries = put incoming.key m s.entries } in
    let f : find incoming.key s'.entries ≡ some m =
      rw (find-put incoming.key incoming.key m s.entries, same_self incoming.key) refl in
    rw (merge_entry, f, h)
      (replace_same m m s' (ap (λ k. find k s'.entries) i ∙ f) refl
        ∙ ap (λ k. (record s { entries = put k m s'.entries }, ok m)) i
        ∙ ap (λ d. (record s { entries = d }, ok m)) (put_again incoming.key m s.entries))

abbrev Repeats : StoredCrdtEntry → CrdtStore × Result StoredCrdtEntry → Type 0
Repeats incoming (s, raise e) = Unit {0}
Repeats incoming (s, ok m) = merge_entry incoming s ≡ (s, ok m)

merge_entry-Repeats :
    (incoming : StoredCrdtEntry) (s : CrdtStore)
    → Merging.IsValid incoming
    → IsValid s
    → Repeats incoming (merge_entry incoming s)
unfolding merge_entry get replace_by
merge_entry-Repeats incoming s p v = go (find incoming.key s.entries) refl (v.filed incoming.key)
  where
    merged :
        (old : StoredCrdtEntry) (r : Result StoredCrdtEntry)
        → find incoming.key s.entries ≡ some old
        → old.key ≡ incoming.key
        → Merging.IsValid old
        → merge_entries old incoming ≡ r
        → Repeats incoming (replace_by old r s)
    merged old (raise e) f i q h = tt
    merged old (ok m) f i q h =
        let d = merge_entries-Merged old incoming m q p h in
        subst (Repeats incoming) (sym (replaced incoming old m s f i d))
          (settled_store incoming m s (d.key ∙ i) d.settled)

    go :
        (o : Option StoredCrdtEntry)
        → find incoming.key s.entries ≡ o
        → Filed incoming.key (find incoming.key s.entries)
        → Repeats incoming (merge_entry incoming s)
    go none f h =
        rw (merge_entry, f, replace_new incoming s f)
          (settled_store incoming incoming s refl (merge_entries_self incoming p))
    go (some old) f h =
        let (i, q) = subst (Filed incoming.key) f h in
        rw (merge_entry, f) (merged old (merge_entries old incoming) f i q refl)

-- Where the delivery of a valid entry to a valid store succeeds, the same entry delivered once
-- more gives the same result and leaves the same store.
pub merge_entry-redelivered :
    (incoming m : StoredCrdtEntry) (s s' : CrdtStore)
    → Merging.IsValid incoming
    → IsValid s
    → merge_entry incoming s ≡ (s', ok m)
    → merge_entry incoming s' ≡ (s', ok m)
merge_entry-redelivered incoming m s s' p v e =
    subst (Repeats incoming) e (merge_entry-Repeats incoming s p v)
