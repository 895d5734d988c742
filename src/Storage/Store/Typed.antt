-- ===== src/Storage/Store/Typed.antt =====
-- A key that is stored stays, and never changes its type.
use advanced_distributed_sys.Base.{
  ◌≡◌, refl, ap, ◌∙◌, true, false, List, [], ◌∷◌, Option, none, some, Result, ok, raise, arith,
  Bool-cases, inl, inr, ◌⊎◌,
}
use mathlib.Core.Path.{subst}
use advanced_distributed_sys.Order.{Str, list_ord, nat_ord, same}
use advanced_distributed_sys.Sorted.{find, put}
use advanced_distributed_sys.Sorted.Laws.{find-put, same-eq}
use advanced_distributed_sys.Causal.Version
use advanced_distributed_sys.Causal.Version.{VersionVector}
use advanced_distributed_sys.Storage.Entry.{
  CrdtType, StoredCrdtEntry, same_type, merge_entries, with_context,
}
use advanced_distributed_sys.Storage.Entry.Merging.{same_type-eq}
use advanced_distributed_sys.Storage.Store.{
  CrdtStore, get, retypes, unexpected, put_if_absent, replace, replace_by, merge_entry, as_some,
  merge_metadata, StoreCall, puts, replaces, merges, learns, step, run,
}

abbrev pub stored_type : Option StoredCrdtEntry → Option CrdtType
stored_type none = none
stored_type (some e) = some e.crdt_type

-- the type of a key, if it is stored
abbrev pub type_at : Str → CrdtStore → Option CrdtType
type_at k s = stored_type (find k s.entries)

abbrev KeepsTypes : CrdtStore → CrdtStore → Type 0
KeepsTypes s s' = (k : Str) (t : CrdtType) → type_at k s ≡ some t → type_at k s' ≡ some t

same-KeepsTypes : (s : CrdtStore) → KeepsTypes s s
same-KeepsTypes s k t h = h

put-KeepsTypes :
    (entry : StoredCrdtEntry) (s : CrdtStore)
    → retypes entry.crdt_type (find entry.key s.entries) ≡ false
    → KeepsTypes s (record s { entries = put entry.key entry s.entries })
put-KeepsTypes entry s h k t f = go (find k s.entries) refl f (Bool-cases (same entry.key k))
  where
    go :
        (o : Option StoredCrdtEntry)
        → find k s.entries ≡ o
        → stored_type o ≡ some t
        → (same entry.key k ≡ true) ⊎ (same entry.key k ≡ false)
        → stored_type (find k (put entry.key entry s.entries)) ≡ some t
    go none e g c = absurd cc
    go (some old) e g (inr n) = rw (find-put entry.key k entry s.entries, n, e) g
    go (some old) e g (inl y) =
        let i : find entry.key s.entries ≡ some old =
          ap (λ j. find j s.entries) (same-eq entry.key k y) ∙ e in
        let q : retypes entry.crdt_type (some old) ≡ false =
          subst (λ o. retypes entry.crdt_type o ≡ false) i h in
        rw (find-put entry.key k entry s.entries, y)
          (ground (arith, q, g, same_type-eq old.crdt_type entry.crdt_type))

replace-KeepsTypes :
    (entry : StoredCrdtEntry) (expected : Option CrdtType) (s : CrdtStore)
    → KeepsTypes s (replace entry expected s).0
unfolding replace get
replace-KeepsTypes entry expected s =
    elim (Bool-cases (unexpected expected (find entry.key s.entries))) [
      | inl a ↦ rw a (same-KeepsTypes s)
      | inr a ↦ elim (Bool-cases (retypes entry.crdt_type (find entry.key s.entries))) [
        | inl b ↦ rw (a, b) (same-KeepsTypes s)
        | inr b ↦ rw (a, b) (put-KeepsTypes entry s b)
      ]
    ]

replace_by-KeepsTypes :
    (existing : StoredCrdtEntry) (r : Result StoredCrdtEntry) (s : CrdtStore)
    → KeepsTypes s (replace_by existing r s).0
unfolding replace_by
replace_by-KeepsTypes existing (ok updated) s =
    replace-KeepsTypes updated (some existing.crdt_type) s
replace_by-KeepsTypes existing (raise e) s = same-KeepsTypes s

put_if_absent-KeepsTypes :
    (entry : StoredCrdtEntry) (s : CrdtStore) → KeepsTypes s (put_if_absent entry s).0
unfolding put_if_absent get
put_if_absent-KeepsTypes entry s = go (find entry.key s.entries) refl
  where
    go :
        (o : Option StoredCrdtEntry)
        → find entry.key s.entries ≡ o
        → KeepsTypes s (put_if_absent entry s).0
    go none e = rw (put_if_absent, e) (put-KeepsTypes entry s (rw e refl))
    go (some old) e = elim (Bool-cases (same_type old.crdt_type entry.crdt_type)) [
      | inl b ↦ rw (put_if_absent, e, b) (same-KeepsTypes s)
      | inr b ↦ rw (put_if_absent, e, b) (same-KeepsTypes s)
    ]

merge_entry-KeepsTypes :
    (entry : StoredCrdtEntry) (s : CrdtStore) → KeepsTypes s (merge_entry entry s).0
unfolding merge_entry get
merge_entry-KeepsTypes entry s = go (find entry.key s.entries) refl
  where
    go :
        (o : Option StoredCrdtEntry)
        → find entry.key s.entries ≡ o
        → KeepsTypes s (merge_entry entry s).0
    go none e = rw (merge_entry, e) (replace-KeepsTypes entry none s)
    go (some old) e = rw (merge_entry, e) (replace_by-KeepsTypes old (merge_entries old entry) s)

as_some-store : (x : CrdtStore × Result StoredCrdtEntry) → (as_some x).0 ≡ x.0
unfolding as_some
as_some-store (s, ok e) = refl
as_some-store (s, raise e) = refl

merge_metadata-KeepsTypes :
    (key : Str) (v : VersionVector) (s : CrdtStore) → KeepsTypes s (merge_metadata key v s).0
unfolding merge_metadata get
merge_metadata-KeepsTypes key v s = go (find key s.entries) refl
  where
    go :
        (o : Option StoredCrdtEntry)
        → find key s.entries ≡ o
        → KeepsTypes s (merge_metadata key v s).0
    go none e = rw (merge_metadata, e) (same-KeepsTypes s)
    go (some old) e =
        let r = replace_by old (with_context old (Version.merge old.causal_context v)) s in
        rw (merge_metadata, e, as_some-store r) (replace_by-KeepsTypes old _ s)

step-KeepsTypes : (call : StoreCall) (s : CrdtStore) → KeepsTypes s (step call s)
unfolding step
step-KeepsTypes (puts e) s = put_if_absent-KeepsTypes e s
step-KeepsTypes (replaces e t) s = replace-KeepsTypes e t s
step-KeepsTypes (merges e) s = merge_entry-KeepsTypes e s
step-KeepsTypes (learns k v) s = merge_metadata-KeepsTypes k v s

-- Over any calls of the store, a key that is stored stays stored, under the same type.
pub run-type_at :
    (calls : List StoreCall) (s : CrdtStore) (k : Str) (t : CrdtType)
    → type_at k s ≡ some t
    → type_at k (run calls s) ≡ some t
unfolding run
run-type_at [] s k t h = h
run-type_at (call ∷ calls) s k t h =
    run-type_at calls (step call s) k t (step-KeepsTypes call s k t h)
