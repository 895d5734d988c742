-- ===== src/Recovery/Restore/Entries.antt =====
-- The entries that are read back: one for each row, and a memory that holds them.
use advanced_distributed_sys.Base.{
  ◌≡◌, refl, sym, ap, ◌∙◌, true, false, List, [], ◌∷◌, Option, none, some, ok, if◌then◌else◌, arith,
  ◌>>=◌, >>=-eq-ok, ok-injective, Bool-cases, inl, inr, All, ◌⊎◌,
}
use mathlib.Core.Path.{subst}
use advanced_distributed_sys.Order.{Str, list_ord, nat_ord, same}
use advanced_distributed_sys.Sorted.{find, put, Distinct}
use advanced_distributed_sys.Sorted.Laws.{find-put, put-Distinct, same-eq, same_self}
use advanced_distributed_sys.Causal.Version
use advanced_distributed_sys.Causal.Version.{VersionVector}
use advanced_distributed_sys.Causal.Version.Lattice.{◌⊑◌, get-merge, merge-IsValid}
use advanced_distributed_sys.Storage.Entry.{StoredCrdtEntry}
use advanced_distributed_sys.Storage.Store.{CrdtStore}
use advanced_distributed_sys.Storage.Store.Delivery
use advanced_distributed_sys.Persistence.Repository.{Codec, RoundTrips, Row, decode_rows}
use advanced_distributed_sys.Persistence.Durable.{restore_entries, replaced}
use advanced_distributed_sys.Persistence.Durable.Invariant.{decoded_row, replace_typed}
use advanced_distributed_sys.Recovery.Restore.{merge_contexts}

-- entries by their keys
abbrev pub keyed : List StoredCrdtEntry → List (Str × StoredCrdtEntry)
keyed [] = []
keyed (e ∷ es) = (e.key, e) ∷ keyed es

-- the entries wanted, less the one of a key
abbrev less : Str → (Str → Option StoredCrdtEntry) → Str → Option StoredCrdtEntry
less j want k = if same j k then none else want k

less-Filed :
    (j : Str) (want : Str → Option StoredCrdtEntry) (k : Str)
    → Delivery.Filed k (want k)
    → Delivery.Filed k (less j want k)
less-Filed j want k h = elim (Bool-cases (same j k)) [ inl e ↦ rw e tt | inr e ↦ rw e h ]

abbrev pub or_else : Option StoredCrdtEntry → Option StoredCrdtEntry → Option StoredCrdtEntry
or_else none o = o
or_else (some e) o = some e

module _ (codec : Codec) (laws : RoundTrips codec) where
  -- what a list of rows decodes to, where each row is that of a wanted entry
  abbrev pub Decodes : List (Str × Row) → (Str → Option StoredCrdtEntry) → Type 0
  Decodes m want =
      (es : List StoredCrdtEntry) × (decode_rows codec m ≡ ok es)
      × ((k : Str) → find k (keyed es) ≡ want k)
      × Distinct (keyed es)

  pub decode_rows-Decodes :
      (m : List (Str × Row)) (want : Str → Option StoredCrdtEntry)
      → Distinct m
      → ((k : Str) → decoded_row codec (find k m) ≡ ok (want k))
      → ((k : Str) → Delivery.Filed k (want k))
      → Decodes m want
  unfolding decode_rows find
  decode_rows-Decodes [] want d w f = ([], refl, (λ k. ok-injective (w k)), tt)
  decode_rows-Decodes ((j, row) ∷ m) want d w f =
      let here : (codec.decode_entry row.columns >>= λ e. ok (some e)) ≡ ok (want j) =
        ap (decoded_row codec) (sym (first row)) ∙ w j in
      let (e, r, i) = >>=-eq-ok (codec.decode_entry row.columns) _ here in
      let wanted : some e ≡ want j = ok-injective i in
      let (key, _) = subst (Delivery.Filed j) (sym wanted) (f j) in
      let (es, g, looks, once) =
        decode_rows-Decodes m (less j want) d.1 rest (λ k. less-Filed j want k (f k)) in
      (
        e ∷ es,
        rw (r, g) refl,
        (λ k. found e es k key wanted (looks k)),
        (looks e.key ∙ rw (key, same_self j) refl, once),
      )
    where
      first : (x : Row) → find j ((j, x) ∷ m) ≡ some x
      first x = rw (same_self j) refl

      rest : (k : Str) → decoded_row codec (find k m) ≡ ok (less j want k)
      rest k = elim (Bool-cases (same j k)) [
        | inl e ↦
            let gone : find k m ≡ none = ap (λ (i : Str). find i m) (sym (same-eq j k e)) ∙ d.0 in
            rw (gone, e) refl
        | inr e ↦
            let at : decoded_row codec (find k ((j, row) ∷ m)) ≡ ok (want k) = w k in
            rw e (subst (λ o. decoded_row codec o ≡ ok (want k)) (rw e refl) at)
      ]

      found :
          (e : StoredCrdtEntry) (es : List StoredCrdtEntry) (k : Str)
          → e.key ≡ j
          → some e ≡ want j
          → find k (keyed es) ≡ less j want k
          → find k (keyed (e ∷ es)) ≡ want k
      found e es k key wanted h = elim (Bool-cases (same j k)) [
        | inl s ↦
            let at : same e.key k ≡ true = ap (λ (i : Str). same i k) key ∙ s in
            rw at (wanted ∙ ap want (same-eq j k s))
        | inr s ↦
            let off : same e.key k ≡ false = ap (λ (i : Str). same i k) key ∙ s in
            rw (off, h, s) refl
      ]

  -- the memory takes entries whose keys it does not hold
  pub restore_entries-holds :
      (es : List StoredCrdtEntry) (memory : CrdtStore)
      → Distinct (keyed es)
      → Distinct memory.entries
      → ((k : Str) (e : StoredCrdtEntry)
          → find k (keyed es) ≡ some e
          → find k memory.entries ≡ none)
      → (memory' : CrdtStore) × (restore_entries es memory ≡ (memory', ok tt))
        × ((k : Str) → find k memory'.entries ≡ or_else (find k (keyed es)) (find k memory.entries))
        × Distinct memory'.entries
  unfolding restore_entries replaced find
  restore_entries-holds [] memory d m n = (memory, refl, (λ k. refl), m)
  restore_entries-holds (e ∷ es) memory d m n =
      let next : CrdtStore = record { entries = put e.key e memory.entries } in
      let new : find e.key memory.entries ≡ none = n e.key e (rw (same_self e.key) refl) in
      let (memory', r, looks, once) =
        restore_entries-holds es next d.1 (put-Distinct e.key e memory.entries m) apart in
      (
        memory',
        rw (restore_entries, replace_typed codec laws e memory (rw new refl)) r,
        (λ k. looks k ∙ held k (Bool-cases (same e.key k))),
        once,
      )
    where
      apart :
          (k : Str) (x : StoredCrdtEntry)
          → find k (keyed es) ≡ some x
          → find k (put e.key e memory.entries) ≡ none
      apart k x h = elim (Bool-cases (same e.key k)) [
        | inl s ↦ absurd cc (d.0, ap (λ (i : Str). find i (keyed es)) (same-eq e.key k s), h)
        | inr s ↦ rw (find-put e.key k e memory.entries, s) (n k x (rw s h))
      ]

      held :
          (k : Str)
          → (same e.key k ≡ true) ⊎ (same e.key k ≡ false)
          → or_else (find k (keyed es)) (find k (put e.key e memory.entries))
            ≡ or_else (find k (keyed (e ∷ es))) (find k memory.entries)
      held k (inl s) =
          let gone : find k (keyed es) ≡ none =
            ap (λ (i : Str). find i (keyed es)) (sym (same-eq e.key k s)) ∙ d.0 in
          ground (arith, gone, s, find-put e.key k e memory.entries)
      held k (inr s) = ground (arith, s, find-put e.key k e memory.entries)

-- The loop over the entries ends with a valid vector that knows the first and all the contexts.
pub merge_contexts-knows :
    (v : VersionVector) (es : List StoredCrdtEntry)
    → Version.IsValid v
    → Version.IsValid (merge_contexts v es)
      × (v ⊑ merge_contexts v es)
      × All (λ e. e.causal_context ⊑ merge_contexts v es) es
unfolding merge_contexts
merge_contexts-knows v [] h = (h, (λ a. omega arith), tt)
merge_contexts-knows v (e ∷ es) h =
    let w = Version.merge v e.causal_context in
    let (valid, below, all) = merge_contexts-knows w es (merge-IsValid v e.causal_context) in
    (
      valid,
      (λ a. omega (arith, below a, get-merge v e.causal_context a)),
      ((λ a. omega (arith, below a, get-merge v e.causal_context a)), all),
    )
