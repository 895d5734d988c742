-- ===== src/Storage/Entry/Merging.antt =====
-- The merge of two entries: it commutes, errors included, and a merged entry absorbs both sides.
use advanced_distributed_sys.Base.{
  ◌≡◌, refl, sym, ap, ◌∙◌, true, false, [], Result, ok, arith, ◌>>=◌, Bool-cases, inl, inr,
}
use advanced_distributed_sys.Order.{Str, str_ord, list_ord, nat_ord, same}
use advanced_distributed_sys.Sorted.Laws.{same-eq}
use advanced_distributed_sys.Causal.Version
use advanced_distributed_sys.Causal.Version.{VersionVector}
use advanced_distributed_sys.Causal.Version.Lattice
use advanced_distributed_sys.Crdt.GCounter
use advanced_distributed_sys.Crdt.GCounter.Value
use advanced_distributed_sys.Crdt.PnCounter.Laws as PnLaws
use advanced_distributed_sys.Crdt.OrSet
use advanced_distributed_sys.Crdt.OrSet.Laws as OrLaws
use advanced_distributed_sys.Crdt.MvRegister
use advanced_distributed_sys.Crdt.MvRegister.Merge
use advanced_distributed_sys.Storage.Entry.{
  CrdtType, CrdtState, of_gcounter, of_pncounter, of_orset, of_mvregister, type_of, same_type,
  StoredCrdtEntry, make_entry, merge_state, merge_entries,
}

abbrev pub StateOk : CrdtState → Type 0
StateOk (of_gcounter g) = GCounter.IsValid g
StateOk (of_pncounter c) = PnLaws.IsValid c
StateOk (of_orset s) = OrSet.IsValid s
StateOk (of_mvregister r) = MvRegister.IsValid r

-- What the constructor of an entry establishes, with a valid state and valid vectors.
pub record IsValid (e : StoredCrdtEntry) : Type 0 where
  pub named : same e.key [] ≡ false
  pub typed : e.crdt_type ≡ type_of e.state
  pub state : StateOk e.state
  pub version : Version.IsValid e.state_version
  pub context : Version.IsValid e.causal_context

merge_state_comm : (x y : CrdtState) → StateOk x → StateOk y → merge_state x y ≡ merge_state y x
unfolding merge_state
merge_state_comm (of_gcounter g) (of_gcounter h) p q =
    ap (λ m. ok (of_gcounter m)) (Value.merge_comm g h p q)
merge_state_comm (of_pncounter c) (of_pncounter d) p q =
    ap (λ m. ok (of_pncounter m)) (PnLaws.merge_comm c d p q)
merge_state_comm (of_orset s) (of_orset t) p q =
    ap (λ m. ok (of_orset m)) (OrLaws.merge_comm s t p q)
merge_state_comm (of_mvregister r) (of_mvregister s) p q =
    ap (λ x. x >>= λ m. ok (of_mvregister m)) (Merge.merge_comm r s p q)
merge_state_comm (of_gcounter _) (of_pncounter _) p q = refl
merge_state_comm (of_gcounter _) (of_orset _) p q = refl
merge_state_comm (of_gcounter _) (of_mvregister _) p q = refl
merge_state_comm (of_pncounter _) (of_gcounter _) p q = refl
merge_state_comm (of_pncounter _) (of_orset _) p q = refl
merge_state_comm (of_pncounter _) (of_mvregister _) p q = refl
merge_state_comm (of_orset _) (of_gcounter _) p q = refl
merge_state_comm (of_orset _) (of_pncounter _) p q = refl
merge_state_comm (of_orset _) (of_mvregister _) p q = refl
merge_state_comm (of_mvregister _) (of_gcounter _) p q = refl
merge_state_comm (of_mvregister _) (of_pncounter _) p q = refl
merge_state_comm (of_mvregister _) (of_orset _) p q = refl

same_type_comm : (t u : CrdtType) → same_type t u ≡ same_type u t
same_type_comm t u = ground arith

pub same_type-eq : (t u : CrdtType) → same_type t u ≡ true → t ≡ u
same_type-eq t u h = ground arith

same_comm : (j k : Str) → same j k ≡ same k j
same_comm j k = ground (arith, str_ord.cmp_swap j k)

-- the entry that a merged state goes into
abbrev rebuild :
    Str → CrdtType → VersionVector → VersionVector → Result CrdtState → Result StoredCrdtEntry
rebuild key crdt_type version context r =
    r >>= λ state. make_entry key crdt_type state version context

abbrev joined : StoredCrdtEntry → StoredCrdtEntry → Result StoredCrdtEntry
joined e f =
    rebuild e.key e.crdt_type (Version.merge e.state_version f.state_version)
      (Version.merge e.causal_context f.causal_context) (merge_state e.state f.state)

joined_comm :
    (e f : StoredCrdtEntry)
    → IsValid e
    → IsValid f
    → e.key ≡ f.key
    → e.crdt_type ≡ f.crdt_type
    → joined e f ≡ joined f e
joined_comm e f p q k t = rw (
  k,
  t,
  merge_state_comm e.state f.state p.state q.state,
  Lattice.merge_comm e.state_version f.state_version,
  Lattice.merge_comm e.causal_context f.causal_context,
)

-- The order of two valid entries does not matter to their merge: the result is the same, or the same
-- exception.
pub merge_entries_comm :
    (e f : StoredCrdtEntry) → IsValid e → IsValid f → merge_entries e f ≡ merge_entries f e
unfolding merge_entries
merge_entries_comm e f p q = elim (Bool-cases (same e.key f.key)) [
  | inr n ↦ rw (n, sym (same_comm e.key f.key) ∙ n)
  | inl k ↦ elim (Bool-cases (same_type e.crdt_type f.crdt_type)) [
    | inr n ↦
        rw (k, sym (same_comm e.key f.key) ∙ k, n, sym (same_type_comm e.crdt_type f.crdt_type) ∙ n)
    | inl t ↦
        rw (k, sym (same_comm e.key f.key) ∙ k, t, sym (same_type_comm e.crdt_type f.crdt_type) ∙ t)
          (joined_comm e f p q (same-eq e.key f.key k) (same_type-eq e.crdt_type f.crdt_type t))
  ]
]
