-- ===== src/Storage/Entry/Redelivery.antt =====
-- What a merge of two entries that succeeds gives: a valid entry of the same key and type, that knows
-- all that either side knows, and that the second side no longer changes.
use advanced_distributed_sys.Base.{
  ◌≡◌, refl, sym, ap, ◌∙◌, Bool, true, false, [], ◌∷◌, Result, ok, raise, Error, not, arith,
  if◌then◌else◌, ◌>>=◌, >>=-eq-ok, ok-injective,
}
use mathlib.Core.Path.{subst}
use advanced_distributed_sys.Order.{Str, str_ord, list_ord, nat_ord, same}
use advanced_distributed_sys.Sorted.Laws.{same_self}
use advanced_distributed_sys.Causal.Version
use advanced_distributed_sys.Causal.Version.{VersionVector}
use advanced_distributed_sys.Causal.Version.Lattice
use advanced_distributed_sys.Crdt.GCounter
use advanced_distributed_sys.Crdt.GCounter.Value
use advanced_distributed_sys.Crdt.PnCounter
use advanced_distributed_sys.Crdt.PnCounter.Laws as PnLaws
use advanced_distributed_sys.Crdt.OrSet
use advanced_distributed_sys.Crdt.OrSet.Laws as OrLaws
use advanced_distributed_sys.Crdt.MvRegister
use advanced_distributed_sys.Crdt.MvRegister.Redelivery as MvRedelivery
use advanced_distributed_sys.Storage.Entry.{
  CrdtType, CrdtState, of_gcounter, of_pncounter, of_orset, of_mvregister, type_of, same_type,
  StoredCrdtEntry, make_entry, merge_state, merge_entries,
}
use advanced_distributed_sys.Storage.Entry.Merging.{StateOk, IsValid, same_type-eq}

-- a merged state is valid, of the same class, and takes in nothing more from the second side
pub record Takes (x y z : CrdtState) : Type 0 where
  pub state : StateOk z
  pub same_class : type_of z ≡ type_of x
  pub settled : merge_state z y ≡ ok z

merge_state-Takes :
    (x y z : CrdtState) → StateOk x → StateOk y → merge_state x y ≡ ok z → Takes x y z
unfolding merge_state
merge_state-Takes (of_gcounter g) (of_gcounter h) z p q e =
    subst (Takes (of_gcounter g) (of_gcounter h)) (ok-injective e) (record {
      state = Value.merge-IsValid g h p q;
      same_class = refl;
      settled =
          ap (λ x. ok (of_gcounter x))
            (Value.merge_assoc g h h p q q ∙ ap (GCounter.merge g) (Value.merge_self h q));
    })
merge_state-Takes (of_pncounter c) (of_pncounter d) z p q e =
    subst (Takes (of_pncounter c) (of_pncounter d)) (ok-injective e) (record {
      state = PnLaws.merge-IsValid c d p q;
      same_class = refl;
      settled =
          ap (λ x. ok (of_pncounter x))
            (PnLaws.merge_assoc c d d p q q ∙ ap (PnCounter.merge c) (PnLaws.merge_self d q));
    })
merge_state-Takes (of_orset s) (of_orset t) z p q e =
    subst (Takes (of_orset s) (of_orset t)) (ok-injective e) (record {
      state = OrLaws.merge-IsValid s t p q;
      same_class = refl;
      settled =
          ap (λ x. ok (of_orset x))
            (OrLaws.merge_assoc s t t p q q ∙ ap (OrSet.merge s) (OrLaws.merge_self t q));
    })
merge_state-Takes (of_mvregister r) (of_mvregister s) z p q e =
    let (m, found, made) = >>=-eq-ok (MvRegister.merge r s) (λ x. ok (of_mvregister x)) e in
    subst (Takes (of_mvregister r) (of_mvregister s)) (ok-injective made) (record {
      state = MvRedelivery.merged-IsValid r s m p q found;
      same_class = refl;
      settled =
          ap (λ x. x >>= λ x. ok (of_mvregister x)) (MvRedelivery.merge-merged r s m p q found);
    })
merge_state-Takes _ _ z p q e = cc

-- What a merge of `e` with `f` that gives `m` promises.
pub record Merged (e f m : StoredCrdtEntry) : Type 0 where
  pub key : m.key ≡ e.key
  pub crdt_type : m.crdt_type ≡ e.crdt_type
  pub state_version : m.state_version ≡ Version.merge e.state_version f.state_version
  pub causal_context : m.causal_context ≡ Version.merge e.causal_context f.causal_context
  pub valid : IsValid m
  pub settled : merge_entries m f ≡ ok m

-- the entry that `make_entry` gives
pub made-fields :
    (k : Str) (t : CrdtType) (x : CrdtState) (v c : VersionVector) {m : StoredCrdtEntry}
    → make_entry k t x v c ≡ ok m
    → (m ≡ record { key = k; crdt_type = t; state = x; state_version = v; causal_context = c })
      × (same k [] ≡ false)
      × (same_type t (type_of x) ≡ true)
unfolding make_entry list_ord
made-fields [] t x v c e = absurd cc
made-fields (a ∷ k) t x v c e = (ground arith, refl, ground arith)

same_class : (t : CrdtType) (x : CrdtState) → same_type t (type_of x) ≡ true → t ≡ type_of x
same_class t x h = same_type-eq t (type_of x) h

pub make_entry-IsValid :
    (k : Str) (t : CrdtType) (x : CrdtState) (v c : VersionVector) {m : StoredCrdtEntry}
    → StateOk x
    → Version.IsValid v
    → Version.IsValid c
    → make_entry k t x v c ≡ ok m
    → IsValid m
make_entry-IsValid k t x v c p q r e =
    let (fields, named, typed) = made-fields k t x v c e in
    subst IsValid (sym fields)
      (record { named = named; typed = same_class t x typed; state = p; version = q; context = r })

-- the guards pass for what is valid
pub remade :
    (m : StoredCrdtEntry)
    → IsValid m
    → make_entry m.key m.crdt_type m.state m.state_version m.causal_context ≡ ok m
unfolding make_entry
remade m p = go m.key refl
  where
    go :
        (k : Str)
        → m.key ≡ k
        → make_entry k m.crdt_type m.state m.state_version m.causal_context
          ≡ ok (record m { key = k })
    go [] e = absurd (ground (arith, p.named, str_ord.cmp_self m.key))
    go (a ∷ k) e = ground (arith, p.typed)

passed :
    {A : Type 0} (b c : Bool) (x y : Error) {r : Result A} {m : A}
    → (if not b then raise x else if not c then raise y else r) ≡ ok m
    → (b ≡ true) × (c ≡ true) × (r ≡ ok m)
passed b c x y h = ground arith

Version-merged :
    (v w : VersionVector)
    → Version.IsValid w
    → Version.merge (Version.merge v w) w ≡ Version.merge v w
Version-merged v w q = Lattice.merge_assoc v w w ∙ ap (Version.merge v) (Lattice.merge_self w q)

settled_entry :
    (m f : StoredCrdtEntry)
    → IsValid m
    → same m.key f.key ≡ true
    → same_type m.crdt_type f.crdt_type ≡ true
    → merge_state m.state f.state ≡ ok m.state
    → Version.merge m.state_version f.state_version ≡ m.state_version
    → Version.merge m.causal_context f.causal_context ≡ m.causal_context
    → merge_entries m f ≡ ok m
unfolding merge_entries
settled_entry m f p k t s v c = rw (k, t, s, v, c) (remade m p)

-- A merge of two valid entries that succeeds gives a valid entry of the first one's key and type, with
-- the merges of their vectors; and merging the second entry into it again gives the same entry.
pub merge_entries-Merged :
    (e f m : StoredCrdtEntry) → IsValid e → IsValid f → merge_entries e f ≡ ok m → Merged e f m
unfolding merge_entries
merge_entries-Merged e f m p q h =
    let (k, t, joined) = passed (same e.key f.key) (same_type e.crdt_type f.crdt_type) _ _ h in
    let (z, found, made) = >>=-eq-ok (merge_state e.state f.state) _ joined in
    let takes = merge_state-Takes e.state f.state z p.state q.state found in
    let v = Version.merge e.state_version f.state_version in
    let c = Version.merge e.causal_context f.causal_context in
    let (fields, _, _) = made-fields e.key e.crdt_type z v c made in
    let valid : IsValid m =
      make_entry-IsValid e.key e.crdt_type z v c takes.state
        (Lattice.merge-IsValid e.state_version f.state_version)
        (Lattice.merge-IsValid e.causal_context f.causal_context) made in
    record {
      key = ap (λ x. x.key) fields;
      crdt_type = ap (λ x. x.crdt_type) fields;
      state_version = ap (λ x. x.state_version) fields;
      causal_context = ap (λ x. x.causal_context) fields;
      valid = valid;
      settled =
          settled_entry m f valid (rw fields k) (rw fields t) (rw fields takes.settled)
            (rw fields (Version-merged e.state_version f.state_version q.version))
            (rw fields (Version-merged e.causal_context f.causal_context q.context));
    }

merge_state_self : (x : CrdtState) → StateOk x → merge_state x x ≡ ok x
unfolding merge_state
merge_state_self (of_gcounter g) p = ap (λ x. ok (of_gcounter x)) (Value.merge_self g p)
merge_state_self (of_pncounter c) p = ap (λ x. ok (of_pncounter x)) (PnLaws.merge_self c p)
merge_state_self (of_orset s) p = ap (λ x. ok (of_orset x)) (OrLaws.merge_self s p)
merge_state_self (of_mvregister r) p = rw (MvRedelivery.merge_self r p) refl

pub same_type_self : (t : CrdtType) → same_type t t ≡ true
same_type_self t = ground arith

-- A valid entry merged with itself is itself.
pub merge_entries_self : (e : StoredCrdtEntry) → IsValid e → merge_entries e e ≡ ok e
merge_entries_self e p =
    settled_entry e e p (same_self e.key) (same_type_self e.crdt_type)
      (merge_state_self e.state p.state) (Lattice.merge_self e.state_version p.version)
      (Lattice.merge_self e.causal_context p.context)
