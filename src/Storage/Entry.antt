-- ===== src/Storage/Entry.antt =====
-- storage/models.py, crdt/types.py and the merges of storage/crdt_store.py: what is stored under a key.
pub mod Merging
pub mod Redelivery
use advanced_distributed_sys.Base.{
  ◌≡◌, Bool, true, false, List, [], ◌∷◌, Result, ok, raise, value_error, type_error, not,
  if◌then◌else◌, ◌>>=◌,
}
use advanced_distributed_sys.Order.{Str, str_ord, list_ord, nat_ord, same}
use advanced_distributed_sys.Causal.Version
use advanced_distributed_sys.Causal.Version.{VersionVector}
use advanced_distributed_sys.Crdt.GCounter
use advanced_distributed_sys.Crdt.GCounter.{GCounter}
use advanced_distributed_sys.Crdt.PnCounter
use advanced_distributed_sys.Crdt.PnCounter.{PnCounter}
use advanced_distributed_sys.Crdt.OrSet
use advanced_distributed_sys.Crdt.OrSet.{OrSet}
use advanced_distributed_sys.Crdt.MvRegister
use advanced_distributed_sys.Crdt.MvRegister.{MvRegister}

pub data CrdtType : Type 0 where
  gcounter pncounter orset mvregister : CrdtType

-- the union of the four classes
pub data CrdtState : Type 0 where
  of_gcounter : GCounter → CrdtState
  of_pncounter : PnCounter → CrdtState
  of_orset : OrSet → CrdtState
  of_mvregister : MvRegister → CrdtState

-- the type whose `_EXPECTED_STATE` is the class of the state
abbrev pub type_of : CrdtState → CrdtType
type_of (of_gcounter g) = gcounter
type_of (of_pncounter c) = pncounter
type_of (of_orset s) = orset
type_of (of_mvregister r) = mvregister

-- `a is b` on types
abbrev pub same_type : CrdtType → CrdtType → Bool
same_type gcounter gcounter = true
same_type pncounter pncounter = true
same_type orset orset = true
same_type mvregister mvregister = true
same_type _ _ = false

pub record StoredCrdtEntry : Type 0 where
  pub key : Str
  pub crdt_type : CrdtType
  pub state : CrdtState
  pub state_version : VersionVector
  pub causal_context : VersionVector

-- `StoredCrdtEntry(...)`, with the guards of `__post_init__`
unfoldable pub make_entry :
    Str → CrdtType → CrdtState → VersionVector → VersionVector → Result StoredCrdtEntry
make_entry [] crdt_type state state_version causal_context = raise value_error
make_entry (c ∷ key) crdt_type state state_version causal_context =
    if not (same_type crdt_type (type_of state))
    then raise type_error
    else ok (record {
      key = c ∷ key;
      crdt_type = crdt_type;
      state = state;
      state_version = state_version;
      causal_context = causal_context;
    })

unfoldable pub with_context : StoredCrdtEntry → VersionVector → Result StoredCrdtEntry
unfolding make_entry
with_context e causal_context = make_entry e.key e.crdt_type e.state e.state_version causal_context

-- `_merge_state`
unfoldable pub merge_state : CrdtState → CrdtState → Result CrdtState
merge_state (of_gcounter g) (of_gcounter h) = ok (of_gcounter (GCounter.merge g h))
merge_state (of_pncounter c) (of_pncounter d) = ok (of_pncounter (PnCounter.merge c d))
merge_state (of_orset s) (of_orset t) = ok (of_orset (OrSet.merge s t))
merge_state (of_mvregister r) (of_mvregister s) = MvRegister.merge r s >>= λ m. ok (of_mvregister m)
merge_state _ _ = raise type_error

unfoldable pub merge_entries : StoredCrdtEntry → StoredCrdtEntry → Result StoredCrdtEntry
unfolding make_entry merge_state
merge_entries left right =
    if not (same left.key right.key)
    then raise value_error
    else if not (same_type left.crdt_type right.crdt_type)
    then raise type_error
    else merge_state left.state right.state >>= λ state.
        make_entry left.key left.crdt_type state
          (Version.merge left.state_version right.state_version)
          (Version.merge left.causal_context right.causal_context)
