-- ===== src/Storage/Store.antt =====
-- storage/crdt_store.py: the store. An operation under the lock of its key is one step; `replace` takes
-- no such lock, and is called by those who hold it.
pub mod Typed
pub mod Delivery
use advanced_distributed_sys.Base.{
  ℕ, Bool, true, false, List, [], ◌∷◌, Option, none, some, Result, ok, raise, value_error,
  type_error, not, ◌&&◌, if◌then◌else◌, take,
}
use advanced_distributed_sys.Base.Int.{ℤ, pos, negsuc}
use advanced_distributed_sys.Order.{Str, str_ord, list_ord, nat_ord}
use advanced_distributed_sys.Sorted.{find, put, sort_items}
use advanced_distributed_sys.Causal.Version
use advanced_distributed_sys.Causal.Version.{VersionVector}
use advanced_distributed_sys.Storage.Entry.{
  CrdtType, StoredCrdtEntry, same_type, with_context, merge_entries,
}

-- The entries by key. The locks are the steps themselves.
pub record CrdtStore : Type 0 where
  pub entries : List (Str × StoredCrdtEntry)

abbrev pub empty : CrdtStore
empty = record { entries = [] }

unfoldable pub get : Str → CrdtStore → Option StoredCrdtEntry
get key s = find key s.entries

-- the guard of an entry that is there already
abbrev pub retypes : CrdtType → Option StoredCrdtEntry → Bool
retypes t none = false
retypes t (some existing) = not (same_type existing.crdt_type t)

unfoldable pub put_if_absent : StoredCrdtEntry → CrdtStore → CrdtStore × Result StoredCrdtEntry
unfolding get
put_if_absent entry s = elim (get entry.key s) [
  | none ↦ (record s { entries = put entry.key entry s.entries }, ok entry)
  | some existing ↦
      if not (same_type existing.crdt_type entry.crdt_type)
      then (s, raise type_error)
      else (s, ok existing)
]

-- the guard on the type that the caller expects
abbrev pub unexpected : Option CrdtType → Option StoredCrdtEntry → Bool
unexpected none o = false
unexpected (some t) o = retypes t o

unfoldable pub replace :
    StoredCrdtEntry → Option CrdtType → CrdtStore → CrdtStore × Result StoredCrdtEntry
unfolding get
replace entry expected s =
    if unexpected expected (get entry.key s)
    then (s, raise type_error)
    else if retypes entry.crdt_type (get entry.key s)
    then (s, raise type_error)
    else (record s { entries = put entry.key entry s.entries }, ok entry)

-- the replacement of an entry by what was made of it, where that raised nothing
unfoldable pub replace_by :
    StoredCrdtEntry → Result StoredCrdtEntry → CrdtStore → CrdtStore × Result StoredCrdtEntry
unfolding replace
replace_by existing (ok updated) s = replace updated (some existing.crdt_type) s
replace_by existing (raise e) s = (s, raise e)

unfoldable pub merge_entry : StoredCrdtEntry → CrdtStore → CrdtStore × Result StoredCrdtEntry
unfolding get replace replace_by
merge_entry incoming s = elim (get incoming.key s) [
  | none ↦ replace incoming none s
  | some existing ↦ replace_by existing (merge_entries existing incoming) s
]

-- the result of `merge_metadata`, which is `None` for a key that is not stored
unfoldable pub as_some :
    CrdtStore × Result StoredCrdtEntry → CrdtStore × Result (Option StoredCrdtEntry)
as_some (s, ok e) = (s, ok (some e))
as_some (s, raise e) = (s, raise e)

unfoldable pub merge_metadata :
    Str → VersionVector → CrdtStore → CrdtStore × Result (Option StoredCrdtEntry)
unfolding get replace_by as_some
merge_metadata key causal_context s = elim (get key s) [
  | none ↦ (s, ok none)
  | some existing ↦ as_some (
      replace_by existing
        (with_context existing (Version.merge existing.causal_context causal_context)) s)
]

unfoldable pub keys_of : List (Str × StoredCrdtEntry) → List Str
keys_of [] = []
keys_of ((k, e) ∷ m) = k ∷ keys_of m

unfoldable pub keys : CrdtStore → List Str
unfolding keys_of
keys s = keys_of (sort_items s.entries)

unfoldable pub entries_of : List (Str × StoredCrdtEntry) → List StoredCrdtEntry
entries_of [] = []
entries_of ((k, e) ∷ m) = e ∷ entries_of m

unfoldable pub snapshot_all : Option ℤ → CrdtStore → Result (List StoredCrdtEntry)
unfolding entries_of
snapshot_all none s = ok (entries_of (sort_items s.entries))
snapshot_all (some (negsuc n)) s = raise value_error
snapshot_all (some (pos limit)) s = ok (take limit (entries_of (sort_items s.entries)))

-- the calls that may change the store
pub data StoreCall : Type 0 where
  puts : StoredCrdtEntry → StoreCall
  replaces : StoredCrdtEntry → Option CrdtType → StoreCall
  merges : StoredCrdtEntry → StoreCall
  learns : Str → VersionVector → StoreCall

unfoldable pub step : StoreCall → CrdtStore → CrdtStore
step (puts e) s = (put_if_absent e s).0
step (replaces e t) s = (replace e t s).0
step (merges e) s = (merge_entry e s).0
step (learns key context) s = (merge_metadata key context s).0

unfoldable pub run : List StoreCall → CrdtStore → CrdtStore
unfolding step
run [] s = s
run (call ∷ calls) s = run calls (step call s)
