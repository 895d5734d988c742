-- ===== src/Persistence/Repository.antt =====
-- persistence/repository.py and persistence/sqlite_repository.py: the repository of the durable state. The
-- file is its three tables. Each call runs in one transaction, which either goes through or raises and
-- leaves the tables as they were: that is SQLite's part. The columns are what the codec makes.
use advanced_distributed_sys.Base.{
  ℕ, ◌≡◌, Bool, true, false, not, List, [], ◌∷◌, Option, none, some, Result, ok, raise, Error,
  value_error, persistence_unavailable, node_identity_mismatch, if◌then◌else◌, ◌>>=◌, ◌>>◌,
  raise_if, max,
}
use advanced_distributed_sys.Base.Int.{pos}
use advanced_distributed_sys.Order.{Str, list_ord, nat_ord, same}
use advanced_distributed_sys.Sorted.{find, put, sort_items}
use advanced_distributed_sys.Causal.Actor.{CausalActor, make_actor}
use advanced_distributed_sys.Causal.Version
use advanced_distributed_sys.Causal.Version.{VersionVector, get}
use advanced_distributed_sys.Storage.Entry.{StoredCrdtEntry}
use advanced_distributed_sys.Storage.Entry.Merging
use advanced_distributed_sys.Persistence.Models.{
  DurableNodeIdentity, make_identity, DurableCausalState, make_state,
}

-- the columns of an entry
pub record EncodedCrdtEntry : Type 0 where
  pub key : Str
  pub crdt_type : Str
  pub state_json : Str
  pub state_version_json : Str
  pub causal_context_json : Str

-- what the repository uses of its codec
pub record Codec : Type 0 where
  pub encode_version_vector : VersionVector → Str
  pub decode_version_vector : Str → Result VersionVector
  pub encode_entry : StoredCrdtEntry → Result EncodedCrdtEntry
  pub decode_entry : EncodedCrdtEntry → Result StoredCrdtEntry

-- an entry that is written has a row under its key that reads back as the entry
abbrev pub ReadsBack : Codec → StoredCrdtEntry → Type 0
ReadsBack codec e =
    (row : EncodedCrdtEntry) × (codec.encode_entry e ≡ ok row)
    × (row.key ≡ e.key)
    × (codec.decode_entry row ≡ ok e)

-- the codec's round trips
pub record RoundTrips (codec : Codec) : Type 0 where
  pub vectors :
      (v : VersionVector)
      → Version.IsValid v
      → codec.decode_version_vector (codec.encode_version_vector v) ≡ ok v
  pub entries : (e : StoredCrdtEntry) → Merging.IsValid e → ReadsBack codec e

pub record Row : Type 0 where
  pub columns : EncodedCrdtEntry
  pub last_authoritative : Bool

pub record Database : Type 0 where
  pub is_open : Bool
  pub identity : Option DurableNodeIdentity
  pub clock : Option (ℕ × Str)
  pub rows : List (Str × Row)

-- how a transaction ends: as it should, or by an exception of the executor or of SQLite
pub data Access : Type 0 where
  goes : Access
  refuses : Error → Access

-- `_ensure_open`
unfoldable pub ensure_open : Database → Result (Unit {0})
ensure_open db = raise_if (not db.is_open) persistence_unavailable

abbrev pub accessed : {A : Type 0} → Access → Result A → Result A
accessed goes r = r
accessed (refuses e) r = raise e

-- a transaction that writes: the tables after it, where it raises nothing
abbrev pub written : {A : Type 0} → Database → Result (Database × A) → Database × Result A
written db (raise e) = (db, raise e)
written db (ok (db', a)) = (db', ok a)

-- `open` and `close`, where the file can be opened
unfoldable pub open_repository : Access → Database → Database × Result (Unit {0})
open_repository goes db = (record db { is_open = true }, ok tt)
open_repository (refuses e) db = (db, raise e)

unfoldable pub close_repository : Database → Database
close_repository db = record db { is_open = false }

unfoldable pub integrity_check : Access → Database → Result (Unit {0})
unfolding ensure_open
integrity_check access db = ensure_open db >> accessed access (ok tt)

unfoldable pub load_identity : Access → Database → Result (Option DurableNodeIdentity)
unfolding ensure_open
load_identity access db = ensure_open db >> accessed access (ok db.identity)

-- the identity that is there, or a new one with a reading of the clock as its incarnation
unfoldable pub identity_or_new :
    (now : ℕ) (fresh_uuid configured_node_id : Str)
    → Option DurableNodeIdentity
    → Result DurableNodeIdentity
unfolding make_identity
identity_or_new now fresh_uuid configured_node_id none =
    make_identity fresh_uuid configured_node_id (pos (max 1 now))
identity_or_new now fresh_uuid configured_node_id (some identity) =
    if not (same identity.configured_node_id configured_node_id)
    then raise node_identity_mismatch
    else ok identity

abbrev pub is_blank : Str → Bool
is_blank [] = true
is_blank (c ∷ cs) = false

unfoldable pub initialize_identity :
    (now : ℕ) (fresh_uuid : Str) → Access → Str → Database → Database × Result DurableNodeIdentity
unfolding ensure_open identity_or_new
initialize_identity now fresh_uuid access configured_node_id db = written db (
    ensure_open db
    >> (raise_if (is_blank configured_node_id) value_error
        >> accessed access (
            identity_or_new now fresh_uuid configured_node_id db.identity >>= λ identity.
            ok (record db { identity = some identity }, identity))))

-- the actor of an identity
unfoldable pub actor_of : DurableNodeIdentity → Result CausalActor
actor_of identity = make_actor identity.configured_node_id (pos identity.causal_incarnation)

module _ (codec : Codec) where
  -- the row of the clock, read with the row of the identity
  unfoldable pub clock_of :
      Option DurableNodeIdentity → Option (ℕ × Str) → Result (Option DurableCausalState)
  unfolding actor_of make_state
  clock_of none row = ok none
  clock_of (some identity) none = ok none
  clock_of (some identity) (some (local_counter, frontier_json)) = do
    actor ← actor_of identity
    frontier ← codec.decode_version_vector frontier_json
    state ← make_state actor (pos local_counter) frontier
    ok (some state)

  unfoldable pub load_clock : Access → Database → Result (Option DurableCausalState)
  unfolding ensure_open clock_of
  load_clock access db = ensure_open db >> accessed access (clock_of db.identity db.clock)

  unfoldable pub upsert_clock : DurableCausalState → Database → Database
  upsert_clock state db = record db {
    clock = some (state.local_counter, codec.encode_version_vector state.frontier);
  }

  unfoldable pub save_clock : Access → DurableCausalState → Database → Database × Result (Unit {0})
  unfolding ensure_open upsert_clock
  save_clock access state db =
      written db (ensure_open db >> accessed access (ok (upsert_clock state db, tt)))

  unfoldable pub upsert_entry : EncodedCrdtEntry → Bool → Database → Database
  upsert_entry encoded authoritative db = record db {
    rows =
        put encoded.key (record { columns = encoded; last_authoritative = authoritative }) db.rows;
  }

  -- the columns of the rows, `ORDER BY key`, decoded
  unfoldable pub decode_rows : List (Str × Row) → Result (List StoredCrdtEntry)
  decode_rows [] = ok []
  decode_rows ((k, row) ∷ rows) = do
    e ← codec.decode_entry row.columns
    rest ← decode_rows rows
    ok (e ∷ rest)

  unfoldable pub load_entries : Access → Database → Result (List StoredCrdtEntry)
  unfolding ensure_open decode_rows
  load_entries access db = ensure_open db >> accessed access (decode_rows (sort_items db.rows))

  -- `_commit_entry_and_clock`, which both of its callers give as authoritative
  unfoldable pub commit_entry_and_clock :
      Access → StoredCrdtEntry → DurableCausalState → Bool → Database → Database × Result (Unit {0})
  unfolding ensure_open upsert_clock upsert_entry
  commit_entry_and_clock access entry causal_state authoritative db = written db (
      ensure_open db
      >> (codec.encode_entry entry >>= λ encoded.
          accessed access
            (ok (upsert_entry encoded authoritative (upsert_clock causal_state db), tt))))

  unfoldable pub commit_mutation :
      Access → StoredCrdtEntry → DurableCausalState → Database → Database × Result (Unit {0})
  unfolding commit_entry_and_clock
  commit_mutation access entry causal_state db =
      commit_entry_and_clock access entry causal_state true db

  unfoldable pub commit_observed_entry :
      Access → StoredCrdtEntry → DurableCausalState → Database → Database × Result (Unit {0})
  unfolding commit_entry_and_clock
  commit_observed_entry access entry causal_state db =
      commit_entry_and_clock access entry causal_state true db

-- the update of the row under a key, if there is one
unfoldable pub mark_row : Str → Bool → List (Str × Row) → List (Str × Row)
mark_row key authoritative rows = elim (find key rows) [
  | none ↦ rows
  | some row ↦ put key (record row { last_authoritative = authoritative }) rows
]

unfoldable pub mark_authority : Access → Str → Bool → Database → Database × Result (Unit {0})
unfolding ensure_open mark_row
mark_authority access key authoritative db = written db (
    ensure_open db
    >> accessed access (ok (record db { rows = mark_row key authoritative db.rows }, tt)))
