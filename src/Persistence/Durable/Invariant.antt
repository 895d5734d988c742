-- ===== src/Persistence/Durable/Invariant.antt =====
-- What the file of a node holds at every moment: each entry of its memory, and a clock that knows all
-- that is persisted.
use advanced_distributed_sys.Base.{
  ◌≡◌, refl, sym, ap, true, false, Option, none, some, Result, ok, raise, Error, arith, ◌>>=◌,
  Bool-cases, inl, inr,
}
use mathlib.Core.Path.{subst}
use advanced_distributed_sys.Order.{Str, list_ord, nat_ord, same}
use advanced_distributed_sys.Sorted.{find, put, Distinct}
use advanced_distributed_sys.Sorted.Laws.{find-put, put-Distinct}
use advanced_distributed_sys.Causal.Actor.{CausalActor}
use advanced_distributed_sys.Causal.Version
use advanced_distributed_sys.Causal.Version.{VersionVector, get}
use advanced_distributed_sys.Causal.Version.Lattice.{◌⊑◌}
use advanced_distributed_sys.Causal.Clock.{settle}
use advanced_distributed_sys.Storage.Entry.{StoredCrdtEntry}
use advanced_distributed_sys.Storage.Entry.Merging
use advanced_distributed_sys.Storage.Store
use advanced_distributed_sys.Storage.Store.{CrdtStore, replace, retypes}
use advanced_distributed_sys.Storage.Store.Delivery
use advanced_distributed_sys.Storage.Store.Delivery.{put-IsValid}
use advanced_distributed_sys.Persistence.Models.{
  DurableNodeIdentity, DurableCausalState, make_state-get,
}
use advanced_distributed_sys.Persistence.Repository.{
  Codec, RoundTrips, EncodedCrdtEntry, Row, Access, goes, refuses, ensure_open, actor_of,
  upsert_clock, upsert_entry, commit_entry_and_clock, commit_observed_entry,
}
use advanced_distributed_sys.Persistence.Durable.{
  DurableCrdtStore, remember, committed, observed, store_observed,
}

-- the entry of a row
abbrev pub decoded_row : Codec → Option Row → Result (Option StoredCrdtEntry)
decoded_row codec none = ok none
decoded_row codec (some row) = codec.decode_entry row.columns >>= λ e. ok (some e)

-- an actor, and what it had saved
abbrev pub Floor : Type 0
Floor = CausalActor × VersionVector

-- The file of an open repository belongs to the clock's actor, has a row for each entry of the memory
-- that reads back as it and no other, and a clock that the memory's clock knows, and that knows the floor: what an actor had saved.
pub record IsDurable (codec : Codec) (floor : Floor) (s : DurableCrdtStore) : Type 0 where
  pub opened : s.database.is_open ≡ true
  pub identity : DurableNodeIdentity
  pub identified : s.database.identity ≡ some identity
  pub owner : actor_of identity ≡ ok s.clock.actor
  pub memory : Delivery.IsValid s.memory
  pub distinct : Distinct s.database.rows
  pub rows : (k : Str) → decoded_row codec (find k s.database.rows) ≡ ok (find k s.memory.entries)
  pub saved : VersionVector
  pub saved_valid : Version.IsValid saved
  pub clock_row :
      s.database.clock ≡ some (get saved s.clock.actor, codec.encode_version_vector saved)
  pub known : saved ⊑ s.clock.frontier
  pub frontier_valid : Version.IsValid s.clock.frontier
  pub owned : s.clock.actor ≡ floor.0
  pub floor_known : floor.1 ⊑ saved

-- the state of a frontier
abbrev pub state_of : DurableCrdtStore → VersionVector → DurableCausalState
state_of s frontier = record {
  actor = s.clock.actor;
  local_counter = get frontier s.clock.actor;
  frontier = frontier;
}

-- the node with an entry persisted and remembered, and its clock at a frontier
abbrev pub stored :
    Codec → DurableCrdtStore → StoredCrdtEntry → EncodedCrdtEntry → VersionVector → DurableCrdtStore
stored codec s entry row frontier = record {
  memory = record { entries = put entry.key entry s.memory.entries };
  clock = record { actor = s.clock.actor; frontier = frontier };
  database = upsert_entry codec row true (upsert_clock codec (state_of s frontier) s.database);
}

module _ (codec : Codec) (laws : RoundTrips codec) where
  pub replace_typed :
      (entry : StoredCrdtEntry) (memory : CrdtStore)
      → retypes entry.crdt_type (find entry.key memory.entries) ≡ false
      → replace entry (some entry.crdt_type) memory
        ≡ (record memory { entries = put entry.key entry memory.entries }, ok entry)
  unfolding replace Store.get
  replace_typed entry memory h = rw h refl

  pub stored-IsDurable :
      (floor : Floor) (s : DurableCrdtStore) (entry : StoredCrdtEntry) (row : EncodedCrdtEntry)
      (frontier : VersionVector)
      → IsDurable codec floor s
      → Merging.IsValid entry
      → row.key ≡ entry.key
      → codec.decode_entry row ≡ ok entry
      → Version.IsValid frontier
      → s.clock.frontier ⊑ frontier
      → IsDurable codec (floor.0, frontier) (stored codec s entry row frontier)
  unfolding upsert_entry upsert_clock
  stored-IsDurable floor s entry row frontier d v k r f l = record {
    opened = d.opened;
    identity = d.identity;
    identified = d.identified;
    owner = d.owner;
    memory = put-IsValid entry.key entry s.memory d.memory refl v;
    distinct =
        put-Distinct row.key (record { columns = row; last_authoritative = true }) s.database.rows
          d.distinct;
    rows = λ j.
        let columns : Row = record { columns = row; last_authoritative = true } in
        let here = ap (λ (i : Str). same i j) k in
        rw
          (
            find-put row.key j columns s.database.rows,
            find-put entry.key j entry s.memory.entries,
            here,
          )
          (elim (Bool-cases (same entry.key j)) [
            | inl e ↦ rw (e, r) refl
            | inr e ↦ rw e (d.rows j)
          ]);
    saved = frontier;
    saved_valid = f;
    clock_row = refl;
    known = λ a. omega arith;
    frontier_valid = f;
    owned = d.owned;
    floor_known = λ a. omega arith;
  }

  pub floor_below :
      (low floor : VersionVector) (actor : CausalActor) (s : DurableCrdtStore)
      → low ⊑ floor
      → IsDurable codec (actor, floor) s
      → IsDurable codec (actor, low) s
  floor_below low floor actor s l d = record {
    opened = d.opened;
    identity = d.identity;
    identified = d.identified;
    owner = d.owner;
    memory = d.memory;
    distinct = d.distinct;
    rows = d.rows;
    saved = d.saved;
    saved_valid = d.saved_valid;
    clock_row = d.clock_row;
    known = d.known;
    frontier_valid = d.frontier_valid;
    owned = d.owned;
    floor_known = λ a. omega (arith, l a, d.floor_known a);
  }

  -- the transaction of an entry that is written
  pub commit-goes :
      (s : DurableCrdtStore) (entry : StoredCrdtEntry) (row : EncodedCrdtEntry)
      (frontier : VersionVector)
      → s.database.is_open ≡ true
      → codec.encode_entry entry ≡ ok row
      → commit_entry_and_clock codec goes entry (state_of s frontier) true s.database
        ≡ (upsert_entry codec row true (upsert_clock codec (state_of s frontier) s.database), ok tt)
  unfolding commit_entry_and_clock ensure_open
  commit-goes s entry row frontier o e = rw (o, e) refl

  pub commit-refuses :
      (s : DurableCrdtStore) (entry : StoredCrdtEntry) (row : EncodedCrdtEntry) (x : Error)
      (frontier : VersionVector)
      → s.database.is_open ≡ true
      → codec.encode_entry entry ≡ ok row
      → commit_entry_and_clock codec (refuses x) entry (state_of s frontier) true s.database
        ≡ (s.database, raise x)
  unfolding commit_entry_and_clock ensure_open
  commit-refuses s entry row x frontier o e = rw (o, e) refl

  -- What a write of a valid entry may give: the exception of the access, which changes nothing, or the
  -- entry, persisted and remembered, and the clock at the frontier.
  abbrev pub Writes :
      Access
      → DurableCrdtStore
      → StoredCrdtEntry
      → VersionVector
      → DurableCrdtStore × Result StoredCrdtEntry
      → Type 0
  Writes goes s entry frontier (s', r) =
      (r ≡ ok entry)
      × (row : EncodedCrdtEntry) × (codec.encode_entry entry ≡ ok row)
      × (row.key ≡ entry.key)
      × (codec.decode_entry row ≡ ok entry)
      × (s' ≡ stored codec s entry row frontier)
  Writes (refuses x) s entry frontier (s', r) = (r ≡ raise x) × (s' ≡ s)

  pub Writes-IsDurable :
      (access : Access) (floor : Floor) (s : DurableCrdtStore) (entry : StoredCrdtEntry)
      (frontier : VersionVector) (x : DurableCrdtStore × Result StoredCrdtEntry)
      → IsDurable codec floor s
      → Merging.IsValid entry
      → Version.IsValid frontier
      → s.clock.frontier ⊑ frontier
      → Writes access s entry frontier x
      → IsDurable codec floor x.0
  Writes-IsDurable (refuses e) floor s entry frontier (s', r) d v f l (_, i) =
      subst (IsDurable codec floor) (sym i) d
  Writes-IsDurable goes floor s entry frontier (s', r) d v f l (_, row, _, k, dec, i) =
      subst (IsDurable codec floor) (sym i) (
        floor_below floor.1 frontier floor.0 (stored codec s entry row frontier)
          (λ a. omega (arith, d.floor_known a, d.known a, l a))
          (stored-IsDurable floor s entry row frontier d v k dec f l))

  store_observed-goes :
      (s : DurableCrdtStore) (entry : StoredCrdtEntry) (row : EncodedCrdtEntry)
      → s.database.is_open ≡ true
      → codec.encode_entry entry ≡ ok row
      → retypes entry.crdt_type (find entry.key s.memory.entries) ≡ false
      → store_observed codec goes entry entry.crdt_type s
        ≡ (stored codec s entry row (Version.merge s.clock.frontier entry.causal_context), ok entry)
  unfolding store_observed commit_observed_entry committed remember observed settle
  store_observed-goes s entry row o e h =
      let frontier = Version.merge s.clock.frontier entry.causal_context in
      rw
        (
          store_observed,
          make_state-get s.clock.actor frontier,
          commit-goes s entry row frontier o e,
          replace_typed entry s.memory h,
        )
        refl

  store_observed-refuses :
      (s : DurableCrdtStore) (entry : StoredCrdtEntry) (row : EncodedCrdtEntry) (x : Error)
      → s.database.is_open ≡ true
      → codec.encode_entry entry ≡ ok row
      → store_observed codec (refuses x) entry entry.crdt_type s ≡ (s, raise x)
  unfolding store_observed commit_observed_entry committed remember observed settle
  store_observed-refuses s entry row x o e =
      let frontier = Version.merge s.clock.frontier entry.causal_context in
      rw
        (
          store_observed,
          make_state-get s.clock.actor frontier,
          commit-refuses s entry row x frontier o e,
        )
        refl

  pub store_observed-Writes :
      (access : Access) (floor : Floor) (s : DurableCrdtStore) (entry : StoredCrdtEntry)
      → IsDurable codec floor s
      → Merging.IsValid entry
      → retypes entry.crdt_type (find entry.key s.memory.entries) ≡ false
      → Writes access s entry
          (Version.merge s.clock.frontier entry.causal_context)
          (store_observed codec access entry entry.crdt_type s)
  store_observed-Writes goes floor s entry d v h =
      let (row, e, k, dec) = laws.entries entry v in
      rw (store_observed-goes s entry row d.opened e h) (refl, row, e, k, dec, refl)
  store_observed-Writes (refuses x) floor s entry d v h =
      let (row, e, k, dec) = laws.entries entry v in
      rw (store_observed-refuses s entry row x d.opened e) (refl, refl)
