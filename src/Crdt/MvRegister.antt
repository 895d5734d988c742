-- ===== src/Crdt/MvRegister.antt =====
-- crdt/mvregister.py: the multi-value register. `json` is not the program's: its canonical encoding
-- and its decoding are the parameters of `write` and `values`.
pub mod Merge
pub mod Redelivery
pub mod Reads
use advanced_distributed_sys.Base.{
  ◌≡◌, Bool, true, false, not, List, [], ◌∷◌, Option, none, some, Result, ok, raise, value_error,
  if◌then◌else◌, ◌>>=◌,
}
use advanced_distributed_sys.Order.{Str, str_ord, list_ord, nat_ord, same}
use advanced_distributed_sys.Sorted.{find, put, sort_items, IsSorted}
use advanced_distributed_sys.Sorted.FrozenSet
use advanced_distributed_sys.Sorted.FrozenSet.{FrozenSet}
use advanced_distributed_sys.Causal.Actor.{Dot, dot_ord}

pub record MvRegister : Type 0 where
  pub entries : List (Dot × Str)
  pub superseded : FrozenSet Dot

-- `MvRegister(values, superseded)`
unfoldable pub make : List (Dot × Str) → FrozenSet Dot → MvRegister
make values superseded = record { entries = sort_items values; superseded = superseded }

abbrev pub empty : MvRegister
empty = record { entries = []; superseded = [] }

-- the set comprehension of `write`
unfoldable pub visible_dots : List (Dot × Str) → FrozenSet Dot → FrozenSet Dot
visible_dots [] superseded = []
visible_dots ((d, x) ∷ entries) superseded =
    let rest = visible_dots entries superseded in
    if FrozenSet.contains d superseded then rest else FrozenSet.insert d rest

unfoldable pub visible_texts : List (Dot × Str) → FrozenSet Dot → List Str
visible_texts [] superseded = []
visible_texts ((d, x) ∷ entries) superseded =
    let rest = visible_texts entries superseded in
    if FrozenSet.contains d superseded then rest else x ∷ rest

-- the loop of `merge` over the other side's items
unfoldable pub merge_values : List (Dot × Str) → List (Dot × Str) → Result (List (Dot × Str))
merge_values values [] = ok values
merge_values values ((d, x) ∷ others) =
    let rest = merge_values (put d x values) others in
    elim (find d values) [ none ↦ rest | some y ↦ if same y x then rest else raise value_error ]

unfoldable pub merge : MvRegister → MvRegister → Result MvRegister
unfolding make merge_values
merge r s = do
  values ← merge_values r.entries s.entries
  ok (make values (FrozenSet.union r.superseded s.superseded))

module _ {V : Type 0} (encode : V → Str) (decode : Str → V) where
  unfoldable pub write : MvRegister → V → Dot → MvRegister
  unfolding make visible_dots
  write r v dot =
      make (put dot (encode v) r.entries)
        (FrozenSet.union r.superseded (visible_dots r.entries r.superseded))

  decode_all : List Str → List V
  decode_all [] = []
  decode_all (x ∷ xs) = decode x ∷ decode_all xs

  unfoldable pub values : MvRegister → List V
  unfolding visible_texts decode_all
  values r = decode_all (visible_texts r.entries r.superseded)

pub record IsValid (r : MvRegister) : Type 0 where
  pub sorted : IsSorted r.entries
  pub superseded : IsSorted r.superseded
