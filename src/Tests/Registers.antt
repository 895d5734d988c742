-- ===== src/Tests/Registers.antt =====
-- The multi-value register at concrete inputs, with numbers as its values: a number is encoded as a
-- text of one code point.
use advanced_distributed_sys.Base.{ℕ, ◌≡◌, ◌≢◌, refl, [], ◌∷◌, none, some, ok, arith, if◌then◌else◌}
use advanced_distributed_sys.Order.{Str, list_ord, nat_ord, pair_ord, same}
use advanced_distributed_sys.Causal.Actor.{Dot, actor_ord, dot_ord}
use advanced_distributed_sys.Sorted.{find}
use advanced_distributed_sys.Sorted.FrozenSet
use advanced_distributed_sys.Crdt.MvRegister.{MvRegister, IsValid, empty, write, merge}
use advanced_distributed_sys.Crdt.MvRegister.Reads.{visible, concurrent_writes}

abbrev encode : ℕ → Str
encode n = n ∷ []

abbrev decode : Str → ℕ
decode [] = 0
decode (n ∷ _) = n

abbrev first_dot : Dot
first_dot = record { actor = record { node_id = 97 ∷ []; incarnation = 1 }; counter = 1 }

abbrev second_dot : Dot
second_dot = record { actor = record { node_id = 98 ∷ []; incarnation = 1 }; counter = 1 }

abbrev old : MvRegister
old = record { entries = (first_dot, 5 ∷ []) ∷ []; superseded = [] }

abbrev new : MvRegister
new = record { entries = (second_dot, 6 ∷ []) ∷ []; superseded = (first_dot, tt) ∷ [] }

old-IsValid : IsValid old
old-IsValid = record { sorted = (tt, tt); superseded = tt }

new-IsValid : IsValid new
new-IsValid = record { sorted = (tt, tt); superseded = (tt, tt) }

empty-IsValid : IsValid empty
empty-IsValid = record { sorted = tt; superseded = tt }

dots_differ : first_dot ≢ second_dot
dots_differ e = ground arith

concurrent_writes_example :
    (t : MvRegister) × (merge
        (write encode decode empty 7 first_dot)
        (write encode decode empty 8 second_dot)
      ≡ ok t)
    × ((x : Dot)
        → visible t x ≡ (
            if same first_dot x
            then some (7 ∷ [])
            else if same second_dot x
            then some (8 ∷ [])
            else none))
unfolding find FrozenSet.contains
concurrent_writes_example =
    concurrent_writes encode decode empty 7 8 first_dot second_dot empty-IsValid (refl, refl)
      (refl, refl) dots_differ
