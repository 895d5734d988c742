-- ===== src/Causal/Version/Lattice.antt =====
-- Version vectors as a join-semilattice: `merge` is the least upper bound of the pointwise order.
use advanced_distributed_sys.Base.{ℕ, ◌≤◌, ◌<◌, ◌≡◌, ◌↔◌, ap, arith, max, if◌then◌else◌, List}
use advanced_distributed_sys.Order.{same}
use advanced_distributed_sys.Counts.Laws
use advanced_distributed_sys.Causal.Actor.{CausalActor, Dot, actor_ord}
use advanced_distributed_sys.Causal.Version.{VersionVector, IsValid, get, merge, with_dot}

-- every event that `v` knows is known to `w`
abbrev pub ◌⊑◌ : VersionVector → VersionVector → Type 0
◌⊑◌ v w = (a : CausalActor) → get v a ≤ get w a

infix 50 ◌⊑◌
of_entries : List (CausalActor × ℕ) → VersionVector
of_entries m = record { entries = m }

pub ext :
    (v w : VersionVector) → IsValid v → IsValid w → ((a : CausalActor) → get v a ≡ get w a) → v ≡ w
unfolding get of_entries
ext v w p q h = ap of_entries (Laws.IsCounts-ext v.entries w.entries p q h)

pub get-merge :
    (v w : VersionVector) (a : CausalActor) → get (merge v w) a ≡ max (get v a) (get w a)
unfolding get merge
get-merge v w a = Laws.get-merge v.entries w.entries a

pub merge-IsValid : (v w : VersionVector) → IsValid (merge v w)
unfolding merge
merge-IsValid v w = Laws.merge-IsCounts v.entries w.entries

pub get-with_dot :
    (v : VersionVector) (d : Dot) (a : CausalActor)
    → IsValid v
    → get (with_dot v d) a ≡ (if same d.actor a then max (get v d.actor) d.counter else get v a)
unfolding get with_dot
get-with_dot v d a h = Laws.get-put_counts v.entries d.actor a _ h

pub with_dot-IsValid : (v : VersionVector) (d : Dot) → IsValid v → IsValid (with_dot v d)
unfolding with_dot
with_dot-IsValid v d h = Laws.put-IsCounts v.entries d.actor _ h

-- A new event of an actor becomes its count, and nothing known is lost.
pub get-with_dot_self :
    (v : VersionVector) (d : Dot)
    → IsValid v
    → get v d.actor < d.counter
    → get (with_dot v d) d.actor ≡ d.counter
get-with_dot_self v d h lt = ground (arith, get-with_dot v d d.actor h, actor_ord.cmp_self d.actor)

pub with_dot-le : (v : VersionVector) (d : Dot) → IsValid v → v ⊑ with_dot v d
with_dot-le v d h a = ground (arith, get-with_dot v d a h, actor_ord.cmp_eq d.actor a)

pub merge_comm : (v w : VersionVector) → merge v w ≡ merge w v
unfolding merge of_entries
merge_comm v w = ap of_entries (Laws.merge_comm v.entries w.entries)

-- The merge of three vectors is the same whichever pair is merged first.
pub merge_assoc : (u v w : VersionVector) → merge (merge u v) w ≡ merge u (merge v w)
unfolding merge of_entries
merge_assoc u v w = ap of_entries (Laws.merge_assoc u.entries v.entries w.entries)

pub merge_self : (v : VersionVector) → IsValid v → merge v v ≡ v
unfolding merge of_entries
merge_self v h = ap of_entries (Laws.merge_self v.entries h)

-- The merge is the join: a vector knows all that the merge does exactly if it knows all that both
-- sides do.
pub merge-least_iff : (u v w : VersionVector) → (merge v w ⊑ u) ↔ ((v ⊑ u) × (w ⊑ u))
merge-least_iff u v w = (
  λ h. ((λ a. omega (arith, get-merge v w a, h a)), λ a. omega (arith, get-merge v w a, h a)),
  λ p a. omega (arith, get-merge v w a, p.0 a, p.1 a),
)
