-- ===== src/Causal/Clock/Progress.antt =====
-- The clock never loses knowledge, and never hands out one dot twice.
use advanced_distributed_sys.Base.{
  ◌+◌, ◌≤◌, ◌<◌, ◌≡◌, ◌⊎◌, Error, refl, false, List, [], ◌∷◌, Option, none, some, ok, raise, arith,
  All,
}
use advanced_distributed_sys.Causal.Actor.{Dot, actor_ord}
use advanced_distributed_sys.Causal.Version.{VersionVector, IsValid, get}
use advanced_distributed_sys.Causal.Version.Lattice.{
  ◌⊑◌, get-merge, merge-IsValid, get-with_dot_self, with_dot-le, with_dot-IsValid,
}
use advanced_distributed_sys.Causal.Clock.{
  CausalClock, CausalAllocation, Body, staged_allocation, observe, allocate, base_frontier,
  new_allocation,
}

base_frontier-IsValid :
    (v : VersionVector) (o : Option VersionVector) → IsValid v → IsValid (base_frontier v o)
unfolding base_frontier
base_frontier-IsValid v none h = h
base_frontier-IsValid v (some w) h = merge-IsValid v w

base_frontier-le : (v : VersionVector) (o : Option VersionVector) → v ⊑ base_frontier v o
unfolding base_frontier
base_frontier-le v none a = omega arith
base_frontier-le v (some w) a = omega (arith, get-merge v w a)

-- What an allocation promises: a dot of the clock's own actor, above all that the clock knew, and a
-- frontier that knows the dot, keeps what was known and adds nothing else of that actor.
pub record Allocates (c : CausalClock) (a : CausalAllocation) : Type 0 where
  pub own : a.dot.actor ≡ c.actor
  pub fresh : get c.frontier c.actor < a.dot.counter
  pub known : get a.frontier c.actor ≡ a.dot.counter
  pub kept : c.frontier ⊑ a.frontier
  pub valid : IsValid a.frontier

pub new_allocation-Allocates :
    (c : CausalClock) (o : Option VersionVector)
    → IsValid c.frontier
    → Allocates c (new_allocation c o)
unfolding new_allocation
new_allocation-Allocates c o h = record {
  own = refl;
  fresh = omega (arith, base_frontier-le c.frontier o c.actor);
  known = get-with_dot_self base dot valid (omega arith);
  kept = λ a. omega (arith, base_frontier-le c.frontier o a, with_dot-le base dot valid a);
  valid = with_dot-IsValid base dot valid;
}
  where
    base : VersionVector
    base = base_frontier c.frontier o

    dot : Dot
    dot = record { actor = c.actor; counter = get base c.actor + 1 }

    valid : IsValid base
    valid = base_frontier-IsValid c.frontier o h

-- Of a clock with a valid frontier, `allocate` never raises. It hands out a dot of the clock's
-- own actor, with a larger counter than any known, and the frontier that it returns, which is the
-- clock's new one, is valid and knows the dot and all that was known.
pub allocate-Allocates :
    (c : CausalClock) (o : Option VersionVector)
    → IsValid c.frontier
    → (a : CausalAllocation) × (allocate o c
        ≡ (record c { frontier = a.frontier }, ok (a.dot, a.frontier)))
      × Allocates c a
unfolding allocate
allocate-Allocates c o h = (new_allocation c o, refl, new_allocation-Allocates c o h)

-- A body that raises, or that does not commit, leaves the clock as it was.
pub staged_allocation-unchanged :
    {A : Type 0} (o : Option VersionVector) (body : Body CausalAllocation A) (c : CausalClock)
    → ((body (new_allocation c o)).0.committed ≡ false)
      ⊎ ((e : Error) × ((body (new_allocation c o)).1 ≡ raise e))
    → (staged_allocation o body c).0 ≡ c
unfolding staged_allocation
staged_allocation-unchanged o body c h = ground arith

pub observe-least :
    (c : CausalClock) (v : VersionVector)
    → ((observe v c).0.actor ≡ c.actor)
      × (c.frontier ⊑ (observe v c).0.frontier)
      × (v ⊑ (observe v c).0.frontier)
      × IsValid (observe v c).0.frontier
unfolding observe
observe-least c v = (
  refl,
  λ a. omega (arith, get-merge c.frontier v a),
  λ a. omega (arith, get-merge c.frontier v a),
  merge-IsValid c.frontier v,
)

-- each dot is above every dot handed out before it
abbrev pub Rising : List Dot → Type 0
Rising [] = Unit
Rising (d ∷ dots) = All (λ e. e.counter < d.counter) dots × Rising dots

pub record Tracks (s : CausalClock × List Dot) : Type 0 where
  pub valid : IsValid s.0.frontier
  pub own : All (λ d. d.actor ≡ s.0.actor) s.1
  pub known : All (λ d. d.counter ≤ get s.0.frontier s.0.actor) s.1
  pub rising : Rising s.1
