-- ===== src/Causal/Version.antt =====
-- causal/version_vector.py and causal/token.py: immutable version vectors.
pub mod Lattice
pub mod Compare
pub mod Missing
use advanced_distributed_sys.Base.{
  ℕ, suc, ◌+◌, ◌<◌, ◌≤◌, ◌≡◌, max, Bool, true, false, ◌||◌, ◌&&◌, List, [], ◌∷◌, Result, ok, raise,
  ltb, if◌then◌else◌, ◌>>=◌, Option, none, some,
}
use advanced_distributed_sys.Base.Int.{ℤ}
use advanced_distributed_sys.Sorted.{put}
use advanced_distributed_sys.Counts
use advanced_distributed_sys.Counts.{IsCounts}
use advanced_distributed_sys.Causal.Actor.{CausalActor, Dot, actor_ord}

pub record VersionVector : Type 0 where
  pub entries : List (CausalActor × ℕ)

pub data VersionRelation : Type 0 where
  before after equal concurrent : VersionRelation

-- What the constructor establishes: items sorted by actor, each actor once, no zero.
abbrev pub IsValid : VersionVector → Type 0
IsValid v = IsCounts v.entries

abbrev pub empty : VersionVector
empty = record { entries = [] }

-- `VersionVector(entries)` at counts that pass its guard
unfoldable pub of_dict : List (CausalActor × ℕ) → VersionVector
of_dict d = record { entries = Counts.of_counts d }

-- `VersionVector(entries)` over any integers
unfoldable pub make : List (CausalActor × ℤ) → Result VersionVector
unfolding of_dict
make entries = Counts.check_counts entries >>= λ d. ok (of_dict d)

unfoldable pub get : VersionVector → CausalActor → ℕ
get v a = Counts.get v.entries a

-- `__bool__`
unfoldable pub is_nonempty : VersionVector → Bool
is_nonempty v = elim v.entries [ [] ↦ false | _ ∷ _ ↦ true ]

unfoldable pub with_dot : VersionVector → Dot → VersionVector
unfolding get of_dict
with_dot v d = of_dict (put d.actor (max (get v d.actor) d.counter) v.entries)

unfoldable pub merge : VersionVector → VersionVector → VersionVector
merge v w = record { entries = Counts.merge v.entries w.entries }

-- the loop of `compare` over the actors that are left, with the two flags
unfoldable pub compare_loop :
    VersionVector → VersionVector → List CausalActor → Bool → Bool → VersionRelation
unfolding get
compare_loop v w [] less greater = if less then before else if greater then after else equal
compare_loop v w (a ∷ actors) less greater =
    let less' = less || ltb (get v a) (get w a) in
    let greater' = greater || ltb (get w a) (get v a) in
    let rest = compare_loop v w actors less' greater' in
    if less' && greater' then concurrent else rest

unfoldable pub compare : VersionVector → VersionVector → VersionRelation
unfolding compare_loop
compare v w = compare_loop v w (Counts.all_keys v.entries w.entries) false false

unfoldable pub dominates : VersionVector → VersionVector → Bool
dominates v w = elim (compare v w) [ after ↦ true | equal ↦ true | _ ↦ false ]

unfoldable pub concurrent_with : VersionVector → VersionVector → Bool
concurrent_with v w = elim (compare v w) [ concurrent ↦ true | _ ↦ false ]

-- the loop of `missing_from` over the required items, with the dict built so far
unfoldable pub missing_loop :
    VersionVector
    → List (CausalActor × ℕ)
    → List (CausalActor × (ℕ × ℕ))
    → List (CausalActor × (ℕ × ℕ))
unfolding get
missing_loop v [] missing = missing
missing_loop v ((a, required) ∷ items) missing =
    missing_loop v items
      (if ltb (get v a) required then put a (get v a + 1, required) missing else missing)

unfoldable pub missing_from : VersionVector → VersionVector → List (CausalActor × (ℕ × ℕ))
unfolding missing_loop
missing_from v required = missing_loop v required.entries []

-- `CausalToken`: a version vector that a client carries
pub record CausalToken : Type 0 where
  pub version : VersionVector

abbrev pub empty_token : CausalToken
empty_token = record { version = empty }

unfoldable pub merge_token : CausalToken → CausalToken → CausalToken
unfolding merge
merge_token s t = record { version = merge s.version t.version }
