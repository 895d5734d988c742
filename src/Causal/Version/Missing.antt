-- ===== src/Causal/Version/Missing.antt =====
-- `missing_from`: the ranges of events that are still to be fetched.
use advanced_distributed_sys.Base.{
  ℕ, ◌+◌, ◌≡◌, ◌∙◌, ◌↔◌, true, Option, none, some, List, [], ◌∷◌, arith, ltb, if◌then◌else◌,
}
use advanced_distributed_sys.Sorted.{find, put, Distinct}
use advanced_distributed_sys.Sorted.Laws.{find-put, IsSorted-Distinct}
use advanced_distributed_sys.Counts
use advanced_distributed_sys.Counts.{count_or_zero}
use advanced_distributed_sys.Causal.Actor.{CausalActor, actor_ord}
use advanced_distributed_sys.Causal.Version.{
  VersionVector, IsValid, get, missing_loop, missing_from, dominates,
}
use advanced_distributed_sys.Causal.Version.Compare.{dominates_of_le, le_of_dominates}

-- what the dict holds for an actor of which `n` events are known and `required` are required
abbrev pub range : ℕ → ℕ → Option (ℕ × ℕ)
range n required = if ltb n required then some (n + 1, required) else none

-- the value of an actor that is not among the items left is the one in the dict so far
find-missing_loop :
    (v : VersionVector) (a : CausalActor) (items : List (CausalActor × ℕ))
    (missing : List (CausalActor × (ℕ × ℕ)))
    → Distinct items
    → find a (missing_loop v items missing) ≡ (
        if ltb (get v a) (count_or_zero (find a items))
        then range (get v a) (count_or_zero (find a items))
        else find a missing)
unfolding missing_loop find
find-missing_loop v a [] missing h = ground arith
find-missing_loop v a ((b, n) ∷ items) missing h = ground (
  arith,
  find-missing_loop v a items missing h.1,
  find-missing_loop v a items (put b (get v b + 1, n) missing) h.1,
  find-put b a (get v b + 1, n) missing,
  actor_ord.cmp_eq b a,
)

-- For each actor of a valid vector that is required, the dict holds the first and the last event
-- that is required and not known, and nothing where all that is required is known.
pub find-missing_from :
    (v required : VersionVector) (a : CausalActor)
    → IsValid required
    → find a (missing_from v required) ≡ range (get v a) (get required a)
unfolding missing_from get find Counts.get
find-missing_from v required a h =
    find-missing_loop v a required.entries [] (IsSorted-Distinct required.entries h.0)
    ∙ ground arith

-- Nothing is missing exactly when the vector dominates what is required.
pub missing_from-empty_iff :
    (v required : VersionVector)
    → IsValid required
    → (dominates v required ≡ true) ↔ ((a : CausalActor) → find a (missing_from v required) ≡ none)
missing_from-empty_iff v required h = (
  λ e a. ground (arith, find-missing_from v required a h, le_of_dominates v required e a),
  λ all. dominates_of_le v required (λ a. ground (arith, find-missing_from v required a h, all a)),
)
