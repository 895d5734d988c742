-- ===== src/Causal/Version/Compare.antt =====
-- `compare` against the pointwise order that it decides.
use advanced_distributed_sys.Base.{
  ◌+◌, ◌<◌, ◌≡◌, refl, ◌↔◌, Bool, true, false, ◌||◌, ◌&&◌, List, [], ◌∷◌, arith, ltb, if◌then◌else◌,
  any, Bool-cases, inl, inr,
}
use advanced_distributed_sys.Sorted.{member}
use advanced_distributed_sys.Counts
use advanced_distributed_sys.Counts.Laws.{member-all_keys, get-absent}
use advanced_distributed_sys.Causal.Actor.{CausalActor, actor_ord}
use advanced_distributed_sys.Causal.Version.{
  VersionVector, VersionRelation, before, after, equal, concurrent, IsValid, get, compare_loop,
  compare, dominates,
}
use advanced_distributed_sys.Causal.Version.Lattice.{◌⊑◌, ext}

-- an actor of which `w` knows an event that `v` does not
abbrev pub Ahead : VersionVector → VersionVector → Type 0
Ahead v w = (a : CausalActor) × (get v a < get w a)

-- What each answer of `compare` means.
abbrev pub Relates : VersionRelation → VersionVector → VersionVector → Type 0
Relates before v w = v ⊑ w × Ahead v w
Relates after v w = w ⊑ v × Ahead w v
Relates equal v w = v ⊑ w × w ⊑ v
Relates concurrent v w = Ahead v w × Ahead w v

judge : Bool → Bool → VersionRelation
judge less greater =
    if less && greater
    then concurrent
    else if less
    then before
    else if greater
    then after
    else equal

abbrev behind : VersionVector → VersionVector → CausalActor → Bool
behind v w a = ltb (get v a) (get w a)

-- the loop with its early exit is the two disjunctions
compare_loop-judge :
    (v w : VersionVector) (actors : List CausalActor) (less greater : Bool)
    → (less && greater) ≡ false
    → compare_loop v w actors less greater
      ≡ judge (less || any (behind v w) actors) (greater || any (behind w v) actors)
unfolding compare_loop judge
compare_loop-judge v w [] true true h = cc
compare_loop-judge v w [] true false h = refl
compare_loop-judge v w [] false greater h = ground arith
compare_loop-judge v w (a ∷ actors) less greater h =
    ground (arith, compare_loop-judge v w actors (less || behind v w a) (greater || behind w v a))

any-member {ℓ} :
    {A : Type ℓ} (p : A → Bool) (xs : List A) → any p xs ≡ true → (x : A) × (p x ≡ true)
any-member p [] h = cc
any-member p (x ∷ xs) h = elim (Bool-cases (p x)) [
  | inl e ↦ (x, e)
  | inr e ↦ any-member p xs (ground arith)
]

any-of-member :
    (p : CausalActor → Bool) (a : CausalActor) (xs : List CausalActor)
    → member a xs ≡ true
    → p a ≡ true
    → any p xs ≡ true
unfolding member
any-of-member p a [] h e = cc
any-of-member p a (x ∷ xs) h e = ground (arith, any-of-member p a xs, actor_ord.cmp_eq x a)

-- an actor with an event on either side is among those that the loop visits
visited :
    (v w : VersionVector) (a : CausalActor)
    → 0 < get v a + get w a
    → member a (Counts.all_keys v.entries w.entries) ≡ true
unfolding get
visited v w a h =
    ground
      (arith, member-all_keys a v.entries w.entries, get-absent a v.entries, get-absent a w.entries)

abbrev actors_of : VersionVector → VersionVector → List CausalActor
actors_of v w = Counts.all_keys v.entries w.entries

-- a disjunction that came out false leaves no actor out
le_of_none_behind :
    (x y v w : VersionVector)
    → ((a : CausalActor) → get x a < get y a → member a (actors_of v w) ≡ true)
    → any (behind x y) (actors_of v w) ≡ false
    → y ⊑ x
le_of_none_behind x y v w seen h a = elim (Bool-cases (behind x y a)) [
  | inl e ↦
      absurd
        (ground (arith, any-of-member (behind x y) a (actors_of v w) (seen a (ground arith)) e))
  | inr e ↦ ground arith
]

Ahead-of_any :
    (x y : VersionVector) (actors : List CausalActor) → any (behind x y) actors ≡ true → Ahead x y
Ahead-of_any x y actors h = let (a, e) = any-member (behind x y) actors h in (a, ground arith)

judge-Relates :
    (v w : VersionVector) (less greater : Bool)
    → (less ≡ true → Ahead v w)
    → (greater ≡ true → Ahead w v)
    → (less ≡ false → w ⊑ v)
    → (greater ≡ false → v ⊑ w)
    → Relates (judge less greater) v w
unfolding judge
judge-Relates v w true true l g nl ng = (l refl, g refl)
judge-Relates v w true false l g nl ng = (ng refl, l refl)
judge-Relates v w false true l g nl ng = (nl refl, g refl)
judge-Relates v w false false l g nl ng = (ng refl, nl refl)

-- Whatever `compare` answers is so.
pub compare-Relates : (v w : VersionVector) → Relates (compare v w) v w
unfolding compare
compare-Relates v w = rw (compare_loop-judge v w (actors_of v w) false false refl) (
    judge-Relates v w (any (behind v w) (actors_of v w)) (any (behind w v) (actors_of v w))
      (Ahead-of_any v w (actors_of v w)) (Ahead-of_any w v (actors_of v w))
      (le_of_none_behind v w v w (λ a p. visited v w a (omega arith)))
      (le_of_none_behind w v v w (λ a p. visited v w a (omega arith))))

-- no two answers are right at once
Relates-unique :
    (r s : VersionRelation) (v w : VersionVector) → Relates r v w → Relates s v w → r ≡ s
Relates-unique before before v w p q = refl
Relates-unique before after v w p q = absurd (omega (arith, q.0 p.1.0, p.1.1))
Relates-unique before equal v w p q = absurd (omega (arith, q.1 p.1.0, p.1.1))
Relates-unique before concurrent v w p q = absurd (omega (arith, p.0 q.1.0, q.1.1))
Relates-unique after before v w p q = absurd (omega (arith, p.0 q.1.0, q.1.1))
Relates-unique after after v w p q = refl
Relates-unique after equal v w p q = absurd (omega (arith, q.0 p.1.0, p.1.1))
Relates-unique after concurrent v w p q = absurd (omega (arith, p.0 q.0.0, q.0.1))
Relates-unique equal before v w p q = absurd (omega (arith, p.1 q.1.0, q.1.1))
Relates-unique equal after v w p q = absurd (omega (arith, p.0 q.1.0, q.1.1))
Relates-unique equal equal v w p q = refl
Relates-unique equal concurrent v w p q = absurd (omega (arith, p.1 q.0.0, q.0.1))
Relates-unique concurrent before v w p q = absurd (omega (arith, q.0 p.1.0, p.1.1))
Relates-unique concurrent after v w p q = absurd (omega (arith, q.0 p.0.0, p.0.1))
Relates-unique concurrent equal v w p q = absurd (omega (arith, q.1 p.0.0, p.0.1))
Relates-unique concurrent concurrent v w p q = refl

-- `compare` answers EQUAL exactly if the counts are the same for every actor, BEFORE or AFTER
-- exactly if they are nowhere larger, or nowhere smaller, and differ for some actor, and
-- CONCURRENT exactly if each vector has a larger count somewhere.
pub compare_iff : (v w : VersionVector) (r : VersionRelation) → (compare v w ≡ r) ↔ Relates r v w
compare_iff v w r =
    (λ e. rw e at (compare-Relates v w), Relates-unique (compare v w) r v w (compare-Relates v w))

pub le_of_dominates : (v w : VersionVector) → dominates v w ≡ true → w ⊑ v
unfolding dominates
le_of_dominates v w h = go (compare v w) (compare-Relates v w) h
  where
    go :
        (r : VersionRelation)
        → Relates r v w
        → (elim r [ after ↦ true | equal ↦ true | _ ↦ false ]) ≡ true
        → w ⊑ v
    go before p e = cc
    go after p e = p.0
    go equal p e = p.1
    go concurrent p e = cc

pub dominates_of_le : (v w : VersionVector) → w ⊑ v → dominates v w ≡ true
unfolding dominates
dominates_of_le v w h = go (compare v w) (compare-Relates v w)
  where
    go :
        (r : VersionRelation)
        → Relates r v w
        → (elim r [ after ↦ true | equal ↦ true | _ ↦ false ]) ≡ true
    go before p = absurd (omega (arith, h p.1.0, p.1.1))
    go after p = refl
    go equal p = refl
    go concurrent p = absurd (omega (arith, h p.0.0, p.0.1))

-- `dominates` holds exactly if the other vector has no larger count for any actor.
pub dominates_iff : (v w : VersionVector) → (dominates v w ≡ true) ↔ (w ⊑ v)
dominates_iff v w = (le_of_dominates v w, dominates_of_le v w)

-- Between vectors that the constructor built, the answer EQUAL is equality.
pub compare-equal_iff :
    (v w : VersionVector) → IsValid v → IsValid w → (compare v w ≡ equal) ↔ (v ≡ w)
compare-equal_iff v w p q = (
  λ e. let (le, ge) = (compare_iff v w equal).0 e in ext v w p q (λ a. omega (arith, le a, ge a)),
  λ e. (compare_iff v w equal).1 (rw e ((λ a. omega arith), (λ a. omega arith))),
)
