-- ===== src/Causal/Clock.antt =====
-- causal/clock.py: the clock of one actor. The lock is held over each staged block, so a block is
-- one step; an exception in its body leaves by `finally` and skips the assignment.
pub mod Progress
use advanced_distributed_sys.Base.{
  ℕ, ◌+◌, Bool, true, false, List, [], ◌∷◌, Option, none, some, Result, ok, raise, if◌then◌else◌,
  ◌>>=◌,
}
use advanced_distributed_sys.Causal.Actor.{CausalActor, Dot}
use advanced_distributed_sys.Causal.Version
use advanced_distributed_sys.Causal.Version.{VersionVector, get, merge, with_dot}

pub record CausalClock : Type 0 where
  pub actor : CausalActor
  pub frontier : VersionVector

pub record CausalAllocation : Type 0 where
  pub dot : Dot
  pub frontier : VersionVector
  pub committed : Bool

pub record CausalObservation : Type 0 where
  pub frontier : VersionVector
  pub committed : Bool

-- `CausalClock(actor)`
abbrev pub new_clock : CausalActor → CausalClock
new_clock actor = record { actor = actor; frontier = Version.empty }

-- The body of an `async with`: what it leaves in the staged object, and how it ends.
abbrev pub Body : Type 0 → Type 0 → Type 0
Body S A = S → S × Result A

-- the assignment behind the `yield`
unfoldable pub settle : CausalClock → VersionVector → Bool → CausalClock
settle c frontier committed = if committed then record c { frontier = frontier } else c

unfoldable pub staged_observe :
    {A : Type 0} → VersionVector → Body CausalObservation A → CausalClock → CausalClock × Result A
unfolding settle
staged_observe version body c =
    let (observation, r) =
      body (record { frontier = merge c.frontier version; committed = false }) in
    elim r [
      | ok a ↦ (settle c observation.frontier observation.committed, ok a)
      | raise e ↦ (c, raise e)
    ]

-- `base.merge(observed)`, if anything was observed
unfoldable pub base_frontier : VersionVector → Option VersionVector → VersionVector
base_frontier frontier none = frontier
base_frontier frontier (some observed) = merge frontier observed

unfoldable pub new_allocation : CausalClock → Option VersionVector → CausalAllocation
new_allocation c observed =
    let base = base_frontier c.frontier observed in
    let dot : Dot = record { actor = c.actor; counter = get base c.actor + 1 } in
    record { dot = dot; frontier = with_dot base dot; committed = false }

unfoldable pub staged_allocation :
    {A : Type 0}
    → Option VersionVector
    → Body CausalAllocation A
    → CausalClock
    → CausalClock × Result A
unfolding settle
staged_allocation observed body c =
    let (allocation, r) = body (new_allocation c observed) in
    elim r [
      | ok a ↦ (settle c allocation.frontier allocation.committed, ok a)
      | raise e ↦ (c, raise e)
    ]

unfoldable pub observe : VersionVector → CausalClock → CausalClock × Result VersionVector
unfolding staged_observe
observe version = staged_observe version (λ o. (record o { committed = true }, ok o.frontier))

unfoldable pub restore : VersionVector → CausalClock → CausalClock × Result VersionVector
restore version c = (record c { frontier = version }, ok version)

unfoldable pub allocate :
    Option VersionVector → CausalClock → CausalClock × Result (Dot × VersionVector)
unfolding staged_allocation new_allocation base_frontier
allocate observed =
    staged_allocation observed (λ a. (record a { committed = true }, ok (a.dot, a.frontier)))

-- the calls of a clock in use, after it is restored
pub data ClockCall : Type 0 where
  observes : VersionVector → ClockCall
  allocates : Option VersionVector → ClockCall

-- the dots handed out so far, the last one first
unfoldable pub note_dot :
    CausalClock × Result (Dot × VersionVector) → List Dot → CausalClock × List Dot
note_dot (c, ok (d, _)) dots = (c, d ∷ dots)
note_dot (c, raise e) dots = (c, dots)

-- one call: the clock after it, with the dot that it handed out in front of the earlier ones
unfoldable pub clock_step : ClockCall → CausalClock × List Dot → CausalClock × List Dot
unfolding note_dot
clock_step (observes v) (c, dots) = ((observe v c).0, dots)
clock_step (allocates o) (c, dots) = note_dot (allocate o c) dots

unfoldable pub clock_run : List ClockCall → CausalClock × List Dot → CausalClock × List Dot
unfolding clock_step
clock_run [] s = s
clock_run (call ∷ calls) s = clock_run calls (clock_step call s)
