-- ===== src/Resilience/Admission/Bound.antt =====
-- The controller counts exactly, and never admits more than its capacity.
use advanced_distributed_sys.Base.{◌+◌, ◌≤◌, ◌<◌, ◌≡◌, ◌↔◌, refl, ◌∙◌, true, List, [], ◌∷◌, arith}
use advanced_distributed_sys.Resilience.Admission.{
  BackpressureController, try_acquire, Call, acquires, releases, Tally, step, run,
}

pub record IsValid (t : Tally) : Type 0 where
  pub bounded : t.controller.in_flight ≤ t.controller.capacity
  pub exact : t.controller.in_flight + t.released ≡ t.acquired

pub try_acquire_iff :
    (c : BackpressureController) → ((try_acquire c).1 ≡ true) ↔ (c.in_flight < c.capacity)
unfolding try_acquire
try_acquire_iff c = ground arith

step-IsValid :
    (c : Call) (t : Tally)
    → IsValid t
    → IsValid (step c t) × ((step c t).controller.capacity ≡ t.controller.capacity)
unfolding step
step-IsValid acquires t v = ground arith
step-IsValid releases t v = ground arith

-- Over any acquisitions and releases, where the requests in flight are those acquired and not
-- released and at most the capacity, they stay so, and the capacity stays the same.
pub run-IsBounded :
    (cs : List Call) (t : Tally)
    → IsValid t
    → IsValid (run cs t) × ((run cs t).controller.capacity ≡ t.controller.capacity)
unfolding run
run-IsBounded [] t v = (v, refl)
run-IsBounded (c ∷ cs) t v =
    let (v', same) = step-IsValid c t v in
    let (v'', same') = run-IsBounded cs (step c t) v' in (v'', same' ∙ same)
