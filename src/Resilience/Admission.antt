-- ===== src/Resilience/Admission.antt =====
-- resilience/backpressure.py: a bounded count of the requests in flight.
pub mod Bound
use advanced_distributed_sys.Base.{
  ℕ, zero, suc, ◌+◌, ◌-◌, Bool, true, false, List, [], ◌∷◌, Result, ok, raise, value_error,
  runtime_error, leb, if◌then◌else◌,
}
use advanced_distributed_sys.Base.Int.{ℤ, pos, negsuc}

pub record BackpressureController : Type 0 where
  pub capacity : ℕ
  pub in_flight : ℕ

unfoldable pub new_controller : ℤ → Result BackpressureController
new_controller (pos (suc n)) = ok (record { capacity = suc n; in_flight = 0 })
new_controller _ = raise value_error

unfoldable pub try_acquire : BackpressureController → BackpressureController × Bool
try_acquire c =
    if leb c.capacity c.in_flight
    then (c, false)
    else (record c { in_flight = c.in_flight + 1 }, true)

unfoldable pub release : BackpressureController → BackpressureController × Result (Unit {0})
release c =
    if leb c.in_flight 0
    then (c, raise runtime_error)
    else (record c { in_flight = c.in_flight - 1 }, ok tt)

pub data Call : Type 0 where
  acquires releases : Call

-- a controller with how many acquisitions have succeeded, and how many releases
pub record Tally : Type 0 where
  pub controller : BackpressureController
  pub acquired : ℕ
  pub released : ℕ

unfoldable pub after_acquire : BackpressureController × Bool → Tally → Tally
after_acquire (c, true) t = record t { controller = c; acquired = t.acquired + 1 }
after_acquire (c, false) t = record t { controller = c }

unfoldable pub after_release : BackpressureController × Result (Unit {0}) → Tally → Tally
after_release (c, ok u) t = record t { controller = c; released = t.released + 1 }
after_release (c, raise e) t = record t { controller = c }

unfoldable pub step : Call → Tally → Tally
unfolding after_acquire after_release try_acquire release
step acquires t = after_acquire (try_acquire t.controller) t
step releases t = after_release (release t.controller) t

unfoldable pub run : List Call → Tally → Tally
unfolding step
run [] t = t
run (c ∷ cs) t = run cs (step c t)
