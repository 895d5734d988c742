-- ===== src/Tests/Guards.antt =====
-- The circuit breaker, the rate limiter, the admission controller and retries at concrete inputs.
use advanced_distributed_sys.Base.{
  ℕ, zero, suc, ◌+◌, ◌-◌, ◌*◌, ◌≤◌, ◌≡◌, refl, Bool, true, List, [], ◌∷◌, none, some, ok, raise,
  Error, runtime_error, arith,
}
use advanced_distributed_sys.Base.Int.{ℤ, pos}
use advanced_distributed_sys.Resilience.Breaker
use advanced_distributed_sys.Resilience.Breaker.{
  CircuitBreaker, closed, open_state, half_open, System, Event, begins, succeeds, fails,
  before_call,
}
use advanced_distributed_sys.Resilience.Breaker.Invariant
use advanced_distributed_sys.Resilience.Breaker.Invariant.{
  Decides, before_call-Decides, run-IsValid,
}
use advanced_distributed_sys.Resilience.RateLimiter
use advanced_distributed_sys.Resilience.RateLimiter.{TokenBucketRateLimiter}
use advanced_distributed_sys.Resilience.RateLimiter.Bound as Rate
use advanced_distributed_sys.Resilience.RateLimiter.Bound.{end_time, run-le-rate}
use advanced_distributed_sys.Resilience.Admission
use advanced_distributed_sys.Resilience.Admission.{
  BackpressureController, Call, acquires, releases, Tally,
}
use advanced_distributed_sys.Resilience.Admission.Bound as Bounded
use advanced_distributed_sys.Resilience.Admission.Bound.{run-IsBounded}
use advanced_distributed_sys.Resilience.Retry.{RetryPolicy, Attempt}

-- closed, one failure short of its threshold of two
abbrev breaker : CircuitBreaker
breaker = record {
  failure_threshold = 2;
  recovery_timeout = 10;
  half_open_max_calls = 1;
  state = closed;
  failure_count = 1;
  opened_at = none;
  half_open_in_flight = 0;
}

-- open since 5
abbrev tripped : CircuitBreaker
tripped = record breaker { state = open_state; failure_count = 2; opened_at = some 5 }

breaker-IsValid : Invariant.IsValid breaker
breaker-IsValid = record {
  threshold = omega arith;
  timeout = omega arith;
  calls = omega arith;
  probes = omega arith;
  state_ok = omega arith;
}

tripped-IsValid : Invariant.IsValid tripped
tripped-IsValid = record {
  threshold = omega arith;
  timeout = omega arith;
  calls = omega arith;
  probes = omega arith;
  state_ok = (5, refl);
}

before_call-Decides_example : Decides 15 tripped open_state (before_call 15 tripped)
before_call-Decides_example = before_call-Decides 15 tripped tripped-IsValid

abbrev idle : System
idle = record { breaker = breaker; running = [] }

abbrev events : List Event
events = begins 1 ∷ begins 2 ∷ fails 3 0 ∷ begins 20 ∷ fails 21 0 ∷ begins 40 ∷ succeeds 0 ∷ []

run-IsValid_example : Invariant.IsValid (Breaker.run events idle).breaker
run-IsValid_example = run-IsValid events idle breaker-IsValid

abbrev limiter : TokenBucketRateLimiter
limiter = record { rate = 2; burst = 5; tokens = 5; last_refill = 0 }

abbrev costs : List (ℕ × ℤ)
costs = (0, pos 4) ∷ (1, pos 4) ∷ (2, pos 4) ∷ []

run-le-rate_example :
    Rate.IsValid (RateLimiter.run costs (limiter, 0)).0
    × ((RateLimiter.run costs (limiter, 0)).1 + 2 * 0 ≤ 0 + 5 + 2 * end_time 0 costs)
run-le-rate_example =
    run-le-rate costs limiter 0 (omega arith) (omega arith, (omega arith, (omega arith, tt)))

abbrev tally : Tally
tally = record { controller = record { capacity = 2; in_flight = 1 }; acquired = 1; released = 0 }

abbrev requests : List Call
requests = acquires ∷ acquires ∷ releases ∷ acquires ∷ []

run-IsBounded_example :
    Bounded.IsValid (Admission.run requests tally)
    × ((Admission.run requests tally).controller.capacity ≡ 2)
run-IsBounded_example =
    run-IsBounded requests tally (record { bounded = omega arith; exact = refl })

abbrev policy : RetryPolicy
policy = record { max_attempts = 3; base_delay = 2; max_delay = 8 }

-- the first two attempts fail
abbrev world : ℕ → Attempt ℕ
world i = record {
  started = i;
  handled = i;
  outcome = elim i [ zero ↦ raise runtime_error | suc zero ↦ raise runtime_error | _ ↦ ok 9 ];
  jitter = λ cap. cap - 1;
}

abbrev always : Error → Bool
always e = true

-- One probe is allowed at a time. A call that began before the breaker opened fails while a probe runs,
-- the breaker opens again, and after the timeout a second probe is admitted beside the first one.
abbrev one_probe : System
one_probe = record {
  breaker = record breaker { failure_threshold = 1; failure_count = 0 };
  running = [];
}

second_probe :
    (Breaker.run
      (begins 0 ∷ begins 0 ∷ fails 1 0 ∷ begins 11 ∷ fails 12 1 ∷ begins 22 ∷ [])
      one_probe).running
    ≡ half_open ∷ half_open ∷ []
unfolding Breaker.run Breaker.step Breaker.begin_call Breaker.end_call Breaker.take_at
    Breaker.before_call Breaker.dispatch Breaker.try_recover Breaker.admit Breaker.record_failure
    Breaker.count_failure
second_probe = refl
