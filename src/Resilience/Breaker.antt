-- ===== src/Resilience/Breaker.antt =====
-- resilience/circuit_breaker.py. Each locked block is one step that is given the clock's reading.
pub mod Invariant
pub mod Trips
use advanced_distributed_sys.Base.{
  ℕ, zero, suc, ◌+◌, ◌-◌, Bool, true, false, List, [], ◌∷◌, Option, none, some, Result, ok, raise,
  Error, value_error, assertion_error, circuit_open_error, leb, ltb, if◌then◌else◌,
}
use advanced_distributed_sys.Base.Int.{ℤ, pos, negsuc}

pub data CircuitState : Type 0 where
  closed open_state half_open : CircuitState

pub record CircuitBreaker : Type 0 where
  pub failure_threshold : ℕ
  pub recovery_timeout : ℕ
  pub half_open_max_calls : ℕ
  pub state : CircuitState
  pub failure_count : ℕ
  pub opened_at : Option ℕ
  pub half_open_in_flight : ℕ

-- the constructor, with its three guards
unfoldable pub new_breaker : ℤ → ℤ → ℤ → Result CircuitBreaker
new_breaker (pos (suc threshold)) (pos (suc timeout)) (pos (suc calls)) = ok (record {
  failure_threshold = suc threshold;
  recovery_timeout = suc timeout;
  half_open_max_calls = suc calls;
  state = closed;
  failure_count = 0;
  opened_at = none;
  half_open_in_flight = 0;
})
new_breaker _ _ _ = raise value_error

-- the end of `_before_call`: a probe is counted, up to the limit
unfoldable pub admit : CircuitBreaker → CircuitState → CircuitBreaker × Result CircuitState
admit b half_open =
    if leb b.half_open_max_calls b.half_open_in_flight
    then (b, raise circuit_open_error)
    else (record b { half_open_in_flight = b.half_open_in_flight + 1 }, ok half_open)
admit b closed = (b, ok closed)
admit b open_state = (b, ok open_state)

-- the test of an open breaker: after the timeout it is half open
unfoldable pub try_recover : ℕ → CircuitBreaker → Option ℕ → CircuitBreaker × Result CircuitState
unfolding admit
try_recover now b none = (b, raise assertion_error)
try_recover now b (some opened_at) =
    if leb b.recovery_timeout (now - opened_at)
    then admit (record b { state = half_open; half_open_in_flight = 0 }) half_open
    else (b, raise circuit_open_error)

unfoldable pub dispatch : ℕ → CircuitBreaker → CircuitState → CircuitBreaker × Result CircuitState
unfolding try_recover admit
dispatch now b open_state = try_recover now b b.opened_at
dispatch now b closed = admit b closed
dispatch now b half_open = admit b half_open

-- `_before_call`
unfoldable pub before_call : ℕ → CircuitBreaker → CircuitBreaker × Result CircuitState
unfolding dispatch
before_call now b = dispatch now b b.state

-- `_record_success`
unfoldable pub record_success : CircuitState → CircuitBreaker → CircuitBreaker
record_success half_open b = record b {
  half_open_in_flight = b.half_open_in_flight - 1;
  state = closed;
  opened_at = none;
  failure_count = 0;
}
record_success closed b = record b { failure_count = 0 }
record_success open_state b = record b { failure_count = 0 }

-- the failure of a call that began as no probe
unfoldable pub count_failure : ℕ → CircuitBreaker → CircuitBreaker
count_failure now b =
    let counted = record b { failure_count = b.failure_count + 1 } in
    if leb b.failure_threshold (b.failure_count + 1)
    then record counted { state = open_state; opened_at = some now }
    else counted

-- `_record_failure`
unfoldable pub record_failure : ℕ → CircuitState → CircuitBreaker → CircuitBreaker
unfolding count_failure
record_failure now half_open b = record b {
  half_open_in_flight = b.half_open_in_flight - 1;
  state = open_state;
  opened_at = some now;
  failure_count = b.failure_threshold;
}
record_failure now closed b = count_failure now b
record_failure now open_state b = count_failure now b

-- The two halves of `call` around the operation: many calls may be between them.
pub record System : Type 0 where
  pub breaker : CircuitBreaker
  -- the state in which each running call began
  pub running : List CircuitState

-- A call that begins, and the end of the running call at an index, at a reading of the clock.
pub data Event : Type 0 where
  begins : ℕ → Event
  succeeds : ℕ → Event
  fails : ℕ → ℕ → Event

unfoldable pub begin_call : CircuitBreaker × Result CircuitState → System → System
begin_call (b, ok s) sys = record { breaker = b; running = s ∷ sys.running }
begin_call (b, raise e) sys = record sys { breaker = b }

unfoldable pub take_at : ℕ → List CircuitState → Option (CircuitState × List CircuitState)
take_at i [] = none
take_at zero (s ∷ ss) = some (s, ss)
take_at (suc i) (s ∷ ss) = elim (take_at i ss) [ none ↦ none | some (t, rest) ↦ some (t, s ∷ rest) ]

unfoldable pub end_call :
    (CircuitState → CircuitBreaker → CircuitBreaker)
    → Option (CircuitState × List CircuitState)
    → System
    → System
end_call f none sys = sys
end_call f (some (s, rest)) sys = record { breaker = f s sys.breaker; running = rest }

unfoldable pub step : Event → System → System
unfolding begin_call end_call take_at before_call record_success record_failure
step (begins now) sys = begin_call (before_call now sys.breaker) sys
step (succeeds i) sys = end_call record_success (take_at i sys.running) sys
step (fails now i) sys = end_call (record_failure now) (take_at i sys.running) sys

unfoldable pub run : List Event → System → System
run [] sys = sys
run (e ∷ es) sys = run es (step e sys)
