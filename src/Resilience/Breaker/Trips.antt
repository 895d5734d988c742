-- ===== src/Resilience/Breaker/Trips.antt =====
-- How a closed breaker opens.
use advanced_distributed_sys.Base.{ℕ, zero, suc, ◌+◌, ◌<◌, ◌≡◌, refl, ◌∙◌, some, arith}
use advanced_distributed_sys.Resilience.Breaker.{
  closed, open_state, CircuitBreaker, record_failure, count_failure,
}

-- `k` failures in a row of calls that began while the breaker was closed
pub failures : ℕ → ℕ → CircuitBreaker → CircuitBreaker
failures now zero b = b
failures now (suc k) b = failures now k (record_failure now closed b)

-- a count below the threshold keeps the state
count_failure_below :
    (now : ℕ) (b : CircuitBreaker)
    → b.failure_count + 1 < b.failure_threshold
    → count_failure now b ≡ record b { failure_count = b.failure_count + 1 }
unfolding count_failure
count_failure_below now b h = ground arith

failures_below :
    (now k : ℕ) (b : CircuitBreaker)
    → b.failure_count + k < b.failure_threshold
    → ((failures now k b).state ≡ b.state)
      × ((failures now k b).failure_count ≡ b.failure_count + k)
      × ((failures now k b).failure_threshold ≡ b.failure_threshold)
unfolding failures record_failure
failures_below now zero b h = (refl, omega arith, refl)
failures_below now (suc k) b h =
    rw (count_failure_below now b (omega arith), failures)
      (let (s, c, t) =
          failures_below now k (record b { failure_count = b.failure_count + 1 }) (omega arith) in
        (s, omega (arith, c), t))

failures-suc :
    (now k : ℕ) (b : CircuitBreaker) → failures now (suc k) b ≡ count_failure now (failures now k b)
unfolding failures record_failure
failures-suc now zero b = refl
failures-suc now (suc k) b = failures-suc now k (count_failure now b)

count_failure_at :
    (now : ℕ) (b : CircuitBreaker)
    → b.failure_count + 1 ≡ b.failure_threshold
    → ((count_failure now b).state ≡ open_state) × ((count_failure now b).opened_at ≡ some now)
unfolding count_failure
count_failure_at now b h = ground arith

-- If `k + 1` more failures reach the threshold of a closed breaker, it is still closed after `k`
-- failures in a row of calls that began while it was closed, and the last one opens it at that
-- reading of the clock.
pub failures_trip :
    (now k : ℕ) (b : CircuitBreaker)
    → b.state ≡ closed
    → b.failure_count + suc k ≡ b.failure_threshold
    → ((failures now k b).state ≡ closed)
      × ((failures now (suc k) b).state ≡ open_state)
      × ((failures now (suc k) b).opened_at ≡ some now)
failures_trip now k b e h =
    let (s, c, t) = failures_below now k b (omega arith) in
    let (opens, at) = count_failure_at now (failures now k b) (omega (arith, c, t)) in
    (s ∙ e, rw (failures-suc now k b) opens, rw (failures-suc now k b) at)
