-- ===== src/Resilience/RateLimiter.antt =====
-- resilience/rate_limiter.py: the token bucket. Tokens, costs and the rate are counted in one unit, so
-- that `elapsed * rate` is exact where the program rounds a float.
pub mod Bound
use advanced_distributed_sys.Base.{
  ℕ, zero, suc, ◌+◌, ◌-◌, ◌*◌, min, Bool, true, false, List, [], ◌∷◌, Result, ok, raise,
  value_error, ltb, if◌then◌else◌,
}
use advanced_distributed_sys.Base.Int.{ℤ, pos, negsuc}

pub record TokenBucketRateLimiter : Type 0 where
  pub rate : ℕ
  pub burst : ℕ
  pub tokens : ℕ
  pub last_refill : ℕ

-- the constructor at a reading of the clock
unfoldable pub new_limiter : ℤ → ℤ → ℕ → Result TokenBucketRateLimiter
new_limiter (pos (suc rate)) (pos (suc burst)) now =
    ok (record { rate = suc rate; burst = suc burst; tokens = suc burst; last_refill = now })
new_limiter _ _ _ = raise value_error

-- `_refill`: a clock that went back adds nothing, `max(0.0, now - last)`
unfoldable pub refill : ℕ → TokenBucketRateLimiter → TokenBucketRateLimiter
refill now l = record l {
  last_refill = now;
  tokens = min l.burst (l.tokens + (now - l.last_refill) * l.rate);
}

-- the test of `allow` and the payment, after the refill
unfoldable pub spend : ℕ → TokenBucketRateLimiter → TokenBucketRateLimiter × Result Bool
spend cost l =
    if ltb l.tokens cost then (l, ok false) else (record l { tokens = l.tokens - cost }, ok true)

unfoldable pub allow : ℕ → ℤ → TokenBucketRateLimiter → TokenBucketRateLimiter × Result Bool
unfolding refill spend
allow now (pos (suc cost)) l = spend (suc cost) (refill now l)
allow now (pos zero) l = (l, raise value_error)
allow now (negsuc n) l = (l, raise value_error)

-- the cost that a call was allowed to spend
unfoldable pub spent : ℤ → Result Bool → ℕ
spent (pos cost) (ok true) = cost
spent _ _ = 0

-- the calls of `allow`, each with the clock's reading: the limiter after them and all that was spent
unfoldable pub run : List (ℕ × ℤ) → TokenBucketRateLimiter × ℕ → TokenBucketRateLimiter × ℕ
unfolding allow spent
run [] s = s
run ((now, cost) ∷ calls) (l, total) =
    let (l', r) = allow now cost l in run calls (l', total + spent cost r)
