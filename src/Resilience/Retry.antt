-- ===== src/Resilience/Retry.antt =====
-- resilience/deadline.py and resilience/retry.py. What the world answers during a retry (the clock, the
-- operation, the random delay) is a function of the attempt's index.
pub mod Outcome
use advanced_distributed_sys.Base.{
  ℕ, zero, suc, ◌+◌, ◌-◌, ◌*◌, ◌^◌, ◌≤◌, min, Bool, true, false, not, ◌||◌, List, [], ◌∷◌, Option,
  none, some, Result, ok, raise, Error, value_error, runtime_error, timeout_error,
  deadline_exceeded, leb, ltb, if◌then◌else◌,
}
use advanced_distributed_sys.Base.Int.{ℤ, pos, negsuc}

pub record Deadline : Type 0 where
  pub expires_at : ℕ

-- `Deadline.after` at a reading of the clock
unfoldable pub after : ℤ → ℕ → Result Deadline
after (pos (suc n)) now = ok (record { expires_at = now + suc n })
after _ now = raise value_error

unfoldable pub remaining : ℕ → Deadline → ℕ
remaining now d = d.expires_at - now

unfoldable pub expired : ℕ → Deadline → Bool
unfolding remaining
expired now d = leb (remaining now d) 0

-- the `except TimeoutError` of `run`
unfoldable pub as_deadline {ℓ} : {A : Type ℓ} → Result A → Result A
as_deadline (ok a) = ok a
as_deadline (raise timeout_error) = raise deadline_exceeded
as_deadline (raise e) = raise e

-- `run`: the awaitable under `wait_for`, as a function of the timeout that it is given
unfoldable pub run_within {ℓ} : {A : Type ℓ} → ℕ → Deadline → (ℕ → Result A) → Result A
unfolding remaining as_deadline
run_within now d awaitable =
    if leb (remaining now d) 0
    then raise deadline_exceeded
    else as_deadline (awaitable (remaining now d))

pub record RetryPolicy : Type 0 where
  pub max_attempts : ℕ
  pub base_delay : ℕ
  pub max_delay : ℕ

-- `RetryPolicy(max_attempts, base_delay_seconds, max_delay_seconds)`
unfoldable pub new_policy : ℤ → ℤ → ℤ → Result RetryPolicy
new_policy (pos (suc n)) (pos base) (pos top) =
    if ltb top base
    then raise value_error
    else ok (record { max_attempts = suc n; base_delay = base; max_delay = top })
new_policy _ _ _ = raise value_error

-- what the world answers in one attempt
pub record Attempt {ℓ} (A : Type ℓ) : Type ℓ where
  -- the clock at the attempt's start, and when its exception is handled
  pub started : ℕ
  pub handled : ℕ
  pub outcome : Result A
  -- `random_fn(0.0, cap)`
  pub jitter : ℕ → ℕ

-- The result, the number of calls of the operation, and the delay of each backoff (a delay of zero is
-- not slept).
pub record Report {ℓ} (A : Type ℓ) : Type ℓ where
  pub result : Result A
  pub attempts : ℕ
  pub delays : List ℕ

unfoldable pub backoff_cap : RetryPolicy → ℕ → ℕ
backoff_cap p i = min p.max_delay (p.base_delay * 2 ^ i)

unfoldable pub backoff : RetryPolicy → ℕ → (ℕ → ℕ) → ℕ
unfolding backoff_cap
backoff p i jitter = if ltb 0 (backoff_cap p i) then jitter (backoff_cap p i) else 0

-- the test in front of an attempt
abbrev pub is_late : Option Deadline → ℕ → Bool
is_late none now = false
is_late (some d) now = leb (d.expires_at - now) 0

-- the test between the backoff and the sleep
abbrev pub too_long : Option Deadline → ℕ → ℕ → Bool
too_long none now delay = false
too_long (some d) now delay = leb (d.expires_at - now) 0 || leb (d.expires_at - now) delay

module _ {ℓ} {A : Type ℓ} where
  abbrev pub stop : Result A → ℕ → Report A
  stop r n = record { result = r; attempts = n; delays = [] }

  abbrev pub again : ℕ → Report A → Report A
  again delay rest = record {
    result = rest.result;
    attempts = rest.attempts + 1;
    delays = delay ∷ rest.delays;
  }

  -- the `except` block, given the report of the attempts that would follow
  unfoldable pub on_error :
      RetryPolicy → (Error → Bool) → Option Deadline → ℕ → Attempt A → Error → Report A → Report A
  unfolding backoff
  on_error p should_retry deadline i a e rest =
      if leb p.max_attempts (i + 1) || not (should_retry e)
      then stop (raise e) 1
      else if too_long deadline a.handled (backoff p i a.jitter)
      then record {
        result = raise deadline_exceeded;
        attempts = 1;
        delays = backoff p i a.jitter ∷ [];
      }
      else again (backoff p i a.jitter) rest

  -- the body of the `for` loop, given the report of the attempts that would follow
  unfoldable pub one_round :
      RetryPolicy → (Error → Bool) → Option Deadline → ℕ → Attempt A → Report A → Report A
  unfolding on_error
  one_round p should_retry deadline i a rest =
      if is_late deadline a.started then stop (raise deadline_exceeded) 0 else elim a.outcome [
        | ok v ↦ stop (ok v) 1
        | raise e ↦ on_error p should_retry deadline i a e rest
      ]

  -- the `for` loop over the attempts that are left, from index `i`
  unfoldable pub retry_loop :
      RetryPolicy → (Error → Bool) → Option Deadline → (ℕ → Attempt A) → ℕ → ℕ → Report A
  unfolding one_round
  retry_loop p should_retry deadline env zero i = stop (raise runtime_error) 0
  retry_loop p should_retry deadline env (suc n) i =
      let rest = retry_loop p should_retry deadline env n (i + 1) in
      one_round p should_retry deadline i (env i) rest

  unfoldable pub retry_async :
      RetryPolicy → (Error → Bool) → Option Deadline → (ℕ → Attempt A) → Report A
  unfolding retry_loop
  retry_async p should_retry deadline env = retry_loop p should_retry deadline env p.max_attempts 0
