-- ===== src/Resilience/Retry/Outcome.antt =====
-- What a retry returns, after how many attempts and with which delays.
use advanced_distributed_sys.Base.{
  ℕ, zero, suc, ◌+◌, ◌≤◌, ◌≡◌, Bool, true, List, [], ◌∷◌, Result, ok, raise, Error,
  deadline_exceeded,
}
use advanced_distributed_sys.Resilience.Retry.{RetryPolicy, Attempt, Report, backoff_cap}

module _ {ℓ} {A : Type ℓ} (p : RetryPolicy) (should_retry : Error → Bool)
    (env : ℕ → Attempt A) where
  -- the attempt failed with an exception that the caller retries
  abbrev pub Retryable : Result A → Type 0
  Retryable (ok a) = ⊥
  Retryable (raise e) = should_retry e ≡ true

  -- so did the `j` attempts from index `i`
  abbrev pub Retried : ℕ → ℕ → Type 0
  Retried i zero = Unit {0}
  Retried i (suc j) = Retryable (env i).outcome × Retried (i + 1) j

  -- each delay is within the exponential cap of its attempt
  abbrev pub Capped : ℕ → List ℕ → Type 0
  Capped i [] = Unit {0}
  Capped i (d ∷ ds) = (d ≤ backoff_cap p i) × Capped (i + 1) ds

  -- How the attempts from index `i` can end: by the deadline, or with the outcome of the last attempt
  -- made, all before it being failures that are retried.
  pub data Ends (i k : ℕ) (r : Result A) : Type ℓ where
    late : r ≡ raise deadline_exceeded → Retried i k → Ends i k r
    last : (j : ℕ) → k ≡ suc j → Retried i j → r ≡ (env (i + j)).outcome → Ends i k r

  pub record Explained (i n : ℕ) (r : Report A) : Type ℓ where
    pub ends : Ends i r.attempts r.result
    pub count : r.attempts ≤ n
    pub capped : Capped i r.delays

  -- `random_fn(0.0, cap)` is at most the cap
  abbrev pub JitterOk : Type 0
  JitterOk = (i cap : ℕ) → (env i).jitter cap ≤ cap
