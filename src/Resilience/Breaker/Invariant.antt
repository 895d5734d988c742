-- ===== src/Resilience/Breaker/Invariant.antt =====
-- The invariant of the breaker over any interleaving of calls, and when it refuses.
use advanced_distributed_sys.Base.{
  ℕ, ◌+◌, ◌-◌, ◌≤◌, ◌<◌, ◌≡◌, ◌≢◌, refl, sym, Bool-cases, inl, inr, false, List, [], ◌∷◌, Option,
  none, some, Result, ok, raise, circuit_open_error, leb, arith,
}
use mathlib.Core.Path.{subst}
use advanced_distributed_sys.Base.Int.{ℤ}
use advanced_distributed_sys.Resilience.Breaker.{
  CircuitState, closed, open_state, half_open, CircuitBreaker, new_breaker, before_call,
  record_success, record_failure, count_failure, admit, try_recover, dispatch, System, Event,
  begins, succeeds, fails, begin_call, end_call, take_at, step, run,
}

-- The counts of each state, and that an open breaker knows when it opened.
abbrev pub StateOk : CircuitState → CircuitBreaker → Type 0
StateOk closed b = b.failure_count < b.failure_threshold
StateOk open_state b = (t : ℕ) × (b.opened_at ≡ some t)
StateOk half_open b = Unit {0}

pub record IsValid (b : CircuitBreaker) : Type 0 where
  pub threshold : 0 < b.failure_threshold
  pub timeout : 0 < b.recovery_timeout
  pub calls : 0 < b.half_open_max_calls
  pub probes : b.half_open_in_flight ≤ b.half_open_max_calls
  pub state_ok : StateOk b.state b

pub new_breaker-IsValid :
    (t r c : ℤ) {b : CircuitBreaker} → new_breaker t r c ≡ ok b → IsValid b × (b.state ≡ closed)
unfolding new_breaker
new_breaker-IsValid t r c e = ground arith

probe_room : (b : CircuitBreaker) → IsValid b → leb b.half_open_max_calls 0 ≡ false
probe_room b v = ground arith

-- when a call is refused, by the state of the breaker
abbrev pub Refuses : ℕ → CircuitBreaker → CircuitState → Type 0
Refuses now b closed = ⊥
Refuses now b open_state = (t : ℕ) × (b.opened_at ≡ some t) × (now - t < b.recovery_timeout)
Refuses now b half_open = b.half_open_max_calls ≤ b.half_open_in_flight

-- What `_before_call` gives, from the state `s` of the breaker.
abbrev pub Decides :
    ℕ → CircuitBreaker → CircuitState → CircuitBreaker × Result CircuitState → Type 0
Decides now b s (c, raise e) = (e ≡ circuit_open_error) × (c ≡ b) × Refuses now b s
Decides now b s (c, ok closed) = (s ≡ closed) × (c ≡ b)
Decides now b s (c, ok open_state) = ⊥
Decides now b s (c, ok half_open) =
    (¬ Refuses now b s)
    × (s ≢ closed)
    × (c.state ≡ half_open)
    × (0 < c.half_open_in_flight)
    × IsValid c

admit-Decides :
    (now : ℕ) (b : CircuitBreaker)
    → IsValid b
    → b.state ≡ half_open
    → Decides now b half_open (admit b half_open)
unfolding admit
admit-Decides now b v e = elim (Bool-cases (leb b.half_open_max_calls b.half_open_in_flight)) [
  | inl full ↦ rw full (refl, refl, ground arith)
  | inr room ↦ rw room (
    λ h. ground arith,
    λ h. cc,
    e,
    omega arith,
    record {
      threshold = v.threshold;
      timeout = v.timeout;
      calls = v.calls;
      probes = ground arith;
      state_ok = rw e tt;
    },
  )
]

recover-Decides :
    (now t : ℕ) (b : CircuitBreaker)
    → IsValid b
    → b.opened_at ≡ some t
    → Decides now b open_state (try_recover now b (some t))
unfolding try_recover admit
recover-Decides now t b v o = elim (Bool-cases (leb b.recovery_timeout (now - t))) [
  | inr early ↦ rw early (refl, refl, (t, o, ground arith))
  | inl late ↦
      rw (late, probe_room b v)
        (
          λ (t', o', h). ground arith,
          λ h. cc,
          refl,
          omega arith,
          record {
            threshold = v.threshold;
            timeout = v.timeout;
            calls = v.calls;
            probes = v.calls;
            state_ok = tt;
          },
        )
]

-- A valid breaker refuses a call with `CircuitOpenError` exactly while it is open and the timeout has
-- not passed, or while it is half open with all its probes out, and is then left as it was. Otherwise
-- the call is admitted: in a closed breaker with no change, and else as a counted probe of a breaker
-- that is now half open and still valid. The assertion on `_opened_at` never fails.
pub before_call-Decides :
    (now : ℕ) (b : CircuitBreaker) → IsValid b → Decides now b b.state (before_call now b)
unfolding before_call dispatch
before_call-Decides now b v = go b.state refl v.state_ok
  where
    go : (s : CircuitState) → b.state ≡ s → StateOk s b → Decides now b s (dispatch now b s)
    go closed e h = unfold admit in (refl, refl)
    go half_open e h = admit-Decides now b v e
    go open_state e (t, o) =
        subst (λ (x : Option ℕ). Decides now b open_state (try_recover now b x)) (sym o)
          (recover-Decides now t b v o)

reset-StateOk :
    (s : CircuitState) (b : CircuitBreaker)
    → 0 < b.failure_threshold
    → StateOk s b
    → StateOk s (record b { failure_count = 0 })
reset-StateOk closed b t h = t
reset-StateOk open_state b t h = h
reset-StateOk half_open b t h = tt

reset-IsValid : (b : CircuitBreaker) → IsValid b → IsValid (record b { failure_count = 0 })
reset-IsValid b v = record {
  threshold = v.threshold;
  timeout = v.timeout;
  calls = v.calls;
  probes = v.probes;
  state_ok = reset-StateOk b.state b v.threshold v.state_ok;
}

record_success-IsValid :
    (s : CircuitState) (b : CircuitBreaker) → IsValid b → IsValid (record_success s b)
unfolding record_success
record_success-IsValid half_open b v = ground arith
record_success-IsValid closed b v = reset-IsValid b v
record_success-IsValid open_state b v = reset-IsValid b v

counted-StateOk :
    (s : CircuitState) (b : CircuitBreaker)
    → b.failure_count + 1 < b.failure_threshold
    → StateOk s b
    → StateOk s (record b { failure_count = b.failure_count + 1 })
counted-StateOk closed b t h = t
counted-StateOk open_state b t h = h
counted-StateOk half_open b t h = tt

count_failure-IsValid : (now : ℕ) (b : CircuitBreaker) → IsValid b → IsValid (count_failure now b)
unfolding count_failure
count_failure-IsValid now b v = elim (Bool-cases (leb b.failure_threshold (b.failure_count + 1))) [
  | inl trips ↦ rw trips (record {
    threshold = v.threshold;
    timeout = v.timeout;
    calls = v.calls;
    probes = v.probes;
    state_ok = (now, refl);
  })
  | inr counts ↦ rw counts (record {
    threshold = v.threshold;
    timeout = v.timeout;
    calls = v.calls;
    probes = v.probes;
    state_ok = counted-StateOk b.state b (ground arith) v.state_ok;
  })
]

record_failure-IsValid :
    (now : ℕ) (s : CircuitState) (b : CircuitBreaker) → IsValid b → IsValid (record_failure now s b)
unfolding record_failure
record_failure-IsValid now half_open b v = record {
  threshold = v.threshold;
  timeout = v.timeout;
  calls = v.calls;
  probes = omega (arith, v.probes);
  state_ok = (now, refl);
}
record_failure-IsValid now closed b v = count_failure-IsValid now b v
record_failure-IsValid now open_state b v = count_failure-IsValid now b v

begin_call-IsValid :
    (now : ℕ) (sys : System) (s : CircuitState) (r : CircuitBreaker × Result CircuitState)
    → IsValid sys.breaker
    → Decides now sys.breaker s r
    → IsValid (begin_call r sys).breaker
unfolding begin_call
begin_call-IsValid now sys s (c, raise e) v (_, same, _) = rw same v
begin_call-IsValid now sys s (c, ok closed) v (_, same) = rw same v
begin_call-IsValid now sys s (c, ok open_state) v h = absurd h
begin_call-IsValid now sys s (c, ok half_open) v h = h.4

end_call-IsValid :
    (f : CircuitState → CircuitBreaker → CircuitBreaker)
    (o : Option (CircuitState × List CircuitState)) (sys : System)
    → ((s : CircuitState) → IsValid (f s sys.breaker))
    → IsValid sys.breaker
    → IsValid (end_call f o sys).breaker
unfolding end_call
end_call-IsValid f none sys h v = v
end_call-IsValid f (some (s, rest)) sys h v = h s

-- Over any interleaving of calls that begin, succeed and fail, at any readings of the clock, a valid
-- breaker stays valid.
pub run-IsValid :
    (es : List Event) (sys : System) → IsValid sys.breaker → IsValid (run es sys).breaker
unfolding run step
run-IsValid [] sys v = v
run-IsValid (begins now ∷ es) sys v =
    run-IsValid es _
      (begin_call-IsValid now sys sys.breaker.state _ v (before_call-Decides now sys.breaker v))
run-IsValid (succeeds i ∷ es) sys v = run-IsValid es _ (
    end_call-IsValid record_success (take_at i sys.running) sys
      (λ s. record_success-IsValid s sys.breaker v) v)
run-IsValid (fails now i ∷ es) sys v = run-IsValid es _ (
    end_call-IsValid (record_failure now) (take_at i sys.running) sys
      (λ s. record_failure-IsValid now s sys.breaker v) v)
