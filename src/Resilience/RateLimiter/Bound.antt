-- ===== src/Resilience/RateLimiter/Bound.antt =====
-- The promise of a token bucket: a burst, and then no more than the rate.
use advanced_distributed_sys.Base.{
  ℕ, zero, suc, ◌+◌, ◌-◌, ◌*◌, ◌≤◌, ◌≡◌, refl, ap, ◌∙◌, List, [], ◌∷◌, arith,
}
use advanced_distributed_sys.Base.Int.{ℤ, pos, negsuc}
use advanced_distributed_sys.Resilience.RateLimiter.{
  TokenBucketRateLimiter, refill, spend, allow, spent, run,
}

abbrev pub IsValid : TokenBucketRateLimiter → Type 0
IsValid l = l.tokens ≤ l.burst

-- the readings of the clock never go back
abbrev pub IsMonotone : ℕ → List (ℕ × ℤ) → Type 0
IsMonotone last [] = Unit {0}
IsMonotone last ((now, cost) ∷ calls) = (last ≤ now) × IsMonotone now calls

-- the last reading
abbrev pub end_time : ℕ → List (ℕ × ℤ) → ℕ
end_time last [] = last
end_time last ((now, cost) ∷ calls) = end_time now calls

flow : (rate last now : ℕ) → last ≤ now → (now - last) * rate + rate * last ≡ rate * now
flow rate last now h =
    let e : now ≡ last + (now - last) = omega arith in
    let p : rate * now ≡ rate * (last + (now - last)) = ap (λ (t : ℕ). rate * t) e in
    omega (arith, p)

refill_budget :
    (now : ℕ) (l : TokenBucketRateLimiter)
    → l.last_refill ≤ now
    → IsValid (refill now l)
      × ((refill now l).tokens + l.rate * l.last_refill ≤ l.tokens + l.rate * now)
unfolding refill
refill_budget now l h = omega (arith, flow l.rate l.last_refill now h)

spend_budget :
    (cost : ℕ) (l : TokenBucketRateLimiter)
    → (spend cost l).0.tokens + spent (pos cost) (spend cost l).1 ≡ l.tokens
unfolding spend spent
spend_budget cost l = ground arith

spend_keeps :
    (cost : ℕ) (l : TokenBucketRateLimiter)
    → ((spend cost l).0.rate ≡ l.rate)
      × ((spend cost l).0.burst ≡ l.burst)
      × ((spend cost l).0.last_refill ≡ l.last_refill)
unfolding spend
spend_keeps cost l = ground arith

-- What one call leaves and spends, against what there was and what flowed in.
abbrev WithinFlow : ℕ → TokenBucketRateLimiter → TokenBucketRateLimiter → ℕ → Type 0
WithinFlow now l l' cost =
    IsValid l'
    × (l'.rate ≡ l.rate)
    × (l'.burst ≡ l.burst)
    × (l'.last_refill ≤ now)
    × (l'.tokens + cost + l.rate * l.last_refill ≤ l.tokens + l.rate * l'.last_refill)

refill_keeps :
    (now : ℕ) (l : TokenBucketRateLimiter)
    → ((refill now l).rate ≡ l.rate)
      × ((refill now l).burst ≡ l.burst)
      × ((refill now l).last_refill ≡ now)
unfolding refill
refill_keeps now l = (refl, refl, refl)

spending_budget :
    (now cost : ℕ) (l : TokenBucketRateLimiter)
    → l.last_refill ≤ now
    → WithinFlow now l
        (spend cost (refill now l)).0
        (spent (pos cost) (spend cost (refill now l)).1)
spending_budget now cost l h =
    let (valid, flowed) = refill_budget now l h in
    let (rate, burst, at) = spend_keeps cost (refill now l) in
    let (rate', burst', at') = refill_keeps now l in
    let paid = spend_budget cost (refill now l) in
    let last : (spend cost (refill now l)).0.last_refill ≡ now = at ∙ at' in
    let inflow = ap (λ (t : ℕ). l.rate * t) last in
    (
      omega (arith, valid, burst, burst', paid),
      rate ∙ rate',
      burst ∙ burst',
      omega (arith, last),
      omega (arith, flowed, paid, inflow),
    )

allow_budget :
    (now : ℕ) (cost : ℤ) (l : TokenBucketRateLimiter)
    → IsValid l
    → l.last_refill ≤ now
    → WithinFlow now l (allow now cost l).0 (spent cost (allow now cost l).1)
unfolding allow spent
allow_budget now (negsuc n) l v h = ground arith
allow_budget now (pos zero) l v h = ground arith
allow_budget now (pos (suc cost)) l v h = spending_budget now (suc cost) l h

later-IsMonotone :
    (a b : ℕ) (calls : List (ℕ × ℤ)) → a ≤ b → IsMonotone b calls → IsMonotone a calls
later-IsMonotone a b [] h m = tt
later-IsMonotone a b ((now, cost) ∷ calls) h m = (omega (arith, m.0), m.1)

end_time_mono : (a b : ℕ) (calls : List (ℕ × ℤ)) → a ≤ b → end_time a calls ≤ end_time b calls
end_time_mono a b [] h = h
end_time_mono a b ((now, cost) ∷ calls) h = omega arith

scaled : (k a b : ℕ) → a ≤ b → k * a ≤ k * b
scaled k a b h = grind arith

add_budgets :
    (rate rate' last last' tokens tokens' cost total spent_all end end' : ℕ)
    → rate' ≡ rate
    → end' ≤ end
    → tokens' + cost + rate * last ≤ tokens + rate * last'
    → spent_all + rate' * last' ≤ total + cost + tokens' + rate' * end'
    → spent_all + rate * last ≤ total + tokens + rate * end
add_budgets rate rate' last last' tokens tokens' cost total spent_all end end' e h p q =
    omega (arith, ap (λ (r : ℕ). r * last') e, ap (λ (r : ℕ). r * end') e, scaled rate end' end h)

-- Over any calls of a limiter that holds at most its burst, at readings of the clock that never
-- go back, the costs allowed are at most the tokens that there were and the rate over the time
-- since the last refill; and the tokens left are at most the burst.
pub run-le-rate :
    (calls : List (ℕ × ℤ)) (l : TokenBucketRateLimiter) (total : ℕ)
    → IsValid l
    → IsMonotone l.last_refill calls
    → IsValid (run calls (l, total)).0
      × ((run calls (l, total)).1 + l.rate * l.last_refill
          ≤ total + l.tokens + l.rate * end_time l.last_refill calls)
unfolding run
run-le-rate [] l total v m = (v, omega arith)
run-le-rate ((now, cost) ∷ calls) l total v m =
    let l' = (allow now cost l).0 in
    let paid = spent cost (allow now cost l).1 in
    let (valid, rate, burst, last, budget) = allow_budget now cost l v m.0 in
    let (valid', rest) =
      run-le-rate calls l' (total + paid) valid (later-IsMonotone _ now calls last m.1) in
    (
      valid',
      add_budgets l.rate l'.rate l.last_refill l'.last_refill l.tokens l'.tokens paid total _
          (end_time now calls) (end_time l'.last_refill calls) rate (end_time_mono _ now calls last)
          budget rest,
    )
