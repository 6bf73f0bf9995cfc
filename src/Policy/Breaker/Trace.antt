-- ===== src/Policy/Breaker/Trace.antt =====
-- The circuit breaker over every sequence of calls.
use the_kubernetes_of_ai_age.Common.{
  ℕ, ◌+◌, ◌≤◌, ◌<◌, ◌≡◌, refl, ◌↔◌, true, false, List, [], ◌∷◌, ◌++◌, arith, ltb, if◌then◌else◌,
}
use the_kubernetes_of_ai_age.Policy.Breaker.{
  closed, half_open, CircuitBreaker, new, record_failure, record_success, can_execute,
}

-- What the service does with its breaker, each with its time.
pub data Call : Type 0 where
  failure : ℕ → Call
  success : Call
  probe : ℕ → Call

unfoldable pub step : CircuitBreaker → Call → CircuitBreaker
step b (failure now) = record_failure now b
step b success = record_success b
step b (probe now) = (can_execute now b).0

unfoldable pub run : CircuitBreaker → List Call → CircuitBreaker
run b [] = b
run b (c ∷ cs) = run (step b c) cs

-- The failures since the last success, from the calls alone.
abbrev pub count_from : ℕ → List Call → ℕ
count_from n [] = n
count_from n (failure now ∷ cs) = count_from (n + 1) cs
count_from n (success ∷ cs) = count_from 0 cs
count_from n (probe now ∷ cs) = count_from n cs

abbrev pub failures_since_success : List Call → ℕ
failures_since_success = count_from 0

pub record IsCounting (threshold recovery n : ℕ) (b : CircuitBreaker) : Type 0 where
  pub counts : b.failure_count ≡ n
  pub threshold_kept : b.failure_threshold ≡ threshold
  pub recovery_kept : b.recovery_time_ms ≡ recovery
  pub closed_below : b.state ≡ closed → n < threshold
  pub below_closed : n < threshold → b.state ≡ closed

module _ (threshold recovery : ℕ) (positive : 0 < threshold) where
  step-IsCounting :
      (n : ℕ) (b : CircuitBreaker) (c : Call)
      → IsCounting threshold recovery n b
      → IsCounting threshold recovery (count_from n (c ∷ [])) (step b c)
  unfolding step record_failure record_success can_execute
  step-IsCounting n b (failure now) h = ground arith
  step-IsCounting n b success h = ground arith
  step-IsCounting n b (probe now) h = ground arith

  run-IsCounting :
      (n : ℕ) (b : CircuitBreaker) (cs : List Call)
      → IsCounting threshold recovery n b
      → IsCounting threshold recovery (count_from n cs) (run b cs)
  unfolding run
  run-IsCounting n b [] h = h
  run-IsCounting n b (failure now ∷ cs) h =
      run-IsCounting (n + 1) _ cs (step-IsCounting n b (failure now) h)
  run-IsCounting n b (success ∷ cs) h = run-IsCounting 0 _ cs (step-IsCounting n b success h)
  run-IsCounting n b (probe now ∷ cs) h = run-IsCounting n _ cs (step-IsCounting n b (probe now) h)

  pub run-new-IsCounting :
      (cs : List Call)
      → IsCounting threshold recovery (failures_since_success cs) (run (new threshold recovery) cs)
  unfolding new
  run-new-IsCounting cs = run-IsCounting 0 (new threshold recovery) cs (ground arith)

-- With a positive threshold, after any sequence of failures, successes and probes the breaker is
-- closed exactly when fewer failures than the threshold came since the last success.
pub closed-iff-few_failures :
    (threshold recovery : ℕ) (cs : List Call)
    → 0 < threshold
    → ((run (new threshold recovery) cs).state ≡ closed) ↔ (failures_since_success cs < threshold)
closed-iff-few_failures threshold recovery cs positive =
    let h = run-new-IsCounting threshold recovery positive cs in (h.closed_below, h.below_closed)

run-append : (b : CircuitBreaker) (cs ds : List Call) → run b (cs ++ ds) ≡ run (run b cs) ds
unfolding run
run-append b [] ds = refl
run-append b (c ∷ cs) ds = run-append (step b c) cs ds

can_execute-tripped :
    (threshold recovery n t now : ℕ) (b : CircuitBreaker)
    → threshold ≤ n + 1
    → IsCounting threshold recovery n b
    → let b' = record_failure t b in
      can_execute now b'
      ≡ (if ltb now (t + recovery) then (b', false) else (record b' { state = half_open }, true))
unfolding record_failure can_execute
can_execute-tripped threshold recovery n t now b full h = ground arith

-- With a positive threshold, whatever came before, a failure at `t` that makes the failures since the
-- last success reach the threshold keeps every call out until `t + recovery`: before that time
-- `can_execute` answers false and changes nothing, and from that time on it answers true and leaves
-- the breaker half open.
can_execute-after_trip :
    (threshold recovery t now : ℕ) (cs : List Call)
    → 0 < threshold
    → threshold ≤ failures_since_success cs + 1
    → let b = run (new threshold recovery) (cs ++ failure t ∷ []) in
      can_execute now b
      ≡ (if ltb now (t + recovery) then (b, false) else (record b { state = half_open }, true))
can_execute-after_trip threshold recovery t now cs positive full = rw run-append (
    unfold run step in
    can_execute-tripped threshold recovery (failures_since_success cs) t now _ full
      (run-new-IsCounting threshold recovery positive cs))
