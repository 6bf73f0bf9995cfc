-- ===== src/Policy/Breaker.antt =====
-- policy-plane/src/service.ts: the class `CircuitBreaker`. Times are milliseconds; `Date.now()` is the
-- argument `now`. The two limits are the numbers that the constructor settled on.
pub mod Trace
use the_kubernetes_of_ai_age.Common.{ℕ, ◌+◌, Bool, true, false, if◌then◌else◌, leb}

-- `Open` is `opened`.
pub data CircuitState : Type 0 where
  closed opened half_open : CircuitState

pub record CircuitBreaker : Type 0 where
  pub state : CircuitState
  pub failure_count : ℕ
  pub last_failure_time : ℕ
  pub failure_threshold : ℕ
  pub recovery_time_ms : ℕ

-- The constructor.
unfoldable pub new : ℕ → ℕ → CircuitBreaker
new failure_threshold recovery_time_ms = record {
  state = closed;
  failure_count = 0;
  last_failure_time = 0;
  failure_threshold = failure_threshold;
  recovery_time_ms = recovery_time_ms;
}

unfoldable pub record_failure : ℕ → CircuitBreaker → CircuitBreaker
record_failure now b =
    let c = record b { failure_count = b.failure_count + 1; last_failure_time = now } in
    if leb c.failure_threshold c.failure_count then record c { state = opened } else c

unfoldable pub record_success : CircuitBreaker → CircuitBreaker
record_success b = record b { failure_count = 0; state = closed }

-- `now - last >= recovery`, with the difference moved to the other side: it may be negative.
dispatch : CircuitState → ℕ → CircuitBreaker → CircuitBreaker × Bool
dispatch closed now b = (b, true)
dispatch half_open now b = (b, true)
dispatch opened now b =
    if leb (b.last_failure_time + b.recovery_time_ms) now
    then (record b { state = half_open }, true)
    else (b, false)

unfoldable pub can_execute : ℕ → CircuitBreaker → CircuitBreaker × Bool
unfolding dispatch
can_execute now b = dispatch b.state now b
