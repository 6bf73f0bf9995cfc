-- ===== src/Shared/RateLimiter.antt =====
-- packages/shared/src/rate-limiter.ts: the class `RateLimiter`. `Date.now()` is the argument `now`, in
-- milliseconds, and the interval timer is a flag: what it calls is `cleanup`.
pub mod Window
pub mod Retry
use the_kubernetes_of_ai_age.Common.{
  ℕ, ◌+◌, ◌-◌, max, String, Bool, true, false, Option, none, some, List, [], ◌∷◌, ◌++◌,
  if◌then◌else◌, ltb, leb, keep, length, is_empty,
}
use the_kubernetes_of_ai_age.Common.Maps

pub record RateLimiter : Type 0 where
  pub buckets : List (String × List ℕ)
  pub max_requests : ℕ
  pub window_ms : ℕ
  pub cleanup_timer : Bool

-- The constructor, with the numbers that its arguments or the environment give.
unfoldable pub new : ℕ → ℕ → RateLimiter
new max_requests window_ms = record {
  buckets = [];
  max_requests = max_requests;
  window_ms = window_ms;
  cleanup_timer = true;
}

-- `{ allowed, retryAfterMs }`: the wait is `NaN` where no request is in the window, which takes a limit
-- of 0.
pub data Answer : Type 0 where
  allowed : Answer
  limited : Option ℕ → Answer

-- `t > now - windowMs`, with the subtraction of signed numbers.
abbrev pub is_active : ℕ → ℕ → ℕ → Bool
is_active window now t = ltb now (t + window)

abbrev pub or_empty : Option (List ℕ) → List ℕ
or_empty none = []
or_empty (some ts) = ts

abbrev pub bucket : String → List (String × List ℕ) → List ℕ
bucket key m = or_empty (Maps.get key m)

abbrev pub active_at : ℕ → String → RateLimiter → List ℕ
active_at now key l = keep (is_active l.window_ms now) (bucket key l.buckets)

abbrev pub retry_after : ℕ → ℕ → List ℕ → Option ℕ
retry_after window now [] = none
retry_after window now (oldest ∷ ts) = some (max 1 (oldest + window - now))

unfoldable pub check : ℕ → String → RateLimiter → RateLimiter × Answer
check now key l =
    let active = active_at now key l in
    if leb l.max_requests (length active)
    then (
      record l { buckets = Maps.set key active l.buckets },
      limited (retry_after l.window_ms now active),
    )
    else (record l { buckets = Maps.set key (active ++ now ∷ []) l.buckets }, allowed)

-- The loop of `cleanup`, which sets or deletes the entry it stands at.
unfoldable pub sweep : ℕ → ℕ → List (String × List ℕ) → List (String × List ℕ)
sweep window now [] = []
sweep window now ((key, ts) ∷ m) =
    let rest = sweep window now m in
    let active = keep (is_active window now) ts in
    if is_empty active then rest else (key, active) ∷ rest

unfoldable pub cleanup : ℕ → RateLimiter → RateLimiter
cleanup now l = record l { buckets = sweep l.window_ms now l.buckets }

unfoldable pub dispose : RateLimiter → RateLimiter
dispose l = record l { cleanup_timer = false; buckets = [] }

pub data Event : Type 0 where
  check_at : ℕ → String → Event
  cleanup_at : ℕ → Event

abbrev pub grant : ℕ → String → Answer → List (String × ℕ)
grant now key allowed = (key, now) ∷ []
grant now key (limited r) = []

-- The limiter after the events, and the requests that were allowed.
unfoldable pub run : List Event → RateLimiter → RateLimiter × List (String × ℕ)
unfolding check cleanup
run [] l = (l, [])
run (check_at now key ∷ es) l =
    let r = check now key l in let rest = run es r.0 in (rest.0, grant now key r.1 ++ rest.1)
run (cleanup_at now ∷ es) l = run es (cleanup now l)
