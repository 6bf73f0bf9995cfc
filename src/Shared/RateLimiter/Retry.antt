-- ===== src/Shared/RateLimiter/Retry.antt =====
-- The wait that the rate limiter announces is long enough.
use the_kubernetes_of_ai_age.Common.{
  ℕ, ◌+◌, ◌≤◌, ◌<◌, ◌≡◌, String, some, List, [], ◌∷◌, ◌++◌, leb, keep, length, length-append,
  length-keep-le, is_empty, arith, Bool-cases, Option-cases, inl, inr, if_rule,
}
use the_kubernetes_of_ai_age.Common.Maps
use the_kubernetes_of_ai_age.Common.Maps.{AllEntries, AllEntries-set, AllEntries-get, get-set_self}
use the_kubernetes_of_ai_age.Shared.RateLimiter.{
  RateLimiter, new, Answer, allowed, limited, is_active, bucket, active_at, retry_after, check,
  sweep, cleanup, Event, check_at, cleanup_at, run,
}

-- No bucket holds more than the limit.
abbrev IsBounded : ℕ → List (String × List ℕ) → Type 0
IsBounded n m = AllEntries (λ k ts. length ts ≤ n) m

bucket-le :
    (n : ℕ) (key : String) (m : List (String × List ℕ)) → IsBounded n m → length (bucket key m) ≤ n
bucket-le n key m h = elim (Option-cases (Maps.get key m)) [
  | inl e ↦ rw e (omega arith)
  | inr (ts, e) ↦ rw e (AllEntries-get (λ k ts. length ts ≤ n) key m h e)
]

sweep-le :
    (n window now : ℕ) (m : List (String × List ℕ))
    → IsBounded n m
    → IsBounded n (sweep window now m)
unfolding sweep
sweep-le n window now [] h = tt
sweep-le n window now ((k, ts) ∷ m) h =
    if_rule {A = List (String × List ℕ)} (IsBounded n) (is_empty (keep (is_active window now) ts))
      (λ e. sweep-le n window now m h.1)
      (λ e.
        (omega (arith, h.0, length-keep-le (is_active window now) ts), sweep-le n window now m h.1))

check-le :
    (now : ℕ) (key : String) (l : RateLimiter)
    → IsBounded l.max_requests l.buckets
    → IsBounded (check now key l).0.max_requests (check now key l).0.buckets
unfolding check
check-le now key l h =
    let active = active_at now key l in
    let le : length active ≤ l.max_requests = omega (
      arith,
      length-keep-le (is_active l.window_ms now) (bucket key l.buckets),
      bucket-le l.max_requests key l.buckets h,
    ) in
    if_rule {A = RateLimiter × Answer} (λ r. IsBounded r.0.max_requests r.0.buckets)
      (leb l.max_requests (length active))
      (λ e. AllEntries-set (λ k ts. length ts ≤ l.max_requests) key active l.buckets le h)
      (λ e.
        AllEntries-set (λ k ts. length ts ≤ l.max_requests) key (active ++ now ∷ []) l.buckets
          (ground (arith, length-append active (now ∷ []))) h)

run-le :
    (es : List Event) (l : RateLimiter)
    → IsBounded l.max_requests l.buckets
    → IsBounded (run es l).0.max_requests (run es l).0.buckets
unfolding run cleanup
run-le [] l h = h
run-le (check_at now key ∷ es) l h = run-le es (check now key l).0 (check-le now key l h)
run-le (cleanup_at now ∷ es) l h =
    run-le es (cleanup now l) (sweep-le l.max_requests l.window_ms now l.buckets h)

-- When the announced wait is over, the request that came first has left the window.
retry_after-keep :
    (window now r : ℕ) (ts : List ℕ)
    → retry_after window now ts ≡ some r
    → length (keep (is_active window (now + r)) ts) < length ts
retry_after-keep window now r [] h = absurd (ground arith)
retry_after-keep window now r (oldest ∷ ts) h =
    ground (arith, length-keep-le (is_active window (now + r)) ts)

check-room :
    (now : ℕ) (key : String) (l : RateLimiter)
    → length (active_at now key l) < l.max_requests
    → (check now key l).1 ≡ allowed
unfolding check
check-room now key l h = ground arith

check-limited :
    (now r : ℕ) (key : String) (l : RateLimiter)
    → (check now key l).1 ≡ limited (some r)
    → ((check now key l).0 ≡ record l { buckets = Maps.set key (active_at now key l) l.buckets })
      × (retry_after l.window_ms now (active_at now key l) ≡ some r)
unfolding check
check-limited now r key l h =
    elim (Bool-cases (leb l.max_requests (length (active_at now key l)))) [
      | inl e ↦ (ground arith, ground arith)
      | inr e ↦ absurd (ground arith)
    ]

check-after_wait :
    (now r : ℕ) (key : String) (l : RateLimiter)
    → IsBounded l.max_requests l.buckets
    → (check now key l).1 ≡ limited (some r)
    → (check (now + r) key (check now key l).0).1 ≡ allowed
check-after_wait now r key l full h =
    let active = active_at now key l in
    let p = check-limited now r key l h in
    let fewer = retry_after-keep l.window_ms now r active p.1 in
    let le : length active ≤ l.max_requests = omega (
      arith,
      length-keep-le (is_active l.window_ms now) (bucket key l.buckets),
      bucket-le l.max_requests key l.buckets full,
    ) in
    rw p.0 (
      check-room (now + r) key (record l { buckets = Maps.set key active l.buckets })
        (rw (get-set_self key active l.buckets) (omega (arith, fewer, le))))

-- A request that is refused with a wait is allowed when that wait is over, if its key made no request
-- meanwhile: after any checks and cleanups before, whatever their times.
pub check-retry_after :
    (n window : ℕ) (es : List Event) (now r : ℕ) (key : String)
    → (check now key (run es (new n window)).0).1 ≡ limited (some r)
    → (check (now + r) key (check now key (run es (new n window)).0).0).1 ≡ allowed
unfolding new
check-retry_after n window es now r key h =
    check-after_wait now r key (run es (new n window)).0 (run-le es (new n window) tt) h
