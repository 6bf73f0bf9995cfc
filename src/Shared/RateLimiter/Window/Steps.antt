-- ===== src/Shared/RateLimiter/Window/Steps.antt =====
-- One check, seen from the buckets and from the requests that were allowed.
use the_kubernetes_of_ai_age.Common.{
  ℕ, ◌≤◌, ◌≡◌, refl, String, Bool, true, false, List, [], ◌∷◌, ◌++◌, if◌then◌else◌, leb, keep,
  keep-append, length, length-append, arith, Bool-cases, inl, inr, str_eq, if_rule, append-nil,
}
use the_kubernetes_of_ai_age.Common.Maps.{get-set}
use the_kubernetes_of_ai_age.Common.Maps.Distinct.{IsDistinct, set-IsDistinct}
use the_kubernetes_of_ai_age.Shared.RateLimiter.{
  RateLimiter, Answer, is_active, bucket, active_at, check, grant,
}
use the_kubernetes_of_ai_age.Shared.RateLimiter.Window.Times.{
  times, keep-keep, in_window, in_window-le,
}

abbrev pub bucket_after : ℕ → ℕ → ℕ → List ℕ → List ℕ
bucket_after window limit now active =
    if leb limit (length active) then active else active ++ now ∷ []

pub bucket-check :
    (now : ℕ) (key k : String) (l : RateLimiter)
    → bucket k (check now key l).0.buckets ≡ (
        if str_eq key k
        then bucket_after l.window_ms l.max_requests now (active_at now key l)
        else bucket k l.buckets)
unfolding check
bucket-check now key k l = ground (
  arith,
  get-set key k (active_at now key l) l.buckets,
  get-set key k (active_at now key l ++ now ∷ []) l.buckets,
)

pub check-IsDistinct :
    (now : ℕ) (key : String) (l : RateLimiter)
    → IsDistinct l.buckets
    → IsDistinct (check now key l).0.buckets
unfolding check
check-IsDistinct now key l h =
    if_rule {A = RateLimiter × Answer} (λ r. IsDistinct r.0.buckets)
      (leb l.max_requests (length (active_at now key l)))
      (λ e. set-IsDistinct key (active_at now key l) l.buckets h)
      (λ e. set-IsDistinct key (active_at now key l ++ now ∷ []) l.buckets h)

pub check-limits :
    (now : ℕ) (key : String) (l : RateLimiter)
    → ((check now key l).0.window_ms ≡ l.window_ms)
      × ((check now key l).0.max_requests ≡ l.max_requests)
unfolding check
check-limits now key l =
    if_rule {A = RateLimiter × Answer}
      (λ r. (r.0.window_ms ≡ l.window_ms) × (r.0.max_requests ≡ l.max_requests))
      (leb l.max_requests (length (active_at now key l))) (λ e. (refl, refl)) (λ e. (refl, refl))

pub grant-check :
    (now : ℕ) (key k : String) (l : RateLimiter)
    → times k (grant now key (check now key l).1) ≡ (
        if str_eq key k
        then (if leb l.max_requests (length (active_at now key l)) then [] else now ∷ [])
        else [])
unfolding check
grant-check now key k l = ground arith

pub keep-bucket_after :
    (window limit now later : ℕ) (kept ts : List ℕ) (full : Bool)
    → now ≤ later
    → keep (is_active window later) kept ≡ keep (is_active window later) ts
    → keep (is_active window later) (
        if full
        then keep (is_active window now) kept
        else keep (is_active window now) kept ++ now ∷ [])
      ≡ keep (is_active window later) (ts ++ (if full then [] else now ∷ []))
keep-bucket_after window limit now later kept ts true le h =
    rw (append-nil ts, keep-keep window now later kept le) h
keep-bucket_after window limit now later kept ts false le h =
    rw
      (
        keep-append (is_active window later) (keep (is_active window now) kept) (now ∷ []),
        keep-append (is_active window later) ts (now ∷ []),
        keep-keep window now later kept le,
        h,
      )
      refl

pub in_window-grant :
    (window limit now end : ℕ) (ts : List ℕ)
    → length (keep (in_window window end) ts) ≤ limit
    → length (
        keep
          (in_window window end)
          (ts ++ (if leb limit (length (keep (is_active window now) ts)) then [] else now ∷ [])))
      ≤ limit
in_window-grant window limit now end ts h =
    elim (Bool-cases (leb limit (length (keep (is_active window now) ts)))) [
      | inl e ↦ rw (e, append-nil ts) h
      | inr e ↦
          rw (e, keep-append (in_window window end) ts (now ∷ []), length-append)
            (ground (arith, in_window-le window now end ts))
    ]
