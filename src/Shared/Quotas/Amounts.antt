-- ===== src/Shared/Quotas/Amounts.antt =====
-- What the amount of a check does.
use the_kubernetes_of_ai_age.Common.{
  ℕ, ◌+◌, ◌-◌, ◌*◌, ◌≤◌, ◌<◌, ◌≡◌, refl, String, Bool, true, false, Option, none, some, List, leb,
  arith, inl, inr, Bool-cases, if_rule,
}
use the_kubernetes_of_ai_age.Common.Maps
use the_kubernetes_of_ai_age.Common.Maps.{get-set_self}
use the_kubernetes_of_ai_age.Shared.Quotas.{
  Entry, QuotaEnforcer, QuotaCheckResult, new, get_fallback_key, count_of, window_of,
  check_concurrent, open_window, check_fallback, get_limit, is_concurrent, passed, outcome, check,
  release_entry, release,
}
use the_kubernetes_of_ai_age.Shared.Quotas.Bounds.{
  count_of-le, Event, run, asks_within, run-new-IsBounded,
}

open_window-lt :
    (limit window now : ℕ) (entry : Option Entry)
    → count_of entry < limit
    → (open_window window now entry).count < limit
open_window-lt limit window now none h = omega (arith, h)
open_window-lt limit window now (some e) h = ground arith

check_fallback-room :
    (now : ℕ) (key : String) (limit : ℕ) (concurrent : Bool) (q : QuotaEnforcer)
    → count_of (Maps.get key q.fallback_counts) < limit
    → (check_fallback now key limit concurrent q).1.allowed ≡ true
unfolding check_fallback
check_fallback-room now key limit true q h = ground arith
check_fallback-room now key limit false q h =
    let fewer =
      open_window-lt limit (q.window_seconds * 1000) now (Maps.get key q.fallback_counts) h in
    if_rule {A = QuotaEnforcer × QuotaCheckResult} (λ r. r.1.allowed ≡ true)
      (leb ((open_window (q.window_seconds * 1000) now (Maps.get key q.fallback_counts)).count + 1)
        limit)
      (λ room. refl) (λ full. absurd (ground arith))

-- A namespace that has used up a resource in checks of one unit still passes a check of two: the larger
-- the amount that is asked for, the higher the limit that it is held against.
check-two_passes :
    (window limit now : ℕ) (resource namespace : String) (es : List Event)
    → get_limit resource ≡ some limit
    → 1 ≤ limit
    → asks_within 1 es ≡ true
    → (check now namespace resource 2 (run resource es (new window))).1 ≡ passed
unfolding check
check-two_passes window limit now resource namespace es f some_limit asks =
    let key = get_fallback_key namespace resource in
    let q = run resource es (new window) in
    let le = count_of-le (limit * 1) key q (run-new-IsBounded window limit 1 resource es f asks) in
    rw
      (
        f,
        check_fallback-room now key (limit * 2) (is_concurrent resource) q
            (omega (arith, le, some_limit)),
      )
      refl

abbrev release_one : String → QuotaEnforcer → QuotaEnforcer
release_one key q = release_entry key 1 (Maps.get key q.fallback_counts) q

count-release_one :
    (now limit : ℕ) (key : String) (q : QuotaEnforcer)
    → outcome (check_concurrent now key limit (Maps.get key q.fallback_counts) q).1 ≡ passed
    → count_of (
        Maps.get key
          (release_one key
            (check_concurrent now key limit (Maps.get key q.fallback_counts) q).0).fallback_counts)
      ≡ count_of (Maps.get key q.fallback_counts)
count-release_one now limit key q h =
    let before = Maps.get key q.fallback_counts in
    let e : Entry = record { count = count_of before + 1; window_start = window_of now before } in
    elim (Bool-cases (leb limit (count_of before))) [
      | inl full ↦ absurd (ground arith)
      | inr room ↦ rw room (
          rw (get-set_self key e q.fallback_counts) (
            rw
              (get-set_self key (record e { count = count_of before + 1 - 1 })
                (Maps.set key e q.fallback_counts))
              (omega arith)))
    ]

-- After a check of concurrent executions that passed, whatever its amount, a release of one unit gives
-- the count that was there before.
release-check :
    (now amount : ℕ) (namespace : String) (q : QuotaEnforcer)
    → (check now namespace "concurrent_executions" amount q).1 ≡ passed
    → count_of (
        Maps.get
          (get_fallback_key namespace "concurrent_executions")
          (release namespace "concurrent_executions" 1
            (check now namespace "concurrent_executions" amount q).0).fallback_counts)
      ≡ count_of (Maps.get (get_fallback_key namespace "concurrent_executions") q.fallback_counts)
unfolding check check_fallback release
release-check now amount namespace q h =
    count-release_one now (2 * amount) (get_fallback_key namespace "concurrent_executions") q h
