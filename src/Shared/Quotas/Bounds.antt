-- ===== src/Shared/Quotas/Bounds.antt =====
-- The counts stay within the limits, and a release takes back what a check took.
use the_kubernetes_of_ai_age.Common.{
  ℕ, ◌+◌, ◌-◌, ◌*◌, ◌≤◌, ◌≡◌, String, Bool, true, false, Option, none, some, List, [], ◌∷◌,
  if◌then◌else◌, leb, arith, inl, inr, Option-cases, if_rule,
}
use native.Mathlib.Nat.{mul-le-mul_left}
use the_kubernetes_of_ai_age.Common.Maps
use the_kubernetes_of_ai_age.Common.Maps.{
  get-set_self, AllEntries, AllEntries-set, AllEntries-delete, AllEntries-get,
}
use the_kubernetes_of_ai_age.Shared.Quotas.{
  Entry, QuotaEnforcer, QuotaCheckResult, new, get_fallback_key, count_of, window_of, store,
  open_window, check_fallback, get_limit, is_concurrent, check, reset, release_entry, release,
}

-- No key counts more than `n`.
abbrev pub IsBounded : ℕ → QuotaEnforcer → Type 0
IsBounded n q = AllEntries (λ key e. e.count ≤ n) q.fallback_counts

pub count_of-le :
    (n : ℕ) (key : String) (q : QuotaEnforcer)
    → IsBounded n q
    → count_of (Maps.get key q.fallback_counts) ≤ n
count_of-le n key q h = elim (Option-cases (Maps.get key q.fallback_counts)) [
  | inl e ↦ rw e (omega arith)
  | inr (x, e) ↦ rw e (AllEntries-get (λ k y. y.count ≤ n) key q.fallback_counts h e)
]

store-IsBounded :
    (n : ℕ) (key : String) (e : Entry) (q : QuotaEnforcer)
    → e.count ≤ n
    → IsBounded n q
    → IsBounded n (store key e q)
store-IsBounded n key e q le h = AllEntries-set (λ k y. y.count ≤ n) key e q.fallback_counts le h

open_window-le :
    (n window now : ℕ) (entry : Option Entry)
    → count_of entry ≤ n
    → (open_window window now entry).count ≤ n
open_window-le n window now none h = omega arith
open_window-le n window now (some e) h = ground arith

check_fallback-IsBounded :
    (n now : ℕ) (key : String) (limit : ℕ) (concurrent : Bool) (q : QuotaEnforcer)
    → limit ≤ n
    → IsBounded n q
    → IsBounded n (check_fallback now key limit concurrent q).0
unfolding check_fallback
check_fallback-IsBounded n now key limit true q le h =
    if_rule {A = QuotaEnforcer × QuotaCheckResult} (λ r. IsBounded n r.0)
      (leb limit (count_of (Maps.get key q.fallback_counts))) (λ full. h)
      (λ room.
        store-IsBounded n key
          (record {
            count = count_of (Maps.get key q.fallback_counts) + 1;
            window_start = window_of now (Maps.get key q.fallback_counts);
          })
          q (ground arith) h)
check_fallback-IsBounded n now key limit false q le h =
    let e = open_window (q.window_seconds * 1000) now (Maps.get key q.fallback_counts) in
    let kept : e.count ≤ n =
      open_window-le n (q.window_seconds * 1000) now (Maps.get key q.fallback_counts)
        (count_of-le n key q h) in
    if_rule {A = QuotaEnforcer × QuotaCheckResult} (λ r. IsBounded n r.0) (leb (e.count + 1) limit)
      (λ room. store-IsBounded n key (record e { count = e.count + 1 }) q (ground arith) h)
      (λ full.
        store-IsBounded n key (record e { count = e.count + 1 - 1 }) q (omega (arith, kept)) h)

release_entry-IsBounded :
    (n : ℕ) (key : String) (amount : ℕ) (entry : Option Entry) (q : QuotaEnforcer)
    → count_of entry ≤ n
    → IsBounded n q
    → IsBounded n (release_entry key amount entry q)
release_entry-IsBounded n key amount none q le h = h
release_entry-IsBounded n key amount (some e) q le h =
    store-IsBounded n key (record e { count = e.count - amount }) q (omega (arith, le)) h

-- The calls for one resource: a check and a release with an amount, and a reset, each for a namespace.
pub data Event : Type 0 where
  check_at : ℕ → String → ℕ → Event
  release_at : String → ℕ → Event
  reset_at : String → Event

unfoldable pub perform : String → Event → QuotaEnforcer → QuotaEnforcer
perform resource (check_at now namespace amount) q = (check now namespace resource amount q).0
perform resource (release_at namespace amount) q = release namespace resource amount q
perform resource (reset_at namespace) q = reset namespace resource q

unfoldable pub run : String → List Event → QuotaEnforcer → QuotaEnforcer
unfolding perform
run resource [] q = q
run resource (e ∷ es) q = run resource es (perform resource e q)

-- No check asks for more than `most` at once.
abbrev pub asks_within : ℕ → List Event → Bool
asks_within most [] = true
asks_within most (check_at now namespace amount ∷ es) =
    if leb amount most then asks_within most es else false
asks_within most (_ ∷ es) = asks_within most es

check-IsBounded :
    (n now amount limit : ℕ) (namespace resource : String) (q : QuotaEnforcer)
    → get_limit resource ≡ some limit
    → limit * amount ≤ n
    → IsBounded n q
    → IsBounded n (check now namespace resource amount q).0
unfolding check
check-IsBounded n now amount limit namespace resource q e le h = rw e (
    check_fallback-IsBounded n now (get_fallback_key namespace resource) (limit * amount)
      (is_concurrent resource) q le h)

perform-IsBounded :
    (n limit : ℕ) (resource : String) (e : Event) (most : ℕ) (es : List Event) (q : QuotaEnforcer)
    → get_limit resource ≡ some limit
    → limit * most ≤ n
    → asks_within most (e ∷ es) ≡ true
    → IsBounded n q
    → IsBounded n (perform resource e q) × (asks_within most es ≡ true)
unfolding perform release reset
perform-IsBounded n limit resource (check_at now namespace amount) most es q f le asks h =
    let small : amount ≤ most = ground arith in
    let scaled = mul-le-mul_left {m = amount} {n = most} limit small in
    (
      check-IsBounded n now amount limit namespace resource q f (omega (arith, scaled, le)) h,
      ground arith,
    )
perform-IsBounded n limit resource (release_at namespace amount) most es q f le asks h =
    let key = get_fallback_key namespace resource in
    (
      release_entry-IsBounded n key amount (Maps.get key q.fallback_counts) q
          (count_of-le n key q h) h,
      asks,
    )
perform-IsBounded n limit resource (reset_at namespace) most es q f le asks h = (
  AllEntries-delete (λ key e. e.count ≤ n) (get_fallback_key namespace resource) q.fallback_counts
      h,
  asks,
)

run-IsBounded :
    (n limit : ℕ) (resource : String) (most : ℕ) (es : List Event) (q : QuotaEnforcer)
    → get_limit resource ≡ some limit
    → limit * most ≤ n
    → asks_within most es ≡ true
    → IsBounded n q
    → IsBounded n (run resource es q)
unfolding run
run-IsBounded n limit resource most [] q f le asks h = h
run-IsBounded n limit resource most (e ∷ es) q f le asks h =
    let next = perform-IsBounded n limit resource e most es q f le asks h in
    run-IsBounded n limit resource most es (perform resource e q) f le next.1 next.0

-- Of an enforcer that is used for one resource, in checks of at most `most` units at a time, no
-- namespace's count is ever above the resource's limit times `most`, whatever is checked, released and
-- reset: with checks of one unit, never above the limit.
pub run-new-IsBounded :
    (window limit most : ℕ) (resource : String) (es : List Event)
    → get_limit resource ≡ some limit
    → asks_within most es ≡ true
    → IsBounded (limit * most) (run resource es (new window))
unfolding new
run-new-IsBounded window limit most resource es f asks =
    run-IsBounded (limit * most) limit resource most es (new window) f (omega arith) asks tt
