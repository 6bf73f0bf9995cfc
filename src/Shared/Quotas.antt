-- ===== src/Shared/Quotas.antt =====
-- packages/shared/src/quotas/enforcer.ts: the class `QuotaEnforcer` where Redis cannot be reached, with
-- the counts that it keeps itself. `Date.now()` is the argument `now`, in milliseconds.
pub mod Bounds
pub mod Amounts
mod Tests
use the_kubernetes_of_ai_age.Common.{
  ℕ, ◌+◌, ◌-◌, ◌*◌, max, String, Bool, true, false, Option, none, some, List, [], ◌∷◌,
  if◌then◌else◌, ltb, leb, str_eq,
}
use the_kubernetes_of_ai_age.Common.Maps

pub record Entry : Type 0 where
  pub count : ℕ
  pub window_start : ℕ

pub record QuotaEnforcer : Type 0 where
  pub window_seconds : ℕ
  pub fallback_counts : List (String × Entry)

pub record QuotaCheckResult : Type 0 where
  pub allowed : Bool
  pub current : ℕ
  pub limit : ℕ
  pub retry_after_ms : ℕ

unfoldable pub new : ℕ → QuotaEnforcer
new window_seconds = record { window_seconds = window_seconds; fallback_counts = [] }

unfoldable pub get_fallback_key : String → String → String
get_fallback_key namespace resource =
    Prim.Native.String.◌++◌ namespace (Prim.Native.String.◌++◌ ":" resource)

abbrev pub count_of : Option Entry → ℕ
count_of none = 0
count_of (some e) = e.count

abbrev pub window_of : ℕ → Option Entry → ℕ
window_of now none = now
window_of now (some e) = e.window_start

abbrev pub store : String → Entry → QuotaEnforcer → QuotaEnforcer
store key e q = record q { fallback_counts = Maps.set key e q.fallback_counts }

-- `checkFallback` of a resource that is held and released.
abbrev pub check_concurrent :
    ℕ → String → ℕ → Option Entry → QuotaEnforcer → QuotaEnforcer × QuotaCheckResult
check_concurrent now key limit entry q =
    let current = count_of entry in
    let e : Entry = record { count = current + 1; window_start = window_of now entry } in
    if leb limit current
    then (q, record { allowed = false; current = current; limit = limit; retry_after_ms = 1000 })
    else (
      store key e q,
      record { allowed = true; current = current + 1; limit = limit; retry_after_ms = 0 },
    )

-- The entry that is counted on, a new one if there is none or its window is over.
abbrev pub open_window : ℕ → ℕ → Option Entry → Entry
open_window window now none = record { count = 0; window_start = now }
open_window window now (some e) =
    if ltb (e.window_start + window) now then record { count = 0; window_start = now } else e

-- `checkFallback` of a resource that is used at a rate: the count goes up, and down again if that is
-- over the limit.
abbrev pub check_rate :
    ℕ → String → ℕ → Option Entry → QuotaEnforcer → QuotaEnforcer × QuotaCheckResult
check_rate now key limit entry q =
    let window = q.window_seconds * 1000 in
    let e = open_window window now entry in
    let current = e.count + 1 in
    if leb current limit
    then (
      store key (record e { count = current }) q,
      record { allowed = true; current = current; limit = limit; retry_after_ms = 0 },
    )
    else (
      store key (record e { count = current - 1 }) q,
      record {
        allowed = false;
        current = current - 1;
        limit = limit;
        retry_after_ms = e.window_start + window - now;
      },
    )

unfoldable pub check_fallback :
    ℕ → String → ℕ → Bool → QuotaEnforcer → QuotaEnforcer × QuotaCheckResult
check_fallback now key limit is_concurrent q =
    let entry = Maps.get key q.fallback_counts in
    if is_concurrent
    then check_concurrent now key limit entry q
    else check_rate now key limit entry q

-- `getTierLimit` and `getLimits`, which are the same for every namespace.
abbrev pub get_limit : String → Option ℕ
get_limit resource =
    if str_eq resource "agents"
    then some 5
    else if str_eq resource "concurrent_executions"
    then some 2
    else if str_eq resource "tool_calls_per_minute"
    then some 30
    else none

abbrev pub is_concurrent : String → Bool
is_concurrent resource = str_eq resource "concurrent_executions"

-- `check` returns, or throws a `QuotaExceededError` with these fields.
pub data Outcome : Type 0 where
  passed : Outcome
  quota_exceeded : ℕ → ℕ → ℕ → Outcome

abbrev pub outcome : QuotaCheckResult → Outcome
outcome r = if r.allowed then passed else quota_exceeded r.limit r.current r.retry_after_ms

abbrev pub check_limit :
    ℕ → String → String → ℕ → Option ℕ → QuotaEnforcer → QuotaEnforcer × Outcome
check_limit now namespace resource amount none q = (q, passed)
check_limit now namespace resource amount (some limit) q =
    let key = get_fallback_key namespace resource in
    let r = check_fallback now key (limit * amount) (is_concurrent resource) q in (r.0, outcome r.1)

unfoldable pub check : ℕ → String → String → ℕ → QuotaEnforcer → QuotaEnforcer × Outcome
check now namespace resource amount q =
    check_limit now namespace resource amount (get_limit resource) q

unfoldable pub reset : String → String → QuotaEnforcer → QuotaEnforcer
reset namespace resource q = record q {
  fallback_counts = Maps.delete (get_fallback_key namespace resource) q.fallback_counts;
}

abbrev pub release_entry : String → ℕ → Option Entry → QuotaEnforcer → QuotaEnforcer
release_entry key amount none q = q
release_entry key amount (some e) q = store key (record e { count = e.count - amount }) q

unfoldable pub release : String → String → ℕ → QuotaEnforcer → QuotaEnforcer
release namespace resource amount q =
    let key = get_fallback_key namespace resource in
    release_entry key amount (Maps.get key q.fallback_counts) q
