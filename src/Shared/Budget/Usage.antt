-- ===== src/Shared/Budget/Usage.antt =====
-- What the budget tracker's calls do to the usage of every namespace.
use the_kubernetes_of_ai_age.Common.{
  ℕ, ◌+◌, ◌≤◌, ◌≡◌, ◌≢◌, refl, String, true, false, arith, ◌||◌, if◌then◌else◌, leb, str_eq, eq_iff,
  eq_refl, Bool-cases, inl, inr,
}
use the_kubernetes_of_ai_age.Common.Maps
use the_kubernetes_of_ai_age.Common.Maps.{get-set, get-set_self}
use the_kubernetes_of_ai_age.Shared.Budget.{
  BudgetState, TokenBudget, Verdict, allowed, rpm_exceeded, daily_token_budget_exceeded,
  daily_cost_budget_exceeded, UsageStats, usage_of, allocation, current, fresh, judge, charge,
  store, reset_day, reset_minute, or_else, try_consume, get_usage, is_exhausted, day_ms, minute_ms,
}

-- The usage with a request added, if it was allowed.
abbrev pub plus : ℕ → ℕ → Verdict → UsageStats → UsageStats
plus tokens cost allowed u = record {
  tokens_used = u.tokens_used + tokens;
  cost_used = u.cost_used + cost;
  request_count = u.request_count + 1;
}
plus tokens cost _ u = u

-- Neither counter is due for a reset.
record IsCurrent (now : ℕ) (st : BudgetState) : Type 0 where
  day : leb (st.day_start + day_ms) now ≡ false
  minute : leb (st.window_start + minute_ms) now ≡ false

refreshed-IsCurrent :
    (now : ℕ) (st : BudgetState) → IsCurrent now (reset_minute now (reset_day now st))
refreshed-IsCurrent now st = record { day = ground arith; minute = ground arith }

refreshed-current :
    (now : ℕ) (st : BudgetState) → IsCurrent now st → reset_minute now (reset_day now st) ≡ st
refreshed-current now st h = rw (h.day, h.minute) refl

charge-IsCurrent :
    (now tokens cost : ℕ) (st : BudgetState) (v : Verdict)
    → IsCurrent now st
    → IsCurrent now (charge tokens cost st v)
charge-IsCurrent now tokens cost st allowed h = record { day = h.day; minute = h.minute }
charge-IsCurrent now tokens cost st rpm_exceeded h = h
charge-IsCurrent now tokens cost st daily_token_budget_exceeded h = h
charge-IsCurrent now tokens cost st daily_cost_budget_exceeded h = h

-- What is read after a current state is stored.
current-store :
    (now : ℕ) (ns j : String) (st : BudgetState) (b : TokenBudget)
    → IsCurrent now st
    → current now j (store ns st b) ≡ (if str_eq ns j then st else current now j b)
unfolding current
current-store now ns j st b h = elim (Bool-cases (str_eq ns j)) [
  | inl e ↦ rw (get-set, e) (refreshed-current now st h)
  | inr e ↦ rw (get-set, e) refl
]

current-IsCurrent : (now : ℕ) (ns : String) (b : TokenBudget) → IsCurrent now (current now ns b)
unfolding current
current-IsCurrent now ns b = refreshed-IsCurrent now (or_else (Maps.get ns b.states) (fresh now))

judge-full :
    (tokens cost : ℕ) (ns : String) (b : TokenBudget) (st : BudgetState)
    → (leb (allocation ns b).max_tokens_per_day st.tokens_used
        || leb (allocation ns b).max_cost_per_day st.cost_used)
      ≡ true
    → 1 ≤ tokens
    → 1 ≤ cost
    → judge (allocation ns b) st tokens cost ≢ allowed
judge-full tokens cost ns b st full t c e = absurd (ground arith)

usage_of-charge :
    (tokens cost : ℕ) (st : BudgetState) (v : Verdict)
    → usage_of (charge tokens cost st v) ≡ plus tokens cost v (usage_of st)
usage_of-charge tokens cost st allowed = refl
usage_of-charge tokens cost st rpm_exceeded = refl
usage_of-charge tokens cost st daily_token_budget_exceeded = refl
usage_of-charge tokens cost st daily_cost_budget_exceeded = refl

-- At the time of a request, the usage of its namespace grows by its tokens, its cost and one request if
-- it is allowed and by nothing if it is refused. The usage of every other namespace stays as it was.
get_usage-try_consume :
    (now : ℕ) (ns j : String) (tokens cost : ℕ) (b : TokenBudget)
    → (get_usage now j (try_consume now ns tokens cost b).0).1 ≡ (
        if str_eq ns j
        then plus tokens cost (try_consume now ns tokens cost b).1 (get_usage now j b).1
        else (get_usage now j b).1)
unfolding get_usage try_consume
get_usage-try_consume now ns j tokens cost b =
    let st = current now ns b in
    let v = judge (allocation ns b) st tokens cost in
    let now_current = charge-IsCurrent now tokens cost st v (current-IsCurrent now ns b) in
    elim (Bool-cases (str_eq ns j)) [
      | inl e ↦
          rw (current-store now ns j (charge tokens cost st v) b now_current, e)
            (rw (usage_of-charge tokens cost st v, (eq_iff ns j).0 e) refl)
      | inr e ↦ rw (current-store now ns j (charge tokens cost st v) b now_current, e) refl
    ]

-- A namespace that is exhausted has every request refused that takes at least one token and one cent,
-- as long as the clock stands.
try_consume-is_exhausted :
    (now : ℕ) (ns : String) (tokens cost : ℕ) (b : TokenBudget)
    → (is_exhausted now ns b).1 ≡ true
    → 1 ≤ tokens
    → 1 ≤ cost
    → (try_consume now ns tokens cost (is_exhausted now ns b).0).1 ≢ allowed
unfolding is_exhausted try_consume allocation
try_consume-is_exhausted now ns tokens cost b full t c =
    let st = current now ns b in
    rw (current-store now ns ns st b (current-IsCurrent now ns b), eq_refl ns)
      (judge-full tokens cost ns b st full t c)
