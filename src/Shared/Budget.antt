-- ===== src/Shared/Budget.antt =====
-- packages/shared/src/budget/tracker.ts: the class `TokenBudget`. `Date.now()` is the argument `now`,
-- in milliseconds; tokens and cents are whole numbers. A state is changed in place in its map.
pub mod Usage
pub mod Bounds
pub mod Days
use Prim.Native.Char.{Char, code}
use Prim.Native.String
use the_kubernetes_of_ai_age.Common.{
  ℕ, ◌+◌, String, Bool, true, false, ◌||◌, Option, none, some, List, [], ◌∷◌, if◌then◌else◌, ltb,
  leb, ◌==◌,
}
use the_kubernetes_of_ai_age.Common.Maps

pub record BudgetAllocation : Type 0 where
  pub max_tokens_per_day : ℕ
  pub max_cost_per_day : ℕ
  pub max_requests_per_minute : ℕ

pub record BudgetState : Type 0 where
  pub tokens_used : ℕ
  pub cost_used : ℕ
  pub request_count : ℕ
  pub window_start : ℕ
  pub day_start : ℕ

-- `Partial<BudgetAllocation>`
pub record PartialAllocation : Type 0 where
  pub max_tokens_per_day : Option ℕ
  pub max_cost_per_day : Option ℕ
  pub max_requests_per_minute : Option ℕ

pub record TokenBudget : Type 0 where
  pub allocations : List (String × BudgetAllocation)
  pub states : List (String × BudgetState)
  pub default_allocation : BudgetAllocation

abbrev pub day_ms : ℕ
day_ms = 86_400_000

abbrev pub minute_ms : ℕ
minute_ms = 60_000

-- The text before the first "/", if there is one: `parts[0]` where there are two parts or more.
abbrev pub before_slash : String → Option String
before_slash String.[] = none
before_slash (String.◌∷◌ c s) =
    let rest = before_slash s in
    if code c == b'/' then some "" else elim rest [ none ↦ none | some p ↦ some (String.◌∷◌ c p) ]

unfoldable pub extract_namespace : String → String
extract_namespace agent_id = elim (before_slash agent_id) [ none ↦ "default" | some ns ↦ ns ]

abbrev pub or_else {ℓ} : {A : Type ℓ} → Option A → A → A
or_else none d = d
or_else (some a) d = a

-- `{ ...existing, ...alloc }`
unfoldable pub merge : BudgetAllocation → PartialAllocation → BudgetAllocation
merge existing alloc = record {
  max_tokens_per_day = or_else alloc.max_tokens_per_day existing.max_tokens_per_day;
  max_cost_per_day = or_else alloc.max_cost_per_day existing.max_cost_per_day;
  max_requests_per_minute = or_else alloc.max_requests_per_minute existing.max_requests_per_minute;
}

-- The constructor, with the defaults that the process read from its environment.
unfoldable pub new : BudgetAllocation → PartialAllocation → TokenBudget
unfolding merge
new defaults custom = record {
  allocations = [];
  states = [];
  default_allocation = merge defaults custom;
}

unfoldable pub allocation : String → TokenBudget → BudgetAllocation
allocation namespace b = or_else (Maps.get namespace b.allocations) b.default_allocation

unfoldable pub set_allocation : String → PartialAllocation → TokenBudget → TokenBudget
unfolding merge allocation
set_allocation namespace alloc b = record b {
  allocations = Maps.set namespace (merge (allocation namespace b) alloc) b.allocations;
}

abbrev pub fresh : ℕ → BudgetState
fresh now = record {
  tokens_used = 0;
  cost_used = 0;
  request_count = 0;
  window_start = now;
  day_start = now;
}

abbrev pub reset_day : ℕ → BudgetState → BudgetState
reset_day now st =
    if leb (st.day_start + day_ms) now
    then record st { tokens_used = 0; cost_used = 0; day_start = now }
    else st

abbrev pub reset_minute : ℕ → BudgetState → BudgetState
reset_minute now st =
    if leb (st.window_start + minute_ms) now
    then record st { request_count = 0; window_start = now }
    else st

-- The state that `getState` returns.
unfoldable pub current : ℕ → String → TokenBudget → BudgetState
current now namespace b =
    reset_minute now (reset_day now (or_else (Maps.get namespace b.states) (fresh now)))

abbrev pub store : String → BudgetState → TokenBudget → TokenBudget
store namespace st b = record b { states = Maps.set namespace st b.states }

pub data Verdict : Type 0 where
  allowed rpm_exceeded daily_token_budget_exceeded daily_cost_budget_exceeded : Verdict

abbrev pub judge : BudgetAllocation → BudgetState → ℕ → ℕ → Verdict
judge a st tokens cost =
    if leb a.max_requests_per_minute st.request_count
    then rpm_exceeded
    else if ltb a.max_tokens_per_day (st.tokens_used + tokens)
    then daily_token_budget_exceeded
    else if ltb a.max_cost_per_day (st.cost_used + cost)
    then daily_cost_budget_exceeded
    else allowed

abbrev pub charge : ℕ → ℕ → BudgetState → Verdict → BudgetState
charge tokens cost st allowed = record st {
  request_count = st.request_count + 1;
  tokens_used = st.tokens_used + tokens;
  cost_used = st.cost_used + cost;
}
charge tokens cost st _ = st

unfoldable pub try_consume : ℕ → String → ℕ → ℕ → TokenBudget → TokenBudget × Verdict
unfolding current allocation
try_consume now namespace tokens cost b =
    let st = current now namespace b in
    let verdict = judge (allocation namespace b) st tokens cost in
    (store namespace (charge tokens cost st verdict) b, verdict)

pub record UsageStats : Type 0 where
  pub tokens_used : ℕ
  pub cost_used : ℕ
  pub request_count : ℕ

abbrev pub usage_of : BudgetState → UsageStats
usage_of st = record {
  tokens_used = st.tokens_used;
  cost_used = st.cost_used;
  request_count = st.request_count;
}

unfoldable pub get_usage : ℕ → String → TokenBudget → TokenBudget × UsageStats
unfolding current
get_usage now namespace b = let st = current now namespace b in (store namespace st b, usage_of st)

unfoldable pub reset : String → TokenBudget → TokenBudget
reset namespace b = record b { states = Maps.delete namespace b.states }

unfoldable pub reset_all : TokenBudget → TokenBudget
reset_all b = record b { states = [] }

unfoldable pub is_exhausted : ℕ → String → TokenBudget → TokenBudget × Bool
unfolding current allocation
is_exhausted now namespace b =
    let st = current now namespace b in
    let a = allocation namespace b in
    (
      store namespace st b,
      leb a.max_tokens_per_day st.tokens_used || leb a.max_cost_per_day st.cost_used,
    )
