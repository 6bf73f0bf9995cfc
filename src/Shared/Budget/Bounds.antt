-- ===== src/Shared/Budget/Bounds.antt =====
-- The budget tracker never counts more than a namespace was allocated.
use the_kubernetes_of_ai_age.Common.{
  ℕ, ◌≤◌, ◌≡◌, refl, String, List, [], ◌∷◌, arith, Option-cases, inl, inr,
}
use the_kubernetes_of_ai_age.Common.Maps
use the_kubernetes_of_ai_age.Common.Maps.{
  AllEntries, AllEntries-set, AllEntries-delete, AllEntries-get,
}
use the_kubernetes_of_ai_age.Shared.Budget.{
  BudgetAllocation, BudgetState, PartialAllocation, TokenBudget, new, allocation, set_allocation,
  current, fresh, judge, charge, store, reset_day, reset_minute, try_consume, get_usage, reset,
  reset_all, is_exhausted,
}

pub record IsWithin (a : BudgetAllocation) (st : BudgetState) : Type 0 where
  pub tokens : st.tokens_used ≤ a.max_tokens_per_day
  pub cost : st.cost_used ≤ a.max_cost_per_day
  pub requests : st.request_count ≤ a.max_requests_per_minute

-- Every state that is kept is within what its namespace is allocated.
abbrev pub IsSolvent : TokenBudget → Type 0
IsSolvent b = AllEntries (λ ns st. IsWithin (allocation ns b) st) b.states

-- The calls that the services make once the allocations are set, with the time of each.
pub data Call : Type 0 where
  consume : ℕ → String → ℕ → ℕ → Call
  ask_usage : ℕ → String → Call
  ask_exhausted : ℕ → String → Call
  forget : String → Call
  forget_all : Call

unfoldable pub perform : Call → TokenBudget → TokenBudget
perform (consume now ns tokens cost) b = (try_consume now ns tokens cost b).0
perform (ask_usage now ns) b = (get_usage now ns b).0
perform (ask_exhausted now ns) b = (is_exhausted now ns b).0
perform (forget ns) b = reset ns b
perform forget_all b = reset_all b

unfoldable pub run : List Call → TokenBudget → TokenBudget
unfolding perform
run [] b = b
run (c ∷ cs) b = run cs (perform c b)

unfoldable pub configure : List (String × PartialAllocation) → TokenBudget → TokenBudget
configure [] b = b
configure ((ns, a) ∷ rest) b = configure rest (set_allocation ns a b)

fresh-IsWithin : (now : ℕ) (a : BudgetAllocation) → IsWithin a (fresh now)
fresh-IsWithin now a = record { tokens = omega arith; cost = omega arith; requests = omega arith }

refreshed-IsWithin :
    (now : ℕ) (a : BudgetAllocation) (st : BudgetState)
    → IsWithin a st
    → IsWithin a (reset_minute now (reset_day now st))
refreshed-IsWithin now a st h = record {
  tokens = ground (arith, h.tokens);
  cost = ground (arith, h.cost);
  requests = ground (arith, h.requests);
}

charge-IsWithin :
    (tokens cost : ℕ) (a : BudgetAllocation) (st : BudgetState)
    → IsWithin a st
    → IsWithin a (charge tokens cost st (judge a st tokens cost))
charge-IsWithin tokens cost a st h = record {
  tokens = ground (arith, h.tokens);
  cost = ground (arith, h.cost);
  requests = ground (arith, h.requests);
}

current-IsWithin :
    (now : ℕ) (ns : String) (b : TokenBudget)
    → IsSolvent b
    → IsWithin (allocation ns b) (current now ns b)
unfolding current
current-IsWithin now ns b h = elim (Option-cases (Maps.get ns b.states)) [
  | inl e ↦
      rw e (
        refreshed-IsWithin now (allocation ns b) (fresh now) (fresh-IsWithin now (allocation ns b)))
  | inr (st, e) ↦ rw e (
      refreshed-IsWithin now (allocation ns b) st
        (AllEntries-get (λ k s. IsWithin (allocation k b) s) ns b.states h e))
]

store-IsSolvent :
    (ns : String) (st : BudgetState) (b : TokenBudget)
    → IsWithin (allocation ns b) st
    → IsSolvent b
    → IsSolvent (store ns st b)
unfolding allocation
store-IsSolvent ns st b p h = AllEntries-set (λ k s. IsWithin (allocation k b) s) ns st b.states p h

perform-IsSolvent : (c : Call) (b : TokenBudget) → IsSolvent b → IsSolvent (perform c b)
unfolding perform try_consume get_usage is_exhausted reset reset_all allocation
perform-IsSolvent (consume now ns tokens cost) b h =
    store-IsSolvent ns
      (charge tokens cost (current now ns b)
        (judge (allocation ns b) (current now ns b) tokens cost))
      b
      (charge-IsWithin tokens cost (allocation ns b) (current now ns b)
        (current-IsWithin now ns b h))
      h
perform-IsSolvent (ask_usage now ns) b h =
    store-IsSolvent ns (current now ns b) b (current-IsWithin now ns b h) h
perform-IsSolvent (ask_exhausted now ns) b h =
    store-IsSolvent ns (current now ns b) b (current-IsWithin now ns b h) h
perform-IsSolvent (forget ns) b h =
    AllEntries-delete (λ k s. IsWithin (allocation k b) s) ns b.states h
perform-IsSolvent forget_all b h = tt

pub run-IsSolvent : (cs : List Call) (b : TokenBudget) → IsSolvent b → IsSolvent (run cs b)
unfolding run
run-IsSolvent [] b h = h
run-IsSolvent (c ∷ cs) b h = run-IsSolvent cs (perform c b) (perform-IsSolvent c b h)

pub configure-IsSolvent :
    (l : List (String × PartialAllocation)) (b : TokenBudget)
    → b.states ≡ []
    → IsSolvent (configure l b)
unfolding configure set_allocation
configure-IsSolvent [] b e = rw e tt
configure-IsSolvent ((ns, a) ∷ rest) b e = configure-IsSolvent rest (set_allocation ns a b) e

-- Whatever requests are made, refused, forgotten and asked about after the allocations are set, at
-- whatever times, no namespace is ever counted more tokens and cost in its day, or more requests in its
-- minute, than it is allocated.
pub run-new-IsWithin :
    (defaults : BudgetAllocation) (custom : PartialAllocation)
    (l : List (String × PartialAllocation)) (cs : List Call) (now : ℕ) (ns : String)
    → IsWithin
        (allocation ns (run cs (configure l (new defaults custom))))
        (current now ns (run cs (configure l (new defaults custom))))
unfolding new
run-new-IsWithin defaults custom l cs now ns =
    current-IsWithin now ns (run cs (configure l (new defaults custom))) (
      run-IsSolvent cs (configure l (new defaults custom))
        (configure-IsSolvent l (new defaults custom) refl))
