-- ===== src/Shared/Budget/Days.antt =====
-- What a namespace is granted in a day.
use the_kubernetes_of_ai_age.Common.{
  ℕ, ◌+◌, ◌*◌, ◌⊎◌, ap, ◌≤◌, ◌≡◌, refl, subst, every, ◌∙◌, String, Bool, true, false, ◌&&◌, Option,
  none, some, List, [], ◌∷◌, arith, if◌then◌else◌, ltb, leb, str_eq, eq_iff, Option-cases,
  Bool-cases, inl, inr,
}
use the_kubernetes_of_ai_age.Common.Maps
use the_kubernetes_of_ai_age.Common.Maps.{get-set, AllEntries-get}
use the_kubernetes_of_ai_age.Shared.Budget.{
  BudgetAllocation, BudgetState, PartialAllocation, TokenBudget, Verdict, allowed, reset, reset_all,
  new, allocation, current, fresh, judge, charge, store, reset_day, reset_minute, or_else,
  try_consume, get_usage, is_exhausted, day_ms,
}
use the_kubernetes_of_ai_age.Shared.Budget.Bounds.{
  IsWithin, IsSolvent, Call, consume, ask_usage, ask_exhausted, forget, forget_all, perform, run,
  configure, run-IsSolvent, configure-IsSolvent,
}

-- A call, other than a reset, within the day that begins at `s`.
abbrev pub is_at : ℕ → ℕ → Bool
is_at s now = leb s now && ltb now (s + day_ms)

abbrev pub is_within_day : ℕ → Call → Bool
is_within_day s (consume now ns tokens cost) = is_at s now
is_within_day s (ask_usage now ns) = is_at s now
is_within_day s (ask_exhausted now ns) = is_at s now
is_within_day s _ = false

abbrev pub tokens_of : ℕ → Verdict → ℕ
tokens_of tokens allowed = tokens
tokens_of tokens _ = 0

-- The tokens that a call, and calls one after the other, grant to a namespace.
abbrev pub granted : String → Call → TokenBudget → ℕ
granted ns (consume now k tokens cost) b =
    if str_eq k ns then tokens_of tokens (try_consume now k tokens cost b).1 else 0
granted ns _ b = 0

unfoldable pub total : String → List Call → TokenBudget → ℕ
total ns [] b = 0
total ns (c ∷ cs) b = granted ns c b + total ns cs (perform c b)

-- At most one day's allocation `m` was granted before the day that the kept state counts began; `g` was
-- granted since `s`.
abbrev IsTold : ℕ → ℕ → ℕ → Option BudgetState → Type 0
IsTold m s g none = g ≡ 0
IsTold m s g (some st) =
    (st.tokens_used ≤ m) × ((g ≤ st.tokens_used) ⊎ (s ≤ st.day_start) × (g ≤ m + st.tokens_used))

current-IsTold :
    (m s g now : ℕ) (o : Option BudgetState)
    → is_at s now ≡ true
    → IsTold m s g o
    → IsTold m s g (some (reset_minute now (reset_day now (or_else o (fresh now)))))
current-IsTold m s g now none at h = (ground arith, inl (ground (arith, h)))
current-IsTold m s g now (some st) at (le, inl few) =
    elim (Bool-cases (leb (st.day_start + day_ms) now)) [
      | inl new_day ↦ (ground (arith, le), inr (ground (arith), ground (arith, le, few)))
      | inr same_day ↦ (ground (arith, le), inl (ground (arith, few)))
    ]
current-IsTold m s g now (some st) at (le, inr (began, few)) =
    (ground (arith, le), inr (ground (arith, began), ground (arith, few, began)))

charge-IsTold :
    (m s g tokens cost : ℕ) (a : BudgetAllocation) (st : BudgetState)
    → a.max_tokens_per_day ≡ m
    → IsTold m s g (some st)
    → IsTold m s
        (g + tokens_of tokens (judge a st tokens cost))
        (some (charge tokens cost st (judge a st tokens cost)))
charge-IsTold m s g tokens cost a st e (le, inl few) =
    (ground (arith, e, le), inl (ground (arith, few)))
charge-IsTold m s g tokens cost a st e (le, inr (began, few)) =
    (ground (arith, e, le), inr (ground (arith, began), ground (arith, few)))

perform-allocation :
    (ns : String) (c : Call) (b : TokenBudget) → allocation ns (perform c b) ≡ allocation ns b
unfolding perform try_consume get_usage is_exhausted reset reset_all allocation
perform-allocation ns (consume now k tokens cost) b = refl
perform-allocation ns (ask_usage now k) b = refl
perform-allocation ns (ask_exhausted now k) b = refl
perform-allocation ns (forget k) b = refl
perform-allocation ns forget_all b = refl

store-IsTold :
    (m s g more : ℕ) (ns k : String) (st : BudgetState) (b : TokenBudget)
    → (str_eq k ns ≡ true → IsTold m s (g + more) (some st))
    → IsTold m s g (Maps.get ns b.states)
    → IsTold m s (g + (if str_eq k ns then more else 0)) (Maps.get ns (store k st b).states)
store-IsTold m s g more ns k st b told h = elim (Bool-cases (str_eq k ns)) [
  | inl e ↦ rw (get-set k ns st b.states, e) (told e)
  | inr e ↦
      rw (get-set k ns st b.states, e)
        (subst (λ n. IsTold m s n (Maps.get ns b.states)) (omega arith) h)
]

read-IsTold :
    (m s g now : ℕ) (ns k : String) (b : TokenBudget)
    → is_at s now ≡ true
    → IsTold m s g (Maps.get ns b.states)
    → str_eq k ns ≡ true
    → IsTold m s g (some (current now k b))
unfolding current
read-IsTold m s g now ns k b at h e =
    rw ((eq_iff k ns).0 e) (current-IsTold m s g now (Maps.get ns b.states) at h)

keep-IsTold :
    (m s g now : ℕ) (ns k : String) (b : TokenBudget)
    → is_at s now ≡ true
    → IsTold m s g (Maps.get ns b.states)
    → IsTold m s (g + 0) (Maps.get ns (store k (current now k b) b).states)
keep-IsTold m s g now ns k b at h =
    subst (λ n. IsTold m s (g + n) (Maps.get ns (store k (current now k b) b).states))
      (ground arith)
      (store-IsTold m s g 0 ns k (current now k b) b
        (λ e.
          subst (λ n. IsTold m s n (some (current now k b))) (omega arith)
            (read-IsTold m s g now ns k b at h e))
        h)

perform-IsTold :
    (m s g : ℕ) (ns : String) (c : Call) (b : TokenBudget)
    → is_within_day s c ≡ true
    → (allocation ns b).max_tokens_per_day ≡ m
    → IsTold m s g (Maps.get ns b.states)
    → IsTold m s (g + granted ns c b) (Maps.get ns (perform c b).states)
unfolding perform try_consume get_usage is_exhausted
perform-IsTold m s g ns (consume now k tokens cost) b at most h =
    let st = current now k b in
    let v = judge (allocation k b) st tokens cost in
    store-IsTold m s g (tokens_of tokens v) ns k (charge tokens cost st v) b
      (λ e.
        charge-IsTold m s g tokens cost (allocation k b) st (rw ((eq_iff k ns).0 e) most)
          (read-IsTold m s g now ns k b at h e))
      h
perform-IsTold m s g ns (ask_usage now k) b at most h = keep-IsTold m s g now ns k b at h
perform-IsTold m s g ns (ask_exhausted now k) b at most h = keep-IsTold m s g now ns k b at h
perform-IsTold m s g ns (forget k) b at most h = absurd (ground arith)
perform-IsTold m s g ns forget_all b at most h = absurd (ground arith)

run-IsTold :
    (m s g : ℕ) (ns : String) (cs : List Call) (b : TokenBudget)
    → every (is_within_day s) cs ≡ true
    → (allocation ns b).max_tokens_per_day ≡ m
    → IsTold m s g (Maps.get ns b.states)
    → IsTold m s (g + total ns cs b) (Maps.get ns (run cs b).states)
unfolding run total
run-IsTold m s g ns [] b at most h =
    subst (λ n. IsTold m s n (Maps.get ns b.states)) (omega arith) h
run-IsTold m s g ns (c ∷ cs) b at most h =
    subst (λ n. IsTold m s n (Maps.get ns (run cs (perform c b)).states)) (omega arith)
      (run-IsTold m s (g + granted ns c b) ns cs (perform c b) (ground arith)
        (ap (λ a. a.max_tokens_per_day) (perform-allocation ns c b) ∙ most)
        (perform-IsTold m s g ns c b (ground arith) most h))

run-allocation :
    (ns : String) (cs : List Call) (b : TokenBudget) → allocation ns (run cs b) ≡ allocation ns b
unfolding run
run-allocation ns [] b = refl
run-allocation ns (c ∷ cs) b = run-allocation ns cs (perform c b) ∙ perform-allocation ns c b

told-within : (m s g : ℕ) (o : Option BudgetState) → IsTold m s g o → g ≤ 2 * m
told-within m s g none h = omega (arith, h)
told-within m s g (some st) (le, inl few) = omega (arith, le, few)
told-within m s g (some st) (le, inr (began, few)) = omega (arith, le, few)

start-IsTold :
    (s : ℕ) (ns : String) (b : TokenBudget)
    → IsSolvent b
    → IsTold (allocation ns b).max_tokens_per_day s 0 (Maps.get ns b.states)
start-IsTold s ns b solvent = elim (Option-cases (Maps.get ns b.states)) [
  | inl e ↦ rw e refl
  | inr (st, e) ↦
      let within = AllEntries-get (λ k x. IsWithin (allocation k b) x) ns b.states solvent e in
      rw e (within.tokens, inl (omega arith))
]

-- After any calls, resets included, the calls without a reset whose times all lie within one and the
-- same 24 hours, in any order, grant a namespace at most twice the tokens that it is allocated for a day.
pub total-le :
    (s : ℕ) (defaults : BudgetAllocation) (custom : PartialAllocation)
    (l : List (String × PartialAllocation)) (before cs : List Call) (ns : String)
    → every (is_within_day s) cs ≡ true
    → total ns cs (run before (configure l (new defaults custom)))
      ≤ 2 * (allocation ns (configure l (new defaults custom))).max_tokens_per_day
unfolding new
total-le s defaults custom l before cs ns at =
    let b = run before (configure l (new defaults custom)) in
    let m = (allocation ns b).max_tokens_per_day in
    let solvent =
      run-IsSolvent before (configure l (new defaults custom))
        (configure-IsSolvent l (new defaults custom) refl) in
    subst (λ a. total ns cs b ≤ 2 * a.max_tokens_per_day)
      (run-allocation ns before (configure l (new defaults custom)))
      (told-within m s (total ns cs b) (Maps.get ns (run cs b).states) (
        subst (λ n. IsTold m s n (Maps.get ns (run cs b).states)) (omega arith)
          (run-IsTold m s 0 ns cs b at refl (start-IsTold s ns b solvent))))
