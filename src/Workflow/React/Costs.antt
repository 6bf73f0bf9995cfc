-- ===== src/Workflow/React/Costs.antt =====
-- Money in the ReAct loop: what a run says it cost, and its budget.
pub mod Totals
use native.Mathlib.Numerals.{add-one}
use the_kubernetes_of_ai_age.Common.{
  ℕ, zero, suc, ◌+◌, ◌≤◌, ◌<◌, ◌≡◌, ◌≢◌, ◌⊎◌, inl, inr, refl, sym, ◌∙◌, ap, if_rule, Option-cases,
  String, Bool, true, false, ◌&&◌, ◌||◌, Option, none, some, List, [], ◌∷◌, arith, if◌then◌else◌,
  ltb, exists, str_eq,
}
use the_kubernetes_of_ai_age.Common.Json.{Json}
use the_kubernetes_of_ai_age.Workflow.React.{
  Floats, LlmResponse, ToolResult, AgentResult, AgentExecutionInput, Attempt, returns, throws,
  Report, Status, Output, Activities, ResponseType, final_answer, tool_call,
}
use the_kubernetes_of_ai_age.Workflow.React.Exec
use the_kubernetes_of_ai_age.Workflow.React.Exec.{Log, M, ok, err, observe, observe_rule}
use the_kubernetes_of_ai_age.Workflow.React.Loop.{
  LoopState, Flow, go_on, finished, over_budget, truthy, call_key, includes, record_tool,
  abort_tool, settle_tool, call_new_tool, call_tool, finish, respond, exceed_budget, take_response,
  cancel, ask_model, iterate, loop, result_of,
}

abbrev pub exceeds : Output → Bool
exceeds (Output.cost_budget_exceeded total budget) = true
exceeds _ = false

module _ (floats : Floats) (env : Activities) where
  -- A total with what an answer of the model costs. A call that throws costs nothing.
  abbrev pub with_cost : ℕ → Attempt LlmResponse → ℕ
  with_cost total (returns r) = floats.add total (floats.parse r.cost)
  with_cost total (throws e) = total

  -- What the first n answers of the model cost together, added up from the first on.
  abbrev pub spent : ℕ → ℕ
  spent zero = 0
  spent (suc n) = with_cost (spent n) (env.call_llm (suc n))

module _ (floats : Floats) (env : Activities) (input : AgentExecutionInput) where
  -- The state between two passes, and the result of one: the total is what the answers cost, and the
  -- budget was exceeded exactly where the result says so.
  pub record IsPaid (st : LoopState) : Type 0 where
    pub summed : st.total_cost ≡ spent floats env st.current_iteration
    pub affordable : over_budget floats input.cost_budget st.total_cost ≡ false

  pub record IsBilled (r : AgentResult) : Type 0 where
    pub summed : r.total_cost ≡ spent floats env r.iterations
    pub told : over_budget floats input.cost_budget r.total_cost ≡ exceeds r.output
    pub failed : (exceeds r.output ≡ false) ⊎ (r.status ≡ Status.error)

module _ (stringify : Json → String) (floats : Floats) (env : Activities)
    (input : AgentExecutionInput) (ip : String) where
  abbrev pub Pays : Exec.Exec Flow → Type 0
  Pays (ok (go_on st) log) = IsPaid floats env input st
  Pays (ok (finished r) log) = IsBilled floats env input r
  Pays (err e log) = Unit

  reported :
      (r : Report) (f : Unit {0} → M Flow) (log : Log)
      → ((log' : Log) → Pays (f tt log'))
      → Pays (Exec.◌>>=◌ (observe env r) f log)
  reported r f log rest = observe_rule Pays env r f log (rest _) (λ m. tt)

  bill :
      (st : LoopState) (status : Status) (output : Output)
      → IsPaid floats env input st
      → exceeds output ≡ false
      → IsBilled floats env input (result_of status output st)
  bill st status output p e = record {
    summed = p.summed;
    told = p.affordable ∙ sym e;
    failed = inl e;
  }

  settle_tool-Pays :
      (tool : String) (r : LlmResponse) (st : LoopState) (a : Attempt ToolResult) (log : Log)
      → IsPaid floats env input st
      → Pays (settle_tool stringify floats env input ip tool r st a log)
  unfolding settle_tool record_tool abort_tool
  settle_tool-Pays tool r st (returns done) log p =
      reported _ _ _ (λ log'. record { summed = p.summed; affordable = p.affordable })
  settle_tool-Pays tool r st (throws e) log p =
      if_rule {A = M Flow} (λ m. Pays (m log))
        (includes e "PII_VIOLATION" || includes e "POLICY_DENIED")
        (λ c. reported _ _ _ (λ log'. bill st _ _ p refl))
        (λ c. reported _ _ _ (λ log'. record { summed = p.summed; affordable = p.affordable }))

  call_tool-Pays :
      (tool : String) (r : LlmResponse) (st : LoopState) (log : Log)
      → IsPaid floats env input st
      → Pays (call_tool stringify floats env input ip tool r st log)
  unfolding call_tool call_new_tool
  call_tool-Pays tool r st log p =
      let key = call_key stringify floats env input ip tool r.tool_args in
      let n = st.current_iteration in
      if_rule {A = M Flow} (λ m. Pays (m (Exec.last_action (Exec.called_tool tool) ∷ log)))
        (exists (λ k. str_eq k key) st.seen_tool_calls)
        (λ c. record { summed = p.summed; affordable = p.affordable })
        (λ c. reported _ _ _ (λ log'.
          settle_tool-Pays tool r (record st { seen_tool_calls = key ∷ st.seen_tool_calls })
            (env.execute_tool n) _ (record { summed = p.summed; affordable = p.affordable })))

  respond-Pays :
      (kind : ResponseType) (r : LlmResponse) (st : LoopState) (log : Log)
      → IsPaid floats env input st
      → Pays (respond stringify floats env input ip kind r st log)
  unfolding respond finish
  respond-Pays final_answer r st log p =
      reported _ _ _ (λ log'. record { summed = p.summed; told = p.affordable; failed = inl refl })
  respond-Pays tool_call r st log p = elim (Option-cases (truthy r.tool_name)) [
    | inl e ↦ rw (e, respond) (record { summed = p.summed; affordable = p.affordable })
    | inr (tool, e) ↦ rw (e, respond) (call_tool-Pays tool r st log p)
  ]

  take_response-Pays :
      (st : LoopState) (a : Attempt LlmResponse) (log : Log)
      → over_budget floats input.cost_budget st.total_cost ≡ false
      → with_cost floats env st.total_cost a ≡ spent floats env st.current_iteration
      → Pays (take_response stringify floats env input ip st a log)
  unfolding take_response exceed_budget
  take_response-Pays st (throws e) log b s =
      reported _ _ _ (λ log'. bill st _ _ (record { summed = s; affordable = b }) refl)
  take_response-Pays st (returns r) log b s =
      if_rule {A = M Flow} (λ m. Pays (m log))
        (over_budget floats input.cost_budget (floats.add st.total_cost (floats.parse r.cost)))
        (λ c. reported _ _ _ (λ log'. record { summed = s; told = c; failed = inr refl }))
        (λ c. respond-Pays r.kind r _ log (record { summed = s; affordable = c }))

  spent_next :
      (n : ℕ) (c : ℕ)
      → c ≡ spent floats env n
      → with_cost floats env c (env.call_llm (n + 1)) ≡ spent floats env (n + 1)
  spent_next n c e = rw (add-one, e) refl

  iterate-Pays :
      (st : LoopState) (log : Log)
      → IsPaid floats env input st
      → Pays (iterate stringify floats env input ip st log)
  unfolding iterate cancel ask_model
  iterate-Pays st log p =
      let n = st.current_iteration in
      if_rule {A = M Flow} (λ m. Pays (m log)) (env.cancellation_requested n)
        (λ c. reported _ _ _ (λ log'. bill st _ _ p refl))
        (λ c. reported _ _ _ (λ log'.
          take_response-Pays (record st { current_iteration = n + 1 }) (env.call_llm (n + 1)) _
            p.affordable (spent_next n st.total_cost p.summed)))

  next :
      (left : ℕ) (x : Exec.Exec Flow)
      → ((st : LoopState) (log : Log)
          → IsPaid floats env input st
          → Pays (loop stringify floats env input ip left st log))
      → Pays x
      → Pays (elim x [
        | ok (go_on st') log' ↦ loop stringify floats env input ip left st' log'
        | ok (finished r) log' ↦ ok (finished r) log'
        | err e log' ↦ err e log'
      ])
  next left (ok (go_on st) log) rec p = rec st log p
  next left (ok (finished r) log) rec p = p
  next left (err e log) rec p = p

  pub loop-Pays :
      (left : ℕ) (st : LoopState) (log : Log)
      → IsPaid floats env input st
      → Pays (loop stringify floats env input ip left st log)
  unfolding loop
  loop-Pays zero st log p = p
  loop-Pays (suc left) st log p =
      next left (iterate stringify floats env input ip st log) (loop-Pays left)
        (iterate-Pays st log p)
