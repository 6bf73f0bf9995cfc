-- ===== src/Workflow/React/Sandbox/Frame.antt =====
-- What holds of the log and survives each action of the loop holds after the loop.
use the_kubernetes_of_ai_age.Common.{
  ℕ, zero, suc, ◌+◌, ◌≡◌, refl, String, true, ◌||◌, ◌∷◌, exists, str_eq, Bool-cases, Option-cases,
  inl, inr,
}
use the_kubernetes_of_ai_age.Common.Json.{Json}
use the_kubernetes_of_ai_age.Workflow.React.{
  Floats, LlmResponse, ToolResult, AgentExecutionInput, Attempt, returns, throws, Report,
  Activities, ResponseType, final_answer, tool_call,
}
use the_kubernetes_of_ai_age.Workflow.React.Exec
use the_kubernetes_of_ai_age.Workflow.React.Exec.{Action, Log, ok, err, log_of, observe_rule}
use the_kubernetes_of_ai_age.Workflow.React.Loop.{
  LoopState, Flow, go_on, finished, truthy, over_budget, call_key, includes, args_or_empty,
  tools_or_default, record_tool, abort_tool, settle_tool, call_new_tool, call_tool, finish, respond,
  exceed_budget, take_response, cancel, ask_model, iterate, loop,
}
use the_kubernetes_of_ai_age.Workflow.React.Sandbox.{is_loop_action}

module _ (P : Log → Type 0)
    (keeps : (a : Action) (log : Log) → is_loop_action a ≡ true → P log → P (a ∷ log))
    (stringify : Json → String) (floats : Floats) (env : Activities) (input : AgentExecutionInput)
    (ip : String) where
  abbrev Kept : Exec.Exec Flow → Type 0
  Kept x = P (log_of x)

  -- A report, after which `f` keeps the property.
  reported :
      (r : Report) (f : Unit {0} → Exec.M Flow) (log : Log)
      → P log
      → ((log' : Log) → P log' → Kept (f tt log'))
      → Kept (Exec.◌>>=◌ (Exec.observe env r) f log)
  reported r f log p rest =
      let q = keeps (Exec.observed r) log refl p in
      observe_rule Kept env r f log (rest _ q) (λ m. q)

  record_tool-Kept :
      (tool : String) (r : LlmResponse) (st : LoopState) (done : ToolResult) (log : Log)
      → P log
      → Kept (record_tool stringify floats env input ip tool r st done log)
  unfolding record_tool
  record_tool-Kept tool r st done log p = reported _ _ _ (keeps _ _ refl p) (λ log' q. q)

  abort_tool-Kept :
      (tool e : String) (st : LoopState) (log : Log)
      → P log
      → Kept (abort_tool stringify floats env input ip tool e st log)
  unfolding abort_tool
  abort_tool-Kept tool e st log p = reported _ _ _ (keeps _ _ refl p) (λ log' q. q)

  settle_tool-Kept :
      (tool : String) (r : LlmResponse) (st : LoopState) (a : Attempt ToolResult) (log : Log)
      → P log
      → Kept (settle_tool stringify floats env input ip tool r st a log)
  unfolding settle_tool
  settle_tool-Kept tool r st (returns done) log p = record_tool-Kept tool r st done log p
  settle_tool-Kept tool r st (throws e) log p =
      elim (Bool-cases (includes e "PII_VIOLATION" || includes e "POLICY_DENIED")) [
        | inl c ↦ rw (c, settle_tool) (abort_tool-Kept tool e st log p)
        | inr c ↦ rw (c, settle_tool) (record_tool-Kept tool r st _ log p)
      ]

  call_tool-Kept :
      (tool : String) (r : LlmResponse) (st : LoopState) (log : Log)
      → P log
      → Kept (call_tool stringify floats env input ip tool r st log)
  unfolding call_tool call_new_tool
  call_tool-Kept tool r st log p =
      let key = call_key stringify floats env input ip tool r.tool_args in
      let q = keeps (Exec.last_action (Exec.called_tool tool)) log refl p in
      elim (Bool-cases (exists (λ k. str_eq k key) st.seen_tool_calls)) [
        | inl c ↦ rw (c, call_tool) q
        | inr c ↦
            rw (c, call_tool)
              (reported _ _ _ q (λ log' q'.
                settle_tool-Kept tool r (record st { seen_tool_calls = key ∷ st.seen_tool_calls })
                  (env.execute_tool st.current_iteration) _
                  (keeps
                    (Exec.executed_tool st.current_iteration tool (args_or_empty r.tool_args) ip)
                    log' refl q')))
      ]

  respond-Kept :
      (kind : ResponseType) (r : LlmResponse) (st : LoopState) (log : Log)
      → P log
      → Kept (respond stringify floats env input ip kind r st log)
  unfolding respond finish
  respond-Kept final_answer r st log p =
      reported _ _ _ (keeps _ _ refl (keeps _ _ refl p)) (λ log' q. q)
  respond-Kept tool_call r st log p = elim (Option-cases (truthy r.tool_name)) [
    | inl e ↦ rw (e, respond) p
    | inr (tool, e) ↦ rw (e, respond) (call_tool-Kept tool r st log p)
  ]

  take_response-Kept :
      (st : LoopState) (a : Attempt LlmResponse) (log : Log)
      → P log
      → Kept (take_response stringify floats env input ip st a log)
  unfolding take_response exceed_budget
  take_response-Kept st (throws e) log p = reported _ _ _ (keeps _ _ refl p) (λ log' q. q)
  take_response-Kept st (returns r) log p =
      elim (Bool-cases
        (over_budget floats input.cost_budget (floats.add st.total_cost (floats.parse r.cost)))) [
          | inl c ↦ rw (c, take_response) (reported _ _ _ (keeps _ _ refl p) (λ log' q. q))
          | inr c ↦ rw (c, take_response) (respond-Kept r.kind r _ log p)
        ]

  iterate-Kept :
      (st : LoopState) (log : Log) → P log → Kept (iterate stringify floats env input ip st log)
  unfolding iterate cancel ask_model
  iterate-Kept st log p = elim (Bool-cases (env.cancellation_requested st.current_iteration)) [
    | inl c ↦ rw (c, iterate) (reported _ _ _ (keeps _ _ refl p) (λ log' q. q))
    | inr c ↦
        rw (c, iterate)
          (reported _ _ _ (keeps _ _ refl p) (λ log' q.
            take_response-Kept (record st { current_iteration = st.current_iteration + 1 })
              (env.call_llm (st.current_iteration + 1)) _
              (keeps
                (Exec.called_llm (st.current_iteration + 1) st.messages
                  (tools_or_default input.tools))
                log' refl q)))
  ]

  next :
      (left : ℕ) (x : Exec.Exec Flow)
      → ((st : LoopState) (log : Log)
          → P log
          → Kept (loop stringify floats env input ip left st log))
      → Kept x
      → Kept (elim x [
        | ok (go_on st') log' ↦ loop stringify floats env input ip left st' log'
        | ok (finished r) log' ↦ ok (finished r) log'
        | err e log' ↦ err e log'
      ])
  next left (ok (go_on st) log) rec p = rec st log p
  next left (ok (finished r) log) rec p = p
  next left (err e log) rec p = p

  pub loop-Kept :
      (left : ℕ) (st : LoopState) (log : Log)
      → P log
      → P (log_of (loop stringify floats env input ip left st log))
  unfolding loop
  loop-Kept zero st log p = p
  loop-Kept (suc left) st log p =
      next left (iterate stringify floats env input ip st log) (loop-Kept left)
        (iterate-Kept st log p)
