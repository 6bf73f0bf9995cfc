-- ===== src/Workflow/React/Limits/Passes.antt =====
-- A pass from the model's answer on keeps the limits.
use the_kubernetes_of_ai_age.Common.{
  ℕ, ◌≡◌, refl, ap, ◌∙◌, String, false, ◌||◌, ◌∷◌, str_eq, exists, length-append, arith, Bool-cases,
  Option-cases, inl, inr,
}
use the_kubernetes_of_ai_age.Common.Json.{Json}
use the_kubernetes_of_ai_age.Workflow.React.{
  Floats, LlmResponse, ToolResult, AgentExecutionInput, Attempt, returns, throws, Report, Status,
  Output, Activities, ResponseType, final_answer, tool_call,
}
use the_kubernetes_of_ai_age.Workflow.React.Exec.{Log, observe_rule}
use the_kubernetes_of_ai_age.Workflow.React.Loop.{
  LoopState, truthy, call_key, record_tool, abort_tool, settle_tool, call_new_tool, call_tool,
  finish, respond, includes, result_of,
}
use the_kubernetes_of_ai_age.Workflow.React.Limits.{
  llm_calls, executed, Agrees, IsLimited, IsResult, Pass,
}

module _ {stringify : Json → String} {spare : ℕ} {st : LoopState} {log : Log}
    (h : Agrees stringify spare st log) where
  -- The log may have grown by what is not counted.
  pub moved :
      (log' : Log)
      → llm_calls log' ≡ llm_calls log
      → executed stringify log' ≡ executed stringify log
      → Agrees stringify spare st log'
  moved log' e f = record {
    counted = e ∙ h.counted;
    recorded = h.recorded;
    seen = f ∙ h.seen;
    distinct = rw f h.distinct;
  }

  pub Agrees-IsLimited :
      (log' : Log)
      → llm_calls log' ≡ llm_calls log
      → executed stringify log' ≡ executed stringify log
      → IsLimited stringify st.current_iteration log'
  Agrees-IsLimited log' e f = record { few = omega arith; distinct = rw f h.distinct }

  pub Agrees-IsResult :
      (log' : Log) (status : Status) (output : Output)
      → llm_calls log' ≡ llm_calls log
      → executed stringify log' ≡ executed stringify log
      → IsResult stringify st.current_iteration (result_of status output st) log'
  Agrees-IsResult log' status output e f = record {
    counted = e ∙ h.counted;
    within = omega arith;
    recorded = omega arith;
    distinct = rw f h.distinct;
  }

module _ (stringify : Json → String) (floats : Floats) (env : Activities)
    (input : AgentExecutionInput) (ip : String) where
  record_tool-Pass :
      (tool : String) (r : LlmResponse) (st : LoopState) (done : ToolResult) (log : Log)
      → Agrees stringify 1 st log
      → Pass stringify st.current_iteration
          (record_tool stringify floats env input ip tool r st done log)
  unfolding record_tool
  record_tool-Pass tool r st done log h =
      observe_rule (Pass stringify st.current_iteration) env
        (Report.tool_finished st.current_iteration) _ _
        (
          record {
            counted = h.counted;
            recorded = omega (arith, h, length-append {0} st.tool_calls);
            seen = h.seen;
            distinct = h.distinct;
          },
          refl,
        )
        (λ m. Agrees-IsLimited h _ refl refl)

  abort_tool-Pass :
      (tool e : String) (st : LoopState) (log : Log)
      → Agrees stringify 1 st log
      → Pass stringify st.current_iteration (abort_tool stringify floats env input ip tool e st log)
  unfolding abort_tool
  abort_tool-Pass tool e st log h =
      observe_rule (Pass stringify st.current_iteration) env
        (Report.tool_failed st.current_iteration) _ _ (Agrees-IsResult h _ _ _ refl refl)
        (λ m. Agrees-IsLimited h _ refl refl)

  settle_tool-Pass :
      (tool : String) (r : LlmResponse) (st : LoopState) (a : Attempt ToolResult) (log : Log)
      → Agrees stringify 1 st log
      → Pass stringify st.current_iteration
          (settle_tool stringify floats env input ip tool r st a log)
  unfolding settle_tool
  settle_tool-Pass tool r st (returns done) log h = record_tool-Pass tool r st done log h
  settle_tool-Pass tool r st (throws e) log h =
      elim (Bool-cases (includes e "PII_VIOLATION" || includes e "POLICY_DENIED")) [
        | inl c ↦ rw (c, settle_tool) (abort_tool-Pass tool e st log h)
        | inr c ↦ rw (c, settle_tool) (record_tool-Pass tool r st _ log h)
      ]

  call_new_tool-Pass :
      (tool : String) (r : LlmResponse) (st : LoopState) (log : Log)
      → Agrees stringify 1 st log
      → exists
          (λ k. str_eq k (call_key stringify floats env input ip tool r.tool_args))
          st.seen_tool_calls
        ≡ false
      → Pass stringify st.current_iteration (
          call_new_tool stringify floats env input ip tool
            (call_key stringify floats env input ip tool r.tool_args)
            r
            st
            log)
  unfolding call_new_tool
  call_new_tool-Pass tool r st log h new =
      let key = call_key stringify floats env input ip tool r.tool_args in
      observe_rule (Pass stringify st.current_iteration) env
        (Report.tool_running st.current_iteration) _ _
        (settle_tool-Pass tool r _ (env.execute_tool st.current_iteration) _ (record {
          counted = h.counted;
          recorded = h.recorded;
          seen = ap (◌∷◌ key) h.seen;
          distinct = rw (h.seen, new) (rw h.seen at h.distinct);
        }))
        (λ m. Agrees-IsLimited h _ refl refl)

  call_tool-Pass :
      (tool : String) (r : LlmResponse) (st : LoopState) (log : Log)
      → Agrees stringify 1 st log
      → Pass stringify st.current_iteration (call_tool stringify floats env input ip tool r st log)
  unfolding call_tool
  call_tool-Pass tool r st log h =
      let key = call_key stringify floats env input ip tool r.tool_args in
      elim (Bool-cases (exists (λ k. str_eq k key) st.seen_tool_calls)) [
        | inl c ↦
            rw (c, call_tool)
              (
                record {
                  counted = h.counted;
                  recorded = omega arith;
                  seen = h.seen;
                  distinct = h.distinct;
                },
                refl,
              )
        | inr c ↦ rw (c, call_tool) (call_new_tool-Pass tool r st _ (moved h _ refl refl) c)
      ]

  finish-Pass :
      (r : LlmResponse) (st : LoopState) (log : Log)
      → Agrees stringify 1 st log
      → Pass stringify st.current_iteration (finish stringify floats env input ip r st log)
  unfolding finish
  finish-Pass r st log h =
      observe_rule (Pass stringify st.current_iteration) env
        (Report.loop_completed st.current_iteration) _ _
        (record {
          counted = h.counted;
          within = omega arith;
          recorded = omega arith;
          distinct = h.distinct;
        })
        (λ m. Agrees-IsLimited h _ refl refl)

  pub respond-Pass :
      (kind : ResponseType) (r : LlmResponse) (st : LoopState) (log : Log)
      → Agrees stringify 1 st log
      → Pass stringify st.current_iteration (respond stringify floats env input ip kind r st log)
  unfolding respond
  respond-Pass final_answer r st log h = finish-Pass r st log h
  respond-Pass tool_call r st log h = elim (Option-cases (truthy r.tool_name)) [
    | inl e ↦
        rw (e, respond)
          (
            record {
              counted = h.counted;
              recorded = omega arith;
              seen = h.seen;
              distinct = h.distinct;
            },
            refl,
          )
    | inr (tool, e) ↦ rw (e, respond) (call_tool-Pass tool r st log h)
  ]
