-- ===== src/Workflow/React/Limits/Rounds.antt =====
-- The passes of the loop together.
use the_kubernetes_of_ai_age.Common.{
  ℕ, zero, suc, ◌+◌, ◌≤◌, ◌≡◌, refl, String, arith, Bool-cases, inl, inr,
}
use the_kubernetes_of_ai_age.Common.Json.{Json}
use the_kubernetes_of_ai_age.Workflow.React.{
  Floats, LlmResponse, AgentResult, AgentExecutionInput, Attempt, returns, throws, Report,
  Activities,
}
use the_kubernetes_of_ai_age.Workflow.React.Exec
use the_kubernetes_of_ai_age.Workflow.React.Exec.{
  Action, Log, ok, err, called_llm, executed_tool, observe, observe_rule,
}
use the_kubernetes_of_ai_age.Workflow.React.Loop.{
  LoopState, Flow, go_on, finished, over_budget, exceed_budget, take_response, cancel, ask_model,
  iterate, loop,
}
use the_kubernetes_of_ai_age.Workflow.React.Limits.{Agrees, IsResult, Pass}
use the_kubernetes_of_ai_age.Workflow.React.Limits.Passes.{
  Agrees-IsLimited, Agrees-IsResult, respond-Pass,
}

module _ (stringify : Json → String) (floats : Floats) (env : Activities)
    (input : AgentExecutionInput) (ip : String) where
  exceed_budget-Pass :
      (st : LoopState) (log : Log)
      → Agrees stringify 1 st log
      → Pass stringify st.current_iteration (exceed_budget stringify floats env input ip st log)
  unfolding exceed_budget
  exceed_budget-Pass st log h =
      observe_rule (Pass stringify st.current_iteration) env
        (Report.budget_exceeded st.current_iteration) _ _ (Agrees-IsResult h _ _ _ refl refl)
        (λ m. Agrees-IsLimited h _ refl refl)

  take_response-Pass :
      (st : LoopState) (a : Attempt LlmResponse) (log : Log)
      → Agrees stringify 1 st log
      → Pass stringify st.current_iteration (take_response stringify floats env input ip st a log)
  unfolding take_response
  take_response-Pass st (throws e) log h =
      observe_rule (Pass stringify st.current_iteration) env
        (Report.llm_failed st.current_iteration) _ _ (Agrees-IsResult h _ _ _ refl refl)
        (λ m. Agrees-IsLimited h _ refl refl)
  take_response-Pass st (returns r) log h =
      let paid = floats.add st.total_cost (floats.parse r.cost) in
      let h' : Agrees stringify 1 (record st { total_cost = paid }) log = record {
        counted = h.counted;
        recorded = h.recorded;
        seen = h.seen;
        distinct = h.distinct;
      } in
      elim (Bool-cases (over_budget floats input.cost_budget paid)) [
        | inl c ↦ rw (c, take_response) (exceed_budget-Pass _ log h')
        | inr c ↦
            rw (c, take_response)
              (respond-Pass stringify floats env input ip r.kind r _ log (record {
                counted = h.counted;
                recorded = h.recorded;
                seen = h.seen;
                distinct = h.distinct;
              }))
      ]

  ask_model-Pass :
      (n : ℕ) (st : LoopState) (log : Log)
      → Agrees stringify 0 st log
      → n ≡ suc st.current_iteration
      → Pass stringify n (ask_model stringify floats env input ip n st log)
  unfolding ask_model
  ask_model-Pass n st log h e =
      observe_rule (Pass stringify n) env (Report.llm_running n) _ _
        (take_response-Pass (record st { current_iteration = n }) (env.call_llm n) _
          (record {
            counted = omega (arith, h.counted);
            recorded = omega (arith, h.recorded);
            seen = h.seen;
            distinct = h.distinct;
          }))
        (λ m. record { few = omega (arith, h.counted); distinct = h.distinct })

  widen :
      (n m : ℕ) (r : AgentResult) (log : Log)
      → n ≤ m
      → IsResult stringify n r log
      → IsResult stringify m r log
  widen n m r log le h = record {
    counted = h.counted;
    within = omega (arith, h.within);
    recorded = h.recorded;
    distinct = h.distinct;
  }

  iterate-Pass :
      (st : LoopState) (log : Log)
      → Agrees stringify 0 st log
      → Pass stringify (st.current_iteration + 1) (iterate stringify floats env input ip st log)
  unfolding iterate cancel
  iterate-Pass st log h = elim (Bool-cases (env.cancellation_requested st.current_iteration)) [
    | inl c ↦
        rw (c, iterate)
          (observe_rule (Pass stringify (st.current_iteration + 1)) env
            (Report.loop_cancelled st.current_iteration) _ _
            (widen _ _ _ _ (omega arith) (Agrees-IsResult h _ _ _ refl refl))
            (λ m. record { few = omega (arith, h.counted); distinct = h.distinct }))
    | inr c ↦ rw (c, iterate) (ask_model-Pass (st.current_iteration + 1) st log h (omega arith))
  ]

  next :
      (n most left : ℕ) (x : Exec.Exec Flow)
      → n ≤ most
      → ((st : LoopState) (log : Log)
          → Agrees stringify 0 st log
          → st.current_iteration ≡ n
          → Pass stringify most (loop stringify floats env input ip left st log))
      → Pass stringify n x
      → Pass stringify most (elim x [
        | ok (go_on st') log' ↦ loop stringify floats env input ip left st' log'
        | ok (finished r) log' ↦ ok (finished r) log'
        | err e log' ↦ err e log'
      ])
  next n most left (ok (go_on st) log) le rec p = rec st log p.0 p.1
  next n most left (ok (finished r) log) le rec p = widen n most r log le p
  next n most left (err e log) le rec p = record {
    few = omega (arith, p.few);
    distinct = p.distinct;
  }

  -- From a state that agrees with the log, so many passes keep the limits.
  pub loop-Pass :
      (left most : ℕ) (st : LoopState) (log : Log)
      → Agrees stringify 0 st log
      → st.current_iteration + left ≡ most
      → Pass stringify most (loop stringify floats env input ip left st log)
  unfolding loop
  loop-Pass zero most st log h e = (h, omega arith)
  loop-Pass (suc left) most st log h e =
      next (st.current_iteration + 1) most left (iterate stringify floats env input ip st log)
        (omega arith) (λ st' log' h' e'. loop-Pass left most st' log' h' (omega arith))
        (iterate-Pass st log h)
