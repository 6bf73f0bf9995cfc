-- ===== src/Workflow/React/Costs/Totals.antt =====
-- What the result of a whole run says of its cost.
use the_kubernetes_of_ai_age.Common.{
  ℕ, ◌≡◌, ◌≢◌, ◌⊎◌, inl, inr, Bool-cases, refl, sym, ◌∙◌, if_rule, String, Bool, true, false,
  Option, none, some, [], ◌∷◌, str_eq,
}
use the_kubernetes_of_ai_age.Common.Json.{Json}
use the_kubernetes_of_ai_age.Workflow.React.{
  Floats, AgentResult, AgentExecutionInput, Attempt, returns, throws, Report, Status, Output,
  Activities, SandboxInfo, PolicyVerdict, stopped_after,
}
use the_kubernetes_of_ai_age.Workflow.React.Exec
use the_kubernetes_of_ai_age.Workflow.React.Exec.{
  Log, ok, err, observe, observe_rule, ask_rule, ◌>>=◌, ◌>>◌,
}
use the_kubernetes_of_ai_age.Workflow.React.Loop.{
  Flow, go_on, finished, loop, initial_state, over_budget,
}
use the_kubernetes_of_ai_age.Workflow.React.Run.{
  ip_or_empty, text_or, finally, max_iterations, exhaust, conclude, work, catch, or_catch,
  in_sandbox, execute, refusal, judge, evaluate, admitted, react_workflow,
}
use the_kubernetes_of_ai_age.Workflow.React.Costs.{
  exceeds, spent, IsPaid, IsBilled, Pays, loop-Pays,
}

-- Of two numbers at most one is greater than the other.
abbrev pub IsAsymmetric : Floats → Type 0
IsAsymmetric floats = (a b : ℕ) → floats.greater a b ≡ true → floats.greater b a ≡ false

none_spent :
    (floats : Floats) (budget : Option ℕ)
    → IsAsymmetric floats
    → over_budget floats budget 0 ≡ false
none_spent floats none asym = refl
none_spent floats (some b) asym = elim (Bool-cases (floats.greater b 0)) [
  | inl e ↦ rw (e, asym b 0 e) refl
  | inr e ↦ rw e refl
]

within :
    (floats : Floats) (budget cost : ℕ)
    → over_budget floats (some budget) cost ≡ false
    → floats.greater budget 0 ≡ true
    → floats.greater cost budget ≡ false
within floats budget cost e pos = rw pos at e

abbrev asked : Log → Log
asked log =
    Exec.asked_sandbox
    ∷ Exec.observed Report.sandbox_running
    ∷ Exec.last_action Exec.create_sandbox
    ∷ log

-- A result of no iterations.
record IsRefusal (r : AgentResult) : Type 0 where
  refused : r.status ≡ Status.error
  other : exceeds r.output ≡ false

module _ (stringify : Json → String) (floats : Floats) (asym : IsAsymmetric floats)
    (env : Activities) (input : AgentExecutionInput) where
  abbrev Bill : AgentResult → Type 0
  Bill r = IsBilled floats env input r ⊎ IsRefusal r

  abbrev Ends : Exec.Exec AgentResult → Type 0
  Ends (ok r log) = Bill r
  Ends (err e log) = Unit

  refuses :
      (r : Report) (output : Output) (log : Log)
      → exceeds output ≡ false
      → Ends ((observe env r >> Exec.return (refusal output)) log)
  refuses r output log e =
      observe_rule Ends env r _ _ (inr (record { refused = refl; other = e })) (λ m. tt)

  conclude-Ends :
      (x : Exec.Exec Flow)
      → Pays stringify floats env input "" x
      → Ends (elim x [
        | ok flow log ↦ conclude stringify floats env input flow log
        | err e log ↦ err e log
      ])
  unfolding conclude exhaust
  conclude-Ends (ok (go_on st) log) p =
      let quiet : exceeds
            (text_or st.output (stopped_after (max_iterations stringify floats env input)))
          ≡ false =
        if_rule (λ o. exceeds o ≡ false) (str_eq st.output "") (λ e. refl) (λ e. refl) in
      observe_rule Ends env Report.iterations_exhausted _ _
        (inl (record { summed = p.summed; told = p.affordable ∙ sym quiet; failed = inl quiet }))
        (λ m. tt)
  conclude-Ends (ok (finished r) log) p = inl p
  conclude-Ends (err e log) p = tt

  initial-IsPaid : IsPaid floats env input (initial_state input)
  unfolding initial_state
  initial-IsPaid = record { summed = refl; affordable = none_spent floats input.cost_budget asym }

  work-Ends :
      (sandbox : SandboxInfo) (log : Log) → Ends (work stringify floats env input sandbox log)
  unfolding work
  work-Ends sandbox log =
      let ip = ip_or_empty sandbox.ip_address in
      let most = max_iterations stringify floats env input in
      let start : Log = Exec.observed Report.sandbox_completed ∷ log in
      let x = loop stringify floats env input ip most (initial_state input) start in
      observe_rule Ends env Report.sandbox_completed _ log
        (conclude-Ends x
          (loop-Pays stringify floats env input ip most (initial_state input) start initial-IsPaid))
        (λ m. tt)

  caught : (x : Exec.Exec AgentResult) → Ends x → Ends (or_catch stringify floats env input x)
  unfolding or_catch catch
  caught (ok r log) h = h
  caught (err e log) h = refuses Report.sandbox_failed _ log refl

  finished_up : (id : String) (x : Exec.Exec AgentResult) → Ends x → Ends (finally id x)
  unfolding finally
  finished_up id (ok r log) h = h
  finished_up id (err e log) h = tt

  in_sandbox-Ends :
      (a : Attempt SandboxInfo) (log : Log) → Ends (in_sandbox stringify floats env input a log)
  unfolding in_sandbox catch
  in_sandbox-Ends (returns sandbox) log =
      let x = work stringify floats env input sandbox log in
      finished_up sandbox.id (or_catch stringify floats env input x)
        (caught x (work-Ends sandbox log))
  in_sandbox-Ends (throws e) log = refuses Report.sandbox_failed _ log refl

  report-Ends :
      (x : Exec.Exec AgentResult)
      → Ends x
      → Ends (elim x [ ok r log ↦ ok r (Exec.reported_outcome r ∷ log) | err e log ↦ err e log ])
  report-Ends (ok r log) h = h
  report-Ends (err e log) h = tt

  judge-Ends :
      (verdict : PolicyVerdict) (log : Log) → Ends (judge stringify floats env input verdict log)
  unfolding judge execute
  judge-Ends verdict log =
      if_rule {A = Exec.M AgentResult} (λ m. Ends (m log)) verdict.allow
        (λ e.
          observe_rule Ends env Report.sandbox_running _ _
            (report-Ends (in_sandbox stringify floats env input env.create_sandbox (asked log))
              (in_sandbox-Ends env.create_sandbox (asked log)))
            (λ m. tt))
        (λ e. refuses Report.policy_denial _ log refl)

  admitted-Ends : (a : Attempt Bool) (log : Log) → Ends (admitted stringify floats env input a log)
  unfolding admitted evaluate
  admitted-Ends (returns true) log =
      observe_rule Ends env Report.policy_running _ _
        (ask_rule Ends Exec.asked_policy env.evaluate_policy _ _ (λ verdict e. judge-Ends verdict _)
          (λ e. tt))
        (λ m. tt)
  admitted-Ends (returns false) log = refuses Report.admission_denied _ log refl
  admitted-Ends (throws e) log = refuses Report.admission_failed _ log refl

  react_workflow-Ends : Ends (react_workflow stringify floats env input [])
  unfolding react_workflow
  react_workflow-Ends =
      observe_rule Ends env Report.workflow_started _ _
        (observe_rule Ends env Report.admission_running _ _ (admitted-Ends env.admit_agent _)
          (λ m. tt))
        (λ m. tt)

  billed :
      {r : AgentResult} {log : Log}
      → react_workflow stringify floats env input [] ≡ ok r log
      → Bill r
  billed e = rw e at react_workflow-Ends

-- When a run gives a result that is no error, its cost is the floating point sum of what the model's
-- answers cost, added up in order from the first to the one of the last iteration, none twice and none
-- left out, where of two numbers at most one is greater than the other.
pub react_workflow-total_cost :
    (stringify : Json → String) (floats : Floats) (env : Activities) (input : AgentExecutionInput)
    {r : AgentResult} {log : Log}
    → IsAsymmetric floats
    → react_workflow stringify floats env input [] ≡ ok r log
    → r.status ≢ Status.error
    → r.total_cost ≡ spent floats env r.iterations
react_workflow-total_cost stringify floats env input asym e fine =
    elim (billed stringify floats asym env input e) [
      | inl bill ↦ bill.summed
      | inr refusal ↦ absurd (fine refusal.refused)
    ]

-- When a run with a budget greater than zero gives a result that is no error, then its cost, which is the
-- floating point sum of what the model's answers cost, is not greater than the budget, where of two
-- numbers at most one is greater than the other. That is no bound for a cost that is not a number.
pub react_workflow-cost-le :
    (stringify : Json → String) (floats : Floats) (env : Activities) (input : AgentExecutionInput)
    {r : AgentResult} {log : Log} (budget : ℕ)
    → IsAsymmetric floats
    → react_workflow stringify floats env input [] ≡ ok r log
    → r.status ≢ Status.error
    → input.cost_budget ≡ some budget
    → floats.greater budget 0 ≡ true
    → (r.total_cost ≡ spent floats env r.iterations) × (floats.greater r.total_cost budget ≡ false)
react_workflow-cost-le stringify floats env input {r} budget asym e fine b pos =
    elim (billed stringify floats asym env input e) [
      | inl bill ↦ elim bill.failed [
        | inl quiet ↦
            (bill.summed, within floats budget r.total_cost (rw b at (bill.told ∙ quiet)) pos)
        | inr failed ↦ absurd (fine failed)
      ]
      | inr refusal ↦ absurd (fine refusal.refused)
    ]
