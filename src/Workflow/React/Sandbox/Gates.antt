-- ===== src/Workflow/React/Sandbox/Gates.antt =====
-- Nothing is done for an agent that is not admitted and allowed.
use the_kubernetes_of_ai_age.Common.{◌<◌, ◌≡◌, refl, if_rule, String, Bool, true, false, [], arith}
use the_kubernetes_of_ai_age.Common.Json.{Json}
use the_kubernetes_of_ai_age.Workflow.React.{
  Floats, AgentResult, AgentExecutionInput, Attempt, returns, throws, Report, Output, Activities,
  PolicyVerdict,
}
use the_kubernetes_of_ai_age.Workflow.React.Exec
use the_kubernetes_of_ai_age.Workflow.React.Exec.{
  Log, observe, observe_rule, ask_rule, ◌>>=◌, ◌>>◌, log_of,
}
use the_kubernetes_of_ai_age.Workflow.React.Run.{refusal, judge, evaluate, admitted, react_workflow}
use the_kubernetes_of_ai_age.Workflow.React.Sandbox.{effects}

-- Both gates are open.
pub record IsCleared (env : Activities) : Type 0 where
  pub admission : env.admit_agent ≡ returns true
  pub verdict : PolicyVerdict
  pub evaluated : env.evaluate_policy ≡ returns verdict
  pub allowed : verdict.allow ≡ true

module _ (stringify : Json → String) (floats : Floats) (env : Activities)
    (input : AgentExecutionInput) where
  abbrev NeedsClearance : Exec.Exec AgentResult → Type 0
  NeedsClearance x = 0 < effects (log_of x) → IsCleared env

  refused :
      (r : Report) (output : Output) (log : Log)
      → effects log ≡ 0
      → NeedsClearance ((observe env r >> Exec.return (refusal output)) log)
  refused r output log e =
      observe_rule NeedsClearance env r _ _ (λ s. absurd (omega arith))
        (λ m s. absurd (omega arith))

  judged :
      (verdict : PolicyVerdict) (log : Log)
      → env.admit_agent ≡ returns true
      → env.evaluate_policy ≡ returns verdict
      → effects log ≡ 0
      → NeedsClearance (judge stringify floats env input verdict log)
  unfolding judge
  judged verdict log admission evaluated e =
      if_rule {A = Exec.M AgentResult} (λ m. NeedsClearance (m log)) verdict.allow
        (λ yes_allowed some_effect. record {
          admission = admission;
          verdict = verdict;
          evaluated = evaluated;
          allowed = yes_allowed;
        })
        (λ denied. refused Report.policy_denial _ log e)

  admitted_first :
      (a : Attempt Bool) (log : Log)
      → env.admit_agent ≡ a
      → effects log ≡ 0
      → NeedsClearance (admitted stringify floats env input a log)
  unfolding admitted evaluate
  admitted_first (returns true) log admission e =
      observe_rule NeedsClearance env Report.policy_running _ _
        (ask_rule NeedsClearance Exec.asked_policy env.evaluate_policy _ _
          (λ verdict evaluated. judged verdict _ admission evaluated e)
          (λ m s. absurd (omega arith)))
        (λ m s. absurd (omega arith))
  admitted_first (returns false) log admission e = refused Report.admission_denied _ log e
  admitted_first (throws m) log admission e = refused Report.admission_failed _ log e

-- A run that asks for a sandbox, calls the model or carries out a tool call is one where `admitAgent`
-- answered true and `evaluatePolicy` gave a verdict that allows.
pub effects-need_clearance :
    (stringify : Json → String) (floats : Floats) (env : Activities) (input : AgentExecutionInput)
    → 0 < effects (log_of (react_workflow stringify floats env input []))
    → IsCleared env
unfolding react_workflow
effects-need_clearance stringify floats env input =
    let needs = NeedsClearance stringify floats env input in
    observe_rule needs env Report.workflow_started _ _
      (observe_rule needs env Report.admission_running _ _
        (admitted_first stringify floats env input env.admit_agent _ refl refl)
        (λ m s. absurd (omega arith)))
      (λ m s. absurd (omega arith))
