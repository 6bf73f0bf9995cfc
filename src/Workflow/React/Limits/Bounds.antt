-- ===== src/Workflow/React/Limits/Bounds.antt =====
-- The limits of the whole workflow, in every run: its result, its exceptions and its log.
use the_kubernetes_of_ai_age.Common.{
  ℕ, ◌≤◌, ◌≡◌, refl, String, Bool, true, false, Option, none, some, [], ◌∷◌, length, arith,
  Bool-cases, inl, inr, str_eq,
}
use the_kubernetes_of_ai_age.Common.Json.{Json}
use the_kubernetes_of_ai_age.Workflow.React.{
  Floats, AgentResult, AgentExecutionInput, Attempt, returns, throws, Report, Status, Output,
  Activities, SandboxInfo, PolicyVerdict,
}
use the_kubernetes_of_ai_age.Workflow.React.Exec
use the_kubernetes_of_ai_age.Workflow.React.Exec.{
  Log, ok, err, observe, observe_rule, ask_rule, ◌>>=◌, ◌>>◌, log_of,
}
use the_kubernetes_of_ai_age.Workflow.React.Loop.{
  Flow, go_on, finished, initial_state, max_iterations_or_default,
}
use the_kubernetes_of_ai_age.Workflow.React.Run.{
  ip_or_empty, terminate, finally, exhaust, conclude, work, catch, or_catch, in_sandbox, execute,
  refusal, judge, evaluate, admitted, react_workflow,
}
use the_kubernetes_of_ai_age.Workflow.React.Limits.{
  llm_calls, executed, all_new, Agrees, IsLimited, Pass,
}
use the_kubernetes_of_ai_age.Workflow.React.Limits.Rounds.{loop-Pass}

-- How a run may end.
abbrev Ends : (Json → String) → ℕ → Exec.Exec AgentResult → Type 0
Ends stringify n (ok r log) =
    IsLimited stringify n log × (r.iterations ≤ n) × (length r.tool_calls ≤ r.iterations)
Ends stringify n (err e log) = IsLimited stringify n log

-- Before the loop nothing was called.
abbrev IsUnused : (Json → String) → Log → Type 0
IsUnused stringify log = (llm_calls log ≡ 0) × (executed stringify log ≡ [])

IsUnused-IsLimited :
    (stringify : Json → String) (n : ℕ) (log : Log)
    → IsUnused stringify log
    → IsLimited stringify n log
IsUnused-IsLimited stringify n log (u, v) = record { few = omega arith; distinct = rw v }

terminate-IsLimited :
    (stringify : Json → String) (n : ℕ) (id : String) (status : Option Status) (log : Log)
    → IsLimited stringify n log
    → IsLimited stringify n (terminate id status log)
unfolding terminate
terminate-IsLimited stringify n id status log h = elim (Bool-cases (str_eq id "")) [
  | inl e ↦ rw (e, terminate) h
  | inr e ↦ rw (e, terminate) (record { few = h.few; distinct = h.distinct })
]

finally-Ends :
    (stringify : Json → String) (n : ℕ) (id : String) (x : Exec.Exec AgentResult)
    → Ends stringify n x
    → Ends stringify n (finally id x)
unfolding finally
finally-Ends stringify n id (ok r log) h =
    (terminate-IsLimited stringify n id (some r.status) log h.0, h.1, h.2)
finally-Ends stringify n id (err e log) h = terminate-IsLimited stringify n id none log h

module _ (stringify : Json → String) (floats : Floats) (env : Activities)
    (input : AgentExecutionInput) where
  abbrev most : ℕ
  most = max_iterations_or_default input.max_iterations

  conclude-Ends :
      (x : Exec.Exec Flow)
      → Pass stringify most x
      → Ends stringify most (elim x [
        | ok flow log ↦ conclude stringify floats env input flow log
        | err e log ↦ err e log
      ])
  unfolding conclude exhaust
  conclude-Ends (ok (go_on st) log) (h, e) =
      observe_rule (Ends stringify most) env Report.iterations_exhausted _ _
        (
          record { few = omega (arith, h.counted); distinct = h.distinct },
          omega arith,
          omega (arith, h.recorded),
        )
        (λ m. record { few = omega (arith, h.counted); distinct = h.distinct })
  conclude-Ends (ok (finished r) log) h = (
    record { few = omega (arith, h.counted, h.within); distinct = h.distinct },
    h.within,
    h.recorded,
  )
  conclude-Ends (err e log) h = h

  initial-Agrees :
      (log : Log) → IsUnused stringify log → Agrees stringify 0 (initial_state input) log
  unfolding initial_state
  initial-Agrees log u = record {
    counted = u.0;
    recorded = omega arith;
    seen = u.1;
    distinct = rw u.1;
  }

  work-Ends :
      (sandbox : SandboxInfo) (log : Log)
      → IsUnused stringify log
      → Ends stringify most (work stringify floats env input sandbox log)
  unfolding work
  work-Ends sandbox log u =
      observe_rule (Ends stringify most) env Report.sandbox_completed _ _
        (conclude-Ends _ (
          loop-Pass stringify floats env input (ip_or_empty sandbox.ip_address) most most
            (initial_state input) _ (initial-Agrees _ u) (unfold initial_state in omega arith)))
        (λ m. IsUnused-IsLimited stringify most _ u)

  catch-Ends :
      (e : String) (log : Log)
      → IsLimited stringify most log
      → Ends stringify most (catch stringify floats env input e log)
  unfolding catch
  catch-Ends e log h =
      observe_rule (Ends stringify most) env Report.sandbox_failed _ _
        (record { few = h.few; distinct = h.distinct }, omega arith, omega arith)
        (λ m. record { few = h.few; distinct = h.distinct })

  or_catch-Ends :
      (x : Exec.Exec AgentResult)
      → Ends stringify most x
      → Ends stringify most (or_catch stringify floats env input x)
  unfolding or_catch
  or_catch-Ends (ok r log) h = h
  or_catch-Ends (err e log) h = catch-Ends e log h

  in_sandbox-Ends :
      (a : Attempt SandboxInfo) (log : Log)
      → IsUnused stringify log
      → Ends stringify most (in_sandbox stringify floats env input a log)
  unfolding in_sandbox
  in_sandbox-Ends (returns sandbox) log u =
      finally-Ends stringify most sandbox.id _ (or_catch-Ends _ (work-Ends sandbox log u))
  in_sandbox-Ends (throws e) log u = catch-Ends e log (IsUnused-IsLimited stringify most log u)

  report-Ends :
      (x : Exec.Exec AgentResult)
      → Ends stringify most x
      → Ends stringify most
          (elim x [ ok r log ↦ ok r (Exec.reported_outcome r ∷ log) | err e log ↦ err e log ])
  report-Ends (ok r log) h = (record { few = h.0.few; distinct = h.0.distinct }, h.1, h.2)
  report-Ends (err e log) h = h

  execute-Ends :
      (log : Log)
      → IsUnused stringify log
      → Ends stringify most (execute stringify floats env input log)
  unfolding execute
  execute-Ends log u =
      observe_rule (Ends stringify most) env Report.sandbox_running _ _
        (report-Ends _ (in_sandbox-Ends env.create_sandbox _ u))
        (λ m. IsUnused-IsLimited stringify most _ u)

  refused-Ends :
      (r : Report) (output : Output) (log : Log)
      → IsUnused stringify log
      → Ends stringify most ((observe env r >> Exec.return (refusal output)) log)
  refused-Ends r output log u =
      observe_rule (Ends stringify most) env r _ _
        (IsUnused-IsLimited stringify most _ u, omega arith, omega arith)
        (λ m. IsUnused-IsLimited stringify most _ u)

  judge-Ends :
      (verdict : PolicyVerdict) (log : Log)
      → IsUnused stringify log
      → Ends stringify most (judge stringify floats env input verdict log)
  unfolding judge
  judge-Ends verdict log u = elim (Bool-cases verdict.allow) [
    | inl e ↦ rw (e, judge) (execute-Ends log u)
    | inr e ↦ rw (e, judge) (refused-Ends Report.policy_denial _ log u)
  ]

  evaluate-Ends :
      (log : Log)
      → IsUnused stringify log
      → Ends stringify most (evaluate stringify floats env input log)
  unfolding evaluate
  evaluate-Ends log u =
      observe_rule (Ends stringify most) env Report.policy_running _ _
        (ask_rule (Ends stringify most) Exec.asked_policy env.evaluate_policy _ _
          (λ verdict e. judge-Ends verdict _ u) (λ e. IsUnused-IsLimited stringify most _ u))
        (λ m. IsUnused-IsLimited stringify most _ u)

  admitted-Ends :
      (a : Attempt Bool) (log : Log)
      → IsUnused stringify log
      → Ends stringify most (admitted stringify floats env input a log)
  unfolding admitted
  admitted-Ends (returns true) log u = evaluate-Ends log u
  admitted-Ends (returns false) log u = refused-Ends Report.admission_denied _ log u
  admitted-Ends (throws e) log u = refused-Ends Report.admission_failed _ log u

  react_workflow-Ends : Ends stringify most (react_workflow stringify floats env input [])
  unfolding react_workflow
  react_workflow-Ends =
      observe_rule (Ends stringify most) env Report.workflow_started _ _
        (observe_rule (Ends stringify most) env Report.admission_running _ _
          (admitted-Ends env.admit_agent _ (refl, refl))
          (λ m. IsUnused-IsLimited stringify most _ (refl, refl)))
        (λ m. IsUnused-IsLimited stringify most _ (refl, refl))

capped : (n : Option ℕ) → max_iterations_or_default n ≤ 100
capped none = omega arith
capped (some n) = omega arith

Ends-IsLimited :
    (stringify : Json → String) (n : ℕ) (x : Exec.Exec AgentResult)
    → Ends stringify n x
    → IsLimited stringify n (log_of x)
Ends-IsLimited stringify n (ok r log) h = h.0
Ends-IsLimited stringify n (err e log) h = h

-- However its activities answer or throw, one run of the workflow calls the model at most as often as
-- the input's limit on iterations says (20 without one), and never more than 100 times.
pub llm_calls-react_workflow-le :
    (stringify : Json → String) (floats : Floats) (env : Activities) (input : AgentExecutionInput)
    → (llm_calls (log_of (react_workflow stringify floats env input []))
        ≤ max_iterations_or_default input.max_iterations)
      × (max_iterations_or_default input.max_iterations ≤ 100)
llm_calls-react_workflow-le stringify floats env input = (
  (Ends-IsLimited stringify _ _ (react_workflow-Ends stringify floats env input)).few,
  capped input.max_iterations,
)

-- However its activities answer or throw, one run of the workflow never asks the activity `executeTool`
-- twice for the same tool with the same text of arguments, whatever identifiers the model gives its
-- calls. Retries of the activity by Temporal are not counted.
pub executed-react_workflow-all_new :
    (stringify : Json → String) (floats : Floats) (env : Activities) (input : AgentExecutionInput)
    → all_new (executed stringify (log_of (react_workflow stringify floats env input []))) ≡ true
executed-react_workflow-all_new stringify floats env input =
    (Ends-IsLimited stringify _ _ (react_workflow-Ends stringify floats env input)).distinct

-- A result of the workflow tells of no more iterations than the limit, and of at most one tool call for
-- each iteration.
react_workflow-iterations-le :
    (stringify : Json → String) (floats : Floats) (env : Activities) (input : AgentExecutionInput)
    {r : AgentResult} {log : Log}
    → react_workflow stringify floats env input [] ≡ ok r log
    → (r.iterations ≤ max_iterations_or_default input.max_iterations)
      × (length r.tool_calls ≤ r.iterations)
react_workflow-iterations-le stringify floats env input e =
    let ends = rw e at (react_workflow-Ends stringify floats env input) in (ends.1, ends.2)
