-- ===== src/Workflow/React/Sandbox/Ending.antt =====
-- What a whole run does with its sandbox, and what both gates keep from happening.
use the_kubernetes_of_ai_age.Common.{
  ℕ, suc, ◌≡◌, refl, ap, if_rule, ◌⊎◌, String, Bool, true, false, List, [], ◌∷◌, arith, Bool-cases,
  inl, inr, str_eq, if◌then◌else◌,
}
use the_kubernetes_of_ai_age.Common.Json.{Json}
use the_kubernetes_of_ai_age.Workflow.React.{
  Floats, AgentResult, AgentExecutionInput, Attempt, returns, throws, Report, Output, Activities,
  SandboxInfo, PolicyVerdict,
}
use the_kubernetes_of_ai_age.Workflow.React.Exec
use the_kubernetes_of_ai_age.Workflow.React.Exec.{
  Action, asked_sandbox, Log, ok, err, observe, observe_rule, ask_rule, ◌>>=◌, ◌>>◌, log_of,
}
use the_kubernetes_of_ai_age.Workflow.React.Loop.{Flow, go_on, finished, loop, initial_state}
use the_kubernetes_of_ai_age.Workflow.React.Run.{
  ip_or_empty, terminate, finally, max_iterations, exhaust, conclude, work, catch, or_catch,
  in_sandbox, execute, refusal, judge, evaluate, admitted, react_workflow,
}
use the_kubernetes_of_ai_age.Workflow.React.Sandbox.{sandboxes, terminated, is_loop_action}
use the_kubernetes_of_ai_age.Workflow.React.Sandbox.Frame.{loop-Kept}

-- So many sandboxes asked for, and these terminated.
abbrev Has : ℕ → List String → Log → Type 0
Has n ids log = (sandboxes log ≡ n) × (terminated log ≡ ids)

Has-keeps :
    (n : ℕ) (ids : List String) (a : Action) (log : Log)
    → is_loop_action a ≡ true
    → Has n ids log
    → Has n ids (a ∷ log)
Has-keeps n ids (Exec.last_action a) log e h = h
Has-keeps n ids (Exec.observed r) log e h = h
Has-keeps n ids (Exec.called_llm m ms ts) log e h = h
Has-keeps n ids (Exec.executed_tool m key args ip) log e h = h
Has-keeps n ids (Exec.persisted m) log e h = h
Has-keeps n ids _ log e h = absurd (ground arith)

-- The sandbox that was created, if it can be terminated by its identifier.
abbrev pub created : Attempt SandboxInfo → List String
created (returns sandbox) = if str_eq sandbox.id "" then [] else sandbox.id ∷ []
created (throws e) = []

module _ (stringify : Json → String) (floats : Floats) (env : Activities)
    (input : AgentExecutionInput) where
  abbrev Leaves : ℕ → List String → Exec.Exec AgentResult → Type 0
  Leaves n ids x = Has n ids (log_of x)

  conclude-Leaves :
      (x : Exec.Exec Flow)
      → Has 1 [] (log_of x)
      → Leaves 1 [] (elim x [
        | ok flow log ↦ conclude stringify floats env input flow log
        | err e log ↦ err e log
      ])
  unfolding conclude exhaust
  conclude-Leaves (ok (go_on st) log) h =
      observe_rule (Leaves 1 []) env Report.iterations_exhausted _ _ h (λ m. h)
  conclude-Leaves (ok (finished r) log) h = h
  conclude-Leaves (err e log) h = h

  work-Leaves :
      (sandbox : SandboxInfo) (log : Log)
      → Has 1 [] log
      → Leaves 1 [] (work stringify floats env input sandbox log)
  unfolding work
  work-Leaves sandbox log h =
      let ip = ip_or_empty sandbox.ip_address in
      let most = max_iterations stringify floats env input in
      let start : Log = Exec.observed Report.sandbox_completed ∷ log in
      observe_rule (Leaves 1 []) env Report.sandbox_completed _ log
        (conclude-Leaves (loop stringify floats env input ip most (initial_state input) start) (
          loop-Kept (Has 1 []) (Has-keeps 1 []) stringify floats env input ip most
            (initial_state input) start h))
        (λ m. h)

  catch-Leaves :
      (ids : List String) (e : String) (log : Log)
      → Has 1 ids log
      → Leaves 1 ids (catch stringify floats env input e log)
  unfolding catch
  catch-Leaves ids e log h = observe_rule (Leaves 1 ids) env Report.sandbox_failed _ _ h (λ m. h)

  or_catch-Leaves :
      (x : Exec.Exec AgentResult)
      → Leaves 1 [] x
      → Leaves 1 [] (or_catch stringify floats env input x)
  unfolding or_catch
  or_catch-Leaves (ok r log) h = h
  or_catch-Leaves (err e log) h = catch-Leaves [] e log h

  finally-Leaves :
      (sandbox : SandboxInfo) (x : Exec.Exec AgentResult)
      → Leaves 1 [] x
      → Leaves 1 (created (returns sandbox)) (finally sandbox.id x)
  unfolding finally terminate
  finally-Leaves sandbox (ok r log) h = elim (Bool-cases (str_eq sandbox.id "")) [
    | inl e ↦ rw (e, terminate) h
    | inr e ↦ rw (e, terminate) (h.0, ap (◌∷◌ sandbox.id) h.1)
  ]
  finally-Leaves sandbox (err m log) h = elim (Bool-cases (str_eq sandbox.id "")) [
    | inl e ↦ rw (e, terminate) h
    | inr e ↦ rw (e, terminate) (h.0, ap (◌∷◌ sandbox.id) h.1)
  ]

  in_sandbox-Leaves :
      (a : Attempt SandboxInfo) (log : Log)
      → Has 1 [] log
      → Leaves 1 (created a) (in_sandbox stringify floats env input a log)
  unfolding in_sandbox
  in_sandbox-Leaves (returns sandbox) log h =
      let x = work stringify floats env input sandbox log in
      finally-Leaves sandbox (or_catch stringify floats env input x)
        (or_catch-Leaves x (work-Leaves sandbox log h))
  in_sandbox-Leaves (throws e) log h = catch-Leaves [] e log h

  -- Asked for once and terminated, or never asked for.
  abbrev Balanced : Exec.Exec AgentResult → Type 0
  Balanced x = Leaves 0 [] x ⊎ Leaves 1 (created env.create_sandbox) x

  report-Leaves :
      (n : ℕ) (ids : List String) (x : Exec.Exec AgentResult)
      → Leaves n ids x
      → Leaves n ids
          (elim x [ ok r log ↦ ok r (Exec.reported_outcome r ∷ log) | err e log ↦ err e log ])
  report-Leaves n ids (ok r log) h = h
  report-Leaves n ids (err e log) h = h

  execute-Balanced : (log : Log) → Has 0 [] log → Balanced (execute stringify floats env input log)
  unfolding execute
  execute-Balanced log h =
      let asked : Log =
        asked_sandbox
        ∷ Exec.observed Report.sandbox_running
        ∷ Exec.last_action Exec.create_sandbox
        ∷ log in
      observe_rule Balanced env Report.sandbox_running _ _
        (inr (
          report-Leaves 1 (created env.create_sandbox)
            (in_sandbox stringify floats env input env.create_sandbox asked)
            (in_sandbox-Leaves env.create_sandbox asked (ap suc h.0, h.1))))
        (λ m. inl h)

  refused-Balanced :
      (r : Report) (output : Output) (log : Log)
      → Has 0 [] log
      → Balanced ((observe env r >> Exec.return (refusal output)) log)
  refused-Balanced r output log h = observe_rule Balanced env r _ _ (inl h) (λ m. inl h)

  judge-Balanced :
      (verdict : PolicyVerdict) (log : Log)
      → Has 0 [] log
      → Balanced (judge stringify floats env input verdict log)
  unfolding judge
  judge-Balanced verdict log h =
      if_rule {A = Exec.M AgentResult} (λ m. Balanced (m log)) verdict.allow
        (λ e. execute-Balanced log h) (λ e. refused-Balanced Report.policy_denial _ log h)

  admitted-Balanced :
      (a : Attempt Bool) (log : Log)
      → Has 0 [] log
      → Balanced (admitted stringify floats env input a log)
  unfolding admitted evaluate
  admitted-Balanced (returns true) log h =
      observe_rule Balanced env Report.policy_running _ _
        (ask_rule Balanced Exec.asked_policy env.evaluate_policy _ _
          (λ verdict e. judge-Balanced verdict _ h) (λ e. inl h))
        (λ m. inl h)
  admitted-Balanced (returns false) log h = refused-Balanced Report.admission_denied _ log h
  admitted-Balanced (throws e) log h = refused-Balanced Report.admission_failed _ log h

-- In every run, also one that ends by an exception, no sandbox was asked for and none terminated, or
-- one was asked for, and what was terminated is exactly the sandbox that was created, once. (A sandbox
-- that could not be created, or that has an empty identifier, is not terminated.)
pub react_workflow-terminates_sandbox :
    (stringify : Json → String) (floats : Floats) (env : Activities) (input : AgentExecutionInput)
    → let log = log_of (react_workflow stringify floats env input []) in
      ((sandboxes log ≡ 0) × (terminated log ≡ []))
      ⊎ ((sandboxes log ≡ 1) × (terminated log ≡ created env.create_sandbox))
unfolding react_workflow
react_workflow-terminates_sandbox stringify floats env input =
    let balanced = Balanced stringify floats env input in
    observe_rule balanced env Report.workflow_started _ _
      (observe_rule balanced env Report.admission_running _ _
        (admitted-Balanced stringify floats env input env.admit_agent _ (refl, refl))
        (λ m. inl (refl, refl)))
      (λ m. inl (refl, refl))
