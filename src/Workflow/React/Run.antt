-- ===== src/Workflow/React/Run.antt =====
-- react-workflow.ts: the whole workflow around the loop. The test `if (!result)` behind the `finally`
-- has no counterpart: a result is set wherever no exception leaves the block.
use the_kubernetes_of_ai_age.Common.{
  ℕ, String, Bool, true, false, Option, none, some, [], ◌∷◌, if◌then◌else◌, str_eq,
}
use the_kubernetes_of_ai_age.Common.Json.{Json}
use the_kubernetes_of_ai_age.Workflow.React.{
  Floats, Status, Output, answer, agent_admission_failed, agent_failed_admission_policy,
  policy_denied, stopped_after, sandbox_creation_failed, AgentResult, AgentExecutionInput, Attempt,
  returns, throws, Report, SandboxInfo, PolicyVerdict, Activities,
}
use the_kubernetes_of_ai_age.Workflow.React.Exec
use the_kubernetes_of_ai_age.Workflow.React.Exec.{
  M, Log, ok, err, ◌>>=◌, ◌>>◌, return, note, attempt, observe, last_action, asked_admission,
  asked_policy, asked_sandbox, terminated_sandbox, reported_outcome,
}
use the_kubernetes_of_ai_age.Workflow.React.Loop.{
  LoopState, Flow, go_on, finished, result_of, initial_state, max_iterations_or_default, loop,
}

-- A result with no iterations and no cost.
abbrev pub refusal : Output → AgentResult
refusal output = record {
  status = Status.error;
  output = output;
  total_cost = 0;
  iterations = 0;
  tool_calls = [];
}

abbrev pub text_or : String → Output → Output
text_or s other = if str_eq s "" then other else answer s

abbrev pub ip_or_empty : Option String → String
ip_or_empty none = ""
ip_or_empty (some ip) = ip

-- `if (sandboxId)`, with the reason that it hands over.
unfoldable pub terminate : String → Option Status → Log → Log
terminate id status log = if str_eq id "" then log else terminated_sandbox id status ∷ log

-- The `finally` of a sandbox that was created.
unfoldable pub finally : String → Exec.Exec AgentResult → Exec.Exec AgentResult
unfolding terminate
finally id (ok r log) = ok r (terminate id (some r.status) log)
finally id (err e log) = err e (terminate id none log)

module _ (stringify : Json → String) (floats : Floats) (env : Activities)
    (input : AgentExecutionInput) where
  abbrev pub max_iterations : ℕ
  max_iterations = max_iterations_or_default input.max_iterations

  -- The passes ran out.
  unfoldable pub exhaust : LoopState → M AgentResult
  exhaust st = do
    note (last_action Exec.reached_max_iterations)
    observe env Report.iterations_exhausted
    return (
        result_of Status.max_iterations_reached (text_or st.output (stopped_after max_iterations))
          st)

  unfoldable pub conclude : Flow → M AgentResult
  unfolding exhaust
  conclude (finished r) = return r
  conclude (go_on st) = exhaust st

  -- The `try` after the sandbox was created.
  unfoldable pub work : SandboxInfo → M AgentResult
  unfolding conclude
  work sandbox = do
    observe env Report.sandbox_completed
    flow ←
        loop stringify floats env input (ip_or_empty sandbox.ip_address) max_iterations
          (initial_state input)
    conclude flow

  unfoldable pub catch : String → M AgentResult
  catch e = do observe env Report.sandbox_failed; return (refusal (sandbox_creation_failed e))

  unfoldable pub or_catch : Exec.Exec AgentResult → Exec.Exec AgentResult
  unfolding catch
  or_catch (ok r log) = ok r log
  or_catch (err e log) = catch e log

  -- `try … catch … finally`
  unfoldable pub in_sandbox : Attempt SandboxInfo → M AgentResult
  unfolding work or_catch finally
  in_sandbox (throws e) log = catch e log
  in_sandbox (returns sandbox) log = finally sandbox.id (or_catch (work sandbox log))

  unfoldable pub execute : M AgentResult
  unfolding in_sandbox
  execute = do
    note (last_action Exec.create_sandbox)
    observe env Report.sandbox_running
    sandbox ← attempt asked_sandbox env.create_sandbox
    result ← in_sandbox sandbox
    note (reported_outcome result)
    return result

  unfoldable pub judge : PolicyVerdict → M AgentResult
  unfolding execute
  judge verdict =
      if verdict.allow
      then execute
      else observe env Report.policy_denial >> return (refusal (policy_denied verdict.reason))

  -- `evaluatePolicy` stands outside every `try`: what it throws ends the workflow.
  unfoldable pub evaluate : M AgentResult
  unfolding judge
  evaluate = do
    note (last_action Exec.policy_evaluation)
    observe env Report.policy_running
    verdict ← Exec.ask asked_policy env.evaluate_policy
    judge verdict

  unfoldable pub admitted : Attempt Bool → M AgentResult
  unfolding evaluate
  admitted (throws e) =
      observe env Report.admission_failed >> return (refusal (agent_admission_failed e))
  admitted (returns false) =
      observe env Report.admission_denied >> return (refusal agent_failed_admission_policy)
  admitted (returns true) = evaluate

  unfoldable pub react_workflow : M AgentResult
  unfolding admitted
  react_workflow = do
    note (last_action Exec.starting)
    observe env Report.workflow_started
    note (last_action Exec.admission_check)
    observe env Report.admission_running
    admission ← attempt asked_admission env.admit_agent
    admitted admission
