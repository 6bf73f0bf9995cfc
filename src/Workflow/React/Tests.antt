-- ===== src/Workflow/React/Tests.antt =====
-- The ReAct workflow's theorems at a concrete run.
use the_kubernetes_of_ai_age.Common.{
  ℕ, zero, suc, ◌+◌, ltb, ◌≤◌, ◌≡◌, ◌⊎◌, refl, String, true, false, none, some, [], ◌∷◌, arith,
}
use the_kubernetes_of_ai_age.Common.Json
use the_kubernetes_of_ai_age.Common.Json.{Json}
use the_kubernetes_of_ai_age.Workflow.React.{
  Floats, LlmResponse, ToolResult, ResponseType, AgentResult, AgentExecutionInput, Attempt, returns,
  Status, Output, Activities,
}
use the_kubernetes_of_ai_age.Workflow.React.Exec.{Log, ok, log_of}
use the_kubernetes_of_ai_age.Workflow.React.Loop.{initial_state, loop, iterate}
use the_kubernetes_of_ai_age.Workflow.React.Run.{react_workflow}
use the_kubernetes_of_ai_age.Workflow.React.Limits.{llm_calls, executed, all_new}
use the_kubernetes_of_ai_age.Workflow.React.Limits.Bounds.{
  llm_calls-react_workflow-le, executed-react_workflow-all_new,
}
use the_kubernetes_of_ai_age.Workflow.React.Sandbox.{sandboxes, terminated}
use the_kubernetes_of_ai_age.Workflow.React.Sandbox.Ending.{
  created, react_workflow-terminates_sandbox,
}
use the_kubernetes_of_ai_age.Workflow.React.Sandbox.Gates.{IsCleared, effects-need_clearance}
use the_kubernetes_of_ai_age.Workflow.React.Costs.{spent}
use the_kubernetes_of_ai_age.Workflow.React.Costs.Totals.{
  IsAsymmetric, react_workflow-total_cost, react_workflow-cost-le,
}

abbrev stringify : Json → String
stringify (Json.string s) = s
stringify _ = "{}"

-- Every text costs 5, and numbers are added and compared as natural numbers.
abbrev floats : Floats
floats = record { parse = λ s. 5; add = λ a b. a + b; greater = λ a b. ltb b a }

floats-IsAsymmetric : IsAsymmetric floats
floats-IsAsymmetric a b h = ground arith

abbrev call_again : LlmResponse
call_again = record {
  kind = ResponseType.tool_call;
  content = "";
  tool_name = some "file_read";
  tool_args = none;
  tool_call_id = none;
  tool_calls = [];
  cost = "$5";
}

abbrev final : LlmResponse
final = record {
  kind = ResponseType.final_answer;
  content = "done";
  tool_name = none;
  tool_args = none;
  tool_call_id = none;
  tool_calls = [];
  cost = "$5";
}

abbrev read_file : ToolResult
read_file = record {
  tool_name = "file_read";
  succeeded = true;
  result = none;
  error_message = none;
  latency_ms = 3;
}

-- The model asks for the same call twice, then answers.
abbrev answers : ℕ → Attempt LlmResponse
answers zero = returns call_again
answers (suc zero) = returns call_again
answers (suc (suc zero)) = returns call_again
answers _ = returns final

abbrev env : Activities
env = record {
  admit_agent = returns true;
  evaluate_policy = returns (record { allow = true; reason = "" });
  create_sandbox = returns (record { id = "sbx-1"; ip_address = none });
  record_observability = λ r. none;
  call_llm = answers;
  execute_tool = λ n. returns read_file;
  cancellation_requested = λ n. false;
}

abbrev input : AgentExecutionInput
input = record {
  execution_id = "e1";
  system_prompt = none;
  initial_messages = [];
  tools = [];
  max_iterations = some 7;
  cost_budget = some 15;
}

-- The second call is not made; the third answer ends the run.
abbrev result : AgentResult
result = record {
  status = Status.succeeded;
  output = Output.answer "done";
  total_cost = 15;
  iterations = 3;
  tool_calls =
      record {
        iteration = 1;
        tool_name = "file_read";
        args = Json.object Json.end;
        tool_call_id = none;
        succeeded = true;
        latency_ms = 3;
      }
      ∷ [];
}

run_log : Log
unfolding react_workflow loop iterate initial_state
run_log = log_of (react_workflow stringify floats env input [])

runs : react_workflow stringify floats env input [] ≡ ok result run_log
unfolding run_log
runs = refl

llm_calls-react_workflow-le_example :
    (llm_calls (log_of (react_workflow stringify floats env input [])) ≤ 7) × (◌≤◌ 7 100)
llm_calls-react_workflow-le_example = llm_calls-react_workflow-le stringify floats env input

executed-react_workflow-all_new_example :
    all_new (executed stringify (log_of (react_workflow stringify floats env input []))) ≡ true
executed-react_workflow-all_new_example = executed-react_workflow-all_new stringify floats env input

react_workflow-terminates_sandbox_example :
    let log = log_of (react_workflow stringify floats env input []) in
    ((sandboxes log ≡ 0) × (terminated log ≡ []))
    ⊎ ((sandboxes log ≡ 1) × (terminated log ≡ created env.create_sandbox))
react_workflow-terminates_sandbox_example =
    react_workflow-terminates_sandbox stringify floats env input

effects-need_clearance_example : IsCleared env
unfolding run_log
effects-need_clearance_example = effects-need_clearance stringify floats env input (omega arith)

react_workflow-total_cost_example : result.total_cost ≡ spent floats env 3
react_workflow-total_cost_example =
    react_workflow-total_cost stringify floats env input {r = result} {log = run_log}
      floats-IsAsymmetric runs (λ e. cc)

react_workflow-cost-le_example : (result.total_cost ≡ spent floats env 3) × (ltb 15 15 ≡ false)
react_workflow-cost-le_example =
    react_workflow-cost-le stringify floats env input {r = result} {log = run_log} 15
      floats-IsAsymmetric runs (λ e. cc) refl refl
