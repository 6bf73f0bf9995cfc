-- ===== src/Workflow/React/Loop.antt =====
-- react-workflow.ts: the ReAct loop, from the conversation it starts with to what ends it. A pass of
-- the loop goes on with a new state or breaks with a result. `sleep(100)` changes nothing and is left
-- out. `stringify` is `JSON.stringify`; `floats` is `parseFloat(cost?.replace("$", "") || "0")`.
use text.Mathlib.Text.{find?}
use the_kubernetes_of_ai_age.Common.{
  ℕ, zero, suc, ◌+◌, min, String, Bool, true, false, ◌&&◌, ◌||◌, Option, none, some, List, [], ◌∷◌,
  ◌++◌, if◌then◌else◌, str_eq, keep, exists,
}
use the_kubernetes_of_ai_age.Common.Json
use the_kubernetes_of_ai_age.Common.Json.{Json}
use the_kubernetes_of_ai_age.Workflow.React.{
  Floats, Role, system, user, assistant, Content, plain, default_system_prompt, already_called,
  tool_output, tool_error, executed_successfully, execution_failed, continue_prompt, ToolCallRef,
  Message, ResponseType, final_answer, tool_call, LlmResponse, ToolResult, ToolCallRecord, Status,
  Output, answer, execution_cancelled, llm_call_failed, cost_budget_exceeded, tool_execution_failed,
  AgentResult, AgentExecutionInput, Attempt, returns, throws, Report, Activities,
}
use the_kubernetes_of_ai_age.Workflow.React.Exec
use the_kubernetes_of_ai_age.Workflow.React.Exec.{
  M, ◌>>=◌, ◌>>◌, return, note, attempt, observe, ok, err, last_action, called_llm, executed_tool,
  persisted,
}

-- A text that is there and not empty.
abbrev pub truthy : Option String → Option String
truthy none = none
truthy (some s) = if str_eq s "" then none else some s

-- `s.includes(part)`
abbrev pub includes : String → String → Bool
includes s part = elim (find? s part) [ none ↦ false | some i ↦ true ]

-- `toolArgs ?? {}`
abbrev pub args_or_empty : Option Json → Json
args_or_empty none = Json.object Json.end
args_or_empty (some Json.null) = Json.object Json.end
args_or_empty (some v) = v

-- `costBudget > 0 && totalCost > costBudget`, with the default 0.
abbrev pub over_budget : Floats → Option ℕ → ℕ → Bool
over_budget floats none total = false
over_budget floats (some budget) total = floats.greater budget 0 && floats.greater total budget

abbrev pub budget_or_zero : Option ℕ → ℕ
budget_or_zero none = 0
budget_or_zero (some b) = b

-- `Math.min(input.maxIterations ?? 20, 100)`
abbrev pub max_iterations_or_default : Option ℕ → ℕ
max_iterations_or_default none = 20
max_iterations_or_default (some n) = min n 100

abbrev pub default_tools : List String
default_tools = "code_interpreter" ∷ "file_read" ∷ "file_write" ∷ "database_query" ∷ []

abbrev pub tools_or_default : List String → List String
tools_or_default [] = default_tools
tools_or_default (t ∷ ts) = t ∷ ts

pub record LoopState : Type 0 where
  pub current_iteration : ℕ
  pub messages : List Message
  pub tool_calls : List ToolCallRecord
  pub seen_tool_calls : List String
  pub total_cost : ℕ
  pub output : String

pub data Flow : Type 0 where
  go_on : LoopState → Flow
  finished : AgentResult → Flow

abbrev message : Role → Content → Message
message role content = record {
  role = role;
  content = content;
  name = none;
  tool_call_id = none;
  tool_calls = [];
}

abbrev pub push : Message → LoopState → LoopState
push m st = record st { messages = st.messages ++ m ∷ [] }

system_content : Option String → Content
system_content none = default_system_prompt
system_content (some prompt) = plain prompt

unfoldable pub initial_state : AgentExecutionInput → LoopState
unfolding system_content
initial_state input = record {
  current_iteration = 0;
  messages = message system (system_content input.system_prompt) ∷ input.initial_messages;
  tool_calls = [];
  seen_tool_calls = [];
  total_cost = 0;
  output = "";
}

abbrev pub result_of : Status → Output → LoopState → AgentResult
result_of status output st = record {
  status = status;
  output = output;
  total_cost = st.total_cost;
  iterations = st.current_iteration;
  tool_calls = st.tool_calls;
}

-- Only the call that is carried out is kept of the model's tool calls.
abbrev kept_calls : LlmResponse → List ToolCallRef
kept_calls r = elim (truthy r.tool_call_id) [
  | none ↦ r.tool_calls
  | some id ↦ keep (λ tc. str_eq tc.id id) r.tool_calls
]

abbrev assistant_message : LlmResponse → Message
assistant_message r = record {
  role = assistant;
  content = plain r.content;
  name = none;
  tool_call_id = none;
  tool_calls = kept_calls r;
}

abbrev tool_message : Option String → ToolResult → Message
tool_message none r = record {
  role = user;
  content =
      if r.succeeded
      then executed_successfully r.tool_name r.result
      else execution_failed r.tool_name r.error_message;
  name = some r.tool_name;
  tool_call_id = none;
  tool_calls = [];
}
tool_message (some id) r = record {
  role = Role.tool;
  content = if r.succeeded then tool_output r.result else tool_error r.error_message;
  name = none;
  tool_call_id = some id;
  tool_calls = [];
}

module _ (stringify : Json → String) (floats : Floats) (env : Activities)
    (input : AgentExecutionInput) (sandbox_ip : String) where
  -- `${toolName}::${JSON.stringify(toolArgs ?? {})}`
  abbrev pub call_key : String → Option Json → String
  call_key tool args =
      Prim.Native.String.◌++◌ tool (Prim.Native.String.◌++◌ "::" (stringify (args_or_empty args)))

  abbrev call_record : String → LlmResponse → ℕ → ToolResult → ToolCallRecord
  call_record tool r n done = record {
    iteration = n;
    tool_name = tool;
    args = args_or_empty r.tool_args;
    tool_call_id = r.tool_call_id;
    succeeded = done.succeeded;
    latency_ms = done.latency_ms;
  }

  -- What follows a tool's answer. `persistMemory` is under a `catch` that does nothing.
  unfoldable pub record_tool : String → LlmResponse → LoopState → ToolResult → M Flow
  record_tool tool r st done = do
    note (persisted (Exec.iteration st.current_iteration))
    observe env (Report.tool_finished st.current_iteration)
    return (
        go_on (
          push (tool_message (truthy r.tool_call_id) done) (record st {
            tool_calls = st.tool_calls ++ call_record tool r st.current_iteration done ∷ [];
          })))

  unfoldable pub abort_tool : String → String → LoopState → M Flow
  abort_tool tool e st = do
    note (last_action (Exec.failed_tool tool))
    observe env (Report.tool_failed st.current_iteration)
    return (finished (result_of Status.error (tool_execution_failed e) st))

  abbrev failed_result : String → String → ToolResult
  failed_result tool e = record {
    tool_name = tool;
    succeeded = false;
    result = none;
    error_message = some e;
    latency_ms = 0;
  }

  unfoldable pub settle_tool : String → LlmResponse → LoopState → Attempt ToolResult → M Flow
  unfolding record_tool abort_tool
  settle_tool tool r st (returns done) = record_tool tool r st done
  settle_tool tool r st (throws e) =
      if includes e "PII_VIOLATION" || includes e "POLICY_DENIED"
      then abort_tool tool e st
      else record_tool tool r st (failed_result tool e)

  unfoldable pub call_new_tool : String → String → LlmResponse → LoopState → M Flow
  unfolding settle_tool
  call_new_tool tool key r st = do
    let n = st.current_iteration
    observe env (Report.tool_running n)
    done ←
        attempt (executed_tool n tool (args_or_empty r.tool_args) sandbox_ip) (env.execute_tool n)
    settle_tool tool r (record st { seen_tool_calls = key ∷ st.seen_tool_calls }) done

  abbrev repeated : String → LoopState → Flow
  repeated tool st =
      go_on (push (record (message user (already_called tool)) { name = some "system" }) st)

  -- A call made before, with the same arguments, is not made again.
  unfoldable pub call_tool : String → LlmResponse → LoopState → M Flow
  unfolding call_new_tool
  call_tool tool r st =
      let key = call_key tool r.tool_args in
      note (last_action (Exec.called_tool tool))
      >> (if exists (λ k. str_eq k key) st.seen_tool_calls
          then return (repeated tool st)
          else call_new_tool tool key r st)

  unfoldable pub finish : LlmResponse → LoopState → M Flow
  finish r st = do
    note (last_action Exec.gave_final_answer)
    note (persisted Exec.execution_result)
    observe env (Report.loop_completed st.current_iteration)
    return (
        finished (result_of Status.succeeded (answer r.content) (record st { output = r.content })))

  unfoldable pub respond : ResponseType → LlmResponse → LoopState → M Flow
  unfolding call_tool finish
  respond final_answer r st = finish r st
  respond tool_call r st = elim (truthy r.tool_name) [
    | none ↦ return (go_on (push (message user continue_prompt) st))
    | some tool ↦ call_tool tool r st
  ]

  unfoldable pub exceed_budget : LoopState → M Flow
  exceed_budget st = do
    note (last_action Exec.budget_was_exceeded)
    observe env (Report.budget_exceeded st.current_iteration)
    return (
        finished (
          result_of Status.error
            (cost_budget_exceeded st.total_cost (budget_or_zero input.cost_budget)) st))

  unfoldable pub take_response : LoopState → Attempt LlmResponse → M Flow
  unfolding respond exceed_budget
  take_response st (throws e) = do
    note (last_action (Exec.llm_error st.current_iteration))
    observe env (Report.llm_failed st.current_iteration)
    return (finished (result_of Status.error (llm_call_failed e) st))
  take_response st (returns r) =
      let st' = record st { total_cost = floats.add st.total_cost (floats.parse r.cost) } in
      if over_budget floats input.cost_budget st'.total_cost
      then exceed_budget st'
      else respond r.kind r (push (assistant_message r) st')

  unfoldable pub cancel : LoopState → M Flow
  cancel st = do
    note (last_action Exec.was_cancelled)
    observe env (Report.loop_cancelled st.current_iteration)
    return (finished (result_of Status.cancelled execution_cancelled st))

  unfoldable pub ask_model : ℕ → LoopState → M Flow
  unfolding take_response
  ask_model n st = do
    note (last_action (Exec.llm_call n))
    observe env (Report.llm_running n)
    r ← attempt (called_llm n st.messages (tools_or_default input.tools)) (env.call_llm n)
    take_response (record st { current_iteration = n }) r

  -- One pass of the loop's body.
  unfoldable pub iterate : LoopState → M Flow
  unfolding ask_model cancel
  iterate st =
      let n = st.current_iteration + 1 in
      if env.cancellation_requested st.current_iteration then cancel st else ask_model n st

  -- The `while`, with the number of passes that are left. Either the passes ran out, with a state, or
  -- a pass ended the loop with a result.
  unfoldable pub loop : ℕ → LoopState → M Flow
  loop zero st = return (go_on st)
  loop (suc left) st = λ log. elim (iterate st log) [
    | ok (go_on st') log' ↦ loop left st' log'
    | ok (finished r) log' ↦ ok (finished r) log'
    | err e log' ↦ err e log'
  ]
