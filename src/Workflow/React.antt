-- ===== src/Workflow/React.antt =====
-- control-plane/workflow-engine/src/temporal/workflows/react-workflow.ts: the data of the workflow.
-- Texts that the workflow composes are constructors that hold their parts. Dollars are
-- floating point numbers.
pub mod Exec
pub mod Loop
pub mod Run
pub mod Limits
pub mod Sandbox
pub mod Costs
mod Tests
use the_kubernetes_of_ai_age.Common.{ℕ, String, Bool, Option, List}
use the_kubernetes_of_ai_age.Common.Json.{Json}

pub data Role : Type 0 where
  system user assistant tool : Role

pub data Content : Type 0 where
  plain : String → Content
  default_system_prompt : Content
  already_called : String → Content
  -- `JSON.stringify(result ?? "")`, for a call with an identifier
  tool_output : Option Json → Content
  tool_error : Option String → Content
  executed_successfully : String → Option Json → Content
  execution_failed : String → Option String → Content
  continue_prompt : Content

pub record ToolCallRef : Type 0 where
  pub id : String
  pub name : String
  pub args : String

pub record Message : Type 0 where
  pub role : Role
  pub content : Content
  pub name : Option String
  pub tool_call_id : Option String
  pub tool_calls : List ToolCallRef

pub data ResponseType : Type 0 where
  final_answer tool_call : ResponseType

pub record LlmResponse : Type 0 where
  pub kind : ResponseType
  pub content : String
  pub tool_name : Option String
  pub tool_args : Option Json
  pub tool_call_id : Option String
  pub tool_calls : List ToolCallRef
  pub cost : String

pub record ToolResult : Type 0 where
  pub tool_name : String
  pub succeeded : Bool
  pub result : Option Json
  pub error_message : Option String
  pub latency_ms : ℕ

pub record ToolCallRecord : Type 0 where
  pub iteration : ℕ
  pub tool_name : String
  pub args : Json
  pub tool_call_id : Option String
  pub succeeded : Bool
  pub latency_ms : ℕ

pub data Status : Type 0 where
  succeeded max_iterations_reached cancelled error : Status

-- Floating point numbers are their 64 bits, so that 0 is the number zero; what the platform makes of
-- them is a parameter. `parse` is `parseFloat(cost?.replace("$", "") || "0")`, which may be NaN.
pub record Floats : Type 0 where
  pub parse : String → ℕ
  pub add : ℕ → ℕ → ℕ
  pub greater : ℕ → ℕ → Bool

pub data Output : Type 0 where
  answer : String → Output
  agent_admission_failed : String → Output
  agent_failed_admission_policy : Output
  policy_denied : String → Output
  execution_cancelled : Output
  llm_call_failed : String → Output
  cost_budget_exceeded : ℕ → ℕ → Output
  tool_execution_failed : String → Output
  stopped_after : ℕ → Output
  sandbox_creation_failed : String → Output

pub record AgentResult : Type 0 where
  pub status : Status
  pub output : Output
  -- the number, which the source prints with six decimals
  pub total_cost : ℕ
  pub iterations : ℕ
  pub tool_calls : List ToolCallRecord

pub record AgentExecutionInput : Type 0 where
  pub execution_id : String
  pub system_prompt : Option String
  pub initial_messages : List Message
  -- the names of the tools; their descriptions and schemas only travel to the model
  pub tools : List String
  pub max_iterations : Option ℕ
  pub cost_budget : Option ℕ

pub record PolicyVerdict : Type 0 where
  pub allow : Bool
  pub reason : String

pub record SandboxInfo : Type 0 where
  pub id : String
  pub ip_address : Option String

pub data Attempt {ℓ} (A : Type ℓ) : Type ℓ where
  returns : A → Attempt A
  throws : String → Attempt A

-- The calls of `recordObservability`, by their step and status; each is made at most once.
pub data Report : Type 0 where
  workflow_started admission_running admission_failed admission_denied : Report
  policy_running policy_denial sandbox_running sandbox_completed sandbox_failed : Report
  loop_cancelled llm_running llm_failed budget_exceeded loop_completed : ℕ → Report
  tool_running tool_failed tool_finished : ℕ → Report
  iterations_exhausted : Report

-- What the activities of one execution answer, each after its retries, and when the cancel signal is
-- seen. `persistMemory` and `terminateSandbox` are awaited under a `catch` that does nothing.
pub record Activities : Type 0 where
  pub admit_agent : Attempt Bool
  pub evaluate_policy : Attempt PolicyVerdict
  pub create_sandbox : Attempt SandboxInfo
  -- the message with which the call throws, if it does
  pub record_observability : Report → Option String
  -- by the iteration
  pub call_llm : ℕ → Attempt LlmResponse
  pub execute_tool : ℕ → Attempt ToolResult
  -- `cancellationRequested`, where the loop reads it with this many iterations done
  pub cancellation_requested : ℕ → Bool
