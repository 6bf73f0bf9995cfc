-- ===== src/Workflow/React/Limits.antt =====
-- The ReAct loop's limits: what is counted in the log, and what holds between two passes.
pub mod Passes
pub mod Rounds
pub mod Bounds
use the_kubernetes_of_ai_age.Common.{
  ℕ, suc, ◌+◌, ◌≤◌, ◌≡◌, String, Bool, true, ◌&&◌, not, List, [], ◌∷◌, str_eq, exists, length,
}
use the_kubernetes_of_ai_age.Common.Json.{Json}
use the_kubernetes_of_ai_age.Workflow.React.{AgentResult}
use the_kubernetes_of_ai_age.Workflow.React.Exec
use the_kubernetes_of_ai_age.Workflow.React.Exec.{Log, ok, err, called_llm, executed_tool}
use the_kubernetes_of_ai_age.Workflow.React.Loop.{LoopState, Flow, go_on, finished}

-- How often the model was called.
abbrev pub llm_calls : Log → ℕ
llm_calls [] = 0
llm_calls (called_llm n ms ts ∷ log) = suc (llm_calls log)
llm_calls (_ ∷ log) = llm_calls log

-- The tool calls that the activity `executeTool` was asked for, newest first, each as a text of its tool
-- and its arguments. How often Temporal retries an activity is no part of the log.
abbrev pub executed : (Json → String) → Log → List String
executed stringify [] = []
executed stringify (executed_tool n tool args ip ∷ log) =
    Prim.Native.String.◌++◌ tool (Prim.Native.String.◌++◌ "::" (stringify args))
    ∷ executed stringify log
executed stringify (_ ∷ log) = executed stringify log

abbrev pub all_new : List String → Bool
all_new [] = true
all_new (k ∷ ks) = not (exists (λ j. str_eq j k) ks) && all_new ks

-- The state of the loop agrees with the log; `spare` passes have not recorded a tool call.
pub record Agrees (stringify : Json → String) (spare : ℕ) (st : LoopState) (log : Log)
    : Type 0 where
  pub counted : llm_calls log ≡ st.current_iteration
  pub recorded : length st.tool_calls + spare ≤ st.current_iteration
  pub seen : executed stringify log ≡ st.seen_tool_calls
  pub distinct : all_new (executed stringify log) ≡ true

pub record IsLimited (stringify : Json → String) (n : ℕ) (log : Log) : Type 0 where
  pub few : llm_calls log ≤ n
  pub distinct : all_new (executed stringify log) ≡ true

pub record IsResult (stringify : Json → String) (n : ℕ) (r : AgentResult) (log : Log) : Type 0 where
  pub counted : llm_calls log ≡ r.iterations
  pub within : r.iterations ≤ n
  pub recorded : length r.tool_calls ≤ r.iterations
  pub distinct : all_new (executed stringify log) ≡ true

-- What a pass, or several, leaves behind.
abbrev pub Pass : (Json → String) → ℕ → Exec.Exec Flow → Type 0
Pass stringify n (ok (go_on st) log) = Agrees stringify 0 st log × (st.current_iteration ≡ n)
Pass stringify n (ok (finished r) log) = IsResult stringify n r log
Pass stringify n (err e log) = IsLimited stringify n log
