-- ===== src/Workflow/React/Sandbox.antt =====
-- The sandbox of a run: that it is created behind both gates, and terminated exactly once.
pub mod Frame
pub mod Ending
pub mod Gates
use the_kubernetes_of_ai_age.Common.{ℕ, zero, suc, ◌+◌, Bool, true, false, String, List, [], ◌∷◌}
use the_kubernetes_of_ai_age.Workflow.React.Exec.{
  Action, Log, last_action, observed, asked_sandbox, called_llm, executed_tool, persisted,
  terminated_sandbox,
}

-- How often a sandbox was asked for.
abbrev pub sandboxes : Log → ℕ
sandboxes [] = 0
sandboxes (asked_sandbox ∷ log) = suc (sandboxes log)
sandboxes (_ ∷ log) = sandboxes log

-- The sandboxes that were terminated, newest first.
abbrev pub terminated : Log → List String
terminated [] = []
terminated (terminated_sandbox id status ∷ log) = id ∷ terminated log
terminated (_ ∷ log) = terminated log

-- Sandboxes asked for, calls of the model and tool calls.
abbrev pub effects : Log → ℕ
effects [] = 0
effects (asked_sandbox ∷ log) = suc (effects log)
effects (called_llm n ms ts ∷ log) = suc (effects log)
effects (executed_tool n key args ip ∷ log) = suc (effects log)
effects (_ ∷ log) = effects log

-- What the loop may do.
abbrev pub is_loop_action : Action → Bool
is_loop_action (last_action a) = true
is_loop_action (observed r) = true
is_loop_action (called_llm n ms ts) = true
is_loop_action (executed_tool n key args ip) = true
is_loop_action (persisted m) = true
is_loop_action _ = false
