-- ===== src/Workflow/React/Exec.antt =====
-- The workflow's effects: an exception, and a log of what was asked of the world, newest first.
use the_kubernetes_of_ai_age.Common.{ℕ, ◌≡◌, refl, String, Option, none, some, List, ◌∷◌}
use the_kubernetes_of_ai_age.Common.Json.{Json}
use the_kubernetes_of_ai_age.Workflow.React.{
  Message, Status, Report, Attempt, returns, throws, AgentResult, Activities,
}

pub data LastAction : Type 0 where
  starting admission_check policy_evaluation create_sandbox was_cancelled : LastAction
  llm_call llm_error : ℕ → LastAction
  budget_was_exceeded gave_final_answer reached_max_iterations : LastAction
  called_tool failed_tool : String → LastAction

pub data Memory : Type 0 where
  execution_result : Memory
  iteration : ℕ → Memory

pub data Action : Type 0 where
  last_action : LastAction → Action
  observed : Report → Action
  asked_admission asked_policy asked_sandbox : Action
  -- the iteration, the conversation so far and the tools on offer
  called_llm : ℕ → List Message → List String → Action
  -- the iteration, the tool, the arguments and the sandbox's address
  executed_tool : ℕ → String → Json → String → Action
  persisted : Memory → Action
  terminated_sandbox : String → Option Status → Action
  reported_outcome : AgentResult → Action

abbrev pub Log : Type 0
Log = List Action

pub data Exec {ℓ} (A : Type ℓ) : Type ℓ where
  ok : A → Log → Exec A
  err : String → Log → Exec A

abbrev pub M {ℓ} : Type ℓ → Type ℓ
M A = Log → Exec A

infixl 5 ◌>>=◌ ◌>>◌
abbrev pub ◌>>=◌ {ℓ κ} : {A : Type ℓ} {B : Type κ} → M A → (A → M B) → M B
◌>>=◌ m f log = elim (m log) [ ok a log' ↦ f a log' | err e log' ↦ err e log' ]

abbrev pub ◌>>◌ {ℓ} : {B : Type ℓ} → M (Unit {0}) → M B → M B
m >> k = m >>= λ _. k

abbrev pub return {ℓ} : {A : Type ℓ} → A → M A
return a log = ok a log

abbrev pub note : Action → M (Unit {0})
note a log = ok tt (a ∷ log)

-- An activity that was asked for, with its answer.
abbrev pub ask {ℓ} : {A : Type ℓ} → Action → Attempt A → M A
ask a (returns x) log = ok x (a ∷ log)
ask a (throws e) log = err e (a ∷ log)

-- The same inside `try`: the answer is handed on as a value.
abbrev pub attempt {ℓ} : {A : Type ℓ} → Action → Attempt A → M (Attempt A)
attempt a r log = ok r (a ∷ log)

abbrev pub raise_if : Option String → Log → Exec (Unit {0})
raise_if none log = ok tt log
raise_if (some e) log = err e log

-- `await recordObservability(…)`
abbrev pub observe : Activities → Report → M (Unit {0})
observe env r log = raise_if (env.record_observability r) (observed r ∷ log)

abbrev pub log_of {ℓ} : {A : Type ℓ} → Exec A → Log
log_of (ok a log) = log
log_of (err e log) = log

-- To prove something of a `recordObservability` and what follows: it returns, or it throws.
pub observe_rule {ℓ κ} :
    {B : Type ℓ} (P : Exec B → Type κ) (env : Activities) (r : Report) (f : Unit {0} → M B)
    (log : Log)
    → P (f tt (observed r ∷ log))
    → ((m : String) → P (err m (observed r ∷ log)))
    → P ((observe env r >>= f) log)
observe_rule P env r f log good bad =
    elim (env.record_observability r)
      as (λ o. P (elim (raise_if o (observed r ∷ log)) [ ok a l ↦ f a l | err e l ↦ err e l ])) [
        | none ↦ good
        | some m ↦ bad m
      ]

pub ask_rule {ℓ κ μ} :
    {A : Type ℓ} {B : Type κ} (P : Exec B → Type μ) (act : Action) (a : Attempt A) (f : A → M B)
    (log : Log)
    → ((x : A) → a ≡ returns x → P (f x (act ∷ log)))
    → ((e : String) → P (err e (act ∷ log)))
    → P ((ask act a >>= f) log)
ask_rule P act (returns x) f log good bad = good x refl
ask_rule P act (throws e) f log good bad = bad e
