-- ===== src/LlmRouter/Fallback.antt =====
-- execution-plane/llm-router/src/index.ts: `callLLMWithFallback`. `fire` is what firing the circuit
-- breaker of a provider does for a model: it changes a state, which holds the breakers and whatever
-- else the providers keep, and answers or throws. The arguments of the request, which are the same for
-- every model, are part of `fire`; messages of errors and log lines are left out.
pub mod Answers
use text.Mathlib.Text.{starts_with}
use the_kubernetes_of_ai_age.Common.{
  ℕ, String, Bool, true, false, not, ◌&&◌, ◌||◌, Option, none, some, List, [], ◌∷◌, if◌then◌else◌,
  ◌==◌, str_eq, keep,
}
use the_kubernetes_of_ai_age.Common.Text.{split}

-- `ModelProvider`
pub data Provider : Type 0 where
  openai : Provider
  anthropic : Provider
  ollama : Provider

unfoldable pub detect_provider : String → Provider
detect_provider model =
    if starts_with model "claude-"
    then anthropic
    else if starts_with model "llama"
        || starts_with model "mixtral"
        || starts_with model "mistral"
        || starts_with model "codellama"
        || starts_with model "phi-"
        || starts_with model "deepseek"
    then ollama
    else openai

-- `FALLBACK_CHAIN`, from the variable LLM_FALLBACK_CHAIN.
unfoldable pub fallback_chain : Option String → List String
fallback_chain none = "gpt-4o" ∷ "gpt-4o-mini" ∷ "gpt-3.5-turbo" ∷ []
fallback_chain (some value) =
    if str_eq value "" then "gpt-4o" ∷ "gpt-4o-mini" ∷ "gpt-3.5-turbo" ∷ [] else split b',' value

-- What the `catch` reads of an error: `none` is `undefined`.
pub record Thrown : Type 0 where
  pub name : Option String
  pub status : Option ℕ
  pub status_code : Option ℕ

pub data Outcome (A : Type 0) : Type 0 where
  answered : A → Outcome A
  failed : Thrown → Outcome A

-- What the call returns or throws: LLM400Error, LLMAuthError, or the error for an exhausted chain.
pub data Final (A : Type 0) : Type 0 where
  returns : A → Final A
  bad_request : ℕ → String → Final A
  auth_failed : String → Final A
  exhausted : Final A

-- `errRecord?.status ?? errRecord?.statusCode ?? 0`
unfoldable pub status : Thrown → ℕ
status e = elim e.status [ some n ↦ n | none ↦ elim e.status_code [ some n ↦ n | none ↦ 0 ] ]

unfoldable pub is_refusal : Option String → Bool
is_refusal none = false
is_refusal (some name) =
    str_eq name "CircuitBreakerOpenError" || str_eq name "BulkheadOverloadError"

-- The `catch`: what it throws, or `none` where the loop goes on. A rate limit and any other error differ
-- in the log line only.
unfoldable pub catch : {A : Type 0} → String → Thrown → Option (Final A)
catch model e =
    if is_refusal e.name
    then none
    else if status e == 400 || status e == 422
    then some (bad_request (status e) model)
    else if status e == 401 || status e == 403
    then some (auth_failed model)
    else none

unfoldable pub settle : {A : Type 0} → String → Outcome A → Option (Final A)
settle model (answered a) = some (returns a)
settle model (failed e) = catch model e

-- `provider` goes through the OpenAI client, which is not configured.
unfoldable pub is_skipped : Bool → Provider → Bool
is_skipped has_openai openai = not has_openai
is_skipped has_openai anthropic = false
is_skipped has_openai ollama = false

unfoldable pub models : String → List String → List String
models preferred_model chain = preferred_model ∷ keep (λ m. not (str_eq m preferred_model)) chain

module _ {A S : Type 0} (has_openai : Bool) (fire : Provider → String → S → Outcome A × S) where
  -- One pass of the loop.
  unfoldable pub attempt : String → S → Option (Final A) × S
  attempt model s =
      if is_skipped has_openai (detect_provider model)
      then (none, s)
      else let asked = fire (detect_provider model) model s in (settle model asked.0, asked.1)

  unfoldable pub try_models : List String → S → Final A × S
  try_models [] s = (exhausted, s)
  try_models (model ∷ rest) s =
      let pass = attempt model s in
      elim pass.0 [ some result ↦ (result, pass.1) | none ↦ try_models rest pass.1 ]

  unfoldable pub call_llm_with_fallback : Option String → String → S → Final A × S
  call_llm_with_fallback env_chain preferred_model s =
      try_models (models preferred_model (fallback_chain env_chain)) s
