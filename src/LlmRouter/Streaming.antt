-- ===== src/LlmRouter/Streaming.antt =====
-- execution-plane/llm-router/src/index.ts: `streamLLMWithFallback`. `stream` is what the generator of a
-- provider does for a model when it is run to its end: the chunks that it yields, and the error that it
-- throws after them, if any. The client is taken to read the whole stream.
pub mod Chunks
use the_kubernetes_of_ai_age.Common.{
  ℕ, String, Bool, true, false, ◌||◌, Option, none, some, List, [], ◌∷◌, ◌++◌, if◌then◌else◌, ◌==◌,
}
use the_kubernetes_of_ai_age.LlmRouter.Fallback.{
  Provider, detect_provider, fallback_chain, Thrown, status, is_skipped, models,
}

-- How the stream ends: its end, LLM400Error, LLMAuthError, an error of a provider thrown again, or the
-- error for an exhausted chain.
pub data Ending : Type 0 where
  completed : Ending
  bad_request : ℕ → String → Ending
  auth_failed : String → Ending
  throws : Thrown → Ending
  exhausted : Ending

-- The `catch`: what it throws, or `none` where the loop goes on.
unfoldable pub catch : String → Thrown → Option Ending
catch model e =
    if status e == 400 || status e == 422
    then some (bad_request (status e) model)
    else if status e == 401 || status e == 403
    then some (auth_failed model)
    else none

-- `throw lastErr ?? new Error(...)`
abbrev pub give_up : Option Thrown → Ending
give_up none = exhausted
give_up (some e) = throws e

-- What one pass of the loop yields, and whether the stream ends with it.
pub data Pass : Type 0 where
  ends : Ending → Pass
  goes_on : Option Thrown → Pass

unfoldable pub settle : String → Option Thrown → Pass
settle model none = ends completed
settle model (some e) = elim (catch model e) [ some ending ↦ ends ending | none ↦ goes_on (some e) ]

module _ {C S : Type 0} (has_openai : Bool)
    (stream : Provider → String → S → List C × Option Thrown × S) where
  unfoldable pub attempt : Option Thrown → String → S → List C × Pass × S
  attempt last_err model s =
      if is_skipped has_openai (detect_provider model)
      then ([], goes_on last_err, s)
      else let run = stream (detect_provider model) model s in (run.0, settle model run.1, run.2)

  unfoldable pub stream_models : Option Thrown → List String → S → List C × Ending × S
  stream_models last_err [] s = ([], give_up last_err, s)
  stream_models last_err (model ∷ rest) s =
      let pass = attempt last_err model s in
      elim pass.1 [
        | ends ending ↦ (pass.0, ending, pass.2)
        | goes_on e ↦
            let later = stream_models e rest pass.2 in (pass.0 ++ later.0, later.1, later.2)
      ]

  unfoldable pub stream_llm_with_fallback : Option String → String → S → List C × Ending × S
  stream_llm_with_fallback env_chain preferred_model s =
      stream_models none (models preferred_model (fallback_chain env_chain)) s
