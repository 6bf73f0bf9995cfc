-- ===== src/LlmRouter/Tests.antt =====
-- execution-plane/llm-router/src/index.ts: the theorems at concrete calls.
use the_kubernetes_of_ai_age.Common.{
  Option, ℕ, String, none, some, List, [], ◌∷◌, true, str_eq, if◌then◌else◌,
}
use the_kubernetes_of_ai_age.LlmRouter.Streaming
use the_kubernetes_of_ai_age.LlmRouter.Streaming.{
  completed, stream_models, stream_llm_with_fallback,
}
use the_kubernetes_of_ai_age.LlmRouter.Streaming.Chunks
use the_kubernetes_of_ai_age.LlmRouter.Streaming.Chunks.{stream_llm_with_fallback-IsExplained}
use the_kubernetes_of_ai_age.LlmRouter.Fallback.{
  Provider, openai, anthropic, ollama, detect_provider, fallback_chain, Thrown, Outcome, answered,
  failed, returns, status, is_refusal, catch, settle, is_skipped, models, attempt, try_models,
  call_llm_with_fallback,
}
use the_kubernetes_of_ai_age.LlmRouter.Fallback.Answers.{
  IsExplained, call_llm_with_fallback-IsExplained,
}

abbrev refused : Thrown
refused = record { name = some "CircuitBreakerOpenError"; status = none; status_code = none }

abbrev overloaded : Thrown
overloaded = record { name = some "Error"; status = some 503; status_code = none }

-- The breaker of Anthropic is open, gpt-4o is overloaded, and any other model answers. The state is the
-- list of the models that were asked, the last one first.
abbrev ask : Provider → String → List String → Outcome ℕ × List String
ask anthropic model asked = (failed refused, model ∷ asked)
ask ollama model asked = (answered 3, model ∷ asked)
ask openai model asked =
    (if str_eq model "gpt-4o" then failed overloaded else answered 7, model ∷ asked)

call_llm_with_fallback-IsExplained_example :
    IsExplained true ask
      ("claude-3-opus" ∷ "gpt-4o" ∷ "gpt-4o-mini" ∷ "gpt-3.5-turbo" ∷ [])
      []
      (returns 7, "gpt-4o-mini" ∷ "gpt-4o" ∷ "claude-3-opus" ∷ [])
unfolding call_llm_with_fallback try_models attempt settle catch is_refusal status is_skipped
    detect_provider models fallback_chain
call_llm_with_fallback-IsExplained_example =
    call_llm_with_fallback-IsExplained true ask none "claude-3-opus" []

-- The generator of Anthropic ends after two chunks with an error, and gpt-4o yields three and ends.
abbrev tell : Provider → String → List String → List ℕ × Option Thrown × List String
tell anthropic model run = (1 ∷ 2 ∷ [], some overloaded, model ∷ run)
tell ollama model run = ([], none, model ∷ run)
tell openai model run = (7 ∷ 8 ∷ 9 ∷ [], none, model ∷ run)

stream_llm_with_fallback-IsExplained_example :
    Chunks.IsExplained true tell
      ("claude-3-opus" ∷ "gpt-4o" ∷ "gpt-4o-mini" ∷ "gpt-3.5-turbo" ∷ [])
      none
      []
      (1 ∷ 2 ∷ 7 ∷ 8 ∷ 9 ∷ [], completed, "gpt-4o" ∷ "claude-3-opus" ∷ [])
unfolding stream_llm_with_fallback stream_models Streaming.attempt Streaming.settle Streaming.catch
    status is_skipped detect_provider models fallback_chain
stream_llm_with_fallback-IsExplained_example =
    stream_llm_with_fallback-IsExplained true tell none "claude-3-opus" []
