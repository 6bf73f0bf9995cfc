-- ===== src/ToolProxy/Fetch.antt =====
-- execution-plane/tool-proxy/src/index.ts: `fetchWithRetry`. What the network does at each attempt is a
-- function of the attempt's number; the log holds what was sent and how long the loop slept.
pub mod Laws
use the_kubernetes_of_ai_age.Common.{
  ℕ, zero, suc, ◌+◌, ◌*◌, ◌^◌, String, Bool, true, false, not, ◌&&◌, Option, List, [], ◌∷◌,
  if◌then◌else◌, leb, str_eq,
}

-- A response with its body, which is `none` where reading it fails, or an error with its name and
-- message.
pub data Outcome : Type 0 where
  responds : ℕ → Option String → Outcome
  fails : String → String → Outcome

pub data Step : Type 0 where
  sent : ℕ → Step
  slept : ℕ → Step

-- Is the attempt made again, when another one is left?
abbrev pub is_retryable : Outcome → Bool
is_retryable (responds status body) = leb 500 status && leb status 599
is_retryable (fails name message) = not (str_eq name "AbortError")

-- The loop from `attempt` on, with `left` attempts after it.
unfoldable pub attempts : (ℕ → Outcome) → ℕ → ℕ → List Step × Outcome
attempts fetch zero attempt = (sent attempt ∷ [], fetch attempt)
attempts fetch (suc left) attempt =
    let rest = attempts fetch left (suc attempt) in
    if is_retryable (fetch attempt)
    then (sent attempt ∷ slept (200 * 2 ^ attempt) ∷ rest.0, rest.1)
    else (sent attempt ∷ [], fetch attempt)

unfoldable pub fetch_with_retry : ℕ → (ℕ → Outcome) → List Step × Outcome
unfolding attempts
fetch_with_retry max_retries fetch = attempts fetch max_retries 0
