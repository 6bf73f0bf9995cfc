-- ===== src/ToolProxy/Call.antt =====
-- execution-plane/tool-proxy/src/index.ts: the handler `CallTool`. Latencies and log lines are left
-- out.
pub mod Safety
pub mod Replies
pub mod Rates
use the_kubernetes_of_ai_age.Common.{
  ℕ, ◌+◌, ◌-◌, ◌/◌, String, Bool, true, false, not, ◌&&◌, ◌||◌, Option, none, some, List, [], ◌∷◌,
  ◌++◌, if◌then◌else◌, ltb, leb, str_eq, map, keep, exists,
}
use the_kubernetes_of_ai_age.Common.Json
use the_kubernetes_of_ai_age.Common.Json.{Json, Fields, member}
use the_kubernetes_of_ai_age.Common.Maps
use the_kubernetes_of_ai_age.Common.Text.{contains, replace_first, slice_to}
use the_kubernetes_of_ai_age.Shared.Budget.{extract_namespace}
use the_kubernetes_of_ai_age.Shared.RateLimiter.{RateLimiter, Answer, allowed, limited, check}
use the_kubernetes_of_ai_age.ToolProxy.Ipv4.{is_allowed_sandbox_ip}
use the_kubernetes_of_ai_age.ToolProxy.Args.{is_truthy, validate_sandbox_args}
use the_kubernetes_of_ai_age.ToolProxy.Fetch.{Outcome, responds, fails, Step, fetch_with_retry}
use the_kubernetes_of_ai_age.ToolProxy.Urls.{
  Url, ToolConfig, or_text, Lookup, registered, inherited, unknown, tool_registry, is_sandbox_tool,
  is_blocked_url, is_allowed_web_fetch_host, inject_credentials,
}
use the_kubernetes_of_ai_age.ToolProxy.Prepare.{
  Env, Call, HttpRequest, Failure, unknown_tool, redirect_refused, upstream_returned,
  execution_failed, scan_for_pii, detected_pii_patterns, Guarded, refuse, pass, prepare,
}

-- What the callback is given: an error of gRPC, or a response.
pub data Reply : Type 0 where
  resource_exhausted : Option ℕ → Reply
  pii_violation : String → List String → Reply
  failed : Failure → Reply
  succeeded : String → Reply

-- The audit entries that the handler asks for: the tool call with its severity and result.
pub data Audit : Type 0 where
  info_allowed : Audit
  info_error : Audit
  error_error : Audit

abbrev pub deliver : Call → Option String → Reply
deliver call none = failed (execution_failed call.tool_name)
deliver call (some body) = succeeded (slice_to 10000 body)

abbrev pub delivered : Option String → List Audit
delivered none = error_error ∷ []
delivered (some body) = info_allowed ∷ []

-- The reply to the outcome of the last attempt, and the audit entries.
unfoldable pub settle : Call → Outcome → Reply × List Audit
unfolding slice_to
settle call (fails name message) = (failed (execution_failed call.tool_name), error_error ∷ [])
settle call (responds status body) =
    if leb 300 status && ltb status 400
    then (failed (redirect_refused status), [])
    else if leb 200 status && ltb status 300
    then (deliver call body, delivered body)
    else (failed (upstream_returned status), info_error ∷ [])

-- What a call did: the limiter after it, the request with the steps of the attempts to send it, the
-- audit entries, and the reply.
pub record Done : Type 0 where
  pub limiter : RateLimiter
  pub request : Option HttpRequest
  pub steps : List Step
  pub audits : List Audit
  pub reply : Reply

abbrev pub reply_only : RateLimiter → Reply → Done
reply_only l reply = record { limiter = l; request = none; steps = []; audits = []; reply = reply }

abbrev pub send : (HttpRequest → ℕ → Outcome) → Call → RateLimiter → Guarded HttpRequest → Done
send fetch call l (refuse e) = reply_only l (failed e)
send fetch call l (pass r) =
    let sent = fetch_with_retry 3 (fetch r) in
    let end = settle call sent.1 in
    record { limiter = l; request = some r; steps = sent.0; audits = end.1; reply = end.0 }

-- The part of the handler behind the rate limit.
unfoldable pub dispatch : Env → (HttpRequest → ℕ → Outcome) → Call → RateLimiter → Lookup → Done
dispatch env fetch call l unknown = reply_only l (failed (unknown_tool call.tool_name))
dispatch env fetch call l inherited =
    if scan_for_pii env (Json.object call.args)
    then (reply_only l
        (pii_violation call.tool_name (detected_pii_patterns env (Json.object call.args))))
    else record (reply_only l (failed (execution_failed call.tool_name))) {
      audits = error_error ∷ [];
    }
dispatch env fetch call l (registered config) =
    if scan_for_pii env (Json.object call.args)
    then (reply_only l
        (pii_violation call.tool_name (detected_pii_patterns env (Json.object call.args))))
    else send fetch call l (prepare env call config)

abbrev pub colon : String → String → String
colon s t = Prim.Native.String.◌++◌ s (Prim.Native.String.◌++◌ ":" t)

abbrev pub agent_key : Call → String
agent_key call = colon (extract_namespace call.agent_id) (colon call.agent_id call.tool_name)

abbrev pub user_key : Call → Option String → String
user_key call none = agent_key call
user_key call (some u) =
    if str_eq u "" then agent_key call else colon "user" (colon u call.tool_name)

unfoldable pub rate_key : Call → String
unfolding extract_namespace
rate_key call = user_key call call.user_id

-- Whole seconds, rounded up.
abbrev pub seconds : Option ℕ → Option ℕ
seconds none = none
seconds (some ms) = some ((ms + 999) / 1000)

abbrev pub admitted : Env → (HttpRequest → ℕ → Outcome) → Call → RateLimiter × Answer → Done
admitted env fetch call (l, limited wait) = reply_only l (resource_exhausted (seconds wait))
admitted env fetch call (l, allowed) =
    dispatch env fetch call l (tool_registry env.variables call.tool_name)

unfoldable pub call_tool : Env → (HttpRequest → ℕ → Outcome) → ℕ → Call → RateLimiter → Done
unfolding dispatch rate_key check
call_tool env fetch now call l = admitted env fetch call (check now (rate_key call) l)
