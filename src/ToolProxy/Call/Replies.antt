-- ===== src/ToolProxy/Call/Replies.antt =====
-- execution-plane/tool-proxy/src/index.ts: what the replies of `CallTool` say of the requests sent.
use the_kubernetes_of_ai_age.Common.{
  ℕ, ◌≤◌, ◌<◌, String, none, some, List, [], ◌∷◌, ◌≢◌, if_rule, ◌≡◌, refl, arith,
}
use the_kubernetes_of_ai_age.Common.Json
use the_kubernetes_of_ai_age.Common.Text.{slice_to}
use the_kubernetes_of_ai_age.Shared.RateLimiter.{RateLimiter, Answer, allowed, limited, check}
use the_kubernetes_of_ai_age.ToolProxy.Call.{
  Reply, Audit, error_error, reply_only, succeeded, settle, Done, send, dispatch, admitted,
  rate_key, call_tool,
}
use the_kubernetes_of_ai_age.ToolProxy.Fetch.{Outcome, responds, fails, fetch_with_retry}
use the_kubernetes_of_ai_age.ToolProxy.Fetch.Laws.{sent_count, fetch_with_retry-le}
use the_kubernetes_of_ai_age.ToolProxy.Prepare.{
  Env, Call, HttpRequest, scan_for_pii, Guarded, refuse, pass, prepare,
}
use the_kubernetes_of_ai_age.ToolProxy.Urls.{Lookup, registered, inherited, unknown}

-- A reply of success with the text `message` answers a request.
pub record IsAnswered (fetch : HttpRequest → ℕ → Outcome) (d : Done) (message : String)
    : Type 0 where
  pub request : HttpRequest
  pub status : ℕ
  pub body : String
  pub sent : d.request ≡ some request
  pub outcome : (fetch_with_retry 3 (fetch request)).1 ≡ responds status (some body)
  pub lower : 200 ≤ status
  pub upper : status < 300
  pub text : message ≡ slice_to 10000 body

-- What was sent, and how often.
abbrev pub IsCounted : Done → Type 0
IsCounted d = (sent_count d.steps ≤ 4) × (d.request ≡ none → d.steps ≡ [])

module _ (env : Env) (fetch : HttpRequest → ℕ → Outcome) (call : Call) where
  abbrev Fits : Done → Type 0
  Fits d =
      ((message : String) → d.reply ≡ succeeded message → IsAnswered fetch d message) × IsCounted d

  settle-succeeded :
      (o : Outcome) (message : String)
      → (settle call o).0 ≡ succeeded message
      → (status : ℕ) × (body : String) × (o ≡ responds status (some body))
        × (200 ≤ status)
        × (status < 300)
        × (message ≡ slice_to 10000 body)
  unfolding settle
  settle-succeeded (fails name text) message h = absurd (cc)
  settle-succeeded (responds status none) message h = absurd (ground (arith, h))
  settle-succeeded (responds status (some body)) message h =
      (status, body, refl, ground (arith, h), ground (arith, h), ground (arith, h))

  replied-Fits :
      (l : RateLimiter) (audits : List Audit) (reply : Reply)
      → ((message : String) → reply ≢ succeeded message)
      → Fits (record (reply_only l reply) { audits = audits })
  replied-Fits l audits reply n = (λ message h. absurd (n message h), (omega arith, λ h. refl))

  send-Fits : (l : RateLimiter) (p : Guarded HttpRequest) → Fits (send fetch call l p)
  send-Fits l (refuse e) = replied-Fits l [] _ (λ message h. cc)
  send-Fits l (pass r) = (
    λ message h.
        let (status, body, o, a, b, t) =
          settle-succeeded (fetch_with_retry 3 (fetch r)).1 message h in
        record {
          request = r;
          status = status;
          body = body;
          sent = refl;
          outcome = o;
          lower = a;
          upper = b;
          text = t;
        },
    ((fetch_with_retry-le (fetch r) 3).0, λ h. absurd (cc)),
  )

  dispatch-Fits : (l : RateLimiter) (k : Lookup) → Fits (dispatch env fetch call l k)
  unfolding dispatch
  dispatch-Fits l unknown = replied-Fits l [] _ (λ message h. cc)
  dispatch-Fits l inherited =
      if_rule {A = Done} Fits (scan_for_pii env (Json.object call.args))
        (λ e. replied-Fits l [] _ (λ message h. cc))
        (λ e. replied-Fits l (error_error ∷ []) _ (λ message h. cc))
  dispatch-Fits l (registered config) =
      if_rule {A = Done} Fits (scan_for_pii env (Json.object call.args))
        (λ e. replied-Fits l [] _ (λ message h. cc)) (λ e. send-Fits l (prepare env call config))

  admitted-Fits : (a : RateLimiter × Answer) → Fits (admitted env fetch call a)
  admitted-Fits (l, limited wait) = replied-Fits l [] _ (λ message h. cc)
  admitted-Fits (l, allowed) = dispatch-Fits l _

-- A call succeeds only where a request was sent and the last attempt to send it was answered with a
-- status from 200 to 299, and the message is the start of that answer's body.
pub call_tool-IsAnswered :
    (env : Env) (fetch : HttpRequest → ℕ → Outcome) (now : ℕ) (call : Call) (l : RateLimiter)
    (message : String)
    → (call_tool env fetch now call l).reply ≡ succeeded message
    → IsAnswered fetch (call_tool env fetch now call l) message
unfolding call_tool
call_tool-IsAnswered env fetch now call l =
    (admitted-Fits env fetch call (check now (rate_key call) l)).0

-- A call makes at most four attempts to send its request, and none where there is no request.
pub call_tool-IsCounted :
    (env : Env) (fetch : HttpRequest → ℕ → Outcome) (now : ℕ) (call : Call) (l : RateLimiter)
    → IsCounted (call_tool env fetch now call l)
unfolding call_tool
call_tool-IsCounted env fetch now call l =
    (admitted-Fits env fetch call (check now (rate_key call) l)).1
