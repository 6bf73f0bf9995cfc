-- ===== src/ToolProxy/Call/Safety.antt =====
-- execution-plane/tool-proxy/src/index.ts: what holds of every request that `CallTool` sends.
use the_kubernetes_of_ai_age.Common.{
  ℕ, String, true, false, Option, none, some, ◌≡◌, refl, sym, ◌∙◌, arith, Bool-cases, ◌⊎◌, inl, inr,
  str_eq,
}
use the_kubernetes_of_ai_age.Common.Json.{Json, member}
use the_kubernetes_of_ai_age.Shared.RateLimiter.{RateLimiter, Answer, allowed, limited, check}
use the_kubernetes_of_ai_age.ToolProxy.Args.{is_truthy, validate_sandbox_args}
use the_kubernetes_of_ai_age.ToolProxy.Call.{send, dispatch, admitted, rate_key, call_tool}
use the_kubernetes_of_ai_age.ToolProxy.Fetch.{Outcome}
use the_kubernetes_of_ai_age.ToolProxy.Ipv4.{is_allowed_sandbox_ip}
use the_kubernetes_of_ai_age.ToolProxy.Prepare.{
  Env, Call, HttpRequest, Failure, scan_for_pii, Guarded, refuse, pass, as_text, has_placeholder,
  substitute, add_query, sandbox_url, route, base_headers, build, prepare,
}
use the_kubernetes_of_ai_age.ToolProxy.Urls.{
  ToolConfig, Lookup, registered, inherited, unknown, tool_registry, is_sandbox_tool,
  is_blocked_url, is_allowed_web_fetch_host,
}

abbrev pub url_argument : Call → Option Json
url_argument call = member "url" (some (Json.object call.args))

-- The request of a tool that runs in a sandbox.
pub record IsContained (env : Env) (call : Call) (r : HttpRequest) : Type 0 where
  pub url : r.url ≡ sandbox_url call.sandbox_ip
  pub address :
      is_allowed_sandbox_ip env.other_number
        (env.variables "SANDBOX_IP_ALLOWLIST_CIDRS")
        call.sandbox_ip
      ≡ true
  pub args : validate_sandbox_args call.tool_name (Json.object call.args) ≡ none
  pub headers : r.headers ≡ base_headers

-- The URL that a page is fetched from.
pub record IsPublic (env : Env) (call : Call) : Type 0 where
  pub is_open : is_blocked_url env.parse_url (as_text env (url_argument call)) ≡ false
  pub host :
      str_eq call.tool_name "web_fetch" ≡ true
      → is_allowed_web_fetch_host env.parse_url (as_text env (url_argument call)) ≡ true

pub record IsSafe (env : Env) (call : Call) (config : ToolConfig) (r : HttpRequest) : Type 0 where
  pub registry : tool_registry env.variables call.tool_name ≡ registered config
  pub no_pii : scan_for_pii env (Json.object call.args) ≡ false
  pub no_redirect : r.redirect ≡ "manual"
  pub sandbox : is_sandbox_tool call.tool_name ≡ true → IsContained env call r
  pub page :
      has_placeholder config.endpoint ≡ true
      → is_truthy (url_argument call) ≡ true
      → IsPublic env call

Guarded-cases :
    {A : Type 0} (g : Guarded A) → ((e : Failure) × (g ≡ refuse e)) ⊎ ((a : A) × (g ≡ pass a))
Guarded-cases (refuse e) = inl (e, refl)
Guarded-cases (pass a) = inr (a, refl)

refuse≢pass : {A : Type 0} (e : Failure) (a : A) → ◌≡◌ {A = Guarded A} (refuse e) (pass a) → ⊥
refuse≢pass e a h = cc

module _ (env : Env) (call : Call) (config : ToolConfig) where
  substitute-IsPublic :
      (url : String)
      → substitute env call config ≡ pass url
      → has_placeholder config.endpoint ≡ true
      → is_truthy (url_argument call) ≡ true
      → IsPublic env call
  unfolding substitute
  substitute-IsPublic url e p t = ground arith

  route-sandbox :
      (url target : String)
      → route env call url ≡ pass target
      → is_sandbox_tool call.tool_name ≡ true
      → (target ≡ sandbox_url call.sandbox_ip)
        × (is_allowed_sandbox_ip env.other_number
              (env.variables "SANDBOX_IP_ALLOWLIST_CIDRS")
              call.sandbox_ip
            ≡ true)
  unfolding route
  route-sandbox url target e s = ground arith

  build-sandbox :
      (url : String) (r : HttpRequest)
      → build env call config url ≡ pass r
      → is_sandbox_tool call.tool_name ≡ true
      → (r.url ≡ url)
        × (r.headers ≡ base_headers)
        × (validate_sandbox_args call.tool_name (Json.object call.args) ≡ none)
  unfolding build
  build-sandbox url r e s = ground arith

  build-redirect :
      (url : String) (r : HttpRequest) → build env call config url ≡ pass r → r.redirect ≡ "manual"
  unfolding build
  build-redirect url r e = ground arith

  prepare-stages :
      (r : HttpRequest)
      → prepare env call config ≡ pass r
      → (url : String) × (target : String) × (substitute env call config ≡ pass url)
        × (route env call (add_query env call config url) ≡ pass target)
        × (build env call config target ≡ pass r)
  unfolding prepare
  prepare-stages r e = elim (Guarded-cases (substitute env call config)) [
    | inl (f, s) ↦ absurd (refuse≢pass f r (sym (rw (s, prepare) refl) ∙ e))
    | inr (url, s) ↦ elim (Guarded-cases (route env call (add_query env call config url))) [
      | inl (f, t) ↦ absurd (refuse≢pass f r (sym (rw (s, prepare) (rw (t) refl)) ∙ e))
      | inr (target, t) ↦ (url, target, s, t, sym (rw (s, prepare) (rw (t) refl)) ∙ e)
    ]
  ]

  prepare-IsSafe :
      (r : HttpRequest)
      → prepare env call config ≡ pass r
      → tool_registry env.variables call.tool_name ≡ registered config
      → scan_for_pii env (Json.object call.args) ≡ false
      → IsSafe env call config r
  prepare-IsSafe r e g p =
      let (url, target, s, t, b) = prepare-stages r e in
      record {
        registry = g;
        no_pii = p;
        no_redirect = build-redirect target r b;
        sandbox = λ x.
            let routed = route-sandbox _ target t x in
            let built = build-sandbox target r b x in
            record {
              url = built.0 ∙ routed.0;
              address = routed.1;
              args = built.2;
              headers = built.1;
            };
        page = substitute-IsPublic url s;
      }

module _ (env : Env) (fetch : HttpRequest → ℕ → Outcome) (call : Call) (l : RateLimiter) where
  send-request :
      (p : Guarded HttpRequest) (r : HttpRequest)
      → (send fetch call l p).request ≡ some r
      → p ≡ pass r
  send-request (refuse e) r h = absurd (cc)
  send-request (pass q) r h = cc

  dispatch-request :
      (k : Lookup) (r : HttpRequest)
      → (dispatch env fetch call l k).request ≡ some r
      → (config : ToolConfig) × (k ≡ registered config)
        × (scan_for_pii env (Json.object call.args) ≡ false)
        × (prepare env call config ≡ pass r)
  unfolding dispatch
  dispatch-request unknown r h = absurd (cc)
  dispatch-request inherited r h = absurd (ground arith)
  dispatch-request (registered config) r h =
      elim (Bool-cases (scan_for_pii env (Json.object call.args))) [
        | inl e ↦ absurd (ground (arith, h, e))
        | inr e ↦ (config, refl, e, send-request _ r (rw (e, dispatch) at h))
      ]

  admitted-request :
      (a : RateLimiter × Answer) (r : HttpRequest)
      → (admitted env fetch call a).request ≡ some r
      → (dispatch env fetch call a.0 (tool_registry env.variables call.tool_name)).request ≡ some r
  admitted-request (l, limited wait) r h = absurd (cc)
  admitted-request (l, allowed) r h = h

-- Every request that is sent belongs to a tool of the registry and to arguments with no personal data,
-- and follows no redirect. That of a tool that runs in a sandbox goes to the caller's address, which is
-- allowed, with arguments that are valid and with no credentials. Where the tool's endpoint has a
-- placeholder and the arguments a URL for it, that URL is not blocked, and the host of a page to fetch
-- is one of those allowed.
pub request-IsSafe :
    (env : Env) (fetch : HttpRequest → ℕ → Outcome) (now : ℕ) (call : Call) (l : RateLimiter)
    (r : HttpRequest)
    → (call_tool env fetch now call l).request ≡ some r
    → (config : ToolConfig) × IsSafe env call config r
unfolding call_tool
request-IsSafe env fetch now call l r h =
    let a = check now (rate_key call) l in
    let (config, g, p, e) =
      dispatch-request env fetch call a.0 _ r (admitted-request env fetch call l a r h) in
    (config, prepare-IsSafe env call config r e g p)
