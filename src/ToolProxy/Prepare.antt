-- ===== src/ToolProxy/Prepare.antt =====
-- execution-plane/tool-proxy/src/index.ts: the part of the handler `CallTool` that makes the HTTP
-- request. `Env` holds what it takes from elsewhere: the variables of the process, the tests that the
-- regular expressions of PII_PATTERNS make of a serialised value, and the platform's functions on URLs.
use the_kubernetes_of_ai_age.Common.{
  ℕ, String, Bool, not, ◌&&◌, Option, none, some, List, [], ◌∷◌, ◌++◌, if◌then◌else◌, str_eq, map,
  keep, exists,
}
use the_kubernetes_of_ai_age.Common.Json
use the_kubernetes_of_ai_age.Common.Json.{Json, Fields, member}
use the_kubernetes_of_ai_age.Common.Maps
use the_kubernetes_of_ai_age.Common.Text.{contains, replace_first}
use the_kubernetes_of_ai_age.ToolProxy.Ipv4.{is_allowed_sandbox_ip}
use the_kubernetes_of_ai_age.ToolProxy.Args.{is_truthy, validate_sandbox_args}
use the_kubernetes_of_ai_age.ToolProxy.Urls.{
  Url, ToolConfig, is_sandbox_tool, is_blocked_url, is_allowed_web_fetch_host, inject_credentials,
}

pub record Env : Type 0 where
  pub variables : String → Option String
  pub pii_patterns : List (String × (Json → Bool))
  pub parse_url : String → Option Url
  pub encode_uri_component : String → String
  pub encode_query : List (String × String) → String
  -- `String(v)` for a value that is no text.
  pub to_string : Json → String
  pub other_number : String → Option ℕ

-- The request, with the user that the metadata names. A field that is not sent is the empty text.
pub record Call : Type 0 where
  pub agent_id : String
  pub tool_name : String
  pub args : Fields
  pub sandbox_ip : String
  pub user_id : Option String

pub record HttpRequest : Type 0 where
  pub url : String
  pub method : String
  pub headers : List (String × String)
  pub body : Option Json
  pub redirect : String

-- The error messages, with what is written into them.
pub data Failure : Type 0 where
  unknown_tool : String → Failure
  private_url : Failure
  host_not_allowed : Failure
  no_sandbox_ip : String → Failure
  sandbox_ip_not_allowed : Failure
  invalid_input : String → Failure
  redirect_refused : ℕ → Failure
  upstream_returned : ℕ → Failure
  execution_failed : String → Failure

unfoldable pub scan_for_pii : Env → Json → Bool
scan_for_pii env v = exists (λ p. p.1 v) env.pii_patterns

unfoldable pub detected_pii_patterns : Env → Json → List String
detected_pii_patterns env v = map (λ p. p.0) (keep (λ p. p.1 v) env.pii_patterns)

-- A stage of the handler: it gives the reply at once, or goes on with a value.
pub data Guarded {ℓ} (A : Type ℓ) : Type ℓ where
  refuse : Failure → Guarded A
  pass : A → Guarded A

infixl 20 ◌>>=◌
abbrev pub ◌>>=◌ {ℓ κ} : {A : Type ℓ} {B : Type κ} → Guarded A → (A → Guarded B) → Guarded B
refuse e >>= f = refuse e
pass a >>= f = f a

abbrev pub as_text : Env → Option Json → String
as_text env none = "undefined"
as_text env (some (Json.string s)) = s
as_text env (some v) = env.to_string v

abbrev pub has_placeholder : String → Bool
has_placeholder url = contains url "__URL__"

-- The URL with the argument `url` in its placeholder.
unfoldable pub substitute : Env → Call → ToolConfig → Guarded String
unfolding contains member is_truthy replace_first
substitute env call config =
    let url = member "url" (some (Json.object call.args)) in
    let target = as_text env url in
    if has_placeholder config.endpoint && is_truthy url
    then (if is_blocked_url env.parse_url target
        then refuse private_url
        else if str_eq call.tool_name "web_fetch"
            && not (is_allowed_web_fetch_host env.parse_url target)
        then refuse host_not_allowed
        else pass (replace_first 7 "__URL__" (env.encode_uri_component target) config.endpoint))
    else pass config.endpoint

-- The arguments that are texts or numbers, in the order of `Object.entries`.
abbrev pub query_params : Env → Fields → List (String × String)
query_params env Json.end = []
query_params env (Json.field k v fs) =
    let rest = query_params env fs in
    elim v [ Json.string s ↦ (k, s) ∷ rest | Json.number n ↦ (k, n) ∷ rest | _ ↦ rest ]

abbrev pub with_key : Call → Option String → List (String × String) → List (String × String)
with_key call none params = params
with_key call (some key) params =
    if str_eq call.tool_name "google_search" && not (str_eq key "")
    then Maps.set "api_key" key params
    else params

abbrev pub append_query : String → String → String
append_query url qs =
    if str_eq qs ""
    then url
    else Prim.Native.String.◌++◌ url
        (Prim.Native.String.◌++◌ (if contains url "?" then "&" else "?") qs)

unfoldable pub add_query : Env → Call → ToolConfig → String → String
unfolding contains Maps.set
add_query env call config url =
    if str_eq config.method "GET" && not (has_placeholder url)
    then (append_query url (
        env.encode_query (
          with_key call (env.variables "TOOL_GOOGLE_SEARCH_API_KEY") (query_params env call.args))))
    else url

abbrev pub sandbox_url : String → String
sandbox_url ip = Prim.Native.String.◌++◌ "http://" (Prim.Native.String.◌++◌ ip ":8080/exec")

-- The URL that is asked: that of the sandbox, for a tool that runs in one.
unfoldable pub route : Env → Call → String → Guarded String
route env call url =
    if is_sandbox_tool call.tool_name
    then (if str_eq call.sandbox_ip ""
        then refuse (no_sandbox_ip call.tool_name)
        else if is_allowed_sandbox_ip env.other_number (env.variables "SANDBOX_IP_ALLOWLIST_CIDRS")
            call.sandbox_ip
        then pass (sandbox_url call.sandbox_ip)
        else refuse sandbox_ip_not_allowed)
    else pass url

abbrev pub base_headers : List (String × String)
base_headers = ("Content-Type", "application/json") ∷ ("User-Agent", "EGAOP-Tool-Proxy/1.0") ∷ []

abbrev pub plain_request : Env → Call → ToolConfig → String → HttpRequest
plain_request env call config url = record {
  url = url;
  method = config.method;
  headers =
      base_headers
      ++ (if is_sandbox_tool call.tool_name
          then []
          else inject_credentials env.variables call.tool_name);
  body = if str_eq config.method "POST" then some (Json.object call.args) else none;
  redirect = "manual";
}

abbrev pub tool_and_args : Call → Json
tool_and_args call = Json.object (
    Json.field "tool" (Json.string call.tool_name)
      (Json.field "args" (Json.object call.args) Json.end))

abbrev pub validated : Call → HttpRequest → Option String → Guarded HttpRequest
validated call r none = pass (record r { method = "POST"; body = some (tool_and_args call) })
validated call r (some e) = refuse (invalid_input e)

-- The request, with the structured body of a tool that runs in a sandbox.
unfoldable pub build : Env → Call → ToolConfig → String → Guarded HttpRequest
build env call config url =
    let r = plain_request env call config url in
    if is_sandbox_tool call.tool_name
    then validated call r (validate_sandbox_args call.tool_name (Json.object call.args))
    else pass r

-- From the registry's entry to the request that is sent.
unfoldable pub prepare : Env → Call → ToolConfig → Guarded HttpRequest
unfolding substitute add_query route build
prepare env call config = do
  url ← substitute env call config
  target ← route env call (add_query env call config url)
  build env call config target
