-- ===== src/ToolProxy/Tests.antt =====
-- execution-plane/tool-proxy/src/index.ts: the theorems at concrete calls.
use the_kubernetes_of_ai_age.Common.{
  ℕ, zero, suc, ◌≤◌, ◌<◌, if◌then◌else◌, String, Bool, true, false, Option, none, some, List, [],
  ◌∷◌, ◌≡◌, refl, arith, length, keep, str_eq,
}
use the_kubernetes_of_ai_age.Common.Json
use the_kubernetes_of_ai_age.Common.Json.{Json, member, find_field}
use the_kubernetes_of_ai_age.Common.Maps
use the_kubernetes_of_ai_age.Common.Text.{
  split, trim, contains, ends_with, replace_first, to_lower, to_upper, slice_to,
}
use the_kubernetes_of_ai_age.Shared.Budget.{extract_namespace}
use the_kubernetes_of_ai_age.Shared.RateLimiter.{new, check}
use the_kubernetes_of_ai_age.Shared.RateLimiter.Window.Times.{times, in_window}
use the_kubernetes_of_ai_age.ToolProxy.Args.{is_truthy, argument, validate_sandbox_args}
use the_kubernetes_of_ai_age.ToolProxy.Call.{dispatch, settle, rate_key, call_tool}
use the_kubernetes_of_ai_age.ToolProxy.Call.Rates.{
  ProxyEvent, called, cleaned, sent_by, sent_by-window-le,
}
use the_kubernetes_of_ai_age.ToolProxy.Call.Replies.{IsAnswered, call_tool-IsAnswered}
use the_kubernetes_of_ai_age.ToolProxy.Call.Safety.{IsSafe, request-IsSafe}
use the_kubernetes_of_ai_age.ToolProxy.Fetch.{
  Outcome, responds, is_retryable, attempts, fetch_with_retry,
}
use the_kubernetes_of_ai_age.ToolProxy.Fetch.Laws.{tries, fetch_with_retry-tries}
use the_kubernetes_of_ai_age.ToolProxy.Ipv4.{
  parse_octet, parse_parts, parse_ipv4, ip_in_cidr, allowed_cidrs, admits, is_allowed_sandbox_ip,
}
use the_kubernetes_of_ai_age.ToolProxy.Ipv4.Dotted.{show, parse_ipv4-dotted}
use the_kubernetes_of_ai_age.ToolProxy.Ipv4.Networks.{
  is_allowed_sandbox_ip-default, is_allowed_sandbox_ip-denied,
}
use the_kubernetes_of_ai_age.ToolProxy.Prepare.{
  Env, Call, HttpRequest, scan_for_pii, substitute, add_query, route, build, prepare,
}
use the_kubernetes_of_ai_age.ToolProxy.Urls.{
  Url, ToolConfig, tool_registry, is_sandbox_tool, is_private_ip, is_blocked_url,
  is_allowed_web_fetch_host, inject_credentials,
}

abbrev no_number : String → Option ℕ
no_number s = none

parse_ipv4-dotted_example : parse_ipv4 "192.168.1.9" ≡ some 3_232_235_785
unfolding show
parse_ipv4-dotted_example =
    parse_ipv4-dotted 192 168 1 9 (omega arith) (omega arith) (omega arith) (omega arith)

is_allowed_sandbox_ip-default_example : is_allowed_sandbox_ip no_number none "172.31.0.2" ≡ true
unfolding show
is_allowed_sandbox_ip-default_example =
    is_allowed_sandbox_ip-default no_number 172 31 0 2 (omega arith) (omega arith) (omega arith)
      (omega arith)

-- Also where the list admits every address.
is_allowed_sandbox_ip-denied_example :
    is_allowed_sandbox_ip no_number (some "0.0.0.0/0") "169.254.169.254" ≡ false
unfolding show
is_allowed_sandbox_ip-denied_example =
    is_allowed_sandbox_ip-denied no_number (some "0.0.0.0/0") 169 254 169 254 (omega arith)
      (omega arith) (omega arith) (omega arith) refl

-- A server error, then an answer.
abbrev recovering : ℕ → Outcome
recovering zero = responds 503 none
recovering (suc n) = responds 200 (some "found")

fetch_with_retry-tries_example :
    (k : ℕ) × (k ≤ 3)
    × (fetch_with_retry 3 recovering ≡ (tries 0 k, recovering k))
    × ((j : ℕ) → j < k → is_retryable (recovering j) ≡ true)
    × (k < 3 → is_retryable (recovering k) ≡ false)
fetch_with_retry-tries_example = fetch_with_retry-tries recovering 3

recovering_steps : fetch_with_retry 3 recovering ≡ (tries 0 1, responds 200 (some "found"))
unfolding fetch_with_retry attempts
recovering_steps = refl

abbrev read_args : Json.Fields
read_args = Json.field "path" (Json.string "src/a.txt") Json.end

-- A deployment with one key, whose only pattern is that of a text "secret".
abbrev has_secret : Json → Bool
has_secret (Json.object (Json.field k (Json.string s) fs)) = str_eq s "secret"
has_secret _ = false

abbrev variables : String → Option String
variables name = if str_eq name "TOOL_DEFAULT_API_KEY" then some "key" else none

abbrev wikipedia : String → Option Url
wikipedia s = some (record { protocol = "https:"; hostname = "en.wikipedia.org" })

abbrev env : Env
env = record {
  variables = variables;
  pii_patterns = ("secret", has_secret) ∷ [];
  parse_url = wikipedia;
  encode_uri_component = λ s. s;
  encode_query = λ ps. "";
  to_string = λ v. "";
  other_number = no_number;
}

abbrev fetch : HttpRequest → ℕ → Outcome
fetch r = recovering

abbrev read_call : Call
read_call = record {
  agent_id = "team/a";
  tool_name = "file_read";
  args = read_args;
  sandbox_ip = "10.1.2.3";
  user_id = none;
}

abbrev page_call : Call
page_call = record {
  agent_id = "team/a";
  tool_name = "web_fetch";
  args = Json.field "url" (Json.string "https://en.wikipedia.org/wiki/Path") Json.end;
  sandbox_ip = "";
  user_id = some "u";
}

abbrev read_request : HttpRequest
read_request = record {
  url = "http://10.1.2.3:8080/exec";
  method = "POST";
  headers = ("Content-Type", "application/json") ∷ ("User-Agent", "EGAOP-Tool-Proxy/1.0") ∷ [];
  body = some (
      Json.object (
        Json.field "tool" (Json.string "file_read")
          (Json.field "args" (Json.object read_args) Json.end)));
  redirect = "manual";
}

abbrev page_request : HttpRequest
page_request = record {
  url = "https://r.jina.ai/http://https://en.wikipedia.org/wiki/Path";
  method = "GET";
  headers =
      ("Content-Type", "application/json")
      ∷ ("User-Agent", "EGAOP-Tool-Proxy/1.0")
      ∷ ("Authorization", "Bearer key")
      ∷ [];
  body = none;
  redirect = "manual";
}

request-IsSafe_example : (config : ToolConfig) × IsSafe env read_call config read_request
unfolding call_tool dispatch settle rate_key extract_namespace check Maps.get Maps.set prepare
    substitute add_query route build is_allowed_sandbox_ip admits allowed_cidrs ip_in_cidr
    parse_ipv4 parse_parts parse_octet split trim contains replace_first slice_to is_sandbox_tool
    scan_for_pii tool_registry validate_sandbox_args argument member find_field is_truthy new
    fetch_with_retry attempts
request-IsSafe_example = request-IsSafe env fetch 5 read_call (new 2 1_000) read_request refl

page_call_request : (call_tool env fetch 5 page_call (new 2 1_000)).request ≡ some page_request
unfolding call_tool dispatch settle rate_key extract_namespace check Maps.get Maps.set prepare
    substitute add_query route build is_blocked_url is_private_ip is_allowed_web_fetch_host
    ends_with to_lower to_upper contains replace_first slice_to is_sandbox_tool scan_for_pii
    tool_registry inject_credentials member find_field is_truthy new fetch_with_retry attempts
page_call_request = refl

call_tool-IsAnswered_example :
    IsAnswered fetch (call_tool env fetch 5 page_call (new 2 1_000)) "found"
unfolding call_tool dispatch settle rate_key extract_namespace check Maps.get Maps.set prepare
    substitute add_query route build is_blocked_url is_private_ip is_allowed_web_fetch_host
    ends_with to_lower to_upper contains replace_first slice_to is_sandbox_tool scan_for_pii
    tool_registry inject_credentials member find_field is_truthy new fetch_with_retry attempts
call_tool-IsAnswered_example = call_tool-IsAnswered env fetch 5 page_call (new 2 1_000) "found" refl

abbrev events : List ProxyEvent
events = called 5 page_call ∷ called 6 page_call ∷ called 7 page_call ∷ cleaned 8 ∷ []

sent_by-window-le_example :
    length
      (keep (in_window 1_000 8) (times "user:u:web_fetch" (sent_by env fetch events (new 2 1_000))))
    ≤ 8
sent_by-window-le_example =
    sent_by-window-le env fetch 2 1_000 events "user:u:web_fetch" 8 (omega arith)
