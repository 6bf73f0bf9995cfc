-- ===== src/ToolProxy/Urls.antt =====
-- execution-plane/tool-proxy/src/index.ts: the URLs that a tool may be sent to, and the tools. `new URL`
-- is a parameter: `none` where it throws.
use the_kubernetes_of_ai_age.Common.{
  String, Bool, true, false, not, ◌&&◌, ◌||◌, Option, none, some, List, [], ◌∷◌, if◌then◌else◌,
  str_eq, exists,
}
use text.Mathlib.Text.{starts_with}
use the_kubernetes_of_ai_age.Common.Text.{ends_with, contains, to_lower, to_upper}

pub record Url : Type 0 where
  pub protocol : String
  pub hostname : String

pub record ToolConfig : Type 0 where
  pub endpoint : String
  pub method : String

-- A read of a variable of the process, where the empty text counts as absent.
abbrev pub or_text : Option String → String → String
or_text none d = d
or_text (some s) d = if str_eq s "" then d else s

-- TOOL_REGISTRY[tool_name]: an entry, a property that every object inherits, or undefined.
pub data Lookup : Type 0 where
  registered : ToolConfig → Lookup
  inherited : Lookup
  unknown : Lookup

abbrev pub inherited_names : List String
inherited_names =
    "__defineGetter__" ∷ "__defineSetter__" ∷ "__lookupGetter__" ∷ "__lookupSetter__" ∷ "__proto__"
    ∷ "constructor" ∷ "hasOwnProperty" ∷ "isPrototypeOf" ∷ "propertyIsEnumerable" ∷ "toLocaleString"
    ∷ "toString" ∷ "valueOf" ∷ []

abbrev pub config : String → String → Lookup
config endpoint method = registered (record { endpoint = endpoint; method = method })

unfoldable pub tool_registry : (String → Option String) → String → Lookup
tool_registry env tool_name =
    if str_eq tool_name "google_search"
    then config "https://api.serpapi.com/search" "GET"
    else if str_eq tool_name "web_fetch"
    then (config (or_text (env "WEB_FETCH_ENDPOINT_TEMPLATE") "https://r.jina.ai/http://__URL__")
        "GET")
    else if str_eq tool_name "code_interpreter"
    then config "http://localhost:8080/execute" "POST"
    else if str_eq tool_name "file_read"
    then config "http://localhost:8080/read" "GET"
    else if str_eq tool_name "file_write"
    then config "http://localhost:8080/write" "POST"
    else if str_eq tool_name "database_query"
    then config "http://localhost:8080/query" "POST"
    else if exists (str_eq tool_name) inherited_names
    then inherited
    else unknown

abbrev pub sandbox_tools : List String
sandbox_tools = "code_interpreter" ∷ "file_read" ∷ "file_write" ∷ "database_query" ∷ []

unfoldable pub is_sandbox_tool : String → Bool
is_sandbox_tool tool_name = exists (str_eq tool_name) sandbox_tools

abbrev pub allowed_web_fetch_hosts : List String
allowed_web_fetch_hosts =
    "api.serpapi.com" ∷ "r.jina.ai" ∷ "api.openai.com" ∷ "api.anthropic.com" ∷ "en.wikipedia.org"
    ∷ "wiki.wikipedia.org" ∷ []

-- The alternatives of the regular expression of `isPrivateIP`, written out.
abbrev pub private_prefixes : List String
private_prefixes =
    "127." ∷ "10." ∷ "172.16." ∷ "172.17." ∷ "172.18." ∷ "172.19." ∷ "172.20." ∷ "172.21."
    ∷ "172.22." ∷ "172.23." ∷ "172.24." ∷ "172.25." ∷ "172.26." ∷ "172.27." ∷ "172.28." ∷ "172.29."
    ∷ "172.30." ∷ "172.31." ∷ "192.168." ∷ "0." ∷ "localhost" ∷ "::1" ∷ "169.254." ∷ "100.64." ∷ []

unfoldable pub is_private_ip : String → Bool
is_private_ip ip = exists (starts_with ip) private_prefixes || starts_with ip "["

abbrev pub is_internal : String → Bool
is_internal host =
    ends_with (to_lower host) ".internal"
    || ends_with (to_lower host) ".local"
    || contains (to_lower host) "metadata.google.internal"

abbrev pub is_blocked : Option Url → Bool
is_blocked none = true
is_blocked (some u) =
    (not (str_eq u.protocol "http:") && not (str_eq u.protocol "https:"))
    || is_private_ip u.hostname
    || is_internal u.hostname

abbrev pub is_allowed_host : Option Url → Bool
is_allowed_host none = false
is_allowed_host (some u) = exists (str_eq u.hostname) allowed_web_fetch_hosts

unfoldable pub is_blocked_url : (String → Option Url) → String → Bool
unfolding is_private_ip ends_with contains to_lower
is_blocked_url parse_url url = is_blocked (parse_url url)

unfoldable pub is_allowed_web_fetch_host : (String → Option Url) → String → Bool
is_allowed_web_fetch_host parse_url url = is_allowed_host (parse_url url)

abbrev pub bearer : String → List (String × String)
bearer key =
    if str_eq key "" then [] else ("Authorization", Prim.Native.String.◌++◌ "Bearer " key) ∷ []

abbrev pub key_name : String → String
key_name tool_name =
    Prim.Native.String.◌++◌ "TOOL_" (Prim.Native.String.◌++◌ (to_upper tool_name) "_API_KEY")

unfoldable pub inject_credentials : (String → Option String) → String → List (String × String)
unfolding to_upper
inject_credentials env tool_name =
    bearer (or_text (env (key_name tool_name)) (or_text (env "TOOL_DEFAULT_API_KEY") ""))
