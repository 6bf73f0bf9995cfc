-- ===== src/ToolProxy/Args.antt =====
-- execution-plane/tool-proxy/src/index.ts: the checks of a sandbox tool's arguments. The arguments are a
-- JSON value; a number in it is the text that `String` makes of it.
pub mod Paths
use Prim.Native.String
use the_kubernetes_of_ai_age.Common.{
  ℕ, String, Bool, true, false, not, ◌&&◌, ◌||◌, Option, none, some, if◌then◌else◌, ltb, leb, ◌==◌,
  str_eq,
}
use the_kubernetes_of_ai_age.Common.Json
use the_kubernetes_of_ai_age.Common.Json.{Json, member}
use the_kubernetes_of_ai_age.Common.Text.{size, every_char, some_char, contains}

-- Is a value of JSON truthy? Zero and NaN are the numbers that are not.
unfoldable pub is_truthy : Option Json → Bool
is_truthy none = false
is_truthy (some Json.null) = false
is_truthy (some (Json.boolean b)) = b
is_truthy (some (Json.number n)) = not (str_eq n "0" || str_eq n "NaN")
is_truthy (some (Json.string s)) = not (str_eq s "")
is_truthy (some _) = true

-- `v || d`
abbrev pub or_value : Option Json → Json → Json
or_value none d = d
or_value (some v) d = if is_truthy (some v) then v else d

-- A text, where the value is one.
abbrev pub as_string : Json → Option String
as_string (Json.string s) = some s
as_string _ = none

-- `args?.[key] || ""`
unfoldable pub argument : String → Json → Json
argument key args = or_value (member key (some args)) (Json.string "")

-- The class of SAFE_PATH_RE, by the code of a character.
abbrev pub is_path_char : ℕ → Bool
is_path_char c =
    (leb b'a' c && leb c b'z')
    || (leb b'A' c && leb c b'Z')
    || (leb b'0' c && leb c b'9')
    || c == b'_'
    || c == b'/'
    || c == b'.'
    || c == b'-'

-- The class of characters that no query may have.
abbrev pub is_blocked_char : ℕ → Bool
is_blocked_char c =
    c == b';'
    || c == b'&'
    || c == b'|'
    || c == b'`'
    || c == b'$'
    || c == b'('
    || c == b')'
    || c == b'{'
    || c == b'}'
    || c == b'!'
    || c == b'<'
    || c == b'>'

abbrev pub code_error : Option String → Option String
code_error none = some "No code provided"
code_error (some code) =
    if size code == 0
    then some "No code provided"
    else if ltb 10000 (size code)
    then some "Code exceeds 10,000 character limit"
    else none

-- The tests that file_read and file_write share.
abbrev pub path_error : Option String → Option String
path_error none = some "No path provided"
path_error (some p) =
    if str_eq p ""
    then some "No path provided"
    else if not (every_char is_path_char p) || contains p ".."
    then some "Invalid path"
    else none

abbrev pub content_error : Option String → Option String
content_error none = some "Content too large"
content_error (some c) = if ltb 1000000 (size c) then some "Content too large" else none

abbrev pub query_error : Option String → Option String
query_error none = some "No query provided"
query_error (some q) =
    if str_eq q ""
    then some "No query provided"
    else if ltb 10000 (size q)
    then some "Query too long"
    else if some_char is_blocked_char q
    then some "Query contains blocked characters"
    else none

-- The first of two errors.
abbrev pub first_error : Option String → Option String → Option String
first_error none e = e
first_error (some e) _ = some e

-- `none` is `null`: no error.
unfoldable pub validate_sandbox_args : String → Json → Option String
unfolding argument
validate_sandbox_args tool_name args =
    if str_eq tool_name "code_interpreter"
    then (code_error (as_string (or_value (member "code" (some args)) (argument "script" args))))
    else if str_eq tool_name "file_read"
    then path_error (as_string (argument "path" args))
    else if str_eq tool_name "file_write"
    then (first_error (path_error (as_string (argument "path" args)))
        (content_error (as_string (argument "content" args))))
    else if str_eq tool_name "database_query"
    then query_error (as_string (argument "query" args))
    else some (Prim.Native.String.◌++◌ "Unknown tool: " tool_name)
