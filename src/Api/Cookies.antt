-- ===== src/Api/Cookies.antt =====
-- control-plane/api-server/src/auth/routes.ts: the tokens that a request carries, in its headers. What
-- `decodeURIComponent` gives is a parameter, `none` where it throws; `none` of a list of cookies is that
-- error.
use Prim.Native.Char.{code}
use text.Mathlib.Text.{starts_with}
use the_kubernetes_of_ai_age.Common.{
  String, Option, none, some, List, [], ◌∷◌, if◌then◌else◌, ◌==◌, str_eq,
}
use the_kubernetes_of_ai_age.Common.Maps
use the_kubernetes_of_ai_age.Common.Text.{split, trim, without}

pub record Headers : Type 0 where
  pub authorization : Option String
  pub cookie : Option String

-- The texts before and after the first "=", if there is one.
unfoldable pub cut : String → Option (String × String)
cut String.[] = none
cut (String.◌∷◌ c s) =
    let rest = cut s in
    if code c == b'='
    then some ("", s)
    else elim rest [ none ↦ none | some p ↦ some (String.◌∷◌ c p.0, p.1) ]

abbrev pub put : String → Option String → List (String × String) → Option (List (String × String))
put key none m = none
put key (some v) m = some (Maps.set key v m)

abbrev pub add_cookie :
    (String → Option String)
    → Option (String × String)
    → List (String × String)
    → Option (List (String × String))
add_cookie decode none m = some m
add_cookie decode (some (key, v)) m =
    if str_eq (trim key) "" then some m else put (trim key) (decode (trim v)) m

-- The loop over the pairs, which stops at the first error.
unfoldable pub add_cookies :
    (String → Option String)
    → List String
    → List (String × String)
    → Option (List (String × String))
unfolding cut trim Maps.set
add_cookies decode [] m = some m
add_cookies decode (pair ∷ pairs) m = elim (add_cookie decode (cut pair) m) [
  | none ↦ none
  | some m' ↦ add_cookies decode pairs m'
]

abbrev pub parse_header : (String → Option String) → Option String → Option (List (String × String))
parse_header decode none = some []
parse_header decode (some header) = add_cookies decode (split b';' header) []

unfoldable pub parse_cookies : (String → Option String) → Headers → Option (List (String × String))
unfolding add_cookies split
parse_cookies decode h = parse_header decode h.cookie

-- The cookie with this name, if the cookies can be read.
unfoldable pub cookie : String → Option (List (String × String)) → Option (Option String)
unfolding Maps.get
cookie name none = none
cookie name (some m) = some (Maps.get name m)

unfoldable pub extract_refresh_token : (String → Option String) → Headers → Option (Option String)
unfolding parse_cookies cookie
extract_refresh_token decode h = cookie "egaop_refresh" (parse_cookies decode h)

-- What follows "Bearer ".
abbrev pub bearer : Option String → Option String
bearer none = none
bearer (some s) = if starts_with s "Bearer " then some (without 7 s) else none

abbrev pub or_cookie : Option (Option String) → Option String → Option (Option String)
or_cookie c none = c
or_cookie c (some token) = some (some token)

unfoldable pub extract_token_from_request :
    (String → Option String) → Headers → Option (Option String)
unfolding parse_cookies cookie
extract_token_from_request decode h =
    or_cookie (cookie "egaop_token" (parse_cookies decode h)) (bearer h.authorization)

-- A text that is empty counts as none.
abbrev pub filled : Option String → Option String
filled none = none
filled (some s) = if str_eq s "" then none else some s

-- The token that `authenticate` reads, which falls back to the cookie also where the header's is empty.
unfoldable pub presented_token : (String → Option String) → Headers → Option (Option String)
unfolding parse_cookies cookie
presented_token decode h =
    or_cookie (cookie "egaop_token" (parse_cookies decode h)) (filled (bearer h.authorization))
