-- ===== src/Common/Text.antt =====
-- Texts as JavaScript reads them: pieces between separators, digits, white space, lengths in units of
-- UTF-16. A text is a list of characters.
pub mod Dots
use Prim.Native.Nat.{ℕ, zero, suc, ◌+◌, ◌-◌, ◌*◌}
use Prim.Native.Char.{Char, code}
use Prim.Native.String
use Prim.Native.String.{String}
use mathlib.Core.Bool.{Bool, true, false, ◌&&◌, ◌||◌}
use mathlib.Core.List.{List, [], ◌∷◌}
use text.Mathlib.Text.{◌==◌ as str_eq, starts_with}
use the_kubernetes_of_ai_age.Common.Tests.{if◌then◌else◌, ltb, leb, ◌==◌}

abbrev pub push : Char → List String → List String
push c [] = String.◌∷◌ c "" ∷ []
push c (p ∷ ps) = String.◌∷◌ c p ∷ ps

-- `s.split(separator)` for a separator of one character, given by its code.
unfoldable pub split : ℕ → String → List String
split separator String.[] = "" ∷ []
split separator (String.◌∷◌ c s) =
    let rest = split separator s in if code c == separator then "" ∷ rest else push c rest

abbrev pub every_char : (ℕ → Bool) → String → Bool
every_char p String.[] = true
every_char p (String.◌∷◌ c s) = p (code c) && every_char p s

abbrev pub some_char : (ℕ → Bool) → String → Bool
some_char p String.[] = false
some_char p (String.◌∷◌ c s) = p (code c) || some_char p s

abbrev pub is_digit : ℕ → Bool
is_digit c = leb b'0' c && leb c b'9'

abbrev pub decimal_from : ℕ → String → ℕ
decimal_from n String.[] = n
decimal_from n (String.◌∷◌ c s) = decimal_from (n * 10 + (code c - b'0')) s

-- `Number(s)` for a text of digits.
abbrev pub decimal : String → ℕ
decimal s = decimal_from 0 s

-- `s.length`: a character beyond the basic plane takes two units.
abbrev pub size : String → ℕ
size String.[] = 0
size (String.◌∷◌ c s) = size s + (if ltb (code c) 0x10000 then 1 else 2)

-- The white space that `trim` removes.
abbrev is_space : ℕ → Bool
is_space c =
    (leb 9 c && leb c 13)
    || c == 32
    || c == 0xA0
    || c == 0x1680
    || (leb 0x2000 c && leb c 0x200A)
    || c == 0x2028
    || c == 0x2029
    || c == 0x202F
    || c == 0x205F
    || c == 0x3000
    || c == 0xFEFF

abbrev trim_start : String → String
trim_start String.[] = ""
trim_start (String.◌∷◌ c s) =
    let rest = trim_start s in if is_space (code c) then rest else String.◌∷◌ c s

abbrev keep_char : Char → String → String
keep_char c String.[] = if is_space (code c) then "" else String.◌∷◌ c ""
keep_char c (String.◌∷◌ d s) = String.◌∷◌ c (String.◌∷◌ d s)

abbrev trim_end : String → String
trim_end String.[] = ""
trim_end (String.◌∷◌ c s) = keep_char c (trim_end s)

-- `s.trim()`
unfoldable pub trim : String → String
trim s = trim_end (trim_start s)

-- `s.endsWith(part)`, as `/part$/` tests it.
unfoldable pub ends_with : String → String → Bool
ends_with String.[] part = str_eq "" part
ends_with (String.◌∷◌ c s) part = str_eq (String.◌∷◌ c s) part || ends_with s part

-- `s.includes(part)`
unfoldable pub contains : String → String → Bool
contains String.[] part = starts_with "" part
contains (String.◌∷◌ c s) part = starts_with (String.◌∷◌ c s) part || contains s part

-- The text behind the first `n` characters.
abbrev pub without : ℕ → String → String
without zero s = s
without (suc n) String.[] = ""
without (suc n) (String.◌∷◌ c s) = without n s

-- `s.replace(part, by)` for a part of `n` characters and a replacement with no "$": the first
-- occurrence.
unfoldable pub replace_first : ℕ → String → String → String → String
replace_first n part by String.[] = ""
replace_first n part by (String.◌∷◌ c s) =
    let rest = replace_first n part by s in
    if starts_with (String.◌∷◌ c s) part
    then Prim.Native.String.◌++◌ by (without n (String.◌∷◌ c s))
    else String.◌∷◌ c rest

-- `s.toUpperCase()` and `s.toLowerCase()` on the letters of ASCII; other characters stay.
abbrev upper_char : Char → Char
upper_char c =
    if leb b'a' (code c) && leb (code c) b'z'
    then Prim.Native.String.char_at "ABCDEFGHIJKLMNOPQRSTUVWXYZ" (code c - b'a')
    else c

abbrev lower_char : Char → Char
lower_char c =
    if leb b'A' (code c) && leb (code c) b'Z'
    then Prim.Native.String.char_at "abcdefghijklmnopqrstuvwxyz" (code c - b'A')
    else c

-- `s.toUpperCase()` and `s.toLowerCase()`, for letters of ASCII: the texts are taken to have no other
-- letters that have two cases.
unfoldable pub to_upper : String → String
to_upper String.[] = ""
to_upper (String.◌∷◌ c s) = String.◌∷◌ (upper_char c) (to_upper s)

unfoldable pub to_lower : String → String
to_lower String.[] = ""
to_lower (String.◌∷◌ c s) = String.◌∷◌ (lower_char c) (to_lower s)

-- `s.slice(0, n)`. Where the cut falls between the two units of a character, the half that stays is
-- written as U+FFFD, which is what an encoder to UTF-8 makes of it.
unfoldable pub slice_to : ℕ → String → String
slice_to n String.[] = ""
slice_to n (String.◌∷◌ c s) =
    let width = if ltb (code c) 0x10000 then 1 else 2 in
    let rest = slice_to (n - width) s in
    if n == 0 then "" else if ltb n width then "�" else String.◌∷◌ c rest
