-- ===== src/ToolProxy/Ipv4.antt =====
-- execution-plane/tool-proxy/src/index.ts: IPv4 addresses, CIDR blocks and the networks in which a
-- sandbox may live. An address is a number below 2 ^ 32; the operators on signed words that the source
-- uses are written as arithmetic on it.
pub mod Dotted
pub mod Networks
use Prim.Native.Char.{code}
use the_kubernetes_of_ai_age.Common.{
  ℕ, ◌+◌, ◌-◌, ◌*◌, ◌/◌, ◌%◌, ◌^◌, String, Bool, true, false, not, ◌&&◌, ◌||◌, Option, none, some,
  List, [], ◌∷◌, map, if◌then◌else◌, ltb, leb, ◌==◌, str_eq, keep, exists, length, is_empty,
}
use the_kubernetes_of_ai_age.Common.Text.{split, trim, size, every_char, is_digit, decimal}

abbrev leads_with_zero : String → Bool
leads_with_zero String.[] = false
leads_with_zero (String.◌∷◌ c s) = code c == b'0'

-- One part of an address, from the test of its digits to the test of its value.
unfoldable pub parse_octet : String → Option ℕ
parse_octet p =
    if not (every_char is_digit p && leb 1 (size p) && leb (size p) 3)
    then none
    else if ltb 1 (size p) && leads_with_zero p
    then none
    else if ltb 255 (decimal p)
    then none
    else some (decimal p)

-- `((n << 8) | v) >>> 0`, where `v` has eight bits.
abbrev pub shift_in : ℕ → ℕ → ℕ
shift_in n v = (n * 256) % 2 ^ 32 + v

-- The loop over the parts.
unfoldable pub parse_parts : ℕ → List String → Option ℕ
unfolding parse_octet
parse_parts n [] = some n
parse_parts n (p ∷ ps) = elim (parse_octet p) [
  | none ↦ none
  | some v ↦ parse_parts (shift_in n v) ps
]

unfoldable pub parse_ipv4 : String → Option ℕ
unfolding split parse_parts
parse_ipv4 ip = let parts = split b'.' ip in if length parts == 4 then parse_parts 0 parts else none

-- `ip & mask`, where the mask has `bits` leading ones: only the comparison of two of them is used.
abbrev pub prefix : ℕ → ℕ → ℕ
prefix bits ip = ip / 2 ^ (32 - bits)

abbrev pub second : List String → Option String
second (a ∷ b ∷ ps) = some b
second ps = none

abbrev pub first : List String → String
first [] = ""
first (a ∷ ps) = a

abbrev pub always_denied_cidrs : List String
always_denied_cidrs =
    "127.0.0.0/8" ∷ "169.254.0.0/16" ∷ "100.64.0.0/10" ∷ "0.0.0.0/8" ∷ "224.0.0.0/4" ∷ []

abbrev pub default_sandbox_cidrs : List String
default_sandbox_cidrs = "10.0.0.0/8" ∷ "172.16.0.0/12" ∷ "192.168.0.0/16" ∷ []

-- The list of SANDBOX_IP_ALLOWLIST_CIDRS.
unfoldable pub allowed_cidrs : Option String → List String
unfolding split trim
allowed_cidrs none = default_sandbox_cidrs
allowed_cidrs (some raw) = keep (λ s. not (str_eq s "")) (map trim (split b',' raw))

-- What `Number(s)` gives on a text that has a character other than a digit, where that is an integer
-- that is not negative.
module _ (other_number : String → Option ℕ) where
  -- `Number(bitsStr)`: an absent text gives NaN, the empty one 0.
  abbrev pub to_number : Option String → Option ℕ
  to_number none = none
  to_number (some s) = if every_char is_digit s then some (decimal s) else other_number s

  abbrev pub matches : ℕ → Option ℕ → Option ℕ → Bool
  matches ip none bits = false
  matches ip (some net) none = false
  matches ip (some net) (some bits) =
      if ltb 32 bits then false else prefix bits ip == prefix bits net

  unfoldable pub ip_in_cidr : ℕ → String → Bool
  unfolding split parse_ipv4
  ip_in_cidr ip cidr =
      let pieces = split b'/' cidr in
      matches ip (parse_ipv4 (first pieces)) (to_number (second pieces))

  unfoldable pub admits : Option String → ℕ → Bool
  unfolding allowed_cidrs ip_in_cidr
  admits raw ip =
      if exists (ip_in_cidr ip) always_denied_cidrs
      then false
      else if is_empty (allowed_cidrs raw)
      then false
      else exists (ip_in_cidr ip) (allowed_cidrs raw)

  unfoldable pub is_allowed_sandbox_ip : Option String → String → Bool
  unfolding parse_ipv4 admits
  is_allowed_sandbox_ip raw ip = elim (parse_ipv4 ip) [ none ↦ false | some n ↦ admits raw n ]
