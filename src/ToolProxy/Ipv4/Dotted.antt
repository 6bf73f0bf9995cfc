-- ===== src/ToolProxy/Ipv4/Dotted.antt =====
-- execution-plane/tool-proxy/src/index.ts: what `parseIPv4` reads of an address that is written as four
-- decimal numbers.
use Prim.Native.String
use the_kubernetes_of_ai_age.Common.{
  ℕ, zero, suc, ◌+◌, ◌*◌, ◌/◌, ◌%◌, ◌≤◌, ◌<◌, String, Bool, true, false, ◌&&◌, Option, none, some,
  List, [], ◌∷◌, ◌≡◌, refl, ap, ◌∙◌, arith, if◌then◌else◌, ltb, ◌==◌,
}
use the_kubernetes_of_ai_age.Common.Text.{split, every_char}
use the_kubernetes_of_ai_age.Common.Text.Dots.{dot, is_not_dot, split-dot, split-no_dot}
use the_kubernetes_of_ai_age.ToolProxy.Ipv4.{shift_in, parse_octet, parse_parts, parse_ipv4}

abbrev pub digit : ℕ → String
digit n =
    if n == 0
    then "0"
    else if n == 1
    then "1"
    else if n == 2
    then "2"
    else if n == 3
    then "3"
    else if n == 4
    then "4"
    else if n == 5
    then "5"
    else if n == 6
    then "6"
    else if n == 7
    then "7"
    else if n == 8
    then "8"
    else "9"

-- The decimal digits of a number below 1,000.
unfoldable pub show : ℕ → String
show n =
    if ltb n 10
    then digit n
    else if ltb n 100
    then Prim.Native.String.◌++◌ (digit (n / 10)) (digit (n % 10))
    else Prim.Native.String.◌++◌ (digit (n / 100))
        (Prim.Native.String.◌++◌ (digit (n / 10 % 10)) (digit (n % 10)))

-- `a.b.c.d`
abbrev pub dotted : ℕ → ℕ → ℕ → ℕ → String
dotted a b c d = dot (show a) (dot (show b) (dot (show c) (show d)))

-- The number that the address `a.b.c.d` stands for.
abbrev pub ipv4 : ℕ → ℕ → ℕ → ℕ → ℕ
ipv4 a b c d = ((a * 256 + b) * 256 + c) * 256 + d

-- Does the test hold of every octet that is smaller than the bound?
octets_pass : (ℕ → Bool) → ℕ → Bool
octets_pass test zero = true
octets_pass test (suc bound) = octets_pass test bound && test bound

octet_passes :
    (test : ℕ → Bool) (bound octet : ℕ)
    → octet < bound
    → octets_pass test bound ≡ true
    → test octet ≡ true
unfolding octets_pass
octet_passes test zero octet small all = absurd (omega arith)
octet_passes test (suc bound) octet small all = ground (arith, octet_passes test bound octet)

abbrev reads_as : Option ℕ → ℕ → Bool
reads_as none n = false
reads_as (some v) n = v == n

abbrev is_shown : ℕ → Bool
is_shown n = reads_as (parse_octet (show n)) n && every_char is_not_dot (show n)

shown_table : octets_pass is_shown 256 ≡ true
unfolding octets_pass parse_octet show
shown_table = refl

reads_as→some : (o : Option ℕ) (n : ℕ) → reads_as o n ≡ true → o ≡ some n
reads_as→some none n h = absurd (cc)
reads_as→some (some v) n h = ground (arith)

is_shown_lem : (n : ℕ) → n ≤ 255 → is_shown n ≡ true
is_shown_lem n h = octet_passes is_shown 256 n (omega arith) shown_table

both : (a b : Bool) → (a && b) ≡ true → (a ≡ true) × (b ≡ true)
both true b h = (refl, h)
both false b h = absurd (cc)

parse_octet-show : (n : ℕ) → n ≤ 255 → parse_octet (show n) ≡ some n
parse_octet-show n h = reads_as→some (parse_octet (show n)) n (both _ _ (is_shown_lem n h)).0

show-no_dot : (n : ℕ) → n ≤ 255 → every_char is_not_dot (show n) ≡ true
show-no_dot n h = (both _ _ (is_shown_lem n h)).1

split-dotted :
    (a b c d : ℕ)
    → a ≤ 255
    → b ≤ 255
    → c ≤ 255
    → d ≤ 255
    → split b'.' (dotted a b c d) ≡ show a ∷ show b ∷ show c ∷ show d ∷ []
split-dotted a b c d ha hb hc hd = rw (
  split-dot (show a) (dot (show b) (dot (show c) (show d))) (show-no_dot a ha),
  split-dot (show b) (dot (show c) (show d)) (show-no_dot b hb),
  split-dot (show c) (show d) (show-no_dot c hc),
  split-no_dot (show d) (show-no_dot d hd),
)

parse_parts_step :
    (n v : ℕ) (p : String) (ps : List String)
    → parse_octet p ≡ some v
    → parse_parts n (p ∷ ps) ≡ parse_parts (shift_in n v) ps
unfolding parse_parts
parse_parts_step n v p ps e = rw (e, parse_parts) refl

parse_parts-four :
    (a b c d : ℕ)
    → a ≤ 255
    → b ≤ 255
    → c ≤ 255
    → d ≤ 255
    → parse_parts 0 (show a ∷ show b ∷ show c ∷ show d ∷ []) ≡ some (ipv4 a b c d)
unfolding parse_parts
parse_parts-four a b c d ha hb hc hd =
    parse_parts_step 0 a (show a) (show b ∷ show c ∷ show d ∷ []) (parse_octet-show a ha)
    ∙ parse_parts_step _ b (show b) (show c ∷ show d ∷ []) (parse_octet-show b hb)
    ∙ parse_parts_step _ c (show c) (show d ∷ []) (parse_octet-show c hc)
    ∙ parse_parts_step _ d (show d) [] (parse_octet-show d hd)
    ∙ ap some (omega arith)

-- Every address of four numbers up to 255, written in decimal with dots, is read as the number that it
-- stands for.
pub parse_ipv4-dotted :
    (a b c d : ℕ)
    → a ≤ 255
    → b ≤ 255
    → c ≤ 255
    → d ≤ 255
    → parse_ipv4 (dotted a b c d) ≡ some (ipv4 a b c d)
unfolding parse_ipv4
parse_ipv4-dotted a b c d ha hb hc hd =
    rw (split-dotted a b c d ha hb hc hd) (parse_parts-four a b c d ha hb hc hd)
