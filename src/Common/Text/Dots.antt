-- ===== src/Common/Text/Dots.antt =====
-- Texts with dots between their parts, and what splitting at the dots gives.
use Prim.Native.String
use Prim.Native.String.{String}
use Prim.Native.Nat.{ℕ}
use text.Mathlib.TextLemmas.{nil-append, cons-append}
use native.Mathlib.Omega.{arith}
use mathlib.Core.Path.{◌≡◌, refl}
use mathlib.Core.Bool.{Bool, true, not}
use mathlib.Core.List.{[], ◌∷◌}
use the_kubernetes_of_ai_age.Common.Tests.{◌==◌}
use the_kubernetes_of_ai_age.Common.Text.{split, every_char}

abbrev pub dot : String → String → String
dot s t = Prim.Native.String.◌++◌ s (Prim.Native.String.◌++◌ "." t)

abbrev pub is_not_dot : ℕ → Bool
is_not_dot c = not (c == b'.')

pub split-dot :
    (s t : String) → every_char is_not_dot s ≡ true → split b'.' (dot s t) ≡ s ∷ split b'.' t
unfolding split
split-dot String.[] t h =
    rw (nil-append (Prim.Native.String.◌++◌ "." t)) (rw (cons-append, nil-append) refl)
split-dot (String.◌∷◌ c s) t h =
    rw (cons-append c s (Prim.Native.String.◌++◌ "." t)) (ground (arith, split-dot s t))

pub split-no_dot : (s : String) → every_char is_not_dot s ≡ true → split b'.' s ≡ s ∷ []
unfolding split
split-no_dot String.[] h = refl
split-no_dot (String.◌∷◌ c s) h = ground (arith, split-no_dot s)
