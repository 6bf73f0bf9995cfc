-- ===== src/Common/Maps/Distinct.antt =====
-- The keys of a `Map` are distinct: what its operations and a filter of its entries keep, and what a
-- read after such a filter gives.
use mathlib.Core.Path.{◌≡◌, refl}
use mathlib.Core.Bool.{Bool}
use mathlib.Core.Logic.{inl, inr}
use mathlib.Core.List.{List, [], ◌∷◌}
use mathlib.Core.Option.{Option, none, some}
use Prim.Native.String.{String}
use native.Mathlib.Omega.{arith}
use text.Mathlib.Text.{◌==◌}
use text.Mathlib.TextEquality.{eq_iff}
use the_kubernetes_of_ai_age.Common.Tests.{if◌then◌else◌, Bool-cases}
use the_kubernetes_of_ai_age.Common.Lists.{keep}
use the_kubernetes_of_ai_age.Common.Maps.{get, set, delete, get-set, get-delete}

module _ {ℓ} {V : Type ℓ} where
  abbrev pub IsDistinct : List (String × V) → Type ℓ
  IsDistinct [] = Unit
  IsDistinct ((k, v) ∷ m) = (get k m ≡ none) × IsDistinct m

  pub set-IsDistinct :
      (k : String) (v : V) (m : List (String × V)) → IsDistinct m → IsDistinct (set k v m)
  unfolding set get
  set-IsDistinct k v [] h = (refl, tt)
  set-IsDistinct k v ((i, w) ∷ m) h = elim (Bool-cases (i == k)) [
    | inl e ↦ rw e (ground (arith, eq_iff i k), h.1)
    | inr e ↦
        rw e (ground (arith, get-set k i v m, eq_iff i k, eq_iff k i), set-IsDistinct k v m h.1)
  ]

  pub delete-IsDistinct :
      (k : String) (m : List (String × V)) → IsDistinct m → IsDistinct (delete k m)
  unfolding delete
  delete-IsDistinct k [] h = tt
  delete-IsDistinct k ((i, w) ∷ m) h = elim (Bool-cases (i == k)) [
    | inl e ↦ rw e (delete-IsDistinct k m h.1)
    | inr e ↦ rw e (ground (arith, get-delete k i m), delete-IsDistinct k m h.1)
  ]

  abbrev pub keep_if : (V → Bool) → Option V → Option V
  keep_if q none = none
  keep_if q (some v) = if q v then some v else none

  get-keep-none :
      (q : V → Bool) (k : String) (m : List (String × V))
      → get k m ≡ none
      → get k (keep (λ e. q e.1) m) ≡ none
  unfolding get
  get-keep-none q k [] h = refl
  get-keep-none q k ((i, w) ∷ m) h = ground (arith, get-keep-none q k m)

  pub keep-IsDistinct :
      (q : V → Bool) (m : List (String × V)) → IsDistinct m → IsDistinct (keep (λ e. q e.1) m)
  keep-IsDistinct q [] h = tt
  keep-IsDistinct q ((i, w) ∷ m) h = elim (Bool-cases (q w)) [
    | inl e ↦ rw e (get-keep-none q i m h.0, keep-IsDistinct q m h.1)
    | inr e ↦ rw e (keep-IsDistinct q m h.1)
  ]

  pub get-keep :
      (q : V → Bool) (k : String) (m : List (String × V))
      → IsDistinct m
      → get k (keep (λ e. q e.1) m) ≡ keep_if q (get k m)
  unfolding get
  get-keep q k [] h = refl
  get-keep q k ((i, w) ∷ m) h =
      ground (arith, get-keep q k m, get-keep-none q k m, get-keep-none q i m, eq_iff i k)
