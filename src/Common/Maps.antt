-- ===== src/Common/Maps.antt =====
-- JavaScript's `Map` with keys that are texts: the entries in the order of insertion. `set` on a key
-- that is present keeps its place, as `Map.prototype.set` does.
pub mod Distinct
use Prim.Native.Nat.{ℕ, suc, ◌+◌, ◌≤◌}
use Prim.Native.String.{String}
use mathlib.Core.Path.{◌≡◌, refl, subst₂}
use mathlib.Core.Logic.{inl, inr}
use mathlib.Core.Bool.{Bool, true, false}
use mathlib.Core.List.{List, [], ◌∷◌}
use mathlib.Core.Option.{Option, none, some}
use native.Mathlib.Omega.{arith}
use text.Mathlib.Text.{◌==◌}
use text.Mathlib.TextEquality.{eq_iff}
use the_kubernetes_of_ai_age.Common.Tests.{if◌then◌else◌, Bool-cases}
use the_kubernetes_of_ai_age.Common.Lists.{length, All}

module _ {ℓ} {V : Type ℓ} where
  unfoldable pub get : String → List (String × V) → Option V
  get k [] = none
  get k ((j, v) ∷ m) = if j == k then some v else get k m

  unfoldable pub set : String → V → List (String × V) → List (String × V)
  set k v [] = (k, v) ∷ []
  set k v ((j, w) ∷ m) = if j == k then (k, v) ∷ m else (j, w) ∷ set k v m

  unfoldable pub delete : String → List (String × V) → List (String × V)
  delete k [] = []
  delete k ((j, w) ∷ m) = let rest = delete k m in if j == k then rest else (j, w) ∷ rest

  -- `map.keys().next().value`
  unfoldable pub first_key : List (String × V) → Option String
  first_key [] = none
  first_key ((j, v) ∷ m) = some j

  pub get-set :
      (k j : String) (v : V) (m : List (String × V))
      → get j (set k v m) ≡ (if k == j then some v else get j m)
  unfolding get set
  get-set k j v [] = refl
  get-set k j v ((i, w) ∷ m) = ground (arith, eq_iff k j, eq_iff i k, eq_iff i j, get-set k j v m)

  pub get-set_self : (k : String) (v : V) (m : List (String × V)) → get k (set k v m) ≡ some v
  get-set_self k v m = ground (arith, get-set k k v m, eq_iff k k)

  pub get-set_ne :
      (k j : String) (v : V) (m : List (String × V))
      → (k == j) ≡ false
      → get j (set k v m) ≡ get j m
  get-set_ne k j v m h = ground (arith, get-set k j v m)

  pub get-delete :
      (k j : String) (m : List (String × V))
      → get j (delete k m) ≡ (if k == j then none else get j m)
  unfolding get delete
  get-delete k j [] = ground arith
  get-delete k j ((i, w) ∷ m) = ground (arith, eq_iff k j, eq_iff i k, eq_iff i j, get-delete k j m)

  pub length-set-le :
      (k : String) (v : V) (m : List (String × V)) → length (set k v m) ≤ length m + 1
  unfolding set
  length-set-le k v [] = omega arith
  length-set-le k v ((i, w) ∷ m) = ground (arith, length-set-le k v m)

  pub length-delete-le : (k : String) (m : List (String × V)) → length (delete k m) ≤ length m
  unfolding delete
  length-delete-le k [] = omega arith
  length-delete-le k ((i, w) ∷ m) = ground (arith, length-delete-le k m)

  -- Deleting the oldest key makes room.
  pub length-delete_first :
      (k : String) (m : List (String × V))
      → first_key m ≡ some k
      → length (delete k m) + 1 ≤ length m
  unfolding delete first_key
  length-delete_first k [] h = absurd (ground arith)
  length-delete_first k ((i, w) ∷ m) h = ground (arith, eq_iff i k, length-delete-le k m)

-- A property of every entry survives the operations.
module _ {ℓ κ} {V : Type ℓ} (P : String → V → Type κ) where
  abbrev pub AllEntries : List (String × V) → Type κ
  AllEntries = All (λ e. P e.0 e.1)

  pub AllEntries-set :
      (k : String) (v : V) (m : List (String × V)) → P k v → AllEntries m → AllEntries (set k v m)
  unfolding set
  AllEntries-set k v [] p h = (p, tt)
  AllEntries-set k v ((i, w) ∷ m) p h = elim (Bool-cases (i == k)) [
    | inl e ↦ rw e (p, h.1)
    | inr e ↦ rw e (h.0, AllEntries-set k v m p h.1)
  ]

  pub AllEntries-delete :
      (k : String) (m : List (String × V)) → AllEntries m → AllEntries (delete k m)
  unfolding delete
  AllEntries-delete k [] h = tt
  AllEntries-delete k ((i, w) ∷ m) h = elim (Bool-cases (i == k)) [
    | inl e ↦ rw e (AllEntries-delete k m h.1)
    | inr e ↦ rw e (h.0, AllEntries-delete k m h.1)
  ]

  pub AllEntries-get :
      (k : String) (m : List (String × V)) {v : V} → AllEntries m → get k m ≡ some v → P k v
  unfolding get
  AllEntries-get k [] h e = absurd (ground arith)
  AllEntries-get k ((i, w) ∷ m) {v} h e = elim (Bool-cases (i == k)) [
    | inl same ↦
        let found : some w ≡ some v = ground arith in
        let key : i ≡ k = (eq_iff i k).0 same in subst₂ P key (ground arith) h.0
    | inr other ↦ AllEntries-get k m h.1 (ground arith)
  ]
