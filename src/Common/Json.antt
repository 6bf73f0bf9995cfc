-- ===== src/Common/Json.antt =====
-- Values of `JSON.parse`, and a read of one property. A number is kept as its text.
use Prim.Native.String.{String}
use mathlib.Core.Bool.{Bool, true, false}
use mathlib.Core.Option.{Option, none, some}
use text.Mathlib.Text.{◌==◌}
use the_kubernetes_of_ai_age.Common.Tests.{if◌then◌else◌}

mutual
  pub data Json : Type 0 where
    null : Json
    boolean : Bool → Json
    number : String → Json
    string : String → Json
    array : Items → Json
    object : Fields → Json

  pub data Items : Type 0 where
    nil : Items
    cons : Json → Items → Items

  pub data Fields : Type 0 where
    end : Fields
    field : String → Json → Fields → Fields

unfoldable pub find_field : String → Fields → Option Json
find_field k end = none
find_field k (field j v fs) = if j == k then some v else find_field k fs

-- `v?.[k]` for a `k` that is no property of a number, a string or an array: `none` is `undefined`.
unfoldable pub member : String → Option Json → Option Json
unfolding find_field
member k none = none
member k (some (object fs)) = find_field k fs
member k (some _) = none

-- `v === true`
unfoldable pub is_true : Option Json → Bool
is_true (some (boolean b)) = b
is_true _ = false

-- `v ?? d` on the way to a Boolean: is `v` null or undefined?
unfoldable pub is_nullish : Option Json → Bool
is_nullish none = true
is_nullish (some null) = true
is_nullish (some _) = false
