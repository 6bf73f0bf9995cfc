-- ===== src/Shared/FeatureFlags/Tests.antt =====
-- Runs of the feature flags on concrete inputs.
use the_kubernetes_of_ai_age.Common.{
  ℕ, ◌≡◌, ◌↔◌, refl, String, true, false, Option, none, some, List, [], ◌∷◌,
}
use the_kubernetes_of_ai_age.Common.Maps
use the_kubernetes_of_ai_age.Shared.FeatureFlags.{
  FeatureFlag, FeatureFlagUpsert, Context, Flags, is_enabled, deterministic_hash, check_access,
}
use the_kubernetes_of_ai_age.Shared.FeatureFlags.Access
use the_kubernetes_of_ai_age.Shared.FeatureFlags.Stores.{Change, upsert, remove}

-- Digits that put every user into the bucket 42.
abbrev digits : String → ℕ
digits text = 142

abbrev flag : FeatureFlag
flag = record {
  name = "f";
  enabled = true;
  description = "d";
  rollout_percentage = 50;
  allowed_roles = "admin" ∷ [];
  allowed_namespaces = [];
  created_at = "1";
  updated_at = "1";
}

abbrev admin : Option Context
admin = some (record { user_id = some "u"; roles = some ("dev" ∷ "admin" ∷ []); namespace = none })

abbrev flags : Flags
flags = record { cache = ("f", flag) ∷ []; cache_timer = false; cache_ttl_ms = 60000 }

abbrev empty : Flags
empty = record { cache = []; cache_timer = false; cache_ttl_ms = 60000 }

admin-enabled : is_enabled digits "f" admin flags ≡ true
unfolding is_enabled deterministic_hash check_access Maps.get
admin-enabled = refl

stranger-disabled : is_enabled digits "f" none flags ≡ false
unfolding is_enabled Maps.get
stranger-disabled = refl

is_enabled-iff_IsGranted_example :
    (is_enabled digits "f" admin flags ≡ true) ↔ Access.IsGranted digits "f" admin flags
is_enabled-iff_IsGranted_example = Access.is_enabled-iff_IsGranted digits "f" admin flags

abbrev only_enabled : FeatureFlagUpsert
only_enabled = record {
  name = "f";
  enabled = some true;
  description = none;
  rollout_percentage = some 100;
  allowed_roles = none;
  allowed_namespaces = none;
}

abbrev changes : List Change
changes =
    upsert "2" only_enabled ∷ upsert "3" (record only_enabled { name = "g" }) ∷ remove "f" ∷ []
