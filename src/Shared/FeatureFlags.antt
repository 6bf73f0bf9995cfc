-- ===== src/Shared/FeatureFlags.antt =====
-- packages/shared/src/feature-flags/index.ts: the flags of the database and their cache. The table is a
-- map from the primary key, its statements are written out from their SQL, and `now` is NOW(). The first
-- eight digits of a SHA-256 digest are an argument, a number for each text. The interval timer is a
-- flag; what it calls is `refresh_flags`.
pub mod Access
pub mod Restrictions
pub mod Stores
mod Tests
use the_kubernetes_of_ai_age.Common.{
  ℕ, ◌%◌, String, Bool, true, false, not, ◌&&◌, Option, none, some, List, [], ◌∷◌, map,
  if◌then◌else◌, leb, ◌==◌, is_empty, exists, str_eq,
}
use the_kubernetes_of_ai_age.Common.Maps

pub record FeatureFlag : Type 0 where
  pub name : String
  pub enabled : Bool
  pub description : String
  pub rollout_percentage : ℕ
  pub allowed_roles : List String
  pub allowed_namespaces : List String
  pub created_at : String
  pub updated_at : String

pub record FeatureFlagUpsert : Type 0 where
  pub name : String
  pub enabled : Option Bool
  pub description : Option String
  pub rollout_percentage : Option ℕ
  pub allowed_roles : Option (List String)
  pub allowed_namespaces : Option (List String)

pub record Context : Type 0 where
  pub user_id : Option String
  pub roles : Option (List String)
  pub namespace : Option String

-- The variables of the module.
pub record Flags : Type 0 where
  pub cache : List (String × FeatureFlag)
  pub cache_timer : Bool
  pub cache_ttl_ms : ℕ

abbrev pub Table : Type 0
Table = List (String × FeatureFlag)

abbrev pub or_else {ℓ} : {A : Type ℓ} → Option A → A → A
or_else none d = d
or_else (some a) d = a

-- `Array.includes`
abbrev pub includes : String → List String → Bool
includes s xs = exists (λ x. str_eq x s) xs

-- A text that is there and not empty.
abbrev pub truthy : Option String → Option String
truthy none = none
truthy (some s) = if str_eq s "" then none else some s

-- `context?.roles`, and the same for the others.
abbrev pub user_of : Option Context → Option String
user_of none = none
user_of (some c) = truthy c.user_id

abbrev pub roles_of : Option Context → Option (List String)
roles_of none = none
roles_of (some c) = c.roles

abbrev pub namespace_of : Option Context → Option String
namespace_of none = none
namespace_of (some c) = truthy c.namespace

abbrev pub has_role : List String → Option (List String) → Bool
has_role allowed none = false
has_role allowed (some roles) = exists (λ r. includes r allowed) roles

abbrev pub has_namespace : List String → Option String → Bool
has_namespace allowed none = false
has_namespace allowed (some ns) = includes ns allowed

unfoldable pub check_access : FeatureFlag → Option Context → Bool
check_access flag context =
    if not (is_empty flag.allowed_roles) && not (has_role flag.allowed_roles (roles_of context))
    then false
    else if not (is_empty flag.allowed_namespaces)
        && not (has_namespace flag.allowed_namespaces (namespace_of context))
    then false
    else true

module _ (sha_digits : String → ℕ) where
  unfoldable pub deterministic_hash : String → String → ℕ
  deterministic_hash flag_name user_id =
      sha_digits (Prim.Native.String.◌++◌ flag_name (Prim.Native.String.◌++◌ ":" user_id)) % 100

  abbrev pub in_rollout : String → FeatureFlag → Option String → Bool
  in_rollout flag_name flag none = false
  in_rollout flag_name flag (some user_id) =
      if leb flag.rollout_percentage (deterministic_hash flag_name user_id) then false else true

  abbrev pub decide : String → Option Context → Option FeatureFlag → Bool
  decide flag_name context none = false
  decide flag_name context (some flag) =
      if not flag.enabled
      then false
      else if flag.rollout_percentage == 100
      then check_access flag context
      else if in_rollout flag_name flag (user_of context)
      then check_access flag context
      else false

  unfoldable pub is_enabled : String → Option Context → Flags → Bool
  is_enabled flag_name context s = decide flag_name context (Maps.get flag_name s.cache)

unfoldable pub get_all_flags : Flags → List FeatureFlag
get_all_flags s = map (λ e. e.1) s.cache

-- The loop that fills the cleared cache.
abbrev pub fill : List FeatureFlag → List (String × FeatureFlag) → List (String × FeatureFlag)
fill [] m = m
fill (row ∷ rows) m = fill rows (Maps.set row.name row m)

-- With the rows that the query gave, unless it failed.
unfoldable pub refresh_flags : Option (List FeatureFlag) → Flags → Flags
refresh_flags none s = s
refresh_flags (some rows) s = record s { cache = fill rows [] }

-- COALESCE of a proposed value and the stored one.
abbrev pub coalesce {ℓ} : {A : Type ℓ} → Option A → A → A
coalesce = or_else

-- The proposed row: what is passed is never null.
abbrev pub excluded : FeatureFlagUpsert → FeatureFlagUpsert
excluded input = record {
  name = input.name;
  enabled = some (or_else input.enabled false);
  description = some (or_else input.description "");
  rollout_percentage = some (or_else input.rollout_percentage 0);
  allowed_roles = some (or_else input.allowed_roles []);
  allowed_namespaces = some (or_else input.allowed_namespaces []);
}

-- ON CONFLICT (name) DO UPDATE, over the stored row.
abbrev pub merged : String → FeatureFlagUpsert → FeatureFlag → FeatureFlag
merged now row stored = record {
  name = stored.name;
  enabled = coalesce row.enabled stored.enabled;
  description = coalesce row.description stored.description;
  rollout_percentage = coalesce row.rollout_percentage stored.rollout_percentage;
  allowed_roles = coalesce row.allowed_roles stored.allowed_roles;
  allowed_namespaces = coalesce row.allowed_namespaces stored.allowed_namespaces;
  created_at = stored.created_at;
  updated_at = now;
}

-- The row that is inserted where there is none: the columns' defaults stand for nothing here.
abbrev pub inserted : String → FeatureFlagUpsert → FeatureFlag
inserted now row = merged now row (record {
  name = row.name;
  enabled = false;
  description = "";
  rollout_percentage = 0;
  allowed_roles = [];
  allowed_namespaces = [];
  created_at = now;
  updated_at = now;
})

abbrev pub upserted : String → FeatureFlagUpsert → Option FeatureFlag → FeatureFlag
upserted now row none = inserted now row
upserted now row (some stored) = merged now row stored

-- `upsertFlag`, of a query that succeeds.
unfoldable pub upsert_flag :
    String → FeatureFlagUpsert → Table × Flags → Table × Flags × FeatureFlag
upsert_flag now input (table, s) =
    let flag = upserted now (excluded input) (Maps.get input.name table) in
    (Maps.set input.name flag table, record s { cache = Maps.set flag.name flag s.cache }, flag)

unfoldable pub delete_flag : String → Table × Flags → Table × Flags
delete_flag flag_name (table, s) =
    (Maps.delete flag_name table, record s { cache = Maps.delete flag_name s.cache })

unfoldable pub get_flag : String → Table → Option FeatureFlag
get_flag flag_name table = Maps.get flag_name table

-- The refresh that it starts at once is not waited for: it is a `refresh_flags` of its own.
unfoldable pub start_cache_auto_refresh : Flags → Flags
start_cache_auto_refresh s = if s.cache_timer then s else record s { cache_timer = true }

unfoldable pub stop_cache_auto_refresh : Flags → Flags
stop_cache_auto_refresh s = if s.cache_timer then record s { cache_timer = false } else s

unfoldable pub set_cache_ttl : ℕ → Flags → Flags
set_cache_ttl ms s = record s { cache_ttl_ms = ms }
