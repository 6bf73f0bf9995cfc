-- ===== src/Shared/Namespaces.antt =====
-- packages/shared/src/grpc/namespace-enforcement.ts: the cache of namespaces and what the server's
-- interceptor does with the metadata of a call. The verification of a token is an argument, with the
-- fields of the payload as the source's `typeof` tests see them; the metadata is a map to first values.
pub mod Guard
mod Tests
use the_kubernetes_of_ai_age.Common.{
  ℕ, ◌+◌, String, Bool, true, false, not, ◌&&◌, Option, none, some, List, [], ◌∷◌, if◌then◌else◌,
  ltb, str_eq,
}
use the_kubernetes_of_ai_age.Common.Maps

pub record NamespaceState : Type 0 where
  pub exists : Bool
  pub suspended : Bool
  pub deleted : Bool

pub record CachedNamespace : Type 0 where
  pub state : NamespaceState
  pub expires_at : ℕ

abbrev pub Cache : Type 0
Cache = List (String × CachedNamespace)

pub record Claims : Type 0 where
  pub sub : String
  pub role : String
  pub allowed_namespaces : List String
  pub namespace : Option String

-- The fields of a payload: `none` where it is not a text, or not an array.
pub record Payload : Type 0 where
  pub sub : Option String
  pub role : Option String
  pub namespace_access : Option (List String)
  pub namespace : Option String

abbrev pub cache_ttl_ms : ℕ
cache_ttl_ms = 60_000

abbrev pub or_else {ℓ} : {A : Type ℓ} → Option A → A → A
or_else none d = d
or_else (some a) d = a

abbrev pub read_entry : ℕ → String → Option CachedNamespace → Cache → Cache × Option NamespaceState
read_entry now slug none cache = (cache, none)
read_entry now slug (some entry) cache =
    if ltb entry.expires_at now then (Maps.delete slug cache, none) else (cache, some entry.state)

unfoldable pub get_cached_namespace : ℕ → String → Cache → Cache × Option NamespaceState
get_cached_namespace now slug cache = read_entry now slug (Maps.get slug cache) cache

unfoldable pub update_namespace_cache : ℕ → String → NamespaceState → Cache → Cache
update_namespace_cache now slug state cache =
    Maps.set slug (record { state = state; expires_at = now + cache_ttl_ms }) cache

unfoldable pub clear_namespace_cache : Cache → Cache
clear_namespace_cache cache = []

abbrev pub claims_of : Payload → Claims
claims_of p = record {
  sub = or_else p.sub "";
  role = or_else p.role "user";
  allowed_namespaces = or_else p.namespace_access [];
  namespace = p.namespace;
}

abbrev pub verified_claims : Option Payload → Option Claims
verified_claims none = none
verified_claims (some p) = some (claims_of p)

abbrev pub first : List String → Option String
first [] = none
first (x ∷ xs) = some x

abbrev pub caller_namespace : Option Claims → String
caller_namespace none = "default"
caller_namespace (some c) = or_else c.namespace (or_else (first c.allowed_namespaces) "default")

abbrev pub caller_role : Option Claims → String
caller_role none = "user"
caller_role (some c) = c.role

pub data Answer : Type 0 where
  passed : List (String × String) → Answer
  permission_denied : Answer
  not_found : Answer
  unavailable : Answer

-- The tests of the cached state, and the metadata that is passed on.
abbrev pub admit : Option NamespaceState → List (String × String) → Answer
admit none metadata = passed metadata
admit (some st) metadata =
    if st.deleted then not_found else if st.suspended then unavailable else passed metadata

abbrev pub resolved : String → String → String → List (String × String) → List (String × String)
resolved request caller role metadata =
    Maps.set "x-caller-role" role
      (Maps.set "x-caller-namespace" caller (Maps.set "x-resolved-namespace" request metadata))

module _ (verify_jwt : String → String → Option Payload) where
  -- The secret is the one of the environment, if it is set and not empty. `verify_jwt` gives nothing
  -- where the token is refused or the verification throws.
  unfoldable pub parse_claims : Option String → String → Option Claims
  parse_claims none raw = none
  parse_claims (some secret) raw =
      if str_eq raw "" then none else verified_claims (verify_jwt raw secret)

  abbrev pub claims_in : Option String → List (String × String) → Option Claims
  claims_in secret metadata = parse_claims secret (or_else (Maps.get "x-agent-claims" metadata) "")

  -- `onReceiveMetadata` of the server's interceptor.
  unfoldable pub on_receive_metadata :
      ℕ → Option String → String → List (String × String) → Cache → Cache × Answer
  on_receive_metadata now secret admin_role metadata cache =
      let claims = claims_in secret metadata in
      let caller = caller_namespace claims in
      let role = caller_role claims in
      let request = or_else (Maps.get "x-resolved-namespace" metadata) caller in
      let cached = get_cached_namespace now request cache in
      if not (str_eq request caller) && not (str_eq role admin_role)
      then (cache, permission_denied)
      else (cached.0, admit cached.1 (resolved request caller role metadata))
