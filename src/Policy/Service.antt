-- ===== src/Policy/Service.antt =====
-- policy-plane/src/service.ts: the class `PolicyPlaneService`. `evaluatePolicy` waits for OPA in the
-- middle, and other calls run then: it is `arrive`, up to the request, and `resume`, from the answer
-- of `postJSON` on. The key of the cache is `hashInput(input)`, the argument `hash_input` (SHA-256
-- of a canonical text). The texts of reasons are constructors. Logs and spans are left out.
pub mod World
pub mod Provenance
pub mod Paths
use the_kubernetes_of_ai_age.Common.{
  ℕ, String, Bool, true, false, Option, none, some, if◌then◌else◌, ltb, leb, ◌||◌,
}
use the_kubernetes_of_ai_age.Common.Json.{
  Json, null, boolean, number, string, array, object, member, is_true, is_nullish,
}
use the_kubernetes_of_ai_age.Policy.Breaker
use the_kubernetes_of_ai_age.Policy.Breaker.{CircuitState, CircuitBreaker}
use the_kubernetes_of_ai_age.Policy.Cache
use the_kubernetes_of_ai_age.Policy.Cache.{LruCache}

-- What ends in the `catch` of `evaluatePolicy`.
pub data Fault : Type 0 where
  rejected : String → Fault
  http_status : ℕ → Fault
  type_error : Fault

pub data Reason : Type 0 where
  no_reason : Reason
  given : Json → Reason
  policy_denied_by_opa : Reason
  circuit_breaker_open : CircuitState → Reason
  opa_call_failed : Fault → Reason

pub record PolicyDecision : Type 0 where
  pub allow : Bool
  pub reason : Reason

-- The answer of `postJSON`: a rejected promise, or a status with parsed data.
pub data OpaReply : Type 0 where
  failed : String → OpaReply
  replied : ℕ → Json → OpaReply

pub data Outcome : Type 0 where
  decided : PolicyDecision → Outcome
  thrown : Fault → Outcome

-- `resultObj?.["reason"] ?? "Policy denied by OPA"`
unfoldable pub reason_or_default : Option Json → Reason
reason_or_default none = policy_denied_by_opa
reason_or_default (some null) = policy_denied_by_opa
reason_or_default (some r) = given r

-- `data["result"]` throws on null.
unfoldable pub read_result : Json → Outcome
read_result null = thrown type_error
read_result v =
    let result_obj = member "result" (some v) in
    let allow = is_true (member "allow" result_obj) in
    decided (record {
      allow = allow;
      reason = if allow then no_reason else reason_or_default (member "reason" result_obj);
    })

unfoldable pub read_reply : OpaReply → Outcome
unfolding read_result
read_reply (failed message) = thrown (rejected message)
read_reply (replied status v) =
    if ltb status 200 || leb 300 status then thrown (http_status status) else read_result v

pub record PolicyPlaneService : Type 0 where
  pub circuit_breaker : CircuitBreaker
  pub cache : LruCache PolicyDecision

unfoldable pub new : ℕ → ℕ → ℕ → ℕ → PolicyPlaneService
new threshold recovery_ms max_size ttl_ms = record {
  circuit_breaker = Breaker.new threshold recovery_ms;
  cache = Cache.new max_size ttl_ms;
}

pub data Arrival : Type 0 where
  answered : PolicyDecision → Arrival
  -- the request to OPA is sent under this path, with this key for its answer
  waiting : String → String → Arrival

module _ {Input : Type 0} (hash_input : Input → String) where
  unfoldable pub arrive : ℕ → String → Input → PolicyPlaneService → PolicyPlaneService × Arrival
  arrive now policy_path input s =
      let (b, may) = Breaker.can_execute now s.circuit_breaker in
      let s' = record s { circuit_breaker = b } in
      let cache_key = hash_input input in
      let (c, cached) = Cache.get now cache_key s.cache in
      if may
      then elim cached [
        | none ↦ (record s' { cache = c }, waiting policy_path cache_key)
        | some d ↦ (record s' { cache = c }, answered d)
      ]
      else (s', answered (record { allow = false; reason = circuit_breaker_open b.state }))

unfoldable pub resume :
    ℕ → String → OpaReply → PolicyPlaneService → PolicyPlaneService × PolicyDecision
resume now cache_key reply s = elim (read_reply reply) [
  | decided d ↦ (
    record {
      circuit_breaker = Breaker.record_success s.circuit_breaker;
      cache = Cache.set now cache_key d s.cache;
    },
    d,
  )
  | thrown e ↦ (
    record s { circuit_breaker = Breaker.record_failure now s.circuit_breaker },
    record { allow = false; reason = opa_call_failed e },
  )
]

unfoldable pub get_stats : PolicyPlaneService → CircuitState × ℕ
get_stats s = (s.circuit_breaker.state, Cache.size s.cache)

-- `getInstance` and `resetInstance` over the static field; the settings are the process's own.
unfoldable pub get_instance :
    (Unit {0} → PolicyPlaneService) → Option PolicyPlaneService → PolicyPlaneService
get_instance make none = make tt
get_instance make (some s) = s

-- `resetInstance` disposes of the cache and clears the static field; the first part is the object left
-- to those who still hold it.
unfoldable pub reset_instance :
    Option PolicyPlaneService → Option PolicyPlaneService × Option PolicyPlaneService
reset_instance none = (none, none)
reset_instance (some s) = (some (record s { cache = Cache.dispose s.cache }), none)
