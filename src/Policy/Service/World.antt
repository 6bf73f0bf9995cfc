-- ===== src/Policy/Service/World.antt =====
-- The policy service among its callers: a world of requests that wait for OPA, and events in any order.
use the_kubernetes_of_ai_age.Common.{
  ℕ, zero, suc, ◌+◌, String, Bool, false, Option, none, some, List, [], ◌∷◌, ◌&&◌, leb, str_eq,
  exists,
}
use the_kubernetes_of_ai_age.Common.Json.{member, is_true}
use the_kubernetes_of_ai_age.Policy.Service.{
  PolicyDecision, OpaReply, failed, replied, PolicyPlaneService, new, answered, waiting, arrive,
  resume,
}

-- Did OPA allow? A status of 200 to 299, and data whose `result.allow` is true.
unfoldable pub allows : OpaReply → Bool
allows (failed message) = false
allows (replied status v) =
    leb 200 status && leb status 299 && is_true (member "allow" (member "result" (some v)))

-- The answers of OPA as they came: the key that they are for, the time, and the answer.
abbrev pub Log : Type 0
Log = List (String × ℕ × OpaReply)

-- Is there an allowing answer for the key, no older than the cache's time to live?
abbrev pub is_backed : ℕ → Log → ℕ → String → Bool
is_backed ttl log now key = exists (λ r. str_eq r.0 key && (allows r.2 && leb now (r.1 + ttl))) log

-- The service, the requests that wait for OPA (path and key), and the log.
pub record World : Type 0 where
  pub service : PolicyPlaneService
  pub in_flight : List (String × String)
  pub log : Log

pub data Event (Input : Type 0) : Type 0 where
  arrival : ℕ → String → Input → Event Input
  -- OPA answers the request at this place of the waiting ones
  answer : ℕ → ℕ → OpaReply → Event Input

abbrev pub take_out {ℓ} : {A : Type ℓ} → ℕ → List A → Option (A × List A)
take_out i [] = none
take_out zero (x ∷ xs) = some (x, xs)
take_out (suc i) (x ∷ xs) = elim (take_out i xs) [ none ↦ none | some (y, ys) ↦ some (y, x ∷ ys) ]

abbrev pub time : {Input : Type 0} → Event Input → ℕ
time (arrival now path input) = now
time (answer now i reply) = now

pub record Reply : Type 0 where
  pub key : String
  pub decision : PolicyDecision

module _ {Input : Type 0} (hash_input : Input → String) where
  -- One event; the second part is the decision that a caller gets, with its key.
  unfoldable pub step : World → Event Input → World × Option Reply
  step w (arrival now path input) =
      let (s, a) = arrive hash_input now path input w.service in
      elim a [
        | waiting p k ↦ (record w { service = s; in_flight = (p, k) ∷ w.in_flight }, none)
        | answered d ↦
            (record w { service = s }, some (record { key = hash_input input; decision = d }))
      ]
  step w (answer now i reply) = elim (take_out i w.in_flight) [
    | none ↦ (w, none)
    | some ((p, k), rest) ↦
        let (s, d) = resume now k reply w.service in
        (
          record w { service = s; in_flight = rest; log = (k, now, reply) ∷ w.log },
          some (record { key = k; decision = d }),
        )
  ]

  unfoldable pub run : World → List (Event Input) → World
  run w [] = w
  run w (e ∷ es) = run (step w e).0 es

-- A service just made, with nothing waiting.
unfoldable pub start : ℕ → ℕ → ℕ → ℕ → World
start threshold recovery_ms max_size ttl_ms = record {
  service = new threshold recovery_ms max_size ttl_ms;
  in_flight = [];
  log = [];
}
