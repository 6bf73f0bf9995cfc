-- ===== src/Policy/Tests.antt =====
-- The policy plane's theorems at concrete inputs, and runs of its code.
use the_kubernetes_of_ai_age.Common.{
  ℕ, ◌<◌, ◌≡◌, ◌↔◌, refl, String, true, none, List, [], ◌∷◌, arith,
}
use the_kubernetes_of_ai_age.Common.Maps
use the_kubernetes_of_ai_age.Common.Json
use the_kubernetes_of_ai_age.Common.Json.{Json}
use the_kubernetes_of_ai_age.Policy.Breaker
use the_kubernetes_of_ai_age.Policy.Breaker.{closed, half_open}
use the_kubernetes_of_ai_age.Policy.Breaker.Trace
use the_kubernetes_of_ai_age.Policy.Breaker.Trace.{
  Call, failure, success, probe, failures_since_success,
}
use the_kubernetes_of_ai_age.Policy.Cache
use the_kubernetes_of_ai_age.Policy.Cache.{LruCache}
use the_kubernetes_of_ai_age.Policy.Cache.Laws.{Op, read, write, tick}
use the_kubernetes_of_ai_age.Policy.Service
use the_kubernetes_of_ai_age.Policy.Service.{
  PolicyDecision, PolicyPlaneService, OpaReply, replied, no_reason, answered, arrive, resume,
  read_reply,
}
use the_kubernetes_of_ai_age.Policy.Service.World.{
  Event, arrival, answer, is_backed, step, run, start,
}
use the_kubernetes_of_ai_age.Policy.Service.Provenance.{step-allow-is_backed}
use the_kubernetes_of_ai_age.Policy.Service.Paths

abbrev calls : List Call
calls = failure 10 ∷ success ∷ failure 20 ∷ probe 25 ∷ failure 30 ∷ []

closed-iff-few_failures_example :
    ((Trace.run (Breaker.new 3 100) calls).state ≡ closed) ↔ (failures_since_success calls < 3)
closed-iff-few_failures_example = Trace.closed-iff-few_failures 3 100 calls (omega arith)

abbrev ops : List (Op ℕ)
ops = write 1 "a" 10 ∷ write 2 "b" 20 ∷ read 3 "a" ∷ write 4 "c" 30 ∷ tick 60 ∷ []

abbrev empty : LruCache ℕ
empty = record { store = []; max_size = 2; ttl_ms = 50; cleanup_timer = true }

-- The oldest entry goes, although it was read last.
fifo :
    (Cache.get 5 "a" (Cache.set 4 "c" 30 (Cache.set 2 "b" 20 (Cache.set 1 "a" 10 empty)))).1 ≡ none
unfolding Cache.get Cache.set Maps.get Maps.set Maps.delete Maps.first_key
fifo = refl

abbrev allowing : Json
allowing =
    Json.object
      (Json.field "result" (Json.object (Json.field "allow" (Json.boolean true) Json.end)) Json.end)

abbrev allowed : PolicyDecision
allowed = record { allow = true; reason = no_reason }

abbrev service : PolicyPlaneService
service = record {
  circuit_breaker = record {
    state = closed;
    failure_count = 0;
    last_failure_time = 0;
    failure_threshold = 5;
    recovery_time_ms = 30000;
  };
  cache = record { store = []; max_size = 500; ttl_ms = 30000; cleanup_timer = true };
}

abbrev identity : String → String
identity s = s

allowing_read : read_reply (replied 200 allowing) ≡ Service.decided allowed
unfolding read_reply Service.read_result Json.member Json.is_true
allowing_read = refl

abbrev other_calls : List (ℕ × String × String)
other_calls = (300, "egaop/tools", "y") ∷ (400, "egaop/tools", "x") ∷ []

arrive-visits-resume_example :
    (arrive identity 900 "egaop/admission" "x" (
      Paths.visits identity other_calls
        (resume 100 (identity "x") (replied 200 allowing) service).0)).1
    ≡ answered allowed
arrive-visits-resume_example =
    Paths.arrive-visits-resume identity 100 900 "egaop/admission" "x" (replied 200 allowing) allowed
      other_calls service allowing_read (omega arith, (omega arith, tt)) (omega arith)

abbrev events : List (Event String)
events = arrival 10 "p" "x" ∷ arrival 11 "p" "y" ∷ answer 15 1 (replied 200 allowing) ∷ []

step-allow-is_backed_example :
    is_backed 30000
      (step identity (run identity (start 5 30000 500 30000) events) (arrival 20 "p" "x")).0.log
      20
      "x"
    ≡ true
unfolding step run start arrive resume Service.new Breaker.new Cache.new Breaker.can_execute
    Breaker.record_success Cache.get Cache.set Maps.get Maps.set Maps.first_key allowing_read
step-allow-is_backed_example =
    step-allow-is_backed identity 5 30000 500 30000 events (arrival 20 "p" "x")
      {r = record { key = "x"; decision = allowed }} refl refl
