-- ===== src/Policy/Service/Provenance.antt =====
-- Where an allow comes from, over every interleaving of arrivals and answers.
use the_kubernetes_of_ai_age.Common.{
  ℕ, ◌+◌, ◌≤◌, ◌≡◌, refl, String, true, some, List, [], ◌∷◌, arith, ltb, leb, length, ◌∙◌, All-imp,
  ◌⊎◌, eq_refl, Bool-cases, Option-cases, inl, inr,
}
use the_kubernetes_of_ai_age.Common.Json.{Json, member, is_true}
use the_kubernetes_of_ai_age.Common.Maps
use the_kubernetes_of_ai_age.Common.Maps.{
  AllEntries, AllEntries-set, AllEntries-delete, AllEntries-get,
}
use the_kubernetes_of_ai_age.Policy.Breaker
use the_kubernetes_of_ai_age.Policy.Cache
use the_kubernetes_of_ai_age.Policy.Cache.{CacheEntry, LruCache}
use the_kubernetes_of_ai_age.Policy.Service.{
  PolicyDecision, Fault, OpaReply, failed, replied, Outcome, decided, thrown, read_result,
  read_reply, PolicyPlaneService, new, Arrival, answered, waiting, arrive, resume,
}
use the_kubernetes_of_ai_age.Policy.Service.World.{
  allows, Log, is_backed, World, Event, arrival, answer, take_out, time, Reply, step, run, start,
}

read_reply-allows :
    (reply : OpaReply) {d : PolicyDecision}
    → read_reply reply ≡ decided d
    → d.allow ≡ true
    → allows reply ≡ true
unfolding read_reply read_result allows member is_true
read_reply-allows (failed message) e h = absurd (ground arith)
read_reply-allows (replied status Json.null) e h = absurd (ground arith)
read_reply-allows (replied status _) e h = ground arith

is_backed_mono :
    (ttl now until : ℕ) (key : String) (log : Log)
    → now ≤ until
    → is_backed ttl log until key ≡ true
    → is_backed ttl log now key ≡ true
is_backed_mono ttl now until key [] h e = e
is_backed_mono ttl now until key (r ∷ log) h e =
    ground (arith, is_backed_mono ttl now until key log h)

get-ttl_ms :
    (now : ℕ) (key : String) (c : LruCache PolicyDecision)
    → (Cache.get now key c).0.ttl_ms ≡ c.ttl_ms
unfolding Cache.get
get-ttl_ms now key c = ground arith

module _ (P : String → CacheEntry PolicyDecision → Type 0) where
  get-AllEntries :
      (now : ℕ) (key : String) (c : LruCache PolicyDecision)
      → AllEntries P c.store
      → AllEntries P (Cache.get now key c).0.store
  unfolding Cache.get
  get-AllEntries now key c h = elim (Option-cases (Maps.get key c.store)) [
    | inl e ↦ rw (e, Cache.get) h
    | inr (entry, e) ↦ elim (Bool-cases (ltb entry.expires_at now)) [
      | inl late ↦ rw (e, late, Cache.get) (AllEntries-delete P key c.store h)
      | inr fresh ↦ rw (e, fresh, Cache.get) h
    ]
  ]

  set-AllEntries :
      (now : ℕ) (key : String) (d : PolicyDecision) (c : LruCache PolicyDecision)
      → P key (record { decision = d; expires_at = now + c.ttl_ms })
      → AllEntries P c.store
      → AllEntries P (Cache.set now key d c).store
  unfolding Cache.set Cache.make_room
  set-AllEntries now key d c p h =
      AllEntries-set P key _ _ p (elim (Bool-cases (leb c.max_size (length c.store))) [
        | inl full ↦ rw full (elim (Option-cases (Maps.first_key c.store)) [
          | inl e ↦ rw e h
          | inr (k, e) ↦ rw e (AllEntries-delete P k c.store h)
        ])
        | inr room ↦ rw room h
      ])

  get_hit :
      (now : ℕ) (key : String) (c : LruCache PolicyDecision) {d : PolicyDecision}
      → AllEntries P c.store
      → (Cache.get now key c).1 ≡ some d
      → (entry : CacheEntry PolicyDecision) × P key entry
        × (entry.decision ≡ d)
        × (now ≤ entry.expires_at)
  unfolding Cache.get
  get_hit now key c h e = elim (Option-cases (Maps.get key c.store)) [
    | inl missing ↦ absurd (ground arith)
    | inr (entry, found) ↦ (entry, AllEntries-get P key c.store h found, ground arith, ground arith)
  ]

outcome_cases :
    (o : Outcome) → ((d : PolicyDecision) × (o ≡ decided d)) ⊎ ((f : Fault) × (o ≡ thrown f))
outcome_cases (decided d) = inl (d, refl)
outcome_cases (thrown f) = inr (f, refl)

arrival_cases :
    (a : Arrival)
    → ((d : PolicyDecision) × (a ≡ answered d)) ⊎ ((p : String) × (k : String) × (a ≡ waiting p k))
arrival_cases (answered d) = inl (d, refl)
arrival_cases (waiting p k) = inr (p, k, refl)

-- An entry that allows is backed up to the end of its time.
abbrev Backed : ℕ → Log → String → CacheEntry PolicyDecision → Type 0
Backed ttl log key entry =
    entry.decision.allow ≡ true → is_backed ttl log entry.expires_at key ≡ true

record Inv (ttl : ℕ) (w : World) : Type 0 where
  ttl_kept : w.service.cache.ttl_ms ≡ ttl
  entries : AllEntries (Backed ttl w.log) w.service.cache.store

module _ {Input : Type 0} (hash_input : Input → String) (ttl : ℕ) where
  arrive_parts :
      (now : ℕ) (path : String) (x : Input) (w : World)
      → Inv ttl w
      → let r = arrive hash_input now path x w.service in
        (r.0.cache.ttl_ms ≡ ttl) × AllEntries (Backed ttl w.log) r.0.cache.store
  unfolding arrive
  arrive_parts now path x w h =
      let key = hash_input x in
      let c = w.service.cache in
      let read = get-AllEntries (Backed ttl w.log) now key c h.entries in
      elim (Bool-cases (Breaker.can_execute now w.service.circuit_breaker).1) [
        | inl may ↦ elim (Option-cases (Cache.get now key c).1) [
          | inl missed ↦
              (rw (may, missed) (get-ttl_ms now key c ∙ h.ttl_kept), rw (may, missed) read)
          | inr (d, hit) ↦ (rw (may, hit) (get-ttl_ms now key c ∙ h.ttl_kept), rw (may, hit) read)
        ]
        | inr may_not ↦ (rw may_not h.ttl_kept, rw may_not h.entries)
      ]

  arrive_allow :
      (now : ℕ) (path : String) (x : Input) (w : World) {d : PolicyDecision}
      → Inv ttl w
      → (arrive hash_input now path x w.service).1 ≡ answered d
      → d.allow ≡ true
      → is_backed ttl w.log now (hash_input x) ≡ true
  unfolding arrive
  arrive_allow now path x w {d} h e allowed =
      elim (Bool-cases (Breaker.can_execute now w.service.circuit_breaker).1) [
        | inl may ↦ elim (Option-cases (Cache.get now (hash_input x) w.service.cache).1) [
          | inl missed ↦ absurd (ground arith)
          | inr (d', hit) ↦
              let (entry, backed, same, fresh) =
                get_hit (Backed ttl w.log) now (hash_input x) w.service.cache h.entries hit in
              is_backed_mono ttl now entry.expires_at (hash_input x) w.log fresh
                (backed (ground arith))
        ]
        | inr may_not ↦ absurd (ground arith)
      ]

  Backed-cons :
      (r : String × ℕ × OpaReply) (log : Log) (key : String) (entry : CacheEntry PolicyDecision)
      → Backed ttl log key entry
      → Backed ttl (r ∷ log) key entry
  Backed-cons r log key entry h allowed = ground (arith, h allowed)

  resume-Inv :
      (now : ℕ) (key : String) (reply : OpaReply) (s : PolicyPlaneService) (log : Log)
      → s.cache.ttl_ms ≡ ttl
      → AllEntries (Backed ttl log) s.cache.store
      → let s' = (resume now key reply s).0 in
        let log' = (key, now, reply) ∷ log in
        (s'.cache.ttl_ms ≡ ttl) × AllEntries (Backed ttl log') s'.cache.store
  unfolding resume Cache.set
  resume-Inv now key reply s log t h = elim (outcome_cases (read_reply reply)) [
    | inl (d, e) ↦ (
      rw (e, resume) t,
      rw (e, resume)
          (set-AllEntries (Backed ttl ((key, now, reply) ∷ log)) now key d s.cache
            (λ allowed. ground (arith, read_reply-allows reply e allowed, eq_refl key))
            (All-imp _ _ (λ x. Backed-cons (key, now, reply) log x.0 x.1) s.cache.store h)),
    )
    | inr (f, e) ↦ (
      rw (e, resume) t,
      rw (e, resume) (All-imp _ _ (λ x. Backed-cons (key, now, reply) log x.0 x.1) s.cache.store h),
    )
  ]

  resume_allow :
      (now : ℕ) (key : String) (reply : OpaReply) (s : PolicyPlaneService) (log : Log)
      → (resume now key reply s).1.allow ≡ true
      → is_backed ttl ((key, now, reply) ∷ log) now key ≡ true
  unfolding resume
  resume_allow now key reply s log allowed = elim (outcome_cases (read_reply reply)) [
    | inl (d, e) ↦
        ground (arith, read_reply-allows reply e (rw (e, resume) at allowed), eq_refl key)
    | inr (f, e) ↦ absurd (ground arith)
  ]

  step-Inv : (w : World) (e : Event Input) → Inv ttl w → Inv ttl (step hash_input w e).0
  unfolding step
  step-Inv w (arrival now path x) h =
      let (t, entries) = arrive_parts now path x w h in
      elim (arrival_cases (arrive hash_input now path x w.service).1) [
        | inl (d, e) ↦ rw (e, step) (record { ttl_kept = t; entries = entries })
        | inr (p, k, e) ↦ rw (e, step) (record { ttl_kept = t; entries = entries })
      ]
  step-Inv w (answer now i reply) h = elim (Option-cases (take_out i w.in_flight)) [
    | inl e ↦ rw (e, step) h
    | inr (((p, k), rest), e) ↦
        let (t, entries) = resume-Inv now k reply w.service w.log h.ttl_kept h.entries in
        rw (e, step) (record { ttl_kept = t; entries = entries })
  ]

  run-Inv : (w : World) (es : List (Event Input)) → Inv ttl w → Inv ttl (run hash_input w es)
  unfolding run
  run-Inv w [] h = h
  run-Inv w (e ∷ es) h = run-Inv (step hash_input w e).0 es (step-Inv w e h)

  step_allow :
      (w : World) (e : Event Input) {r : Reply}
      → Inv ttl w
      → (step hash_input w e).1 ≡ some r
      → r.decision.allow ≡ true
      → is_backed ttl (step hash_input w e).0.log (time e) r.key ≡ true
  unfolding step
  step_allow w (arrival now path x) h e allowed =
      elim (arrival_cases (arrive hash_input now path x w.service).1) [
        | inl (d, got) ↦ ground (arith, arrive_allow now path x w h got)
        | inr (p, k, waits) ↦ absurd (ground arith)
      ]
  step_allow w (answer now i reply) h e allowed = elim (Option-cases (take_out i w.in_flight)) [
    | inl none_there ↦ absurd (ground arith)
    | inr (((p, k), rest), there) ↦ ground (arith, resume_allow now k reply w.service w.log)
  ]

start-Inv :
    (threshold recovery_ms max_size ttl_ms : ℕ)
    → Inv ttl_ms (start threshold recovery_ms max_size ttl_ms)
unfolding start new Cache.new
start-Inv threshold recovery_ms max_size ttl_ms = record { ttl_kept = refl; entries = tt }

-- From a service just made, after any events in any order (calls that arrive, answers of OPA to the
-- calls that wait, in whatever order they come), a decision that allows is backed by OPA: among the
-- answers so far there is one for the same key, with a status of 200 to 299 and a `result.allow` that
-- is true, and it came no longer ago than the cache's time to live.
pub step-allow-is_backed :
    {Input : Type 0} (hash_input : Input → String) (threshold recovery_ms max_size ttl_ms : ℕ)
    (es : List (Event Input)) (e : Event Input) {r : Reply}
    → let w = run hash_input (start threshold recovery_ms max_size ttl_ms) es in
      (step hash_input w e).1 ≡ some r
      → r.decision.allow ≡ true
      → is_backed ttl_ms (step hash_input w e).0.log (time e) r.key ≡ true
step-allow-is_backed hash_input threshold recovery_ms max_size ttl_ms es e =
    step_allow hash_input ttl_ms _ e
      (run-Inv hash_input ttl_ms _ es (start-Inv threshold recovery_ms max_size ttl_ms))
