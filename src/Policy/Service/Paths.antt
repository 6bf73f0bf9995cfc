-- ===== src/Policy/Service/Paths.antt =====
-- The key of the decision cache is the hash of the input alone: the policy path is no part of it.
use the_kubernetes_of_ai_age.Common.{
  ℕ, ◌+◌, ◌≤◌, ◌≡◌, refl, String, false, some, List, [], ◌∷◌, ltb, str_eq, eq_iff, arith, All,
  Bool-cases, Option-cases, inl, inr,
}
use the_kubernetes_of_ai_age.Common.Maps
use the_kubernetes_of_ai_age.Common.Maps.{get-set_self, get-delete}
use the_kubernetes_of_ai_age.Policy.Breaker
use the_kubernetes_of_ai_age.Policy.Breaker.{closed}
use the_kubernetes_of_ai_age.Policy.Cache
use the_kubernetes_of_ai_age.Policy.Cache.{CacheEntry, LruCache}
use the_kubernetes_of_ai_age.Policy.Service.{
  PolicyDecision, OpaReply, decided, read_reply, PolicyPlaneService, answered, arrive, resume,
}

-- Reading the cache loses no entry whose time has not passed.
get-keeps :
    {D : Type 0} (now : ℕ) (key k : String) (entry : CacheEntry D) (c : LruCache D)
    → Maps.get key c.store ≡ some entry
    → now ≤ entry.expires_at
    → Maps.get key (Cache.get now k c).0.store ≡ some entry
unfolding Cache.get
get-keeps now key k entry c h le = elim (Option-cases (Maps.get k c.store)) [
  | inl e ↦ rw (e, Cache.get) h
  | inr (other, e) ↦ elim (Bool-cases (ltb other.expires_at now)) [
    | inl late ↦ elim (Bool-cases (str_eq k key)) [
      | inl same ↦ absurd (ground (arith, h, e, late, le, eq_iff k key))
      | inr differs ↦ rw (e, Cache.get, late) (rw (get-delete k key c.store, differs) h)
    ]
    | inr fresh ↦ rw (e, Cache.get, fresh) h
  ]
]

get-cached :
    {D : Type 0} (now : ℕ) (key : String) (entry : CacheEntry D) (c : LruCache D)
    → Maps.get key c.store ≡ some entry
    → now ≤ entry.expires_at
    → (Cache.get now key c).1 ≡ some entry.decision
unfolding Cache.get
get-cached now key entry c h le =
    let fresh : ltb entry.expires_at now ≡ false = ground arith in rw (h, Cache.get, fresh) refl

-- The breaker is closed and the entry is cached.
record Holds (key : String) (entry : CacheEntry PolicyDecision) (s : PolicyPlaneService)
    : Type 0 where
  is_closed : s.circuit_breaker.state ≡ closed
  cached : Maps.get key s.cache.store ≡ some entry

module _ {Input : Type 0} (hash_input : Input → String) where
  -- Calls with their times and policy paths; the answers of OPA to them have not arrived.
  abbrev pub visits : List (ℕ × String × Input) → PolicyPlaneService → PolicyPlaneService
  visits [] s = s
  visits ((now, policy_path, x) ∷ calls) s = visits calls (arrive hash_input now policy_path x s).0

  arrive-service :
      (now : ℕ) (policy_path : String) (x : Input) (s : PolicyPlaneService)
      → s.circuit_breaker.state ≡ closed
      → ((arrive hash_input now policy_path x s).0.circuit_breaker ≡ s.circuit_breaker)
        × ((arrive hash_input now policy_path x s).0.cache
            ≡ (Cache.get now (hash_input x) s.cache).0)
  unfolding arrive Breaker.can_execute
  arrive-service now policy_path x s h =
      elim (Option-cases (Cache.get now (hash_input x) s.cache).1) [
        | inl e ↦ (simp (h, e) refl, simp (h, e) refl)
        | inr (d, e) ↦ (simp (h, e) refl, simp (h, e) refl)
      ]

  arrive-Holds :
      (now : ℕ) (policy_path key : String) (x : Input) (entry : CacheEntry PolicyDecision)
      (s : PolicyPlaneService)
      → now ≤ entry.expires_at
      → Holds key entry s
      → Holds key entry (arrive hash_input now policy_path x s).0
  arrive-Holds now policy_path key x entry s le h =
      let same = arrive-service now policy_path x s h.is_closed in
      record {
        is_closed = rw (same.0) h.is_closed;
        cached = rw (same.1) (get-keeps now key (hash_input x) entry s.cache h.cached le);
      }

  visits-Holds :
      (key : String) (entry : CacheEntry PolicyDecision) (calls : List (ℕ × String × Input))
      (s : PolicyPlaneService)
      → All (λ c. c.0 ≤ entry.expires_at) calls
      → Holds key entry s
      → Holds key entry (visits calls s)
  visits-Holds key entry [] s early h = h
  visits-Holds key entry ((now, policy_path, x) ∷ calls) s early h =
      visits-Holds key entry calls (arrive hash_input now policy_path x s).0 early.1
        (arrive-Holds now policy_path key x entry s early.0 h)

  resume-Holds :
      (t : ℕ) (key : String) (reply : OpaReply) (d : PolicyDecision) (s : PolicyPlaneService)
      → read_reply reply ≡ decided d
      → Holds key
          (record { decision = d; expires_at = t + s.cache.ttl_ms })
          (resume t key reply s).0
  unfolding resume Breaker.record_success Cache.set
  resume-Holds t key reply d s e =
      rw (e, resume)
        (record {
          is_closed = refl;
          cached = get-set_self key (record { decision = d; expires_at = t + s.cache.ttl_ms }) _;
        })

  Holds-answered :
      (now : ℕ) (policy_path : String) (x : Input) (entry : CacheEntry PolicyDecision)
      (s : PolicyPlaneService)
      → Holds (hash_input x) entry s
      → now ≤ entry.expires_at
      → (arrive hash_input now policy_path x s).1 ≡ answered entry.decision
  unfolding arrive Breaker.can_execute
  Holds-answered now policy_path x entry s h le =
      let cached = get-cached now (hash_input x) entry s.cache h.cached le in
      simp (h.is_closed, cached) refl

  -- When OPA's answer to a call for an input gives a decision, then a call with the same input, under any
  -- policy path, within the cache's time to live gets this decision without asking OPA, whatever other
  -- calls for any inputs and under any paths were made within that time in between, as long as no answer
  -- of OPA to them arrives first.
  pub arrive-visits-resume :
      (t now : ℕ) (policy_path : String) (x : Input) (reply : OpaReply) (d : PolicyDecision)
      (calls : List (ℕ × String × Input)) (s : PolicyPlaneService)
      → read_reply reply ≡ decided d
      → All (λ c. c.0 ≤ t + s.cache.ttl_ms) calls
      → now ≤ t + s.cache.ttl_ms
      → (arrive hash_input now policy_path x (visits calls (resume t (hash_input x) reply s).0)).1
        ≡ answered d
  arrive-visits-resume t now policy_path x reply d calls s e early h =
      let entry : CacheEntry PolicyDecision = record {
        decision = d;
        expires_at = t + s.cache.ttl_ms;
      } in
      Holds-answered now policy_path x entry (visits calls (resume t (hash_input x) reply s).0)
        (visits-Holds (hash_input x) entry calls (resume t (hash_input x) reply s).0 early
          (resume-Holds t (hash_input x) reply d s e))
        h
