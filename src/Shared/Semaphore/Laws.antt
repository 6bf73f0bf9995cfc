-- ===== src/Shared/Semaphore/Laws.antt =====
-- What the semaphore bounds, and the order in which it serves.
use the_kubernetes_of_ai_age.Common.{
  ℕ, suc, ◌+◌, ◌≤◌, ◌≡◌, ◌⊎◌, refl, sym, ap, ◌∙◌, Bool, List, [], ◌∷◌, ◌++◌, some, ltb, exists,
  arith, Bool-cases, inl, inr, if_rule,
}
use the_kubernetes_of_ai_age.Shared.Semaphore.{
  Waiter, AsyncSemaphore, Effect, arrived, acquired, timed_out, released, new, acquire, release_to,
  release, is_timed, time_out, pending, running, Event, call_acquire, call_release, timer, step,
  run,
}

abbrev pub acquisitions : List Effect → ℕ
acquisitions [] = 0
acquisitions (acquired c ∷ es) = suc (acquisitions es)
acquisitions (_ ∷ es) = acquisitions es

abbrev pub releases : List Effect → ℕ
releases [] = 0
releases (released ∷ es) = suc (releases es)
releases (_ ∷ es) = releases es

acquisitions-append : (a b : List Effect) → acquisitions (a ++ b) ≡ acquisitions a + acquisitions b
acquisitions-append [] b = omega arith
acquisitions-append (arrived c ∷ a) b = acquisitions-append a b
acquisitions-append (acquired c ∷ a) b = omega (arith, acquisitions-append a b)
acquisitions-append (timed_out c ∷ a) b = acquisitions-append a b
acquisitions-append (released ∷ a) b = acquisitions-append a b

releases-append : (a b : List Effect) → releases (a ++ b) ≡ releases a + releases b
releases-append [] b = omega arith
releases-append (arrived c ∷ a) b = releases-append a b
releases-append (acquired c ∷ a) b = releases-append a b
releases-append (timed_out c ∷ a) b = releases-append a b
releases-append (released ∷ a) b = omega (arith, releases-append a b)

-- No more callers run than the limit allows, and none waits while a slot is free.
pub record IsFair (s : AsyncSemaphore) : Type 0 where
  pub bounded : s.current ≤ s.max
  pub busy : (s.waiters ≡ []) ⊎ (s.current ≡ s.max)

record IsStep (s r : AsyncSemaphore) (effects : List Effect) : Type 0 where
  fair : IsFair r
  counted : s.current + acquisitions effects ≡ r.current + releases effects
  limit : r.max ≡ s.max

acquire-IsStep :
    (timed : Bool) (s : AsyncSemaphore)
    → IsFair s
    → IsStep s (acquire timed s).0 (acquire timed s).1
unfolding acquire
acquire-IsStep timed s h =
    if_rule {A = AsyncSemaphore × List Effect} (λ r. IsStep s r.0 r.1) (ltb s.current s.max)
      (λ free. record {
        fair = record {
          bounded = ground arith;
          busy = elim h.busy [ inl e ↦ inl e | inr e ↦ absurd (ground arith) ];
        };
        counted = omega arith;
        limit = refl;
      })
      (λ full. record {
        fair = record { bounded = h.bounded; busy = inr (ground (arith, h.bounded)) };
        counted = omega arith;
        limit = refl;
      })

same-IsStep : (s : AsyncSemaphore) → IsFair s → IsStep s s []
same-IsStep s h = record { fair = h; counted = omega arith; limit = refl }

release_to-IsStep :
    (ws : List Waiter) (s : AsyncSemaphore)
    → s.waiters ≡ ws
    → IsFair s
    → IsStep s (release_to ws s).0 (release_to ws s).1
release_to-IsStep (next ∷ rest) s e h = record {
  fair = record {
    bounded = h.bounded;
    busy = elim h.busy [ inl none_left ↦ absurd (ground arith) | inr full ↦ inr full ];
  };
  counted = omega arith;
  limit = refl;
}
release_to-IsStep [] s e h =
    if_rule {A = AsyncSemaphore × List Effect} (λ r. IsStep s r.0 r.1) (ltb 0 s.current)
      (λ some_run. record {
        fair = record { bounded = omega (arith, h.bounded); busy = inl e };
        counted = ground arith;
        limit = refl;
      })
      (λ none_runs. same-IsStep s h)

time_out-IsStep :
    (caller : ℕ) (s : AsyncSemaphore)
    → IsFair s
    → IsStep s (time_out caller s).0 (time_out caller s).1
unfolding time_out
time_out-IsStep caller s h =
    if_rule {A = AsyncSemaphore × List Effect} (λ r. IsStep s r.0 r.1)
      (exists (is_timed caller) s.waiters)
      (λ waits. record {
        fair = record {
          bounded = h.bounded;
          busy = elim h.busy [ inl e ↦ inl (rw e refl) | inr full ↦ inr full ];
        };
        counted = omega arith;
        limit = refl;
      })
      (λ gone. same-IsStep s h)

step-IsStep : (e : Event) (s : AsyncSemaphore) → IsFair s → IsStep s (step e s).0 (step e s).1
unfolding step release
step-IsStep (call_acquire timed) s h = acquire-IsStep timed s h
step-IsStep call_release s h = release_to-IsStep s.waiters s refl h
step-IsStep (timer caller) s h = time_out-IsStep caller s h

pub step-IsFair : (e : Event) (s : AsyncSemaphore) → IsFair s → IsFair (step e s).0
step-IsFair e s h = (step-IsStep e s h).fair

run-IsStep : (es : List Event) (s : AsyncSemaphore) → IsFair s → IsStep s (run es s).0 (run es s).1
unfolding run
run-IsStep [] s h = same-IsStep s h
run-IsStep (e ∷ es) s h =
    let one = step-IsStep e s h in
    let r = step e s in
    let rest = run-IsStep es r.0 one.fair in
    record {
      fair = rest.fair;
      counted =
          rw (acquisitions-append r.1 (run es r.0).1, releases-append r.1 (run es r.0).1)
            (omega (arith, one.counted, rest.counted));
      limit = rest.limit ∙ one.limit;
    }

pub new-start :
    (max : ℕ) (s : AsyncSemaphore)
    → new max ≡ some s
    → (s.current ≡ 0) × (s.waiters ≡ []) × (s.max ≡ max)
unfolding new
new-start max s h = elim (Bool-cases (ltb max 1)) [
  | inl low ↦ absurd (ground arith)
  | inr high ↦
      let e : record { current = 0; waiters = []; max = max; next_caller = 0 } ≡ s = ground arith in
      (ap (λ r. r.current) (sym e), ap (λ r. r.waiters) (sym e), ap (λ r. r.max) (sym e))
]

-- After any calls of acquire and release and any timers, the callers that run are those that acquired
-- and have not been released, they are never more than the limit, and if a caller waits they are as
-- many as the limit.
pub run-new-IsFair :
    (max : ℕ) (es : List Event) (s : AsyncSemaphore)
    → new max ≡ some s
    → (running (run es s).0 ≤ max)
      × ((pending (run es s).0 ≡ 0) ⊎ (running (run es s).0 ≡ max))
      × (acquisitions (run es s).1 ≡ running (run es s).0 + releases (run es s).1)
unfolding running pending
run-new-IsFair max es s h =
    let start = new-start max s h in
    let end_ = run-IsStep es s (record { bounded = omega (arith, start.0); busy = inl start.1 }) in
    let limit = end_.limit ∙ start.2 in
    (
      omega (arith, end_.fair.bounded, limit),
      elim end_.fair.busy [ inl e ↦ inl (rw e refl) | inr e ↦ inr (e ∙ limit) ],
      omega (arith, end_.counted, start.0),
    )
