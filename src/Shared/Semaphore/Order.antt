-- ===== src/Shared/Semaphore/Order.antt =====
-- The semaphore serves its callers in the order of their calls.
use the_kubernetes_of_ai_age.Common.{
  ℕ, ◌≡◌, refl, sym, ap, subst, Bool, true, false, not, List, [], ◌∷◌, ◌++◌, append-nil,
  append_assoc, some, ltb, every, arith, inl, inr, if_rule,
}
use the_kubernetes_of_ai_age.Shared.Semaphore.{
  Waiter, AsyncSemaphore, Effect, arrived, acquired, timed_out, released, new, acquire, release_to,
  release, Event, call_acquire, call_release, timer, step, run,
}
use the_kubernetes_of_ai_age.Shared.Semaphore.Laws.{IsFair, step-IsFair, new-start}

abbrev pub served : List Effect → List ℕ
served [] = []
served (acquired c ∷ es) = c ∷ served es
served (_ ∷ es) = served es

abbrev pub callers : List Effect → List ℕ
callers [] = []
callers (arrived c ∷ es) = c ∷ callers es
callers (_ ∷ es) = callers es

abbrev pub waiting : List Waiter → List ℕ
waiting [] = []
waiting (w ∷ ws) = w.caller ∷ waiting ws

served-append : (a b : List Effect) → served (a ++ b) ≡ served a ++ served b
served-append [] b = refl
served-append (arrived c ∷ a) b = served-append a b
served-append (acquired c ∷ a) b = ap (λ xs. c ∷ xs) (served-append a b)
served-append (timed_out c ∷ a) b = served-append a b
served-append (released ∷ a) b = served-append a b

callers-append : (a b : List Effect) → callers (a ++ b) ≡ callers a ++ callers b
callers-append [] b = refl
callers-append (arrived c ∷ a) b = ap (λ xs. c ∷ xs) (callers-append a b)
callers-append (acquired c ∷ a) b = callers-append a b
callers-append (timed_out c ∷ a) b = callers-append a b
callers-append (released ∷ a) b = callers-append a b

waiting-append : (a b : List Waiter) → waiting (a ++ b) ≡ waiting a ++ waiting b
waiting-append [] b = refl
waiting-append (w ∷ a) b = ap (λ xs. w.caller ∷ xs) (waiting-append a b)

abbrev pub is_timer : Event → Bool
is_timer (timer c) = true
is_timer _ = false

abbrev IsServed : AsyncSemaphore → AsyncSemaphore × List Effect → Type 0
IsServed s r = served r.1 ++ waiting r.0.waiters ≡ waiting s.waiters ++ callers r.1

acquire-IsServed : (timed : Bool) (s : AsyncSemaphore) → IsFair s → IsServed s (acquire timed s)
unfolding acquire
acquire-IsServed timed s h =
    if_rule {A = AsyncSemaphore × List Effect} (IsServed s) (ltb s.current s.max)
      (λ free. elim h.busy [ inl e ↦ rw e refl | inr e ↦ absurd (ground arith) ])
      (λ full.
        waiting-append s.waiters ((record { caller = s.next_caller; has_timer = timed }) ∷ []))

release_to-IsServed :
    (ws : List Waiter) (s : AsyncSemaphore) → s.waiters ≡ ws → IsServed s (release_to ws s)
release_to-IsServed (next ∷ rest) s e = rw e (sym (append-nil (waiting (next ∷ rest))))
release_to-IsServed [] s e =
    if_rule {A = AsyncSemaphore × List Effect} (IsServed s) (ltb 0 s.current)
      (λ running. sym (append-nil (waiting s.waiters)))
      (λ idle. sym (append-nil (waiting s.waiters)))

step-IsServed :
    (e : Event) (s : AsyncSemaphore) → is_timer e ≡ false → IsFair s → IsServed s (step e s)
unfolding step release
step-IsServed (call_acquire timed) s u h = acquire-IsServed timed s h
step-IsServed call_release s u h = release_to-IsServed s.waiters s refl
step-IsServed (timer c) s u h = absurd (ground arith)

run-IsServed :
    (es : List Event) (s : AsyncSemaphore)
    → every (λ e. not (is_timer e)) es ≡ true
    → IsFair s
    → IsServed s (run es s)
unfolding run
run-IsServed [] s u h = sym (append-nil (waiting s.waiters))
run-IsServed (e ∷ es) s u h =
    let r = step e s in
    let rest = run es r.0 in
    let one = step-IsServed e s (ground arith) h in
    let later = run-IsServed es r.0 (ground arith) (step-IsFair e s h) in
    rw
      (
        served-append r.1 rest.1,
        callers-append r.1 rest.1,
        append_assoc (served r.1) (served rest.1) (waiting rest.0.waiters),
        later,
      )
      (rw
        (
          sym (append_assoc (served r.1) (waiting r.0.waiters) (callers rest.1)),
          one,
          append_assoc (waiting s.waiters) (callers r.1) (callers rest.1),
        )
        refl)

-- As long as no timer fires, the callers that were served, followed by those that wait, are the callers
-- in the order of their calls: nobody is overtaken or forgotten.
pub run-new-serves :
    (max : ℕ) (es : List Event) (s : AsyncSemaphore)
    → new max ≡ some s
    → every (λ e. not (is_timer e)) es ≡ true
    → served (run es s).1 ++ waiting (run es s).0.waiters ≡ callers (run es s).1
run-new-serves max es s h u =
    let start = new-start max s h in
    subst
      (λ ws.
        served (run es s).1 ++ waiting (run es s).0.waiters ≡ waiting ws ++ callers (run es s).1)
      start.1
      (run-IsServed es s u (record { bounded = omega (arith, start.0); busy = inl start.1 }))
