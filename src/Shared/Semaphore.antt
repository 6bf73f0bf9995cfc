-- ===== src/Shared/Semaphore.antt =====
-- packages/shared/src/grpc/async-semaphore.ts: the class `AsyncSemaphore`. A caller of `acquire` is the
-- number of its call; the promises that are resolved are effects, and the timer of a waiter an event.
pub mod Laws
pub mod Order
use the_kubernetes_of_ai_age.Common.{
  ℕ, ◌+◌, ◌-◌, Bool, true, false, not, ◌&&◌, List, [], ◌∷◌, ◌++◌, Option, none, some, if◌then◌else◌,
  ltb, ◌==◌, length, exists, keep,
}

pub record Waiter : Type 0 where
  pub caller : ℕ
  pub has_timer : Bool

pub record AsyncSemaphore : Type 0 where
  pub current : ℕ
  pub waiters : List Waiter
  pub max : ℕ
  pub next_caller : ℕ

pub data Effect : Type 0 where
  arrived : ℕ → Effect
  acquired : ℕ → Effect
  timed_out : ℕ → Effect
  released : Effect

-- The constructor throws where `max` is 0.
unfoldable pub new : ℕ → Option AsyncSemaphore
new max =
    if ltb max 1
    then none
    else some (record { current = 0; waiters = []; max = max; next_caller = 0 })

-- `acquire`, with whether it was given a timeout above 0.
unfoldable pub acquire : Bool → AsyncSemaphore → AsyncSemaphore × List Effect
acquire timed s =
    let caller = s.next_caller in
    let s' = record s { next_caller = caller + 1 } in
    if ltb s.current s.max
    then (record s' { current = s.current + 1 }, arrived caller ∷ acquired caller ∷ [])
    else (
      record s' { waiters = s.waiters ++ (record { caller = caller; has_timer = timed }) ∷ [] },
      arrived caller ∷ [],
    )

abbrev pub release_to : List Waiter → AsyncSemaphore → AsyncSemaphore × List Effect
release_to (next ∷ rest) s = (record s { waiters = rest }, released ∷ acquired next.caller ∷ [])
release_to [] s =
    if ltb 0 s.current then (record s { current = s.current - 1 }, released ∷ []) else (s, [])

unfoldable pub release : AsyncSemaphore → AsyncSemaphore × List Effect
release s = release_to s.waiters s

abbrev pub is_timed : ℕ → Waiter → Bool
is_timed caller w = w.has_timer && (w.caller == caller)

-- The timer of a caller. One that has been cleared, or was never set, does not run.
unfoldable pub time_out : ℕ → AsyncSemaphore → AsyncSemaphore × List Effect
time_out caller s =
    if exists (is_timed caller) s.waiters
    then (
      record s { waiters = keep (λ w. not (is_timed caller w)) s.waiters },
      timed_out caller ∷ [],
    )
    else (s, [])

unfoldable pub pending : AsyncSemaphore → ℕ
pending s = length s.waiters

unfoldable pub running : AsyncSemaphore → ℕ
running s = s.current

pub data Event : Type 0 where
  call_acquire : Bool → Event
  call_release : Event
  timer : ℕ → Event

unfoldable pub step : Event → AsyncSemaphore → AsyncSemaphore × List Effect
step (call_acquire timed) s = acquire timed s
step call_release s = release s
step (timer caller) s = time_out caller s

unfoldable pub run : List Event → AsyncSemaphore → AsyncSemaphore × List Effect
unfolding step
run [] s = (s, [])
run (e ∷ es) s = let r = step e s in let rest = run es r.0 in (rest.0, r.1 ++ rest.1)
