-- ===== src/Shared/Tests.antt =====
-- Runs of the shared parts on concrete inputs.
use the_kubernetes_of_ai_age.Common.{
  ◌*◌, ◌+◌, ◌≤◌, ◌<◌, ◌≡◌, ◌↔◌, ◌⊎◌, ◌++◌, true, false, refl, none, some, List, [], ◌∷◌, arith,
  length, keep,
}
use the_kubernetes_of_ai_age.Common.Maps
use the_kubernetes_of_ai_age.Shared.Budget
use the_kubernetes_of_ai_age.Shared.Budget.{
  BudgetAllocation, PartialAllocation, TokenBudget, Verdict,
}
use the_kubernetes_of_ai_age.Shared.Budget.Bounds
use the_kubernetes_of_ai_age.Shared.Budget.Days
use the_kubernetes_of_ai_age.Shared.Semaphore
use the_kubernetes_of_ai_age.Shared.Semaphore.{
  AsyncSemaphore, call_acquire, call_release, timer, arrived, acquired, timed_out, released,
}
use the_kubernetes_of_ai_age.Shared.Semaphore.Laws
use the_kubernetes_of_ai_age.Shared.Semaphore.Order
use the_kubernetes_of_ai_age.Shared.RateLimiter
use the_kubernetes_of_ai_age.Shared.RateLimiter.{Event, Answer}
use the_kubernetes_of_ai_age.Shared.RateLimiter.Window
use the_kubernetes_of_ai_age.Shared.RateLimiter.Retry

abbrev small : BudgetAllocation
small = record { max_tokens_per_day = 100; max_cost_per_day = 50; max_requests_per_minute = 2 }

abbrev unchanged : PartialAllocation
unchanged = record {
  max_tokens_per_day = none;
  max_cost_per_day = none;
  max_requests_per_minute = none;
}

abbrev one_request : PartialAllocation
one_request = record {
  max_tokens_per_day = none;
  max_cost_per_day = none;
  max_requests_per_minute = some 1;
}

abbrev calls : List Bounds.Call
calls = Bounds.consume 10 "a" 60 20 ∷ Bounds.consume 20 "a" 60 20 ∷ Bounds.ask_usage 30 "b" ∷ []

abbrev budget : TokenBudget
budget = Budget.new small unchanged

namespace-team : Budget.extract_namespace "team/agent" ≡ "team"
unfolding Budget.extract_namespace
namespace-team = refl

namespace-default : Budget.extract_namespace "agent" ≡ "default"
unfolding Budget.extract_namespace
namespace-default = refl

second-refused :
    (Budget.try_consume 20 "a" 60 20 (Budget.try_consume 10 "a" 60 20 budget).0).1
    ≡ Verdict.daily_token_budget_exceeded
unfolding Budget.try_consume Budget.new Maps.get Maps.set
second-refused = refl

spent_budget : TokenBudget
unfolding Budget.try_consume Budget.new
spent_budget = (Budget.try_consume 10 "a" 100 20 budget).0

run-new-IsWithin_example :
    Bounds.IsWithin
      (Budget.allocation "a" (Bounds.run calls (Bounds.configure (("b", one_request) ∷ []) budget)))
      (Budget.current 30 "a" (Bounds.run calls (Bounds.configure (("b", one_request) ∷ []) budget)))
run-new-IsWithin_example =
    Bounds.run-new-IsWithin small unchanged (("b", one_request) ∷ []) calls 30 "a"

abbrev events : List Event
events =
    Event.check_at 10 "a" ∷ Event.check_at 20 "a" ∷ Event.cleanup_at 60 ∷ Event.check_at 70 "a" ∷ []

run-window-le_example :
    length (
      keep
        (Window.in_window 100 105)
        (Window.times "a" (RateLimiter.run events (RateLimiter.new 2 100)).1))
    ≤ 2
run-window-le_example =
    Window.run-window-le 2 100 events "a" 105
      (omega arith, (omega arith, (omega arith, (omega arith, tt))))

check-allowed-iff_room_example :
    ((RateLimiter.check 110 "a" (RateLimiter.run events (RateLimiter.new 2 100)).0).1
      ≡ Answer.allowed)
    ↔ (length (
          keep
            (RateLimiter.is_active 100 110)
            (Window.times "a" (RateLimiter.run events (RateLimiter.new 2 100)).1))
        < 2)
check-allowed-iff_room_example =
    Window.check-allowed-iff_room 2 100 events 110 "a"
      (omega arith, (omega arith, (omega arith, (omega arith, tt)))) (omega arith)

third-limited :
    (RateLimiter.check 80 "a" (RateLimiter.run events (RateLimiter.new 2 100)).0).1
    ≡ Answer.limited (some 30)
unfolding RateLimiter.check RateLimiter.run RateLimiter.new RateLimiter.sweep Maps.get Maps.set
third-limited = refl

check-retry_after_example :
    (RateLimiter.check
      (80 + 30)
      "a"
      (RateLimiter.check 80 "a" (RateLimiter.run events (RateLimiter.new 2 100)).0).0).1
    ≡ Answer.allowed
check-retry_after_example = Retry.check-retry_after 2 100 events 80 30 "a" third-limited

abbrev semaphore : AsyncSemaphore
semaphore = record { current = 0; waiters = []; max = 1; next_caller = 0 }

abbrev turns : List Semaphore.Event
turns = call_acquire false ∷ call_acquire true ∷ call_acquire false ∷ call_release ∷ []

timer-skips :
    (Semaphore.run
      (call_acquire false ∷ call_acquire true ∷ call_acquire false ∷ timer 1 ∷ call_release ∷ [])
      semaphore).1
    ≡ arrived 0 ∷ acquired 0 ∷ arrived 1 ∷ arrived 2 ∷ timed_out 1 ∷ released ∷ acquired 2 ∷ []
unfolding Semaphore.run Semaphore.step Semaphore.acquire Semaphore.release Semaphore.time_out
timer-skips = refl

run-new-IsFair_example :
    (Semaphore.running (Semaphore.run turns semaphore).0 ≤ 1)
    × ((Semaphore.pending (Semaphore.run turns semaphore).0 ≡ 0)
        ⊎ (Semaphore.running (Semaphore.run turns semaphore).0 ≡ 1))
    × (Laws.acquisitions (Semaphore.run turns semaphore).1
        ≡ Semaphore.running (Semaphore.run turns semaphore).0
          + Laws.releases (Semaphore.run turns semaphore).1)
unfolding Semaphore.new
run-new-IsFair_example = Laws.run-new-IsFair 1 turns semaphore refl

run-new-serves_example :
    Order.served (Semaphore.run turns semaphore).1
      ++ Order.waiting (Semaphore.run turns semaphore).0.waiters
    ≡ Order.callers (Semaphore.run turns semaphore).1
unfolding Semaphore.new
run-new-serves_example = Order.run-new-serves 1 turns semaphore refl refl

total-le_example :
    Days.total "a" calls (Bounds.run calls (Bounds.configure [] budget))
    ≤ 2 * (Budget.allocation "a" (Bounds.configure [] budget)).max_tokens_per_day
total-le_example = Days.total-le 0 small unchanged [] calls calls "a" refl
