-- ===== src/ToolProxy/Call/Rates.antt =====
-- execution-plane/tool-proxy/src/index.ts: `CallTool` over a run of calls, with the limiter's cleanup
-- between them.
use native.Mathlib.Decide.{dec_lt}
use the_kubernetes_of_ai_age.Common.{
  ℕ, ◌+◌, ◌*◌, ◌≤◌, String, Bool, List, [], ◌∷◌, ◌++◌, ◌≡◌, refl, ◌∙◌, arith, keep, length,
  keep-append, length-append, if_rule,
}
use the_kubernetes_of_ai_age.Common.Json
use the_kubernetes_of_ai_age.Shared.RateLimiter.{
  RateLimiter, Answer, allowed, limited, check, cleanup, Event, check_at, cleanup_at, grant, run,
  new,
}
use the_kubernetes_of_ai_age.Shared.RateLimiter.Window.{IsOrdered, run-window-le}
use the_kubernetes_of_ai_age.Shared.RateLimiter.Window.Times.{times, times-append, in_window}
use the_kubernetes_of_ai_age.ToolProxy.Call.{Done, send, dispatch, admitted, rate_key, call_tool}
use the_kubernetes_of_ai_age.ToolProxy.Fetch.{Outcome, Step, sent, slept}
use the_kubernetes_of_ai_age.ToolProxy.Fetch.Laws.{sent_count, fetch_with_retry-le}
use the_kubernetes_of_ai_age.ToolProxy.Prepare.{
  Env, Call, HttpRequest, scan_for_pii, Guarded, refuse, pass, prepare,
}
use the_kubernetes_of_ai_age.ToolProxy.Urls.{tool_registry, Lookup, registered, inherited, unknown}

pub data ProxyEvent : Type 0 where
  called : ℕ → Call → ProxyEvent
  cleaned : ℕ → ProxyEvent

-- The limiter's share of an event.
abbrev pub limiter_event : ProxyEvent → Event
limiter_event (called now call) = check_at now (rate_key call)
limiter_event (cleaned now) = cleanup_at now

abbrev pub limiter_events : List ProxyEvent → List Event
limiter_events [] = []
limiter_events (e ∷ es) = limiter_event e ∷ limiter_events es

-- The requests that the steps of a call sent over the network, each with the time of the call.
abbrev pub sent_for : ℕ → String → List Step → List (String × ℕ)
sent_for now key [] = []
sent_for now key (sent attempt ∷ steps) = (key, now) ∷ sent_for now key steps
sent_for now key (slept ms ∷ steps) = sent_for now key steps

-- The requests that were sent, repeated attempts included, with the keys and times of their calls.
unfoldable pub sent_by :
    Env → (HttpRequest → ℕ → Outcome) → List ProxyEvent → RateLimiter → List (String × ℕ)
unfolding call_tool cleanup
sent_by env fetch [] l = []
sent_by env fetch (called now call ∷ es) l =
    let d = call_tool env fetch now call l in
    sent_for now (rate_key call) d.steps ++ sent_by env fetch es d.limiter
sent_by env fetch (cleaned now ∷ es) l = sent_by env fetch es (cleanup now l)

abbrev count : (ℕ → Bool) → String → List (String × ℕ) → ℕ
count p key g = length (keep p (times key g))

count-append :
    (p : ℕ → Bool) (key : String) (g h : List (String × ℕ))
    → count p key (g ++ h) ≡ count p key g + count p key h
count-append p key g h =
    rw (times-append key g h, keep-append p (times key g) (times key h))
      (length-append (keep p (times key g)) (keep p (times key h)))

sent_for-zero :
    (p : ℕ → Bool) (key k : String) (now : ℕ) (steps : List Step)
    → count p key ((k, now) ∷ []) ≡ 0
    → count p key (sent_for now k steps) ≡ 0
sent_for-zero p key k now [] e = refl
sent_for-zero p key k now (sent n ∷ steps) e =
    count-append p key ((k, now) ∷ []) (sent_for now k steps)
    ∙ omega (arith, e, sent_for-zero p key k now steps e)
sent_for-zero p key k now (slept ms ∷ steps) e = sent_for-zero p key k now steps e

sent_for-count :
    (p : ℕ → Bool) (key k : String) (now : ℕ) (steps : List Step)
    → count p key ((k, now) ∷ []) ≤ 1
    → count p key (sent_for now k steps) ≤ sent_count steps
sent_for-count p key k now [] h = omega arith
sent_for-count p key k now (sent n ∷ steps) h =
    let e = count-append p key ((k, now) ∷ []) (sent_for now k steps) in
    omega (arith, e, h, sent_for-count p key k now steps h)
sent_for-count p key k now (slept ms ∷ steps) h = sent_for-count p key k now steps h

one-le : (p : ℕ → Bool) (key k : String) (now : ℕ) → count p key ((k, now) ∷ []) ≤ 1
one-le p key k now = ground arith

sent_for-le :
    (p : ℕ → Bool) (key k : String) (now : ℕ) (steps : List Step)
    → sent_count steps ≤ 4
    → count p key (sent_for now k steps) ≤ 4 * count p key ((k, now) ∷ [])
sent_for-le p key k now steps few = elim (dec_lt 0 (count p key ((k, now) ∷ []))) [
  | yes counted ↦ omega (arith, counted, sent_for-count p key k now steps (one-le p key k now))
  | no missed ↦ omega (arith, sent_for-zero p key k now steps (omega (arith, missed)))
]

module _ (env : Env) (fetch : HttpRequest → ℕ → Outcome) where
  send-limiter :
      (call : Call) (l : RateLimiter) (p : Guarded HttpRequest) → (send fetch call l p).limiter ≡ l
  send-limiter call l (refuse e) = refl
  send-limiter call l (pass r) = refl

  dispatch-limiter :
      (call : Call) (l : RateLimiter) (k : Lookup) → (dispatch env fetch call l k).limiter ≡ l
  unfolding dispatch
  dispatch-limiter call l unknown = refl
  dispatch-limiter call l inherited =
      if_rule {A = Done} (λ d. d.limiter ≡ l) (scan_for_pii env (Json.object call.args)) (λ e. refl)
        (λ e. refl)
  dispatch-limiter call l (registered config) =
      if_rule {A = Done} (λ d. d.limiter ≡ l) (scan_for_pii env (Json.object call.args)) (λ e. refl)
        (λ e. send-limiter call l (prepare env call config))

  admitted-limiter :
      (call : Call) (a : RateLimiter × Answer) → (admitted env fetch call a).limiter ≡ a.0
  admitted-limiter call (l, limited wait) = refl
  admitted-limiter call (l, allowed) = dispatch-limiter call l _

  call_tool-limiter :
      (now : ℕ) (call : Call) (l : RateLimiter)
      → (call_tool env fetch now call l).limiter ≡ (check now (rate_key call) l).0
  unfolding call_tool
  call_tool-limiter now call l = admitted-limiter call (check now (rate_key call) l)

  send-steps :
      (call : Call) (l : RateLimiter) (p : Guarded HttpRequest)
      → sent_count (send fetch call l p).steps ≤ 4
  send-steps call l (refuse e) = omega arith
  send-steps call l (pass r) = (fetch_with_retry-le (fetch r) 3).0

  dispatch-steps :
      (call : Call) (l : RateLimiter) (k : Lookup)
      → sent_count (dispatch env fetch call l k).steps ≤ 4
  unfolding dispatch
  dispatch-steps call l unknown = omega arith
  dispatch-steps call l inherited =
      if_rule {A = Done} (λ d. sent_count d.steps ≤ 4) (scan_for_pii env (Json.object call.args))
        (λ e. omega arith) (λ e. omega arith)
  dispatch-steps call l (registered config) =
      if_rule {A = Done} (λ d. sent_count d.steps ≤ 4) (scan_for_pii env (Json.object call.args))
        (λ e. omega arith) (λ e. send-steps call l (prepare env call config))

  admitted-le :
      (p : ℕ → Bool) (key : String) (now : ℕ) (call : Call) (a : RateLimiter × Answer)
      → count p key (sent_for now (rate_key call) (admitted env fetch call a).steps)
        ≤ 4 * count p key (grant now (rate_key call) a.1)
  admitted-le p key now call (l, limited wait) = omega arith
  admitted-le p key now call (l, allowed) =
      let lookup = tool_registry env.variables call.tool_name in
      sent_for-le p key (rate_key call) now (dispatch env fetch call l lookup).steps
        (dispatch-steps call l lookup)

  call_tool-le :
      (p : ℕ → Bool) (key : String) (now : ℕ) (call : Call) (l : RateLimiter)
      → count p key (sent_for now (rate_key call) (call_tool env fetch now call l).steps)
        ≤ 4 * count p key (grant now (rate_key call) (check now (rate_key call) l).1)
  unfolding call_tool
  call_tool-le p key now call l = admitted-le p key now call (check now (rate_key call) l)

  sent_by-le :
      (p : ℕ → Bool) (key : String) (es : List ProxyEvent) (l : RateLimiter)
      → count p key (sent_by env fetch es l) ≤ 4 * count p key (run (limiter_events es) l).1
  unfolding sent_by run
  sent_by-le p key [] l = omega arith
  sent_by-le p key (called now call ∷ es) l =
      let next = (check now (rate_key call) l).0 in
      rw
        (
          call_tool-limiter now call l,
          count-append p key (sent_for now (rate_key call) (call_tool env fetch now call l).steps)
              (sent_by env fetch es next),
          count-append p key (grant now (rate_key call) (check now (rate_key call) l).1)
              (run (limiter_events es) next).1,
        )
        (omega (arith, call_tool-le p key now call l, sent_by-le p key es next))
  sent_by-le p key (cleaned now ∷ es) l = sent_by-le p key es (cleanup now l)

-- When the clock does not run back, the calls that one user or agent makes of one tool within a window
-- lead to no more HTTP requests than four times the limit of the rate limiter, repeated attempts
-- included, wherever the window ends and however other calls and cleanups fall between them.
pub sent_by-window-le :
    (env : Env) (fetch : HttpRequest → ℕ → Outcome) (n window : ℕ) (es : List ProxyEvent)
    (key : String) (end : ℕ)
    → IsOrdered 0 (limiter_events es)
    → length (keep (in_window window end) (times key (sent_by env fetch es (new n window)))) ≤ 4 * n
sent_by-window-le env fetch n window es key end o = omega (
  arith,
  sent_by-le env fetch (in_window window end) key es (new n window),
  run-window-le n window (limiter_events es) key end o,
)
