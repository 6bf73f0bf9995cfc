-- ===== src/Shared/RateLimiter/Window.antt =====
-- The rate limiter counts what it allowed in the window, though it forgets what has left it.
pub mod Times
mod Steps
pub use Times.*
pub use Steps.*
use the_kubernetes_of_ai_age.Common.{
  ℕ, ◌+◌, max, ◌≤◌, ◌<◌, ◌≡◌, ◌↔◌, sym, subst, ◌∙◌, refl, String, Bool, true, false, Option, none,
  some, List, [], ◌∷◌, ◌++◌, if◌then◌else◌, ltb, leb, keep, keep-append, length, length-append,
  length-keep-le, is_empty, arith, Bool-cases, Option-cases, inl, inr, eq_refl, eq_iff, str_eq,
  if_rule, append-nil, append_assoc,
}
use the_kubernetes_of_ai_age.Common.Maps
use the_kubernetes_of_ai_age.Common.Maps.{get-set}
use the_kubernetes_of_ai_age.Common.Maps.Distinct.{IsDistinct, set-IsDistinct}
use the_kubernetes_of_ai_age.Shared.RateLimiter.{
  RateLimiter, new, Answer, allowed, limited, is_active, or_empty, bucket, active_at, retry_after,
  check, sweep, cleanup, Event, check_at, cleanup_at, grant, run,
}

-- The events come in the order of the clock, the first not before `now`.
abbrev pub time : Event → ℕ
time (check_at now key) = now
time (cleanup_at now) = now

abbrev pub IsOrdered : ℕ → List Event → Type 0
IsOrdered now [] = Unit
IsOrdered now (e ∷ es) = (now ≤ time e) × IsOrdered (time e) es

-- What the limiter kept up to `now` stands for the requests that it allowed so far, the list `g`.
record IsFaithful (now : ℕ) (l : RateLimiter) (g : List (String × ℕ)) : Type 0 where
  distinct : IsDistinct l.buckets
  same :
      (key : String) (later : ℕ)
      → now ≤ later
      → keep (is_active l.window_ms later) (bucket key l.buckets)
        ≡ keep (is_active l.window_ms later) (times key g)
  few :
      (key : String) (end : ℕ)
      → length (keep (in_window l.window_ms end) (times key g)) ≤ l.max_requests

check-IsFaithful :
    (last now : ℕ) (key : String) (l : RateLimiter) (g : List (String × ℕ))
    → last ≤ now
    → IsFaithful last l g
    → IsFaithful now (check now key l).0 (g ++ grant now key (check now key l).1)
check-IsFaithful last now key l g le h =
    let limits = check-limits now key l in
    record {
      distinct = check-IsDistinct now key l h.distinct;
      same = λ k later after.
          rw (limits.0, bucket-check now key k l, times-append, grant-check now key k l)
            (elim (Bool-cases (str_eq key k)) [
              | inl e ↦
                  rw (e, (eq_iff key k).0 e)
                    (keep-bucket_after l.window_ms l.max_requests now later (bucket k l.buckets)
                      (times k g) (leb l.max_requests (length (active_at now k l))) after
                      (h.same k later (omega arith)))
              | inr e ↦ rw (e, append-nil (times k g)) (h.same k later (omega arith))
            ]);
      few = λ k end.
          rw (limits.0, limits.1, times-append, grant-check now key k l)
            (elim (Bool-cases (str_eq key k)) [
              | inl e ↦
                  rw (e, (eq_iff key k).0 e, h.same k now le)
                    (in_window-grant l.window_ms l.max_requests now end (times k g) (h.few k end))
              | inr e ↦ rw (e, append-nil (times k g)) (h.few k end)
            ]);
    }

cleanup-IsFaithful :
    (last now : ℕ) (l : RateLimiter) (g : List (String × ℕ))
    → last ≤ now
    → IsFaithful last l g
    → IsFaithful now (cleanup now l) g
unfolding cleanup
cleanup-IsFaithful last now l g le h = record {
  distinct = sweep-IsDistinct l.window_ms now l.buckets h.distinct;
  same = λ k later after.
      rw
        (
          bucket-sweep l.window_ms now k l.buckets h.distinct,
          keep-keep l.window_ms now later (bucket k l.buckets) after,
        )
        (h.same k later (omega arith));
  few = h.few;
}

abbrev pub end_time : ℕ → List Event → ℕ
end_time now [] = now
end_time now (e ∷ es) = end_time (time e) es

run-IsFaithful :
    (last : ℕ) (es : List Event) (l : RateLimiter) (g : List (String × ℕ))
    → IsOrdered last es
    → IsFaithful last l g
    → IsFaithful (end_time last es) (run es l).0 (g ++ (run es l).1)
unfolding run
run-IsFaithful last [] l g o h = rw (append-nil g) h
run-IsFaithful last (check_at now key ∷ es) l g o h =
    rw (sym (append_assoc g (grant now key (check now key l).1) (run es (check now key l).0).1)) (
      run-IsFaithful now es (check now key l).0 (g ++ grant now key (check now key l).1) o.1
        (check-IsFaithful last now key l g o.0 h))
run-IsFaithful last (cleanup_at now ∷ es) l g o h =
    run-IsFaithful now es (cleanup now l) g o.1 (cleanup-IsFaithful last now l g o.0 h)

new-IsFaithful : (n window : ℕ) → IsFaithful 0 (new n window) []
unfolding new Maps.get
new-IsFaithful n window = record {
  distinct = tt;
  same = λ key later le. refl;
  few = λ key end. omega arith;
}

run-limits :
    (es : List Event) (l : RateLimiter)
    → ((run es l).0.window_ms ≡ l.window_ms) × ((run es l).0.max_requests ≡ l.max_requests)
unfolding run cleanup
run-limits [] l = (refl, refl)
run-limits (check_at now key ∷ es) l =
    let r = run-limits es (check now key l).0 in
    let c = check-limits now key l in (r.0 ∙ c.0, r.1 ∙ c.1)
run-limits (cleanup_at now ∷ es) l = run-limits es (cleanup now l)

new-limits :
    (n window : ℕ) (es : List Event)
    → ((run es (new n window)).0.window_ms ≡ window) × ((run es (new n window)).0.max_requests ≡ n)
unfolding new
new-limits n window es = run-limits es (new n window)

check-iff_room :
    (now : ℕ) (key : String) (l : RateLimiter)
    → ((check now key l).1 ≡ allowed) ↔ (length (active_at now key l) < l.max_requests)
unfolding check
check-iff_room now key l = elim (Bool-cases (leb l.max_requests (length (active_at now key l)))) [
  | inl e ↦ rw e ((λ h. absurd (ground arith)), (λ h. absurd (ground arith)))
  | inr e ↦ rw e ((λ h. ground arith), (λ h. refl))
]

check-iff_room_in :
    (n window now : ℕ) (key : String) (l : RateLimiter) (ts : List ℕ)
    → l.window_ms ≡ window
    → l.max_requests ≡ n
    → active_at now key l ≡ keep (is_active l.window_ms now) ts
    → ((check now key l).1 ≡ allowed) ↔ (length (keep (is_active window now) ts) < n)
check-iff_room_in n window now key l ts w m same =
    let iff =
      subst (λ xs. ((check now key l).1 ≡ allowed) ↔ (length xs < l.max_requests)) same
        (check-iff_room now key l) in
    rw (sym w, sym m) iff

-- When the clock does not run back, no key is ever allowed more requests within a window than the
-- limit, wherever the window ends and however the cleanups fall between the requests.
pub run-window-le :
    (n window : ℕ) (es : List Event) (key : String) (end : ℕ)
    → IsOrdered 0 es
    → length (keep (in_window window end) (times key (run es (new n window)).1)) ≤ n
run-window-le n window es key end o =
    let faithful = run-IsFaithful 0 es (new n window) [] o (new-IsFaithful n window) in
    let limits = new-limits n window es in
    subst (λ w. length (keep (in_window w end) (times key (run es (new n window)).1)) ≤ n) limits.0
      (subst
        (λ m.
          length (
            keep (in_window (run es (new n window)).0.window_ms end)
              (times key (run es (new n window)).1))
          ≤ m)
        limits.1 (faithful.few key end))

-- When the clock does not run back, a request is allowed exactly when fewer requests of its key than
-- the limit were allowed in the window before it, as if nothing had ever been forgotten.
pub check-allowed-iff_room :
    (n window : ℕ) (es : List Event) (now : ℕ) (key : String)
    → IsOrdered 0 es
    → end_time 0 es ≤ now
    → ((check now key (run es (new n window)).0).1 ≡ allowed)
      ↔ (length (keep (is_active window now) (times key (run es (new n window)).1)) < n)
check-allowed-iff_room n window es now key o le =
    let faithful = run-IsFaithful 0 es (new n window) [] o (new-IsFaithful n window) in
    let limits = new-limits n window es in
    check-iff_room_in n window now key (run es (new n window)).0
      (times key (run es (new n window)).1) limits.0 limits.1 (faithful.same key now le)
