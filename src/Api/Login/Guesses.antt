-- ===== src/Api/Login/Guesses.antt =====
-- control-plane/api-server/src/auth/routes.ts: how many passwords can be tried on an account, over any
-- sequence of registrations, logins and changes of passwords.
use native.Mathlib.Decide.{dec_lt}
use the_kubernetes_of_ai_age.Common.{
  ℕ, ◌+◌, ◌≤◌, ◌<◌, none, some, List, [], ◌∷◌, ◌++◌, ◌≡◌, refl, arith, if◌then◌else◌, ltb, keep,
  length, length-append, keep-append, All, All-append, All-imp, append-nil,
}
use the_kubernetes_of_ai_age.Shared.RateLimiter.{is_active}
use the_kubernetes_of_ai_age.Shared.RateLimiter.Window.Times.{in_window, in_window-le}
use the_kubernetes_of_ai_age.Api.Users.{lockout_ms}
use the_kubernetes_of_ai_age.Api.Users.Rows.{Counters}
use the_kubernetes_of_ai_age.Api.Login.Lockout.{IsOpen, CounterStep, kept, unlocked, counted, shut}

-- The guesses that a window of the lockout's length still holds at `later`.
abbrev pub recent : ℕ → List ℕ → ℕ
recent later g = length (keep (is_active lockout_ms later) g)

-- How many guesses can be recent, by the counters.
abbrev pub cap : ℕ → Counters → ℕ
cap later (a, none) = a
cap later (a, some expiry) = if ltb later expiry then 5 else a

-- What the counters say of the guesses made up to `now`.
pub record IsTracked (now : ℕ) (c : Counters) (g : List ℕ) : Type 0 where
  pub past : All (λ t. t ≤ now) g
  pub few : c.0 < 5
  pub capped : (later : ℕ) → now ≤ later → recent later g ≤ cap later c
  pub windows : (end : ℕ) → length (keep (in_window lockout_ms end) g) ≤ 5

cap-IsOpen : (now later : ℕ) (c : Counters) → IsOpen now c.1 → now ≤ later → cap later c ≡ c.0
cap-IsOpen now later (a, none) o le = refl
cap-IsOpen now later (a, some expiry) o le = ground (arith, o, le)

recent-append :
    (later : ℕ) (g : List ℕ) (now : ℕ) → recent later (g ++ now ∷ []) ≤ recent later g + 1
recent-append later g now = rw (keep-append (is_active lockout_ms later) g (now ∷ [])) (
    ground (
      arith,
      length-append (keep (is_active lockout_ms later) g)
          (keep (is_active lockout_ms later) (now ∷ [])),
    ))

-- Long after the last guess none is recent.
recent-past :
    (now later : ℕ) (g : List ℕ)
    → All (λ t. t ≤ now) g
    → now + lockout_ms ≤ later
    → recent later g ≡ 0
recent-past now later [] h le = refl
recent-past now later (t ∷ g) h le = ground (arith, h.0, recent-past now later g h.1 le)

windows-append :
    (now a : ℕ) (g : List ℕ)
    → recent now g ≤ a
    → a < 5
    → ((end : ℕ) → length (keep (in_window lockout_ms end) g) ≤ 5)
    → (end : ℕ) → length (keep (in_window lockout_ms end) (g ++ now ∷ [])) ≤ 5
windows-append now a g r lt h end = rw (keep-append (in_window lockout_ms end) g (now ∷ [])) (
    ground (
      arith,
      length-append (keep (in_window lockout_ms end) g)
          (keep (in_window lockout_ms end) (now ∷ [])),
      in_window-le lockout_ms now end g,
      h end,
    ))

module _ (last now : ℕ) (le : last ≤ now) where
  older : (g : List ℕ) → All (λ t. t ≤ last) g → All (λ t. t ≤ now) g
  older g h = All-imp (λ t. t ≤ last) (λ t. t ≤ now) (λ t p. omega (arith, p)) g h

  older_and_now : (g : List ℕ) → All (λ t. t ≤ last) g → All (λ t. t ≤ now) (g ++ now ∷ [])
  older_and_now g h = All-append (λ t. t ≤ now) g (now ∷ []) (older g h) (omega arith, tt)

  pub later-IsTracked : (c : Counters) (g : List ℕ) → IsTracked last c g → IsTracked now c g
  later-IsTracked c g h = record {
    past = older g h.past;
    few = h.few;
    capped = λ later l. h.capped later (omega (arith, l));
    windows = h.windows;
  }

  pub step-IsTracked :
      (c d : Counters) (g new : List ℕ)
      → CounterStep now c d new
      → IsTracked last c g
      → IsTracked now d (g ++ new)
  step-IsTracked c d g new (kept same none_new) h =
      rw (same, none_new, append-nil g) (later-IsTracked c g h)
  step-IsTracked c d g new (unlocked o same none_new) h =
      rw (same, none_new, append-nil g)
        record {
          past = older g h.past;
          few = h.few;
          capped = λ later l.
              omega (arith, h.capped later (omega (arith, l)), cap-IsOpen now later c o l);
          windows = h.windows;
        }
  step-IsTracked c d g new (counted o room same one) h =
      rw (same, one)
        record {
          past = older_and_now g h.past;
          few = room;
          capped = λ later l. omega (
            arith,
            h.capped later (omega (arith, l)),
            cap-IsOpen now later c o l,
            recent-append later g now,
          );
          windows =
              windows-append now c.0 g
                (omega (arith, h.capped now le, cap-IsOpen now now c o (omega arith))) h.few
                h.windows;
        }
  step-IsTracked c d g new (shut o full same one) h =
      rw (same, one)
        record {
          past = older_and_now g h.past;
          few = omega arith;
          capped = λ later l. elim (dec_lt later (now + lockout_ms)) [
            | yes soon ↦ ground (
              arith,
              h.capped later (omega (arith, l)),
              h.few,
              cap-IsOpen now later c o l,
              recent-append later g now,
              soon,
            )
            | no late ↦ ground (
              arith,
              recent-past now later (g ++ now ∷ []) (older_and_now g h.past) (omega (arith, late)),
              late,
            )
          ];
          windows =
              windows-append now c.0 g
                (omega (arith, h.capped now le, cap-IsOpen now now c o (omega arith))) h.few
                h.windows;
        }
