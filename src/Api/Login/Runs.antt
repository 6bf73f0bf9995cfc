-- ===== src/Api/Login/Runs.antt =====
-- control-plane/api-server/src/auth/routes.ts: registrations, logins and changes of passwords, one after
-- the other: none begins before the one before it has ended. `resetFailedLogin` is left out: no route calls it.
use the_kubernetes_of_ai_age.Common.{
  ℕ, ◌≤◌, ◌<◌, String, Bool, not, Option, none, some, List, [], ◌∷◌, ◌++◌, ◌≡◌, refl, sym, arith,
  Option-cases, inl, inr, if_rule, keep, length, append-nil, append_assoc,
}
use the_kubernetes_of_ai_age.Shared.RateLimiter.Window.Times.{in_window}
use the_kubernetes_of_ai_age.Api.Users.{
  UserRow, is_at, first, create, lockout_ms, find_by_email, find_by_id,
}
use the_kubernetes_of_ai_age.Api.Users.Rows.{
  map_option, Counters, counters, account, account-change, first-create,
}
use the_kubernetes_of_ai_age.Api.Login.{
  Verdict, given, normalise, is_strong, login_with, login, change_user, change_with,
  change_password, registered, register_user, register_with, register,
}
use the_kubernetes_of_ai_age.Api.Login.Lockout.{
  kept, AccountStep, guesses, kept_account, login_step,
}
use the_kubernetes_of_ai_age.Api.Login.Guesses.{IsTracked, step-IsTracked}

-- Requests with their times; a change of password names the user of the token, and what is made anew
-- for it, an identifier or a hash, is given.
pub data Request : Type 0 where
  logs_in : ℕ → Option String → Option String → Request
  changes : ℕ → String → String → Option String → Option String → Request
  registers : ℕ → String → String → Option String → Option String → Option String → Request

abbrev pub time : Request → ℕ
time (logs_in now email password) = now
time (changes now id hash current next) = now
time (registers now id hash name email password) = now

abbrev pub IsOrdered : ℕ → List Request → Type 0
IsOrdered last [] = Unit
IsOrdered last (r ∷ rs) = (last ≤ time r) × IsOrdered (time r) rs

abbrev pub guesses_with : String → ℕ → Option String → Option String → Verdict → List ℕ
guesses_with key now (some email) (some password) v = guesses key now (normalise email) v
guesses_with key now none password v = []
guesses_with key now (some email) none v = []

module _ (compare_password : String → String → Bool) where
  unfoldable pub handle : Request → List UserRow → List UserRow × Verdict
  unfolding login change_password register
  handle (logs_in now email password) us =
      login compare_password (λ rows. rows) now email password us
  handle (changes now id hash current next) us =
      change_password compare_password now id hash current next us
  handle (registers now id hash name email password) us =
      register now id hash name email password us

  -- The times at which POST /api/auth/login tested a wrong password on the account at `key`. What a change
  -- of password compares is not among them.
  abbrev pub tested_by_login : String → Request → Verdict → List ℕ
  tested_by_login key (logs_in now email password) v =
      guesses_with key now (given email) (given password) v
  tested_by_login key (changes now id hash current next) v = []
  tested_by_login key (registers now id hash name email password) v = []

  unfoldable pub wrong_guesses : String → List Request → List UserRow → List ℕ
  unfolding handle
  wrong_guesses key [] us = []
  wrong_guesses key (r ∷ rs) us =
      let h = handle r us in tested_by_login key r h.1 ++ wrong_guesses key rs h.0

  abbrev Steps : ℕ → String → List UserRow → List UserRow → List ℕ → Type 0
  Steps now key us vs g = AccountStep now (account key us) (account key vs) g

  same_step : (now : ℕ) (key : String) (us : List UserRow) → Steps now key us us []
  same_step now key us = kept_account now (account key us)

  logs_in_step :
      (now : ℕ) (key : String) (email password : Option String) (us : List UserRow)
      → Steps now key us (login_with compare_password (λ rows. rows) now email password us).0 (
          guesses_with key now email password
            (login_with compare_password (λ rows. rows) now email password us).1)
  logs_in_step now key (some email) (some password) us =
      login_step compare_password now key (normalise email) password us
  logs_in_step now key none password us = same_step now key us
  logs_in_step now key (some email) none us = same_step now key us

  change_user_step :
      (now : ℕ) (key hash current next : String) (us : List UserRow) (row : Option UserRow)
      → Steps now key us (change_user compare_password now hash current next us row).0 []
  change_user_step now key hash current next us none = same_step now key us
  change_user_step now key hash current next us (some u) =
      if_rule {A = List UserRow × Verdict} (λ r. Steps now key us r.0 [])
        (not (compare_password current u.password_hash)) (λ wrong. same_step now key us)
        (λ right.
          if_rule {A = List UserRow × Verdict} (λ r. Steps now key us r.0 []) (not (is_strong next))
            (λ weak. same_step now key us)
            (λ strong. rw (account-change now key u.id hash us) (same_step now key us)))

  changes_step :
      (now : ℕ) (key id hash : String) (current next : Option String) (us : List UserRow)
      → Steps now key us (change_with compare_password now id hash current next us).0 []
  changes_step now key id hash (some current) (some next) us =
      change_user_step now key hash current next us (find_by_id id us)
  changes_step now key id hash none next us = same_step now key us
  changes_step now key id hash (some current) none us = same_step now key us

create_step :
    (now : ℕ) (key : String) (row : UserRow) (us : List UserRow)
    → counters row ≡ (0, none)
    → AccountStep now (account key us) (account key (create row us)) []
create_step now key row us fresh = elim (Option-cases (first (is_at key) us)) [
  | inl e ↦
      rw (first-create key row us, e)
        (if_rule (λ o. AccountStep now none (map_option counters o) []) (is_at key row)
          (λ here. (fresh, refl)) (λ elsewhere. refl))
  | inr (u, e) ↦ rw (first-create key row us, e) (kept refl refl)
]

register_user_step :
    (now : ℕ) (key : String) (row : UserRow) (us : List UserRow) (found : Option UserRow)
    → counters row ≡ (0, none)
    → AccountStep now (account key us) (account key (register_user row us found).0) []
register_user_step now key row us none fresh = create_step now key row us fresh
register_user_step now key row us (some u) fresh = kept_account now (account key us)

register_step :
    (now : ℕ) (key id hash : String) (name email password : Option String) (us : List UserRow)
    → AccountStep now
        (account key us)
        (account key (register_with now id hash name email password us).0)
        []
register_step now key id hash (some name) (some email) (some password) us =
    let at = normalise email in
    if_rule {A = List UserRow × Verdict}
      (λ r. AccountStep now (account key us) (account key r.0) []) (not (is_strong password))
      (λ weak. kept_account now (account key us))
      (λ strong.
        register_user_step now key (registered now id hash at name) us (find_by_email at us) refl)
register_step now key id hash none email password us = kept_account now (account key us)
register_step now key id hash (some name) none password us = kept_account now (account key us)
register_step now key id hash (some name) (some email) none us = kept_account now (account key us)

-- What is known of an account and the wrong passwords tested on it; there are none without an account.
abbrev IsKnown : ℕ → Option Counters → List ℕ → Type 0
IsKnown now none g = g ≡ []
IsKnown now (some c) g = IsTracked now c g

abbrev pub IsFew : Option Counters → Type 0
IsFew none = Unit
IsFew (some c) = c.0 < 5

start-IsKnown : (c : Option Counters) → IsFew c → IsKnown 0 c []
start-IsKnown none few = refl
start-IsKnown (some c) few = record {
  past = tt;
  few = few;
  capped = λ later le. omega arith;
  windows = λ end. omega arith;
}

new-IsTracked : (now : ℕ) → IsTracked now (0, none) []
new-IsTracked now = record {
  past = tt;
  few = omega arith;
  capped = λ later le. omega arith;
  windows = λ end. omega arith;
}

step-IsKnown :
    (last now : ℕ) (c d : Option Counters) (g new : List ℕ)
    → last ≤ now
    → AccountStep now c d new
    → IsKnown last c g
    → IsKnown now d (g ++ new)
step-IsKnown last now none none g new le s h = rw (s, h) refl
step-IsKnown last now none (some d) g new le s h = rw (s.0, s.1, h) (new-IsTracked now)
step-IsKnown last now (some c) none g new le s h = absurd s
step-IsKnown last now (some c) (some d) g new le s h = step-IsTracked last now le c d g new s h

known-windows :
    (now : ℕ) (c : Option Counters) (g : List ℕ)
    → IsKnown now c g
    → (end : ℕ) → length (keep (in_window lockout_ms end) g) ≤ 5
known-windows now none g h end = rw (h) (omega arith)
known-windows now (some c) g h end = h.windows end

module _ (compare_password : String → String → Bool) (key : String) where
  handle-step :
      (r : Request) (us : List UserRow)
      → AccountStep
          (time r)
          (account key us)
          (account key (handle compare_password r us).0)
          (tested_by_login compare_password key r (handle compare_password r us).1)
  unfolding handle login change_password register
  handle-step (logs_in now email password) us =
      logs_in_step compare_password now key (given email) (given password) us
  handle-step (changes now id hash current next) us =
      changes_step compare_password now key id hash (given current) (given next) us
  handle-step (registers now id hash name email password) us =
      register_step now key id hash (given name) (given email) (given password) us

  run-windows :
      (last : ℕ) (rs : List Request) (us : List UserRow) (g : List ℕ)
      → IsOrdered last rs
      → IsKnown last (account key us) g
      → (end : ℕ)
      → length (keep (in_window lockout_ms end) (g ++ wrong_guesses compare_password key rs us)) ≤ 5
  unfolding wrong_guesses
  run-windows last [] us g o h end = rw (append-nil g) (known-windows last (account key us) g h end)
  run-windows last (r ∷ rs) us g o h end =
      let next = handle compare_password r us in
      let new = tested_by_login compare_password key r next.1 in
      rw (sym (append_assoc g new (wrong_guesses compare_password key rs next.0))) (
        run-windows (time r) rs next.0 (g ++ new) o.1
          (step-IsKnown last (time r) (account key us) (account key next.0) g new o.0
            (handle-step r us) h)
          end)

-- Of requests that are handled one after the other, while the clock does not run back, POST
-- /api/auth/login tests at most five wrong passwords on an account within any fifteen minutes, whatever
-- logins, registrations and changes of passwords there are, if the account starts with fewer than five
-- failures counted, or is not there yet. The wrong current passwords that a change of password compares
-- are not counted, and logins that overlap are no such requests.
pub wrong_guesses-le :
    (compare_password : String → String → Bool) (key : String) (rs : List Request)
    (us : List UserRow) (end : ℕ)
    → IsOrdered 0 rs
    → IsFew (account key us)
    → length (keep (in_window lockout_ms end) (wrong_guesses compare_password key rs us)) ≤ 5
wrong_guesses-le compare_password key rs us end o few =
    run-windows compare_password key 0 rs us [] o (start-IsKnown (account key us) few) end
