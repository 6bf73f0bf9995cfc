-- ===== src/Api/Login/Lockout.antt =====
-- control-plane/api-server/src/auth/routes.ts: what one request does to the counters of an account.
use native.Mathlib.Decide.{dec_lt}
use the_kubernetes_of_ai_age.Common.{
  ℕ, suc, ◌+◌, ◌≤◌, ◌<◌, String, Bool, false, not, Option, none, some, List, [], ◌∷◌, ◌≡◌, refl,
  sym, subst, ap, ◌∙◌, arith, if◌then◌else◌, Bool-cases, inl, inr, leb, str_eq, eq_iff, eq_refl,
  if_rule,
}
use the_kubernetes_of_ai_age.Common.Text.{to_lower}
use the_kubernetes_of_ai_age.Api.Users.{
  UserRow, is_at, first, update, lockout_ms, clear_lock, find_by_email, increment_failed_login,
  is_locked,
}
use the_kubernetes_of_ai_age.Api.Users.Rows.{
  map_option, Counters, counters, account, first-update, increment-account, increment-other,
  is_locked-none, is_locked-active, is_locked-expired, is_locked-other,
}
use the_kubernetes_of_ai_age.Api.Login.{
  Verdict, wrong_password, settle_password, check_lock, login_user,
}

abbrev pub IsOpen : ℕ → Option ℕ → Type 0
IsOpen now none = Unit
IsOpen now (some expiry) = expiry ≤ now

-- What one request does to an account that is there, and the times of the wrong passwords tested.
pub data CounterStep (now : ℕ) (c d : Counters) (g : List ℕ) : Type 0 where
  kept : d ≡ c → g ≡ [] → CounterStep now c d g
  unlocked : IsOpen now c.1 → d ≡ (c.0, none) → g ≡ [] → CounterStep now c d g
  counted :
      IsOpen now c.1 → suc c.0 < 5 → d ≡ (suc c.0, none) → g ≡ now ∷ [] → CounterStep now c d g
  shut :
      IsOpen now c.1
      → 5 ≤ suc c.0
      → d ≡ (0, some (now + lockout_ms))
      → g ≡ now ∷ []
      → CounterStep now c d g

-- An account is made with no failures, and never goes.
abbrev pub AccountStep : ℕ → Option Counters → Option Counters → List ℕ → Type 0
AccountStep now none none g = g ≡ []
AccountStep now none (some d) g = (d ≡ (0, none)) × (g ≡ [])
AccountStep now (some c) none g = ⊥
AccountStep now (some c) (some d) g = CounterStep now c d g

-- The times of the wrong passwords that a login tested on the account at `key`.
abbrev pub guesses : String → ℕ → String → Verdict → List ℕ
guesses key now email (wrong_password b) = if str_eq (to_lower email) key then now ∷ [] else []
guesses key now email _ = []

pub kept_account : (now : ℕ) (c : Option Counters) → AccountStep now c c []
kept_account now none = refl
kept_account now (some c) = kept refl refl

guesses_here :
    (key : String) (now : ℕ) (email : String) (b : Bool)
    → to_lower email ≡ key
    → guesses key now email (wrong_password b) ≡ now ∷ []
guesses_here key now email b k = rw (k, eq_refl key) refl

module _ (compare_password : String → String → Bool) (now : ℕ) (key email password : String) where
  abbrev Steps : Option Counters → List UserRow × Verdict → Type 0
  Steps c r = AccountStep now c (account key r.0) (guesses key now email r.1)

  -- A wrong password, with the lock open.
  failed_step :
      (us : List UserRow) (u : UserRow) (expiry : Option ℕ)
      → to_lower email ≡ key
      → first (is_at key) us ≡ some u
      → u.locked_until ≡ none
      → IsOpen now expiry
      → Steps (some (u.failed_login_attempts, expiry)) (
        (increment_failed_login now email us).0,
        wrong_password (increment_failed_login now email us).1.locked,
      )
  failed_step us u expiry k e l o = elim (Bool-cases (leb 5 (suc u.failed_login_attempts))) [
    | inl full ↦
        rw (increment-account now key email us u k e, guesses_here key now email _ k)
          (rw (full) (shut o (ground (arith, full)) refl refl))
    | inr room ↦
        rw (increment-account now key email us u k e, guesses_here key now email _ k)
          (rw (room, l) (counted o (ground (arith, room)) refl refl))
  ]

  settle_step :
      (us : List UserRow) (u : UserRow) (expiry : Option ℕ)
      → to_lower email ≡ key
      → first (is_at key) us ≡ some u
      → u.locked_until ≡ none
      → IsOpen now expiry
      → (v : UserRow)
      → Steps
          (some (u.failed_login_attempts, expiry))
          (settle_password compare_password now email password us v)
  settle_step us u expiry k e l o v =
      if_rule {A = List UserRow × Verdict} (Steps (some (u.failed_login_attempts, expiry)))
        (compare_password password v.password_hash) (λ right. rw (e, l) (unlocked o refl refl))
        (λ wrong. failed_step us u expiry k e l o)

  lock_step :
      (us : List UserRow) (u : UserRow) (expiry : Option ℕ)
      → to_lower email ≡ key
      → first (is_at key) us ≡ some u
      → u.locked_until ≡ expiry
      → Steps
          (some (counters u))
          (check_lock compare_password (λ rows. rows) now email password u (is_locked now email us))
  lock_step us u none k e l = rw (is_locked-none now key email us u k e l) (
      subst
        (λ x.
          Steps (some (u.failed_login_attempts, x))
            (settle_password compare_password now email password us u))
        (sym l) (settle_step us u none k e l tt u))
  lock_step us u (some expiry) k e l = elim (dec_lt now expiry) [
    | yes lt ↦ rw ((is_locked-active now expiry key email us u k e l lt).1, e) (kept refl refl)
    | no ge ↦
        let open_rows = update (is_at key) (clear_lock now) us in
        rw (is_locked-expired now expiry key email us u k e l (omega (arith, ge))) (
          subst
            (λ x.
              Steps (some (u.failed_login_attempts, x))
                (settle_password compare_password now email password open_rows u))
            (sym l)
            (settle_step open_rows (clear_lock now u) (some expiry) k
              (first-update key (clear_lock now) us (λ v. refl)
                ∙ ap (map_option (clear_lock now)) e)
              refl (omega (arith, ge)) u))
  ]

  login_step_here :
      (us : List UserRow) (row : Option UserRow)
      → to_lower email ≡ key
      → first (is_at key) us ≡ row
      → Steps
          (account key us)
          (login_user compare_password (λ rows. rows) now email password us row)
  login_step_here us none k e = kept_account now (account key us)
  login_step_here us (some u) k e =
      if_rule {A = List UserRow × Verdict} (Steps (account key us)) (not u.is_active)
        (λ off. kept_account now (account key us))
        (λ on. rw (e) (lock_step us u u.locked_until k e refl))

  settle_step_other :
      (us : List UserRow) (v : UserRow)
      → str_eq (to_lower email) key ≡ false
      → (account key (settle_password compare_password now email password us v).0 ≡ account key us)
        × (guesses key now email (settle_password compare_password now email password us v).1 ≡ [])
  settle_step_other us v ne =
      if_rule {A = List UserRow × Verdict}
        (λ r. (account key r.0 ≡ account key us) × (guesses key now email r.1 ≡ []))
        (compare_password password v.password_hash) (λ right. (refl, refl))
        (λ wrong. (ap (map_option counters) (increment-other now key email us ne), rw (ne) refl))

  lock_step_other :
      (us : List UserRow) (v : UserRow) (r : List UserRow × Option ℕ)
      → str_eq (to_lower email) key ≡ false
      → first (is_at key) r.0 ≡ first (is_at key) us
      → (account key (check_lock compare_password (λ rows. rows) now email password v r).0
          ≡ account key us)
        × (guesses key now email
              (check_lock compare_password (λ rows. rows) now email password v r).1
            ≡ [])
  lock_step_other us v (vs, some minutes) ne e = (ap (map_option counters) e, refl)
  lock_step_other us v (vs, none) ne e =
      let s = settle_step_other vs v ne in (s.0 ∙ ap (map_option counters) e, s.1)

  login_step_other :
      (us : List UserRow) (row : Option UserRow)
      → str_eq (to_lower email) key ≡ false
      → (account key (login_user compare_password (λ rows. rows) now email password us row).0
          ≡ account key us)
        × (guesses key now email
              (login_user compare_password (λ rows. rows) now email password us row).1
            ≡ [])
  login_step_other us none ne = (refl, refl)
  login_step_other us (some u) ne =
      if_rule {A = List UserRow × Verdict}
        (λ r. (account key r.0 ≡ account key us) × (guesses key now email r.1 ≡ []))
        (not u.is_active) (λ off. (refl, refl))
        (λ on.
          lock_step_other us u (is_locked now email us) ne (is_locked-other now key email us ne))

  pub login_step :
      (us : List UserRow)
      → Steps (account key us) (
          login_user compare_password (λ rows. rows) now email password us (find_by_email email us))
  unfolding find_by_email
  login_step us = elim (Bool-cases (str_eq (to_lower email) key)) [
    | inl same ↦
        let k = (eq_iff (to_lower email) key).0 same in
        login_step_here us (first (is_at (to_lower email)) us) k (rw (k) refl)
    | inr other ↦
        let s = login_step_other us (first (is_at (to_lower email)) us) other in
        rw (s.0, s.1) (kept_account now (account key us))
  ]
