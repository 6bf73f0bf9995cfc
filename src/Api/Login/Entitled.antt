-- ===== src/Api/Login/Entitled.antt =====
-- control-plane/api-server/src/auth/routes.ts: who POST /api/auth/login lets in.
use native.Mathlib.Decide.{dec_lt}
use the_kubernetes_of_ai_age.Common.{
  ℕ, ◌≤◌, String, Bool, true, Option, none, some, List, ◌≡◌, ◌↔◌, refl, subst, ap, arith,
  Bool-cases, Option-cases, inl, inr,
}
use the_kubernetes_of_ai_age.Common.Text.{to_lower}
use the_kubernetes_of_ai_age.Api.Users.{UserRow, is_at, first, find_by_email, is_locked}
use the_kubernetes_of_ai_age.Api.Users.Rows.{is_locked-none, is_locked-active, is_locked-expired}
use the_kubernetes_of_ai_age.Api.Login.{
  Verdict, unknown_user, disabled, locked, wrong_password, accepted, given, normalise,
  settle_password, check_lock, login_user, login_with, login,
}
use the_kubernetes_of_ai_age.Api.Login.Lockout.{IsOpen}

-- The email and the password of the request name an active user `u` whose lock, if any, has ended, and
-- have the password of that user.
pub record IsEntitled (compare_password : String → String → Bool) (now : ℕ)
    (email password : Option String) (us : List UserRow) (u : UserRow) : Type 0 where
  pub address : String
  pub word : String
  pub address_given : given email ≡ some address
  pub word_given : given password ≡ some word
  pub found : find_by_email (normalise address) us ≡ some u
  pub active : u.is_active ≡ true
  pub is_open : IsOpen now u.locked_until
  pub right : compare_password word u.password_hash ≡ true

abbrev user_of : UserRow → Verdict → UserRow
user_of d (accepted u) = u
user_of d _ = d

module _ (compare_password : String → String → Bool) (meanwhile : List UserRow → List UserRow)
    (now : ℕ) where
  settle-accepted :
      (email password : String) (us : List UserRow) (v u : UserRow)
      → (settle_password compare_password now email password us v).1 ≡ accepted u
      → (v ≡ u) × (compare_password password v.password_hash ≡ true)
  settle-accepted email password us v u h =
      elim (Bool-cases (compare_password password v.password_hash)) [
        | inl e ↦ (ap (user_of v) (rw (e) at h), e)
        | inr e ↦ absurd (wrong≢accepted _ u (rw (e) at h))
      ]
    where
      wrong≢accepted :
          (b : Bool) (w : UserRow) → ◌≡◌ {A = Verdict} (wrong_password b) (accepted w) → ⊥
      wrong≢accepted b w p = cc

  lock-accepted :
      (email password : String) (us : List UserRow) (v u : UserRow)
      → first (is_at (to_lower email)) us ≡ some v
      → (check_lock compare_password meanwhile now email password v (is_locked now email us)).1
        ≡ accepted u
      → (v ≡ u) × (compare_password password v.password_hash ≡ true) × IsOpen now v.locked_until
  lock-accepted email password us v u e h = elim (Option-cases v.locked_until) [
    | inl l ↦
        let s =
          settle-accepted email password (meanwhile us) v u
            (rw (is_locked-none now (to_lower email) email us v refl e l) at h) in
        (s.0, s.1, rw (l) tt)
    | inr (expiry, l) ↦ elim (dec_lt now expiry) [
      | yes lt ↦ absurd (
          locked≢accepted _ u
            (rw ((is_locked-active now expiry (to_lower email) email us v refl e l lt).1) at h))
      | no ge ↦
          let le : expiry ≤ now = omega (arith, ge) in
          let s =
            settle-accepted email password _ v u
              (rw (is_locked-expired now expiry (to_lower email) email us v refl e l le) at h) in
          (s.0, s.1, rw (l) le)
    ]
  ]
    where
      locked≢accepted : (m : ℕ) (w : UserRow) → ◌≡◌ {A = Verdict} (locked m) (accepted w) → ⊥
      locked≢accepted m w p = cc

  settle-right :
      (email password : String) (us : List UserRow) (v : UserRow)
      → compare_password password v.password_hash ≡ true
      → (settle_password compare_password now email password us v).1 ≡ accepted v
  settle-right email password us v e = rw (e) refl

  lock-open :
      (email password : String) (us : List UserRow) (v : UserRow)
      → first (is_at (to_lower email)) us ≡ some v
      → compare_password password v.password_hash ≡ true
      → IsOpen now v.locked_until
      → (check_lock compare_password meanwhile now email password v (is_locked now email us)).1
        ≡ accepted v
  lock-open email password us v e c o = elim (Option-cases v.locked_until) [
    | inl l ↦
        rw (is_locked-none now (to_lower email) email us v refl e l)
          (settle-right email password (meanwhile us) v c)
    | inr (expiry, l) ↦
        rw (is_locked-expired now expiry (to_lower email) email us v refl e l (rw (l) at o))
          (settle-right email password _ v c)
  ]

  user-accepted :
      (email password : String) (us : List UserRow) (row : Option UserRow) (u : UserRow)
      → first (is_at (to_lower email)) us ≡ row
      → (login_user compare_password meanwhile now email password us row).1 ≡ accepted u
      → (row ≡ some u)
        × (u.is_active ≡ true)
        × IsOpen now u.locked_until
        × (compare_password password u.password_hash ≡ true)
  user-accepted email password us none u e h = absurd (unknown≢accepted u h)
    where
      unknown≢accepted : (w : UserRow) → ◌≡◌ {A = Verdict} unknown_user (accepted w) → ⊥
      unknown≢accepted w p = cc
  user-accepted email password us (some v) u e h = elim (Bool-cases v.is_active) [
    | inl on ↦
        let s = lock-accepted email password us v u e (simp (on) at h) in
        subst
          (λ w.
            (some v ≡ some w)
            × (w.is_active ≡ true)
            × IsOpen now w.locked_until
            × (compare_password password w.password_hash ≡ true))
          s.0 (refl, on, s.2, s.1)
    | inr off ↦ absurd (disabled≢accepted u (rw (off) at h))
  ]
    where
      disabled≢accepted : (w : UserRow) → ◌≡◌ {A = Verdict} disabled (accepted w) → ⊥
      disabled≢accepted w p = cc

  with-accepted :
      (email password : Option String) (us : List UserRow) (u : UserRow)
      → (login_with compare_password meanwhile now email password us).1 ≡ accepted u
      → (a : String) × (w : String) × (email ≡ some a)
        × (password ≡ some w)
        × ((login_user compare_password meanwhile now
              (normalise a)
              w
              us
              (find_by_email (normalise a) us)).1
            ≡ accepted u)
  with-accepted (some a) (some w) us u h = (a, w, refl, refl, h)
  with-accepted none password us u h = absurd (cc)
  with-accepted (some a) none us u h = absurd (cc)

  active-accepted :
      (email password : String) (us : List UserRow) (u : UserRow)
      → u.is_active ≡ true
      → (check_lock compare_password meanwhile now email password u (is_locked now email us)).1
        ≡ accepted u
      → (login_user compare_password meanwhile now email password us (some u)).1 ≡ accepted u
  active-accepted email password us u on h = simp (on) h

-- A login lets the user `u` in exactly when the email given, in lower case and trimmed, is that of the
-- active user `u`, its lock, if any, has ended, and the password given is that of `u`, whatever other
-- requests do to the users while the password is compared.
pub login-accepted-iff_IsEntitled :
    (compare_password : String → String → Bool) (meanwhile : List UserRow → List UserRow) (now : ℕ)
    (email password : Option String) (us : List UserRow) (u : UserRow)
    → ((login compare_password meanwhile now email password us).1 ≡ accepted u)
      ↔ IsEntitled compare_password now email password us u
unfolding login find_by_email
login-accepted-iff_IsEntitled compare_password meanwhile now email password us u = (
  λ h.
      let (a, w, ge, gp, l) =
        with-accepted compare_password meanwhile now (given email) (given password) us u h in
      let s = user-accepted compare_password meanwhile now (normalise a) w us _ u refl l in
      record {
        address = a;
        word = w;
        address_given = ge;
        word_given = gp;
        found = s.0;
        active = s.1;
        is_open = s.2;
        right = s.3;
      },
  λ k.
      rw (k.address_given, k.word_given)
        (rw (k.found) (
          active-accepted compare_password meanwhile now (normalise k.address) k.word us u k.active
            (lock-open compare_password meanwhile now (normalise k.address) k.word us u k.found
              k.right k.is_open))),
)
