-- ===== src/Api/Users/Rows.antt =====
-- control-plane/api-server/src/auth/repository.ts: what the repository's queries find after an update,
-- and the counters of an account.
use the_kubernetes_of_ai_age.Common.{
  ℕ, suc, ◌+◌, ◌-◌, ◌/◌, ◌≤◌, ◌<◌, String, true, false, Option, none, some, List, [], ◌∷◌, ◌≡◌,
  refl, sym, ap, ◌∙◌, arith, if◌then◌else◌, Bool-cases, inl, inr, ltb, leb, str_eq, eq_iff, if_rule,
}
use the_kubernetes_of_ai_age.Common.Text.{to_lower}
use the_kubernetes_of_ai_age.Api.Users.{
  UserRow, is_at, has_id, first, update, create, one_more_failure, lockout_ms, lock, Failures,
  clear_lock, count_failures, increment_failed_login, lock_status, is_locked, with_password,
}

abbrev pub map_option {ℓ κ} : {A : Type ℓ} {B : Type κ} → (A → B) → Option A → Option B
map_option f none = none
map_option f (some a) = some (f a)

-- The failed attempts and the lock.
abbrev pub Counters : Type 0
Counters = ℕ × Option ℕ

abbrev pub counters : UserRow → Counters
counters u = (u.failed_login_attempts, u.locked_until)

-- The counters of the account at an address in lower case.
abbrev pub account : String → List UserRow → Option Counters
account key us = map_option counters (first (is_at key) us)

pub first-update :
    (key : String) (f : UserRow → UserRow) (us : List UserRow)
    → ((u : UserRow) → is_at key (f u) ≡ is_at key u)
    → first (is_at key) (update (is_at key) f us) ≡ map_option f (first (is_at key) us)
unfolding first update
first-update key f [] h = refl
first-update key f (u ∷ us) h = elim (Bool-cases (is_at key u)) [
  | inl e ↦ rw (e, first) (rw (h u, e) refl)
  | inr e ↦ rw (e, first) (rw (e) (first-update key f us h))
]

is_at-other :
    (key other : String) (u : UserRow)
    → str_eq other key ≡ false
    → is_at other u ≡ true
    → is_at key u ≡ false
is_at-other key other u ne h =
    ground (arith, eq_iff (to_lower u.email) other, eq_iff (to_lower u.email) key, eq_iff other key)

pub first-update_other :
    (key other : String) (f : UserRow → UserRow) (us : List UserRow)
    → str_eq other key ≡ false
    → ((u : UserRow) → is_at key (f u) ≡ is_at key u)
    → first (is_at key) (update (is_at other) f us) ≡ first (is_at key) us
unfolding first update
first-update_other key other f [] ne h = refl
first-update_other key other f (u ∷ us) ne h = elim (Bool-cases (is_at other u)) [
  | inl e ↦ rw (e, h u, is_at-other key other u ne e) (first-update_other key other f us ne h)
  | inr e ↦ rw (e, first-update_other key other f us ne h) refl
]

pub increment-account :
    (now : ℕ) (key email : String) (us : List UserRow) (u : UserRow)
    → to_lower email ≡ key
    → first (is_at key) us ≡ some u
    → account key (increment_failed_login now email us).0 ≡ (
        if leb 5 (suc u.failed_login_attempts)
        then some (0, some (now + lockout_ms))
        else some (suc u.failed_login_attempts, u.locked_until))
unfolding increment_failed_login
increment-account now key email us u k e =
    let counted = update (is_at key) (one_more_failure now) us in
    let found : first (is_at key) counted ≡ some (one_more_failure now u) =
      first-update key (one_more_failure now) us (λ v. refl)
      ∙ ap (map_option (one_more_failure now)) e in
    let locked : first (is_at key) (update (is_at key) (lock now) counted)
        ≡ some (lock now (one_more_failure now u)) =
      first-update key (lock now) counted (λ v. refl) ∙ ap (map_option (lock now)) found in
    elim (Bool-cases (leb 5 (suc u.failed_login_attempts))) [
      | inl full ↦ rw (k, found) (rw (full) (rw (locked) refl))
      | inr room ↦ rw (k, found) (rw (room) (rw (found) refl))
    ]

pub increment-locked :
    (now : ℕ) (key email : String) (us : List UserRow) (u : UserRow)
    → to_lower email ≡ key
    → first (is_at key) us ≡ some u
    → (increment_failed_login now email us).1.locked ≡ leb 5 (suc u.failed_login_attempts)
unfolding increment_failed_login
increment-locked now key email us u k e =
    let found : first (is_at key) (update (is_at key) (one_more_failure now) us)
        ≡ some (one_more_failure now u) =
      first-update key (one_more_failure now) us (λ v. refl)
      ∙ ap (map_option (one_more_failure now)) e in
    rw (k, found)
      (if_rule {A = List UserRow × Failures} (λ r. r.1.locked ≡ leb 5 (suc u.failed_login_attempts))
        (leb 5 (suc u.failed_login_attempts)) (λ full. sym full) (λ room. sym room))

count_failures-other :
    (now : ℕ) (key other : String) (us : List UserRow) (row : Option UserRow)
    → str_eq other key ≡ false
    → first (is_at key) (count_failures now other us row).0 ≡ first (is_at key) us
count_failures-other now key other us none ne = refl
count_failures-other now key other us (some u) ne =
    if_rule {A = List UserRow × Failures} (λ r. first (is_at key) r.0 ≡ first (is_at key) us)
      (leb 5 u.failed_login_attempts)
      (λ full. first-update_other key other (lock now) us ne (λ v. refl)) (λ room. refl)

pub increment-other :
    (now : ℕ) (key email : String) (us : List UserRow)
    → str_eq (to_lower email) key ≡ false
    → first (is_at key) (increment_failed_login now email us).0 ≡ first (is_at key) us
unfolding increment_failed_login
increment-other now key email us ne =
    count_failures-other now key (to_lower email)
      (update (is_at (to_lower email)) (one_more_failure now) us)
      (first (is_at (to_lower email)) (update (is_at (to_lower email)) (one_more_failure now) us))
      ne
    ∙ first-update_other key (to_lower email) (one_more_failure now) us ne (λ v. refl)

pub is_locked-none :
    (now : ℕ) (key email : String) (us : List UserRow) (u : UserRow)
    → to_lower email ≡ key
    → first (is_at key) us ≡ some u
    → u.locked_until ≡ none
    → is_locked now email us ≡ (us, none)
unfolding is_locked
is_locked-none now key email us u k e l = rw (k, e) (rw (l) refl)

pub is_locked-active :
    (now expiry : ℕ) (key email : String) (us : List UserRow) (u : UserRow)
    → to_lower email ≡ key
    → first (is_at key) us ≡ some u
    → u.locked_until ≡ some expiry
    → now < expiry
    → (minutes : ℕ) × (is_locked now email us ≡ (us, some minutes))
unfolding is_locked
is_locked-active now expiry key email us u k e l lt =
    ((expiry - now + 59_999) / 60_000, rw (k, e) (rw (l) (ground arith)))

pub is_locked-expired :
    (now expiry : ℕ) (key email : String) (us : List UserRow) (u : UserRow)
    → to_lower email ≡ key
    → first (is_at key) us ≡ some u
    → u.locked_until ≡ some expiry
    → expiry ≤ now
    → is_locked now email us ≡ (update (is_at key) (clear_lock now) us, none)
unfolding is_locked
is_locked-expired now expiry key email us u k e l le = rw (k, e) (rw (l) (ground arith))

lock_status-other :
    (now : ℕ) (key other : String) (us : List UserRow) (expiry : Option ℕ)
    → str_eq other key ≡ false
    → first (is_at key) (lock_status now other us expiry).0 ≡ first (is_at key) us
lock_status-other now key other us none ne = refl
lock_status-other now key other us (some expiry) ne =
    if_rule {A = List UserRow × Option ℕ} (λ r. first (is_at key) r.0 ≡ first (is_at key) us)
      (ltb now expiry) (λ still. refl)
      (λ over. first-update_other key other (clear_lock now) us ne (λ v. refl))

pub is_locked-other :
    (now : ℕ) (key email : String) (us : List UserRow)
    → str_eq (to_lower email) key ≡ false
    → first (is_at key) (is_locked now email us).0 ≡ first (is_at key) us
unfolding is_locked
is_locked-other now key email us ne = lock_status-other now key (to_lower email) us _ ne

-- A row that the change of a password changes keeps its counters.
pub account-change :
    (now : ℕ) (key id hash : String) (us : List UserRow)
    → account key (update (has_id id) (with_password now hash) us) ≡ account key us
unfolding first update
account-change now key id hash [] = refl
account-change now key id hash (u ∷ us) =
    let ih = account-change now key id hash us in
    elim (Bool-cases (is_at key u)) [
      | inl e ↦ elim (Bool-cases (has_id id u)) [
        | inl f ↦ rw (f, first) (rw (e) refl)
        | inr f ↦ rw (f, first) (rw (e) refl)
      ]
      | inr e ↦ elim (Bool-cases (has_id id u)) [
        | inl f ↦ rw (f, first) (rw (e) ih)
        | inr f ↦ rw (f, first) (rw (e) ih)
      ]
    ]

pub first-create :
    (key : String) (row : UserRow) (us : List UserRow)
    → first (is_at key) (create row us) ≡ (elim (first (is_at key) us) [
      | none ↦ if is_at key row then some row else none
      | some u ↦ some u
    ])
unfolding first
first-create key row [] = refl
first-create key row (u ∷ us) = elim (Bool-cases (is_at key u)) [
  | inl e ↦ rw (e, first) refl
  | inr e ↦ rw (e, first) (first-create key row us)
]
