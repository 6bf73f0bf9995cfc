-- ===== src/Api/Users.antt =====
-- control-plane/api-server/src/auth/repository.ts: the class `UserRepository`. The table `users` is the
-- list of its rows, an UPDATE changes the rows that its WHERE takes, and a query that returns several
-- rows is read at the first. `NOW()` and `Date.now()` are one clock, in milliseconds.
pub mod Rows
use the_kubernetes_of_ai_age.Common.{
  ℕ, suc, ◌+◌, ◌-◌, ◌/◌, String, Bool, true, false, not, ◌&&◌, Option, none, some, List, [], ◌∷◌,
  ◌++◌, if◌then◌else◌, ltb, leb, str_eq,
}
use the_kubernetes_of_ai_age.Common.Text.{to_lower}

-- `deleted` says that `deleted_at` is set.
pub record UserRow : Type 0 where
  pub id : String
  pub email : String
  pub password_hash : String
  pub name : String
  pub role : String
  pub namespace_access : List String
  pub is_active : Bool
  pub must_change_password : Bool
  pub failed_login_attempts : ℕ
  pub locked_until : Option ℕ
  pub last_login_at : Option ℕ
  pub created_at : ℕ
  pub updated_at : ℕ
  pub deleted : Bool

-- `lower(email) = key AND deleted_at IS NULL`
abbrev pub is_at : String → UserRow → Bool
is_at key u = str_eq (to_lower u.email) key && not u.deleted

-- `id = $1 AND deleted_at IS NULL`
abbrev pub has_id : String → UserRow → Bool
has_id id u = str_eq u.id id && not u.deleted

unfoldable pub first : (UserRow → Bool) → List UserRow → Option UserRow
first p [] = none
first p (u ∷ us) = let rest = first p us in if p u then some u else rest

unfoldable pub update : (UserRow → Bool) → (UserRow → UserRow) → List UserRow → List UserRow
update p f [] = []
update p f (u ∷ us) = (if p u then f u else u) ∷ update p f us

unfoldable pub find_by_email : String → List UserRow → Option UserRow
unfolding first
find_by_email email us = first (is_at (to_lower email)) us

unfoldable pub find_by_id : String → List UserRow → Option UserRow
unfolding first
find_by_id id us = first (has_id id) us

-- The row that `create` inserts, with the identifier and the hash that were made for it.
abbrev pub new_user : ℕ → String → String → String → String → String → List String → Bool → UserRow
new_user now id hash email name role access must_change = record {
  id = id;
  email = to_lower email;
  password_hash = hash;
  name = name;
  role = role;
  namespace_access = access;
  is_active = true;
  must_change_password = must_change;
  failed_login_attempts = 0;
  locked_until = none;
  last_login_at = none;
  created_at = now;
  updated_at = now;
  deleted = false;
}

abbrev pub create : UserRow → List UserRow → List UserRow
create u us = us ++ u ∷ []

abbrev pub one_more_failure : ℕ → UserRow → UserRow
one_more_failure now u = record u {
  failed_login_attempts = suc u.failed_login_attempts;
  updated_at = now;
}

abbrev pub lockout_ms : ℕ
lockout_ms = 900_000

abbrev pub lock : ℕ → UserRow → UserRow
lock now u = record u {
  locked_until = some (now + lockout_ms);
  failed_login_attempts = 0;
  updated_at = now;
}

-- `{ locked, attempts }`
pub record Failures : Type 0 where
  pub locked : Bool
  pub attempts : ℕ

abbrev pub count_failures : ℕ → String → List UserRow → Option UserRow → List UserRow × Failures
count_failures now key us none = (us, record { locked = false; attempts = 0 })
count_failures now key us (some u) =
    if leb 5 u.failed_login_attempts
    then (update (is_at key) (lock now) us, record { locked = true; attempts = 0 })
    else (us, record { locked = false; attempts = u.failed_login_attempts })

unfoldable pub increment_failed_login : ℕ → String → List UserRow → List UserRow × Failures
unfolding update first
increment_failed_login now email us =
    let key = to_lower email in
    let counted = update (is_at key) (one_more_failure now) us in
    count_failures now key counted (first (is_at key) counted)

abbrev pub unlocked_row : ℕ → UserRow → UserRow
unlocked_row now u = record u {
  failed_login_attempts = 0;
  locked_until = none;
  last_login_at = some now;
  updated_at = now;
}

unfoldable pub reset_failed_login : ℕ → String → List UserRow → List UserRow
unfolding update
reset_failed_login now email us = update (is_at (to_lower email)) (unlocked_row now) us

abbrev pub with_no_change_due : ℕ → UserRow → UserRow
with_no_change_due now u = record u { must_change_password = false; updated_at = now }

unfoldable pub clear_must_change_password : ℕ → String → List UserRow → List UserRow
unfolding update
clear_must_change_password now email us =
    update (is_at (to_lower email)) (with_no_change_due now) us

abbrev pub clear_lock : ℕ → UserRow → UserRow
clear_lock now u = record u { locked_until = none; updated_at = now }

-- The minutes that remain of a lock, rounded up; `none` is an account that is not locked.
abbrev pub lock_status : ℕ → String → List UserRow → Option ℕ → List UserRow × Option ℕ
lock_status now key us none = (us, none)
lock_status now key us (some expiry) =
    if ltb now expiry
    then (us, some ((expiry - now + 59_999) / 60_000))
    else (update (is_at key) (clear_lock now) us, none)

abbrev pub lock_of : Option UserRow → Option ℕ
lock_of none = none
lock_of (some u) = u.locked_until

unfoldable pub is_locked : ℕ → String → List UserRow → List UserRow × Option ℕ
unfolding update first
is_locked now email us =
    let key = to_lower email in lock_status now key us (lock_of (first (is_at key) us))

-- The UPDATE of the password that the change of a password makes.
abbrev pub with_password : ℕ → String → UserRow → UserRow
with_password now hash u = record u {
  password_hash = hash;
  must_change_password = false;
  updated_at = now;
}
