-- ===== src/Api/Login.antt =====
-- control-plane/api-server/src/auth/routes.ts: what POST /api/auth/register, /login and /change-password
-- do with the users. Hashing and comparing passwords are parameters. The tokens of a request that is
-- accepted are in Api/Sessions.

pub mod Lockout
pub mod Guesses
pub mod Runs
pub mod Entitled
use the_kubernetes_of_ai_age.Common.{
  ℕ, String, Bool, true, false, not, ◌&&◌, ◌||◌, Option, none, some, List, [], ◌∷◌, if◌then◌else◌,
  ltb, leb, str_eq,
}
use the_kubernetes_of_ai_age.Common.Text.{to_lower, trim, size, some_char, is_digit}
use the_kubernetes_of_ai_age.Api.Users.{
  UserRow, Failures, has_id, update, find_by_email, find_by_id, create, new_user,
  increment_failed_login, is_locked, with_password,
}

-- The code of a problem that is sent, with what its text names.
pub data Problem : Type 0 where
  validation_error : Problem
  invalid_credentials : Problem
  account_locked : ℕ → Problem
  conflict : Problem
  not_found : Problem

-- How a request ended: the user that it made or let in, or a problem. The reasons that share a problem
-- are told apart, as the audit entries tell them.
pub data Verdict : Type 0 where
  incomplete : Verdict
  weak_password : Verdict
  email_taken : Verdict
  unknown_user : Verdict
  disabled : Verdict
  locked : ℕ → Verdict
  wrong_password : Bool → Verdict
  accepted : UserRow → Verdict

-- What the client of a login sees.
unfoldable pub problem : Verdict → Option Problem
problem incomplete = some validation_error
problem weak_password = some validation_error
problem email_taken = some conflict
problem unknown_user = some invalid_credentials
problem disabled = some invalid_credentials
problem (locked minutes) = some (account_locked minutes)
problem (wrong_password b) = some invalid_credentials
problem (accepted u) = none

-- A field of the body that is there and not empty.
abbrev pub given : Option String → Option String
given none = none
given (some s) = if str_eq s "" then none else some s

-- `email.toLowerCase().trim()`, of an address whose letters beyond ASCII are in lower case.
abbrev pub normalise : String → String
normalise email = trim (to_lower email)

abbrev is_upper_char : ℕ → Bool
is_upper_char c = leb b'A' c && leb c b'Z'

abbrev is_lower_char : ℕ → Bool
is_lower_char c = leb b'a' c && leb c b'z'

-- The test of a new password.
unfoldable pub is_strong : String → Bool
is_strong password =
    leb 12 (size password)
    && some_char is_upper_char password
    && some_char is_lower_char password
    && some_char is_digit password

module _ (compare_password : String → String → Bool) where
  abbrev pub settle_password : ℕ → String → String → List UserRow → UserRow → List UserRow × Verdict
  settle_password now email password us u =
      let failed = increment_failed_login now email us in
      if compare_password password u.password_hash
      then (us, accepted u)
      else (failed.0, wrong_password failed.1.locked)

  -- `meanwhile` is what other requests do to the users while the password is compared. The user and the
  -- lock are read from one state of the table.
  abbrev pub check_lock :
      (List UserRow → List UserRow)
      → ℕ
      → String
      → String
      → UserRow
      → List UserRow × Option ℕ
      → List UserRow × Verdict
  check_lock meanwhile now email password u (us, some minutes) = (us, locked minutes)
  check_lock meanwhile now email password u (us, none) =
      settle_password now email password (meanwhile us) u

  abbrev pub login_user :
      (List UserRow → List UserRow)
      → ℕ
      → String
      → String
      → List UserRow
      → Option UserRow
      → List UserRow × Verdict
  login_user meanwhile now email password us none = (us, unknown_user)
  login_user meanwhile now email password us (some u) =
      if not u.is_active
      then (us, disabled)
      else check_lock meanwhile now email password u (is_locked now email us)

  abbrev pub login_with :
      (List UserRow → List UserRow)
      → ℕ
      → Option String
      → Option String
      → List UserRow
      → List UserRow × Verdict
  login_with meanwhile now (some email) (some password) us =
      let key = normalise email in login_user meanwhile now key password us (find_by_email key us)
  login_with meanwhile now none password us = (us, incomplete)
  login_with meanwhile now (some email) none us = (us, incomplete)

  unfoldable pub login :
      (List UserRow → List UserRow)
      → ℕ
      → Option String
      → Option String
      → List UserRow
      → List UserRow × Verdict
  unfolding find_by_email increment_failed_login is_locked trim to_lower
  login meanwhile now email password us = login_with meanwhile now (given email) (given password) us

  abbrev pub change_user :
      ℕ → String → String → String → List UserRow → Option UserRow → List UserRow × Verdict
  change_user now hash current next us none = (us, unknown_user)
  change_user now hash current next us (some u) =
      if not (compare_password current u.password_hash)
      then (us, wrong_password false)
      else if not (is_strong next)
      then (us, weak_password)
      else (update (has_id u.id) (with_password now hash) us, accepted u)

  abbrev pub change_with :
      ℕ → String → String → Option String → Option String → List UserRow → List UserRow × Verdict
  change_with now id hash (some current) (some next) us =
      change_user now hash current next us (find_by_id id us)
  change_with now id hash none next us = (us, incomplete)
  change_with now id hash (some current) none us = (us, incomplete)

  -- For the user that the token names, with the hash that is made of the new password.
  unfoldable pub change_password :
      ℕ → String → String → Option String → Option String → List UserRow → List UserRow × Verdict
  unfolding find_by_id update is_strong
  change_password now id hash current next us =
      change_with now id hash (given current) (given next) us

-- The row that a registration inserts, with the identifier and the hash that are made for it.
abbrev pub registered : ℕ → String → String → String → String → UserRow
registered now id hash email name =
    new_user now id hash email (trim name) "developer" ("default" ∷ []) false

abbrev pub register_user : UserRow → List UserRow → Option UserRow → List UserRow × Verdict
register_user row us (some existing) = (us, email_taken)
register_user row us none = (create row us, accepted row)

abbrev pub register_with :
    ℕ
    → String
    → String
    → Option String
    → Option String
    → Option String
    → List UserRow
    → List UserRow × Verdict
register_with now id hash (some name) (some email) (some password) us =
    let key = normalise email in
    if not (is_strong password)
    then (us, weak_password)
    else register_user (registered now id hash key name) us (find_by_email key us)
register_with now id hash none email password us = (us, incomplete)
register_with now id hash (some name) none password us = (us, incomplete)
register_with now id hash (some name) (some email) none us = (us, incomplete)

unfoldable pub register :
    ℕ
    → String
    → String
    → Option String
    → Option String
    → Option String
    → List UserRow
    → List UserRow × Verdict
unfolding find_by_email trim to_lower is_strong
register now id hash name email password us =
    register_with now id hash (given name) (given email) (given password) us
