-- ===== src/Api/Sessions.antt =====
-- control-plane/api-server/src/auth/routes.ts: `authenticate` and the handlers of POST /api/auth/login,
-- /refresh, /change-password and /logout with their tokens. `Env` holds what they take from elsewhere.
-- Cookies that are set are the tokens issued; rate limits of the routes and audit entries are left out.
pub mod Laws
use the_kubernetes_of_ai_age.Common.{
  ℕ, String, Bool, true, false, not, Option, none, some, List, [], ◌∷◌, if◌then◌else◌,
}
use the_kubernetes_of_ai_age.Shared.Jwt.{
  UserClaims, JwtClaims, Platform, Verified, throws, returns, sign_jwt, verify_jwt,
}
use the_kubernetes_of_ai_age.Api.Users.{UserRow, find_by_id}
use the_kubernetes_of_ai_age.Api.Login.{Verdict, accepted, login, change_password}
use the_kubernetes_of_ai_age.Api.Tokens.{
  Redis, Tokens, Action, run, access_token_sec, store_refresh_token, verify_refresh_token,
  revoke_refresh_token, is_token_revoked, revoke_token,
}
use the_kubernetes_of_ai_age.Api.Cookies.{
  Headers, filled, extract_refresh_token, extract_token_from_request, presented_token,
}

pub record Env (R : Type 0) : Type 0 where
  pub redis : Redis R
  pub hash_token : String → String
  pub platform : Platform
  pub jwt_secret : String
  pub compare_password : String → String → Bool
  pub decode : String → Option String
  -- Is there a client of Redis?
  pub client : Bool

pub record State (R : Type 0) : Type 0 where
  pub users : List UserRow
  pub tokens : Tokens R

-- What `authenticate` does: it throws, answers 401, or attaches the claims.
pub data Authentication : Type 0 where
  crashes : Authentication
  missing_token : Authentication
  invalid_token : Authentication
  revoked_token : Authentication
  authenticated : JwtClaims → Authentication

-- An access token and a refresh token.
pub record Issued : Type 0 where
  pub access : String
  pub refresh : String

-- What a handler answers: it throws, refuses with 401, refuses by a verdict on the user, or gives tokens.
pub data Answer : Type 0 where
  crash : Answer
  unauthorized : Answer
  refused : Verdict → Answer
  issued : Issued → Answer
  logged_out : Answer

abbrev pub claims_of : UserRow → UserClaims
claims_of u = record {
  sub = u.id;
  email = u.email;
  name = u.name;
  role = u.role;
  namespace_access = u.namespace_access;
}

-- The time of expiry that a token's claims state, where it is valid. The handlers that revoke a token
-- have verified it before, so that it does not throw.
abbrev pub expiry : Verified → Option ℕ
expiry throws = none
expiry (returns none) = none
expiry (returns (some c)) = c.exp

module _ {R : Type 0} (env : Env R) where
  abbrev pub check_revoked : ℕ → String → R → Verified → Authentication
  check_revoked now token server throws = crashes
  check_revoked now token server (returns none) = invalid_token
  check_revoked now token server (returns (some claims)) =
      if is_token_revoked env.redis env.hash_token now env.client token server
      then revoked_token
      else authenticated claims

  abbrev pub check_token : ℕ → R → Option (Option String) → Authentication
  check_token now server none = crashes
  check_token now server (some none) = missing_token
  check_token now server (some (some token)) =
      check_revoked now token server (verify_jwt env.platform now env.jwt_secret none token)

  abbrev pub filled_token : Option (Option String) → Option (Option String)
  filled_token none = none
  filled_token (some t) = some (filled t)

  unfoldable pub authenticate : ℕ → Headers → R → Authentication
  unfolding presented_token verify_jwt is_token_revoked
  authenticate now h server = check_token now server (filled_token (presented_token env.decode h))

  -- The two tokens for a user; `random` is the refresh token that was drawn.
  abbrev pub issue : ℕ → Bool → String → UserRow → State R → State R × Answer
  issue now ready random u s = (
    record s {
      tokens = store_refresh_token env.redis env.hash_token now ready random u.id s.tokens;
    },
    issued (record {
      access = sign_jwt env.platform now access_token_sec env.jwt_secret (claims_of u);
      refresh = random;
    }),
  )

  abbrev pub after_login : ℕ → Bool → String → State R → List UserRow × Verdict → State R × Answer
  after_login now ready random s (us, accepted u) =
      issue now ready random u (record s { users = us })
  after_login now ready random s (us, v) = (record s { users = us }, refused v)

  unfoldable pub post_login :
      (List UserRow → List UserRow)
      → ℕ
      → Bool
      → String
      → Option String
      → Option String
      → State R
      → State R × Answer
  unfolding login store_refresh_token sign_jwt
  post_login meanwhile now ready random email password s =
      after_login now ready random s
        (login env.compare_password meanwhile now email password s.users)

  -- Other requests store, verify and revoke tokens while this one waits: `before` until its DEL, and
  -- `after` from there until its new token is stored.
  abbrev pub refresh_for :
      ℕ → Bool → String → String → List Action → State R → Option UserRow → State R × Answer
  refresh_for now ready random token after s none = (s, unauthorized)
  refresh_for now ready random token after s (some u) =
      if not u.is_active
      then (s, unauthorized)
      else issue now ready random u (record s {
        tokens =
            run env.redis env.hash_token after
              (revoke_refresh_token env.redis env.hash_token now ready token s.tokens);
      })

  abbrev pub refresh_stored :
      ℕ
      → Bool
      → String
      → String
      → List Action
      → List Action
      → State R
      → Tokens R × Option String
      → State R × Answer
  refresh_stored now ready random token before after s (t, none) =
      (record s { tokens = t }, unauthorized)
  refresh_stored now ready random token before after s (t, some user_id) =
      refresh_for now ready random token after
        (record s { tokens = run env.redis env.hash_token before t }) (find_by_id user_id s.users)

  abbrev pub refresh_with :
      ℕ
      → Bool
      → String
      → List Action
      → List Action
      → State R
      → Option (Option String)
      → State R × Answer
  refresh_with now ready random before after s none = (s, crash)
  refresh_with now ready random before after s (some none) = (s, unauthorized)
  refresh_with now ready random before after s (some (some token)) =
      refresh_stored now ready random token before after s
        (verify_refresh_token env.redis env.hash_token now ready token s.tokens)

  abbrev pub or_body : Option (Option String) → Option String → Option (Option String)
  or_body none body = none
  or_body (some none) body = some (filled body)
  or_body (some (some t)) body = some (filled (some t))

  -- The token is that of the cookie, or that of the body.
  unfoldable pub post_refresh :
      ℕ
      → Bool
      → String
      → Headers
      → Option String
      → List Action
      → List Action
      → State R
      → State R × Answer
  unfolding extract_refresh_token verify_refresh_token revoke_refresh_token store_refresh_token
      find_by_id sign_jwt
  post_refresh now ready random h body before after s =
      refresh_with now ready random before after s
        (or_body (extract_refresh_token env.decode h) body)

  -- `if (token) await revokeToken(token)`, and the same for the refresh token.
  abbrev pub revoke_access : ℕ → Option String → Tokens R → Tokens R
  revoke_access now none t = t
  revoke_access now (some token) t = record t {
    server =
        revoke_token env.redis env.hash_token now env.client token
          (expiry (verify_jwt env.platform now env.jwt_secret none token)) t.server;
  }

  abbrev pub revoke_refresh : ℕ → Bool → Option String → Tokens R → Tokens R
  revoke_refresh now ready none t = t
  revoke_refresh now ready (some token) t =
      revoke_refresh_token env.redis env.hash_token now ready token t

  abbrev pub revoke_both :
      ℕ → Bool → Option (Option String) → Option (Option String) → Tokens R → Option (Tokens R)
  revoke_both now ready none refresh t = none
  revoke_both now ready (some token) none t = none
  revoke_both now ready (some token) (some refresh) t =
      some (revoke_refresh now ready (filled refresh) (revoke_access now (filled token) t))

  abbrev pub revoked_by : ℕ → Bool → Headers → Tokens R → Option (Tokens R)
  revoked_by now ready h t =
      revoke_both now ready (extract_token_from_request env.decode h)
        (extract_refresh_token env.decode h) t

  abbrev pub changed_tokens :
      ℕ → Bool → String → UserRow → State R → Option (Tokens R) → State R × Answer
  changed_tokens now ready random u s none = (s, crash)
  changed_tokens now ready random u s (some t) = issue now ready random u (record s { tokens = t })

  abbrev pub after_change :
      ℕ → Bool → String → Headers → State R → List UserRow × Verdict → State R × Answer
  after_change now ready random h s (us, accepted u) =
      changed_tokens now ready random u (record s { users = us }) (revoked_by now ready h s.tokens)
  after_change now ready random h s (us, v) = (record s { users = us }, refused v)

  abbrev pub guard : State R → Authentication → (JwtClaims → State R × Answer) → State R × Answer
  guard s (authenticated claims) f = f claims
  guard s crashes f = (s, crash)
  guard s _ f = (s, unauthorized)

  -- The hash is the one that is made of the new password.
  unfoldable pub post_change_password :
      ℕ
      → Bool
      → String
      → String
      → Headers
      → Option String
      → Option String
      → State R
      → State R × Answer
  unfolding authenticate change_password extract_token_from_request extract_refresh_token
      revoke_token revoke_refresh_token store_refresh_token sign_jwt verify_jwt
  post_change_password now ready random hash h current next s =
      guard s (authenticate now h s.tokens.server) (λ claims.
        after_change now ready random h s
          (change_password env.compare_password now claims.user.sub hash current next s.users))

  abbrev pub after_logout : State R → Option (Tokens R) → State R × Answer
  after_logout s none = (s, crash)
  after_logout s (some t) = (record s { tokens = t }, logged_out)

  unfoldable pub post_logout : ℕ → Bool → Headers → State R → State R × Answer
  unfolding authenticate extract_token_from_request extract_refresh_token revoke_token
      revoke_refresh_token verify_jwt
  post_logout now ready h s =
      guard s (authenticate now h s.tokens.server)
        (λ claims. after_logout s (revoked_by now ready h s.tokens))
