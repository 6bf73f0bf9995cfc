-- ===== src/Api/Tests.antt =====
-- control-plane/api-server/src/auth: the theorems at concrete requests.
use the_kubernetes_of_ai_age.Common.{
  ◌≤◌, String, Bool, true, false, Option, none, some, List, [], ◌∷◌, ◌≡◌, ◌↔◌, refl, sym, ap, ◌∙◌,
  arith, All, keep, length, str_eq, eq_iff, Bool-cases, inl, inr,
}
use the_kubernetes_of_ai_age.Common.Maps
use the_kubernetes_of_ai_age.Common.Maps.{get-set, get-set_ne, get-delete}
use the_kubernetes_of_ai_age.Common.Text.{to_lower, trim, split}
use the_kubernetes_of_ai_age.Shared.Jwt.{
  with_claims, JwtClaims, with_alg, sign_jwt, verify_jwt, verify_with,
}
use the_kubernetes_of_ai_age.Shared.RateLimiter.Window.Times.{in_window}
use the_kubernetes_of_ai_age.Api.Users.{
  UserRow, first, update, find_by_email, find_by_id, increment_failed_login, is_locked, lockout_ms,
}
use the_kubernetes_of_ai_age.Api.Login.{accepted, login}
use the_kubernetes_of_ai_age.Api.Login.Entitled.{IsEntitled, login-accepted-iff_IsEntitled}
use the_kubernetes_of_ai_age.Api.Login.Runs.{
  Request, logs_in, changes, registers, wrong_guesses, wrong_guesses-le,
}
use the_kubernetes_of_ai_age.Api.Tokens.{
  Redis, Tokens, Action, stores, verifies, revokes, store_refresh_token, verify_refresh_token, run,
  is_token_revoked,
}
use the_kubernetes_of_ai_age.Api.Tokens.Fallback.{verify-run-stored}
use the_kubernetes_of_ai_age.Api.Tokens.Revoked.{IsFaithful, IsOther}
use the_kubernetes_of_ai_age.Api.Cookies.{
  Headers, presented_token, extract_refresh_token, parse_cookies, cookie, add_cookies, cut,
}
use the_kubernetes_of_ai_age.Api.Sessions.{Env, State, authenticate, post_refresh}
use the_kubernetes_of_ai_age.Api.Sessions.Laws.{
  IsAuthentic, authenticate-IsAuthentic, verify-run-post_refresh,
}

-- The hash of a password is the password.
abbrev compare : String → String → Bool
compare word hash = str_eq word hash

abbrev ann : UserRow
ann = record {
  id = "1";
  email = "ann@x.io";
  password_hash = "right";
  name = "Ann";
  role = "developer";
  namespace_access = "default" ∷ [];
  is_active = true;
  must_change_password = false;
  failed_login_attempts = 3;
  locked_until = some 1_000;
  last_login_at = none;
  created_at = 0;
  updated_at = 0;
  deleted = false;
}

abbrev guesses : List Request
guesses =
    logs_in 2_000 (some " Ann@X.io") (some "a")
    ∷ logs_in 2_001 (some "ann@x.io") (some "b")
    ∷ changes 2_002 "1" "Password1234" (some "right") (some "Password1234")
    ∷ logs_in 2_003 (some "ann@x.io") (some "c")
    ∷ registers 2_004 "2" "Password1234" (some "Bob") (some "bob@x.io") (some "Password1234")
    ∷ logs_in 902_001 (some "ann@x.io") (some "d")
    ∷ []

wrong_guesses-le_example :
    length
      (keep (in_window lockout_ms 902_001) (wrong_guesses compare "ann@x.io" guesses (ann ∷ [])))
    ≤ 5
unfolding first to_lower
wrong_guesses-le_example =
    wrong_guesses-le compare "ann@x.io" guesses (ann ∷ []) 902_001 (omega arith) (omega arith)

login-accepted-iff_IsEntitled_example :
    ((login compare (λ rows. rows) 1_000 (some "Ann@x.io ") (some "right") (ann ∷ [])).1
      ≡ accepted ann)
    ↔ IsEntitled compare 1_000 (some "Ann@x.io ") (some "right") (ann ∷ []) ann
login-accepted-iff_IsEntitled_example =
    login-accepted-iff_IsEntitled compare (λ rows. rows) 1_000 (some "Ann@x.io ") (some "right")
      (ann ∷ []) ann

-- The lock that ended at 1,000 is cleared.
ann-let_in :
    login compare (λ rows. rows) 1_000 (some "Ann@x.io ") (some "right") (ann ∷ [])
    ≡ ((record ann { locked_until = none; updated_at = 1_000 }) ∷ [], accepted ann)
unfolding login first update find_by_email increment_failed_login is_locked trim to_lower
ann-let_in = refl

-- A Redis that always answers and never expires a key.
abbrev Server : Type 0
Server = List (String × String)

abbrev redis : Redis Server
redis = record {
  set = λ now k v ttl r. (Maps.set k v r, true);
  get = λ now k r. some (Maps.get k r);
  del = λ now k r. (Maps.delete k r, true);
  exists = λ now k r. some (elim (Maps.get k r) [ none ↦ false | some v ↦ true ]);
}

answer : Option (Option String) → Option String
answer none = none
answer (some o) = o

get-delete-some :
    (j k u : String) (r : Server)
    → Maps.get k (Maps.delete j r) ≡ some u
    → (str_eq j k ≡ false) × (Maps.get k r ≡ some u)
get-delete-some j k u r h = elim (Bool-cases (str_eq j k)) [
  | inl e ↦ absurd (ground (arith, e, h, get-delete j k r))
  | inr e ↦ (e, ground (arith, e, h, get-delete j k r))
]

redis-IsFaithful : IsFaithful redis
unfolding answer
redis-IsFaithful = record {
  del_gone = λ now k r answered later u p.
      let h = get-delete-some k k u r (ap answer p) in absurd (ground (arith, h.0, eq_iff k k));
  del_keeps = λ now k j r gone later u p.
      let h = get-delete-some j k u r (ap answer p) in gone later u (ap some h.1);
  set_keeps = λ now ttl k j v r ne gone later u p. elim (Bool-cases (str_eq j k)) [
    | inl e ↦ absurd (ne (sym ((eq_iff j k).0 e)))
    | inr e ↦ gone later u (ap some (sym (get-set_ne j k v r e) ∙ ap answer p))
  ];
}

-- The hash of a token is the token.
abbrev hash_token : String → String
hash_token token = token

abbrev start : Tokens Server
start = record {
  server = ("egaop:refresh:t", "1") ∷ [];
  memory = ("t", record { user_id = "1"; expires_at = 700_000_000 }) ∷ [];
}

abbrev later_actions : List Action
later_actions = stores 20 false "v" "1" ∷ verifies 30 true "t" ∷ revokes 40 true "u" ∷ []

verify-run-stored_example :
    (verify_refresh_token redis hash_token 604_800_005 false "w" (
      run redis hash_token
        (stores 20 false "v" "1" ∷ verifies 30 false "w" ∷ revokes 40 true "t" ∷ [])
        (store_refresh_token redis hash_token 5 false "w" "2" start))).1
    ≡ some "2"
verify-run-stored_example =
    verify-run-stored redis hash_token "w" "2" 5 604_800_005
      (stores 20 false "v" "1" ∷ verifies 30 false "w" ∷ revokes 40 true "t" ∷ []) start
      (refl, omega arith, refl, (refl, omega arith, (refl, tt)))

-- A platform that encodes nothing, where every digest is "sig" and every payload states these claims.
abbrev claims : JwtClaims
claims = record {
  user = record {
    sub = "1";
    email = "ann@x.io";
    name = "Ann";
    role = "developer";
    namespace_access = "default" ∷ [];
  };
  iat = 0;
  exp = some 900;
}

abbrev env : Env Server
env = record {
  redis = redis;
  hash_token = hash_token;
  platform = record {
    encode = λ s. s;
    decode = λ s. s;
    hmac = λ secret s. "sig";
    parse_header = λ s. with_alg (some "HS256");
    stringify = λ c. "p";
    parse = λ s. with_claims claims;
  };
  jwt_secret = "0123456789abcdef0123456789abcdef";
  compare_password = compare;
  decode = λ s. some s;
  client = true;
}

abbrev headers : Headers
headers = record {
  authorization = some "Bearer ";
  cookie = some "a; egaop_token=h.p.sig; egaop_refresh = t";
}

authenticate-IsAuthentic_example : IsAuthentic env 5_000 headers [] claims
unfolding authenticate presented_token parse_cookies add_cookies cut split trim cookie Maps.get
    Maps.set verify_jwt verify_with is_token_revoked
authenticate-IsAuthentic_example = authenticate-IsAuthentic env 5_000 headers [] claims refl

abbrev state : State Server
state = record { users = ann ∷ []; tokens = start }

others : All (IsOther hash_token (hash_token "t")) later_actions
others = ((λ e. ground (arith, e, eq_iff "v" "t")), (tt, (tt, tt)))

verify-run-post_refresh_example :
    (verify_refresh_token redis hash_token 50 true "t" (
      run redis hash_token later_actions
        (post_refresh env 10 true "new" headers none [] later_actions state).0.tokens)).1
    ≡ none
unfolding extract_refresh_token parse_cookies add_cookies cut split trim cookie Maps.get Maps.set
    post_refresh verify_refresh_token first find_by_id sign_jwt
verify-run-post_refresh_example =
    verify-run-post_refresh env redis-IsFaithful 10 50 true "new" "t" headers none [] later_actions
      state (record { access = "{\"alg\":\"HS256\",\"typ\":\"JWT\"}.p.sig"; refresh = "new" })
      later_actions refl refl refl (λ e. ground (arith, e, eq_iff "new" "t")) others others
