-- ===== src/Shared/Jwt.antt =====
-- packages/shared/src/crypto/index.ts: `signJWT` and `verifyJWT`. The platform is a parameter: base64url,
-- HMAC and JSON. Bytes are written as texts. `Date.now()` is the argument `now`, in milliseconds.
pub mod Laws
pub mod RoundTrip
mod Tests
use the_kubernetes_of_ai_age.Common.{
  ℕ, ◌+◌, ◌/◌, String, Bool, Option, none, some, List, [], ◌∷◌, if◌then◌else◌, ltb, str_eq,
}
use the_kubernetes_of_ai_age.Common.Text.{split}
use the_kubernetes_of_ai_age.Common.Text.Dots.{dot}

-- The claims of a user.
pub record UserClaims : Type 0 where
  pub sub : String
  pub email : String
  pub name : String
  pub role : String
  pub namespace_access : List String

-- The payload of a token: `exp` is the whole part of the number, and absent where it is no finite number.
pub record JwtClaims : Type 0 where
  pub user : UserClaims
  pub iat : ℕ
  pub exp : Option ℕ

-- What JSON.parse gives for a header: it throws, gives null, or a value with this `alg`, if that is a
-- text.
pub data Header : Type 0 where
  malformed : Header
  null_header : Header
  with_alg : Option String → Header

-- The same for a payload.
pub data Payload : Type 0 where
  unreadable : Payload
  null_payload : Payload
  with_claims : JwtClaims → Payload

pub record Platform : Type 0 where
  pub encode : String → String
  pub decode : String → String
  pub hmac : String → String → String
  pub parse_header : String → Header
  pub stringify : JwtClaims → String
  pub parse : String → Payload

-- A call throws, or returns claims or null.
pub data Verified : Type 0 where
  throws : Verified
  returns : Option JwtClaims → Verified

-- `JSON.stringify({ alg: "HS256", typ: "JWT" })`
abbrev pub header_text : String
header_text = "{\"alg\":\"HS256\",\"typ\":\"JWT\"}"

abbrev pub seconds : ℕ → ℕ
seconds now = now / 1_000

-- The claims with their times.
abbrev pub timed : ℕ → ℕ → UserClaims → JwtClaims
timed now expires_in claims = record {
  user = claims;
  iat = seconds now;
  exp = some (seconds now + expires_in);
}

-- `exp` must be there and must not have passed.
abbrev pub unexpired : ℕ → JwtClaims → Option ℕ → Option JwtClaims
unexpired now claims none = none
unexpired now claims (some exp) = if ltb exp (seconds now) then none else some claims

-- The test of `claims.exp` throws where the payload is null.
abbrev pub check_claims : ℕ → Payload → Verified
check_claims now unreadable = returns none
check_claims now null_payload = throws
check_claims now (with_claims claims) = returns (unexpired now claims claims.exp)

abbrev pub or_old : (String → Verified) → Option String → Verified → Verified
or_old verify_with old throws = throws
or_old verify_with old (returns (some claims)) = returns (some claims)
or_old verify_with none (returns none) = returns none
or_old verify_with (some old) (returns none) =
    if str_eq old "" then returns none else verify_with old

module _ (platform : Platform) where
  unfoldable pub sign_jwt : ℕ → ℕ → String → UserClaims → String
  sign_jwt now expires_in secret claims =
      let header = platform.encode header_text in
      let payload = platform.encode (platform.stringify (timed now expires_in claims)) in
      dot header (dot payload (platform.encode (platform.hmac secret (dot header payload))))

  -- Two digests of different lengths are different, and `timingSafeEqual` tells the others apart.
  unfoldable pub verify_with : ℕ → String → String → String → String → Verified
  verify_with now header payload signature secret =
      if str_eq (platform.hmac secret (dot header payload)) (platform.decode signature)
      then check_claims now (platform.parse (platform.decode payload))
      else returns none

  abbrev pub verify_parts :
      ℕ → String → Option String → String → String → String → Header → Verified
  verify_parts now secret old h p s malformed = returns none
  verify_parts now secret old h p s null_header = throws
  verify_parts now secret old h p s (with_alg none) = returns none
  verify_parts now secret old h p s (with_alg (some alg)) =
      if str_eq alg "HS256"
      then or_old (verify_with now h p s) old (verify_with now h p s secret)
      else returns none

  abbrev pub verify_pieces : ℕ → String → Option String → List String → Verified
  verify_pieces now secret old (h ∷ p ∷ s ∷ []) =
      verify_parts now secret old h p s (platform.parse_header (platform.decode h))
  verify_pieces now secret old _ = returns none

  unfoldable pub verify_jwt : ℕ → String → Option String → String → Verified
  unfolding split verify_with
  verify_jwt now secret old token = verify_pieces now secret old (split b'.' token)
