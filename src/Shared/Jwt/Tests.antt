-- ===== src/Shared/Jwt/Tests.antt =====
-- packages/shared/src/crypto/index.ts: the theorems on tokens at a concrete platform, whose encoding
-- writes "." as "-d" and "-" as "--", and whose digest is the secret before the text.
use Prim.Native.Char.{Char, code}
use Prim.Native.String
use text.Mathlib.TextEquality.{Char-path}
use the_kubernetes_of_ai_age.Common.{
  String, Bool, true, false, none, some, [], ◌∷◌, ◌≡◌, refl, ap, arith, if◌then◌else◌, Bool-cases,
  inl, inr, ◌==◌, str_eq,
}
use the_kubernetes_of_ai_age.Common.Text.{split, every_char}
use the_kubernetes_of_ai_age.Common.Text.Dots.{is_not_dot}
use the_kubernetes_of_ai_age.Shared.Jwt.{
  with_claims, unreadable, UserClaims, malformed, with_alg, Platform, returns, header_text, timed,
  sign_jwt, verify_with, verify_jwt,
}
use the_kubernetes_of_ai_age.Shared.Jwt.Laws.{IsSound, IsAccepted, verify_jwt-IsAccepted}
use the_kubernetes_of_ai_age.Shared.Jwt.RoundTrip.{verify_jwt-sign_jwt}

abbrev dash : Char
dash = Prim.Native.String.char_at "-" 0

abbrev letter : Char
letter = Prim.Native.String.char_at "d" 0

abbrev full_stop : Char
full_stop = Prim.Native.String.char_at "." 0

abbrev escape : Char → String → String
escape c s =
    if code c == b'.'
    then String.◌∷◌ dash (String.◌∷◌ letter s)
    else if code c == b'-'
    then String.◌∷◌ dash (String.◌∷◌ dash s)
    else String.◌∷◌ c s

encode : String → String
encode String.[] = ""
encode (String.◌∷◌ c s) = escape c (encode s)

decode_from : Bool → String → String
decode_from escaped String.[] = ""
decode_from false (String.◌∷◌ c s) =
    let after = decode_from true s in
    let rest = decode_from false s in if code c == b'-' then after else String.◌∷◌ c rest
decode_from true (String.◌∷◌ c s) =
    let rest = decode_from false s in String.◌∷◌ (if code c == b'd' then full_stop else dash) rest

encode-no_dot : (s : String) → every_char is_not_dot (encode s) ≡ true
unfolding encode
encode-no_dot String.[] = refl
encode-no_dot (String.◌∷◌ c s) = ground (arith, encode-no_dot s)

decode-encode : (s : String) → decode_from false (encode s) ≡ s
unfolding encode decode_from
decode-encode String.[] = refl
decode-encode (String.◌∷◌ c s) =
    let ih = decode-encode s in
    elim (Bool-cases (code c == b'.')) [
      | inl point ↦
          rw (point)
            (rw (ih) (ap (λ d. String.◌∷◌ d s) (Char-path full_stop c (ground (arith, point)))))
      | inr other ↦ elim (Bool-cases (code c == b'-')) [
        | inl line ↦
            rw (other, line)
              (rw (ih) (ap (λ d. String.◌∷◌ d s) (Char-path dash c (ground (arith, line)))))
        | inr plain ↦ rw (other, plain) (rw (plain) (ap (String.◌∷◌ c) ih))
      ]
    ]

abbrev user : UserClaims
user = record {
  sub = "1";
  email = "a@b.c";
  name = "A";
  role = "developer";
  namespace_access = "default" ∷ [];
}

abbrev platform : Platform
platform = record {
  encode = encode;
  decode = decode_from false;
  hmac = λ secret s. Prim.Native.String.◌++◌ secret s;
  parse_header = λ s. if str_eq s header_text then with_alg (some "HS256") else malformed;
  stringify = λ c. "claims";
  parse = λ s. if str_eq s "claims" then with_claims (timed 5_000 900 user) else unreadable;
}

platform-IsSound : IsSound platform
platform-IsSound = record {
  no_dot = encode-no_dot;
  decode-encode = decode-encode;
  header_alg = refl;
}

abbrev token : String
token = sign_jwt platform 5_000 900 "key" user

verify_jwt-sign_jwt_example :
    verify_jwt platform 10_000 "key" none token ≡ returns (some (timed 5_000 900 user))
verify_jwt-sign_jwt_example =
    verify_jwt-sign_jwt platform platform-IsSound 5_000 10_000 900 "key" none user refl

-- A secret that has been replaced.
abbrev old_token : String
old_token = sign_jwt platform 5_000 900 "before" user

old_token_is_accepted :
    verify_jwt platform 10_000 "key" (some "before") old_token
    ≡ returns (some (timed 5_000 900 user))
unfolding verify_jwt verify_with sign_jwt split encode decode_from
old_token_is_accepted = refl

verify_jwt-IsAccepted_example :
    IsAccepted platform 10_000 "key" (some "before") old_token (timed 5_000 900 user)
verify_jwt-IsAccepted_example =
    verify_jwt-IsAccepted platform 10_000 "key" old_token (some "before") (timed 5_000 900 user)
      old_token_is_accepted
