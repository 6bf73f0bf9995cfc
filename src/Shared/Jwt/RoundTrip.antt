-- ===== src/Shared/Jwt/RoundTrip.antt =====
-- packages/shared/src/crypto/index.ts: `verifyJWT` on what `signJWT` gives.
use the_kubernetes_of_ai_age.Common.{
  ℕ, ◌+◌, String, true, Option, none, some, [], ◌∷◌, ◌≡◌, refl, sym, if◌then◌else◌, Bool-cases, inl,
  inr, ltb, str_eq, eq_refl, if_rule,
}
use the_kubernetes_of_ai_age.Common.Text.{split}
use the_kubernetes_of_ai_age.Common.Text.Dots.{dot, split-dot, split-no_dot}
use the_kubernetes_of_ai_age.Shared.Jwt.{
  Verified, with_claims, UserClaims, Platform, returns, header_text, seconds, timed, or_old,
  sign_jwt, verify_with, verify_jwt,
}
use the_kubernetes_of_ai_age.Shared.Jwt.Laws.{IsSound}

module _ (platform : Platform) (sound : IsSound platform) where
  abbrev payload_of : ℕ → ℕ → UserClaims → String
  payload_of at ttl claims = platform.encode (platform.stringify (timed at ttl claims))

  split-sign :
      (at ttl : ℕ) (secret : String) (claims : UserClaims)
      → split b'.' (sign_jwt platform at ttl secret claims)
        ≡ platform.encode header_text
          ∷ payload_of at ttl claims
          ∷ platform.encode
              (platform.hmac secret (dot (platform.encode header_text) (payload_of at ttl claims)))
          ∷ []
  unfolding sign_jwt
  split-sign at ttl secret claims =
      rw
        (
          split-dot (platform.encode header_text) _ (sound.no_dot header_text),
          split-dot (payload_of at ttl claims) _ (sound.no_dot _),
          split-no_dot (platform.encode _) (sound.no_dot _),
        )
        refl

  -- Whatever the signature and the secret, the claims of the payload are given only before they expire.
  with-claims :
      (now at ttl : ℕ) (header signature secret : String) (claims : UserClaims)
      → platform.parse (platform.stringify (timed at ttl claims))
        ≡ with_claims (timed at ttl claims)
      → platform.hmac secret (dot header (payload_of at ttl claims)) ≡ platform.decode signature
      → verify_with platform now header (payload_of at ttl claims) signature secret
        ≡ returns
            (if ltb (seconds at + ttl) (seconds now) then none else some (timed at ttl claims))
  unfolding verify_with
  with-claims now at ttl header signature secret claims read e =
      rw (e, eq_refl (platform.decode signature), sound.decode-encode, read) refl

  with-expired :
      (now at ttl : ℕ) (header signature secret : String) (claims : UserClaims)
      → platform.parse (platform.stringify (timed at ttl claims))
        ≡ with_claims (timed at ttl claims)
      → ltb (seconds at + ttl) (seconds now) ≡ true
      → verify_with platform now header (payload_of at ttl claims) signature secret ≡ returns none
  unfolding verify_with
  with-expired now at ttl header signature secret claims read over =
      rw (sound.decode-encode, read)
        (if_rule {A = Verified} (λ o. o ≡ returns none)
          (str_eq (platform.hmac secret (dot header (payload_of at ttl claims)))
            (platform.decode signature))
          (λ same. rw (over) refl) (λ other. refl))

  or_old-expired :
      (verify : String → Verified) (old : Option String)
      → ((s : String) → verify s ≡ returns none)
      → or_old verify old (returns none) ≡ returns none
  or_old-expired verify none h = refl
  or_old-expired verify (some s) h =
      if_rule {A = Verified} (λ o. o ≡ returns none) (str_eq s "") (λ blank. refl) (λ given. h s)

  secrets-claims :
      (now at ttl : ℕ) (header signature secret : String) (old : Option String)
      (claims : UserClaims)
      → platform.parse (platform.stringify (timed at ttl claims))
        ≡ with_claims (timed at ttl claims)
      → platform.hmac secret (dot header (payload_of at ttl claims)) ≡ platform.decode signature
      → or_old
          (verify_with platform now header (payload_of at ttl claims) signature)
          old
          (verify_with platform now header (payload_of at ttl claims) signature secret)
        ≡ returns
            (if ltb (seconds at + ttl) (seconds now) then none else some (timed at ttl claims))
  secrets-claims now at ttl header signature secret old claims read e =
      elim (Bool-cases (ltb (seconds at + ttl) (seconds now))) [
        | inl over ↦
            rw (with-expired now at ttl header signature secret claims read over, over)
              (or_old-expired (verify_with platform now header (payload_of at ttl claims) signature)
                old (λ s. with-expired now at ttl header signature s claims read over))
        | inr valid ↦ rw (with-claims now at ttl header signature secret claims read e, valid) refl
      ]

  -- A token that was signed for `ttl` seconds is accepted with the claims signed until those have passed,
  -- and by no secret after that, where the platform decodes what it encodes.
  pub verify_jwt-sign_jwt :
      (at now ttl : ℕ) (secret : String) (old : Option String) (claims : UserClaims)
      → platform.parse (platform.stringify (timed at ttl claims))
        ≡ with_claims (timed at ttl claims)
      → verify_jwt platform now secret old (sign_jwt platform at ttl secret claims)
        ≡ returns
            (if ltb (seconds at + ttl) (seconds now) then none else some (timed at ttl claims))
  unfolding verify_jwt
  verify_jwt-sign_jwt at now ttl secret old claims read =
      rw (split-sign at ttl secret claims, sound.decode-encode header_text, sound.header_alg)
        (secrets-claims now at ttl (platform.encode header_text) _ secret old claims read
          (sym (sound.decode-encode _)))
