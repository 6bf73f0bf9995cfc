-- ===== src/Shared/Jwt/Laws.antt =====
-- packages/shared/src/crypto/index.ts: which tokens `verifyJWT` accepts.
use the_kubernetes_of_ai_age.Common.{
  ℕ, ◌≤◌, String, true, Option, none, some, List, [], ◌∷◌, ◌≡◌, ◌≢◌, refl, sym, ◌∙◌, ap, arith,
  Bool-cases, ◌⊎◌, inl, inr, ltb, str_eq, eq_iff,
}
use the_kubernetes_of_ai_age.Common.Text.{split, every_char}
use the_kubernetes_of_ai_age.Common.Text.Dots.{dot, is_not_dot}
use the_kubernetes_of_ai_age.Shared.Jwt.{
  Payload, unreadable, null_payload, with_claims, JwtClaims, Header, malformed, null_header,
  with_alg, Platform, Verified, throws, returns, dot, header_text, seconds, unexpired, check_claims,
  or_old, verify_with, verify_parts, verify_pieces, verify_jwt,
}

module _ (platform : Platform) where
  -- What is asked of the platform: what it encodes has no dot and is decoded as it was, and the
  -- header is parsed.
  pub record IsSound : Type 0 where
    pub no_dot : (s : String) → every_char is_not_dot (platform.encode s) ≡ true
    pub decode-encode : (s : String) → platform.decode (platform.encode s) ≡ s
    pub header_alg : platform.parse_header header_text ≡ with_alg (some "HS256")

  -- A token is what was signed with the secret `secret`, and has not expired.
  pub record IsSigned (now : ℕ) (secret token : String) (claims : JwtClaims) : Type 0 where
    pub head : String
    pub payload : String
    pub signature : String
    pub exp : ℕ
    pub parts : split b'.' token ≡ head ∷ payload ∷ signature ∷ []
    pub alg : platform.parse_header (platform.decode head) ≡ with_alg (some "HS256")
    pub signed : platform.decode signature ≡ platform.hmac secret (dot head payload)
    pub read : platform.parse (platform.decode payload) ≡ with_claims claims
    pub expiry : claims.exp ≡ some exp
    pub unexpired : seconds now ≤ exp

  claims_of : JwtClaims → Option JwtClaims → JwtClaims
  claims_of d none = d
  claims_of d (some c) = c

  unexpired-some :
      (now : ℕ) (c d : JwtClaims) (e : Option ℕ)
      → unexpired now c e ≡ some d
      → (exp : ℕ) × (c ≡ d) × (e ≡ some exp) × (seconds now ≤ exp)
  unfolding claims_of
  unexpired-some now c d none h = absurd (cc)
  unexpired-some now c d (some exp) h = elim (Bool-cases (ltb exp (seconds now))) [
    | inl e ↦ absurd (ground (arith, e, h))
    | inr e ↦ (exp, ap (claims_of c) (rw (e) at h), refl, ground (arith, e))
  ]

  result : Verified → Option JwtClaims
  result throws = none
  result (returns o) = o

  check-some :
      (now : ℕ) (p : Payload) (d : JwtClaims)
      → check_claims now p ≡ returns (some d)
      → (exp : ℕ) × (p ≡ with_claims d) × (d.exp ≡ some exp) × (seconds now ≤ exp)
  unfolding result
  check-some now unreadable d h = absurd (cc)
  check-some now null_payload d h = absurd (cc)
  check-some now (with_claims c) d h =
      let (exp, same, e, le) = unexpired-some now c d c.exp (ap result h) in
      (exp, ap with_claims same, ap (λ x. x.exp) (sym same) ∙ e, le)

  with-IsSigned :
      (now : ℕ) (h p s secret token : String) (claims : JwtClaims)
      → split b'.' token ≡ h ∷ p ∷ s ∷ []
      → platform.parse_header (platform.decode h) ≡ with_alg (some "HS256")
      → verify_with platform now h p s secret ≡ returns (some claims)
      → IsSigned now secret token claims
  unfolding verify_with
  with-IsSigned now h p s secret token claims parts alg v =
      elim (Bool-cases (str_eq (platform.hmac secret (dot h p)) (platform.decode s))) [
        | inl e ↦
            let (exp, read, expiry, le) =
              check-some now (platform.parse (platform.decode p)) claims (rw (e) at v) in
            record {
              head = h;
              payload = p;
              signature = s;
              exp = exp;
              parts = parts;
              alg = alg;
              signed = sym ((eq_iff (platform.hmac secret (dot h p)) (platform.decode s)).0 e);
              read = read;
              expiry = expiry;
              unexpired = le;
            }
        | inr e ↦ absurd (none≢some (rw (e) at v))
      ]
    where
      none≢some : ◌≡◌ {A = Verified} (returns none) (returns (some claims)) → ⊥
      none≢some q = cc

  -- One of the two secrets signed the token; an old secret that is the empty text counts as none.
  abbrev pub IsAccepted : ℕ → String → Option String → String → JwtClaims → Type 0
  IsAccepted now secret old token claims =
      IsSigned now secret token claims
      ⊎ ((o : String) × (old ≡ some o) × (o ≢ "") × IsSigned now o token claims)

  Verified-cases :
      (v : Verified)
      → (v ≡ throws) ⊎ (v ≡ returns none) ⊎ ((c : JwtClaims) × (v ≡ returns (some c)))
  Verified-cases throws = inl refl
  Verified-cases (returns none) = inr (inl refl)
  Verified-cases (returns (some c)) = inr (inr (c, refl))

  old-IsAccepted :
      (now : ℕ) (h p s secret token : String) (old : Option String) (claims : JwtClaims)
      → split b'.' token ≡ h ∷ p ∷ s ∷ []
      → platform.parse_header (platform.decode h) ≡ with_alg (some "HS256")
      → or_old (verify_with platform now h p s) old (verify_with platform now h p s secret)
        ≡ returns (some claims)
      → IsAccepted now secret old token claims
  old-IsAccepted now h p s secret token old claims parts alg v =
      elim (Verified-cases (verify_with platform now h p s secret)) [
        | inl e ↦ absurd (throws≢returns (rw (e) at v))
        | inr (inl e) ↦ inr (from_old old (rw (e) at v))
        | inr (inr (c, e)) ↦
            inl (with-IsSigned now h p s secret token claims parts alg (e ∙ (rw (e) at v)))
      ]
    where
      throws≢returns : ◌≡◌ {A = Verified} throws (returns (some claims)) → ⊥
      throws≢returns q = cc

      from_old :
          (o : Option String)
          → or_old (verify_with platform now h p s) o (returns none) ≡ returns (some claims)
          → (k : String) × (o ≡ some k) × (k ≢ "") × IsSigned now k token claims
      from_old none q = absurd (cc)
      from_old (some k) q = elim (Bool-cases (str_eq k "")) [
        | inl blank ↦ absurd (ground (arith, blank, q))
        | inr given ↦ (
          k,
          refl,
          λ x. ground (arith, eq_iff k "", x, given),
          with-IsSigned now h p s k token claims parts alg (rw (given) at q),
        )
      ]

  pieces-IsAccepted :
      (now : ℕ) (secret token : String) (old : Option String) (claims : JwtClaims) (l : List String)
      → split b'.' token ≡ l
      → verify_pieces platform now secret old l ≡ returns (some claims)
      → IsAccepted now secret old token claims
  pieces-IsAccepted now secret token old claims [] e v = absurd (cc)
  pieces-IsAccepted now secret token old claims (h ∷ []) e v = absurd (cc)
  pieces-IsAccepted now secret token old claims (h ∷ p ∷ []) e v = absurd (cc)
  pieces-IsAccepted now secret token old claims (h ∷ p ∷ s ∷ x ∷ l) e v = absurd (cc)
  pieces-IsAccepted now secret token old claims (h ∷ p ∷ s ∷ []) e v =
      parts (platform.parse_header (platform.decode h)) refl v
    where
      parts :
          (k : Header)
          → platform.parse_header (platform.decode h) ≡ k
          → verify_parts platform now secret old h p s k ≡ returns (some claims)
          → IsAccepted now secret old token claims
      parts malformed f w = absurd (cc)
      parts null_header f w = absurd (cc)
      parts (with_alg none) f w = absurd (cc)
      parts (with_alg (some alg)) f w = elim (Bool-cases (str_eq alg "HS256")) [
        | inl same ↦
            old-IsAccepted now h p s secret token old claims e
              (f ∙ ap (λ a. with_alg (some a)) ((eq_iff alg "HS256").0 same)) (rw (same) at w)
        | inr other ↦ absurd (ground (arith, other, w))
      ]

  -- A token that is accepted has three parts, of which the first is a header for HS256 and the last is the
  -- digest of the first two under the secret, or under the old secret, if there is one. Its claims are
  -- those of the second part, and state a time of expiry that has not passed.
  pub verify_jwt-IsAccepted :
      (now : ℕ) (secret token : String) (old : Option String) (claims : JwtClaims)
      → verify_jwt platform now secret old token ≡ returns (some claims)
      → IsAccepted now secret old token claims
  unfolding verify_jwt
  verify_jwt-IsAccepted now secret token old claims v =
      pieces-IsAccepted now secret token old claims (split b'.' token) refl v
