-- ===== src/Api/Sessions/Laws.antt =====
-- control-plane/api-server/src/auth/routes.ts: who is authenticated, and that a refresh token serves once.
use the_kubernetes_of_ai_age.Common.{
  ℕ, String, Bool, true, false, Option, none, some, List, [], ◌∷◌, ◌++◌, sym, All-append, ◌≡◌, ◌≢◌,
  refl, ap, arith, Bool-cases, inl, inr, All,
}
use the_kubernetes_of_ai_age.Shared.Jwt.{JwtClaims, Verified, throws, returns, verify_jwt}
use the_kubernetes_of_ai_age.Shared.Jwt.Laws.{IsSigned, verify_jwt-IsAccepted}
use the_kubernetes_of_ai_age.Api.Users.{UserRow, find_by_id}
use the_kubernetes_of_ai_age.Api.Tokens.{
  Tokens, Action, stores, run, act, refresh_token_key, store_refresh_token, verify_refresh_token,
  revoke_refresh_token, is_token_revoked,
}
use the_kubernetes_of_ai_age.Api.Tokens.Revoked.{IsFaithful, IsOther, verify-run-revoked}
use the_kubernetes_of_ai_age.Api.Cookies.{Headers, extract_refresh_token, presented_token}
use the_kubernetes_of_ai_age.Api.Sessions.{
  Env, State, Authentication, authenticated, check_revoked, check_token, filled_token, authenticate,
  Issued, issued, refresh_for, refresh_stored, or_body, post_refresh,
}

module _ {R : Type 0} (env : Env R) where
  -- The request carries a token that was signed with the server's secret for these claims, has not
  -- expired, and is not found among the revoked ones.
  pub record IsAuthentic (now : ℕ) (h : Headers) (server : R) (claims : JwtClaims) : Type 0 where
    pub token : String
    pub presented : filled_token env (presented_token env.decode h) ≡ some (some token)
    pub signed : IsSigned env.platform now env.jwt_secret token claims
    pub unrevoked : is_token_revoked env.redis env.hash_token now env.client token server ≡ false

  the_claims : JwtClaims → Authentication → JwtClaims
  the_claims d (authenticated c) = c
  the_claims d _ = d

  revoked-authenticated :
      (now : ℕ) (token : String) (server : R) (v : Verified) (claims : JwtClaims)
      → check_revoked env now token server v ≡ authenticated claims
      → (v ≡ returns (some claims))
        × (is_token_revoked env.redis env.hash_token now env.client token server ≡ false)
  unfolding the_claims
  revoked-authenticated now token server throws claims h = absurd (cc)
  revoked-authenticated now token server (returns none) claims h = absurd (cc)
  revoked-authenticated now token server (returns (some c)) claims h =
      elim (Bool-cases (is_token_revoked env.redis env.hash_token now env.client token server)) [
        | inl e ↦ absurd (ground (arith, e, h))
        | inr e ↦ (ap (λ d. returns (some d)) (ap (the_claims c) (rw (e) at h)), e)
      ]

  only_secret :
      (now : ℕ) (token : String) (claims : JwtClaims)
      → verify_jwt env.platform now env.jwt_secret none token ≡ returns (some claims)
      → IsSigned env.platform now env.jwt_secret token claims
  only_secret now token claims e =
      elim (verify_jwt-IsAccepted env.platform now env.jwt_secret token none claims e) [
        | inl signed ↦ signed
        | inr (o, no_old, given, signed) ↦ absurd (cc)
      ]

  token-authenticated :
      (now : ℕ) (h : Headers) (server : R) (t : Option (Option String)) (claims : JwtClaims)
      → filled_token env (presented_token env.decode h) ≡ t
      → check_token env now server t ≡ authenticated claims
      → IsAuthentic now h server claims
  token-authenticated now h server none claims e v = absurd (cc)
  token-authenticated now h server (some none) claims e v = absurd (cc)
  token-authenticated now h server (some (some token)) claims e v =
      let r =
        revoked-authenticated now token server
          (verify_jwt env.platform now env.jwt_secret none token) claims v in
      record {
        token = token;
        presented = e;
        signed = only_secret now token claims r.0;
        unrevoked = r.1;
      }

  -- A request is authenticated with claims only where it carries a token that was signed with the
  -- server's secret for these claims, has not expired, and is not found among the revoked ones.
  pub authenticate-IsAuthentic :
      (now : ℕ) (h : Headers) (server : R) (claims : JwtClaims)
      → authenticate env now h server ≡ authenticated claims
      → IsAuthentic now h server claims
  unfolding authenticate
  authenticate-IsAuthentic now h server claims e =
      token-authenticated now h server (filled_token env (presented_token env.decode h)) claims refl
        e

  -- The tokens after a refresh that gave new ones.
  abbrev Rotated : ℕ → String → String → List Action → Tokens R → Tokens R → Type 0
  Rotated now random token after t r =
      (u : UserRow) × (u.is_active ≡ true)
      × (r
          ≡ store_refresh_token env.redis env.hash_token now true random u.id (
              run env.redis env.hash_token after
                (revoke_refresh_token env.redis env.hash_token now true token t)))

  refresh_for-Rotated :
      (now : ℕ) (random token : String) (after : List Action) (s : State R) (row : Option UserRow)
      (i : Issued)
      → (refresh_for env now true random token after s row).1 ≡ issued i
      → Rotated now random token after s.tokens
          (refresh_for env now true random token after s row).0.tokens
  refresh_for-Rotated now random token after s none i h = absurd (cc)
  refresh_for-Rotated now random token after s (some u) i h = elim (Bool-cases u.is_active) [
    | inl on ↦ (u, on, simp (on) refl)
    | inr off ↦ absurd (ground (arith, off, h))
  ]

  refresh_stored-Rotated :
      (now : ℕ) (random token : String) (before after : List Action) (s : State R)
      (v : Tokens R × Option String) (i : Issued)
      → (refresh_stored env now true random token before after s v).1 ≡ issued i
      → Rotated now random token after
          (run env.redis env.hash_token before v.0)
          (refresh_stored env now true random token before after s v).0.tokens
  refresh_stored-Rotated now random token before after s (t, none) i h = absurd (cc)
  refresh_stored-Rotated now random token before after s (t, some id) i h =
      refresh_for-Rotated now random token after
        (record s { tokens = run env.redis env.hash_token before t }) (find_by_id id s.users) i h

  -- The tokens that the DEL of a refresh finds.
  abbrev pub at_del : ℕ → String → List Action → State R → Tokens R
  at_del now token before s =
      run env.redis env.hash_token before
        (verify_refresh_token env.redis env.hash_token now true token s.tokens).0

  post_refresh-Rotated :
      (now : ℕ) (random token : String) (h : Headers) (body : Option String)
      (before after : List Action) (s : State R) (i : Issued)
      → or_body env (extract_refresh_token env.decode h) body ≡ some (some token)
      → (post_refresh env now true random h body before after s).1 ≡ issued i
      → Rotated now random token after
          (at_del now token before s)
          (post_refresh env now true random h body before after s).0.tokens
  unfolding post_refresh
  post_refresh-Rotated now random token h body before after s i e v = rw (e) (
      refresh_stored-Rotated now random token before after s
        (verify_refresh_token env.redis env.hash_token now true token s.tokens) i (rw (e) at v))

  run-append :
      (a b : List Action) (t : Tokens R)
      → run env.redis env.hash_token (a ++ b) t
        ≡ run env.redis env.hash_token b (run env.redis env.hash_token a t)
  unfolding run
  run-append [] b t = refl
  run-append (x ∷ a) b t = run-append a b (act env.redis env.hash_token x t)

  -- When a refresh gives new tokens, the refresh token that it was asked with is not accepted after it, at
  -- any time and with Redis ready or not, whatever tokens other requests store, verify and revoke before
  -- its DEL, between the DEL and its answer, and afterwards. This needs that the DEL was answered, by a
  -- Redis that removes what is deleted, and that the tokens stored from the DEL on have other hashes. It
  -- does not keep two requests from being both let in before the DEL of either.
  pub verify-run-post_refresh :
      IsFaithful env.redis
      → (now later : ℕ) (ready : Bool) (random token : String) (h : Headers) (body : Option String)
        (before after : List Action) (s : State R) (i : Issued) (actions : List Action)
      → or_body env (extract_refresh_token env.decode h) body ≡ some (some token)
      → (post_refresh env now true random h body before after s).1 ≡ issued i
      → (env.redis.del now
          (refresh_token_key (env.hash_token token))
          (at_del now token before s).server).1
        ≡ true
      → env.hash_token random ≢ env.hash_token token
      → All (IsOther env.hash_token (env.hash_token token)) after
      → All (IsOther env.hash_token (env.hash_token token)) actions
      → (verify_refresh_token env.redis env.hash_token later ready token (
          run env.redis env.hash_token actions
            (post_refresh env now true random h body before after s).0.tokens)).1
        ≡ none
  unfolding run act
  verify-run-post_refresh faithful now later ready random token h body before after s i actions e v
        answered fresh between others =
      let (u, on, tokens) = post_refresh-Rotated now random token h body before after s i e v in
      let rest = stores now true random u.id ∷ actions in
      let t = at_del now token before s in
      rw
        (
          tokens,
          sym (
              run-append after rest
                (revoke_refresh_token env.redis env.hash_token now true token t)),
        )
        (verify-run-revoked env.redis env.hash_token faithful token now later ready (after ++ rest)
          t answered
          (All-append (IsOther env.hash_token (env.hash_token token)) after rest between
            (fresh, others)))
