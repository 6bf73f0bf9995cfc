-- ===== src/Api/Tokens.antt =====
-- control-plane/api-server/src/auth/routes.ts: the refresh tokens, kept by Redis or in memory, and the
-- list of revoked tokens. Redis is a parameter: a state that its commands change, and what they answer.
-- A command that throws answers with `none` or `false`, and may have had its effect all the same. The
-- argument `ready` is what `getRedis` finds at the call. What is stored under a token is its user.
pub mod Revoked
pub mod Fallback
pub mod Memory
use the_kubernetes_of_ai_age.Common.{
  ℕ, ◌+◌, ◌-◌, ◌*◌, ◌/◌, max, String, Bool, true, false, not, ◌&&◌, Option, none, some, List, [],
  ◌∷◌, ◌++◌, if◌then◌else◌, ltb, leb, keep, length,
}
use the_kubernetes_of_ai_age.Common.Maps

pub record Redis (R : Type 0) : Type 0 where
  -- SET key value EX seconds
  pub set : ℕ → String → String → ℕ → R → R × Bool
  -- GET key: what it throws or answers
  pub get : ℕ → String → R → Option (Option String)
  pub del : ℕ → String → R → R × Bool
  pub exists : ℕ → String → R → Option Bool

pub record Entry : Type 0 where
  pub user_id : String
  pub expires_at : ℕ

pub record Tokens (R : Type 0) : Type 0 where
  pub server : R
  pub memory : List (String × Entry)

abbrev pub access_token_sec : ℕ
access_token_sec = 900

abbrev pub refresh_token_sec : ℕ
refresh_token_sec = 604_800

abbrev pub refresh_token_key : String → String
refresh_token_key hash = Prim.Native.String.◌++◌ "egaop:refresh:" hash

abbrev pub token_revocation_key : String → String
token_revocation_key hash = Prim.Native.String.◌++◌ "egaop:revoked:" hash

-- What EXISTS answers, where a command that throws counts as no.
abbrev pub found : Option Bool → Bool
found none = false
found (some b) = b

-- The lifetime that the token still has, with the time of expiry that its claims state.
abbrev pub revocation_ttl : ℕ → Option ℕ → ℕ
revocation_ttl now none = access_token_sec
revocation_ttl now (some exp) = max 1 (exp - now / 1_000)

-- The calls on the store, one after the other.
pub data Action : Type 0 where
  stores : ℕ → Bool → String → String → Action
  verifies : ℕ → Bool → String → Action
  revokes : ℕ → Bool → String → Action

abbrev pub is_live : ℕ → (String × Entry) → Bool
is_live now e = leb now e.1.expires_at

-- The entry is set, and the expired ones go where there are more than a hundred.
unfoldable pub remember : ℕ → String → String → List (String × Entry) → List (String × Entry)
unfolding Maps.set
remember now hash user_id m =
    let entry : Entry = record {
      user_id = user_id;
      expires_at = now + refresh_token_sec * 1_000;
    } in
    let m' = Maps.set hash entry m in if ltb 100 (length m') then keep (is_live now) m' else m'

abbrev pub recall_entry :
    ℕ → String → List (String × Entry) → Option Entry → List (String × Entry) × Option String
recall_entry now hash m none = (m, none)
recall_entry now hash m (some e) =
    if ltb e.expires_at now then (Maps.delete hash m, none) else (m, some e.user_id)

unfoldable pub recall : ℕ → String → List (String × Entry) → List (String × Entry) × Option String
unfolding Maps.get Maps.delete
recall now hash m = recall_entry now hash m (Maps.get hash m)

module _ {R : Type 0} (redis : Redis R) (hash_token : String → String) where
  abbrev pub in_memory : ℕ → String → String → Tokens R → Tokens R
  in_memory now hash user_id s = record s { memory = remember now hash user_id s.memory }

  unfoldable pub store_refresh_token : ℕ → Bool → String → String → Tokens R → Tokens R
  unfolding remember
  store_refresh_token now ready token user_id s =
      let hash = hash_token token in
      let r = redis.set now (refresh_token_key hash) user_id refresh_token_sec s.server in
      let s' = record s { server = r.0 } in
      if ready
      then (if r.1 then s' else in_memory now hash user_id s')
      else in_memory now hash user_id s

  abbrev pub from_memory : ℕ → String → Tokens R → Tokens R × Option String
  from_memory now hash s = let r = recall now hash s.memory in (record s { memory = r.0 }, r.1)

  abbrev pub from_redis : ℕ → String → Tokens R → Option (Option String) → Tokens R × Option String
  from_redis now hash s none = from_memory now hash s
  from_redis now hash s (some answer) = (s, answer)

  unfoldable pub verify_refresh_token : ℕ → Bool → String → Tokens R → Tokens R × Option String
  unfolding recall
  verify_refresh_token now ready token s =
      let hash = hash_token token in
      if ready
      then from_redis now hash s (redis.get now (refresh_token_key hash) s.server)
      else from_memory now hash s

  unfoldable pub revoke_refresh_token : ℕ → Bool → String → Tokens R → Tokens R
  unfolding Maps.delete
  revoke_refresh_token now ready token s =
      let hash = hash_token token in
      let r = redis.del now (refresh_token_key hash) s.server in
      record { server = if ready then r.0 else s.server; memory = Maps.delete hash s.memory }

  -- `client` says that there is a client of Redis, ready or not.
  unfoldable pub is_token_revoked : ℕ → Bool → String → R → Bool
  is_token_revoked now client token r =
      client && found (redis.exists now (token_revocation_key (hash_token token)) r)

  unfoldable pub revoke_token : ℕ → Bool → String → Option ℕ → R → R
  revoke_token now client token exp r =
      let key = token_revocation_key (hash_token token) in
      let set = redis.set now key "1" (revocation_ttl now exp) r in if client then set.0 else r

  unfoldable pub act : Action → Tokens R → Tokens R
  unfolding store_refresh_token verify_refresh_token revoke_refresh_token
  act (stores now ready token user_id) s = store_refresh_token now ready token user_id s
  act (verifies now ready token) s = (verify_refresh_token now ready token s).0
  act (revokes now ready token) s = revoke_refresh_token now ready token s

  unfoldable pub run : List Action → Tokens R → Tokens R
  unfolding act
  run [] s = s
  run (a ∷ actions) s = run actions (act a s)
