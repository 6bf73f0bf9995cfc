-- ===== src/Api/Tokens/Revoked.antt =====
-- control-plane/api-server/src/auth/routes.ts: a refresh token that was revoked.
use text.Mathlib.TextLemmas.{append_cancel_left}
use the_kubernetes_of_ai_age.Common.{
  ℕ, String, Bool, true, false, Option, none, some, List, [], ◌∷◌, ◌≡◌, ◌≢◌, refl, sym, arith,
  Bool-cases, inl, inr, All, str_eq, eq_iff, eq_refl, if_rule,
}
use the_kubernetes_of_ai_age.Common.Maps
use the_kubernetes_of_ai_age.Common.Maps.{get-set_ne, get-delete}
use the_kubernetes_of_ai_age.Api.Tokens.Memory.{remember-Holds, recall-Holds}
use the_kubernetes_of_ai_age.Api.Tokens.{
  Redis, Entry, Tokens, refresh_token_key, refresh_token_sec, recall, store_refresh_token,
  verify_refresh_token, revoke_refresh_token, in_memory, from_redis, from_memory, Action, stores,
  verifies, revokes, act, run,
}

-- Actions that do not store a token with this hash.
abbrev pub IsOther : (String → String) → String → Action → Type 0
IsOther hash_token hash (stores now ready token u) = hash_token token ≢ hash
IsOther hash_token hash (verifies now ready token) = Unit
IsOther hash_token hash (revokes now ready token) = Unit

module _ {R : Type 0} (redis : Redis R) where
  -- Redis has no user under the key, now or later.
  abbrev pub IsAbsent : String → R → Type 0
  IsAbsent k r = (now : ℕ) (u : String) → redis.get now k r ≢ some (some u)

  -- What is asked of Redis: a DEL that was answered removes its key, and no command makes another key
  -- appear.
  pub record IsFaithful : Type 0 where
    pub del_gone :
        (now : ℕ) (k : String) (r : R)
        → (redis.del now k r).1 ≡ true
        → IsAbsent k (redis.del now k r).0
    pub del_keeps :
        (now : ℕ) (k j : String) (r : R) → IsAbsent k r → IsAbsent k (redis.del now j r).0
    pub set_keeps :
        (now ttl : ℕ) (k j v : String) (r : R)
        → k ≢ j
        → IsAbsent k r
        → IsAbsent k (redis.set now j v ttl r).0

  module _ (hash_token : String → String) (faithful : IsFaithful) (hash : String) where
    pub record IsGone (s : Tokens R) : Type 0 where
      pub server : IsAbsent (refresh_token_key hash) s.server
      pub memory : Maps.get hash s.memory ≡ none

    key_ne : (other : String) → other ≢ hash → refresh_token_key hash ≢ refresh_token_key other
    key_ne other ne e = ne (sym (append_cancel_left "egaop:refresh:" hash other e))

    str_ne : (other : String) → other ≢ hash → str_eq other hash ≡ false
    str_ne other ne = elim (Bool-cases (str_eq other hash)) [
      | inl same ↦ absurd (ne ((eq_iff other hash).0 same))
      | inr differs ↦ differs
    ]

    recall-IsGone :
        (now : ℕ) (other : String) (s : Tokens R)
        → IsGone s
        → IsGone (from_memory redis hash_token now other s).0
    recall-IsGone now other s g = record {
      server = g.server;
      memory = recall-Holds now hash other none s.memory tt g.memory;
    }

    verify-IsGone :
        (now : ℕ) (other : String) (s : Tokens R) (answer : Option (Option String))
        → IsGone s
        → IsGone (from_redis redis hash_token now other s answer).0
    verify-IsGone now other s none g = recall-IsGone now other s g
    verify-IsGone now other s (some answer) g = g

    memory-IsGone :
        (now : ℕ) (other u : String) (s : Tokens R)
        → other ≢ hash
        → IsGone s
        → IsGone (in_memory redis hash_token now other u s)
    memory-IsGone now other u s ne g = record {
      server = g.server;
      memory = remember-Holds now hash other u none s.memory (str_ne other ne) tt g.memory;
    }

    store-IsGone :
        (now : ℕ) (ready : Bool) (token u : String) (s : Tokens R)
        → hash_token token ≢ hash
        → IsGone s
        → IsGone (store_refresh_token redis hash_token now ready token u s)
    unfolding store_refresh_token
    store-IsGone now ready token u s ne g =
        let other = hash_token token in
        let r = redis.set now (refresh_token_key other) u refresh_token_sec s.server in
        let g' : IsGone (record s { server = r.0 }) = record {
          server =
              faithful.set_keeps now refresh_token_sec (refresh_token_key hash)
                (refresh_token_key other) u s.server (key_ne other ne) g.server;
          memory = g.memory;
        } in
        if_rule {A = Tokens R} IsGone ready
          (λ up.
            if_rule {A = Tokens R} IsGone r.1 (λ done. g')
              (λ threw. memory-IsGone now other u (record s { server = r.0 }) ne g'))
          (λ down. memory-IsGone now other u s ne g)

    delete-none :
        (other : String) (m : List (String × Entry))
        → Maps.get hash m ≡ none
        → Maps.get hash (Maps.delete other m) ≡ none
    delete-none other m h = ground (arith, get-delete other hash m, h)

    act-IsGone :
        (a : Action) (s : Tokens R)
        → IsOther hash_token hash a
        → IsGone s
        → IsGone (act redis hash_token a s)
    unfolding act verify_refresh_token revoke_refresh_token
    act-IsGone (stores now ready token u) s ne g = store-IsGone now ready token u s ne g
    act-IsGone (verifies now ready token) s ne g =
        if_rule {A = Tokens R × Option String} (λ r. IsGone r.0) ready
          (λ up. verify-IsGone now (hash_token token) s _ g)
          (λ down. recall-IsGone now (hash_token token) s g)
    act-IsGone (revokes now ready token) s ne g = record {
      server =
          if_rule {A = R} (IsAbsent (refresh_token_key hash)) ready
            (λ up.
              faithful.del_keeps now (refresh_token_key hash) (refresh_token_key (hash_token token))
                s.server g.server)
            (λ down. g.server);
      memory = delete-none (hash_token token) s.memory g.memory;
    }

    run-IsGone :
        (actions : List Action) (s : Tokens R)
        → All (IsOther hash_token hash) actions
        → IsGone s
        → IsGone (run redis hash_token actions s)
    unfolding run
    run-IsGone [] s o g = g
    run-IsGone (a ∷ actions) s o g =
        run-IsGone actions (act redis hash_token a s) o.1 (act-IsGone a s o.0 g)

    recall-none :
        (now : ℕ) (m : List (String × Entry))
        → Maps.get hash m ≡ none
        → (recall now hash m).1 ≡ none
    unfolding recall
    recall-none now m h = rw (h) refl

    verify-none :
        (now : ℕ) (s : Tokens R) (answer : Option (Option String))
        → ((u : String) → answer ≢ some (some u))
        → IsGone s
        → (from_redis redis hash_token now hash s answer).1 ≡ none
    verify-none now s none h g = recall-none now s.memory g.memory
    verify-none now s (some none) h g = refl
    verify-none now s (some (some u)) h g = absurd (h u refl)

  -- Once a DEL that was answered has revoked a token, the token is never accepted again, at any time and
  -- with Redis ready or not, however other tokens are stored, verified and revoked in between, by a Redis
  -- that removes what is deleted.
  pub verify-run-revoked :
      (hash_token : String → String)
      → IsFaithful
      → (token : String) (at later : ℕ) (ready : Bool) (actions : List Action) (s : Tokens R)
      → (redis.del at (refresh_token_key (hash_token token)) s.server).1 ≡ true
      → All (IsOther hash_token (hash_token token)) actions
      → (verify_refresh_token redis hash_token later ready token
          (run redis hash_token actions (revoke_refresh_token redis hash_token at true token s))).1
        ≡ none
  unfolding verify_refresh_token revoke_refresh_token
  verify-run-revoked hash_token faithful token at later ready actions s answered others =
      let hash = hash_token token in
      let revoked = revoke_refresh_token redis hash_token at true token s in
      let gone : IsGone hash_token faithful hash revoked = record {
        server = faithful.del_gone at (refresh_token_key hash) s.server answered;
        memory = ground (arith, get-delete hash hash s.memory, eq_refl hash);
      } in
      let g = run-IsGone hash_token faithful hash actions revoked others gone in
      if_rule {A = Tokens R × Option String} (λ r. r.1 ≡ none) ready
        (λ up. verify-none hash_token faithful hash later _ _ (λ u. g.server later u) g)
        (λ down. recall-none hash_token faithful hash later _ g.memory)
