-- ===== src/Api/Tokens/Fallback.antt =====
-- control-plane/api-server/src/auth/routes.ts: the refresh tokens where Redis is not ready.
use the_kubernetes_of_ai_age.Common.{
  ℕ, ◌*◌, ◌+◌, ◌≤◌, String, false, none, some, List, [], ◌∷◌, ◌≡◌, arith, if◌then◌else◌, ltb,
  str_eq,
}
use the_kubernetes_of_ai_age.Api.Tokens.{
  Redis, Entry, Tokens, refresh_token_sec, recall, store_refresh_token, verify_refresh_token,
  revoke_refresh_token, Action, stores, verifies, revokes, act, run,
}
use the_kubernetes_of_ai_age.Api.Tokens.Memory.{
  Holds, remember-Holds, remember-same, recall-Holds, delete-Holds,
}

-- The actions without Redis up to a time that neither store nor revoke the token with this hash.
abbrev pub IsAside : (String → String) → String → ℕ → List Action → Type 0
IsAside hash_token hash end [] = Unit
IsAside hash_token hash end (stores now ready token u ∷ actions) =
    (ready ≡ false)
    × (now ≤ end)
    × (str_eq (hash_token token) hash ≡ false)
    × IsAside hash_token hash end actions
IsAside hash_token hash end (verifies now ready token ∷ actions) =
    (ready ≡ false) × (now ≤ end) × IsAside hash_token hash end actions
IsAside hash_token hash end (revokes now ready token ∷ actions) =
    (str_eq (hash_token token) hash ≡ false) × IsAside hash_token hash end actions

module _ {R : Type 0} (redis : Redis R) (hash_token : String → String) where
  run-Holds :
      (hash : String) (e : Entry) (actions : List Action) (s : Tokens R)
      → IsAside hash_token hash e.expires_at actions
      → Holds hash (some e) s.memory
      → Holds hash (some e) (run redis hash_token actions s).memory
  unfolding run act store_refresh_token verify_refresh_token revoke_refresh_token
  run-Holds hash e [] s a h = h
  run-Holds hash e (stores now ready token u ∷ actions) s a h =
      run-Holds hash e actions (act redis hash_token (stores now ready token u) s) a.3
        (rw (a.0) (remember-Holds now hash (hash_token token) u (some e) s.memory a.2 a.1 h))
  run-Holds hash e (verifies now ready token ∷ actions) s a h =
      run-Holds hash e actions (act redis hash_token (verifies now ready token) s) a.2
        (rw (a.0) (recall-Holds now hash (hash_token token) (some e) s.memory a.1 h))
  run-Holds hash e (revokes now ready token ∷ actions) s a h =
      run-Holds hash e actions (act redis hash_token (revokes now ready token) s) a.1
        (delete-Holds hash (hash_token token) (some e) s.memory a.0 h)

  recall-Holds_lem :
      (later : ℕ) (hash : String) (e : Entry) (m : List (String × Entry))
      → Holds hash (some e) m
      → (recall later hash m).1 ≡ (if ltb e.expires_at later then none else some e.user_id)
  unfolding recall
  recall-Holds_lem later hash e m h = rw (h) (ground arith)

  -- Without Redis, a token that was stored is accepted as its user's for seven days and by no one after
  -- that, however other tokens are stored, verified and revoked and expired ones are removed before it
  -- expires.
  pub verify-run-stored :
      (token user_id : String) (at later : ℕ) (actions : List Action) (s : Tokens R)
      → IsAside hash_token (hash_token token) (at + refresh_token_sec * 1_000) actions
      → (verify_refresh_token redis hash_token later false token (
          run redis hash_token actions
            (store_refresh_token redis hash_token at false token user_id s))).1
        ≡ (if ltb (at + refresh_token_sec * 1_000) later then none else some user_id)
  unfolding verify_refresh_token store_refresh_token
  verify-run-stored token user_id at later actions s aside =
      let hash = hash_token token in
      let e : Entry = record { user_id = user_id; expires_at = at + refresh_token_sec * 1_000 } in
      let stored = store_refresh_token redis hash_token at false token user_id s in
      recall-Holds_lem later hash e _
        (run-Holds hash e actions stored aside (remember-same at hash user_id s.memory))
