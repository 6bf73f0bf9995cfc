-- ===== src/LlmRouter/Fallback/Answers.antt =====
-- execution-plane/llm-router/src/index.ts: which model `callLLMWithFallback` stops at, and why.
use the_kubernetes_of_ai_age.Common.{
  keep, not, str_eq, ℕ, String, Bool, true, false, Option, none, some, List, [], ◌∷◌, ◌++◌, ◌≡◌,
  refl, ap, ◌⊎◌, ◌==◌, ◌||◌, ◌≢◌, inl, inr, arith, Bool-cases,
}
use the_kubernetes_of_ai_age.LlmRouter.Fallback.{
  Provider, openai, anthropic, ollama, detect_provider, fallback_chain, Thrown, Outcome, answered,
  failed, Final, returns, bad_request, auth_failed, exhausted, status, is_refusal, catch, settle,
  is_skipped, models, attempt, try_models, call_llm_with_fallback,
}

-- The error does not end the call: a breaker refused, or the provider answered neither that the request
-- is bad nor that it is not allowed.
abbrev pub GoesOn : Thrown → Type 0
GoesOn e =
    (is_refusal e.name ≡ true)
    ⊎ (status e ≢ 400) × (status e ≢ 422) × (status e ≢ 401) × (status e ≢ 403)

-- What the call gives for the outcome of the model at which it stops.
abbrev pub Decides : {A : Type 0} → String → Outcome A → Final A → Type 0
Decides model (answered a) f = f ≡ returns a
Decides model (failed e) f =
    (is_refusal e.name ≡ false)
    × (((status e ≡ 400) ⊎ (status e ≡ 422)) × (f ≡ bad_request (status e) model)
        ⊎ ((status e ≡ 401) ⊎ (status e ≡ 403)) × (f ≡ auth_failed model))

pub one_of :
    (n a b : ℕ)
    → ((n == a || n == b) ≡ true) × ((n ≡ a) ⊎ (n ≡ b))
      ⊎ ((n == a || n == b) ≡ false) × (n ≢ a) × (n ≢ b)
one_of n a b = elim (Bool-cases (n == a)) [
  | inl p ↦ inl (rw p refl, inl (ground arith))
  | inr p ↦ elim (Bool-cases (n == b)) [
    | inl q ↦ inl (rw (p, q) refl, inr (ground arith))
    | inr q ↦ inr (rw (p, q) refl, (λ e. ground arith), λ e. ground arith)
  ]
]

catch-cases :
    {A : Type 0} (model : String) (e : Thrown)
    → (catch {A = A} model e ≡ none) × GoesOn e
      ⊎ (f : Final A) × (catch model e ≡ some f) × Decides model (failed e) f
unfolding catch
catch-cases model e = elim (Bool-cases (is_refusal e.name)) [
  | inl r ↦ inl (rw r refl, inl r)
  | inr r ↦ elim (one_of (status e) 400 422) [
    | inl (p, q) ↦ inr (bad_request (status e) model, rw (r, p) refl, (r, inl (q, refl)))
    | inr (p, q, q') ↦ elim (one_of (status e) 401 403) [
      | inl (u, v) ↦ inr (auth_failed model, rw (r, p, u) refl, (r, inr (v, refl)))
      | inr (u, v, v') ↦ inl (rw (r, p, u) refl, inr (q, q', v, v'))
    ]
  ]
]

settle-cases :
    {A : Type 0} (model : String) (o : Outcome A)
    → ((e : Thrown) × (o ≡ failed e) × (settle model o ≡ none) × GoesOn e)
      ⊎ (f : Final A) × (settle model o ≡ some f) × Decides model o f
unfolding settle
settle-cases {A} model (answered a) = inr (returns a, refl, refl)
settle-cases {A} model (failed e) = elim (catch-cases {A = A} model e) [
  | inl (p, g) ↦ inl (e, refl, p, g)
  | inr h ↦ inr h
]

pub is_skipped_only :
    (provider : Provider) (has_openai : Bool)
    → is_skipped has_openai provider ≡ true
    → (provider ≡ openai) × (has_openai ≡ false)
unfolding is_skipped
is_skipped_only openai false h = (refl, refl)
is_skipped_only openai true h = absurd (ground arith)
is_skipped_only anthropic has_openai h = absurd (ground arith)
is_skipped_only ollama has_openai h = absurd (ground arith)

module _ {A S : Type 0} (has_openai : Bool) (fire : Provider → String → S → Outcome A × S) where
  abbrev pub IsPassedOver : String → S → S → Type 0
  IsPassedOver model s t =
      (detect_provider model ≡ openai) × (has_openai ≡ false) × (t ≡ s)
      ⊎ (e : Thrown) × (fire (detect_provider model) model s ≡ (failed e, t)) × GoesOn e

  -- The models are asked in this order from `s` on, and none of them ends the call.
  abbrev pub ArePassedOver : List String → S → S → Type 0
  ArePassedOver [] s t = t ≡ s
  ArePassedOver (model ∷ rest) s t = (u : S) × IsPassedOver model s u × ArePassedOver rest u t

  abbrev pub StopsAt : String → S → Final A × S → Type 0
  StopsAt model s r =
      (o : Outcome A) × (fire (detect_provider model) model s ≡ (o, r.1)) × Decides model o r.0

  abbrev pub IsExplained : List String → S → Final A × S → Type 0
  IsExplained all s r =
      (r.0 ≡ exhausted) × ArePassedOver all s r.1
      ⊎ (before : List String) × (model : String) × (after : List String) × (u : S) × (all
          ≡ before ++ model ∷ after)
        × ArePassedOver before s u
        × StopsAt model u r

  attempt-cases :
      (model : String) (s : S)
      → ((u : S) × (attempt has_openai fire model s ≡ (none, u)) × IsPassedOver model s u)
        ⊎ (f : Final A) × (u : S) × (attempt has_openai fire model s ≡ (some f, u))
          × StopsAt model s (f, u)
  unfolding attempt
  attempt-cases model s = elim (Bool-cases (is_skipped has_openai (detect_provider model))) [
    | inl k ↦
        let skipped = is_skipped_only (detect_provider model) has_openai k in
        inl (s, rw k refl, inl (skipped.0, skipped.1, refl))
    | inr k ↦ rw k (
        let asked = fire (detect_provider model) model s in
        elim (settle-cases model asked.0) [
          | inl (e, p, q, g) ↦ inl (asked.1, rw q refl, inr (e, ap (λ o. (o, asked.1)) p, g))
          | inr (f, q, d) ↦ inr (f, asked.1, rw q refl, (asked.0, refl, d))
        ])
  ]

  passes :
      (model : String) (rest : List String) (s u : S)
      → attempt has_openai fire model s ≡ (none, u)
      → try_models has_openai fire (model ∷ rest) s ≡ try_models has_openai fire rest u
  unfolding try_models
  passes model rest s u p =
      ap
        (λ (pass : Option (Final A) × S). elim pass.0 as (λ o. Final A × S) [
          | some result ↦ (result, pass.1)
          | none ↦ try_models has_openai fire rest pass.1
        ])
        p

  ends :
      (model : String) (rest : List String) (s : S) (f : Final A) (u : S)
      → attempt has_openai fire model s ≡ (some f, u)
      → try_models has_openai fire (model ∷ rest) s ≡ (f, u)
  unfolding try_models
  ends model rest s f u p =
      ap
        (λ (pass : Option (Final A) × S). elim pass.0 as (λ o. Final A × S) [
          | some result ↦ (result, pass.1)
          | none ↦ try_models has_openai fire rest pass.1
        ])
        p

  try_models-IsExplained :
      (all : List String) (s : S) → IsExplained all s (try_models has_openai fire all s)
  unfolding try_models
  try_models-IsExplained [] s = inl (refl, refl)
  try_models-IsExplained (model ∷ rest) s = elim (attempt-cases model s) [
    | inl (u, p, over) ↦ rw (passes model rest s u p) (elim (try_models-IsExplained rest u) [
      | inl (q, overs) ↦ inl (q, (u, over, overs))
      | inr (before, m, after, v, q, overs, stops) ↦
          inr (model ∷ before, m, after, v, ap (λ l. model ∷ l) q, (u, over, overs), stops)
    ])
    | inr (f, u, p, stops) ↦
        rw (ends model rest s f u p) (inr ([], model, rest, s, refl, refl, stops))
  ]

  -- The models are asked in order, the preferred one first and then those of the chain without it.
  -- Either all of them are passed over and the error says that the chain is exhausted, or the call ends
  -- at one of them, after all before it were passed over: with that model's answer, or with an error for
  -- a bad request (status 400 or 422) or for a failed authentication (401 or 403) at that model. A model
  -- is passed over when its provider is OpenAI and no client is configured, or when it threw a breaker's
  -- refusal or an error with another status.
  pub call_llm_with_fallback-IsExplained :
      (env_chain : Option String) (preferred_model : String) (s : S)
      → IsExplained
          (preferred_model ∷ keep (λ m. not (str_eq m preferred_model)) (fallback_chain env_chain))
          s
          (call_llm_with_fallback has_openai fire env_chain preferred_model s)
  unfolding call_llm_with_fallback models
  call_llm_with_fallback-IsExplained env_chain preferred_model s =
      try_models-IsExplained
        (preferred_model ∷ keep (λ m. not (str_eq m preferred_model)) (fallback_chain env_chain)) s
