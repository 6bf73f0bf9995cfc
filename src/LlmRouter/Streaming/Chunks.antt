-- ===== src/LlmRouter/Streaming/Chunks.antt =====
-- execution-plane/llm-router/src/index.ts: which chunks the client of `streamLLMWithFallback` gets.
use the_kubernetes_of_ai_age.Common.{
  keep, not, str_eq, String, Bool, false, Option, none, some, List, [], ◌∷◌, ◌++◌, ◌≡◌, refl, ap,
  ◌⊎◌, ◌≢◌, inl, inr, Bool-cases, append_assoc,
}
use the_kubernetes_of_ai_age.LlmRouter.Fallback.{
  Provider, openai, detect_provider, fallback_chain, Thrown, status, is_skipped, models,
}
use the_kubernetes_of_ai_age.LlmRouter.Fallback.Answers.{one_of, is_skipped_only}
use the_kubernetes_of_ai_age.LlmRouter.Streaming.{
  Ending, completed, bad_request, auth_failed, catch, give_up, Pass, ends, goes_on, settle, attempt,
  stream_models, stream_llm_with_fallback,
}

-- The error does not end the stream.
abbrev pub GoesOn : Thrown → Type 0
GoesOn e = (status e ≢ 400) × (status e ≢ 422) × (status e ≢ 401) × (status e ≢ 403)

-- How the stream ends at a model whose generator came to its end, or threw.
abbrev pub Decides : String → Option Thrown → Ending → Type 0
Decides model none f = f ≡ completed
Decides model (some e) f =
    ((status e ≡ 400) ⊎ (status e ≡ 422)) × (f ≡ bad_request (status e) model)
    ⊎ ((status e ≡ 401) ⊎ (status e ≡ 403)) × (f ≡ auth_failed model)

catch-cases :
    (model : String) (e : Thrown)
    → (catch model e ≡ none) × GoesOn e
      ⊎ (f : Ending) × (catch model e ≡ some f) × Decides model (some e) f
unfolding catch
catch-cases model e = elim (one_of (status e) 400 422) [
  | inl (p, q) ↦ inr (bad_request (status e) model, rw p refl, inl (q, refl))
  | inr (p, q, q') ↦ elim (one_of (status e) 401 403) [
    | inl (u, v) ↦ inr (auth_failed model, rw (p, u) refl, inr (v, refl))
    | inr (u, v, v') ↦ inl (rw (p, u) refl, (q, q', v, v'))
  ]
]

settle-cases :
    (model : String) (o : Option Thrown)
    → ((e : Thrown) × (o ≡ some e) × (settle model o ≡ goes_on (some e)) × GoesOn e)
      ⊎ (f : Ending) × (settle model o ≡ ends f) × Decides model o f
unfolding settle
settle-cases model none = inr (completed, refl, refl)
settle-cases model (some e) = elim (catch-cases model e) [
  | inl (p, g) ↦ inl (e, refl, rw (p, settle) refl, g)
  | inr (f, p, d) ↦ inr (f, rw (p, settle) refl, d)
]

module _ {C S : Type 0} (has_openai : Bool)
    (stream : Provider → String → S → List C × Option Thrown × S) where
  -- The model does not end the stream: from the last error `l` and the state `s`, it adds `chunks`
  -- and leaves the last error `k` and the state `t`.
  abbrev pub IsPassedOver : String → Option Thrown → S → List C → Option Thrown → S → Type 0
  IsPassedOver model l s chunks k t =
      (detect_provider model ≡ openai) × (has_openai ≡ false) × (chunks ≡ []) × (k ≡ l) × (t ≡ s)
      ⊎ (e : Thrown) × (stream (detect_provider model) model s ≡ (chunks, some e, t))
        × (k ≡ some e)
        × GoesOn e

  -- The same for models that are run one after another.
  abbrev pub ArePassedOver : List String → Option Thrown → S → List C → Option Thrown → S → Type 0
  ArePassedOver [] l s chunks k t = (chunks ≡ []) × (k ≡ l) × (t ≡ s)
  ArePassedOver (model ∷ rest) l s chunks k t =
      (first : List C) × (later : List C) × (j : Option Thrown) × (u : S) × (chunks
        ≡ first ++ later)
      × IsPassedOver model l s first j u
      × ArePassedOver rest j u later k t

  abbrev pub StopsAt : String → S → List C → Ending → S → Type 0
  StopsAt model s chunks ending t =
      (o : Option Thrown) × (stream (detect_provider model) model s ≡ (chunks, o, t))
      × Decides model o ending

  abbrev pub IsExplained : List String → Option Thrown → S → List C × Ending × S → Type 0
  IsExplained all l s r =
      ((k : Option Thrown) × ArePassedOver all l s r.0 k r.2 × (r.1 ≡ give_up k))
      ⊎ (before : List String) × (model : String) × (after : List String) × (lost : List C)
        × (own : List C) × (k : Option Thrown) × (u : S) × (all ≡ before ++ model ∷ after)
        × (r.0 ≡ lost ++ own)
        × ArePassedOver before l s lost k u
        × StopsAt model u own r.1 r.2

  attempt-cases :
      (l : Option Thrown) (model : String) (s : S)
      → ((chunks : List C) × (k : Option Thrown) × (u : S) × (attempt has_openai stream l model s
            ≡ (chunks, goes_on k, u))
          × IsPassedOver model l s chunks k u)
        ⊎ (chunks : List C) × (f : Ending) × (u : S) × (attempt has_openai stream l model s
            ≡ (chunks, ends f, u))
          × StopsAt model s chunks f u
  unfolding attempt
  attempt-cases l model s = elim (Bool-cases (is_skipped has_openai (detect_provider model))) [
    | inl k ↦
        let skipped = is_skipped_only (detect_provider model) has_openai k in
        inl ([], l, s, rw k refl, inl (skipped.0, skipped.1, refl, refl, refl))
    | inr k ↦ rw k (
        let run = stream (detect_provider model) model s in
        elim (settle-cases model run.1) [
          | inl (e, p, q, g) ↦
              inl (run.0, some e, run.2, rw q refl, inr (e, ap (λ o. (run.0, o, run.2)) p, refl, g))
          | inr (f, q, d) ↦ inr (run.0, f, run.2, rw q refl, (run.1, refl, d))
        ])
  ]

  passes :
      (l : Option Thrown) (model : String) (rest : List String) (s : S) (p : List C × Pass × S)
      → attempt has_openai stream l model s ≡ p
      → stream_models has_openai stream l (model ∷ rest) s
        ≡ (elim p.1 as (λ o. List C × Ending × S) [
          | ends ending ↦ (p.0, ending, p.2)
          | goes_on e ↦
              let later = stream_models has_openai stream e rest p.2 in
              (p.0 ++ later.0, later.1, later.2)
        ])
  unfolding stream_models
  passes l model rest s p h =
      ap
        (λ (pass : List C × Pass × S). elim pass.1 as (λ o. List C × Ending × S) [
          | ends ending ↦ (pass.0, ending, pass.2)
          | goes_on e ↦
              let later = stream_models has_openai stream e rest pass.2 in
              (pass.0 ++ later.0, later.1, later.2)
        ])
        h

  stream_models-IsExplained :
      (all : List String) (l : Option Thrown) (s : S)
      → IsExplained all l s (stream_models has_openai stream l all s)
  unfolding stream_models
  stream_models-IsExplained [] l s = inl (l, (refl, refl, refl), refl)
  stream_models-IsExplained (model ∷ rest) l s = elim (attempt-cases l model s) [
    | inl (chunks, k, u, p, over) ↦
        rw (passes l model rest s (chunks, goes_on k, u) p)
          (elim (stream_models-IsExplained rest k u) [
            | inl (j, overs, q) ↦ inl (
              j,
              (chunks, (stream_models has_openai stream k rest u).0, k, u, refl, over, overs),
              q,
            )
            | inr (before, m, after, lost, own, j, v, q, c, overs, stops) ↦ inr (
              model ∷ before,
              m,
              after,
              chunks ++ lost,
              own,
              j,
              v,
              ap (λ xs. model ∷ xs) q,
              rw (c, append_assoc chunks lost own) refl,
              (chunks, lost, k, u, refl, over, overs),
              stops,
            )
          ])
    | inr (chunks, f, u, p, stops) ↦
        rw (passes l model rest s (chunks, ends f, u) p)
          (inr ([], model, rest, [], chunks, l, s, refl, refl, (refl, refl, refl), stops))
  ]

  -- The models are run in order, the preferred one first and then those of the chain without it.
  -- Either all of them are passed over and the stream ends with the last error, or with the error for an
  -- exhausted chain when none was thrown. Or the stream ends at one of them, completed when its generator
  -- came to its end, or with an error for a bad request (status 400 or 422) or a failed authentication
  -- (401 or 403). In every case the client gets the chunks of all models that were run, those of the
  -- models that failed and were passed over included, in their order.
  pub stream_llm_with_fallback-IsExplained :
      (env_chain : Option String) (preferred_model : String) (s : S)
      → IsExplained
          (preferred_model ∷ keep (λ m. not (str_eq m preferred_model)) (fallback_chain env_chain))
          none
          s
          (stream_llm_with_fallback has_openai stream env_chain preferred_model s)
  unfolding stream_llm_with_fallback models
  stream_llm_with_fallback-IsExplained env_chain preferred_model s =
      stream_models-IsExplained
        (preferred_model ∷ keep (λ m. not (str_eq m preferred_model)) (fallback_chain env_chain))
        none s
