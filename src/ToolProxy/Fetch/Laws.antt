-- ===== src/ToolProxy/Fetch/Laws.antt =====
-- execution-plane/tool-proxy/src/index.ts: how often `fetchWithRetry` asks, and how long it sleeps.
use native.Mathlib.Numerals.{unary_clauses}
use the_kubernetes_of_ai_age.Common.{
  ℕ, zero, suc, ◌+◌, ◌*◌, ◌^◌, ◌≤◌, ◌<◌, true, false, List, [], ◌∷◌, ◌≡◌, refl, ap, subst, arith,
  Bool-cases, inl, inr,
}
use the_kubernetes_of_ai_age.ToolProxy.Fetch.{
  Outcome, Step, sent, slept, is_retryable, attempts, fetch_with_retry,
}

-- The log of `k` attempts that were made again and one that was not, from attempt `n` on: the wait is
-- 200 ms at first and doubles.
abbrev pub tries : ℕ → ℕ → List Step
tries n zero = sent n ∷ []
tries n (suc k) = sent n ∷ slept (200 * 2 ^ n) ∷ tries (suc n) k

abbrev pub sleep_time : List Step → ℕ
sleep_time [] = 0
sleep_time (sent n ∷ l) = sleep_time l
sleep_time (slept ms ∷ l) = ms + sleep_time l

abbrev pub sent_count : List Step → ℕ
sent_count [] = 0
sent_count (sent n ∷ l) = suc (sent_count l)
sent_count (slept ms ∷ l) = sent_count l

abbrev pub Settles : (ℕ → Outcome) → ℕ → ℕ → ℕ → Type 0
Settles fetch left attempt k =
    (k ≤ left)
    × (attempts fetch left attempt ≡ (tries attempt k, fetch (attempt + k)))
    × ((j : ℕ) → j < k → is_retryable (fetch (attempt + j)) ≡ true)
    × (k < left → is_retryable (fetch (attempt + k)) ≡ false)

at_zero : (fetch : ℕ → Outcome) (n : ℕ) → fetch (n + 0) ≡ fetch n
at_zero fetch n = subst (λ m. fetch m ≡ fetch n) (omega arith) refl

at_suc : (fetch : ℕ → Outcome) (n k : ℕ) → fetch (n + suc k) ≡ fetch (suc n + k)
at_suc fetch n k = subst (λ m. fetch m ≡ fetch (suc n + k)) (omega arith) refl

stops :
    (fetch : ℕ → Outcome) (left n : ℕ)
    → attempts fetch left n ≡ (sent n ∷ [], fetch n)
    → (0 < left → is_retryable (fetch n) ≡ false)
    → Settles fetch left n 0
stops fetch left n e h = rw (at_zero fetch n) (omega arith, e, λ j lt. absurd (omega arith), h)

at_start : (fetch : ℕ → Outcome) (k : ℕ) → fetch (0 + k) ≡ fetch k
at_start fetch k = subst (λ m. fetch m ≡ fetch k) (omega arith) refl

earlier :
    (fetch : ℕ → Outcome) (n k : ℕ)
    → is_retryable (fetch n) ≡ true
    → ((j : ℕ) → j < k → is_retryable (fetch (suc n + j)) ≡ true)
    → (j : ℕ) → j < suc k
    → is_retryable (fetch (n + j)) ≡ true
earlier fetch n k e h zero lt = rw (at_zero fetch n) e
earlier fetch n k e h (suc i) lt = rw (at_suc fetch n i) (h i (omega arith))

goes_on :
    (fetch : ℕ → Outcome) (left n k : ℕ)
    → is_retryable (fetch n) ≡ true
    → Settles fetch left (suc n) k
    → Settles fetch (suc left) n (suc k)
unfolding attempts
goes_on fetch left n k e h = (
  omega (arith, h.0),
  rw (e, attempts) (rw (h.1, at_suc fetch n k) refl),
  earlier fetch n k e h.2,
  λ lt. rw (at_suc fetch n k) (h.3 (omega arith)),
)

attempts_settle : (fetch : ℕ → Outcome) (left n : ℕ) → (k : ℕ) × Settles fetch left n k
unfolding attempts
attempts_settle fetch zero n = (0, stops fetch 0 n refl (λ lt. absurd (omega arith)))
attempts_settle fetch (suc left) n =
    let (k, h) = attempts_settle fetch left (suc n) in
    elim (Bool-cases (is_retryable (fetch n))) [
      | inl e ↦ (suc k, goes_on fetch left n k e h)
      | inr e ↦ (0, stops fetch (suc left) n (rw (e, attempts) refl) (λ lt. e))
    ]

-- There is a number `k` of repetitions, at most the number of retries allowed, such that exactly the
-- attempts 0 to `k` are made, with a sleep of 200, 400, 800, ... ms after each of them but the last, and
-- the result is that of attempt `k`. Every attempt before it ended in a server error or an error other
-- than an abort; attempt `k` did not, unless no retry was left.
pub fetch_with_retry-tries :
    (fetch : ℕ → Outcome) (max_retries : ℕ)
    → (k : ℕ) × (k ≤ max_retries)
      × (fetch_with_retry max_retries fetch ≡ (tries 0 k, fetch k))
      × ((j : ℕ) → j < k → is_retryable (fetch j) ≡ true)
      × (k < max_retries → is_retryable (fetch k) ≡ false)
unfolding fetch_with_retry
fetch_with_retry-tries fetch max_retries =
    let (k, h) = attempts_settle fetch max_retries 0 in
    let e = at_start fetch k in
    (k, h.0, rw (← e) h.1, λ j lt. rw (← at_start fetch j) (h.2 j lt), λ lt. rw (← e) (h.3 lt))

double : (n : ℕ) → 2 ^ suc n ≡ 2 * 2 ^ n
double n = simp unary_clauses (omega arith)

attempts-le :
    (fetch : ℕ → Outcome) (left n m : ℕ)
    → m ≡ left + n
    → (sent_count (attempts fetch left n).0 ≤ suc left)
      × (sleep_time (attempts fetch left n).0 + 200 * 2 ^ n ≤ 200 * 2 ^ m)
unfolding attempts
attempts-le fetch zero n m e =
    let p : 2 ^ m ≡ 2 ^ n = ap (λ k. 2 ^ k) (omega (arith, e)) in (omega arith, omega (arith, p))
attempts-le fetch (suc left) n m e =
    let ih = attempts-le fetch left (suc n) m (omega (arith, e)) in
    let d = double n in
    elim (Bool-cases (is_retryable (fetch n))) [
      | inl r ↦ rw (r, attempts) (omega (arith, ih.0), omega (arith, ih.1, d))
      | inr r ↦ rw (r, attempts) (omega arith, omega (arith, ih.1, d))
    ]

-- At most one attempt more than the retries allowed is made, and all sleeps together last less than
-- 200 ms times 2 to the number of retries.
pub fetch_with_retry-le :
    (fetch : ℕ → Outcome) (max_retries : ℕ)
    → (sent_count (fetch_with_retry max_retries fetch).0 ≤ suc max_retries)
      × (sleep_time (fetch_with_retry max_retries fetch).0 < 200 * 2 ^ max_retries)
unfolding fetch_with_retry
fetch_with_retry-le fetch max_retries =
    let h = attempts-le fetch max_retries 0 max_retries (omega arith) in (h.0, omega (arith, h.1))
