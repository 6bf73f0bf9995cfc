-- ===== src/Shared/RateLimiter/Window/Times.antt =====
-- The times of the requests of a key, those in a window, and what a cleanup does to a bucket.
use the_kubernetes_of_ai_age.Common.{
  ℕ, ◌≤◌, ◌≡◌, refl, String, Bool, true, false, none, List, [], ◌∷◌, ◌++◌, if◌then◌else◌, ltb, keep,
  length, is_empty, arith, eq_iff, str_eq, if_rule,
}
use the_kubernetes_of_ai_age.Common.Maps
use the_kubernetes_of_ai_age.Common.Maps.{get-set}
use the_kubernetes_of_ai_age.Common.Maps.Distinct.{IsDistinct}
use the_kubernetes_of_ai_age.Shared.RateLimiter.{is_active, bucket, sweep}

-- The times of a key's requests.
abbrev pub times : String → List (String × ℕ) → List ℕ
times key [] = []
times key ((k, t) ∷ g) = let rest = times key g in if str_eq k key then t ∷ rest else rest

pub times-append :
    (key : String) (g h : List (String × ℕ)) → times key (g ++ h) ≡ times key g ++ times key h
times-append key [] h = refl
times-append key ((k, t) ∷ g) h = ground (arith, times-append key g h)

-- What is active later is active now.
pub keep-keep :
    (window now later : ℕ) (ts : List ℕ)
    → now ≤ later
    → keep (is_active window later) (keep (is_active window now) ts)
      ≡ keep (is_active window later) ts
keep-keep window now later [] h = refl
keep-keep window now later (t ∷ ts) h = ground (arith, keep-keep window now later ts h)

-- The requests of the window that ends at `now`: those after `now - window`, up to `now`.
abbrev pub in_window : ℕ → ℕ → ℕ → Bool
in_window window now t = if ltb now t then false else is_active window now t

pub in_window-le :
    (window now later : ℕ) (ts : List ℕ)
    → now ≤ later
    → length (keep (in_window window later) ts) ≤ length (keep (is_active window now) ts)
in_window-le window now later [] h = omega arith
in_window-le window now later (t ∷ ts) h = ground (arith, in_window-le window now later ts h)

pub get-none-sweep :
    (window now : ℕ) (key : String) (m : List (String × List ℕ))
    → Maps.get key m ≡ none
    → Maps.get key (sweep window now m) ≡ none
unfolding Maps.get sweep
get-none-sweep window now key [] h = refl
get-none-sweep window now key ((k, ts) ∷ m) h = ground (arith, get-none-sweep window now key m)

pub sweep-IsDistinct :
    (window now : ℕ) (m : List (String × List ℕ)) → IsDistinct m → IsDistinct (sweep window now m)
unfolding sweep
sweep-IsDistinct window now [] h = tt
sweep-IsDistinct window now ((k, ts) ∷ m) h =
    if_rule {A = List (String × List ℕ)} IsDistinct (is_empty (keep (is_active window now) ts))
      (λ e. sweep-IsDistinct window now m h.1)
      (λ e. (get-none-sweep window now k m h.0, sweep-IsDistinct window now m h.1))

pub is_empty-nil : (ts : List ℕ) → is_empty ts ≡ true → ts ≡ []
is_empty-nil [] h = refl
is_empty-nil (t ∷ ts) h = absurd (ground arith)

pub bucket-sweep :
    (window now : ℕ) (key : String) (m : List (String × List ℕ))
    → IsDistinct m
    → bucket key (sweep window now m) ≡ keep (is_active window now) (bucket key m)
unfolding Maps.get sweep
bucket-sweep window now key [] h = refl
bucket-sweep window now key ((k, ts) ∷ m) h = ground (
  arith,
  bucket-sweep window now key m,
  is_empty-nil (keep (is_active window now) ts),
  get-none-sweep window now k m,
  eq_iff k key,
)
