-- ===== src/Memory/WriteQueue/Order/Traces.antt =====
-- The references of the queue and of the effects.
use the_kubernetes_of_ai_age.Common.{
  ℕ, Bool, true, false, ◌≡◌, refl, ap, List, [], ◌∷◌, ◌++◌, arith,
}
use the_kubernetes_of_ai_age.Memory.WriteQueue.{
  Entry, Effect, accepted, dropped, wrote, gave_up, touch,
}

abbrev pub refs : List Entry → List ℕ
refs [] = []
refs (e ∷ es) = e.0 ∷ refs es

-- The writes that were accepted, and those that were written or given up, in order.
abbrev pub arrived : List Effect → List ℕ
arrived [] = []
arrived (accepted r ∷ es) = r ∷ arrived es
arrived (_ ∷ es) = arrived es

abbrev pub settled : List Effect → List ℕ
settled [] = []
settled (wrote r ∷ es) = r ∷ settled es
settled (gave_up r ∷ es) = r ∷ settled es
settled (_ ∷ es) = settled es

-- No write was dropped by a queue that was full.
abbrev pub is_lossless : List Effect → Bool
is_lossless [] = true
is_lossless (dropped r ∷ es) = false
is_lossless (_ ∷ es) = is_lossless es

pub is_lossless-append :
    (a b : List Effect)
    → is_lossless (a ++ b) ≡ true
    → (is_lossless a ≡ true) × (is_lossless b ≡ true)
is_lossless-append [] b h = (refl, h)
is_lossless-append (accepted r ∷ a) b h = is_lossless-append a b h
is_lossless-append (dropped r ∷ a) b h = absurd (ground arith)
is_lossless-append (wrote r ∷ a) b h = is_lossless-append a b h
is_lossless-append (gave_up r ∷ a) b h = is_lossless-append a b h

pub arrived-append : (a b : List Effect) → arrived (a ++ b) ≡ arrived a ++ arrived b
arrived-append [] b = refl
arrived-append (accepted r ∷ a) b = ap (λ xs. r ∷ xs) (arrived-append a b)
arrived-append (dropped r ∷ a) b = arrived-append a b
arrived-append (wrote r ∷ a) b = arrived-append a b
arrived-append (gave_up r ∷ a) b = arrived-append a b

pub settled-append : (a b : List Effect) → settled (a ++ b) ≡ settled a ++ settled b
settled-append [] b = refl
settled-append (accepted r ∷ a) b = settled-append a b
settled-append (dropped r ∷ a) b = settled-append a b
settled-append (wrote r ∷ a) b = ap (λ xs. r ∷ xs) (settled-append a b)
settled-append (gave_up r ∷ a) b = ap (λ xs. r ∷ xs) (settled-append a b)

pub refs-append : (a b : List Entry) → refs (a ++ b) ≡ refs a ++ refs b
refs-append [] b = refl
refs-append (e ∷ a) b = ap (λ xs. e.0 ∷ xs) (refs-append a b)

pub refs-touch : (e : Entry) (es : List Entry) → refs (touch e es) ≡ refs es
refs-touch e [] = refl
refs-touch e (x ∷ xs) = ground (arith, refs-touch e xs)
