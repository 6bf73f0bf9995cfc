-- ===== src/Api/Tokens/Memory.antt =====
-- control-plane/api-server/src/auth/routes.ts: the refresh tokens in memory.
use the_kubernetes_of_ai_age.Common.{
  ℕ, ◌*◌, ◌+◌, ◌≤◌, String, Bool, true, false, Option, none, some, List, [], ◌∷◌, ◌≡◌, refl, sym,
  ◌∙◌, subst, arith, if◌then◌else◌, Bool-cases, Option-cases, inl, inr, ltb, keep, length, str_eq,
  eq_iff, if_rule,
}
use the_kubernetes_of_ai_age.Common.Maps
use the_kubernetes_of_ai_age.Common.Maps.{get-set_ne, get-set_self, get-delete}
use the_kubernetes_of_ai_age.Api.Tokens.{
  Entry, refresh_token_sec, is_live, remember, recall_entry, recall,
}

get-none-keep :
    {V : Type 0} (p : (String × V) → Bool) (k : String) (m : List (String × V))
    → Maps.get k m ≡ none
    → Maps.get k (keep p m) ≡ none
unfolding Maps.get
get-none-keep p k [] h = refl
get-none-keep p k ((j, v) ∷ m) h = ground (arith, get-none-keep p k m)

get-live-keep :
    (now : ℕ) (k : String) (m : List (String × Entry)) (e : Entry)
    → Maps.get k m ≡ some e
    → now ≤ e.expires_at
    → Maps.get k (keep (is_live now) m) ≡ some e
unfolding Maps.get
get-live-keep now k [] e h le = absurd (cc)
get-live-keep now k ((j, v) ∷ m) e h le = ground (arith, get-live-keep now k m e)

-- What is known of the entry of a token: there is none, or it is this one.
abbrev pub Holds : String → Option Entry → List (String × Entry) → Type 0
Holds hash o m = Maps.get hash m ≡ o

abbrev pub IsLasting : ℕ → Option Entry → Type 0
IsLasting now none = Unit
IsLasting now (some e) = now ≤ e.expires_at

keep-Holds :
    (now : ℕ) (hash : String) (o : Option Entry) (m : List (String × Entry))
    → IsLasting now o
    → Holds hash o m
    → Holds hash o (keep (is_live now) m)
keep-Holds now hash none m l h = get-none-keep (is_live now) hash m h
keep-Holds now hash (some e) m l h = get-live-keep now hash m e h l

evict-Holds :
    (now : ℕ) (hash : String) (o : Option Entry) (m : List (String × Entry))
    → IsLasting now o
    → Holds hash o m
    → Holds hash o (if ltb 100 (length m) then keep (is_live now) m else m)
evict-Holds now hash o m l h =
    if_rule {A = List (String × Entry)} (Holds hash o) (ltb 100 (length m))
      (λ many. keep-Holds now hash o m l h) (λ few. h)

pub remember-Holds :
    (now : ℕ) (hash other u : String) (o : Option Entry) (m : List (String × Entry))
    → str_eq other hash ≡ false
    → IsLasting now o
    → Holds hash o m
    → Holds hash o (remember now other u m)
unfolding remember
remember-Holds now hash other u o m ne l h =
    evict-Holds now hash o (Maps.set other _ m) l (get-set_ne other hash _ m ne ∙ h)

pub delete-Holds :
    (hash other : String) (o : Option Entry) (m : List (String × Entry))
    → str_eq other hash ≡ false
    → Holds hash o m
    → Holds hash o (Maps.delete other m)
delete-Holds hash other o m ne h = rw (get-delete other hash m, ne) h

-- An entry that lasts is not the one that is found to have expired.
expired-ne :
    (now : ℕ) (hash other : String) (o : Option Entry) (m : List (String × Entry)) (v : Entry)
    → IsLasting now o
    → Holds hash o m
    → Maps.get other m ≡ some v
    → ltb v.expires_at now ≡ true
    → str_eq other hash ≡ false
expired-ne now hash other o m v l h e over = elim (Bool-cases (str_eq other hash)) [
  | inl same ↦
      let k = (eq_iff other hash).0 same in
      let here : o ≡ some v = sym h ∙ (rw (k) at e) in
      let lasts : now ≤ v.expires_at = subst (IsLasting now) here l in
      absurd (ground (arith, lasts, over))
  | inr ne ↦ ne
]

pub recall-Holds :
    (now : ℕ) (hash other : String) (o : Option Entry) (m : List (String × Entry))
    → IsLasting now o
    → Holds hash o m
    → Holds hash o (recall now other m).0
unfolding recall
recall-Holds now hash other o m l h = elim (Option-cases (Maps.get other m)) [
  | inl e ↦ rw (e) h
  | inr (v, e) ↦ rw (e) (found v e)
]
  where
    found :
        (v : Entry) → Maps.get other m ≡ some v → Holds hash o (recall_entry now other m (some v)).0
    found v e =
        if_rule {A = List (String × Entry) × Option String} (λ r. Holds hash o r.0)
          (ltb v.expires_at now)
          (λ over. delete-Holds hash other o m (expired-ne now hash other o m v l h e over) h)
          (λ lasts. h)

pub remember-same :
    (now : ℕ) (hash u : String) (m : List (String × Entry))
    → Holds hash
        (some (record { user_id = u; expires_at = now + refresh_token_sec * 1_000 }))
        (remember now hash u m)
unfolding remember
remember-same now hash u m =
    evict-Holds now hash _ (Maps.set hash _ m) (omega arith) (get-set_self hash _ m)
