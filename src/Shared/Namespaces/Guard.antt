-- ===== src/Shared/Namespaces/Guard.antt =====
-- Whose calls the namespace guard lets pass.
use the_kubernetes_of_ai_age.Common.{
  ℕ, ◌≡◌, ◌⊎◌, refl, sym, ap, ◌∙◌, subst, String, false, not, ◌&&◌, Option, none, some, List,
  str_eq, eq_iff, arith, inl, inr, Bool-cases,
}
use the_kubernetes_of_ai_age.Common.Maps
use the_kubernetes_of_ai_age.Common.Maps.{get-set_self, get-set_ne}
use the_kubernetes_of_ai_age.Shared.Namespaces.{
  NamespaceState, Cache, Claims, Payload, claims_of, or_else, get_cached_namespace, claims_in,
  caller_namespace, caller_role, passed, admit, resolved, on_receive_metadata,
}

-- A namespace of which nothing is cached, or which is neither deleted nor suspended.
abbrev pub IsOpen : Option NamespaceState → Type 0
IsOpen state =
    (state ≡ none)
    ⊎ ((st : NamespaceState) × (state ≡ some st) × (st.deleted ≡ false) × (st.suspended ≡ false))

-- What the interceptor's tests come to: the call is for its caller's own namespace, or its caller is an administrator,
-- and the namespace is not known to be deleted or suspended.
pub record IsCleared (admin_role : String) (request : String) (claims : Option Claims)
    (state : Option NamespaceState) : Type 0 where
  pub own : (request ≡ caller_namespace claims) ⊎ (caller_role claims ≡ admin_role)
  pub open_state : IsOpen state

admit-passed :
    (state : Option NamespaceState) (m out : List (String × String))
    → admit state m ≡ passed out
    → IsOpen state × (m ≡ out)
admit-passed none m out h = (inl refl, ground arith)
admit-passed (some st) m out h = elim (Bool-cases st.deleted) [
  | inl e ↦ absurd (ground arith)
  | inr e ↦ elim (Bool-cases st.suspended) [
    | inl f ↦ absurd (ground arith)
    | inr f ↦ (inr (st, refl, e, f), ground arith)
  ]
]

own_or_admin :
    (a b c d : String) → (not (str_eq a b) && not (str_eq c d)) ≡ false → (a ≡ b) ⊎ (c ≡ d)
own_or_admin a b c d h = elim (Bool-cases (str_eq a b)) [
  | inl e ↦ inl ((eq_iff a b).0 e)
  | inr e ↦ inr ((eq_iff c d).0 (ground arith))
]

get-resolved :
    (request caller role : String) (m : List (String × String))
    → Maps.get "x-resolved-namespace" (resolved request caller role m) ≡ some request
get-resolved request caller role m =
    rw
      (
        get-set_ne "x-caller-role" "x-resolved-namespace" role
            (Maps.set "x-caller-namespace" caller (Maps.set "x-resolved-namespace" request m)) refl,
        get-set_ne "x-caller-namespace" "x-resolved-namespace" caller
            (Maps.set "x-resolved-namespace" request m) refl,
      )
      (get-set_self "x-resolved-namespace" request m)

module _ (verify_jwt : String → String → Option Payload) where
  abbrev pub request_of : Option String → List (String × String) → String
  request_of secret metadata =
      or_else (Maps.get "x-resolved-namespace" metadata)
        (caller_namespace (claims_in verify_jwt secret metadata))

  passed-IsCleared :
      (now : ℕ) (secret : Option String) (admin_role : String)
      (metadata out : List (String × String)) (cache : Cache)
      → (on_receive_metadata verify_jwt now secret admin_role metadata cache).1 ≡ passed out
      → IsCleared admin_role
          (request_of secret metadata)
          (claims_in verify_jwt secret metadata)
          (get_cached_namespace now (request_of secret metadata) cache).1
        × (Maps.get "x-resolved-namespace" out ≡ some (request_of secret metadata))
  unfolding on_receive_metadata
  passed-IsCleared now secret admin_role metadata out cache h =
      let claims = claims_in verify_jwt secret metadata in
      let request = request_of secret metadata in
      let state = (get_cached_namespace now request cache).1 in
      let onward = resolved request (caller_namespace claims) (caller_role claims) metadata in
      elim (Bool-cases (
        not (str_eq request (caller_namespace claims))
        && not (str_eq (caller_role claims) admin_role))) [
          | inl e ↦ absurd (ground arith)
          | inr e ↦
              let p = admit-passed state onward out (rw e at h) in
              (
                record {
                  own =
                      own_or_admin request (caller_namespace claims) (caller_role claims) admin_role
                        e;
                  open_state = p.0;
                },
                subst (λ m. Maps.get "x-resolved-namespace" m ≡ some request) p.1
                    (get-resolved request (caller_namespace claims) (caller_role claims) metadata),
              )
        ]

  -- Without a secret, or with a token that the verification refuses, a call passes only for the
  -- namespace "default", unless a plain "user" is an administrator.
  on_receive_metadata-unverified :
      (now : ℕ) (secret : Option String) (admin_role : String)
      (metadata out : List (String × String)) (cache : Cache)
      → claims_in verify_jwt secret metadata ≡ none
      → str_eq "user" admin_role ≡ false
      → (on_receive_metadata verify_jwt now secret admin_role metadata cache).1 ≡ passed out
      → Maps.get "x-resolved-namespace" out ≡ some "default"
  on_receive_metadata-unverified now secret admin_role metadata out cache unverified plain h =
      let p = passed-IsCleared now secret admin_role metadata out cache h in
      elim p.0.own [
        | inl e ↦ p.1 ∙ ap some (e ∙ ap caller_namespace unverified)
        | inr e ↦
            let same : "user" ≡ admin_role = sym (ap caller_role unverified) ∙ e in
            let equal = (eq_iff "user" admin_role).1 same in absurd (ground arith)
      ]

  -- The claims are those of a token that the metadata carries and the secret verifies.
  abbrev pub AreVerified : Option String → List (String × String) → Claims → Type 0
  AreVerified secret metadata c =
      (key : String) × (token : String) × (p : Payload) × (secret ≡ some key)
      × (Maps.get "x-agent-claims" metadata ≡ some token)
      × (verify_jwt token key ≡ some p)
      × (c ≡ claims_of p)

  -- Who may call for a namespace: the holder of verified claims for their own namespace or as an
  -- administrator; and whoever has no verified claims, for "default", or for any namespace where
  -- administrators are called "user".
  abbrev pub MayCall : Option String → String → List (String × String) → String → Type 0
  MayCall secret admin_role metadata request =
      ((c : Claims) × AreVerified secret metadata c
        × ((request ≡ caller_namespace (some c)) ⊎ (c.role ≡ admin_role)))
      ⊎ (claims_in verify_jwt secret metadata ≡ none)
        × ((request ≡ "default") ⊎ ("user" ≡ admin_role))
