-- ===== src/Shared/FeatureFlags/Restrictions.antt =====
-- The roles and namespaces that a flag lists, and those of a context.
use the_kubernetes_of_ai_age.Common.{
  ◌≡◌, refl, subst, ◌⊎◌, inl, inr, String, Bool, true, ◌&&◌, ◌||◌, Option, none, some, List, [],
  ◌∷◌, is_empty, exists, str_eq, eq_iff, eq_refl, Bool-cases, arith,
}
use the_kubernetes_of_ai_age.Shared.FeatureFlags.{
  Context, includes, roles_of, namespace_of, has_role, has_namespace,
}

abbrev pub In : String → List String → Type 0
In x [] = ⊥
In x (y ∷ ys) = (y ≡ x) ⊎ In x ys

exists-In :
    (p : String → Bool) (xs : List String)
    → exists p xs ≡ true
    → (x : String) × In x xs × (p x ≡ true)
exists-In p [] h = absurd (ground arith)
exists-In p (x ∷ xs) h = elim (Bool-cases (p x)) [
  | inl e ↦ (x, inl refl, e)
  | inr e ↦ let (y, i, q) = exists-In p xs (ground (arith, e, h)) in (y, inr i, q)
]

In-exists :
    (p : String → Bool) (xs : List String) (x : String) → In x xs → p x ≡ true → exists p xs ≡ true
In-exists p [] x i q = absurd i
In-exists p (y ∷ ys) x (inl e) q = rw (e, q) refl
In-exists p (y ∷ ys) x (inr i) q = ground (arith, In-exists p ys x i q)

includes-In : (s : String) (xs : List String) → includes s xs ≡ true → In s xs
includes-In s xs h =
    let (x, i, e) = exists-In (λ x. str_eq x s) xs h in subst (λ y. In y xs) ((eq_iff x s).0 e) i

In-includes : (s : String) (xs : List String) → In s xs → includes s xs ≡ true
In-includes s xs i = In-exists (λ x. str_eq x s) xs s i (eq_refl s)

-- One of the context's roles is among those that the flag allows.
abbrev pub HasRole : List String → Option Context → Type 0
HasRole allowed context =
    (roles : List String) × (role : String) × (roles_of context ≡ some roles)
    × In role roles
    × In role allowed

abbrev pub HasNamespace : List String → Option Context → Type 0
HasNamespace allowed context =
    (namespace : String) × (namespace_of context ≡ some namespace) × In namespace allowed

pub has_role-HasRole :
    (allowed : List String) (context : Option Context) (o : Option (List String))
    → roles_of context ≡ o
    → has_role allowed o ≡ true
    → HasRole allowed context
has_role-HasRole allowed context none e h = absurd (ground arith)
has_role-HasRole allowed context (some roles) e h =
    let (role, i, p) = exists-In (λ r. includes r allowed) roles h in
    (roles, role, e, i, includes-In role allowed p)

pub HasRole-has_role :
    (allowed : List String) (context : Option Context)
    → HasRole allowed context
    → has_role allowed (roles_of context) ≡ true
HasRole-has_role allowed context (roles, role, e, i, p) =
    rw e (In-exists (λ r. includes r allowed) roles role i (In-includes role allowed p))

pub has_namespace-HasNamespace :
    (allowed : List String) (context : Option Context) (o : Option String)
    → namespace_of context ≡ o
    → has_namespace allowed o ≡ true
    → HasNamespace allowed context
has_namespace-HasNamespace allowed context none e h = absurd (ground arith)
has_namespace-HasNamespace allowed context (some ns) e h = (ns, e, includes-In ns allowed h)

pub HasNamespace-has_namespace :
    (allowed : List String) (context : Option Context)
    → HasNamespace allowed context
    → has_namespace allowed (namespace_of context) ≡ true
HasNamespace-has_namespace allowed context (ns, e, i) = rw e (In-includes ns allowed i)

pub empty_or :
    {P : Type 0} (xs : List String) (b : Bool)
    → (b ≡ true → P)
    → (is_empty xs || b) ≡ true
    → (xs ≡ []) ⊎ P
empty_or [] b f h = inl refl
empty_or (x ∷ xs) b f h = inr (f h)

pub or_empty :
    {P : Type 0} (xs : List String) (b : Bool)
    → (P → b ≡ true)
    → (xs ≡ []) ⊎ P
    → (is_empty xs || b) ≡ true
or_empty [] b f h = refl
or_empty (x ∷ xs) b f (inl e) = absurd (ground arith)
or_empty (x ∷ xs) b f (inr p) = f p

pub both : (a b : Bool) → (a && b) ≡ true → (a ≡ true) × (b ≡ true)
both a b h = (ground arith, ground arith)
