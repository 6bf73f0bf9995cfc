-- ===== src/Shared/FeatureFlags/Access.antt =====
-- Who has a feature.
use mathlib.Core.Bool.{false≢true}
use the_kubernetes_of_ai_age.Common.{
  ℕ, ◌≤◌, ◌<◌, ◌⊎◌, ◌↔◌, inl, inr, [], Bool-cases, Option-cases, ◌≡◌, refl, sym, ◌∙◌, String, Bool,
  true, false, not, ◌&&◌, ◌||◌, Option, none, some, if◌then◌else◌, ltb, ◌==◌, is_empty, arith,
}
use the_kubernetes_of_ai_age.Common.Maps
use the_kubernetes_of_ai_age.Common.Maps.{get-set_self}
use the_kubernetes_of_ai_age.Shared.FeatureFlags.Restrictions.{
  HasRole, HasNamespace, has_role-HasRole, HasRole-has_role, has_namespace-HasNamespace,
  HasNamespace-has_namespace, empty_or, or_empty, both,
}
use the_kubernetes_of_ai_age.Shared.FeatureFlags.{
  FeatureFlag, Context, Flags, user_of, roles_of, namespace_of, has_role, has_namespace,
  check_access, deterministic_hash, in_rollout, decide, is_enabled,
}

-- The restrictions of a flag admit the context: each list is empty or met.
abbrev pub is_admitted : FeatureFlag → Option Context → Bool
is_admitted flag context =
    (is_empty flag.allowed_roles || has_role flag.allowed_roles (roles_of context))
    && (is_empty flag.allowed_namespaces
        || has_namespace flag.allowed_namespaces (namespace_of context))

check_access-is_admitted :
    (flag : FeatureFlag) (context : Option Context)
    → check_access flag context ≡ is_admitted flag context
unfolding check_access
check_access-is_admitted flag context = ground arith

gates :
    (on full reached admitted : Bool)
    → (if not on then false else if full then admitted else if reached then admitted else false)
      ≡ (on && (full || reached) && admitted)
gates on full reached admitted = ground arith

pass_all :
    (on reached more admitted : Bool)
    → (reached ≡ true → more ≡ true)
    → (on && reached && admitted) ≡ true
    → (on && more && admitted) ≡ true
pass_all on reached more admitted f h = ground (arith, f)

module _ (sha_digits : String → ℕ) where
  abbrev pub in_bucket : String → FeatureFlag → Option String → Bool
  in_bucket name flag none = false
  in_bucket name flag (some user) =
      ltb (deterministic_hash sha_digits name user) flag.rollout_percentage

  -- The rollout reaches the context: it is complete, or there is a user whose bucket lies below it.
  abbrev pub is_reached : String → FeatureFlag → Option String → Bool
  is_reached name flag user = (flag.rollout_percentage == 100) || in_bucket name flag user

  decide-some :
      (name : String) (flag : FeatureFlag) (context : Option Context) (user : Option String)
      → user_of context ≡ user
      → decide sha_digits name context (some flag)
        ≡ (flag.enabled && is_reached name flag user && is_admitted flag context)
  decide-some name flag context none e =
      rw (e, check_access-is_admitted flag context)
        (gates flag.enabled (flag.rollout_percentage == 100) false (is_admitted flag context))
  decide-some name flag context (some user) e =
      let below : in_rollout sha_digits name flag (some user)
          ≡ ltb (deterministic_hash sha_digits name user) flag.rollout_percentage =
        ground arith in
      rw (e, check_access-is_admitted flag context, below)
        (gates flag.enabled (flag.rollout_percentage == 100)
          (ltb (deterministic_hash sha_digits name user) flag.rollout_percentage)
          (is_admitted flag context))

  -- A feature whose flag is known is enabled when the flag is switched on, its rollout reaches the
  -- context, and its restrictions admit it.
  is_enabled-flag :
      (name : String) (context : Option Context) (s : Flags) (flag : FeatureFlag)
      → Maps.get name s.cache ≡ some flag
      → is_enabled sha_digits name context s
        ≡ (flag.enabled && is_reached name flag (user_of context) && is_admitted flag context)
  unfolding is_enabled
  is_enabled-flag name context s flag e =
      rw e (decide-some name flag context (user_of context) refl)

  -- The rollout of the flag reaches the context.
  abbrev pub IsReached : String → FeatureFlag → Option Context → Type 0
  IsReached name flag context =
      (flag.rollout_percentage ≡ 100)
      ⊎ (user : String) × (user_of context ≡ some user)
        × (deterministic_hash sha_digits name user < flag.rollout_percentage)

  is_reached-IsReached :
      (name : String) (flag : FeatureFlag) (context : Option Context) (o : Option String)
      → user_of context ≡ o
      → is_reached name flag o ≡ true
      → IsReached name flag context
  is_reached-IsReached name flag context none e h = inl (ground arith)
  is_reached-IsReached name flag context (some user) e h =
      elim (Bool-cases (flag.rollout_percentage == 100)) [
        | inl full ↦ inl (ground arith)
        | inr partial ↦ inr (user, e, ground (arith, h))
      ]

  IsReached-is_reached :
      (name : String) (flag : FeatureFlag) (context : Option Context)
      → IsReached name flag context
      → is_reached name flag (user_of context) ≡ true
  IsReached-is_reached name flag context (inl full) = ground (arith, full)
  IsReached-is_reached name flag context (inr (user, e, below)) = rw e (ground (arith, below))

  -- The context has the feature: its flag is known and switched on, the rollout is complete or takes the
  -- bucket of the context's user, one of the context's roles is allowed where roles are listed, and its
  -- namespace where namespaces are.
  pub record IsGranted (name : String) (context : Option Context) (s : Flags) : Type 0 where
    pub flag : FeatureFlag
    pub known : Maps.get name s.cache ≡ some flag
    pub on : flag.enabled ≡ true
    pub reached : IsReached name flag context
    pub role : (flag.allowed_roles ≡ []) ⊎ HasRole flag.allowed_roles context
    pub namespace : (flag.allowed_namespaces ≡ []) ⊎ HasNamespace flag.allowed_namespaces context

  flag-IsGranted :
      (name : String) (context : Option Context) (s : Flags) (flag : FeatureFlag)
      → Maps.get name s.cache ≡ some flag
      → is_enabled sha_digits name context s ≡ true
      → IsGranted name context s
  flag-IsGranted name context s flag e h =
      let all =
        both (flag.enabled && is_reached name flag (user_of context)) (is_admitted flag context)
          (sym (is_enabled-flag name context s flag e) ∙ h) in
      let more = both flag.enabled (is_reached name flag (user_of context)) all.0 in
      let admitted =
        both (is_empty flag.allowed_roles || has_role flag.allowed_roles (roles_of context))
          (is_empty flag.allowed_namespaces
            || has_namespace flag.allowed_namespaces (namespace_of context))
          all.1 in
      record {
        flag = flag;
        known = e;
        on = more.0;
        reached = is_reached-IsReached name flag context (user_of context) refl more.1;
        role =
            empty_or flag.allowed_roles (has_role flag.allowed_roles (roles_of context))
              (has_role-HasRole flag.allowed_roles context (roles_of context) refl) admitted.0;
        namespace =
            empty_or flag.allowed_namespaces
              (has_namespace flag.allowed_namespaces (namespace_of context))
              (has_namespace-HasNamespace flag.allowed_namespaces context (namespace_of context)
                refl)
              admitted.1;
      }

  -- `isEnabled` answers true exactly for a flag that is known and switched on, whose rollout is complete
  -- or takes the bucket of the context's user, and whose lists of roles and of namespaces are each empty
  -- or name a role, and the namespace, of the context.
  pub is_enabled-iff_IsGranted :
      (name : String) (context : Option Context) (s : Flags)
      → (is_enabled sha_digits name context s ≡ true) ↔ IsGranted name context s
  unfolding is_enabled
  is_enabled-iff_IsGranted name context s = (
    (λ h. elim (Option-cases (Maps.get name s.cache)) [
      | inl e ↦ absurd (false≢true (rw e at h))
      | inr (flag, e) ↦ flag-IsGranted name context s flag e h
    ]),
    λ g.
        let reached = IsReached-is_reached name g.flag context g.reached in
        let role =
          or_empty g.flag.allowed_roles (has_role g.flag.allowed_roles (roles_of context))
            (HasRole-has_role g.flag.allowed_roles context) g.role in
        let namespace =
          or_empty g.flag.allowed_namespaces
            (has_namespace g.flag.allowed_namespaces (namespace_of context))
            (HasNamespace-has_namespace g.flag.allowed_namespaces context) g.namespace in
        is_enabled-flag name context s g.flag g.known ∙ rw (g.on, reached, role, namespace) refl,
  )

  reached_mono :
      (name : String) (flag : FeatureFlag) (more : ℕ) (user : Option String)
      → flag.rollout_percentage ≤ more
      → more ≤ 100
      → is_reached name flag user ≡ true
      → is_reached name (record flag { rollout_percentage = more }) user ≡ true
  reached_mono name flag more none le top h = ground arith
  reached_mono name flag more (some user) le top h = ground arith

  -- Raising the percentage of a rollout never takes a feature away from a context that has it.
  is_enabled-rollout :
      (name : String) (context : Option Context) (s : Flags) (flag : FeatureFlag) (more : ℕ)
      → flag.rollout_percentage ≤ more
      → more ≤ 100
      → is_enabled sha_digits name context (record s { cache = Maps.set name flag s.cache }) ≡ true
      → is_enabled sha_digits name context
          (record s { cache = Maps.set name (record flag { rollout_percentage = more }) s.cache })
        ≡ true
  is_enabled-rollout name context s flag more le top h =
      let raised = record flag { rollout_percentage = more } in
      let before =
        is_enabled-flag name context (record s { cache = Maps.set name flag s.cache }) flag
          (get-set_self name flag s.cache) in
      let after =
        is_enabled-flag name context (record s { cache = Maps.set name raised s.cache }) raised
          (get-set_self name raised s.cache) in
      after
      ∙ pass_all flag.enabled (is_reached name flag (user_of context))
          (is_reached name raised (user_of context)) (is_admitted flag context)
          (reached_mono name flag more (user_of context) le top) (sym before ∙ h)
