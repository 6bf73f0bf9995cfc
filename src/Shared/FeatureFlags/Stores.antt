-- ===== src/Shared/FeatureFlags/Stores.antt =====
-- The cache of the flags and the database.
use the_kubernetes_of_ai_age.Common.{
  Option, none, Bool-cases, inl, inr, subst, eq_iff, ◌≡◌, refl, ◌∙◌, String, false, some, List, [],
  ◌∷◌, if◌then◌else◌, str_eq, inl, inr, Option-cases,
}
use the_kubernetes_of_ai_age.Common.Maps
use the_kubernetes_of_ai_age.Common.Maps.{
  get-set, get-delete, AllEntries, AllEntries-set, AllEntries-delete, AllEntries-get,
}
use the_kubernetes_of_ai_age.Common.Maps.Distinct.{IsDistinct}
use the_kubernetes_of_ai_age.Shared.FeatureFlags.{
  fill, refresh_flags, FeatureFlag, FeatureFlagUpsert, Flags, Table, or_else, excluded, upserted,
  upsert_flag, delete_flag, get_flag,
}

-- Every row stands under its own name, as the primary key has it.
abbrev pub IsKeyed : Table → Type 0
IsKeyed = AllEntries (λ name flag. flag.name ≡ name)

-- The cache answers as the table does.
abbrev pub IsCached : Table → Flags → Type 0
IsCached table s = (name : String) → Maps.get name s.cache ≡ get_flag name table

upserted-name :
    (now : String) (input : FeatureFlagUpsert) (table : Table)
    → IsKeyed table
    → (upserted now (excluded input) (Maps.get input.name table)).name ≡ input.name
upserted-name now input table keyed = elim (Option-cases (Maps.get input.name table)) [
  | inl e ↦ rw e refl
  | inr (flag, e) ↦ rw e (AllEntries-get (λ name f. f.name ≡ name) input.name table keyed e)
]

get-set_named :
    (key k name : String) (flag : FeatureFlag) (m : Table)
    → key ≡ k
    → Maps.get name (Maps.set key flag m) ≡ (if str_eq k name then some flag else Maps.get name m)
get-set_named key k name flag m e = rw (e, get-set k name flag m) refl

upsert_flag-IsCached :
    (now : String) (input : FeatureFlagUpsert) (table : Table) (s : Flags)
    → IsKeyed table
    → IsCached table s
    → IsKeyed (upsert_flag now input (table, s)).0
      × IsCached (upsert_flag now input (table, s)).0 (upsert_flag now input (table, s)).1
unfolding upsert_flag get_flag
upsert_flag-IsCached now input table s keyed cached =
    let flag = upserted now (excluded input) (Maps.get input.name table) in
    let same : flag.name ≡ input.name = upserted-name now input table keyed in
    (
      AllEntries-set (λ name f. f.name ≡ name) input.name flag table same keyed,
      λ name.
          rw (get-set input.name name flag table)
            (get-set_named flag.name input.name name flag s.cache same ∙ rw (cached name) refl),
    )

delete_flag-IsCached :
    (flag_name : String) (table : Table) (s : Flags)
    → IsKeyed table
    → IsCached table s
    → IsKeyed (delete_flag flag_name (table, s)).0
      × IsCached (delete_flag flag_name (table, s)).0 (delete_flag flag_name (table, s)).1
unfolding delete_flag get_flag
delete_flag-IsCached flag_name table s keyed cached = (
  AllEntries-delete (λ name f. f.name ≡ name) flag_name table keyed,
  λ name. rw (get-delete flag_name name table, get-delete flag_name name s.cache, cached name) refl,
)

pub data Change : Type 0 where
  upsert : String → FeatureFlagUpsert → Change
  remove : String → Change

abbrev pub change : Change → Table × Flags → Table × Flags
change (upsert now input) t = let r = upsert_flag now input t in (r.0, r.1)
change (remove flag_name) t = delete_flag flag_name t

abbrev pub run : List Change → Table × Flags → Table × Flags
run [] t = t
run (c ∷ cs) t = run cs (change c t)

run-IsCached :
    (cs : List Change) (table : Table) (s : Flags)
    → IsKeyed table
    → IsCached table s
    → IsCached (run cs (table, s)).0 (run cs (table, s)).1
run-IsCached [] table s keyed cached = cached
run-IsCached (upsert now input ∷ cs) table s keyed cached =
    let r = upsert_flag now input (table, s) in
    let next = upsert_flag-IsCached now input table s keyed cached in
    run-IsCached cs r.0 r.1 next.0 next.1
run-IsCached (remove flag_name ∷ cs) table s keyed cached =
    let r = delete_flag flag_name (table, s) in
    let next = delete_flag-IsCached flag_name table s keyed cached in
    run-IsCached cs r.0 r.1 next.0 next.1

-- The cache follows every flag that is written or deleted: where it answered as the table, it does
-- after any sequence of changes, for every name.
get-run :
    (cs : List Change) (table : Table) (s : Flags)
    → IsKeyed table
    → IsCached table s
    → (name : String)
    → Maps.get name (run cs (table, s)).1.cache ≡ get_flag name (run cs (table, s)).0
get-run cs table s keyed cached name = run-IsCached cs table s keyed cached name

abbrev pub or_read : Option FeatureFlag → Option FeatureFlag → Option FeatureFlag
or_read none other = other
or_read (some flag) other = some flag

or_read-none : (o : Option FeatureFlag) → or_read o none ≡ o
or_read-none none = refl
or_read-none (some flag) = refl

-- The rows of the table, as a query gives them.
abbrev pub rows : Table → List FeatureFlag
rows [] = []
rows ((name, flag) ∷ table) = flag ∷ rows table

get-fill :
    (name : String) (table m : Table)
    → IsKeyed table
    → IsDistinct table
    → Maps.get name (fill (rows table) m) ≡ or_read (Maps.get name table) (Maps.get name m)
unfolding Maps.get
get-fill name [] m keyed distinct = refl
get-fill name ((k, flag) ∷ table) m keyed distinct =
    let later = get-fill name table (Maps.set flag.name flag m) keyed.1 distinct.1 in
    let written = get-set_named flag.name k name flag m keyed.0 in
    elim (Bool-cases (str_eq k name)) [
      | inl e ↦
          later
          ∙ rw (written, e)
              (let absent : Maps.get name table ≡ none =
                  subst (λ x. Maps.get x table ≡ none) ((eq_iff k name).0 e) distinct.0 in
                rw absent refl)
      | inr e ↦ later ∙ rw (written, e) refl
    ]

-- After a refresh that succeeds, whatever was cached before, the cache answers as the table.
get-refresh_flags :
    (name : String) (table : Table) (s : Flags)
    → IsKeyed table
    → IsDistinct table
    → Maps.get name (refresh_flags (some (rows table)) s).cache ≡ get_flag name table
unfolding refresh_flags get_flag Maps.get
get-refresh_flags name table s keyed distinct =
    get-fill name table [] keyed distinct ∙ or_read-none (Maps.get name table)

-- What an update leaves unsaid is not kept: of a flag that is stored, the description, the roles, the
-- namespaces, the switch and the percentage all become their defaults where the input has none.
upsert_flag-forgets :
    (now : String) (input : FeatureFlagUpsert) (stored : FeatureFlag) (table : Table) (s : Flags)
    → get_flag input.name table ≡ some stored
    → (upsert_flag now input (table, s)).2 ≡ record stored {
      enabled = or_else input.enabled false;
      description = or_else input.description "";
      rollout_percentage = or_else input.rollout_percentage 0;
      allowed_roles = or_else input.allowed_roles [];
      allowed_namespaces = or_else input.allowed_namespaces [];
      updated_at = now;
    }
unfolding upsert_flag get_flag
upsert_flag-forgets now input stored table s e = rw e refl
