-- ===== src/ToolProxy/Args/Paths.antt =====
-- execution-plane/tool-proxy/src/index.ts: what `validateSandboxArgs` lets through.
use the_kubernetes_of_ai_age.Common.{
  ◌≤◌, String, true, false, Option, none, some, ◌≡◌, ◌≢◌, ◌⊎◌, inl, inr, refl, arith, eq_iff,
}
use the_kubernetes_of_ai_age.Common.Json.{Json}
use the_kubernetes_of_ai_age.Common.Text.{size, every_char, some_char, contains}
use the_kubernetes_of_ai_age.ToolProxy.Args.{
  as_string, argument, first_error, is_path_char, is_blocked_char, path_error, query_error,
  validate_sandbox_args,
}

-- The argument `path` is a text of letters, digits and "_", "/", ".", "-", with no two dots in a row.
pub record HasSafePath (args : Json) : Type 0 where
  pub path : String
  pub read : argument "path" args ≡ Json.string path
  pub some_text : path ≢ ""
  pub chars : every_char is_path_char path ≡ true
  pub no_parent : contains path ".." ≡ false

-- The argument `query` is a text of at most 10,000 units with none of the blocked characters.
pub record HasSafeQuery (args : Json) : Type 0 where
  pub query : String
  pub read : argument "query" args ≡ Json.string query
  pub some_text : query ≢ ""
  pub short : size query ≤ 10000
  pub chars : some_char is_blocked_char query ≡ false

as_string-cases :
    (v : Json)
    → (as_string v ≡ none) ⊎ ((s : String) × (v ≡ Json.string s) × (as_string v ≡ some s))
as_string-cases (Json.string s) = inr (s, refl, refl)
as_string-cases Json.null = inl refl
as_string-cases (Json.boolean b) = inl refl
as_string-cases (Json.number n) = inl refl
as_string-cases (Json.array is) = inl refl
as_string-cases (Json.object fs) = inl refl

path_error-none :
    (args : Json) → path_error (as_string (argument "path" args)) ≡ none → HasSafePath args
path_error-none args h = elim (as_string-cases (argument "path" args)) [
  | inl e ↦ absurd (ground (arith, e, h))
  | inr (s, v, e) ↦ record {
    path = s;
    read = v;
    some_text = λ x. ground (arith, e, h, eq_iff s "");
    chars = ground (arith, e, h);
    no_parent = ground (arith, e, h);
  }
]

query_error-none :
    (args : Json) → query_error (as_string (argument "query" args)) ≡ none → HasSafeQuery args
query_error-none args h = elim (as_string-cases (argument "query" args)) [
  | inl e ↦ absurd (ground (arith, e, h))
  | inr (s, v, e) ↦ record {
    query = s;
    read = v;
    some_text = λ x. ground (arith, e, h, eq_iff s "");
    short = ground (arith, e, h);
    chars = ground (arith, e, h);
  }
]

first_error-none : (a b : Option String) → first_error a b ≡ none → a ≡ none
first_error-none none b h = refl
first_error-none (some e) b h = absurd (cc)

module _ (args : Json) where
  file_read : validate_sandbox_args "file_read" args ≡ none → HasSafePath args
  unfolding validate_sandbox_args
  file_read h = path_error-none args h

  file_write : validate_sandbox_args "file_write" args ≡ none → HasSafePath args
  unfolding validate_sandbox_args
  file_write h = path_error-none args (first_error-none _ _ h)

  database_query : validate_sandbox_args "database_query" args ≡ none → HasSafeQuery args
  unfolding validate_sandbox_args
  database_query h = query_error-none args h

-- Arguments that are found valid have, for file_read and file_write, a path that is safe, and for
-- database_query a query that is safe.
validate_sandbox_args-none :
    (tool_name : String) (args : Json)
    → validate_sandbox_args tool_name args ≡ none
    → (((tool_name ≡ "file_read") ⊎ (tool_name ≡ "file_write")) → HasSafePath args)
      × (tool_name ≡ "database_query" → HasSafeQuery args)
validate_sandbox_args-none tool_name args h = (
  λ e. elim e [
    | inl read ↦ file_read args (rw read at h)
    | inr write ↦ file_write args (rw write at h)
  ],
  λ query. database_query args (rw query at h),
)
