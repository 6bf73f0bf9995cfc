-- ===== src/Shared/Namespaces/Tests.antt =====
-- Runs of the namespace guard on concrete inputs.
use the_kubernetes_of_ai_age.Common.{
  ◌≡◌, refl, String, true, false, Option, none, some, List, [], ◌∷◌, if◌then◌else◌, str_eq,
}
use the_kubernetes_of_ai_age.Common.Maps
use the_kubernetes_of_ai_age.Shared.Namespaces.{
  Payload, Cache, permission_denied, parse_claims, on_receive_metadata,
}
use the_kubernetes_of_ai_age.Shared.Namespaces.Guard

-- One token is good.
abbrev verify : String → String → Option Payload
verify raw secret =
    if str_eq raw "token"
    then some (record {
      sub = some "s";
      role = none;
      namespace_access = some ("a" ∷ []);
      namespace = none;
    })
    else none

abbrev cache : Cache
cache =
    (
      "b",
      record {
        state = record { exists = true; suspended = true; deleted = false };
        expires_at = 100;
      },
    )
    ∷ []

abbrev own_call : List (String × String)
own_call = ("x-agent-claims", "token") ∷ []

abbrev anonymous : List (String × String)
anonymous = ("x-agent-claims", "forged") ∷ []

abbrev foreign_call : List (String × String)
foreign_call = ("x-agent-claims", "token") ∷ ("x-resolved-namespace", "b") ∷ []

foreign-denied :
    (on_receive_metadata verify 50 (some "k") "platform-admin" foreign_call cache).1
    ≡ permission_denied
unfolding on_receive_metadata parse_claims Maps.get
foreign-denied = refl
