-- ===== src/Shared/Audit.antt =====
-- packages/shared/src/audit/index.ts: the chains of audit entries. What an entry says besides its
-- `integrity` is a value of the type `C`; `stringify` is JSON.stringify on it and `sha256` the digest in
-- hexadecimal. Writing an entry to a stream and to PostgreSQL is left out.
pub mod Chains
pub mod Tampering
mod Tests
use the_kubernetes_of_ai_age.Common.{
  ℕ, ◌-◌, String, Bool, true, false, Option, none, some, List, [], ◌∷◌, ◌++◌, if◌then◌else◌, ltb,
  str_eq, length, drop,
}
use the_kubernetes_of_ai_age.Common.Maps

pub record AuditEntry (C : Type 0) : Type 0 where
  pub content : C
  pub previous_hash : String
  pub chain_id : String

pub record ChainState (C : Type 0) : Type 0 where
  pub entries : List (AuditEntry C)
  pub last_hash : String

abbrev pub zero_hash : String
zero_hash = "0000000000000000000000000000000000000000000000000000000000000000"

abbrev pub max_entries : ℕ
max_entries = 10_000

abbrev pub or_empty : {C : Type 0} → Option (ChainState C) → ChainState C
or_empty none = record { entries = []; last_hash = zero_hash }
or_empty (some chain) = chain

unfoldable pub get_chain : {C : Type 0} → String → List (String × ChainState C) → ChainState C
unfolding Maps.get
get_chain chain_id chains = or_empty (Maps.get chain_id chains)

-- `splice(0, length - 10000)` where there are more.
abbrev pub trim_entries : {C : Type 0} → List (AuditEntry C) → List (AuditEntry C)
trim_entries es = if ltb max_entries (length es) then drop (length es - max_entries) es else es

module _ {C : Type 0} (stringify : C → String) (sha256 : String → String) where
  unfoldable pub hash_entry : C → String → String
  hash_entry content previous_hash =
      sha256 (Prim.Native.String.◌++◌ (stringify content) previous_hash)

  -- The field `previousHash` of an entry is set to the hash of the entry itself on top of the last one.
  abbrev pub next_entry : String → C → ChainState C → AuditEntry C
  next_entry chain_id content chain = record {
    content = content;
    previous_hash = hash_entry content chain.last_hash;
    chain_id = chain_id;
  }

  unfoldable pub add_entry : String → C → ChainState C → ChainState C
  unfolding hash_entry
  add_entry chain_id content chain =
      let entry = next_entry chain_id content chain in
      record {
        entries = trim_entries (chain.entries ++ entry ∷ []);
        last_hash = entry.previous_hash;
      }

  unfoldable pub create_audit_entry :
      String → C → List (String × ChainState C) → List (String × ChainState C)
  unfolding add_entry get_chain Maps.set
  create_audit_entry chain_id content chains =
      Maps.set chain_id (add_entry chain_id content (get_chain chain_id chains)) chains

  -- The loop of `verifyAuditChain`.
  unfoldable pub verify_from : String → List (AuditEntry C) → Bool
  unfolding hash_entry
  verify_from previous_hash [] = true
  verify_from previous_hash (e ∷ es) =
      let rest = verify_from e.previous_hash es in
      if str_eq e.previous_hash (hash_entry e.content previous_hash) then rest else false

  unfoldable pub verify_audit_chain : List (AuditEntry C) → Bool
  unfolding verify_from
  verify_audit_chain es = verify_from zero_hash es

  -- A run of entries, each with its chain.
  unfoldable pub create_all :
      List (String × C) → List (String × ChainState C) → List (String × ChainState C)
  unfolding create_audit_entry
  create_all [] chains = chains
  create_all ((chain_id, content) ∷ es) chains =
      create_all es (create_audit_entry chain_id content chains)
