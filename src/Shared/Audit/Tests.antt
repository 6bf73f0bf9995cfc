-- ===== src/Shared/Audit/Tests.antt =====
-- packages/shared/src/audit/index.ts: the theorems where the contents are two texts of one letter and a
-- digest is "h" before the text.
use text.Mathlib.TextLemmas.{cons-append, nil-append}
use Prim.Native.String
use Prim.Native.Char.{Char, code}
use the_kubernetes_of_ai_age.Common.{
  ℕ, zero, suc, String, Bool, true, false, List, [], ◌∷◌, ◌≡◌, ◌≢◌, refl, sym, ap, ◌∙◌, arith, ◌==◌,
  length,
}
use the_kubernetes_of_ai_age.Shared.Audit.{
  AuditEntry, zero_hash, get_chain, hash_entry, create_audit_entry, verify_from, verify_audit_chain,
  create_all,
}
use the_kubernetes_of_ai_age.Shared.Audit.Chains.{entries_of, verify-create_all}
use the_kubernetes_of_ai_age.Shared.Audit.Tampering.{
  IsCollisionFree, newest_first, verified-same_last, verify-create_audit_entry-full,
}

abbrev stringify : Bool → String
stringify true = "t"
stringify false = "f"

abbrev letter : Bool → Char
letter true = Prim.Native.String.char_at "t" 0
letter false = Prim.Native.String.char_at "f" 0

abbrev sha256 : String → String
sha256 s = String.◌∷◌ (Prim.Native.String.char_at "h" 0) s

-- What stands before a digest, and what it was made of.
abbrev content_of : String → Bool
content_of String.[] = false
content_of (String.◌∷◌ c s) = content_in s
  where
    content_in : String → Bool
    content_in String.[] = false
    content_in (String.◌∷◌ d r) = code d == b't'

abbrev before : String → String
before String.[] = ""
before (String.◌∷◌ c s) = s

abbrev first_code : String → ℕ
first_code String.[] = 0
first_code (String.◌∷◌ c s) = code c

hash-letters :
    (c : Bool) (p : String) → hash_entry stringify sha256 c p ≡ sha256 (String.◌∷◌ (letter c) p)
unfolding hash_entry
hash-letters true p =
    ap sha256 (cons-append (letter true) "" p ∙ ap (String.◌∷◌ (letter true)) (nil-append p))
hash-letters false p =
    ap sha256 (cons-append (letter false) "" p ∙ ap (String.◌∷◌ (letter false)) (nil-append p))

content-letter : (c : Bool) (p : String) → content_of (sha256 (String.◌∷◌ (letter c) p)) ≡ c
content-letter true p = refl
content-letter false p = refl

sha256-IsCollisionFree : IsCollisionFree stringify sha256
sha256-IsCollisionFree = record {
  injective = λ c d p q e.
      let h = sym (hash-letters c p) ∙ e ∙ hash-letters d q in
      (
        sym (content-letter c p) ∙ ap content_of h ∙ content-letter d q,
        ap (λ s. before (before s)) h,
      );
  nonzero = λ c p e. first_differs (letter c) p (sym (hash-letters c p) ∙ e);
}
  where
    first_differs : (c : Char) (p : String) → sha256 (String.◌∷◌ c p) ≢ zero_hash
    first_differs c p e = absurd (omega (arith, ap first_code e))

abbrev mixed : List (String × Bool)
mixed = ("a", true) ∷ ("b", false) ∷ ("a", false) ∷ []

verify-create_all_example :
    (verify_audit_chain stringify sha256
        (get_chain "a" (create_all stringify sha256 mixed [])).entries
      ≡ true)
    × (length (get_chain "a" (create_all stringify sha256 mixed [])).entries ≡ 2)
verify-create_all_example = verify-create_all stringify sha256 "a" mixed (omega arith)

-- The name of the chain is no part of the hash: these entries were moved to another chain.
abbrev moved : String → List (AuditEntry Bool)
moved chain =
    let hash = hash_entry stringify sha256 true zero_hash in
    record { content = true; previous_hash = hash; chain_id = chain }
    ∷ record {
      content = false;
      previous_hash = hash_entry stringify sha256 false hash;
      chain_id = chain;
    }
    ∷ []

verified-same_last_example : newest_first [] (moved "a") ≡ newest_first [] (moved "b")
unfolding verify_audit_chain verify_from hash_entry
verified-same_last_example =
    verified-same_last stringify sha256 sha256-IsCollisionFree (moved "a") (moved "b") refl refl
      refl

copies : ℕ → List (String × Bool)
copies zero = []
copies (suc n) = ("a", true) ∷ copies n

entries_of-copies : (n : ℕ) → entries_of "a" (copies n) ≡ n
unfolding copies
entries_of-copies zero = refl
entries_of-copies (suc n) = omega (arith, entries_of-copies n)

verify-create_audit_entry-full_example :
    verify_audit_chain stringify sha256
      (get_chain "a" (
        create_audit_entry stringify sha256 "a" false
          (create_all stringify sha256 (copies 10_000) []))).entries
    ≡ false
verify-create_audit_entry-full_example =
    verify-create_audit_entry-full stringify sha256 sha256-IsCollisionFree "a" false (copies 10_000)
      (entries_of-copies 10_000)
