-- ===== src/Shared/Audit/Chains.antt =====
-- packages/shared/src/audit/index.ts: what `verifyAuditChain` says of the chains that were made.
use the_kubernetes_of_ai_age.Common.{
  ℕ, suc, ◌+◌, ◌≤◌, ◌<◌, String, true, List, [], ◌∷◌, ◌++◌, ◌≡◌, refl, sym, ◌∙◌, ap, arith,
  if◌then◌else◌, Bool-cases, inl, inr, ltb, str_eq, eq_iff, if_rule, length, length-append,
}
use the_kubernetes_of_ai_age.Common.Maps
use the_kubernetes_of_ai_age.Common.Maps.{get-set}
use the_kubernetes_of_ai_age.Shared.Audit.{
  AuditEntry, ChainState, zero_hash, max_entries, or_empty, get_chain, trim_entries, hash_entry,
  next_entry, add_entry, create_audit_entry, verify_from, verify_audit_chain, create_all,
}

-- How many of the entries go to a chain.
abbrev pub entries_of : {C : Type 0} → String → List (String × C) → ℕ
entries_of k [] = 0
entries_of k ((j, c) ∷ es) = let rest = entries_of k es in if str_eq j k then suc rest else rest

module _ {C : Type 0} (stringify : C → String) (sha256 : String → String) where
  abbrev pub last_from : String → List (AuditEntry C) → String
  last_from prev [] = prev
  last_from prev (e ∷ es) = last_from e.previous_hash es

  -- A chain with nothing dropped: it verifies, and its last hash is that of its last entry.
  pub record IsWhole (chain : ChainState C) : Type 0 where
    pub verified : verify_audit_chain stringify sha256 chain.entries ≡ true
    pub last : chain.last_hash ≡ last_from zero_hash chain.entries

  pub verify-append :
      (prev : String) (es : List (AuditEntry C)) (e : AuditEntry C)
      → verify_from stringify sha256 prev es ≡ true
      → e.previous_hash ≡ hash_entry stringify sha256 e.content (last_from prev es)
      → (verify_from stringify sha256 prev (es ++ e ∷ []) ≡ true)
        × (last_from prev (es ++ e ∷ []) ≡ e.previous_hash)
  unfolding verify_from
  verify-append prev [] e h same = (
    ground (arith, same, eq_iff e.previous_hash (hash_entry stringify sha256 e.content prev)),
    refl,
  )
  verify-append prev (d ∷ es) e h same =
      elim (Bool-cases (str_eq d.previous_hash (hash_entry stringify sha256 d.content prev))) [
        | inl ok ↦
            let r = verify-append d.previous_hash es e (rw (ok) at h) same in (rw (ok) (r.0), r.1)
        | inr bad ↦ absurd (ground (arith, bad, h))
      ]

  trim-short : (es : List (AuditEntry C)) → length es ≤ max_entries → trim_entries es ≡ es
  trim-short es h =
      if_rule {A = List (AuditEntry C)} (λ l. l ≡ es) (ltb max_entries (length es))
        (λ long. absurd (ground (arith, long, h))) (λ short. refl)

  add-entries :
      (chain_id : String) (content : C) (chain : ChainState C)
      → length chain.entries < max_entries
      → (add_entry stringify sha256 chain_id content chain).entries
        ≡ chain.entries ++ next_entry stringify sha256 chain_id content chain ∷ []
  unfolding add_entry
  add-entries chain_id content chain short =
      trim-short (chain.entries ++ next_entry stringify sha256 chain_id content chain ∷ []) (
        omega (
          arith,
          short,
          length-append chain.entries (next_entry stringify sha256 chain_id content chain ∷ []),
        ))

  add-IsWhole :
      (chain_id : String) (content : C) (chain : ChainState C)
      → length chain.entries < max_entries
      → IsWhole chain
      → IsWhole (add_entry stringify sha256 chain_id content chain)
        × (length (add_entry stringify sha256 chain_id content chain).entries
            ≡ suc (length chain.entries))
  unfolding add_entry verify_audit_chain
  add-IsWhole chain_id content chain short w =
      let entry = next_entry stringify sha256 chain_id content chain in
      let e = add-entries chain_id content chain short in
      let r =
        verify-append zero_hash chain.entries entry w.verified
          (ap (hash_entry stringify sha256 content) w.last) in
      (
        record { verified = rw (e) (r.0); last = sym (ap (last_from zero_hash) e ∙ r.1) },
        ap length e ∙ omega (arith, length-append chain.entries (entry ∷ [])),
      )

  pub get_chain-create :
      (k j : String) (content : C) (chains : List (String × ChainState C))
      → get_chain k (create_audit_entry stringify sha256 j content chains) ≡ (
          if str_eq j k
          then add_entry stringify sha256 j content (get_chain k chains)
          else get_chain k chains)
  unfolding get_chain create_audit_entry
  get_chain-create k j content chains = elim (Bool-cases (str_eq j k)) [
    | inl same ↦
        let e = (eq_iff j k).0 same in
        rw
          (
            get-set j k (add_entry stringify sha256 j content (or_empty (Maps.get j chains)))
                chains,
            same,
          )
          (ap (λ x. add_entry stringify sha256 j content (or_empty (Maps.get x chains))) e)
    | inr other ↦
        rw
          (
            get-set j k (add_entry stringify sha256 j content (or_empty (Maps.get j chains)))
                chains,
            other,
          )
          refl
  ]

  run-IsWhole :
      (k : String) (es : List (String × C)) (chains : List (String × ChainState C))
      → length (get_chain k chains).entries + entries_of k es ≤ max_entries
      → IsWhole (get_chain k chains)
      → IsWhole (get_chain k (create_all stringify sha256 es chains))
        × (length (get_chain k (create_all stringify sha256 es chains)).entries
            ≡ length (get_chain k chains).entries + entries_of k es)
  unfolding create_all
  run-IsWhole k [] chains le w = (w, omega arith)
  run-IsWhole k ((j, c) ∷ es) chains le w =
      let next = create_audit_entry stringify sha256 j c chains in
      let g = get_chain-create k j c chains in
      elim (Bool-cases (str_eq j k)) [
        | inl same ↦
            let g' : get_chain k next ≡ add_entry stringify sha256 j c (get_chain k chains) =
              g ∙ (rw (same) refl) in
            let count : entries_of k ((j, c) ∷ es) ≡ suc (entries_of k es) = rw (same) refl in
            let a = add-IsWhole j c (get_chain k chains) (omega (arith, le, count)) w in
            let size : length (get_chain k next).entries
                ≡ suc (length (get_chain k chains).entries) =
              ap (λ x. length x.entries) g' ∙ a.1 in
            let r = run-IsWhole k es next (omega (arith, le, count, size)) (rw (g') (a.0)) in
            (r.0, omega (arith, r.1, count, size))
        | inr other ↦
            let g' : get_chain k next ≡ get_chain k chains = g ∙ (rw (other) refl) in
            let count : entries_of k ((j, c) ∷ es) ≡ entries_of k es = rw (other) refl in
            let size : length (get_chain k next).entries ≡ length (get_chain k chains).entries =
              ap (λ x. length x.entries) g' in
            let r = run-IsWhole k es next (omega (arith, le, count, size)) (rw (g') w) in
            (r.0, omega (arith, r.1, count, size))
      ]

  pub all-IsWhole :
      (k : String) (es : List (String × C))
      → entries_of k es ≤ max_entries
      → IsWhole (get_chain k (create_all stringify sha256 es []))
        × (length (get_chain k (create_all stringify sha256 es [])).entries ≡ entries_of k es)
  unfolding get_chain Maps.get verify_audit_chain verify_from
  all-IsWhole k es le =
      let r = run-IsWhole k es [] (omega (arith, le)) (record { verified = refl; last = refl }) in
      (r.0, omega (arith, r.1))

  -- As long as a chain was given at most 10,000 entries, it keeps all of them and verifies, however they
  -- are mixed with the entries of other chains.
  pub verify-create_all :
      (chain_id : String) (es : List (String × C))
      → entries_of chain_id es ≤ max_entries
      → (verify_audit_chain stringify sha256
            (get_chain chain_id (create_all stringify sha256 es [])).entries
          ≡ true)
        × (length (get_chain chain_id (create_all stringify sha256 es [])).entries
            ≡ entries_of chain_id es)
  verify-create_all chain_id es le = let r = all-IsWhole chain_id es le in (r.0.verified, r.1)
