-- ===== src/Shared/Audit/Tampering.antt =====
-- packages/shared/src/audit/index.ts: what a chain that verifies proves, where no two inputs have one
-- hash.
use the_kubernetes_of_ai_age.Common.{
  ℕ, zero, suc, ◌<◌, String, true, false, List, [], ◌∷◌, ◌++◌, ◌≡◌, ◌≢◌, refl, sym, ◌∙◌, ap, arith,
  Bool-cases, inl, inr, ltb, str_eq, eq_iff, eq_refl, if_rule, length, length-append, drop,
}
use the_kubernetes_of_ai_age.Shared.Audit.{
  AuditEntry, ChainState, zero_hash, max_entries, get_chain, trim_entries, hash_entry, next_entry,
  add_entry, create_audit_entry, verify_from, verify_audit_chain, create_all,
}
use the_kubernetes_of_ai_age.Shared.Audit.Chains.{
  entries_of, last_from, IsWhole, verify-append, all-IsWhole, get_chain-create,
}

-- The contents of entries, the newest first, before those of `acc`.
abbrev pub newest_first : {C : Type 0} → List C → List (AuditEntry C) → List C
newest_first acc [] = acc
newest_first acc (e ∷ es) = newest_first (e.content ∷ acc) es

module _ {C : Type 0} (stringify : C → String) (sha256 : String → String) where
  -- No two entries on top of two hashes have one hash, and none has the hash of an empty chain.
  pub record IsCollisionFree : Type 0 where
    pub injective :
        (c d : C) (p q : String)
        → hash_entry stringify sha256 c p ≡ hash_entry stringify sha256 d q
        → (c ≡ d) × (p ≡ q)
    pub nonzero : (c : C) (p : String) → hash_entry stringify sha256 c p ≢ zero_hash

  -- The hash of a chain with these contents, the newest first.
  total : List C → String
  total [] = zero_hash
  total (c ∷ cs) = hash_entry stringify sha256 c (total cs)

  total-injective : IsCollisionFree → (cs ds : List C) → total cs ≡ total ds → cs ≡ ds
  unfolding total
  total-injective free [] [] e = refl
  total-injective free [] (d ∷ ds) e = absurd (free.nonzero d (total ds) (sym e))
  total-injective free (c ∷ cs) [] e = absurd (free.nonzero c (total cs) e)
  total-injective free (c ∷ cs) (d ∷ ds) e =
      let h = free.injective c d (total cs) (total ds) e in
      let t = total-injective free cs ds h.1 in λ i. h.0 i ∷ t i

  head_hash :
      (prev : String) (e : AuditEntry C) (es : List (AuditEntry C))
      → verify_from stringify sha256 prev (e ∷ es) ≡ true
      → (e.previous_hash ≡ hash_entry stringify sha256 e.content prev)
        × (verify_from stringify sha256 e.previous_hash es ≡ true)
  unfolding verify_from
  head_hash prev e es h =
      elim (Bool-cases (str_eq e.previous_hash (hash_entry stringify sha256 e.content prev))) [
        | inl ok ↦ (
          (eq_iff e.previous_hash (hash_entry stringify sha256 e.content prev)).0 ok,
          rw (ok) at h,
        )
        | inr bad ↦ absurd (ground (arith, bad, h))
      ]

  last-total :
      (acc : List C) (prev : String) (es : List (AuditEntry C))
      → prev ≡ total acc
      → verify_from stringify sha256 prev es ≡ true
      → last_from stringify sha256 prev es ≡ total (newest_first acc es)
  unfolding total
  last-total acc prev [] e h = e
  last-total acc prev (d ∷ es) e h =
      let v = head_hash prev d es h in
      last-total (d.content ∷ acc) d.previous_hash es
        (v.0 ∙ ap (hash_entry stringify sha256 d.content) e) v.1

  -- Two chains that verify and end with the same hash have the same contents in the same order, so that
  -- no entry can be changed, added, removed or moved without changing the last hash, where no two inputs
  -- have one hash.
  pub verified-same_last :
      IsCollisionFree
      → (es ds : List (AuditEntry C)) → verify_audit_chain stringify sha256 es ≡ true
      → verify_audit_chain stringify sha256 ds ≡ true
      → last_from stringify sha256 zero_hash es ≡ last_from stringify sha256 zero_hash ds
      → newest_first [] es ≡ newest_first [] ds
  unfolding verify_audit_chain total
  verified-same_last free es ds v w same =
      total-injective free (newest_first [] es) (newest_first [] ds)
        (sym (last-total [] zero_hash es refl v) ∙ same ∙ last-total [] zero_hash ds refl w)

  -- What follows an entry does not verify by itself.
  verify-drop :
      IsCollisionFree
      → (n : ℕ) (prev : String) (es : List (AuditEntry C)) → n < length es
      → prev ≢ zero_hash
      → verify_from stringify sha256 prev es ≡ true
      → verify_from stringify sha256 zero_hash (drop n es) ≡ false
  unfolding verify_from
  verify-drop free n prev [] lt ne v = absurd (omega (arith, lt))
  verify-drop free zero prev (e ∷ es) lt ne v =
      let h = head_hash prev e es v in
      elim (Bool-cases (str_eq e.previous_hash (hash_entry stringify sha256 e.content zero_hash))) [
        | inl ok ↦
            let k =
              (eq_iff e.previous_hash (hash_entry stringify sha256 e.content zero_hash)).0 ok in
            absurd (ne (free.injective e.content e.content prev zero_hash (sym h.0 ∙ k)).1)
        | inr bad ↦ rw (bad) refl
      ]
  verify-drop free (suc n) prev (e ∷ es) lt ne v =
      let h = head_hash prev e es v in
      verify-drop free n e.previous_hash es (omega (arith, lt))
        (λ z. free.nonzero e.content prev (sym h.0 ∙ z)) h.1

  drop_first :
      IsCollisionFree
      → (es : List (AuditEntry C)) → 1 < length es
      → verify_audit_chain stringify sha256 es ≡ true
      → verify_audit_chain stringify sha256 (drop 1 es) ≡ false
  unfolding verify_audit_chain
  drop_first free [] lt v = absurd (omega (arith, lt))
  drop_first free (e ∷ es) lt v =
      let h = head_hash zero_hash e es v in
      verify-drop free 0 e.previous_hash es (omega (arith, lt))
        (λ z. free.nonzero e.content zero_hash (sym h.0 ∙ z)) h.1

  trim-full : (es : List (AuditEntry C)) → length es ≡ suc max_entries → trim_entries es ≡ drop 1 es
  trim-full es h =
      if_rule {A = List (AuditEntry C)} (λ l. l ≡ drop 1 es) (ltb max_entries (length es))
        (λ long. ap (λ n. drop n es) {y = 1} (omega (arith, h)))
        (λ short. absurd (ground (arith, short, h)))

  add-full :
      IsCollisionFree
      → (chain_id : String) (content : C) (chain : ChainState C)
      → length chain.entries ≡ max_entries
      → IsWhole stringify sha256 chain
      → verify_audit_chain stringify sha256
          (add_entry stringify sha256 chain_id content chain).entries
        ≡ false
  unfolding add_entry verify_audit_chain
  add-full free chain_id content chain full w =
      let entry = next_entry stringify sha256 chain_id content chain in
      let size : length (chain.entries ++ entry ∷ []) ≡ suc max_entries =
        omega (arith, full, length-append chain.entries (entry ∷ [])) in
      let r =
        verify-append stringify sha256 zero_hash chain.entries entry w.verified
          (ap (hash_entry stringify sha256 content) w.last) in
      rw (trim-full (chain.entries ++ entry ∷ []) size)
        (drop_first free (chain.entries ++ entry ∷ []) (omega (arith, size)) r.0)

  -- The entry after the 10,000th of a chain drops its first, and the chain that is kept does not verify
  -- any more, where no two inputs have one hash.
  pub verify-create_audit_entry-full :
      IsCollisionFree
      → (chain_id : String) (content : C) (es : List (String × C))
      → entries_of chain_id es ≡ max_entries
      → verify_audit_chain stringify sha256
          (get_chain chain_id (
            create_audit_entry stringify sha256 chain_id content
              (create_all stringify sha256 es []))).entries
        ≡ false
  verify-create_audit_entry-full free chain_id content es full =
      let chains = create_all stringify sha256 es [] in
      let w = all-IsWhole stringify sha256 chain_id es (omega (arith, full)) in
      let f = add-full free chain_id content (get_chain chain_id chains) (w.1 ∙ full) w.0 in
      rw (get_chain-create stringify sha256 chain_id chain_id content chains, eq_refl chain_id) f
