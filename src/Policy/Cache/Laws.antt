-- ===== src/Policy/Cache/Laws.antt =====
-- What the decision cache keeps: its bound, its freshness, what a write does to other keys.
use the_kubernetes_of_ai_age.Common.{
  ℕ, ◌+◌, ◌≤◌, ◌<◌, ◌≡◌, refl, String, Bool, false, Option, none, some, List, [], ◌∷◌, arith,
  length, if◌then◌else◌, ltb, leb, str_eq, length-keep-le, not, Bool-cases, Option-cases, ◌&&◌, inl,
  inr,
}
use the_kubernetes_of_ai_age.Common.Maps
use the_kubernetes_of_ai_age.Common.Maps.Distinct.{
  IsDistinct, set-IsDistinct, delete-IsDistinct, keep-IsDistinct, get-keep,
}
use the_kubernetes_of_ai_age.Policy.Cache.{
  CacheEntry, LruCache, new, get, make_room, set, evict_expired, dispose, size,
}

pub data Op (D : Type 0) : Type 0 where
  read : ℕ → String → Op D
  write : ℕ → String → D → Op D
  tick : ℕ → Op D
  close : Op D

module _ {D : Type 0} where
  unfoldable pub apply : LruCache D → Op D → LruCache D
  apply c (read now key) = (get now key c).0
  apply c (write now key d) = set now key d c
  apply c (tick now) = evict_expired now c
  apply c close = dispose c

  unfoldable pub run : LruCache D → List (Op D) → LruCache D
  run c [] = c
  run c (o ∷ os) = run (apply c o) os

  abbrev IsBounded : ℕ → LruCache D → Type 0
  IsBounded most c = (c.max_size ≡ most) × (size c ≤ most)

  length-make_room :
      (c : LruCache D) → 0 < c.max_size → size c ≤ c.max_size → length (make_room c) < c.max_size
  unfolding make_room size Maps.first_key
  length-make_room c p h =
      elim c.store
          as (λ s.
            length s ≤ c.max_size → length (make_room (record c { store = s })) < c.max_size) [
              | [] ↦ λ k. ground arith
              | e ∷ es ↦ λ k. ground (arith, Maps.length-delete_first e.0 (e ∷ es) refl)
            ]
        h

  apply-IsBounded :
      (most : ℕ) (c : LruCache D) (o : Op D)
      → 0 < most
      → IsBounded most c
      → IsBounded most (apply c o)
  unfolding apply get set evict_expired dispose size
  apply-IsBounded most c (read now key) p h = ground (arith, Maps.length-delete-le key c.store)
  apply-IsBounded most c (write now key d) p h = omega (
    arith,
    Maps.length-set-le key (record { decision = d; expires_at = now + c.ttl_ms }) (make_room c),
    length-make_room c,
  )
  apply-IsBounded most c (tick now) p h =
      omega (arith, length-keep-le (λ e. not (ltb e.1.expires_at now)) c.store)
  apply-IsBounded most c close p h = (h.0, omega arith)

  run-IsBounded :
      (most : ℕ) (c : LruCache D) (os : List (Op D))
      → 0 < most
      → IsBounded most c
      → IsBounded most (run c os)
  unfolding run
  run-IsBounded most c [] p h = h
  run-IsBounded most c (o ∷ os) p h =
      run-IsBounded most (apply c o) os p (apply-IsBounded most c o p h)

  apply-IsDistinct : (c : LruCache D) (o : Op D) → IsDistinct c.store → IsDistinct (apply c o).store
  unfolding apply get set make_room evict_expired dispose
  apply-IsDistinct c (read now key) h = ground (arith, delete-IsDistinct key c.store)
  apply-IsDistinct c (write now key d) h =
      set-IsDistinct key _ _ (elim (Bool-cases (leb c.max_size (length c.store))) [
        | inl full ↦ rw full (elim (Option-cases (Maps.first_key c.store)) [
          | inl e ↦ rw e h
          | inr (k, e) ↦ rw e (delete-IsDistinct k c.store h)
        ])
        | inr room ↦ rw room h
      ])
  apply-IsDistinct c (tick now) h = keep-IsDistinct (λ e. not (ltb e.expires_at now)) c.store h
  apply-IsDistinct c close h = tt

  run-IsDistinct :
      (c : LruCache D) (os : List (Op D)) → IsDistinct c.store → IsDistinct (run c os).store
  unfolding run
  run-IsDistinct c [] h = h
  run-IsDistinct c (o ∷ os) h = run-IsDistinct (apply c o) os (apply-IsDistinct c o h)

  -- Whatever is read, written, cleaned or disposed, in any order, a cache made for a positive number
  -- of entries never holds more than that.
  size-run-le : (most ttl : ℕ) (os : List (Op D)) → 0 < most → size (run (new most ttl) os) ≤ most
  unfolding new size
  size-run-le most ttl os p = (run-IsBounded most (new most ttl) os p (refl, omega arith)).1

  -- Is the key the oldest one of a cache that is at its limit?
  abbrev pub is_victim : String → LruCache D → Bool
  is_victim j c = elim (Maps.first_key c.store) [
    | none ↦ false
    | some k ↦ leb c.max_size (size c) && str_eq k j
  ]

  get-make_room :
      (j : String) (c : LruCache D)
      → Maps.get j (make_room c) ≡ (if is_victim j c then none else Maps.get j c.store)
  unfolding make_room size
  get-make_room j c = elim (Option-cases (Maps.first_key c.store)) [
    | inl e ↦ ground arith
    | inr (k, e) ↦ ground (arith, Maps.get-delete k j c.store)
  ]

  abbrev answer : ℕ → Option (CacheEntry D) → Option D
  answer now none = none
  answer now (some e) = if ltb e.expires_at now then none else some e.decision

  get-answer :
      (now : ℕ) (key : String) (c : LruCache D)
      → (get now key c).1 ≡ answer now (Maps.get key c.store)
  unfolding get
  get-answer now key c = ground arith

  -- A read of `j` after a write of `k`: the key written gives the decision until its time has passed;
  -- of the other keys, the oldest of a cache at its limit is lost, and every other reads as before.
  pub get-set :
      (now t : ℕ) (j k : String) (d : D) (c : LruCache D)
      → (get now j (set t k d c)).1 ≡ (
          if str_eq k j
          then if ltb (t + c.ttl_ms) now then none else some d
          else if is_victim j c
          then none
          else (get now j c).1)
  unfolding set
  get-set now t j k d c = ground (
    arith,
    get-answer now j (set t k d c),
    get-answer now j c,
    Maps.get-set k j (record { decision = d; expires_at = t + c.ttl_ms }) (make_room c),
    get-make_room j c,
  )

  -- After any sequence of operations, a cleaning at `t` changes no answer to a read at that time or
  -- later.
  get-evict_expired :
      (most ttl t now : ℕ) (key : String) (os : List (Op D))
      → t ≤ now
      → let c = run (new most ttl) os in (get now key (evict_expired t c)).1 ≡ (get now key c).1
  unfolding evict_expired
  get-evict_expired most ttl t now key os h =
      let c = run (new most ttl) os in
      ground (
        arith,
        get-answer now key (evict_expired t c),
        get-answer now key c,
        get-keep (λ e. not (ltb e.expires_at t)) key c.store
            (run-IsDistinct (new most ttl) os (unfold new in tt)),
      )
