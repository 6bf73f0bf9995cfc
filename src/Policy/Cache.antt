-- ===== src/Policy/Cache.antt =====
-- policy-plane/src/service.ts: the class `LRUCache` of policy decisions. The store is a `Map`, so its
-- first key is the one inserted first. `Date.now()` is the argument `now`. The interval timer is only
-- a flag here: what it calls is `evict_expired`.
pub mod Laws
use the_kubernetes_of_ai_age.Common.{
  ℕ, ◌+◌, String, Bool, true, false, Option, none, some, List, [], ◌∷◌, if◌then◌else◌, ltb, leb,
  length, keep, not,
}
use the_kubernetes_of_ai_age.Common.Maps

-- `CacheEntry`, over any type of decisions.
pub record CacheEntry (D : Type 0) : Type 0 where
  pub decision : D
  pub expires_at : ℕ

pub record LruCache (D : Type 0) : Type 0 where
  pub store : List (String × CacheEntry D)
  pub max_size : ℕ
  pub ttl_ms : ℕ
  pub cleanup_timer : Bool

module _ {D : Type 0} where
  unfoldable pub new : ℕ → ℕ → LruCache D
  new max_size ttl_ms = record {
    store = [];
    max_size = max_size;
    ttl_ms = ttl_ms;
    cleanup_timer = true;
  }

  -- The lookup of `get` is done by the caller's `elim` on the entry, which a read past its time deletes.
  unfoldable pub get : ℕ → String → LruCache D → LruCache D × Option D
  get now key c = elim (Maps.get key c.store) [
    | none ↦ (c, none)
    | some entry ↦
        if ltb entry.expires_at now
        then (record c { store = Maps.delete key c.store }, none)
        else (c, some entry.decision)
  ]

  -- The store after `set` has made room: at its limit it loses its oldest key.
  unfoldable pub make_room : LruCache D → List (String × CacheEntry D)
  make_room c =
      if leb c.max_size (length c.store)
      then elim (Maps.first_key c.store) [
        | none ↦ c.store
        | some oldest_key ↦ Maps.delete oldest_key c.store
      ]
      else c.store

  unfoldable pub set : ℕ → String → D → LruCache D → LruCache D
  unfolding make_room
  set now key decision c = record c {
    store =
        Maps.set key (record { decision = decision; expires_at = now + c.ttl_ms }) (make_room c);
  }

  -- The loop deletes each entry whose time is past; keys are distinct, so that is a filter.
  unfoldable pub evict_expired : ℕ → LruCache D → LruCache D
  evict_expired now c = record c { store = keep (λ e. not (ltb e.1.expires_at now)) c.store }

  unfoldable pub dispose : LruCache D → LruCache D
  dispose c = record c { store = []; cleanup_timer = false }

  unfoldable pub size : LruCache D → ℕ
  size c = length c.store
