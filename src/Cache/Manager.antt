-- ===== src/Cache/Manager.antt =====
-- internal/infrastructure/cache/manager.go: Manager, over any two tiers. The errors of a tier
-- are logged and dropped, so every call that writes reports success. The entries of Preload come
-- in the order of Go's iteration, which is arbitrary: the list may be in any order.
pub mod Coherence
use data_middleware.Prelude.{ℕ, Bool, true, List, [], ◌∷◌, Option, none, if◌then◌else◌}
use data_middleware.Cache.Tier.{
  Cache, CacheError, Found, found, missed, cache_miss, tier_get, tier_set, tier_set_with_ttl,
  tier_delete, tier_clear, tier_exists,
}

pub record Manager (S T : Type 0) : Type 0 where
  pub l1 : Option S
  pub l2 : Option T

module _ {S T : Type 0} (c : Cache S) (d : Cache T) where
  -- `Get` where L1 does not answer, from what L2 answers.
  abbrev pub get_l2 : List ℕ → Option S → Option T × Found → Manager S T × Found
  get_l2 k l1 (l2, found v) = (record { l1 = (tier_set c k v l1).0; l2 = l2 }, found v)
  get_l2 k l1 (l2, missed e) = (record { l1 = l1; l2 = l2 }, missed cache_miss)

  -- `Get`, from what L1 answers.
  abbrev pub get_l1 : List ℕ → Option T → Option S × Found → Manager S T × Found
  get_l1 k l2 (l1, found v) = (record { l1 = l1; l2 = l2 }, found v)
  get_l1 k l2 (l1, missed e) = get_l2 k l1 (tier_get d k l2)

  unfoldable pub get : List ℕ → Manager S T → Manager S T × Found
  get k m = get_l1 k m.l2 (tier_get c k m.l1)

  unfoldable pub set : List ℕ → List ℕ → Manager S T → Manager S T × Option CacheError
  set k v m = (record { l1 = (tier_set c k v m.l1).0; l2 = (tier_set d k v m.l2).0 }, none)

  unfoldable pub set_with_ttl : List ℕ → List ℕ → ℕ → Manager S T → Manager S T × Option CacheError
  set_with_ttl k v ttl m = (
    record { l1 = (tier_set_with_ttl c k v ttl m.l1).0; l2 = (tier_set_with_ttl d k v ttl m.l2).0 },
    none,
  )

  unfoldable pub delete : List ℕ → Manager S T → Manager S T × Option CacheError
  delete k m = (record { l1 = (tier_delete c k m.l1).0; l2 = (tier_delete d k m.l2).0 }, none)

  unfoldable pub exists_key : List ℕ → Manager S T → Bool
  exists_key k m = if tier_exists c k m.l1 then true else tier_exists d k m.l2

  unfoldable pub clear : Manager S T → Manager S T × Option CacheError
  clear m = (record { l1 = (tier_clear c m.l1).0; l2 = (tier_clear d m.l2).0 }, none)

  unfoldable pub preload : List (List ℕ × List ℕ) → Manager S T → Manager S T × Option CacheError
  preload [] m = (m, none)
  preload ((k, v) ∷ data_) m = preload data_ (set k v m).0

  unfoldable pub batch_invalidate : List (List ℕ) → Manager S T → Manager S T × Option CacheError
  batch_invalidate [] m = (m, none)
  batch_invalidate (k ∷ keys) m = batch_invalidate keys (delete k m).0
