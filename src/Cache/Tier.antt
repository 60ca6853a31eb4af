-- ===== src/Cache/Tier.antt =====
-- internal/common/types/business.go: the interface Cache, which BigCache and Redis stand behind.
-- A tier's state is abstract, and each operation gives the next one. A manager may have a nil tier.
use data_middleware.Prelude.{ℕ, ◌≡◌, ◌⊎◌, Bool, false, List, Option, none, some}

-- The sentinel errors, and any other error.
pub data CacheError : Type 0 where
  cache_miss cache_disabled other : CacheError

pub data Found : Type 0 where
  found : List ℕ → Found
  missed : CacheError → Found

pub record Cache (S : Type 0) : Type 0 where
  pub get : List ℕ → S → S × Found
  pub set : List ℕ → List ℕ → S → S × Option CacheError
  pub set_with_ttl : List ℕ → List ℕ → ℕ → S → S × Option CacheError
  pub delete : List ℕ → S → S × Option CacheError
  pub exists_key : List ℕ → S → Bool
  pub clear : S → S × Option CacheError

-- What the manager relies on. `cached s k` is the value that `s` has for `k`. An entry may
-- vanish at any time, a failed call may leave the old value, and no other key gains a value.
pub record IsCache {S : Type 0} (c : Cache S) (cached : S → List ℕ → Option (List ℕ)) : Type 0 where
  pub get_found : (k v : List ℕ) (s : S) → (c.get k s).1 ≡ found v → cached s k ≡ some v
  pub get_others : (k j v : List ℕ) (s : S) → cached (c.get k s).0 j ≡ some v → cached s j ≡ some v
  pub set_stored :
      (k v w : List ℕ) (s : S) → (c.set k v s).1 ≡ none → cached (c.set k v s).0 k ≡ some w → w ≡ v
  pub set_read :
      (k v j w : List ℕ) (s : S)
      → cached (c.set k v s).0 j ≡ some w
      → ((k ≡ j) × (w ≡ v)) ⊎ (cached s j ≡ some w)
  pub delete_removed :
      (k : List ℕ) (s : S) → (c.delete k s).1 ≡ none → cached (c.delete k s).0 k ≡ none
  pub delete_others :
      (k j w : List ℕ) (s : S) → cached (c.delete k s).0 j ≡ some w → cached s j ≡ some w
  pub cleared : (k : List ℕ) (s : S) → (c.clear s).1 ≡ none → cached (c.clear s).0 k ≡ none

-- The calls under `if m.l1 != nil` and `if m.l2 != nil`.
module _ {S : Type 0} (c : Cache S) where
  unfoldable pub tier_get : List ℕ → Option S → Option S × Found
  tier_get k none = (none, missed cache_miss)
  tier_get k (some s) = let r = c.get k s in (some r.0, r.1)

  unfoldable pub tier_set : List ℕ → List ℕ → Option S → Option S × Option CacheError
  tier_set k v none = (none, none)
  tier_set k v (some s) = let r = c.set k v s in (some r.0, r.1)

  unfoldable pub tier_set_with_ttl : List ℕ → List ℕ → ℕ → Option S → Option S × Option CacheError
  tier_set_with_ttl k v ttl none = (none, none)
  tier_set_with_ttl k v ttl (some s) = let r = c.set_with_ttl k v ttl s in (some r.0, r.1)

  unfoldable pub tier_delete : List ℕ → Option S → Option S × Option CacheError
  tier_delete k none = (none, none)
  tier_delete k (some s) = let r = c.delete k s in (some r.0, r.1)

  unfoldable pub tier_clear : Option S → Option S × Option CacheError
  tier_clear none = (none, none)
  tier_clear (some s) = let r = c.clear s in (some r.0, r.1)

  unfoldable pub tier_exists : List ℕ → Option S → Bool
  tier_exists k none = false
  tier_exists k (some s) = c.exists_key k s
