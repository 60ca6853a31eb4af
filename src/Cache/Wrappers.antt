-- ===== src/Cache/Wrappers.antt =====
-- internal/infrastructure/cache/local_cache.go and redis_cache.go: the caches behind the interface.
-- BigCache and the client of Redis are parameters with states of their own. A cache that is not
-- enabled has no library behind it: `none`.
use data_middleware.Prelude.{ℕ, Bool, true, false, List, Option, none, some, ltb}
use data_middleware.Cache.Tier.{
  Cache, CacheError, cache_miss, cache_disabled, other, Found, found, missed,
}

-- What a library's read gives: a value, its error for a missing entry, or another error.
pub data Entry : Type 0 where
  entry : List ℕ → Entry
  entry_not_found entry_error : Entry

-- The errors of the others are errors or not.
pub record BigCache (S : Type 0) : Type 0 where
  pub big_get : List ℕ → S → S × Entry
  pub big_set : List ℕ → List ℕ → S → S × Bool
  pub big_delete : List ℕ → S → S × Bool
  pub big_reset : S → S × Bool

-- A lifetime of 0 has no end. `exists` counts keys, if it can.
pub record RedisClient (S : Type 0) : Type 0 where
  pub redis_get : List ℕ → S → S × Entry
  pub redis_set : List ℕ → List ℕ → ℕ → S → S × Bool
  pub redis_del : List ℕ → S → S × Bool
  pub redis_exists : List ℕ → S → Option ℕ
  pub redis_flush_db : S → S × Bool

-- `return err`
abbrev pub returned : {S : Type 0} → S × Bool → Option S × Option CacheError
returned (s, false) = (some s, none)
returned (s, true) = (some s, some other)

-- The value, or the error that stands for the library's.
abbrev pub answered : {S : Type 0} → S × Entry → Option S × Found
answered (s, entry v) = (some s, found v)
answered (s, entry_not_found) = (some s, missed cache_miss)
answered (s, entry_error) = (some s, missed other)

-- `if c.cache == nil { return disabled }`, and the call of the library.
abbrev pub unless_disabled : {S X : Type 0} → X → (S → Option S × X) → Option S → Option S × X
unless_disabled disabled f none = (none, disabled)
unless_disabled disabled f (some s) = f s

module _ {S : Type 0} (big : BigCache S) where
  unfoldable pub local_get : List ℕ → Option S → Option S × Found
  local_get k = unless_disabled (missed cache_disabled) (λ s. answered (big.big_get k s))

  unfoldable pub local_set : List ℕ → List ℕ → Option S → Option S × Option CacheError
  local_set k v = unless_disabled (some cache_disabled) (λ s. returned (big.big_set k v s))

  unfoldable pub local_set_with_ttl : List ℕ → List ℕ → ℕ → Option S → Option S × Option CacheError
  local_set_with_ttl k v ttl =
      unless_disabled (some cache_disabled) (λ s. returned (big.big_set k v s))

  unfoldable pub local_delete : List ℕ → Option S → Option S × Option CacheError
  local_delete k = unless_disabled (some cache_disabled) (λ s. returned (big.big_delete k s))

  -- `err != bigcache.ErrEntryNotFound`
  unfoldable pub local_exists : List ℕ → Option S → Bool
  local_exists k none = false
  local_exists k (some s) = elim ((big.big_get k s).1) [
    | entry v ↦ true
    | entry_not_found ↦ false
    | entry_error ↦ true
  ]

  unfoldable pub local_clear : Option S → Option S × Option CacheError
  local_clear = unless_disabled (some cache_disabled) (λ s. returned (big.big_reset s))

  abbrev pub local_cache : Cache (Option S)
  local_cache = record {
    get = local_get;
    set = local_set;
    set_with_ttl = local_set_with_ttl;
    delete = local_delete;
    exists_key = local_exists;
    clear = local_clear;
  }

module _ {S : Type 0} (client : RedisClient S) where
  unfoldable pub redis_cache_get : List ℕ → Option S → Option S × Found
  redis_cache_get k = unless_disabled (missed cache_disabled) (λ s. answered (client.redis_get k s))

  unfoldable pub redis_cache_set : List ℕ → List ℕ → Option S → Option S × Option CacheError
  redis_cache_set k v =
      unless_disabled (some cache_disabled) (λ s. returned (client.redis_set k v 0 s))

  unfoldable pub redis_cache_set_with_ttl :
      List ℕ → List ℕ → ℕ → Option S → Option S × Option CacheError
  redis_cache_set_with_ttl k v ttl =
      unless_disabled (some cache_disabled) (λ s. returned (client.redis_set k v ttl s))

  unfoldable pub redis_cache_delete : List ℕ → Option S → Option S × Option CacheError
  redis_cache_delete k =
      unless_disabled (some cache_disabled) (λ s. returned (client.redis_del k s))

  unfoldable pub redis_cache_exists : List ℕ → Option S → Bool
  redis_cache_exists k none = false
  redis_cache_exists k (some s) = elim (client.redis_exists k s) [
    | none ↦ false
    | some count ↦ ltb 0 count
  ]

  unfoldable pub redis_cache_clear : Option S → Option S × Option CacheError
  redis_cache_clear =
      unless_disabled (some cache_disabled) (λ s. returned (client.redis_flush_db s))

  abbrev pub redis_cache : Cache (Option S)
  redis_cache = record {
    get = redis_cache_get;
    set = redis_cache_set;
    set_with_ttl = redis_cache_set_with_ttl;
    delete = redis_cache_delete;
    exists_key = redis_cache_exists;
    clear = redis_cache_clear;
  }
