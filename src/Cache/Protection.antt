-- ===== src/Cache/Protection.antt =====
-- internal/infrastructure/cache/protection.go: PenetrationProtection, AvalancheProtection,
-- CacheMonitor and Protection, which puts them before the Manager. Times and durations are in
-- nanoseconds. The clock is an argument, and one reading stands for all those of a call. `none` for a failure time is Go's zero time, which
-- is further in the past than any duration. The failure rate is over one half exactly when twice
-- the failures are more than the requests, for counters under 2 ^ 53, which float64 holds.
pub mod Window
pub mod Breaker
pub mod Slow
use data_middleware.Prelude.{
  ℕ, ◌+◌, ◌-◌, ◌*◌, ◌/◌, Bool, true, false, not, ◌&&◌, List, [], ◌∷◌, ◌++◌, length, drop, ltb, leb,
  Option, none, some, if◌then◌else◌, string_eq,
}
use data_middleware.Prelude.Assoc.{lookup, insert, delete}
use data_middleware.Cache.Tier.{
  Cache, CacheError, Found, found, missed, cache_miss, cache_disabled, other,
}
use data_middleware.Cache.Manager
use data_middleware.Cache.Manager.{Manager}

pub record PenetrationProtection : Type 0 where
  pub blocked_keys : List (List ℕ × ℕ)
  pub block_duration : ℕ
  pub max_blocked_keys : ℕ

unfoldable pub new_penetration_protection : PenetrationProtection
new_penetration_protection = record {
  blocked_keys = [];
  block_duration = 300000000000;
  max_blocked_keys = 10000;
}

unfoldable pub is_blocked_key : ℕ → List ℕ → PenetrationProtection → PenetrationProtection × Bool
is_blocked_key now key p = elim (lookup key p.blocked_keys) [
  | none ↦ (p, false)
  | some block_time ↦
      if ltb p.block_duration (now - block_time)
      then (record p { blocked_keys = delete key p.blocked_keys }, false)
      else (p, true)
]

unfoldable pub record_miss : ℕ → List ℕ → PenetrationProtection → PenetrationProtection
record_miss now key p =
    if leb p.max_blocked_keys (length p.blocked_keys)
    then p
    else record p { blocked_keys = insert key now p.blocked_keys }

unfoldable pub clear_blocked_key : List ℕ → PenetrationProtection → PenetrationProtection
clear_blocked_key key p = record p { blocked_keys = delete key p.blocked_keys }

valid_keys : ℕ → ℕ → List (List ℕ × ℕ) → List (List ℕ × ℕ)
valid_keys now duration [] = []
valid_keys now duration ((key, block_time) ∷ m) =
    if leb (now - block_time) duration
    then (key, block_time) ∷ valid_keys now duration m
    else valid_keys now duration m

-- `GetStats`: the number of keys that are still blocked, with the others deleted.
unfoldable pub penetration_stats : ℕ → PenetrationProtection → PenetrationProtection × ℕ
unfolding valid_keys
penetration_stats now p =
    let keys = valid_keys now p.block_duration p.blocked_keys in
    (record p { blocked_keys = keys }, length keys)

pub record AvalancheProtection : Type 0 where
  pub total_requests : ℕ
  pub failed_requests : ℕ
  pub last_failure_time : Option ℕ
  pub min_requests : ℕ
  pub block_duration : ℕ

unfoldable pub new_avalanche_protection : AvalancheProtection
new_avalanche_protection = record {
  total_requests = 0;
  failed_requests = 0;
  last_failure_time = none;
  min_requests = 10;
  block_duration = 60000000000;
}

-- `time.Since(t) < duration`
abbrev pub is_within : ℕ → ℕ → Option ℕ → Bool
is_within now duration none = false
is_within now duration (some t) = ltb (now - t) duration

unfoldable pub should_block : ℕ → AvalancheProtection → Bool
should_block now p =
    if is_within now p.block_duration p.last_failure_time
    then true
    else if ltb p.total_requests p.min_requests
    then false
    else ltb p.total_requests (2 * p.failed_requests)

unfoldable pub record_success : AvalancheProtection → AvalancheProtection
record_success p =
    if ltb 0 p.failed_requests
    then record p {
      total_requests = p.total_requests + 1;
      failed_requests = 0;
      last_failure_time = none;
    }
    else record p { total_requests = p.total_requests + 1 }

unfoldable pub record_failure : ℕ → AvalancheProtection → AvalancheProtection
record_failure now p = record p {
  total_requests = p.total_requests + 1;
  failed_requests = p.failed_requests + 1;
  last_failure_time = some now;
}

pub data Operation : Type 0 where
  gets sets : Operation

pub record SlowQuery : Type 0 where
  pub key : List ℕ
  pub operation : Operation
  pub duration : ℕ
  pub time : ℕ

pub record CacheMonitor : Type 0 where
  pub get_count : ℕ
  pub set_count : ℕ
  pub hit_count : ℕ
  pub miss_count : ℕ
  pub total_get_time : ℕ
  pub total_set_time : ℕ
  pub errors : ℕ
  pub slow_queries : List SlowQuery

unfoldable pub new_cache_monitor : CacheMonitor
new_cache_monitor = record {
  get_count = 0;
  set_count = 0;
  hit_count = 0;
  miss_count = 0;
  total_get_time = 0;
  total_set_time = 0;
  errors = 0;
  slow_queries = [];
}

unfoldable pub record_slow_query : Operation → List ℕ → ℕ → ℕ → CacheMonitor → CacheMonitor
record_slow_query operation key duration now m =
    let query : SlowQuery = record {
      key = key;
      operation = operation;
      duration = duration;
      time = now;
    } in
    let queries = m.slow_queries ++ (query ∷ []) in
    record m { slow_queries = if ltb 100 (length queries) then drop 1 queries else queries }

unfoldable pub record_get : List ℕ → ℕ → ℕ → CacheMonitor → CacheMonitor
record_get key duration now m =
    let n = record m {
      get_count = m.get_count + 1;
      total_get_time = m.total_get_time + duration;
    } in
    if ltb 100000000 duration then record_slow_query gets key duration now n else n

unfoldable pub record_set : List ℕ → ℕ → ℕ → CacheMonitor → CacheMonitor
record_set key duration now m =
    let n = record m {
      set_count = m.set_count + 1;
      total_set_time = m.total_set_time + duration;
    } in
    if ltb 50000000 duration then record_slow_query sets key duration now n else n

-- The integer fields of `GetStats`: the two averages and the number of slow queries.
abbrev pub average : ℕ → ℕ → ℕ
average total count = if ltb 0 count then total / count else 0

abbrev pub monitor_stats : CacheMonitor → ℕ × ℕ × ℕ
monitor_stats m = (
  average m.total_get_time m.get_count,
  average m.total_set_time m.set_count,
  length m.slow_queries,
)

pub record Protection (S T : Type 0) : Type 0 where
  pub manager : Manager S T
  pub penetration : PenetrationProtection
  pub avalanche : AvalancheProtection
  pub monitor : CacheMonitor

abbrev pub new_protection : {S T : Type 0} → Manager S T → Protection S T
new_protection m = record {
  manager = m;
  penetration = new_penetration_protection;
  avalanche = new_avalanche_protection;
  monitor = new_cache_monitor;
}

-- What `GetWithProtection` returns: a value, ErrCacheMiss, or the error of the open breaker.
pub data Answer : Type 0 where
  value : List ℕ → Answer
  miss broken : Answer

module _ {S T : Type 0} (c : Cache S) (d : Cache T) where
  -- The last part of `GetWithProtection`, from what `Manager.Get` returns; its only error is
  -- ErrCacheMiss.
  abbrev pub after_get : ℕ → List ℕ → Protection S T → Manager S T × Found → Protection S T × Answer
  after_get now key p (m, found v) =
      (record p { manager = m; avalanche = record_success p.avalanche }, value v)
  after_get now key p (m, missed cache_miss) =
      (record p { manager = m; penetration = record_miss now key p.penetration }, miss)
  after_get now key p (m, missed cache_disabled) = (record p { manager = m }, miss)
  after_get now key p (m, missed other) = (record p { manager = m }, miss)

  -- `GetWithProtection`, called at `now` and returning `duration` later.
  unfoldable pub get_with_protection : ℕ → ℕ → List ℕ → Protection S T → Protection S T × Answer
  get_with_protection now duration key p =
      let blocked = is_blocked_key now key p.penetration in
      let q = record p { penetration = blocked.0 } in
      let result =
        if blocked.1
        then (q, miss)
        else if should_block now q.avalanche
        then (q, broken)
        else after_get now key q (Manager.get c d key q.manager) in
      (
        record result.0 { monitor = record_get key duration (now + duration) result.0.monitor },
        result.1,
      )

  unfoldable pub set_with_protection :
      ℕ → ℕ → List ℕ → List ℕ → Protection S T → Protection S T × Option CacheError
  set_with_protection now duration key v p =
      let result = Manager.set c d key v p.manager in
      (
        record p {
          penetration = clear_blocked_key key p.penetration;
          manager = result.0;
          monitor = record_set key duration (now + duration) p.monitor;
        },
        result.1,
      )
