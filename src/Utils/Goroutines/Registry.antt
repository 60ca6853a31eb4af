-- ===== src/Utils/Goroutines/Registry.antt =====
-- goroutine_pool.go: AdaptiveGoroutinePool. A pool is changed in place, so the map that holds its
-- pointer has the new state.
pub mod Live
pub mod Steps
pub mod Answers
use data_middleware.Prelude.{
  ℕ, Bool, true, false, List, [], ◌∷◌, Option, none, some, map, string_eq,
}
use data_middleware.Prelude.Assoc.{lookup, insert, delete}
use data_middleware.Utils.Goroutines.{
  Ants, GoroutinePool, GoroutinePoolConfig, GoroutinePoolStats, new_goroutine_pool, submit,
  get_stats, tune_capacity, close,
}

pub record AdaptiveGoroutinePool (P : Type 0) : Type 0 where
  pub pools : List (List ℕ × GoroutinePool P)
  pub configs : List (List ℕ × GoroutinePoolConfig)

abbrev pub new_adaptive_goroutine_pool : {P : Type 0} → AdaptiveGoroutinePool P
new_adaptive_goroutine_pool = record { pools = []; configs = [] }

pub data Outcome : Type 0 where
  success already_registered not_created not_registered refused : Outcome

abbrev pub outcome_of : Bool → Outcome
outcome_of true = success
outcome_of false = refused

module _ {P : Type 0} where
  abbrev pub with_entry :
      List ℕ → GoroutinePool P → AdaptiveGoroutinePool P → AdaptiveGoroutinePool P
  with_entry name gp a = record a { pools = insert name gp a.pools }

  -- The end of RegisterPool.
  abbrev pub registered :
      List ℕ
      → GoroutinePoolConfig
      → AdaptiveGoroutinePool P
      → Option (GoroutinePool P)
      → AdaptiveGoroutinePool P × Outcome
  registered name config a none = (a, not_created)
  registered name config a (some gp) =
      (record { pools = insert name gp a.pools; configs = insert name config a.configs }, success)

module _ {P : Type 0} (ants : Ants P) where
  abbrev pub register_absent :
      List ℕ
      → GoroutinePoolConfig
      → AdaptiveGoroutinePool P
      → Option (GoroutinePool P)
      → AdaptiveGoroutinePool P × Outcome
  register_absent name config a (some gp) = (a, already_registered)
  register_absent name config a none = registered name config a (new_goroutine_pool ants config)

  unfoldable pub register_pool :
      List ℕ → GoroutinePoolConfig → AdaptiveGoroutinePool P → AdaptiveGoroutinePool P × Outcome
  register_pool name config a = register_absent name config a (lookup name a.pools)

  abbrev pub submit_found :
      List ℕ
      → AdaptiveGoroutinePool P
      → Option (GoroutinePool P)
      → AdaptiveGoroutinePool P × Outcome
  submit_found name a none = (a, not_registered)
  submit_found name a (some gp) = let r = submit ants gp in (with_entry name r.0 a, outcome_of r.1)

  unfoldable pub submit_to_pool :
      List ℕ → AdaptiveGoroutinePool P → AdaptiveGoroutinePool P × Outcome
  submit_to_pool name a = submit_found name a (lookup name a.pools)

  abbrev pub stats_found : Option (GoroutinePool P) → Option GoroutinePoolStats
  stats_found none = none
  stats_found (some gp) = some (get_stats ants gp)

  -- `none` is the error of a name that is not registered.
  unfoldable pub get_pool_stats : List ℕ → AdaptiveGoroutinePool P → Option GoroutinePoolStats
  get_pool_stats name a = stats_found (lookup name a.pools)

  unfoldable pub get_all_pool_stats : AdaptiveGoroutinePool P → List (List ℕ × GoroutinePoolStats)
  get_all_pool_stats a = map (λ (e : List ℕ × GoroutinePool P). (e.0, get_stats ants e.1)) a.pools

  abbrev pub tune_found :
      List ℕ
      → ℕ
      → AdaptiveGoroutinePool P
      → Option (GoroutinePool P)
      → AdaptiveGoroutinePool P × Outcome
  tune_found name size a none = (a, not_registered)
  tune_found name size a (some gp) =
      let r = tune_capacity ants size gp in (with_entry name r.0 a, outcome_of r.1)

  unfoldable pub tune_pool_capacity :
      List ℕ → ℕ → AdaptiveGoroutinePool P → AdaptiveGoroutinePool P × Outcome
  tune_pool_capacity name size a = tune_found name size a (lookup name a.pools)

  -- The third component is the pool that is closed, to which the map has no pointer any more.
  abbrev pub close_found :
      List ℕ
      → AdaptiveGoroutinePool P
      → Option (GoroutinePool P)
      → AdaptiveGoroutinePool P × Outcome × List (GoroutinePool P)
  close_found name a none = (a, not_registered, [])
  close_found name a (some gp) = (
    record { pools = delete name a.pools; configs = delete name a.configs },
    success,
    close ants gp ∷ [],
  )

  unfoldable pub close_pool :
      List ℕ → AdaptiveGoroutinePool P → AdaptiveGoroutinePool P × Outcome × List (GoroutinePool P)
  close_pool name a = close_found name a (lookup name a.pools)

  unfoldable pub close_all :
      AdaptiveGoroutinePool P → AdaptiveGoroutinePool P × List (GoroutinePool P)
  close_all a = (
    record { pools = []; configs = [] },
    map (λ (e : List ℕ × GoroutinePool P). close ants e.1) a.pools,
  )
