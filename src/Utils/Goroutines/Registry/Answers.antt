-- ===== src/Utils/Goroutines/Registry/Answers.antt =====
-- goroutine_pool.go: what an AdaptiveGoroutinePool answers after a history of calls.
use data_middleware.Prelude.{
  ℕ, ◌≡◌, refl, ap, false, List, [], ◌∷◌, Option, none, some, string_eq, ltb,
}
use data_middleware.Prelude.Assoc.{lookup}
use data_middleware.Utils.Goroutines.{Ants, GoroutinePool, GoroutinePoolConfig, get_stats, close}
use data_middleware.Utils.Goroutines.Registry.{
  AdaptiveGoroutinePool, new_adaptive_goroutine_pool, not_registered, submit_found, submit_to_pool,
  stats_found, get_pool_stats, tune_found, tune_pool_capacity, close_found, close_pool,
}
use data_middleware.Utils.Goroutines.Registry.Live.{Call, run, live, Fits}
use data_middleware.Utils.Goroutines.Registry.Steps.{run-IsLike}

module _ {P : Type 0} (ants : Ants P) where
  -- What the calls of one name answer, by the configuration that the name is registered with.
  abbrev pub Answers : List ℕ → AdaptiveGoroutinePool P → Option GoroutinePoolConfig → Type 0
  Answers name a none =
      (get_pool_stats ants name a ≡ none)
      × (submit_to_pool ants name a ≡ (a, not_registered))
      × ((size : ℕ) → tune_pool_capacity ants name size a ≡ (a, not_registered))
      × (close_pool ants name a ≡ (a, not_registered, []))
  Answers name a (some config) =
      (gp : GoroutinePool P) × (get_pool_stats ants name a ≡ some (get_stats ants gp))
      × (gp.stopped ≡ false)
      × (gp.monitor_enabled ≡ ltb 0 config.monitor_interval)
      × ((close_pool ants name a).2 ≡ close ants gp ∷ [])

  Fits-Answers :
      (name : List ℕ) (a : AdaptiveGoroutinePool P) (o : Option (GoroutinePool P))
      (config : Option GoroutinePoolConfig)
      → lookup name a.pools ≡ o
      → Fits ants o config
      → Answers name a config
  unfolding get_pool_stats submit_to_pool tune_pool_capacity close_pool
  Fits-Answers name a none none e f = (
    ap (stats_found ants) e,
    ap (submit_found ants name a) e,
    λ size. ap (tune_found ants name size a) e,
    ap (close_found ants name a) e,
  )
  Fits-Answers name a none (some config) e f = absurd f
  Fits-Answers name a (some gp) none e f = absurd f
  Fits-Answers name a (some gp) (some config) e f =
      (gp, ap (stats_found ants) e, f.0, f.1, ap (λ o. (close_found ants name a o).2) e)

  -- After any history of RegisterPool, SubmitToPool, TunePoolCapacity, ClosePool and Close on a new
  -- registry, a name has the configuration of the first registration since it was last closed that
  -- could create a pool. Where there is none, GetPoolStats, SubmitToPool, TunePoolCapacity and
  -- ClosePool give the error of an unknown name and change nothing; otherwise the name has an open
  -- pool, with a monitor exactly if the configuration asks for one, and ClosePool closes that pool.
  pub live-run :
      (calls : List Call) (name : List ℕ)
      → let a = run ants calls new_adaptive_goroutine_pool in
        (lookup name a.configs ≡ live ants name calls none)
        × Answers name a (live ants name calls none)
  live-run calls name =
      let a = run ants calls new_adaptive_goroutine_pool in
      let (config, fits) =
        run-IsLike ants calls (λ j. none) new_adaptive_goroutine_pool (λ j. (refl, tt)) name in
      (config, Fits-Answers name a (lookup name a.pools) (live ants name calls none) refl fits)
