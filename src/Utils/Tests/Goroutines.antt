-- ===== src/Utils/Tests/Goroutines.antt =====
-- Goroutine pools over a pool that counts its workers.
use data_middleware.Prelude.{
  ℕ, ◌+◌, ◌-◌, ◌≡◌, ◌≤◌, ◌<◌, refl, Bool, true, false, List, [], ◌∷◌, none, some, suc, ltb,
  if◌then◌else◌, arith, string_eq,
}
use data_middleware.Prelude.Assoc.{lookup}
use data_middleware.Utils.Goroutines.{
  Ants, IsAnts, GoroutinePool, default_goroutine_pool_config, new_goroutine_pool, submit_begins,
  task_completes, task_fails, get_stats, tick,
}
use data_middleware.Utils.Goroutines.Events.{
  System, Event, begins, answers, completes, fails, ended, panicked_in,
}
use data_middleware.Utils.Goroutines.Accounts.{get_stats-run}
use data_middleware.Utils.Goroutines.Tuning.{start, ticks, cap-rounds}
use data_middleware.Utils.Goroutines.PreAllocated.{tick-pre_allocated}
use data_middleware.Utils.Goroutines.Registry.{new_adaptive_goroutine_pool}
use data_middleware.Utils.Goroutines.Registry.Live
use data_middleware.Utils.Goroutines.Registry.Live.{register, submit_to, tune, close_one, live}
use data_middleware.Utils.Goroutines.Registry.Answers.{Answers, live-run}

-- A pool of workers: how many there may be, how many run, and whether they were allocated before.
record Workers : Type 0 where
  pub most : ℕ
  pub busy : ℕ
  pub fixed : Bool

abbrev tuned : Bool → ℕ → Workers → Workers
tuned true n w = w
tuned false n w = record w { most = n }

abbrev counting : Ants Workers
counting = record {
  new_pool = λ c. some (record { most = c.size; busy = 0; fixed = c.pre_alloc });
  submit = λ w. if ltb w.busy w.most then (record w { busy = w.busy + 1 }, true) else (w, false);
  running = λ w. w.busy;
  free = λ w. w.most - w.busy;
  cap = λ w. w.most;
  tune = λ n w. tuned w.fixed n w;
  release = λ w. w;
  is_closed = λ w. false;
}

tuned-most : (b : Bool) (n : ℕ) (w : Workers) → b ≡ false → (tuned b n w).most ≡ n
tuned-most true n w e = absurd (cc)
tuned-most false n w e = refl

tuned-fixed : (b : Bool) (n : ℕ) (w : Workers) → (tuned b n w).fixed ≡ w.fixed
tuned-fixed true n w = refl
tuned-fixed false n w = refl

tuned_not : (b : Bool) (n : ℕ) (w : Workers) → b ≡ true → tuned b n w ≡ w
tuned_not true n w e = refl
tuned_not false n w e = absurd (cc)

counting-IsAnts : IsAnts counting (λ w. w.fixed)
counting-IsAnts = record {
  tune_changes = λ n w e. tuned-most w.fixed (suc n) w e;
  tune_keeps = λ n w. tuned-fixed w.fixed n w;
  tune_noneffective = λ n w e. tuned_not w.fixed n w e;
}

abbrev pool_of : Bool → ℕ → GoroutinePool Workers
pool_of fixed busy = record {
  pool = record { most = 100; busy = busy; fixed = fixed };
  submitted_tasks = 0;
  completed_tasks = 0;
  failed_tasks = 0;
  total_workers = 100;
  monitor_enabled = true;
  monitor_stopped = false;
  stopped = false;
}

abbrev events : List (Event Workers)
events = begins ∷ begins ∷ answers ∷ completes true ∷ answers ∷ fails ∷ begins ∷ []

abbrev after : System Workers
after = record {
  gp = record (pool_of true 2) { submitted_tasks = 3; completed_tasks = 1; failed_tasks = 1 };
  calling = 1;
  held = 1;
  recovering = 0;
}

-- A task panics and one is submitted between the reads.
abbrev later : System Workers
later = record {
  gp = record (pool_of true 2) { submitted_tasks = 4; completed_tasks = 2; failed_tasks = 1 };
  calling = 2;
  held = 0;
  recovering = 1;
}

get_stats-run_example :
    (3 ≡ ended counting events + after.held + after.calling)
    × (2 ≡ ended counting events + ended counting (completes true ∷ begins ∷ []))
    × (2 + 0
        ≡ panicked_in counting events
          + panicked_in counting (completes true ∷ begins ∷ [])
          + panicked_in counting (fails ∷ []))
unfolding new_goroutine_pool submit_begins task_completes task_fails
get_stats-run_example =
    get_stats-run counting default_goroutine_pool_config (pool_of true 0) after.gp after.gp later.gp
      later.gp events (completes true ∷ begins ∷ []) (fails ∷ []) after later
      (record later {
        gp = record (pool_of true 2) { submitted_tasks = 4; completed_tasks = 2; failed_tasks = 2 };
        recovering = 0;
      })
      refl refl refl refl

cap-rounds_example :
    let a = tick counting (tick counting (pool_of false 90)) in
    (10 ≤ counting.cap a.pool) × (counting.cap a.pool ≤ 1000) × (a.pool.fixed ≡ false)
cap-rounds_example =
    cap-rounds counting (λ w. w.fixed) counting-IsAnts (pool_of false 90)
      (tick counting (tick counting (pool_of false 90))) (ticks (ticks start)) refl (omega arith)

tick-pre_allocated_example :
    let after_tick = tick counting (pool_of true 90) in
    (◌≡◌ {A = ℕ} 100 100)
    × ((get_stats counting after_tick).capacity ≡ 100)
    × ((get_stats counting after_tick).capacity < (get_stats counting after_tick).total_workers)
tick-pre_allocated_example =
    tick-pre_allocated counting (λ w. w.fixed) counting-IsAnts (pool_of true 90) (pool_of true 90)
      refl start (omega arith) (omega arith) (omega arith)

abbrev calls : List Live.Call
calls =
    register (1 ∷ []) default_goroutine_pool_config
    ∷ submit_to (1 ∷ [])
    ∷ tune (1 ∷ []) 7
    ∷ register (2 ∷ []) default_goroutine_pool_config
    ∷ close_one (2 ∷ [])
    ∷ []

live-run_example :
    let a = Live.run counting calls new_adaptive_goroutine_pool in
    (lookup (1 ∷ []) a.configs ≡ live counting (1 ∷ []) calls none)
    × Answers counting (1 ∷ []) a (live counting (1 ∷ []) calls none)
live-run_example = live-run counting calls (1 ∷ [])
