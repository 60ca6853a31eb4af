-- ===== src/Utils/Goroutines.antt =====
-- internal/common/goroutine_pool.go: GoroutinePool. The pool of the ants library, which runs the
-- tasks, is a parameter. An atomic addition is one step; Submit is also in pieces, so that the
-- goroutines can interleave. A pool has a positive size, and ratios of counts are compared exactly:
-- for capacities below a million the floating-point products and quotients of autoTune give the
-- same numbers. The logger and the goroutine of the monitor, whose tick is `tick`, are left out.
pub mod Events
pub mod Counts
pub mod Accounts
pub mod Tuning
pub mod PreAllocated
pub mod Registry
use data_middleware.Prelude.{
  ℕ, ◌+◌, ◌-◌, ◌*◌, ◌/◌, ◌≡◌, Bool, true, false, not, ◌&&◌, List, [], ◌∷◌, Option, none, some, zero,
  suc, ltb, ◌==◌, if◌then◌else◌,
}

pub record GoroutinePoolConfig : Type 0 where
  pub size : ℕ
  pub nonblocking : Bool
  pub pre_alloc : Bool
  pub max_blocking_tasks : ℕ
  pub monitor_interval : ℕ
  pub expiry_duration : ℕ
  pub disable_purge : Bool

-- The calls that are made of an ants.Pool; the options of a new one are those of the configuration.
pub record Ants (P : Type 0) : Type 0 where
  pub new_pool : GoroutinePoolConfig → Option P
  pub submit : P → P × Bool
  pub running : P → ℕ
  pub free : P → ℕ
  pub cap : P → ℕ
  pub tune : ℕ → P → P
  pub release : P → P
  pub is_closed : P → Bool

-- What the documentation of the ants library says of Tune: it changes the capacity, and has no effect
-- on a pool that has allocated its workers before.
pub record IsAnts {P : Type 0} (ants : Ants P) (pre_allocated : P → Bool) : Type 0 where
  pub tune_changes :
      (n : ℕ) (p : P) → pre_allocated p ≡ false → ants.cap (ants.tune (suc n) p) ≡ suc n
  pub tune_keeps : (n : ℕ) (p : P) → pre_allocated (ants.tune n p) ≡ pre_allocated p
  pub tune_noneffective : (n : ℕ) (p : P) → pre_allocated p ≡ true → ants.tune n p ≡ p

-- `time.Second`
abbrev pub second : ℕ
second = 1000000000

abbrev pub default_goroutine_pool_config : GoroutinePoolConfig
default_goroutine_pool_config = record {
  size = 100;
  nonblocking = false;
  pre_alloc = true;
  max_blocking_tasks = 0;
  monitor_interval = 30 * second;
  expiry_duration = 60 * second;
  disable_purge = false;
}

-- `monitor_stopped` is a closed channel.
pub record GoroutinePool (P : Type 0) : Type 0 where
  pub pool : P
  pub submitted_tasks : ℕ
  pub completed_tasks : ℕ
  pub failed_tasks : ℕ
  pub total_workers : ℕ
  pub monitor_enabled : Bool
  pub monitor_stopped : Bool
  pub stopped : Bool

pub record GoroutinePoolStats : Type 0 where
  pub submitted_tasks : ℕ
  pub completed_tasks : ℕ
  pub failed_tasks : ℕ
  pub running_workers : ℕ
  pub free_workers : ℕ
  pub total_workers : ℕ
  pub capacity : ℕ

module _ {P : Type 0} where
  -- `atomic.AddInt64(&gp.submittedTasks, 1)`
  unfoldable pub submit_begins : GoroutinePool P → GoroutinePool P
  submit_begins gp = record gp { submitted_tasks = gp.submitted_tasks + 1 }

  -- `atomic.AddInt64(&gp.submittedTasks, -1)`, after its own addition
  unfoldable pub submit_fails : GoroutinePool P → GoroutinePool P
  submit_fails gp = record gp { submitted_tasks = gp.submitted_tasks - 1 }

  -- The deferred function of a task: first the completion, then the failure where it panicked.
  unfoldable pub task_completes : GoroutinePool P → GoroutinePool P
  task_completes gp = record gp { completed_tasks = gp.completed_tasks + 1 }

  unfoldable pub task_fails : GoroutinePool P → GoroutinePool P
  task_fails gp = record gp { failed_tasks = gp.failed_tasks + 1 }

  abbrev pub with_pool : P → GoroutinePool P → GoroutinePool P
  with_pool p gp = record gp { pool = p }

  -- The end of Submit, whether the pool took the task or not; the second component is success.
  abbrev pub answered : GoroutinePool P → P × Bool → GoroutinePool P × Bool
  answered gp (p, true) = (with_pool p gp, true)
  answered gp (p, false) = (submit_fails (with_pool p gp), false)

module _ {P : Type 0} (ants : Ants P) where
  abbrev pub started : GoroutinePoolConfig → Option P → Option (GoroutinePool P)
  started config none = none
  started config (some p) = some record {
    pool = p;
    submitted_tasks = 0;
    completed_tasks = 0;
    failed_tasks = 0;
    total_workers = config.size;
    monitor_enabled = ltb 0 config.monitor_interval;
    monitor_stopped = false;
    stopped = false;
  }

  unfoldable pub new_goroutine_pool : GoroutinePoolConfig → Option (GoroutinePool P)
  new_goroutine_pool config = started config (ants.new_pool config)

  -- Submit and SubmitWithContext, where nothing comes between.
  unfoldable pub submit : GoroutinePool P → GoroutinePool P × Bool
  submit gp = let begun = submit_begins gp in answered begun (ants.submit begun.pool)

  -- GetStats reads the pool once for each field, and other steps may come between the reads: an
  -- argument is the pool at the read of that field.
  abbrev pub read_stats :
      (at_running at_free at_submitted at_completed at_failed at_total at_cap : GoroutinePool P)
      → GoroutinePoolStats
  read_stats at_running at_free at_submitted at_completed at_failed at_total at_cap = record {
    submitted_tasks = at_submitted.submitted_tasks;
    completed_tasks = at_completed.completed_tasks;
    failed_tasks = at_failed.failed_tasks;
    running_workers = ants.running at_running.pool;
    free_workers = ants.free at_free.pool;
    total_workers = at_total.total_workers;
    capacity = ants.cap at_cap.pool;
  }

  -- GetStats with no step between its reads.
  unfoldable pub get_stats : GoroutinePool P → GoroutinePoolStats
  get_stats gp = read_stats gp gp gp gp gp gp gp

  -- The second component is success.
  unfoldable pub tune_capacity : ℕ → GoroutinePool P → GoroutinePool P × Bool
  tune_capacity zero gp = (gp, false)
  tune_capacity (suc n) gp =
      (record gp { pool = ants.tune (suc n) gp.pool; total_workers = suc n }, true)

  unfoldable pub is_closed : GoroutinePool P → Bool
  is_closed gp = ants.is_closed gp.pool

  unfoldable pub close : GoroutinePool P → GoroutinePool P
  close gp = if gp.stopped then gp else record gp {
    stopped = true;
    monitor_stopped = if gp.monitor_enabled then true else gp.monitor_stopped;
    pool = ants.release gp.pool;
  }

  -- `if newCap != currentCap { gp.TuneCapacity(newCap) }`
  abbrev pub tune_unless_same : ℕ → ℕ → GoroutinePool P → GoroutinePool P
  tune_unless_same current new gp = if new == current then gp else (tune_capacity new gp).0

  abbrev pub at_most : ℕ → ℕ → ℕ
  at_most bound n = if ltb bound n then bound else n

  abbrev pub at_least : ℕ → ℕ → ℕ
  at_least bound n = if ltb n bound then bound else n

  -- The first test of autoTune.
  unfoldable pub grow : GoroutinePoolStats → GoroutinePool P → GoroutinePool P
  grow stats gp =
      if ltb (4 * stats.capacity) (5 * stats.running_workers) && ltb stats.capacity 1000
      then tune_unless_same stats.capacity (at_most 1000 (stats.capacity * 12 / 10)) gp
      else gp

  -- The second test.
  unfoldable pub shrink : GoroutinePoolStats → GoroutinePool P → GoroutinePool P
  shrink stats gp =
      if ltb (5 * stats.running_workers) stats.capacity && ltb 10 stats.capacity
      then tune_unless_same stats.capacity (at_least 10 (stats.capacity * 8 / 10)) gp
      else gp

  unfoldable pub auto_tune : GoroutinePoolStats → GoroutinePool P → GoroutinePool P
  auto_tune stats gp = shrink stats (grow stats gp)

  -- A tick of the monitor.
  unfoldable pub tick : GoroutinePool P → GoroutinePool P
  tick gp = auto_tune (get_stats gp) gp
