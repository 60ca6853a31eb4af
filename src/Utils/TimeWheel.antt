-- ===== src/Utils/TimeWheel.antt =====
-- internal/common/datastruct.go: TimeWheel. The tasks of a slot are started in order, each in a
-- goroutine of its own: a tick answers with the tasks that it starts. AddTask and tick are one step
-- each (the code takes no lock), and `int` does not overflow.
pub mod Delays
use data_middleware.Prelude.{
  ℕ, zero, suc, ◌+◌, ◌/◌, ◌%◌, ℤ, pos, negsuc, List, [], ◌∷◌, ◌++◌, get_or, set, replicate,
  if◌then◌else◌, ◌==◌,
}

pub record TimeWheel (A : Type 0) : Type 0 where
  pub tick_ms : ℕ
  pub wheel_size : ℕ
  pub current : ℕ
  pub wheel : List (List A)

-- `if n <= 0 { n = default }`
abbrev pub positive_or : ℕ → ℤ → ℕ
positive_or default (pos zero) = default
positive_or default (pos (suc n)) = suc n
positive_or default (negsuc n) = default

module _ {A : Type 0} where
  unfoldable pub new_time_wheel : ℤ → ℤ → TimeWheel A
  new_time_wheel tick_ms wheel_size = record {
    tick_ms = positive_or 1000 tick_ms;
    wheel_size = positive_or 60 wheel_size;
    current = 0;
    wheel = replicate (positive_or 60 wheel_size) [];
  }

  -- The ticks of a delay above 0, at least one.
  unfoldable pub ticks_of : ℕ → TimeWheel A → ℕ
  ticks_of delay_ms w = let ticks = delay_ms / w.tick_ms in if ticks == 0 then 1 else ticks

  -- `tw.wheel[pos] = append(tw.wheel[pos], task)`
  unfoldable pub append_at : ℕ → A → List (List A) → List (List A)
  append_at i task wheel = set wheel i (get_or wheel i [] ++ (task ∷ []))

  -- The wheel, and the tasks that are started at once.
  unfoldable pub add_task : ℤ → A → TimeWheel A → TimeWheel A × List A
  add_task (negsuc n) task w = (w, task ∷ [])
  add_task (pos zero) task w = (w, task ∷ [])
  add_task (pos (suc n)) task w = (
    record w { wheel = append_at ((w.current + ticks_of (suc n) w) % w.wheel_size) task w.wheel },
    [],
  )

  unfoldable pub tick : TimeWheel A → TimeWheel A × List A
  tick w = (
    record w { wheel = set w.wheel w.current []; current = (w.current + 1) % w.wheel_size },
    get_or w.wheel w.current [],
  )
