-- ===== src/Async/Scheduler.antt =====
-- internal/infrastructure/async/queue.go: Worker and TaskScheduler. A channel that is closed
-- twice is a panic; a worker's loop ends once its channel is closed.
pub mod Restart
use data_middleware.Prelude.{
  ℕ, ◌+◌, Bool, true, false, List, [], ◌∷◌, ◌++◌, ltb, leb, if◌then◌else◌, length, take, drop,
  Option, none, some, suc, zero,
}
use data_middleware.Async.Queue.{Task, PriorityQueue, enqueue, dequeue}

pub record Worker : Type 0 where
  pub id : ℕ
  pub running : Bool
  pub stop_closed : Bool
  pub loop_alive : Bool

unfoldable pub new_worker : ℕ → Worker
new_worker id = record { id = id; running = false; stop_closed = false; loop_alive = false }

pub data Result {ℓ} (A : Type ℓ) : Type ℓ where
  ok : A → Result A
  panicked : Result A

infixl 5 ◌>>=◌
abbrev pub ◌>>=◌ {ℓ κ} : {A : Type ℓ} {B : Type κ} → Result A → (A → Result B) → Result B
ok a >>= f = f a
panicked >>= f = panicked

-- A loop that starts with the channel closed takes the stop signal at once.
unfoldable pub start_worker : Worker → Worker
start_worker w =
    if w.running
    then w
    else record w { running = true; loop_alive = if w.stop_closed then false else true }

unfoldable pub stop_worker : Worker → Result Worker
stop_worker w =
    if w.running
    then (if w.stop_closed
        then panicked
        else ok (record w { running = false; stop_closed = true; loop_alive = false }))
    else ok w

-- A tick of a worker's loop: the task that it executes, if any, leaves the queue.
unfoldable pub work : PriorityQueue → Option Task × PriorityQueue
work q = elim (dequeue q) [ none ↦ (none, q) | some (task, rest) ↦ (some task, rest) ]

pub record TaskScheduler : Type 0 where
  pub queue : PriorityQueue
  pub workers : List Worker
  pub stop_closed : Bool
  pub running : Bool

unfoldable pub workers_from : ℕ → ℕ → List Worker
workers_from i zero = []
workers_from i (suc n) = new_worker (i + 1) ∷ workers_from (i + 1) n

unfoldable pub new_task_scheduler : PriorityQueue → ℕ → TaskScheduler
unfolding workers_from new_worker
new_task_scheduler queue worker_count = record {
  queue = queue;
  workers = workers_from 0 worker_count;
  stop_closed = false;
  running = false;
}

unfoldable pub start_all : List Worker → List Worker
unfolding start_worker
start_all [] = []
start_all (w ∷ ws) = start_worker w ∷ start_all ws

unfoldable pub stop_all : List Worker → Result (List Worker)
unfolding stop_worker
stop_all [] = ok []
stop_all (w ∷ ws) = do w' ← stop_worker w; ws' ← stop_all ws; ok (w' ∷ ws')

-- `none` where the scheduler is running already.
unfoldable pub start_scheduler : TaskScheduler → Option TaskScheduler
start_scheduler s =
    if s.running then none else some (record s { running = true; workers = start_all s.workers })

unfoldable pub stop_scheduler : TaskScheduler → Result TaskScheduler
stop_scheduler s =
    if s.running
    then (if s.stop_closed then panicked else (do
      ws ← stop_all s.workers
      ok (record s { running = false; stop_closed = true; workers = ws })))
    else ok s

-- `none` where the queue is full.
unfoldable pub submit_task : Task → TaskScheduler → Option TaskScheduler
submit_task task s = elim (enqueue task s.queue) [
  | none ↦ none
  | some q ↦ some (record s { queue = q })
]

unfoldable pub count_running : List Worker → ℕ
count_running [] = 0
count_running (w ∷ ws) = (if w.running then 1 else 0) + count_running ws

pub record SchedulerStats : Type 0 where
  pub is_running : Bool
  pub worker_count : ℕ
  pub running_workers : ℕ
  pub queue_size : ℕ

unfoldable pub get_stats : TaskScheduler → SchedulerStats
get_stats s = record {
  is_running = s.running;
  worker_count = length s.workers;
  running_workers = count_running s.workers;
  queue_size = length s.queue.tasks;
}
