-- ===== src/Async/Queue.antt =====
-- internal/infrastructure/async/queue.go: Task, BaseTask and PriorityQueue. Priorities are the
-- documented 0 to 100. Each method holds the lock and is one step.
pub mod Order
use data_middleware.Prelude.{
  ℕ, ◌+◌, Bool, true, false, List, [], ◌∷◌, ◌++◌, ltb, leb, if◌then◌else◌, length, take, drop,
  Option, none, some, suc,
}

pub record Task : Type 0 where
  pub id : List ℕ
  pub type : List ℕ
  pub priority : ℕ

pub record PriorityQueue : Type 0 where
  pub tasks : List Task
  pub max_size : ℕ

unfoldable pub new_priority_queue : ℕ → PriorityQueue
new_priority_queue max_size = record { tasks = []; max_size = max_size }

-- The loop of `Enqueue`: the first position of a task with a smaller priority, or the end.
unfoldable pub insert_index : Task → List Task → ℕ
insert_index task [] = 0
insert_index task (t ∷ ts) = if ltb t.priority task.priority then 0 else suc (insert_index task ts)

-- `append`, `copy` and the assignment move the tasks from the position on by one place.
abbrev pub insert_at : ℕ → Task → List Task → List Task
insert_at i task ts = take i ts ++ (task ∷ drop i ts)

-- `none` where the queue is full.
unfoldable pub enqueue : Task → PriorityQueue → Option PriorityQueue
enqueue task q =
    if leb q.max_size (length q.tasks)
    then none
    else some (record q { tasks = insert_at (insert_index task q.tasks) task q.tasks })

-- `none` where the queue is empty.
unfoldable pub dequeue : PriorityQueue → Option (Task × PriorityQueue)
dequeue q = elim (q.tasks) [ [] ↦ none | task ∷ rest ↦ some (task, record q { tasks = rest }) ]

abbrev pub size : PriorityQueue → ℕ
size q = length q.tasks

-- The queue stays usable: only its tasks are dropped.
unfoldable pub close_queue : PriorityQueue → PriorityQueue
close_queue q = record q { tasks = [] }
