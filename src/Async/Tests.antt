-- ===== src/Async/Tests.antt =====
-- The task queue and its scheduler on concrete inputs.
use data_middleware.Prelude.{◌≡◌, List, [], ◌∷◌}
use data_middleware.Async.Queue.{Task, PriorityQueue, new_priority_queue}
use data_middleware.Async.Queue.Order.{
  Call, enqueues, dequeues, closes, nothing, Answers, new_priority_queue-Answers,
}
use data_middleware.Async.Scheduler.{
  TaskScheduler, ok, panicked, new_task_scheduler, stop_scheduler, get_stats,
}
use data_middleware.Async.Scheduler.Restart.{starts, stops, AllIdle, run, run_restart}

abbrev urgent : Task
urgent = record { id = 1 ∷ []; type = []; priority = 80 }

abbrev usual : Task
usual = record { id = 2 ∷ []; type = []; priority = 50 }

abbrev queue : PriorityQueue
queue = record { tasks = urgent ∷ usual ∷ []; max_size = 3 }

abbrev queue_calls : List Call
queue_calls = enqueues usual ∷ enqueues urgent ∷ dequeues ∷ dequeues ∷ dequeues ∷ closes ∷ []

new_priority_queue-Answers_example : Answers nothing (new_priority_queue 5) queue_calls
new_priority_queue-Answers_example = new_priority_queue-Answers 5 queue_calls

abbrev scheduler : TaskScheduler
scheduler = new_task_scheduler queue 1

run_restart_example :
    (s : TaskScheduler) × (run (new_task_scheduler queue 2) (starts ∷ stops ∷ starts ∷ []) ≡ ok s)
    × AllIdle s.workers
    × ((get_stats s).running_workers ≡ 2)
    × (stop_scheduler s ≡ panicked)
run_restart_example = run_restart queue 2
