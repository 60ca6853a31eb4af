-- ===== src/Async/Scheduler/Restart.antt =====
-- queue.go: the life of a scheduler, from its construction to a second stop.
use data_middleware.Prelude.{
  ℕ, ◌+◌, ◌≡◌, refl, true, false, List, [], ◌∷◌, length, none, some, suc, zero, arith, ap, inl, inr,
  ◌⊎◌, Option-cases,
}
use data_middleware.Async.Queue.{Task, PriorityQueue, enqueue}
use data_middleware.Async.Scheduler.{
  Worker, Result, ◌>>=◌, ok, panicked, new_worker, TaskScheduler, workers_from, new_task_scheduler,
  start_all, stop_all, start_scheduler, stop_scheduler, submit_task, count_running, get_stats,
}

-- The calls on a scheduler; a refused start or submission changes nothing.
pub data Call : Type 0 where
  starts stops : Call
  submits : Task → Call

pub call : TaskScheduler → Call → Result TaskScheduler
call s starts = elim (start_scheduler s) [ none ↦ ok s | some t ↦ ok t ]
call s stops = stop_scheduler s
call s (submits task) = elim (submit_task task s) [ none ↦ ok s | some t ↦ ok t ]

abbrev AllNew : List Worker → Type 0
AllNew [] = Unit
AllNew (w ∷ ws) = (w.running ≡ false) × (w.stop_closed ≡ false) × AllNew ws

-- A worker that runs has its loop alive.
abbrev AllWork : List Worker → Type 0
AllWork [] = Unit
AllWork (w ∷ ws) = (w.running ≡ true) × (w.stop_closed ≡ false) × (w.loop_alive ≡ true) × AllWork ws

-- A worker that was stopped has its channel closed and no loop.
abbrev AllStopped : List Worker → Type 0
AllStopped [] = Unit
AllStopped (w ∷ ws) =
    (w.running ≡ false) × (w.stop_closed ≡ true) × (w.loop_alive ≡ false) × AllStopped ws

-- A restarted worker counts as running, and its loop ended at once.
abbrev pub AllIdle : List Worker → Type 0
AllIdle [] = Unit
AllIdle (w ∷ ws) = (w.running ≡ true) × (w.stop_closed ≡ true) × (w.loop_alive ≡ false) × AllIdle ws

-- The four phases of a scheduler's life.
pub data Phase : TaskScheduler → Type 0 where
  fresh :
      {s : TaskScheduler} → s.running ≡ false → s.stop_closed ≡ false → AllNew s.workers → Phase s
  working :
      {s : TaskScheduler} → s.running ≡ true → s.stop_closed ≡ false → AllWork s.workers → Phase s
  stopped :
      {s : TaskScheduler}
      → s.running ≡ false
      → s.stop_closed ≡ true
      → AllStopped s.workers
      → Phase s
  restarted :
      {s : TaskScheduler} → s.running ≡ true → s.stop_closed ≡ true → AllIdle s.workers → Phase s

workers_from-AllNew : (i n : ℕ) → AllNew (workers_from i n)
unfolding workers_from new_worker
workers_from-AllNew i zero = tt
workers_from-AllNew i (suc n) = (refl, refl, workers_from-AllNew (i + 1) n)

start_all-AllWork : (ws : List Worker) → AllNew ws → AllWork (start_all ws)
unfolding start_all
start_all-AllWork [] h = tt
start_all-AllWork (w ∷ ws) h = ground (arith, start_all-AllWork ws)

start_all-AllIdle : (ws : List Worker) → AllStopped ws → AllIdle (start_all ws)
unfolding start_all
start_all-AllIdle [] h = tt
start_all-AllIdle (w ∷ ws) h = ground (arith, start_all-AllIdle ws)

stop_all-AllStopped :
    (ws : List Worker)
    → AllWork ws
    → (vs : List Worker) × (stop_all ws ≡ ok vs) × AllStopped vs × (length vs ≡ length ws)
unfolding stop_all
stop_all-AllStopped [] h = ([], refl, tt, refl)
stop_all-AllStopped (w ∷ ws) h =
    let (vs, same, all, len) = stop_all-AllStopped ws h.3 in
    (
      record w { running = false; stop_closed = true; loop_alive = false } ∷ vs,
      rw (h.0, h.1, same),
      (refl, refl, refl, all),
      ap suc len,
    )

same_workers : (s : TaskScheduler) (q : PriorityQueue) → Phase s → Phase (record s { queue = q })
same_workers s q (fresh r c w) = fresh r c w
same_workers s q (working r c w) = working r c w
same_workers s q (stopped r c w) = stopped r c w
same_workers s q (restarted r c w) = restarted r c w

count_running-AllIdle : (ws : List Worker) → AllIdle ws → count_running ws ≡ length ws
unfolding count_running
count_running-AllIdle [] h = refl
count_running-AllIdle (w ∷ ws) h = ground (arith, count_running-AllIdle ws)

length-start_all : (ws : List Worker) → length (start_all ws) ≡ length ws
unfolding start_all
length-start_all [] = refl
length-start_all (w ∷ ws) = ap suc (length-start_all ws)

length-workers_from : (i n : ℕ) → length (workers_from i n) ≡ n
unfolding workers_from
length-workers_from i zero = refl
length-workers_from i (suc n) = ap suc (length-workers_from (i + 1) n)

-- What a call does in each phase: the scheduler goes on in a phase, or a restarted scheduler is
-- stopped, which panics.
pub call-Phase :
    (s : TaskScheduler) (c : Call)
    → Phase s
    → ((t : TaskScheduler) × (call s c ≡ ok t) × Phase t)
      ⊎ ((call s c ≡ panicked) × (c ≡ stops) × AllIdle s.workers)
unfolding call start_scheduler stop_scheduler submit_task
call-Phase s starts (fresh r c w) = inl (
  record s { running = true; workers = start_all s.workers },
  rw r,
  working refl c (start_all-AllWork s.workers w),
)
call-Phase s starts (working r c w) = inl (s, rw r, working r c w)
call-Phase s starts (stopped r c w) = inl (
  record s { running = true; workers = start_all s.workers },
  rw r,
  restarted refl c (start_all-AllIdle s.workers w),
)
call-Phase s starts (restarted r c w) = inl (s, rw r, restarted r c w)
call-Phase s stops (fresh r c w) = inl (s, rw r, fresh r c w)
call-Phase s stops (working r c w) =
    let (vs, same, all, len) = stop_all-AllStopped s.workers w in
    inl (
      record s { running = false; stop_closed = true; workers = vs },
      rw (r, c, same),
      stopped refl refl all,
    )
call-Phase s stops (stopped r c w) = inl (s, rw r, stopped r c w)
call-Phase s stops (restarted r c w) = inr (rw (r, c), refl, w)
call-Phase s (submits task) p = elim (Option-cases (enqueue task s.queue)) [
  | inl full ↦ inl (s, rw (full, call, submit_task), p)
  | inr (q, room) ↦ inl (record s { queue = q }, rw (room, call, submit_task), same_workers s q p)
]

pub run : TaskScheduler → List Call → Result TaskScheduler
run s [] = ok s
run s (c ∷ cs) = do t ← call s c; run t cs

-- A scheduler of any size that is started, stopped and started again reports all of its
-- workers as running while none of their loops is alive, and panics when it is stopped again.
pub run_restart :
    (queue : PriorityQueue) (n : ℕ)
    → (s : TaskScheduler) × (run (new_task_scheduler queue n) (starts ∷ stops ∷ starts ∷ []) ≡ ok s)
      × AllIdle s.workers
      × ((get_stats s).running_workers ≡ n)
      × (stop_scheduler s ≡ panicked)
unfolding run call new_task_scheduler start_scheduler stop_scheduler get_stats
run_restart queue n =
    let (vs, same, all, len) =
      stop_all-AllStopped _ (start_all-AllWork (workers_from 0 n) (workers_from-AllNew 0 n)) in
    (
      record { queue = queue; workers = start_all vs; stop_closed = true; running = true },
      rw same,
      start_all-AllIdle vs all,
      omega (
        arith,
        count_running-AllIdle (start_all vs) (start_all-AllIdle vs all),
        length-start_all vs,
        len,
        length-start_all (workers_from 0 n),
        length-workers_from 0 n,
      ),
      refl,
    )
