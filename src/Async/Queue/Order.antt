-- ===== src/Async/Queue/Order.antt =====
-- queue.go: the order in which a PriorityQueue gives its tasks back.
use data_middleware.Prelude.{
  ℕ, ◌+◌, ◌∙◌, sym, ◌≤◌, ◌<◌, ◌≡◌, refl, List, [], ◌∷◌, ◌++◌, ltb, leb, ◌==◌, arith, suc,
  if◌then◌else◌, length, none, some, Bool-cases, inl, inr, ◌⊎◌, ap, ltb→lt,
}
use mathlib.Core.List.{append-nil}
use data_middleware.Async.Queue.{
  Task, PriorityQueue, insert_index, insert_at, enqueue, dequeue, close_queue, new_priority_queue,
}

-- All priorities are at most `p`.
abbrev pub AtMost : ℕ → List Task → Type 0
AtMost p [] = Unit
AtMost p (t ∷ ts) = (t.priority ≤ p) × AtMost p ts

-- Higher priorities first.
abbrev pub IsSorted : List Task → Type 0
IsSorted [] = Unit
IsSorted (t ∷ ts) = AtMost t.priority ts × IsSorted ts

-- The tasks of one priority, in their order.
unfoldable pub of_priority : ℕ → List Task → List Task
of_priority p [] = []
of_priority p (t ∷ ts) = if t.priority == p then t ∷ of_priority p ts else of_priority p ts

abbrev place : Task → List Task → List Task
place task ts = insert_at (insert_index task ts) task ts

AtMost-mono : (p q : ℕ) (ts : List Task) → p ≤ q → AtMost p ts → AtMost q ts
AtMost-mono p q [] h a = tt
AtMost-mono p q (t ∷ ts) h a = (omega arith, AtMost-mono p q ts h a.1)

place-AtMost :
    (p : ℕ) (task : Task) (ts : List Task)
    → task.priority ≤ p
    → AtMost p ts
    → AtMost p (place task ts)
unfolding insert_index
place-AtMost p task [] h a = (h, tt)
place-AtMost p task (t ∷ ts) h a = ground (arith, place-AtMost p task ts h a.1)

place-IsSorted : (task : Task) (ts : List Task) → IsSorted ts → IsSorted (place task ts)
unfolding insert_index
place-IsSorted task [] s = (tt, tt)
place-IsSorted task (t ∷ ts) s = elim (Bool-cases (ltb t.priority task.priority)) [
  | inl higher ↦ rw higher (
    (
      omega (arith, ltb→lt _ _ higher),
      AtMost-mono t.priority _ ts (omega (arith, ltb→lt _ _ higher)) s.0,
    ),
    s,
  )
  | inr lower ↦
      rw lower (place-AtMost t.priority task ts (ground arith) s.0, place-IsSorted task ts s.1)
]

of_priority_above : (p : ℕ) (ts : List Task) (q : ℕ) → AtMost q ts → q < p → of_priority p ts ≡ []
unfolding of_priority
of_priority_above p [] q a h = refl
of_priority_above p (t ∷ ts) q a h = ground (arith, of_priority_above p ts q a.1 h)

-- A new task stands behind the tasks of its own priority.
of_priority-place :
    (p : ℕ) (task : Task) (ts : List Task)
    → IsSorted ts
    → of_priority p (place task ts)
      ≡ of_priority p ts ++ (if task.priority == p then task ∷ [] else [])
unfolding insert_index of_priority
of_priority-place p task [] s = ground arith
of_priority-place p task (t ∷ ts) s = elim (Bool-cases (ltb t.priority task.priority)) [
  | inl higher ↦ rw higher (elim (Bool-cases (task.priority == p)) [
    | inl same ↦
        rw (same, of_priority_above p (t ∷ ts) t.priority (omega arith, s.0) (ground arith))
    | inr other ↦ rw (other, append-nil)
  ])
  | inr lower ↦ rw lower (elim (Bool-cases (t.priority == p)) [
    | inl same ↦ rw same (ap (◌∷◌ t) (of_priority-place p task ts s.1))
    | inr other ↦ rw other (of_priority-place p task ts s.1)
  ])
]

-- The queue keeps its limit, and its tasks stand in the order of their priorities.
pub record IsValid (q : PriorityQueue) : Type 0 where
  pub sorted : IsSorted q.tasks
  pub bounded : length q.tasks ≤ q.max_size

length-place : (task : Task) (ts : List Task) → length (place task ts) ≡ suc (length ts)
unfolding insert_index
length-place task [] = refl
length-place task (t ∷ ts) = ground (arith, length-place task ts)

-- A task that is accepted comes behind the tasks of its priority and leaves the others as they
-- were, and the queue stays valid; a task is refused exactly if the queue is full.
pub enqueue_lem :
    (task : Task) (q : PriorityQueue)
    → IsValid q
    → ((enqueue task q ≡ none) × (q.max_size ≤ length q.tasks))
      ⊎ ((r : PriorityQueue) × (enqueue task q ≡ some r)
          × IsValid r
          × ((p : ℕ)
              → of_priority p r.tasks
                ≡ of_priority p q.tasks ++ (if task.priority == p then task ∷ [] else [])))
unfolding enqueue
enqueue_lem task q v = elim (Bool-cases (leb q.max_size (length q.tasks))) [
  | inl full ↦ inl (rw full, ground arith)
  | inr room ↦ inr (
    record q { tasks = place task q.tasks },
    rw room,
    record {
      sorted = place-IsSorted task q.tasks v.sorted;
      bounded = ground (arith, length-place task q.tasks);
    },
    λ p. of_priority-place p task q.tasks v.sorted,
  )
]

-- What it is to take a task from a queue.
abbrev pub Takes : PriorityQueue → Task → PriorityQueue → Type 0
Takes q task r =
    IsValid r
    × AtMost task.priority q.tasks
    × ((p : ℕ)
        → of_priority p q.tasks
          ≡ (if task.priority == p then task ∷ of_priority p r.tasks else of_priority p r.tasks))

abbrev pub Dequeues : PriorityQueue → Type 0
Dequeues q =
    ((dequeue q ≡ none) × (q.tasks ≡ []))
    ⊎ ((task : Task) × (r : PriorityQueue) × (dequeue q ≡ some (task, r)) × Takes q task r)

dequeue_cases :
    (ts : List Task) (max_size : ℕ)
    → IsValid (record { tasks = ts; max_size = max_size })
    → Dequeues (record { tasks = ts; max_size = max_size })
unfolding dequeue of_priority
dequeue_cases [] max_size v = inl (refl, refl)
dequeue_cases (task ∷ rest) max_size v = inr (
  task,
  record { tasks = rest; max_size = max_size },
  refl,
  (record { sorted = v.sorted.1; bounded = omega arith }, (omega arith, v.sorted.0), λ p. refl),
)

dequeue_lem : (q : PriorityQueue) → IsValid q → Dequeues q
dequeue_lem q v = dequeue_cases q.tasks q.max_size v

-- The calls on a queue.
pub data Call : Type 0 where
  enqueues : Task → Call
  dequeues closes : Call

-- The tasks that wait, those of each priority in the order in which Enqueue accepted them.
abbrev pub Waiting : Type 0
Waiting = ℕ → List Task

abbrev pub nothing : Waiting
nothing p = []

abbrev pub joined : Task → Waiting → Waiting
joined task f p = f p ++ (if task.priority == p then task ∷ [] else [])

-- The calls one after the other on a queue for which `f` waits. Enqueue refuses a task only if the
-- queue is full, and else the task waits behind those of its priority. Dequeue gives nothing only if
-- nothing waits; else it gives a task at the head of its priority, with nothing above that
-- priority, and the others go on waiting. Nothing waits after Close.
pub Answers : Waiting → PriorityQueue → List Call → Type 0
Answers f q [] = Unit
Answers f q (enqueues task ∷ calls) =
    ((enqueue task q ≡ none) × (q.max_size ≤ length q.tasks) × Answers f q calls)
    ⊎ ((r : PriorityQueue) × (enqueue task q ≡ some r) × Answers (joined task f) r calls)
Answers f q (dequeues ∷ calls) =
    ((dequeue q ≡ none) × ((p : ℕ) → f p ≡ []) × Answers f q calls)
    ⊎ ((task : Task) × (r : PriorityQueue) × (g : Waiting) × (dequeue q ≡ some (task, r))
        × ((k : ℕ) → f (task.priority + suc k) ≡ [])
        × ((p : ℕ) → f p ≡ (if task.priority == p then task ∷ g p else g p))
        × Answers g r calls)
Answers f q (closes ∷ calls) = Answers nothing (close_queue q) calls

of_priority-Answers :
    (calls : List Call) (f : Waiting) (q : PriorityQueue)
    → IsValid q
    → ((p : ℕ) → of_priority p q.tasks ≡ f p)
    → Answers f q calls
unfolding Answers of_priority close_queue
of_priority-Answers [] f q v e = tt
of_priority-Answers (enqueues task ∷ calls) f q v e = elim (enqueue_lem task q v) [
  | inl (refused, full) ↦ inl (refused, full, of_priority-Answers calls f q v e)
  | inr (r, accepted, w, h) ↦ inr (
    r,
    accepted,
    of_priority-Answers calls (joined task f) r w
        (λ p. h p ∙ ap (λ ts. ts ++ (if task.priority == p then task ∷ [] else [])) (e p)),
  )
]
of_priority-Answers (dequeues ∷ calls) f q v e = elim (dequeue_lem q v) [
  | inl (refused, empty) ↦
      inl (refused, λ p. sym (e p) ∙ ap (of_priority p) empty, of_priority-Answers calls f q v e)
  | inr (task, r, given, taken) ↦ inr (
    task,
    r,
    (λ p. of_priority p r.tasks),
    given,
    (λ k.
        sym (e (task.priority + suc k))
        ∙ of_priority_above (task.priority + suc k) q.tasks task.priority taken.1 (omega arith)),
    (λ p. sym (e p) ∙ taken.2 p),
    of_priority-Answers calls (λ p. of_priority p r.tasks) r taken.0 (λ p. refl),
  )
]
of_priority-Answers (closes ∷ calls) f q v e =
    of_priority-Answers calls nothing (close_queue q)
      (record { sorted = tt; bounded = omega arith }) (λ p. refl)

-- In every sequence of calls on a new queue, Enqueue refuses a task only when the queue is full, and
-- Dequeue gives, of the tasks that Enqueue accepted and that no Dequeue gave and no Close dropped,
-- the one of the highest priority that was accepted first, and gives nothing only if there is none.
pub new_priority_queue-Answers :
    (max_size : ℕ) (calls : List Call) → Answers nothing (new_priority_queue max_size) calls
unfolding new_priority_queue of_priority
new_priority_queue-Answers max_size calls =
    of_priority-Answers calls nothing (new_priority_queue max_size)
      (record { sorted = tt; bounded = omega arith }) (λ p. refl)
