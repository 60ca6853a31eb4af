-- ===== src/Utils/Tests.antt =====
-- The shared data structures on concrete inputs.
mod Goroutines
use data_middleware.Prelude.{
  inl, ℕ, ◌+◌, pos, inr, true, false, refl, nat_eq, ◌≡◌, List, [], ◌∷◌, none, some, arith,
}
use data_middleware.Utils.RingBuffer.{new_ring_buffer}
use data_middleware.Utils.RingBuffer.Fifo.{
  Call, writes, reads, wrote, gave, run, run_queue, run-run_queue,
}
use data_middleware.Utils.Bulk.{new_bulk_allocator}
use data_middleware.Utils.Bulk.Numbers
use data_middleware.Utils.Bulk.Numbers.{numbers, run-numbers}
use data_middleware.Utils.Pool.{ObjectFactory, PoolConfig, ObjectPool, get, new_object_pool}
use data_middleware.Utils.Pool.Items.{AllInUse}
use data_middleware.Utils.Pool.Outcome.{GetOutcome, get-GetOutcome}
use data_middleware.Utils.Pool.Accounts
use data_middleware.Utils.Pool.Counts.{IsPool}
use data_middleware.Utils.Pool.Accounts.{run_stuck, run-new_object_pool}
use data_middleware.Utils.TimeWheel.{TimeWheel, new_time_wheel, add_task, tick, ticks_of}
use data_middleware.Utils.TimeWheel.Delays.{new_wheel, after_tick, fired, fired-add_task}
use data_middleware.Prelude.Assoc.{lookup}
use data_middleware.Utils.Errors
use data_middleware.Utils.Errors.{BusinessError}
use data_middleware.Utils.Errors.Stats
use data_middleware.Utils.Errors.Stats.{
  ErrorCall, handles, handles_with, resets, occurrences, codes_since, get_error_stats-run,
}
use data_middleware.Utils.Lru.{new_lru_cache}
use data_middleware.Utils.Lru.Calls
use data_middleware.Utils.Lru.Calls.{
  LruCall, call_set, call_get, call_delete, call_len, done, found, counted, call_list, run_list,
  list_set, list_get,
}
use data_middleware.Utils.Lru.Refines.{run-run_list}

abbrev calls : List Call
calls = writes (1 ∷ 2 ∷ 3 ∷ []) ∷ reads 2 ∷ writes (4 ∷ 5 ∷ 6 ∷ []) ∷ reads 9 ∷ []

run-run_queue_example :
    run (new_ring_buffer 4) calls
    ≡ (wrote 3 ∷ gave (1 ∷ 2 ∷ []) ∷ wrote 2 ∷ gave (3 ∷ 4 ∷ 5 ∷ []) ∷ [])
unfolding run_queue
run-run_queue_example = run-run_queue 4 calls (omega arith)

-- Get of 1 puts it in front, so that Set of 3 drops 2.
abbrev lru_calls : List (LruCall ℕ ℕ)
lru_calls =
    call_set 1 10
    ∷ call_set 2 20
    ∷ call_get 1
    ∷ call_set 3 30
    ∷ call_get 2
    ∷ call_get 1
    ∷ call_delete 1
    ∷ call_len
    ∷ []

run-run_list_example :
    Calls.run lru_calls (new_lru_cache 2)
    ≡ (done ∷ done ∷ found (some 10) ∷ done ∷ found none ∷ found (some 10) ∷ done ∷ counted 1 ∷ [])
unfolding call_list run_list list_set list_get
run-run_list_example = run-run_list 2 lru_calls

-- Slots of 10 ms, four of them, one tick on: 50 ms are five ticks, and the fifth of four is the
-- tick number 1.
abbrev wheel : TimeWheel ℕ
wheel = (tick (new_time_wheel (pos 10) (pos 4))).0

fired-add_task_example : fired 1 (add_task (pos 50) 7 wheel).0 ≡ 7 ∷ []
unfolding fired tick new_time_wheel ticks_of
fired-add_task_example =
    fired-add_task 1 49 5 7 wheel
      (after_tick (new_time_wheel (pos 10) (pos 4)) (new_wheel (pos 10) (pos 4)))
      (inl (omega arith, omega arith, omega arith))

-- A factory of the numbers from 100 on, and a pool that makes one object and could hold two.
abbrev factory : ObjectFactory ℕ ℕ
factory = record {
  create = λ s. (s + 1, some (100 + s));
  destroy = λ t s. (s, false);
  reset = λ t s. (s, false);
}

abbrev config : PoolConfig
config = record { max_size = 2; init_size = 1; max_idle_time = 50 }

-- It with its object in use.
abbrev busy_pool : ObjectPool ℕ
busy_pool = record {
  config = config;
  items = record { object = 100; created_at = 1; last_used = 2; in_use = true } ∷ [];
  created = 1;
  used = 1;
  stopped = false;
  locked = false;
}

busy : AllInUse busy_pool.items
unfolding AllInUse
busy = (refl, tt)

run_stuck_example :
    Accounts.run factory (Accounts.call_get 3 ∷ Accounts.call_put 4 100 ∷ []) busy_pool 1
    ≡ (record busy_pool { locked = true }, 2)
run_stuck_example =
    run_stuck factory 3 101 busy_pool 1 (Accounts.call_put 4 100 ∷ []) refl busy (inr (omega arith))
      refl

run-new_object_pool_example :
    let (p, s1) = new_object_pool factory config 0 0 in
    IsPool (Accounts.run factory (Accounts.call_get 3 ∷ Accounts.call_cleanup 90 ∷ []) p s1).0
run-new_object_pool_example =
    run-new_object_pool factory config 0 0 (Accounts.call_get 3 ∷ Accounts.call_cleanup 90 ∷ [])

run-numbers_example :
    Numbers.run
      (Numbers.call_allocate ∷ Numbers.call_allocate ∷ Numbers.call_reset ∷ Numbers.call_allocate
        ∷ [])
      (new_bulk_allocator 64 1)
    ≡ some 0 ∷ some 1 ∷ some 0 ∷ []
unfolding numbers
run-numbers_example =
    run-numbers 64 1
      (Numbers.call_allocate ∷ Numbers.call_allocate ∷ Numbers.call_reset ∷ Numbers.call_allocate
        ∷ [])
      (omega arith)

abbrev token_error : BusinessError ℕ ℕ
token_error = Errors.new 4006 []

abbrev error_calls : List (ErrorCall ℕ ℕ)
error_calls =
    handles [] (some (Errors.Error.foreign 3))
    ∷ resets
    ∷ handles_with (some (Errors.Error.business token_error)) 5001 []
    ∷ handles_with (some (Errors.Error.foreign 7)) 4006 []
    ∷ handles [] none
    ∷ []
