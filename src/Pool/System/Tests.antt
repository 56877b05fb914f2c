-- ===== src/Pool/System/Tests.antt =====
-- The pool's theorems at concrete pools and schedules, and runs of its code.
use linux_cat.Common.{ℕ, ◌+◌, ◌≡◌, refl, List, [], ◌∷◌, ◌++◌, true, false, arith}
use linux_cat.Pool.{
  Task, ThreadPool, Alloc, invalid_free, thread_pool_create, thread_pool_add, worker_pass,
  manager_grow,
}
use linux_cat.Pool.System.{
  System, Event, add, work, task_exits, manage, destroy, step, run, start, worker_ids, manager_turn,
}
use linux_cat.Pool.System.Counts.{Made, Inv, run-start-Inv}
use linux_cat.Pool.System.Fifo.{pending, run-start-IsFifo}
use linux_cat.Pool.System.Slots.{SlotsAgree, run-start-SlotsAgree}
use linux_cat.Pool.System.Calls.{IsShut, run-IsShut}
use linux_cat.Pool.System.Fair.{AllSpare}
use linux_cat.Pool.System.Fair.All.{tasks_get_taken}
use linux_cat.Pool.System.Drain.{left_at, shutdown_ends_workers}

abbrev task : ℕ → Task
task n = record { function = 7; arg = n }

abbrev ids : ℕ → ℕ
ids i = 100 + i

abbrev more : ℕ → ℕ
more i = 200 + i

abbrev works : Alloc
works = record { pool_ok = true; ids_ok = true; sync_ok = true; garbage = false }

-- One worker, room for two, two places in the queue.
abbrev small : ThreadPool
small = record {
  task_q = task 0 ∷ task 0 ∷ [];
  queue_capacity = 2;
  queue_size = 0;
  queue_front = 0;
  queue_rear = 0;
  thread_ids = 100 ∷ 0 ∷ [];
  min_num = 1;
  max_num = 2;
  busy_num = 0;
  live_num = 1;
  exit_num = 0;
  shutdown = false;
}

Made-small : Made 1 2 2 ids small
unfolding thread_pool_create
Made-small = record {
  alloc = works;
  junk = task 0 ∷ task 0 ∷ [];
  few = omega arith;
  room = omega arith;
  array = refl;
  made = refl;
}

-- Three adders, of which the third finds the ring full until the worker has taken a task.
abbrev busy_day : List Event
busy_day =
    add (task 1)
    ∷ add (task 2)
    ∷ add (task 3)
    ∷ work 0
    ∷ add (task 3)
    ∷ work 0
    ∷ manage more
    ∷ manage more
    ∷ manage more
    ∷ manage more
    ∷ work 1
    ∷ []

begun : System
unfolding start worker_ids
begun = start small (worker_ids 1 0 ids)

busy_day_runs :
    ((run begun busy_day).submitted ≡ task 1 ∷ task 2 ∷ task 3 ∷ [])
    × ((run begun busy_day).taken_tasks ≡ task 1 ∷ task 2 ∷ [])
    × (pending (run begun busy_day).pool ≡ task 3 ∷ [])
    × ((run begun busy_day).pool.thread_ids ≡ 100 ∷ 200 ∷ [])
unfolding begun run step thread_pool_add worker_pass manager_turn manager_grow
busy_day_runs = (refl, refl, refl, refl)

-- When the second allocation fails, the clean-up may free a pointer that was never set.
create_frees_garbage :
    thread_pool_create (record works { ids_ok = false; garbage = true }) 3 10 100 [] ids
    ≡ invalid_free
unfolding thread_pool_create
create_frees_garbage = refl

run-start-Inv_example : Inv (run begun busy_day)
unfolding begun
run-start-Inv_example = run-start-Inv busy_day Made-small

run-start-IsFifo_example :
    (run begun busy_day).submitted
    ≡ (run begun busy_day).taken_tasks ++ pending (run begun busy_day).pool
unfolding begun
run-start-IsFifo_example = run-start-IsFifo busy_day Made-small

run-start-SlotsAgree_example : SlotsAgree (run begun busy_day)
unfolding begun
run-start-SlotsAgree_example = run-start-SlotsAgree busy_day Made-small

-- A pool of one thread.
abbrev tiny : ThreadPool
tiny = record small { thread_ids = 100 ∷ []; max_num = 1 }

Made-tiny : Made 1 1 2 ids tiny
unfolding thread_pool_create
Made-tiny = record {
  alloc = works;
  junk = task 0 ∷ task 0 ∷ [];
  few = omega arith;
  room = omega arith;
  array = refl;
  made = refl;
}

-- The one client has come and gone, and the thread with it.
gone : System
unfolding start worker_ids
gone = run (start tiny (worker_ids 1 0 ids)) (add (task 1) ∷ work 0 ∷ work 0 ∷ task_exits 0 ∷ [])

gone-Inv : Inv gone
unfolding gone
gone-Inv = run-start-Inv _ Made-tiny

-- A pool of one thread, told to stop while a task runs, and another is queued.
shut : System
unfolding start worker_ids
shut =
    run (start tiny (worker_ids 1 0 ids))
      (add (task 1) ∷ add (task 2) ∷ work 0 ∷ work 0 ∷ destroy ∷ [])

run-IsShut_example : IsShut shut (run shut (add (task 3) ∷ work 0 ∷ work 0 ∷ work 0 ∷ []))
unfolding shut run step thread_pool_add worker_pass
run-IsShut_example =
    run-IsShut shut (add (task 3) ∷ work 0 ∷ work 0 ∷ work 0 ∷ []) refl refl
      (tt, (tt, (tt, (tt, tt))))

abbrev to_the_end : List Event
to_the_end = work 0 ∷ work 0 ∷ add (task 3) ∷ work 0 ∷ work 0 ∷ manage more ∷ work 0 ∷ []

shutdown_ends_workers_example :
    (left_at 0 (run shut to_the_end).workers ≡ 0) × ((run shut to_the_end).use_after_free ≡ false)
unfolding shut run step thread_pool_add worker_pass
shutdown_ends_workers_example =
    shutdown_ends_workers shut 0 to_the_end (omega arith) refl refl refl
      (tt, (tt, (tt, (tt, (tt, (tt, (tt, tt))))))) (omega arith)

-- The worker sleeps on `notEmpty` when `threadPoolDestroy` is called.
asleep_at_call : System
unfolding start worker_ids
asleep_at_call = run (start tiny (worker_ids 1 0 ids)) (work 0 ∷ [])

-- Two tasks wait, and the worker stands at the head of its loop.
two_wait : System
unfolding start worker_ids
two_wait = run (start small (worker_ids 1 0 ids)) (add (task 1) ∷ add (task 2) ∷ [])

-- The manager, another worker and another task come in between.
abbrev mixed : List Event
mixed =
    work 0
    ∷ manage more
    ∷ work 0
    ∷ work 0
    ∷ work 0
    ∷ manage more
    ∷ manage more
    ∷ manage more
    ∷ add (task 3)
    ∷ work 0
    ∷ work 1
    ∷ work 0
    ∷ work 0
    ∷ work 0
    ∷ []

mixed-AllSpare : AllSpare 0 mixed
mixed-AllSpare =
    (tt, (tt, (tt, (tt, (tt, (tt, (tt, (tt, (tt, (tt, (tt, (tt, (tt, (tt, tt))))))))))))))

tasks_get_taken_example :
    (rest : List Task) × ((run two_wait mixed).taken_tasks ≡ two_wait.submitted ++ rest)
unfolding two_wait run step thread_pool_add
tasks_get_taken_example =
    tasks_get_taken (add (task 1) ∷ add (task 2) ∷ []) two_wait 0 mixed Made-small refl refl refl
      refl mixed-AllSpare (omega arith)
