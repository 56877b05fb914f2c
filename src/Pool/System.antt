-- ===== src/Pool/System.antt =====
-- The threads of the pool, interleaved: each event lets one thread run up to its next release of a
-- lock. A thread in `pthread_cond_wait` may be woken at any time, as POSIX allows, so every order
-- of signals is covered. `pthread_create` is taken to succeed.
pub mod Counts
pub mod Fifo
pub mod Lost
pub mod Slots
pub mod Shutdown
pub mod Calls
pub mod Drain
pub mod Destroy
pub mod Open
pub mod Serve
pub mod Fair
mod Tests
use linux_cat.Common.{
  ℕ, zero, suc, ◌+◌, ◌-◌, ◌*◌, Bool, true, false, ◌&&◌, ◌||◌, List, [], ◌∷◌, ◌++◌, map, Option,
  none, some, ltb, if◌then◌else◌, get_elem?, set,
}
use linux_cat.Pool.{
  Task, ThreadPool, Add, added, Act, sleeps, retires, closes, takes, thread_pool_add,
  thread_pool_busy_num, worker_pass, worker_wake, thread_exit, manager_grow, manager_shrink,
}

-- Where a worker stands.
pub data Pc : Type 0 where
  at_top : Pc  -- before `pthread_mutex_lock` at the head of the loop
  asleep : Pc  -- in `pthread_cond_wait`
  got : Task → Pc  -- unlocked, before `busyNum++`
  running : Task → Pc  -- in `task.function(task.arg)`
  finished : Pc  -- before `busyNum--`
  retiring : Pc  -- in `threadExit`, `liveNum` already taken down
  closing : Pc  -- in `threadExit`, because of the shutdown
  retired : Pc
  closed : Pc
  lost : Pc  -- the task itself called `pthread_exit`

pub record Worker : Type 0 where
  pub tid : ℕ
  pub pc : Pc

-- Where the manager stands, with the numbers that it has read.
pub data ManagerPc : Type 0 where
  checking : ManagerPc
  sleeping : ManagerPc
  sized : (queue_size live_num : ℕ) → ManagerPc
  ready : (queue_size live_num busy_num : ℕ) → ManagerPc
  trimming : (live_num busy_num : ℕ) → ManagerPc
  stopped : ManagerPc

-- `submitted` and `taken_tasks` record the tasks that `threadPoolAdd` has added and that workers have
-- taken. `use_after_free` records an access to the pool after `threadPoolDestroy` has freed it: C gives no
-- meaning to what follows, and what a state says of the pool means something only as long as it is false.
pub record System : Type 0 where
  pub pool : ThreadPool
  pub workers : List Worker
  pub manager : ManagerPc
  pub freed : Bool
  pub use_after_free : Bool
  pub submitted : List Task
  pub taken_tasks : List Task

pub data Event : Type 0 where
  add : Task → Event
  work : ℕ → Event  -- the worker at this index goes on
  task_exits : ℕ → Event  -- the task of the worker at this index calls `pthread_exit`
  manage : (ℕ → ℕ) → Event  -- the manager goes on; ids for the threads it may start
  destroy : Event  -- `threadPoolDestroy` sets `shutdown`
  release : Event  -- it has joined the manager, and frees the pool

pub after_act : Act → Pc
after_act sleeps = asleep
after_act retires = retiring
after_act closes = closing
after_act (takes (some t)) = got t
after_act (takes none) = lost

pub taken : Act → List Task
taken (takes (some t)) = t ∷ []
taken _ = []

-- What one turn of a worker leaves: the pool, where the worker stands, the task that it took.
pub record Turn : Type 0 where
  pub pool : ThreadPool
  pub pc : Pc
  pub took : List Task

act_turn : Act × ThreadPool → Turn
unfolding after_act taken
act_turn (a, pool) = record { pool = pool; pc = after_act a; took = taken a }

pub worker_turn : ThreadPool → ℕ → Pc → Turn
unfolding act_turn
worker_turn pool tid at_top = act_turn (worker_pass pool)
worker_turn pool tid asleep = act_turn (worker_wake pool)
worker_turn pool tid (got t) = record {
  pool = record pool { busy_num = pool.busy_num + 1 };
  pc = running t;
  took = [];
}
worker_turn pool tid (running t) = record { pool = pool; pc = finished; took = [] }
worker_turn pool tid finished = record {
  pool = record pool { busy_num = pool.busy_num - 1 };
  pc = at_top;
  took = [];
}
worker_turn pool tid retiring = record { pool = thread_exit pool tid; pc = retired; took = [] }
worker_turn pool tid closing = record { pool = thread_exit pool tid; pc = closed; took = [] }
worker_turn pool tid pc = record { pool = pool; pc = pc; took = [] }

-- A `takes none`, a read out of range, is ruled out by the invariant.
-- A worker that has ended or that is inside its task does not touch the pool.
pub touches : Pc → Bool
touches (running _) = false
touches retired = false
touches closed = false
touches lost = false
touches _ = true

pub exits : Pc → Pc
exits (running t) = lost
exits pc = pc

pub spawn : ℕ → Worker
spawn tid = record { tid = tid; pc = at_top }

pub record Managed : Type 0 where
  pub pool : ThreadPool
  pub pc : ManagerPc
  pub born : List ℕ

-- `manager`, one stretch between two locks at a time.
unfoldable pub manager_turn : ThreadPool → (ℕ → ℕ) → ManagerPc → Managed
manager_turn pool new_id checking = record {
  pool = pool;
  pc = if pool.shutdown then stopped else sleeping;
  born = [];
}
manager_turn pool new_id sleeping = record {
  pool = pool;
  pc = sized pool.queue_size pool.live_num;
  born = [];
}
manager_turn pool new_id (sized queue_size live_num) = record {
  pool = pool;
  pc = ready queue_size live_num (thread_pool_busy_num pool);
  born = [];
}
manager_turn pool new_id (ready queue_size live_num busy_num) =
    let (grown, born) = manager_grow pool new_id in
    if ltb live_num queue_size && ltb live_num pool.max_num
    then (record { pool = grown; pc = trimming live_num busy_num; born = born })
    else record { pool = pool; pc = trimming live_num busy_num; born = [] }
manager_turn pool new_id (trimming live_num busy_num) = record {
  pool =
      if ltb (busy_num * 2) live_num && ltb pool.min_num live_num
      then manager_shrink pool
      else pool;
  pc = checking;
  born = [];
}
manager_turn pool new_id stopped = record { pool = pool; pc = stopped; born = [] }

add_task : System → Task → Add → System
add_task s t (added pool) = record s { pool = pool; submitted = s.submitted ++ (t ∷ []) }
add_task s t _ = s

work_on : System → ℕ → Option Worker → System
unfolding worker_turn touches
work_on s i none = s
work_on s i (some w) =
    let r = worker_turn s.pool w.tid w.pc in
    record s {
      pool = r.pool;
      workers = set s.workers i (record w { pc = r.pc });
      taken_tasks = s.taken_tasks ++ r.took;
      use_after_free = s.use_after_free || (s.freed && touches w.pc);
    }

exit_task : System → ℕ → Option Worker → System
unfolding exits
exit_task s i none = s
exit_task s i (some w) = record s { workers = set s.workers i (record w { pc = exits w.pc }) }

manage_on : System → Managed → System
unfolding spawn
manage_on s m = record s { pool = m.pool; manager = m.pc; workers = s.workers ++ map spawn m.born }

-- `pthread_join(managerID)` returns only when the manager has.
free_pool : System → ManagerPc → System
free_pool s stopped = record s { freed = true }
free_pool s _ = s

unfoldable pub step : System → Event → System
unfolding add_task work_on exit_task manage_on free_pool
step s (add t) = add_task s t (thread_pool_add s.pool t)
step s (work i) = work_on s i (get_elem? s.workers i)
step s (task_exits i) = exit_task s i (get_elem? s.workers i)
step s (manage new_id) = manage_on s (manager_turn s.pool new_id s.manager)
step s destroy = record s { pool = record s.pool { shutdown = true } }
step s release = free_pool s s.manager

pub run : System → List Event → System
run s [] = s
run s (e ∷ es) = run (step s e) es

-- The ids of the workers that `threadPoolCreate` starts, from worker `i` on.
unfoldable pub worker_ids : ℕ → ℕ → (ℕ → ℕ) → List ℕ
worker_ids zero i new_id = []
worker_ids (suc n) i new_id = new_id i ∷ worker_ids n (i + 1) new_id

-- The system that `threadPoolCreate` leaves: `ids` are the ids of the workers it started.
unfoldable pub start : ThreadPool → List ℕ → System
start pool ids = record {
  pool = pool;
  workers = map spawn ids;
  manager = checking;
  freed = false;
  use_after_free = false;
  submitted = [];
  taken_tasks = [];
}
