-- ===== src/Pool.antt =====
-- The thread pool of a_cat/server/pthreadpool/pthreadpool.c and include/pthreadpool.h: the struct,
-- and one function for each stretch of code that runs under a lock. A task's function and argument
-- are numbers. Workers, the manager and the destroyer are interleaved in Pool/System.antt.
pub mod Valid
pub mod System
use linux_cat.Common.{
  ℕ, zero, suc, ◌+◌, ◌-◌, ◌*◌, ◌%◌, Bool, true, false, not, ◌&&◌, ◌||◌, List, [], ◌∷◌, Option, none,
  some, ltb, ◌==◌, if◌then◌else◌, get_elem?, set, replicate,
}

-- `struct Task`
pub record Task : Type 0 where
  pub function : ℕ
  pub arg : ℕ

-- `struct ThreadPool`. `task_q` is the malloc'ed array; a zero in `thread_ids` is a free slot.
pub record ThreadPool : Type 0 where
  pub task_q : List Task
  pub queue_capacity : ℕ
  pub queue_size : ℕ
  pub queue_front : ℕ
  pub queue_rear : ℕ
  pub thread_ids : List ℕ
  pub min_num : ℕ
  pub max_num : ℕ
  pub busy_num : ℕ
  pub live_num : ℕ
  pub exit_num : ℕ
  pub shutdown : Bool

-- `NUMBERE`: how many threads the manager starts or retires at a time.
abbrev pub numbere : ℕ
numbere = 2

-- What the allocator and the pthread library answer while a pool is made. `garbage` says whether
-- the uninitialised word at `pool->taskQ` is not null.
pub record Alloc : Type 0 where
  pub pool_ok : Bool
  pub ids_ok : Bool
  pub sync_ok : Bool
  pub garbage : Bool

-- `invalid_free`: the clean-up frees the uninitialised `pool->taskQ`.
pub data Create : Type 0 where
  created : ThreadPool → Create
  failed : Create
  invalid_free : Create

-- `for (i = …; i < min; ++i) pthread_create(&threadIDs[i], …)`, with the rounds left first.
pub start_workers : ℕ → ℕ → (ℕ → ℕ) → List ℕ → List ℕ
start_workers zero i new_id ids = ids
start_workers (suc n) i new_id ids = start_workers n (i + 1) new_id (set ids i (new_id i))

-- `threadPoolCreate`. `junk` is what malloc leaves in the task array, and `new_id i` the thread id
-- that pthread_create stores for worker `i`.
unfoldable pub thread_pool_create : Alloc → ℕ → ℕ → ℕ → List Task → (ℕ → ℕ) → Create
unfolding start_workers
thread_pool_create a min max queue_size junk new_id =
    if not a.pool_ok
    then failed
    else if not a.ids_ok || not a.sync_ok
    then (if a.garbage then invalid_free else failed)
    else created (record {
      task_q = junk;
      queue_capacity = queue_size;
      queue_size = 0;
      queue_front = 0;
      queue_rear = 0;
      thread_ids = start_workers min 0 new_id (replicate max 0);
      min_num = min;
      max_num = max;
      busy_num = 0;
      live_num = min;
      exit_num = 0;
      shutdown = false;
    })

-- What `threadPoolAdd` does when it holds the lock: it waits on `notFull` (and tests again when it
-- wakes), gives up at shutdown, or adds the task.
pub data Add : Type 0 where
  waits : Add
  refused : Add
  added : ThreadPool → Add

unfoldable pub thread_pool_add : ThreadPool → Task → Add
thread_pool_add pool t =
    if pool.queue_size == pool.queue_capacity && not pool.shutdown
    then waits
    else if pool.shutdown
    then refused
    else added (record pool {
      task_q = set pool.task_q pool.queue_rear t;
      queue_rear = (pool.queue_rear + 1) % pool.queue_capacity;
      queue_size = pool.queue_size + 1;
    })

unfoldable pub thread_pool_busy_num : ThreadPool → ℕ
thread_pool_busy_num pool = pool.busy_num

pub thread_pool_alive_num : ThreadPool → ℕ
thread_pool_alive_num pool = pool.live_num

-- How a worker leaves its critical section: into `pthread_cond_wait`, into `threadExit` with
-- `liveNum` taken down, into `threadExit` at shutdown, or with a task (`none` for a read of the
-- task array out of range).
pub data Act : Type 0 where
  sleeps : Act
  retires : Act
  closes : Act
  takes : Option Task → Act

-- `worker` from the test of the inner `while` on, the lock held.
unfoldable pub worker_pass : ThreadPool → Act × ThreadPool
worker_pass pool =
    if pool.queue_size == 0 && not pool.shutdown
    then (sleeps, pool)
    else if pool.shutdown
    then (closes, pool)
    else (
      takes (get_elem? pool.task_q pool.queue_front),
      record pool {
        queue_front = (pool.queue_front + 1) % pool.queue_capacity;
        queue_size = pool.queue_size - 1;
      },
    )

-- `worker` from the return of `pthread_cond_wait` on.
pub worker_wake : ThreadPool → Act × ThreadPool
unfolding worker_pass
worker_wake pool =
    let awake = record pool { exit_num = pool.exit_num - 1 } in
    if ltb 0 pool.exit_num
    then (if ltb pool.min_num pool.live_num
        then (retires, record awake { live_num = pool.live_num - 1 })
        else worker_pass awake)
    else worker_pass pool

-- `threadExit`: the first slot with this thread's id is cleared.
pub clear_id : ℕ → List ℕ → List ℕ
clear_id tid [] = []
clear_id tid (x ∷ xs) = if x == tid then 0 ∷ xs else x ∷ clear_id tid xs

pub thread_exit : ThreadPool → ℕ → ThreadPool
unfolding clear_id
thread_exit pool tid = record pool { thread_ids = clear_id tid pool.thread_ids }

-- What the manager's `for` has done so far: the slots, the ids of the new threads, `liveNum`.
pub record Grown : Type 0 where
  pub slots : List ℕ
  pub born : List ℕ
  pub live : ℕ

-- The `for` of `manager` that fills free slots. `new_id k` is the id of the k-th thread it starts.
pub grow_from : ℕ → (ℕ → ℕ) → List ℕ → ℕ → ℕ → Grown
grow_from max new_id [] counter live = record { slots = []; born = []; live = live }
grow_from max new_id (x ∷ xs) counter live =
    let here = x == 0 in
    let rest =
      grow_from max new_id xs (if here then counter + 1 else counter)
        (if here then live + 1 else live) in
    if ltb counter numbere && ltb live max
    then (record {
      slots = (if here then new_id counter else x) ∷ rest.slots;
      born = if here then new_id counter ∷ rest.born else rest.born;
      live = rest.live;
    })
    else record { slots = x ∷ xs; born = []; live = live }

unfoldable pub manager_grow : ThreadPool → (ℕ → ℕ) → ThreadPool × List ℕ
unfolding grow_from
manager_grow pool new_id =
    let g = grow_from pool.max_num new_id pool.thread_ids 0 pool.live_num in
    (record pool { thread_ids = g.slots; live_num = g.live }, g.born)

unfoldable pub manager_shrink : ThreadPool → ThreadPool
manager_shrink pool = record pool { exit_num = numbere }
