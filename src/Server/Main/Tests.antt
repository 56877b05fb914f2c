-- ===== src/Server/Main/Tests.antt =====
-- The server's main loop at concrete orders of events.
use linux_cat.Common.{
  length, ◌≤◌, ◌+◌, ℕ, zero, suc, ◌+◌, ◌≡◌, refl, true, false, List, [], ◌∷◌, ◌++◌, map, some, none,
  replicate, arith,
}
use linux_cat.Pool.{
  ThreadPool, thread_pool_create, thread_pool_add, worker_pass, manager_grow, thread_pool_busy_num,
  manager_shrink,
}
use linux_cat.Pool.System.{start, worker_ids, step, manager_turn}
use linux_cat.Pool.System.Counts.{Made, count}
use linux_cat.Pool.System.Fifo.{pending}
use linux_cat.Pool.System.Lost.{is_lost, IsStalled}
use linux_cat.Server.Main.{
  Happening, works, ends_task, manages, goes_on, connection, happen, serve_all, begin,
}
use linux_cat.Server.Main.Order.{in_hand, connections_in_order}
use linux_cat.Server.Main.Stall.{closed_connections_stall}

abbrev ids : ℕ → ℕ
ids i = 100 + i

abbrev more : ℕ → ℕ
more i = 200 + i

abbrev pool : ThreadPool
pool = record {
  task_q = replicate 100 (connection 0);
  queue_capacity = 100;
  queue_size = 0;
  queue_front = 0;
  queue_rear = 0;
  thread_ids = 100 ∷ 101 ∷ 102 ∷ replicate 7 0;
  min_num = 3;
  max_num = 10;
  busy_num = 0;
  live_num = 3;
  exit_num = 0;
  shutdown = false;
}

Made-pool : Made 3 10 100 ids pool
unfolding thread_pool_create
Made-pool = record {
  alloc = record { pool_ok = true; ids_ok = true; sync_ok = true; garbage = false };
  junk = replicate 100 (connection 0);
  few = omega arith;
  room = omega arith;
  array = refl;
  made = refl;
}

-- A connection `cfd` comes in at the listening socket 4, and is handed over.
abbrev connects : ℕ → List Happening
connects cfd =
    goes_on (record { ready = record { events = 1; fd = 4 } ∷ []; cfd = none })
    ∷ goes_on (record { ready = []; cfd = some cfd })
    ∷ goes_on (record { ready = []; cfd = none })
    ∷ goes_on (record { ready = []; cfd = none })
    ∷ []

abbrev connect_all : ℕ → ℕ → List Happening
connect_all zero cfd = []
connect_all (suc n) cfd = connects cfd ++ connect_all n (cfd + 1)

-- Two connections, the first of which a worker takes up.
abbrev morning : List Happening
morning = connects 10 ++ (works 1 ∷ connects 11)

connections_in_order_example :
    map connection (serve_all 4 (begin pool ids) morning).accepted
    ≡ (serve_all 4 (begin pool ids) morning).system.taken_tasks
      ++ (pending (serve_all 4 (begin pool ids) morning).system.pool
          ++ in_hand (serve_all 4 (begin pool ids) morning).main)
connections_in_order_example = connections_in_order 4 morning Made-pool

morning_runs :
    ((serve_all 4 (begin pool ids) morning).accepted ≡ 10 ∷ 11 ∷ [])
    × ((serve_all 4 (begin pool ids) morning).system.taken_tasks ≡ connection 10 ∷ [])
unfolding serve_all happen begin start worker_ids step thread_pool_add worker_pass
morning_runs = (refl, refl)

-- The manager's round, and a worker whose connection is closed.
abbrev manager_round : List Happening
manager_round = manages more ∷ manages more ∷ manages more ∷ manages more ∷ manages more ∷ []

abbrev loses : ℕ → List Happening
loses zero = []
loses (suc i) = works i ∷ works i ∷ ends_task i ∷ loses i

-- Twelve connections bring the pool to ten workers, and ten of them are closed.
abbrev long_day : List Happening
long_day =
    connect_all 12 10
    ++ (manager_round ++ (manager_round ++ (manager_round ++ (manager_round ++ loses 10))))

long_day_runs :
    ((serve_all 4 (begin pool ids) long_day).system.pool.max_num ≡ 10)
    × (count is_lost (serve_all 4 (begin pool ids) long_day).system.workers ≡ 10)
unfolding serve_all happen begin start worker_ids step thread_pool_add worker_pass manager_turn
    manager_grow thread_pool_busy_num manager_shrink
long_day_runs = (refl, refl)

long_day_stalls : IsStalled (serve_all 4 (begin pool ids) long_day).system
long_day_stalls = omega (arith, long_day_runs)

closed_connections_stall_example :
    ((serve_all 4
        (serve_all 4 (begin pool ids) long_day)
        (connects 40 ++ (works 3 ∷ []))).system.taken_tasks
      ≡ (serve_all 4 (begin pool ids) long_day).system.taken_tasks)
    × (length
          (serve_all 4
            (serve_all 4 (begin pool ids) long_day)
            (connects 40 ++ (works 3 ∷ []))).accepted
        ≤ length (serve_all 4 (begin pool ids) long_day).system.taken_tasks + 101)
closed_connections_stall_example =
    closed_connections_stall 4 long_day (connects 40 ++ (works 3 ∷ [])) Made-pool long_day_stalls
