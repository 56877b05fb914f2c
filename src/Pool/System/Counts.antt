-- ===== src/Pool/System/Counts.antt =====
-- What the pool's counters count, in every state that the threads can reach.
use linux_cat.Common.{
  ℕ, zero, suc, ◌+◌, ◌≤◌, ◌<◌, ◌≡◌, refl, ap, List, [], ◌∷◌, map, Option, none, some, arith, length,
  get_elem?, get_elem?-some, ◌*◌, total, total-set, total-append,
}
use linux_cat.Pool.{
  Alloc, created, thread_pool_create, ThreadPool, Add, waits, refused, added, Task, thread_pool_add,
  worker_pass, worker_wake, thread_exit, manager_grow, manager_shrink,
}
use linux_cat.Pool.Valid.{
  IsValid, thread_pool_create-IsValid, thread_pool_add-IsValid, worker_pass-IsValid,
  worker_wake-IsValid, manager_grow-IsValid, grow_from_bounds,
}
use linux_cat.Pool.System.{
  Pc, at_top, asleep, running, finished, retiring, retired, lost, Worker, ManagerPc, checking,
  ready, trimming, System, Event, add, work, task_exits, manage, destroy, release, act_turn,
  worker_turn, exits, spawn, manager_turn, add_task, work_on, exit_task, manage_on, free_pool, step,
  run, start, worker_ids, Turn, Managed,
}

-- A worker between `busyNum++` and `busyNum--`.
abbrev pub is_busy : Pc → ℕ
is_busy (running _) = 1
is_busy finished = 1
is_busy lost = 1
is_busy _ = 0

-- A worker that `liveNum` counts.
abbrev pub is_live : Pc → ℕ
is_live retiring = 0
is_live retired = 0
is_live _ = 1

abbrev pub count : (Pc → ℕ) → List Worker → ℕ
count f ws = total (λ w. f w.pc) ws

pub record Inv (s : System) : Type 0 where
  pub pool_ok : IsValid s.pool
  pub busy : s.pool.busy_num ≡ count is_busy s.workers
  pub live : s.pool.live_num ≡ count is_live s.workers

-- One turn of a worker keeps the pool valid and moves the counters with the worker.
record Balanced (p : ThreadPool) (pc : Pc) (r : Turn) : Type 0 where
  pool_ok : IsValid r.pool
  busy : r.pool.busy_num + is_busy pc ≡ p.busy_num + is_busy r.pc
  live : r.pool.live_num + is_live pc ≡ p.live_num + is_live r.pc

worker_pass-Balanced : {p : ThreadPool} → IsValid p → Balanced p at_top (act_turn (worker_pass p))
unfolding worker_pass act_turn
worker_pass-Balanced {p} v = record {
  pool_ok = worker_pass-IsValid v;
  busy = ground (arith, get_elem?-some p.task_q p.queue_front);
  live = ground (arith, get_elem?-some p.task_q p.queue_front);
}

worker_wake-Balanced : {p : ThreadPool} → IsValid p → Balanced p asleep (act_turn (worker_wake p))
unfolding worker_wake act_turn
worker_wake-Balanced {p} v = record {
  pool_ok = worker_wake-IsValid v;
  busy = ground (arith, get_elem?-some p.task_q p.queue_front);
  live = ground (arith, get_elem?-some p.task_q p.queue_front);
}

worker_turn-Balanced :
    {p : ThreadPool} (tid : ℕ) (pc : Pc)
    → IsValid p
    → is_busy pc ≤ p.busy_num
    → Balanced p pc (worker_turn p tid pc)
unfolding worker_turn thread_exit
worker_turn-Balanced tid at_top v h = worker_pass-Balanced v
worker_turn-Balanced tid asleep v h = worker_wake-Balanced v
worker_turn-Balanced tid pc v h = omega arith

get-le-total :
    (f : Pc → ℕ) (ws : List Worker) (i : ℕ) {w : Worker}
    → get_elem? ws i ≡ some w
    → f w.pc ≤ count f ws
get-le-total f [] i e = ground arith
get-le-total f (x ∷ ws) zero e = ground arith
get-le-total f (x ∷ ws) (suc i) e = omega (arith, get-le-total f ws i e)

count-spawn :
    (f : Pc → ℕ) (n : ℕ) (ids : List ℕ) → f at_top ≡ n → count f (map spawn ids) ≡ n * length ids
unfolding spawn
count-spawn f n [] e = omega arith
count-spawn f n (x ∷ ids) e = omega (arith, count-spawn f n ids e)

work_on-Inv :
    (s : System) (i : ℕ) (o : Option Worker)
    → get_elem? s.workers i ≡ o
    → Inv s
    → Inv (work_on s i o)
unfolding work_on
work_on-Inv s i none e v = v
work_on-Inv s i (some w) e v =
    let b =
      worker_turn-Balanced w.tid w.pc v.pool_ok
        (omega (arith, get-le-total is_busy s.workers i e)) in
    let w' : Worker = record w { pc = (worker_turn s.pool w.tid w.pc).pc } in
    record {
      pool_ok = b.pool_ok;
      busy = omega (arith, b.busy, total-set (λ (x : Worker). is_busy x.pc) s.workers i w' e);
      live = omega (arith, b.live, total-set (λ (x : Worker). is_live x.pc) s.workers i w' e);
    }

exits-counts : (pc : Pc) → (is_busy (exits pc) ≡ is_busy pc) × (is_live (exits pc) ≡ is_live pc)
unfolding exits
exits-counts at_top = (refl, refl)
exits-counts pc = (refl, refl)

exit_task-Inv :
    (s : System) (i : ℕ) (o : Option Worker)
    → get_elem? s.workers i ≡ o
    → Inv s
    → Inv (exit_task s i o)
unfolding exit_task
exit_task-Inv s i none e v = v
exit_task-Inv s i (some w) e v =
    let w' : Worker = record w { pc = exits w.pc } in
    record {
      pool_ok = v.pool_ok;
      busy = omega (
        arith,
        v.busy,
        exits-counts w.pc,
        total-set (λ (x : Worker). is_busy x.pc) s.workers i w' e,
      );
      live = omega (
        arith,
        v.live,
        exits-counts w.pc,
        total-set (λ (x : Worker). is_live x.pc) s.workers i w' e,
      );
    }

record ManagedOk (p : ThreadPool) (m : Managed) : Type 0 where
  pool_ok : IsValid m.pool
  busy : m.pool.busy_num ≡ p.busy_num
  live : m.pool.live_num ≡ p.live_num + length m.born

manager_grow_ok :
    {p : ThreadPool} (new_id : ℕ → ℕ)
    → IsValid p
    → let (q, born) = manager_grow p new_id in
      (q.busy_num ≡ p.busy_num) × (q.live_num ≡ p.live_num + length born)
unfolding manager_grow
manager_grow_ok {p} new_id v =
    ground (arith, grow_from_bounds p.max_num new_id p.thread_ids 0 p.live_num)

manager_turn_ok :
    {p : ThreadPool} (new_id : ℕ → ℕ) (pc : ManagerPc)
    → IsValid p
    → ManagedOk p (manager_turn p new_id pc)
unfolding manager_turn manager_shrink
manager_turn_ok new_id checking v = omega arith
manager_turn_ok new_id (ready queue_size live_num busy_num) v =
    ground (arith, manager_grow_ok new_id v, manager_grow-IsValid new_id v)
manager_turn_ok new_id (trimming live_num busy_num) v = ground arith
manager_turn_ok new_id _ v = omega arith

manage_on-Inv : (s : System) (m : Managed) → ManagedOk s.pool m → Inv s → Inv (manage_on s m)
unfolding manage_on
manage_on-Inv s m ok v = record {
  pool_ok = ok.pool_ok;
  busy = omega (
    arith,
    ok.busy,
    total-append (λ (x : Worker). is_busy x.pc) s.workers (map spawn m.born),
    count-spawn is_busy 0 m.born refl,
  );
  live = omega (
    arith,
    ok.live,
    total-append (λ (x : Worker). is_live x.pc) s.workers (map spawn m.born),
    count-spawn is_live 1 m.born refl,
  );
}

thread_pool_add-counts :
    (p : ThreadPool) {q : ThreadPool} (t : Task)
    → thread_pool_add p t ≡ added q
    → (q.busy_num ≡ p.busy_num) × (q.live_num ≡ p.live_num)
unfolding thread_pool_add
thread_pool_add-counts p t e = ground arith

add_task-Inv :
    (s : System) (t : Task) (a : Add) → thread_pool_add s.pool t ≡ a → Inv s → Inv (add_task s t a)
unfolding add_task
add_task-Inv s t waits e v = v
add_task-Inv s t refused e v = v
add_task-Inv s t (added q) e v = record {
  pool_ok = thread_pool_add-IsValid t v.pool_ok e;
  busy = omega (arith, thread_pool_add-counts s.pool t e);
  live = omega (arith, thread_pool_add-counts s.pool t e);
}

pub step-Inv : (s : System) (e : Event) → Inv s → Inv (step s e)
unfolding step free_pool
step-Inv s (add t) v = add_task-Inv s t (thread_pool_add s.pool t) refl v
step-Inv s (work i) v = work_on-Inv s i (get_elem? s.workers i) refl v
step-Inv s (task_exits i) v = exit_task-Inv s i (get_elem? s.workers i) refl v
step-Inv s (manage new_id) v = manage_on-Inv s _ (manager_turn_ok new_id s.manager v.pool_ok) v
step-Inv s destroy v = record { pool_ok = omega arith; busy = v.busy; live = v.live }
step-Inv s release v = ground arith

-- From any state with the invariant, every schedule of events keeps it.
pub run-Inv : (s : System) (es : List Event) → Inv s → Inv (run s es)
unfolding run
run-Inv s [] v = v
run-Inv s (e ∷ es) v = run-Inv (step s e) es (step-Inv s e v)

length-worker_ids : (n i : ℕ) (new_id : ℕ → ℕ) → length (worker_ids n i new_id) ≡ n
unfolding worker_ids
length-worker_ids zero i new_id = refl
length-worker_ids (suc n) i new_id = ap suc (length-worker_ids n (i + 1) new_id)

-- What `threadPoolCreate` was given, and the pool that it made.
pub record Made (min max queue_size : ℕ) (new_id : ℕ → ℕ) (p : ThreadPool) : Type 0 where
  pub alloc : Alloc
  pub junk : List Task
  pub few : min ≤ max
  pub room : 0 < queue_size
  pub array : length junk ≡ queue_size
  pub made : thread_pool_create alloc min max queue_size junk new_id ≡ created p

pub start-Inv :
    {min max queue_size : ℕ} {new_id : ℕ → ℕ} {p : ThreadPool}
    → Made min max queue_size new_id p
    → Inv (start p (worker_ids min 0 new_id))
unfolding start thread_pool_create
start-Inv {min} {max} {queue_size = n} {new_id} {p} m = record {
  pool_ok = thread_pool_create-IsValid m.alloc min max n m.junk new_id m.few m.room m.array m.made;
  busy = ground (arith, m.made, count-spawn is_busy 0 (worker_ids min 0 new_id) refl);
  live = ground (
    arith,
    m.made,
    count-spawn is_live 1 (worker_ids min 0 new_id) refl,
    length-worker_ids min 0 new_id,
  );
}

-- On a pool that `threadPoolCreate` made with `min ≤ max` and a queue of at least one place, under
-- every schedule: the ring and the counters are valid (so `minNum ≤ liveNum ≤ maxNum` and the ring
-- indices are inside the array), `busyNum` is the number of workers that have done `busyNum++` and
-- not `busyNum--`, those whose task called `pthread_exit` included, and `liveNum` is the number of
-- workers that have not begun to retire, those included again.
pub run-start-Inv :
    {min max queue_size : ℕ} {new_id : ℕ → ℕ} {p : ThreadPool} (es : List Event)
    → Made min max queue_size new_id p
    → Inv (run (start p (worker_ids min 0 new_id)) es)
run-start-Inv es m = run-Inv _ es (start-Inv m)
