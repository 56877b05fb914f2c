-- ===== src/Pool/System/Slots.antt =====
-- The table `threadIDs`: which threads have a slot.
use linux_cat.Common.{
  ℕ, zero, suc, ◌+◌, ◌-◌, ◌≤◌, ◌<◌, ◌≡◌, ◌≢◌, refl, ap, ◌∙◌, List, [], ◌∷◌, map, Option, none, some,
  arith, get_elem?, get_elem?-set_ne, get_elem?-replicate, set, replicate, total, total-set,
  total-append, ◌==◌, if◌then◌else◌,
}
use linux_cat.Pool.{
  ThreadPool, thread_pool_add, thread_pool_create, start_workers, worker_pass, worker_wake,
  thread_exit, clear_id, manager_grow, manager_shrink, grow_from,
}
use linux_cat.Pool.System.{
  Pc, at_top, asleep, retiring, closing, retired, closed, Worker, ManagerPc, checking, ready,
  trimming, System, Event, add, work, task_exits, manage, destroy, release, act_turn, worker_turn,
  manager_turn, add_task, work_on, exit_task, exits, spawn, manage_on, free_pool, step, run, start,
  worker_ids,
}
use linux_cat.Pool.System.Counts.{Made}

-- How often an id stands in a list of ids.
abbrev pub occurs : ℕ → List ℕ → ℕ
occurs t ids = total (λ x. if x == t then 1 else 0) ids

-- A thread that has not been through `threadExit`.
abbrev pub has_slot : Pc → ℕ
has_slot retired = 0
has_slot closed = 0
has_slot _ = 1

-- How many such threads have an id.
abbrev pub holders : ℕ → List Worker → ℕ
holders t ws = total (λ w. if w.tid == t then has_slot w.pc else 0) ws

-- Each id other than 0 stands in the table once for each such thread that has it.
abbrev pub SlotsAgree : System → Type 0
SlotsAgree s = (t : ℕ) → t ≢ 0 → occurs t s.pool.thread_ids ≡ holders t s.workers

occurs-clear_ne :
    (t tid : ℕ) (ids : List ℕ) → t ≢ 0 → t ≢ tid → occurs t (clear_id tid ids) ≡ occurs t ids
unfolding clear_id
occurs-clear_ne t tid [] h k = refl
occurs-clear_ne t tid (x ∷ ids) h k = ground (arith, occurs-clear_ne t tid ids h k)

occurs-clear_self : (t : ℕ) (ids : List ℕ) → t ≢ 0 → occurs t (clear_id t ids) ≡ occurs t ids - 1
unfolding clear_id
occurs-clear_self t [] h = omega arith
occurs-clear_self t (x ∷ ids) h = ground (arith, occurs-clear_self t ids h)

occurs-grow :
    (t max : ℕ) (new_id : ℕ → ℕ) (ids : List ℕ) (counter live : ℕ)
    → t ≢ 0
    → let g = grow_from max new_id ids counter live in
      occurs t g.slots ≡ occurs t ids + occurs t g.born
unfolding grow_from
occurs-grow t max new_id [] counter live h = omega arith
occurs-grow t max new_id (x ∷ ids) counter live h = ground (
  arith,
  occurs-grow t max new_id ids counter live h,
  occurs-grow t max new_id ids (counter + 1) (live + 1) h,
)

holders-spawn : (t : ℕ) (ids : List ℕ) → holders t (map spawn ids) ≡ occurs t ids
unfolding spawn
holders-spawn t [] = refl
holders-spawn t (x ∷ ids) = ground (arith, holders-spawn t ids)

occurs-manager :
    (p : ThreadPool) (new_id : ℕ → ℕ) (pc : ManagerPc) (t : ℕ)
    → t ≢ 0
    → let m = manager_turn p new_id pc in
      occurs t m.pool.thread_ids ≡ occurs t p.thread_ids + occurs t m.born
unfolding manager_turn manager_grow manager_shrink
occurs-manager p new_id checking t h = omega arith
occurs-manager p new_id (ready queue_size live_num busy_num) t h =
    ground (arith, occurs-grow t p.max_num new_id p.thread_ids 0 p.live_num h)
occurs-manager p new_id (trimming live_num busy_num) t h = ground arith
occurs-manager p new_id pc t h = omega arith

ids-pass : (p : ThreadPool) → (act_turn (worker_pass p)).pool.thread_ids ≡ p.thread_ids
unfolding act_turn worker_pass
ids-pass p = ground arith

ids-wake : (p : ThreadPool) → (act_turn (worker_wake p)).pool.thread_ids ≡ p.thread_ids
unfolding act_turn worker_wake
ids-wake p = ground arith

has_slot-pass : (p : ThreadPool) → has_slot (act_turn (worker_pass p)).pc ≡ 1
unfolding act_turn worker_pass
has_slot-pass p = ground arith

has_slot-wake : (p : ThreadPool) → has_slot (act_turn (worker_wake p)).pc ≡ 1
unfolding act_turn worker_wake
has_slot-wake p = ground arith

-- One turn of a worker changes the table by its own slot only.
occurs-turn :
    (p : ThreadPool) (tid : ℕ) (pc : Pc) (t : ℕ)
    → t ≢ 0
    → (if tid == t then has_slot pc else 0) ≤ occurs t p.thread_ids
    → let r = worker_turn p tid pc in
      occurs t r.pool.thread_ids + (if tid == t then has_slot pc else 0)
      ≡ occurs t p.thread_ids + (if tid == t then has_slot r.pc else 0)
unfolding worker_turn thread_exit
occurs-turn p tid at_top t h k = rw (ids-pass p, has_slot-pass p)
occurs-turn p tid asleep t h k = rw (ids-wake p, has_slot-wake p)
occurs-turn p tid retiring t h k =
    ground (arith, occurs-clear_self t p.thread_ids h, occurs-clear_ne t tid p.thread_ids h)
occurs-turn p tid closing t h k =
    ground (arith, occurs-clear_self t p.thread_ids h, occurs-clear_ne t tid p.thread_ids h)
occurs-turn p tid pc t h k = refl

weight-le-holders :
    (t : ℕ) (ws : List Worker) (i : ℕ) {w : Worker}
    → get_elem? ws i ≡ some w
    → (if w.tid == t then has_slot w.pc else 0) ≤ holders t ws
weight-le-holders t [] i e = ground arith
weight-le-holders t (x ∷ ws) zero e = ground arith
weight-le-holders t (x ∷ ws) (suc i) e = omega (arith, weight-le-holders t ws i e)

work_on-SlotsAgree :
    (s : System) (i : ℕ) (o : Option Worker)
    → get_elem? s.workers i ≡ o
    → SlotsAgree s
    → SlotsAgree (work_on s i o)
unfolding work_on
work_on-SlotsAgree s i none e v = v
work_on-SlotsAgree s i (some w) e v = λ t h.
    let w' : Worker = record w { pc = (worker_turn s.pool w.tid w.pc).pc } in
    let own = weight-le-holders t s.workers i e in
    omega (
      arith,
      v t h,
      occurs-turn s.pool w.tid w.pc t h (omega (arith, own, v t h)),
      total-set (λ (x : Worker). if x.tid == t then has_slot x.pc else 0) s.workers i w' e,
    )

exits-slot : (pc : Pc) → has_slot (exits pc) ≡ has_slot pc
unfolding exits
exits-slot at_top = refl
exits-slot pc = refl

exit_task-SlotsAgree :
    (s : System) (i : ℕ) (o : Option Worker)
    → get_elem? s.workers i ≡ o
    → SlotsAgree s
    → SlotsAgree (exit_task s i o)
unfolding exit_task
exit_task-SlotsAgree s i none e v = v
exit_task-SlotsAgree s i (some w) e v = λ t h.
    let w' : Worker = record w { pc = exits w.pc } in
    let same = ap (λ n. if w.tid == t then n else 0) (exits-slot w.pc) in
    omega (
      arith,
      v t h,
      same,
      total-set (λ (x : Worker). if x.tid == t then has_slot x.pc else 0) s.workers i w' e,
    )

step-SlotsAgree : (s : System) (e : Event) → SlotsAgree s → SlotsAgree (step s e)
unfolding step free_pool manage_on add_task thread_pool_add
step-SlotsAgree s (add t) v = λ u h. ground (arith, v u h)
step-SlotsAgree s (work i) v = work_on-SlotsAgree s i (get_elem? s.workers i) refl v
step-SlotsAgree s (task_exits i) v = exit_task-SlotsAgree s i (get_elem? s.workers i) refl v
step-SlotsAgree s (manage new_id) v = λ t h.
    let m = manager_turn s.pool new_id s.manager in
    omega (
      arith,
      v t h,
      occurs-manager s.pool new_id s.manager t h,
      holders-spawn t m.born,
      total-append (λ (x : Worker). if x.tid == t then has_slot x.pc else 0) s.workers
          (map spawn m.born),
    )
step-SlotsAgree s destroy v = v
step-SlotsAgree s release v = λ t h. ground (arith, v t h)

run-SlotsAgree : (s : System) (es : List Event) → SlotsAgree s → SlotsAgree (run s es)
unfolding run
run-SlotsAgree s [] v = v
run-SlotsAgree s (e ∷ es) v = run-SlotsAgree (step s e) es (step-SlotsAgree s e v)

occurs-start :
    (t n i : ℕ) (new_id : ℕ → ℕ) (ids : List ℕ)
    → t ≢ 0
    → ((j : ℕ) → i ≤ j → j < i + n → get_elem? ids j ≡ some 0)
    → occurs t (start_workers n i new_id ids) ≡ occurs t ids + occurs t (worker_ids n i new_id)
unfolding start_workers worker_ids
occurs-start t zero i new_id ids h free = omega arith
occurs-start t (suc n) i new_id ids h free =
    let still : (j : ℕ) → i + 1 ≤ j → j < i + 1 + n → get_elem? (set ids i (new_id i)) j ≡ some 0 =
      λ j a b.
        get_elem?-set_ne ids i j (new_id i) (omega arith) ∙ free j (omega arith) (omega arith) in
    ground (
      arith,
      occurs-start t n (i + 1) new_id (set ids i (new_id i)) h still,
      total-set (λ (x : ℕ). if x == t then 1 else 0) ids i (new_id i)
          (free i (omega arith) (omega arith)),
    )

occurs-replicate : (t n : ℕ) → t ≢ 0 → occurs t (replicate n 0) ≡ 0
occurs-replicate t zero h = refl
occurs-replicate t (suc n) h = ground (arith, occurs-replicate t n h)

start-SlotsAgree :
    {min max queue_size : ℕ} {new_id : ℕ → ℕ} {p : ThreadPool}
    → Made min max queue_size new_id p
    → SlotsAgree (start p (worker_ids min 0 new_id))
unfolding start thread_pool_create
start-SlotsAgree {min} {max} {queue_size} {new_id} m = λ t h.
    let slots : List ℕ = replicate max 0 in
    let free : (j : ℕ) → 0 ≤ j → j < 0 + min → get_elem? slots j ≡ some 0 =
      λ j a b. get_elem?-replicate max j 0 (omega (arith, m.few)) in
    ground (
      arith,
      m.made,
      occurs-start t min 0 new_id slots h free,
      occurs-replicate t max h,
      holders-spawn t (worker_ids min 0 new_id),
    )

-- On a pool that `threadPoolCreate` made with `min ≤ max` and a queue of at least one place, under
-- every schedule: each thread id other than 0 stands in `threadIDs` as often as there are workers
-- with that id that have not been through `threadExit`.
pub run-start-SlotsAgree :
    {min max queue_size : ℕ} {new_id : ℕ → ℕ} {p : ThreadPool} (es : List Event)
    → Made min max queue_size new_id p
    → SlotsAgree (run (start p (worker_ids min 0 new_id)) es)
run-start-SlotsAgree es m = run-SlotsAgree _ es (start-SlotsAgree m)
