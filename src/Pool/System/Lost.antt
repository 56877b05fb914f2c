-- ===== src/Pool/System/Lost.antt =====
-- Workers whose task ends the thread: `thread_read` of a_cat/server/work/work.c ends each
-- connection by `pthread_exit`, so the code of `worker` behind the call never runs.
use linux_cat.Common.{
  ℕ, zero, suc, ◌≤◌, ◌≡◌, refl, ap, ◌∙◌, List, [], ◌∷◌, ◌++◌, map, Option, none, some, arith,
  get_elem?, total-set, total-append, append-nil,
}
use linux_cat.Pool.{
  ThreadPool, thread_pool_add, worker_pass, worker_wake, thread_exit, manager_grow, manager_shrink,
}
use linux_cat.Pool.System.{
  Pc, at_top, asleep, lost, Worker, ManagerPc, checking, ready, trimming, System, Event, add, work,
  task_exits, manage, destroy, release, act_turn, worker_turn, manager_turn, add_task, work_on,
  exit_task, exits, spawn, manage_on, free_pool, step, run,
}
use linux_cat.Pool.System.Counts.{Inv, is_live, count, step-Inv}

abbrev pub is_lost : Pc → ℕ
is_lost lost = 1
is_lost _ = 0

is_lost-le : (pc : Pc) → is_lost pc ≤ is_live pc
is_lost-le at_top = omega arith
is_lost-le pc = omega arith

lost-le-live : (ws : List Worker) → count is_lost ws ≤ count is_live ws
lost-le-live [] = omega arith
lost-le-live (w ∷ ws) = omega (arith, is_lost-le w.pc, lost-le-live ws)

-- If as many workers are lost as are live, each live one is lost.
live-le-lost :
    (ws : List Worker) (i : ℕ) {w : Worker}
    → get_elem? ws i ≡ some w
    → count is_live ws ≤ count is_lost ws
    → is_live w.pc ≤ is_lost w.pc
live-le-lost [] i e h = ground arith
live-le-lost (x ∷ ws) zero e h = ground (arith, is_lost-le x.pc, lost-le-live ws)
live-le-lost (x ∷ ws) (suc i) e h = live-le-lost ws i e (omega (arith, is_lost-le x.pc))

dead_took :
    (p : ThreadPool) (tid : ℕ) (pc : Pc)
    → is_live pc ≤ is_lost pc
    → (worker_turn p tid pc).took ≡ []
unfolding worker_turn
dead_took p tid at_top h = absurd (omega arith)
dead_took p tid asleep h = absurd (omega arith)
dead_took p tid pc h = refl

lost_stays : (p : ThreadPool) (tid : ℕ) (pc : Pc) → is_lost pc ≤ is_lost (worker_turn p tid pc).pc
unfolding worker_turn
lost_stays p tid lost = omega arith
lost_stays p tid at_top = omega arith
lost_stays p tid pc = omega arith

max-turn : (p : ThreadPool) (tid : ℕ) (pc : Pc) → (worker_turn p tid pc).pool.max_num ≡ p.max_num
unfolding worker_turn act_turn worker_pass worker_wake thread_exit
max-turn p tid at_top = ground arith
max-turn p tid asleep = ground arith
max-turn p tid pc = refl

max-manager :
    (p : ThreadPool) (new_id : ℕ → ℕ) (pc : ManagerPc)
    → (manager_turn p new_id pc).pool.max_num ≡ p.max_num
unfolding manager_turn manager_grow manager_shrink
max-manager p new_id checking = refl
max-manager p new_id (ready queue_size live_num busy_num) = ground arith
max-manager p new_id (trimming live_num busy_num) = ground arith
max-manager p new_id pc = refl

-- As many workers are lost as the pool may ever have.
abbrev pub IsStalled : System → Type 0
IsStalled s = s.pool.max_num ≤ count is_lost s.workers

work_on-IsStalled :
    (s : System) (i : ℕ) (o : Option Worker)
    → get_elem? s.workers i ≡ o
    → Inv s
    → IsStalled s
    → IsStalled (work_on s i o) × ((work_on s i o).taken_tasks ≡ s.taken_tasks)
unfolding work_on
work_on-IsStalled s i none e v h = (h, refl)
work_on-IsStalled s i (some w) e v h =
    let r = worker_turn s.pool w.tid w.pc in
    let w' : Worker = record w { pc = r.pc } in
    let dead = live-le-lost s.workers i e (omega arith) in
    (
      omega (
        arith,
        max-turn s.pool w.tid w.pc,
        lost_stays s.pool w.tid w.pc,
        total-set (λ (x : Worker). is_lost x.pc) s.workers i w' e,
      ),
      ap (◌++◌ s.taken_tasks) (dead_took s.pool w.tid w.pc dead) ∙ append-nil s.taken_tasks,
    )

exits_lost : (pc : Pc) → is_lost pc ≤ is_lost (exits pc)
unfolding exits
exits_lost lost = omega arith
exits_lost pc = omega arith

exit_task-IsStalled :
    (s : System) (i : ℕ) (o : Option Worker)
    → get_elem? s.workers i ≡ o
    → IsStalled s
    → IsStalled (exit_task s i o) × ((exit_task s i o).taken_tasks ≡ s.taken_tasks)
unfolding exit_task
exit_task-IsStalled s i none e h = (h, refl)
exit_task-IsStalled s i (some w) e h =
    let w' : Worker = record w { pc = exits w.pc } in
    (
      omega (arith, exits_lost w.pc, total-set (λ (x : Worker). is_lost x.pc) s.workers i w' e),
      refl,
    )

pub step-IsStalled :
    (s : System) (e : Event)
    → Inv s
    → IsStalled s
    → IsStalled (step s e) × ((step s e).taken_tasks ≡ s.taken_tasks)
unfolding step free_pool manage_on add_task thread_pool_add
step-IsStalled s (add t) v h = ground arith
step-IsStalled s (work i) v h = work_on-IsStalled s i (get_elem? s.workers i) refl v h
step-IsStalled s (task_exits i) v h = exit_task-IsStalled s i (get_elem? s.workers i) refl h
step-IsStalled s (manage new_id) v h = (
  omega (
    arith,
    max-manager s.pool new_id s.manager,
    total-append (λ (x : Worker). is_lost x.pc) s.workers
        (map spawn (manager_turn s.pool new_id s.manager).born),
  ),
  refl,
)
step-IsStalled s destroy v h = (h, refl)
step-IsStalled s release v h = ground arith

-- In a state with the counters' invariant: once `maxNum` workers have been lost to tasks that call
-- `pthread_exit`, no schedule starts another task, and they stay lost: `liveNum` still counts them,
-- so the manager replaces none.
lost_workers_stall :
    (s : System) (es : List Event)
    → Inv s
    → s.pool.max_num ≤ count is_lost s.workers
    → IsStalled (run s es) × ((run s es).taken_tasks ≡ s.taken_tasks)
unfolding run
lost_workers_stall s [] v h = (h, refl)
lost_workers_stall s (e ∷ es) v h =
    let one = step-IsStalled s e v h in
    let rest = lost_workers_stall (step s e) es (step-Inv s e v) one.0 in (rest.0, rest.1 ∙ one.1)
