-- ===== src/Pool/System/Open.antt =====
-- What the threads of the pool leave alone: no event but `destroy` changes `shutdown`, and none but
-- `add` adds a task.
use linux_cat.Common.{
  ℕ, ◌≡◌, ◌≢◌, refl, ◌++◌, ◌∷◌, [], inl, inr, Option-cases, get_elem?, arith, false,
}
use linux_cat.Pool.{
  Task, ThreadPool, refused, added, thread_pool_add, worker_pass, worker_wake, thread_pool_create,
  thread_exit, manager_grow, manager_shrink,
}
use linux_cat.Pool.System.{
  Event, destroy, release, free_pool, Pc, at_top, asleep, ManagerPc, checking, ready, trimming,
  System, add, work, task_exits, manage, step, work_on, worker_turn, act_turn, manager_turn,
  exit_task, manage_on, add_task, start, worker_ids,
}
use linux_cat.Pool.System.Counts.{Made}

pub turn_open :
    (p : ThreadPool) (tid : ℕ) (pc : Pc) → (worker_turn p tid pc).pool.shutdown ≡ p.shutdown
unfolding worker_turn act_turn worker_pass worker_wake thread_exit
turn_open p tid at_top = ground arith
turn_open p tid asleep = ground arith
turn_open p tid pc = refl

pub manager_open :
    (p : ThreadPool) (new_id : ℕ → ℕ) (pc : ManagerPc)
    → (manager_turn p new_id pc).pool.shutdown ≡ p.shutdown
unfolding manager_turn manager_grow manager_shrink
manager_open p new_id checking = refl
manager_open p new_id (ready queue_size live_num busy_num) = ground arith
manager_open p new_id (trimming live_num busy_num) = ground arith
manager_open p new_id pc = refl

-- The pool is as open as before, and no task has been added.
pub record Keeps (s t : System) : Type 0 where
  pub open_still : t.pool.shutdown ≡ s.pool.shutdown
  pub none_added : t.submitted ≡ s.submitted

pub work-Keeps : (s : System) (i : ℕ) → Keeps s (step s (work i))
unfolding step work_on
work-Keeps s i = elim (Option-cases (get_elem? s.workers i)) [
  | inl e ↦ rw e (record { open_still = refl; none_added = refl })
  | inr (w, e) ↦ rw e (record { open_still = turn_open s.pool w.tid w.pc; none_added = refl })
]

pub exit-Keeps : (s : System) (i : ℕ) → Keeps s (step s (task_exits i))
unfolding step exit_task
exit-Keeps s i = ground arith

pub manage-Keeps : (s : System) (new_id : ℕ → ℕ) → Keeps s (step s (manage new_id))
unfolding step manage_on
manage-Keeps s new_id = record {
  open_still = manager_open s.pool new_id s.manager;
  none_added = refl;
}

-- An `add` on an open pool with room adds its task; the pool stays open.
pub add_opens :
    (s : System) (t : Task) {q : ThreadPool}
    → s.pool.shutdown ≡ false
    → thread_pool_add s.pool t ≡ added q
    → ((step s (add t)).pool.shutdown ≡ false)
      × ((step s (add t)).submitted ≡ s.submitted ++ (t ∷ []))
unfolding step add_task thread_pool_add
add_opens s t h e = ground arith

-- An open pool never refuses a task.
pub add_accepted : (p : ThreadPool) (t : Task) → p.shutdown ≡ false → thread_pool_add p t ≢ refused
unfolding thread_pool_add
add_accepted p t h = ground arith

-- What `threadPoolCreate` leaves is open and has no task.
pub start_open :
    {min max queue_size : ℕ} {new_id : ℕ → ℕ} {p : ThreadPool}
    → Made min max queue_size new_id p
    → let s = start p (worker_ids min 0 new_id) in (s.pool.shutdown ≡ false) × (s.submitted ≡ [])
unfolding start thread_pool_create
start_open m = ground (arith, m.made)

turn-capacity :
    (p : ThreadPool) (tid : ℕ) (pc : Pc)
    → (worker_turn p tid pc).pool.queue_capacity ≡ p.queue_capacity
unfolding worker_turn act_turn worker_pass worker_wake thread_exit
turn-capacity p tid at_top = ground arith
turn-capacity p tid asleep = ground arith
turn-capacity p tid pc = refl

manager-capacity :
    (p : ThreadPool) (new_id : ℕ → ℕ) (pc : ManagerPc)
    → (manager_turn p new_id pc).pool.queue_capacity ≡ p.queue_capacity
unfolding manager_turn manager_grow manager_shrink
manager-capacity p new_id checking = refl
manager-capacity p new_id (ready queue_size live_num busy_num) = ground arith
manager-capacity p new_id (trimming live_num busy_num) = ground arith
manager-capacity p new_id pc = refl

-- The ring keeps its size.
pub step-capacity :
    (s : System) (e : Event) → (step s e).pool.queue_capacity ≡ s.pool.queue_capacity
unfolding step work_on exit_task manage_on free_pool add_task thread_pool_add
step-capacity s (add t) = ground arith
step-capacity s (work i) = elim (Option-cases (get_elem? s.workers i)) [
  | inl e ↦ rw e refl
  | inr (w, e) ↦ rw e (turn-capacity s.pool w.tid w.pc)
]
step-capacity s (task_exits i) = ground arith
step-capacity s (manage new_id) = manager-capacity s.pool new_id s.manager
step-capacity s destroy = refl
step-capacity s release = ground arith

pub start_capacity :
    {min max queue_size : ℕ} {new_id : ℕ → ℕ} {p : ThreadPool}
    → Made min max queue_size new_id p
    → (start p (worker_ids min 0 new_id)).pool.queue_capacity ≡ queue_size
unfolding thread_pool_create start
start_capacity m = let made = m.made in ground (arith, made)
