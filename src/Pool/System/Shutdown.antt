-- ===== src/Pool/System/Shutdown.antt =====
-- `threadPoolDestroy`: what the pool still does once `shutdown` is set.
use linux_cat.Common.{
  ℕ, ◌≡◌, refl, ap, ◌∙◌, [], ◌++◌, Option, none, some, true, arith, get_elem?, append-nil,
}
use linux_cat.Pool.{
  ThreadPool, thread_pool_add, worker_pass, worker_wake, thread_exit, manager_grow, manager_shrink,
}
use linux_cat.Pool.System.{
  Pc, at_top, asleep, Worker, ManagerPc, checking, ready, trimming, System, Event, add, work,
  task_exits, manage, destroy, release, act_turn, worker_turn, manager_turn, add_task, work_on,
  exit_task, manage_on, free_pool, step, taken,
}

turn_shut :
    (p : ThreadPool) (tid : ℕ) (pc : Pc)
    → p.shutdown ≡ true
    → let r = worker_turn p tid pc in (r.took ≡ []) × (r.pool.shutdown ≡ true)
unfolding worker_turn act_turn worker_pass worker_wake thread_exit taken
turn_shut p tid at_top h = ground arith
turn_shut p tid asleep h = ground arith
turn_shut p tid pc h = (refl, h)

pub manager_shut :
    (p : ThreadPool) (new_id : ℕ → ℕ) (pc : ManagerPc)
    → p.shutdown ≡ true
    → (manager_turn p new_id pc).pool.shutdown ≡ true
unfolding manager_turn manager_grow manager_shrink
manager_shut p new_id checking h = h
manager_shut p new_id (ready queue_size live_num busy_num) h = ground arith
manager_shut p new_id (trimming live_num busy_num) h = ground arith
manager_shut p new_id pc h = h

pub record Quiet (s t : System) : Type 0 where
  pub shut : t.pool.shutdown ≡ true
  pub submitted : t.submitted ≡ s.submitted
  pub taken_tasks : t.taken_tasks ≡ s.taken_tasks

work_on-Quiet :
    (s : System) (i : ℕ) (o : Option Worker) → s.pool.shutdown ≡ true → Quiet s (work_on s i o)
unfolding work_on
work_on-Quiet s i none h = record { shut = h; submitted = refl; taken_tasks = refl }
work_on-Quiet s i (some w) h =
    let r = turn_shut s.pool w.tid w.pc h in
    record {
      shut = r.1;
      submitted = refl;
      taken_tasks = ap (◌++◌ s.taken_tasks) r.0 ∙ append-nil s.taken_tasks;
    }

pub step-Quiet : (s : System) (e : Event) → s.pool.shutdown ≡ true → Quiet s (step s e)
unfolding step free_pool manage_on add_task thread_pool_add exit_task
step-Quiet s (add t) h = ground arith
step-Quiet s (work i) h = work_on-Quiet s i (get_elem? s.workers i) h
step-Quiet s (task_exits i) h = ground arith
step-Quiet s (manage new_id) h = record {
  shut = manager_shut s.pool new_id s.manager h;
  submitted = refl;
  taken_tasks = refl;
}
step-Quiet s destroy h = record { shut = refl; submitted = refl; taken_tasks = refl }
step-Quiet s release h = ground arith
