-- ===== src/Pool/System/Calls.antt =====
-- `threadPoolDestroy`: the tasks that workers may still call once `shutdown` is set.
use linux_cat.Common.{
  ℕ, zero, suc, ap₂, set, map, ◌≡◌, false, refl, ◌∙◌, List, [], ◌∷◌, ◌++◌, Option, none, some, true,
  arith, get_elem?,
}
use linux_cat.Pool.{Task, ThreadPool, worker_pass, worker_wake}
use linux_cat.Pool.System.{
  Pc, at_top, asleep, Worker, System, Event, spawn, exits, after_act, got, running, add, work,
  task_exits, manage, destroy, release, act_turn, worker_turn, manager_turn, add_task, work_on,
  exit_task, manage_on, free_pool, step, run,
}
use linux_cat.Pool.System.Shutdown.{Quiet, step-Quiet}
use linux_cat.Pool.System.Drain.{AllHeld, run_safe}

-- A worker that stands before a task has stood before it since.
abbrev pub Held : (before after : List Worker) → Type 0
Held before after =
    (i tid : ℕ) (t : Task)
    → get_elem? after i ≡ some (record { tid = tid; pc = got t })
    → get_elem? before i ≡ some (record { tid = tid; pc = got t })

set-Held :
    (ws : List Worker) (j : ℕ) (w : Worker) (next : Pc)
    → get_elem? ws j ≡ some w
    → ((t : Task) → next ≡ got t → w.pc ≡ got t)
    → Held ws (set ws j (record w { pc = next }))
set-Held [] j w next there stood i tid t h = h
set-Held (x ∷ ws) zero w next there stood zero tid t h =
    let is_tid : w.tid ≡ tid = ground (arith, h) in
    let is_got : next ≡ got t = ground (arith, h) in
    let was_got = stood t is_got in
    there ∙ ap₂ (λ n c. some (record { tid = n; pc = c })) is_tid was_got
set-Held (x ∷ ws) zero w next there stood (suc i) tid t h = h
set-Held (x ∷ ws) (suc j) w next there stood zero tid t h = h
set-Held (x ∷ ws) (suc j) w next there stood (suc i) tid t h =
    set-Held ws j w next there stood i tid t h

append-Held : (ws : List Worker) (ids : List ℕ) → Held ws (ws ++ map spawn ids)
unfolding spawn
append-Held [] [] i tid t h = h
append-Held [] (x ∷ ids) zero tid t h = absurd (ground (arith, h))
append-Held [] (x ∷ ids) (suc i) tid t h = absurd (none_got ids i h)
  where
    none_got :
        (ids : List ℕ) (i : ℕ)
        → get_elem? (map spawn ids) i ≡ some (record { tid = tid; pc = got t })
        → ⊥
    none_got [] i h = ground (arith, h)
    none_got (x ∷ ids) zero h = ground (arith, h)
    none_got (x ∷ ids) (suc i) h = none_got ids i h
append-Held (w ∷ ws) ids zero tid t h = h
append-Held (w ∷ ws) ids (suc i) tid t h = append-Held ws ids i tid t h

turn_not_got :
    (p : ThreadPool) (tid : ℕ) (pc : Pc) (t : Task)
    → p.shutdown ≡ true
    → (worker_turn p tid pc).pc ≡ got t
    → ⊥
unfolding worker_turn act_turn worker_pass worker_wake after_act
turn_not_got p tid at_top t h e = ground (arith, h, e)
turn_not_got p tid asleep t h e = ground (arith, h, e)
turn_not_got p tid pc t h e = ground (arith, e)

exits-got : (pc : Pc) (t : Task) → exits pc ≡ got t → pc ≡ got t
unfolding exits
exits-got (running u) t e = absurd (ground (arith, e))
exits-got pc t e = e

work_on-Held :
    (s : System) (i : ℕ) (o : Option Worker)
    → get_elem? s.workers i ≡ o
    → s.pool.shutdown ≡ true
    → Held s.workers (work_on s i o).workers
unfolding work_on
work_on-Held s i none e h = λ k tid t there. there
work_on-Held s i (some w) e h =
    set-Held s.workers i w (worker_turn s.pool w.tid w.pc).pc e
      (λ t g. absurd (turn_not_got s.pool w.tid w.pc t h g))

exit_task-Held :
    (s : System) (i : ℕ) (o : Option Worker)
    → get_elem? s.workers i ≡ o
    → Held s.workers (exit_task s i o).workers
unfolding exit_task
exit_task-Held s i none e = λ k tid t there. there
exit_task-Held s i (some w) e = set-Held s.workers i w (exits w.pc) e (exits-got w.pc)

step-Held : (s : System) (e : Event) → s.pool.shutdown ≡ true → Held s.workers (step s e).workers
unfolding step free_pool manage_on add_task
step-Held s (add x) h = λ i tid t there. ground (arith, there)
step-Held s (work j) h = work_on-Held s j (get_elem? s.workers j) refl h
step-Held s (task_exits j) h = exit_task-Held s j (get_elem? s.workers j) refl
step-Held s (manage new_id) h = append-Held s.workers (manager_turn s.pool new_id s.manager).born
step-Held s destroy h = λ i tid t there. there
step-Held s release h = λ i tid t there. ground (arith, there)

-- Behind a schedule of a pool that is shut: no task has been added or taken from the queue, a worker
-- that stands before the call of its task has stood there since, and no freed memory was touched.
pub record IsShut (s t : System) : Type 0 where
  pub quiet : Quiet s t
  pub calls_left : Held s.workers t.workers
  pub safe : t.use_after_free ≡ s.use_after_free

run_calls :
    (s : System) (es : List Event)
    → s.pool.shutdown ≡ true
    → Quiet s (run s es) × Held s.workers (run s es).workers
unfolding run
run_calls s [] h =
    (record { shut = h; submitted = refl; taken_tasks = refl }, λ i tid t there. there)
run_calls s (e ∷ es) h =
    let one = step-Quiet s e h in
    let (later, calls) = run_calls (step s e) es one.shut in
    (
      record {
        shut = later.shut;
        submitted = later.submitted ∙ one.submitted;
        taken_tasks = later.taken_tasks ∙ one.taken_tasks;
      },
      λ i tid t there. step-Held s e h i tid t (calls i tid t there),
    )

-- Once `shutdown` is set, and as long as the pool is not freed, `shutdown` stays set, and no schedule
-- adds a task or has one taken from the queue. A worker that took a task before may still call it, but a
-- worker stands before the call of a task only if it stood before that call where the schedule begins:
-- no other task starts. No freed memory is touched.
pub run-IsShut :
    (s : System) (es : List Event)
    → s.pool.shutdown ≡ true
    → s.freed ≡ false
    → AllHeld es
    → IsShut s (run s es)
run-IsShut s es h held all_held =
    let (quiet, calls) = run_calls s es h in
    record { quiet = quiet; calls_left = calls; safe = run_safe s es held all_held }
