-- ===== src/Pool/System/Fair.antt =====
-- The tasks in the queue while the threads go on in any order: one worker that gets its turns is
-- enough for all of them.
pub mod Near
pub mod All
use linux_cat.Common.{
  ℕ, zero, suc, ◌+◌, ◌-◌, ◌*◌, ◌%◌, ◌<◌, ◌≤◌, ◌≡◌, ◌≢◌, ◌⊎◌, inl, inr, refl, ◌∙◌, sym, ap, ap₂,
  subst, append-nil, append_assoc, List, [], ◌∷◌, ◌++◌, Option, none, some, false, get_elem?,
  get_elem?-set_ne, get_elem?-append_left, length, length-append, arith, ℕ_discrete, dec_lt,
  Option-cases,
}
use linux_cat.Pool.{Task, ThreadPool, Add, waits, refused, added, thread_pool_add}
use linux_cat.Pool.System.{
  Pc, at_top, got, running, finished, asleep, retiring, closing, retired, closed, lost, Worker,
  System, Event, add, work, task_exits, manage, destroy, release, step, work_on, exit_task,
  add_task, manage_on, free_pool, run, start, worker_ids, worker_turn,
}
use linux_cat.Pool.System.Counts.{Inv, step-Inv, Made, run-start-Inv}
use linux_cat.Pool.System.Fifo.{pending, segment, IsFifo, step-IsFifo, run-start-IsFifo}
use linux_cat.Pool.System.Open.{manager_open, turn_open, work-Keeps}
use linux_cat.Pool.System.Drain.{turn_of, turns_of}
use linux_cat.Pool.System.Serve.{At, get_elem?-length, turn-At, take-At}

-- A schedule leaves the pool open, and does not let the task of worker `i` end its thread.
abbrev pub Spares : ℕ → Event → Type 0
Spares i destroy = ⊥
Spares i (task_exits j) = i ≢ j
Spares i _ = Unit {0}

abbrev pub AllSpare : ℕ → List Event → Type 0
AllSpare i [] = Unit {0}
AllSpare i (e ∷ es) = Spares i e × AllSpare i es

-- The turns that a worker needs to be at the head of its loop, if it is on its way round.
abbrev pub way_round : Pc → Option ℕ
way_round at_top = some 0
way_round (got t) = some 3
way_round (running t) = some 2
way_round finished = some 1
way_round _ = none

-- What a step leaves of what has been.
pub record Grows (s t : System) : Type 0 where
  pub new_taken : List Task
  pub taken_is : t.taken_tasks ≡ s.taken_tasks ++ new_taken
  pub new_tasks : List Task
  pub submitted_is : t.submitted ≡ s.submitted ++ new_tasks
  pub open_still : t.pool.shutdown ≡ s.pool.shutdown

none_new :
    (s t : System)
    → t.taken_tasks ≡ s.taken_tasks
    → t.submitted ≡ s.submitted
    → t.pool.shutdown ≡ s.pool.shutdown
    → Grows s t
none_new s t a b c = record {
  new_taken = [];
  taken_is = a ∙ sym (append-nil s.taken_tasks);
  new_tasks = [];
  submitted_is = b ∙ sym (append-nil s.submitted);
  open_still = c;
}

add_task-Grows :
    (s : System) (t : Task) (a : Add) → thread_pool_add s.pool t ≡ a → Grows s (add_task s t a)
unfolding add_task thread_pool_add
add_task-Grows s t waits e = none_new s s refl refl refl
add_task-Grows s t refused e = none_new s s refl refl refl
add_task-Grows s t (added q) e = record {
  new_taken = [];
  taken_is = sym (append-nil s.taken_tasks);
  new_tasks = t ∷ [];
  submitted_is = refl;
  open_still = ground (arith, e);
}

pub step-Grows : (s : System) (i : ℕ) (e : Event) → Spares i e → Grows s (step s e)
unfolding step work_on exit_task manage_on free_pool
step-Grows s i (add t) h = add_task-Grows s t (thread_pool_add s.pool t) refl
step-Grows s i (work j) h = elim (Option-cases (get_elem? s.workers j)) [
  | inl e ↦ rw e (none_new s s refl refl refl)
  | inr (w, e) ↦ rw e (record {
    new_taken = (worker_turn s.pool w.tid w.pc).took;
    taken_is = refl;
    new_tasks = [];
    submitted_is = sym (append-nil s.submitted);
    open_still = turn_open s.pool w.tid w.pc;
  })
]
step-Grows s i (task_exits j) h = none_new s _ (ground arith) (ground arith) (ground arith)
step-Grows s i (manage new_id) h = none_new s _ refl refl (manager_open s.pool new_id s.manager)
step-Grows s i destroy h = elim h [ ]
step-Grows s i release h = none_new s _ (ground arith) (ground arith) (ground arith)

-- Worker `i` stays where it is, but in its own turns.
pub worker_stays :
    (s : System) (i : ℕ) (e : Event) {w : Worker}
    → Spares i e
    → turn_of i e ≡ 0
    → get_elem? s.workers i ≡ some w
    → get_elem? (step s e).workers i ≡ some w
unfolding step work_on exit_task manage_on free_pool add_task
worker_stays s i (add t) h k there = ground (arith, there)
worker_stays s i (work j) h k there =
    let other : j ≢ i = λ e. ground (arith, k, e) in
    elim (Option-cases (get_elem? s.workers j)) [
      | inl e ↦ rw e there
      | inr (x, e) ↦ rw e (get_elem?-set_ne s.workers j i _ other ∙ there)
    ]
worker_stays s i (task_exits j) h k there =
    let other : j ≢ i = λ e. h (sym e) in
    elim (Option-cases (get_elem? s.workers j)) [
      | inl e ↦ rw e there
      | inr (x, e) ↦ rw e (get_elem?-set_ne s.workers j i _ other ∙ there)
    ]
worker_stays s i (manage new_id) h k there =
    get_elem?-append_left s.workers _ i (get_elem?-length s.workers i there) ∙ there
worker_stays s i destroy h k there = elim h [ ]
worker_stays s i release h k there = ground (arith, there)

pub length-segment : (q : List Task) (cap f n : ℕ) → length (segment q cap f n) ≡ n
length-segment q cap f zero = refl
length-segment q cap f (suc n) = ap suc (length-segment q cap ((f + 1) % cap) n)

-- In a queue that loses and doubles no task, what waits is what has not been taken.
pub waiting :
    (s : System) → IsFifo s → length s.submitted ≡ length s.taken_tasks + s.pool.queue_size
waiting s f =
    let p = s.pool in
    omega (
      arith,
      ap length f,
      length-append s.taken_tasks (pending p),
      length-segment p.task_q p.queue_capacity p.queue_front p.queue_size,
    )
