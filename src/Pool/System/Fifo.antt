-- ===== src/Pool/System/Fifo.antt =====
-- The ring of tasks as a queue of what was added and not yet taken.
use linux_cat.Common.{
  ℕ, zero, suc, ◌+◌, ◌-◌, ◌%◌, ◌≤◌, ◌<◌, ◌≡◌, ◌≢◌, refl, ap, ap₂, sym, ◌∙◌, List, [], ◌∷◌, ◌++◌,
  Option, none, some, arith, length, get_elem?, get_elem?-some, get_or, set, get_or-set_self,
  get_or-set_ne, append_assoc, dec_lt, mod-add-mod, mod-eq_of_lt, mod-eq-sub-mod, add-zero,
}
use linux_cat.Pool.{
  Task, ThreadPool, thread_pool_create, Add, waits, refused, added, thread_pool_add, worker_pass,
  worker_wake, thread_exit, manager_grow, manager_shrink,
}
use linux_cat.Pool.Valid.{IsValid}
use linux_cat.Pool.System.{
  Pc, at_top, asleep, Worker, ManagerPc, checking, ready, trimming, System, Event, add, work,
  task_exits, manage, destroy, release, act_turn, worker_turn, manager_turn, add_task, work_on,
  exit_task, manage_on, free_pool, step, run, start, worker_ids, taken,
}
use linux_cat.Pool.System.Counts.{Inv, step-Inv, Made, start-Inv}

abbrev no_task : Task
no_task = record { function = 0; arg = 0 }

-- The `n` tasks from index `f` on, round the end of the array.
abbrev pub segment : List Task → ℕ → ℕ → ℕ → List Task
segment q cap f zero = []
segment q cap f (suc n) = get_or q f no_task ∷ segment q cap ((f + 1) % cap) n

-- The tasks that wait in the pool, oldest first.
abbrev pub pending : ThreadPool → List Task
pending p = segment p.task_q p.queue_capacity p.queue_front p.queue_size

segment-front :
    (q : List Task) (cap f n : ℕ) {t : Task}
    → n ≢ 0
    → get_elem? q f ≡ some t
    → segment q cap f n ≡ t ∷ segment q cap ((f + 1) % cap) (n - 1)
segment-front q cap f zero h e = absurd (h refl)
segment-front q cap f (suc n) {t} h e =
    ap₂ ◌∷◌ (get_or-of q f e) (ap (segment q cap ((f + 1) % cap)) (omega arith))
  where
    get_or-of : (l : List Task) (i : ℕ) → get_elem? l i ≡ some t → get_or l i no_task ≡ t
    get_or-of [] i e' = ground arith
    get_or-of (x ∷ l) zero e' = ground arith
    get_or-of (x ∷ l) (suc i) e' = get_or-of l i e'

-- A walk of fewer than `cap` steps round the ring does not return to its start.
ring-ne : (cap f k : ℕ) → f < cap → 0 < k → k < cap → (f + k) % cap ≢ f
ring-ne cap f k hf h0 hk = elim (dec_lt (f + k) cap) [
  | yes p ↦ omega (arith, mod-eq_of_lt p)
  | no p ↦
      let wrapped = mod-eq-sub-mod {n = f + k} {m = cap} (omega arith) in
      let small = mod-eq_of_lt {n = f + k - cap} {m = cap} (omega arith) in
      omega (arith, wrapped, small)
]

-- Writing behind the last task puts the new one at the end of the queue.
segment-set :
    (q : List Task) (cap f n r : ℕ) (t : Task)
    → cap ≤ length q
    → f < cap
    → n < cap
    → r ≡ (f + n) % cap
    → segment (set q r t) cap f (suc n) ≡ segment q cap f n ++ (t ∷ [])
segment-set q cap f zero r t hq hf hn e =
    let here : r ≡ f = e ∙ rw (add-zero, mod-eq_of_lt hf) in
    rw (here, get_or-set_self q f t no_task (omega arith))
segment-set q cap f (suc n) r t hq hf hn e =
    let away : r ≢ f = rw e (ring-ne cap f (suc n) hf (omega arith) hn) in
    let same : r ≡ ((f + 1) % cap + n) % cap =
      e ∙ rw mod-add-mod (ap (λ k. k % cap) (omega arith)) in
    ap₂ ◌∷◌ (get_or-set_ne q t no_task away)
      (segment-set q cap ((f + 1) % cap) n r t hq (omega arith) (omega arith) same)

-- `threadPoolAdd` appends the task.
pub pending-add :
    {p q : ThreadPool} (t : Task)
    → IsValid p
    → thread_pool_add p t ≡ added q
    → pending q ≡ pending p ++ (t ∷ [])
unfolding thread_pool_add
pending-add {p} t v e =
    ground (arith, segment-set p.task_q p.queue_capacity p.queue_front p.queue_size p.queue_rear t)

-- A worker's critical section takes the oldest task, or none.
pub pending-pass :
    {p : ThreadPool} → IsValid p → let (a, q) = worker_pass p in pending p ≡ taken a ++ pending q
unfolding worker_pass taken
pending-pass {p} v =
    let found = get_elem?-some p.task_q p.queue_front (omega arith) in
    let front = λ (h : p.queue_size ≢ 0).
      segment-front p.task_q p.queue_capacity p.queue_front p.queue_size h found.1 in
    ground (arith, found, front)

pub pending-wake :
    {p : ThreadPool} → IsValid p → let (a, q) = worker_wake p in pending p ≡ taken a ++ pending q
unfolding worker_wake taken
pending-wake {p} v =
    let found = get_elem?-some p.task_q p.queue_front (omega arith) in
    let front = λ (h : p.queue_size ≢ 0).
      segment-front p.task_q p.queue_capacity p.queue_front p.queue_size h found.1 in
    ground (arith, found, front)

pending-turn :
    {p : ThreadPool} (tid : ℕ) (pc : Pc)
    → IsValid p
    → pending p ≡ (worker_turn p tid pc).took ++ pending (worker_turn p tid pc).pool
unfolding worker_turn act_turn thread_exit
pending-turn tid at_top v = pending-pass v
pending-turn tid asleep v = pending-wake v
pending-turn tid pc v = refl

pending-manager :
    (p : ThreadPool) (new_id : ℕ → ℕ) (pc : ManagerPc)
    → pending (manager_turn p new_id pc).pool ≡ pending p
unfolding manager_turn manager_grow manager_shrink
pending-manager p new_id checking = refl
pending-manager p new_id (ready queue_size live_num busy_num) = ground arith
pending-manager p new_id (trimming live_num busy_num) = ground arith
pending-manager p new_id pc = refl

-- Every task that was added has been taken or still waits, in the order of the additions.
abbrev pub IsFifo : System → Type 0
IsFifo s = s.submitted ≡ s.taken_tasks ++ pending s.pool

add_task-IsFifo :
    (s : System) (t : Task) (a : Add)
    → thread_pool_add s.pool t ≡ a
    → Inv s
    → IsFifo s
    → IsFifo (add_task s t a)
unfolding add_task
add_task-IsFifo s t waits e v h = h
add_task-IsFifo s t refused e v h = h
add_task-IsFifo s t (added q) e v h =
    ap (λ l. l ++ (t ∷ [])) h
    ∙ append_assoc s.taken_tasks (pending s.pool) (t ∷ [])
    ∙ ap (◌++◌ s.taken_tasks) (sym (pending-add t v.pool_ok e))

work_on-IsFifo :
    (s : System) (o : Option Worker) (i : ℕ) → Inv s → IsFifo s → IsFifo (work_on s i o)
unfolding work_on
work_on-IsFifo s none i v h = h
work_on-IsFifo s (some w) i v h =
    h
    ∙ ap (◌++◌ s.taken_tasks) (pending-turn w.tid w.pc v.pool_ok)
    ∙ sym (append_assoc s.taken_tasks _ _)

pub step-IsFifo : (s : System) (e : Event) → Inv s → IsFifo s → IsFifo (step s e)
unfolding step exit_task manage_on free_pool
step-IsFifo s (add t) v h = add_task-IsFifo s t (thread_pool_add s.pool t) refl v h
step-IsFifo s (work i) v h = work_on-IsFifo s (get_elem? s.workers i) i v h
step-IsFifo s (task_exits i) v h = ground arith
step-IsFifo s (manage new_id) v h =
    h ∙ ap (◌++◌ s.taken_tasks) (sym (pending-manager s.pool new_id s.manager))
step-IsFifo s destroy v h = h
step-IsFifo s release v h = ground arith

run-IsFifo : (s : System) (es : List Event) → Inv s → IsFifo s → IsFifo (run s es)
unfolding run
run-IsFifo s [] v h = h
run-IsFifo s (e ∷ es) v h = run-IsFifo (step s e) es (step-Inv s e v) (step-IsFifo s e v h)

pub start-IsFifo :
    {min max queue_size : ℕ} {new_id : ℕ → ℕ} {p : ThreadPool}
    → Made min max queue_size new_id p
    → IsFifo (start p (worker_ids min 0 new_id))
unfolding start thread_pool_create
start-IsFifo m = ground (arith, m.made)

-- On a pool that `threadPoolCreate` made with `min ≤ max` and a queue of at least one place, under
-- every schedule of adders, workers, manager and destroyer: the tasks added so far are those that
-- workers have taken, in the order in which they were taken, followed by those in the ring, oldest
-- first. So none is lost, taken twice or overtaken.
pub run-start-IsFifo :
    {min max queue_size : ℕ} {new_id : ℕ → ℕ} {p : ThreadPool} (es : List Event)
    → Made min max queue_size new_id p
    → let s = run (start p (worker_ids min 0 new_id)) es in
      s.submitted ≡ s.taken_tasks ++ pending s.pool
run-start-IsFifo es m = run-IsFifo _ es (start-Inv m) (start-IsFifo m)
