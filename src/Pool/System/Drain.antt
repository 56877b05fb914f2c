-- ===== src/Pool/System/Drain.antt =====
-- The workers once `threadPoolDestroy` has set `shutdown`, and a measure of their way to the end.
use linux_cat.Common.{
  ℕ, zero, suc, ◌+◌, ◌-◌, ◌≤◌, ◌<◌, ◌≡◌, refl, List, [], ◌∷◌, ◌++◌, map, Option, none, some, true,
  false, ◌∙◌, arith, length, length-set, length-append, set, get_elem?, get_elem?-some, ◌==◌,
  if◌then◌else◌,
}
use linux_cat.Pool.{ThreadPool, worker_pass, worker_wake}
use linux_cat.Pool.System.{
  Pc, at_top, asleep, got, running, finished, retiring, closing, Worker, System, Event, add, work,
  task_exits, manage, destroy, release, act_turn, worker_turn, add_task, work_on, exit_task, exits,
  spawn, manager_turn, manage_on, free_pool, step, run, after_act,
}
use linux_cat.Pool.System.Shutdown.{step-Quiet}

-- The turns that a worker has left once the pool is shut.
abbrev pub turns_left : Pc → ℕ
turns_left (got _) = 5
turns_left (running _) = 4
turns_left finished = 3
turns_left at_top = 2
turns_left asleep = 2
turns_left retiring = 1
turns_left closing = 1
turns_left _ = 0

abbrev left_of : Option Worker → ℕ
left_of none = 0
left_of (some w) = turns_left w.pc

abbrev pub left_at : ℕ → List Worker → ℕ
left_at i ws = left_of (get_elem? ws i)

-- The turns that a schedule gives to worker `i`.
abbrev pub turn_of : ℕ → Event → ℕ
turn_of i (work j) = if i == j then 1 else 0
turn_of i _ = 0

abbrev pub turns_of : ℕ → List Event → ℕ
turns_of i [] = 0
turns_of i (e ∷ es) = turn_of i e + turns_of i es

turn_drains :
    (p : ThreadPool) (tid : ℕ) (pc : Pc)
    → p.shutdown ≡ true
    → turns_left (worker_turn p tid pc).pc ≤ turns_left pc - 1
unfolding worker_turn act_turn worker_pass worker_wake after_act
turn_drains p tid at_top h = ground arith
turn_drains p tid asleep h = ground arith
turn_drains p tid pc h = omega arith

exits_drain : (pc : Pc) → turns_left (exits pc) ≤ turns_left pc
unfolding exits
exits_drain (running t) = omega arith
exits_drain pc = omega arith

get_elem?-append :
    (xs ys : List Worker) (i : ℕ) → i < length xs → get_elem? (xs ++ ys) i ≡ get_elem? xs i
get_elem?-append [] ys i h = absurd (omega arith)
get_elem?-append (x ∷ xs) ys zero h = refl
get_elem?-append (x ∷ xs) ys (suc i) h = get_elem?-append xs ys i (omega arith)

left-set :
    (ws : List Worker) (i j k : ℕ) {w : Worker} (w' : Worker)
    → get_elem? ws j ≡ some w
    → turns_left w'.pc ≤ turns_left w.pc - k
    → left_at i (set ws j w') ≤ left_at i ws - (if i == j then k else 0)
left-set [] i j k w' e h = ground arith
left-set (x ∷ ws) zero zero k w' e h = ground arith
left-set (x ∷ ws) zero (suc j) k w' e h = ground arith
left-set (x ∷ ws) (suc i) zero k w' e h = ground arith
left-set (x ∷ ws) (suc i) (suc j) k w' e h = ground (arith, left-set ws i j k w' e h)

work_on_drains :
    (s : System) (i j : ℕ) (o : Option Worker)
    → get_elem? s.workers j ≡ o
    → i < length s.workers
    → s.pool.shutdown ≡ true
    → left_at i (work_on s j o).workers ≤ left_at i s.workers - (if i == j then 1 else 0)
unfolding work_on
work_on_drains s i j none e k h = ground (arith, get_elem?-some s.workers i k)
work_on_drains s i j (some w) e k h =
    left-set s.workers i j 1 (record w { pc = (worker_turn s.pool w.tid w.pc).pc }) e
      (turn_drains s.pool w.tid w.pc h)

exit_task_drains :
    (s : System) (i j : ℕ) (o : Option Worker)
    → get_elem? s.workers j ≡ o
    → left_at i (exit_task s j o).workers ≤ left_at i s.workers
unfolding exit_task
exit_task_drains s i j none e = omega arith
exit_task_drains s i j (some w) e =
    let less = exits_drain w.pc in
    ground (arith, left-set s.workers i j 0 (record w { pc = exits w.pc }) e)

step_drains :
    (s : System) (i : ℕ) (e : Event)
    → i < length s.workers
    → s.pool.shutdown ≡ true
    → left_at i (step s e).workers ≤ left_at i s.workers - turn_of i e
unfolding step add_task free_pool manage_on
step_drains s i (add t) k h = ground arith
step_drains s i (work j) k h = work_on_drains s i j (get_elem? s.workers j) refl k h
step_drains s i (task_exits j) k h =
    omega (arith, exit_task_drains s i j (get_elem? s.workers j) refl)
step_drains s i (manage new_id) k h =
    rw (get_elem?-append s.workers (map spawn (manager_turn s.pool new_id s.manager).born) i k)
      (omega arith)
step_drains s i destroy k h = omega arith
step_drains s i release k h = ground arith

length-work_on :
    (s : System) (i : ℕ) (o : Option Worker) → length s.workers ≤ length (work_on s i o).workers
unfolding work_on
length-work_on s i none = omega arith
length-work_on s i (some w) =
    omega (arith, length-set s.workers i (record w { pc = (worker_turn s.pool w.tid w.pc).pc }))

length-exit_task :
    (s : System) (i : ℕ) (o : Option Worker) → length s.workers ≤ length (exit_task s i o).workers
unfolding exit_task
length-exit_task s i none = omega arith
length-exit_task s i (some w) = omega (arith, length-set s.workers i (record w { pc = exits w.pc }))

length-step : (s : System) (e : Event) → length s.workers ≤ length (step s e).workers
unfolding step add_task free_pool manage_on work_on exit_task
length-step s (add t) = ground arith
length-step s (work j) = length-work_on s j (get_elem? s.workers j)
length-step s (task_exits j) = length-exit_task s j (get_elem? s.workers j)
length-step s (manage new_id) =
    omega
      (arith, length-append {0} s.workers (map spawn (manager_turn s.pool new_id s.manager).born))
length-step s destroy = omega arith
length-step s release = ground arith

run_drains :
    (s : System) (i : ℕ) (es : List Event)
    → i < length s.workers
    → s.pool.shutdown ≡ true
    → left_at i (run s es).workers ≤ left_at i s.workers - turns_of i es
unfolding run
run_drains s i [] k h = omega arith
run_drains s i (e ∷ es) k h =
    let rest =
      run_drains (step s e) i es (omega (arith, length-step s e)) (step-Quiet s e h).shut in
    omega (arith, rest, step_drains s i e k h)

pc-turns : (pc : Pc) → turns_left pc ≤ 5
pc-turns at_top = omega arith
pc-turns pc = omega arith

turns_left-le : (ws : List Worker) (i : ℕ) → left_at i ws ≤ 5
turns_left-le [] i = omega arith
turns_left-le (w ∷ ws) zero = pc-turns w.pc
turns_left-le (w ∷ ws) (suc i) = turns_left-le ws i

-- A schedule in which the pool is not freed.
abbrev pub IsHeld : Event → Type 0
IsHeld release = ⊥
IsHeld _ = Unit {0}

abbrev pub AllHeld : List Event → Type 0
AllHeld [] = Unit {0}
AllHeld (e ∷ es) = IsHeld e × AllHeld es

-- The pool's memory is there, and `use_after_free` is as it was.
record InMemory (s t : System) : Type 0 where
  held : t.freed ≡ false
  same : t.use_after_free ≡ s.use_after_free

step-InMemory : (s : System) (e : Event) → s.freed ≡ false → IsHeld e → InMemory s (step s e)
unfolding step add_task work_on exit_task manage_on
step-InMemory s (add t) h k = record { held = ground (arith, h); same = ground arith }
step-InMemory s (work j) h k = record { held = ground (arith, h); same = ground (arith, h) }
step-InMemory s (task_exits j) h k = record { held = ground (arith, h); same = ground arith }
step-InMemory s (manage new_id) h k = record { held = h; same = refl }
step-InMemory s destroy h k = record { held = h; same = refl }
step-InMemory s release h k = elim k [ ]

run-InMemory : (s : System) (es : List Event) → s.freed ≡ false → AllHeld es → InMemory s (run s es)
unfolding run
run-InMemory s [] h k = record { held = h; same = refl }
run-InMemory s (e ∷ es) h k =
    let one = step-InMemory s e h k.0 in
    let rest = run-InMemory (step s e) es one.held k.1 in
    record { held = rest.held; same = rest.same ∙ one.same }

pub run_safe :
    (s : System) (es : List Event)
    → s.freed ≡ false
    → AllHeld es
    → (run s es).use_after_free ≡ s.use_after_free
run_safe s es h k = (run-InMemory s es h k).same

-- Once `shutdown` is set on a pool in memory, and as long as `threadPoolDestroy` does not free it, each worker that a
-- schedule lets go on five times has ended by then, whatever else the schedule does in between, and no
-- thread has touched freed memory.
pub shutdown_ends_workers :
    (s : System) (i : ℕ) (es : List Event)
    → i < length s.workers
    → s.pool.shutdown ≡ true
    → s.freed ≡ false
    → s.use_after_free ≡ false
    → AllHeld es
    → 5 ≤ turns_of i es
    → (left_at i (run s es).workers ≡ 0) × ((run s es).use_after_free ≡ false)
shutdown_ends_workers s i es k h there safe held n = (
  omega (arith, run_drains s i es k h, turns_left-le s.workers i),
  run_safe s es there held ∙ safe,
)
