-- ===== src/Pool/System/Serve.antt =====
-- One worker that goes on, and the tasks in the queue.
use linux_cat.Common.{
  ℕ, zero, suc, ◌<◌, ◌≡◌, refl, ◌∙◌, sym, ap, subst, append-nil, List, [], ◌∷◌, ◌++◌, some, false,
  get_elem?, get_elem?-some, get_elem?-set_self, length, arith,
}
use linux_cat.Pool.{Task, ThreadPool, worker_pass}
use linux_cat.Pool.System.{
  Pc, at_top, got, running, finished, Worker, System, Event, work, step, work_on, run, start,
  worker_ids, worker_turn, act_turn, after_act,
}
use linux_cat.Pool.System.Counts.{Inv, step-Inv, Made, run-start-Inv}
use linux_cat.Pool.System.Fifo.{pending, IsFifo, step-IsFifo, run-start-IsFifo}
use linux_cat.Pool.System.Open.{work-Keeps, turn_open}

-- Worker `i` stands at `pc`, the pool is open, and `n` tasks wait.
pub record At (s : System) (i : ℕ) (pc : Pc) (n : ℕ) : Type 0 where
  pub tid : ℕ
  pub there : get_elem? s.workers i ≡ some (record { tid = tid; pc = pc })
  pub size : s.pool.queue_size ≡ n
  pub open_still : s.pool.shutdown ≡ false

-- The worker's turns for `n` tasks.
abbrev pub rounds : ℕ → ℕ → List Event
rounds zero i = []
rounds (suc n) i = work i ∷ work i ∷ work i ∷ work i ∷ rounds n i

pub get_elem?-length :
    (ws : List Worker) (i : ℕ) {w : Worker} → get_elem? ws i ≡ some w → i < length ws
get_elem?-length [] i e = ground (arith, e)
get_elem?-length (x ∷ ws) zero e = omega arith
get_elem?-length (x ∷ ws) (suc i) e = omega (arith, get_elem?-length ws i e)

-- What a turn of the worker leaves.
pub turn-At :
    (s : System) (i : ℕ) (pc next : Pc) (n k : ℕ) (a : At s i pc n)
    → (worker_turn s.pool a.tid pc).pc ≡ next
    → (worker_turn s.pool a.tid pc).pool.queue_size ≡ k
    → At (step s (work i)) i next k
unfolding step work_on
turn-At s i pc next n k a to left = rw a.there (record {
  tid = a.tid;
  there =
      get_elem?-set_self s.workers i _ (get_elem?-length s.workers i a.there)
      ∙ ap (λ c. some (record { tid = a.tid; pc = c })) to;
  size = left;
  open_still = turn_open s.pool a.tid pc ∙ a.open_still;
})

-- A worker at the head of its loop takes a task, if there is one.
pub take-At :
    (s : System) (i n : ℕ)
    → Inv s
    → At s i at_top (suc n)
    → (t : Task) × At (step s (work i)) i (got t) n
unfolding worker_turn act_turn worker_pass after_act
take-At s i n v a =
    let size = a.size in
    let is_open = a.open_still in
    let ok = v.pool_ok in
    let (t, e) =
      get_elem?-some s.pool.task_q s.pool.queue_front (omega (arith, ok.stored, ok.front_in)) in
    (
      t,
      turn-At s i at_top (got t) (suc n) n a (ground (arith, size, is_open, e))
          (ground (arith, size, is_open, e)),
    )

-- One round: the task is taken, run and done with.
round-At :
    (s : System) (i n : ℕ) → Inv s → At s i at_top (suc n) → At (run s (rounds 1 i)) i at_top n
unfolding run worker_turn
round-At s i n v a =
    let (t, b) = take-At s i n v a in
    let c = turn-At (step s (work i)) i (got t) (running t) n n b refl b.size in
    let d = turn-At _ i (running t) finished n n c refl c.size in
    turn-At _ i finished at_top n n d refl d.size

-- What a round keeps, and the tasks that it adds: none.
record Served (s t : System) : Type 0 where
  inv : Inv t
  fifo : IsFifo t
  none_added : t.submitted ≡ s.submitted

work-Served : (s : System) (i : ℕ) → Inv s → IsFifo s → Served s (step s (work i))
work-Served s i v f = record {
  inv = step-Inv s (work i) v;
  fifo = step-IsFifo s (work i) v f;
  none_added = (work-Keeps s i).none_added;
}

then-Served : {s t u : System} → Served s t → Served t u → Served s u
then-Served a b = record { inv = b.inv; fifo = b.fifo; none_added = b.none_added ∙ a.none_added }

round-Served : (s : System) (i : ℕ) → Inv s → IsFifo s → Served s (run s (rounds 1 i))
unfolding run
round-Served s i v f =
    let a = work-Served s i v f in
    let b = then-Served a (work-Served _ i a.inv a.fifo) in
    let c = then-Served b (work-Served _ i b.inv b.fifo) in
    then-Served c (work-Served _ i c.inv c.fifo)

rounds-serve :
    (s : System) (i n : ℕ)
    → Inv s
    → IsFifo s
    → At s i at_top n
    → Served s (run s (rounds n i)) × At (run s (rounds n i)) i at_top 0
unfolding run
rounds-serve s i zero v f a = (record { inv = v; fifo = f; none_added = refl }, a)
rounds-serve s i (suc n) v f a =
    let served = round-Served s i v f in
    let (more, last) =
      rounds-serve (run s (rounds 1 i)) i n served.inv served.fifo (round-At s i n v a) in
    (then-Served served more, last)

empty-pending : (p : ThreadPool) → p.queue_size ≡ 0 → pending p ≡ []
empty-pending p e = rw e refl

-- On a pool that `threadPoolCreate` made with `min ≤ max` and a queue of at least one place, and that
-- is open after some schedule: a worker that stands at the head of its loop, and then gets four turns
-- for each task in the queue, has by then run them all. Every task ever added has been taken, in the
-- order in which they were added, and the worker stands at the head of its loop again.
rounds_serve_all :
    {min max queue_size : ℕ} {new_id : ℕ → ℕ} {p : ThreadPool} (es : List Event) (s : System)
    (i n : ℕ)
    → Made min max queue_size new_id p
    → run (start p (worker_ids min 0 new_id)) es ≡ s
    → At s i at_top n
    → ((run s (rounds n i)).taken_tasks ≡ s.submitted) × At (run s (rounds n i)) i at_top 0
rounds_serve_all es s i n m reached a =
    let inv = subst Inv reached (run-start-Inv es m) in
    let fifo = subst IsFifo reached (run-start-IsFifo es m) in
    let (served, last) = rounds-serve s i n inv fifo a in
    let t = run s (rounds n i) in
    let none_left : t.taken_tasks ++ pending t.pool ≡ t.taken_tasks =
      ap (λ l. t.taken_tasks ++ l) (empty-pending t.pool last.size) ∙ append-nil t.taken_tasks in
    (sym none_left ∙ sym served.fifo ∙ served.none_added, last)
