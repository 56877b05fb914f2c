-- ===== src/Pool/System/Fair/All.antt =====
-- With enough turns of one worker every task that waits is taken.
use linux_cat.Common.{
  ℕ, ◌+◌, ◌-◌, ◌*◌, ◌≤◌, ◌≡◌, inl, inr, refl, ◌∙◌, sym, ap, ap₂, subst, append-nil, append_assoc,
  List, [], ◌∷◌, ◌++◌, some, false, get_elem?, length, arith,
}
use linux_cat.Pool.{Task, ThreadPool}
use linux_cat.Pool.System.{Worker, System, Event, step, run, start, worker_ids}
use linux_cat.Pool.System.Counts.{Inv, Made, run-start-Inv}
use linux_cat.Pool.System.Fifo.{IsFifo, run-start-IsFifo}
use linux_cat.Pool.System.Drain.{turns_of}
use linux_cat.Pool.System.Fair.{AllSpare, way_round, step-Grows, waiting}
use linux_cat.Pool.System.Fair.Near.{OnWay, run-Nearing}

run-submitted :
    (s : System) (i : ℕ) (es : List Event)
    → AllSpare i es
    → (new_tasks : List Task) × ((run s es).submitted ≡ s.submitted ++ new_tasks)
unfolding run
run-submitted s i [] h = ([], sym (append-nil s.submitted))
run-submitted s i (e ∷ es) h =
    let grown = step-Grows s i e h.0 in
    let (more, later) = run-submitted (step s e) i es h.1 in
    (
      grown.new_tasks ++ more,
      later
          ∙ ap (λ l. l ++ more) grown.submitted_is
          ∙ append_assoc s.submitted grown.new_tasks more,
    )

-- Of two beginnings of one list the longer goes on from the shorter.
longer :
    (a b c d : List Task)
    → a ++ b ≡ c ++ d
    → length a ≤ length c
    → (rest : List Task) × (c ≡ a ++ rest)
longer [] b c d same h = (c, refl)
longer (x ∷ a) b [] d same h = absurd (omega (arith, h))
longer (x ∷ a) b (y ∷ c) d same h =
    let heads : x ≡ y = cc in
    let tails : a ++ b ≡ c ++ d = cc in
    let (rest, e) = longer a b c d tails (omega (arith, h)) in (rest, ap₂ ◌∷◌ (sym heads) e)

all_taken : (b k : ℕ) {n m : ℕ} → 4 * (n - m) + k ≤ b - b → n ≤ m
all_taken b k h = omega (arith, h)

-- On a pool that `threadPoolCreate` made with `min ≤ max` and a queue of at least one place, after any
-- schedule that leaves it open: if a worker is at the head of its loop or between taking a task and
-- coming back there, then any further schedule that does not destroy the pool, in which that worker's
-- task does not end its thread, and in which it gets four turns for each task now in the queue and the
-- turns that bring it to the head of its loop, has every task that had been added taken from the queue
-- by some worker, in the order in which they were added. The other workers, the manager and the adders may do anything between those turns.
pub tasks_get_taken :
    {min max queue_size : ℕ} {new_id : ℕ → ℕ} {p : ThreadPool} {w : Worker} {k : ℕ}
    (es : List Event) (s : System) (i : ℕ) (fs : List Event)
    → Made min max queue_size new_id p
    → run (start p (worker_ids min 0 new_id)) es ≡ s
    → s.pool.shutdown ≡ false
    → get_elem? s.workers i ≡ some w
    → way_round w.pc ≡ some k
    → AllSpare i fs
    → 4 * s.pool.queue_size + k ≤ turns_of i fs
    → (rest : List Task) × ((run s fs).taken_tasks ≡ s.submitted ++ rest)
tasks_get_taken {w = w} {k = k} es s i fs m reached is_open there way spare enough =
    let inv = subst Inv reached (run-start-Inv es m) in
    let fifo = subst IsFifo reached (run-start-IsFifo es m) in
    let n = length s.submitted in
    let b = turns_of i fs in
    let on_way : OnWay s i n b = record {
      tid = w.tid;
      pc = w.pc;
      k = k;
      there = there;
      way = way;
      enough = omega (arith, enough, waiting s fifo);
    } in
    let near = run-Nearing s i n b fs spare (record {
      inv = inv;
      fifo = fifo;
      is_open = is_open;
      known = omega arith;
      near = inr on_way;
    }) in
    let (more, grown) = run-submitted s i fs spare in
    longer s.submitted more (run s fs).taken_tasks _ (sym grown ∙ near.fifo)
      (elim (near.near) [ inl done ↦ done | inr o ↦ all_taken b o.k o.enough ])
