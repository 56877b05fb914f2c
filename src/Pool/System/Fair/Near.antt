-- ===== src/Pool/System/Fair/Near.antt =====
-- The way of one worker to the tasks that wait, turn by turn, whatever the other threads do.
use linux_cat.Common.{
  ℕ, suc, ◌+◌, ◌-◌, ◌*◌, ◌<◌, ◌≤◌, ◌≡◌, ◌⊎◌, inl, inr, refl, ◌∙◌, ap, subst, List, [], ◌∷◌, some,
  false, get_elem?, length, length-append, arith, ℕ_discrete, dec_lt,
}
use linux_cat.Pool.System.{
  Pc, at_top, got, running, finished, asleep, retiring, closing, retired, closed, lost, System,
  Event, add, work, task_exits, manage, destroy, release, step, run, worker_turn,
}
use linux_cat.Pool.System.Counts.{Inv, step-Inv}
use linux_cat.Pool.System.Fifo.{IsFifo, step-IsFifo}
use linux_cat.Pool.System.Open.{work-Keeps}
use linux_cat.Pool.System.Drain.{turn_of, turns_of}
use linux_cat.Pool.System.Serve.{At, turn-At, take-At}
use linux_cat.Pool.System.Fair.{
  Spares, AllSpare, way_round, Grows, step-Grows, worker_stays, waiting,
}

-- Worker `i` is on its way round, and `b` turns of it are enough to have the first `n` tasks.
pub record OnWay (s : System) (i n b : ℕ) : Type 0 where
  pub tid : ℕ
  pub pc : Pc
  pub k : ℕ
  pub there : get_elem? s.workers i ≡ some (record { tid = tid; pc = pc })
  pub way : way_round pc ≡ some k
  pub enough : 4 * (n - length s.taken_tasks) + k ≤ b

pub record Nearing (s : System) (i n b : ℕ) : Type 0 where
  pub inv : Inv s
  pub fifo : IsFifo s
  pub is_open : s.pool.shutdown ≡ false
  pub known : n ≤ length s.submitted
  pub near : (n ≤ length s.taken_tasks) ⊎ OnWay s i n b

length-taken_tasks : {s t : System} → Grows s t → length s.taken_tasks ≤ length t.taken_tasks
length-taken_tasks {s} g =
    omega (arith, ap length g.taken_is, length-append s.taken_tasks g.new_taken)

length-submitted : {s t : System} → Grows s t → length s.submitted ≤ length t.submitted
length-submitted {s} g =
    omega (arith, ap length g.submitted_is, length-append s.submitted g.new_tasks)

-- A turn of the worker on its way round to the head of its loop.
turn-OnWay :
    (s : System) (i n b k j : ℕ) (pc next : Pc)
    → (a : At s i pc s.pool.queue_size) → 4 * (n - length s.taken_tasks) + k ≤ b
    → way_round next ≡ some j
    → j < k
    → (worker_turn s.pool a.tid pc).pc ≡ next
    → (worker_turn s.pool a.tid pc).pool.queue_size ≡ s.pool.queue_size
    → OnWay (step s (work i)) i n (b - 1)
turn-OnWay s i n b k j pc next a less way fewer to same =
    let at = turn-At s i pc next s.pool.queue_size s.pool.queue_size a to same in
    record {
      tid = at.tid;
      pc = next;
      k = j;
      there = at.there;
      way = way;
      enough = omega (arith, less, fewer, length-taken_tasks (step-Grows s i (work i) tt));
    }

-- A turn of the worker at the head of its loop, while a task is to be taken.
top-OnWay :
    (s : System) (i n b : ℕ)
    → Nearing s i n b
    → At s i at_top s.pool.queue_size
    → 4 * (n - length s.taken_tasks) ≤ b
    → length s.taken_tasks < n
    → OnWay (step s (work i)) i n (b - 1)
top-OnWay s i n b o a less short =
    let left = waiting s o.fifo in
    let known = o.known in
    let size : s.pool.queue_size ≡ suc (s.pool.queue_size - 1) =
      omega (arith, left, known, short) in
    let (t, at) =
      take-At s i (s.pool.queue_size - 1) o.inv
        (record { tid = a.tid; there = a.there; size = size; open_still = a.open_still }) in
    let left' = waiting (step s (work i)) (step-IsFifo s (work i) o.inv o.fifo) in
    let same = (work-Keeps s i).none_added in
    record {
      tid = at.tid;
      pc = got t;
      k = 3;
      there = at.there;
      way = refl;
      enough = omega (arith, left, left', ap length same, at.size, size, less, short);
    }

own_turn :
    (s : System) (i n b k tid : ℕ) (pc : Pc)
    → Nearing s i n b
    → length s.taken_tasks < n
    → get_elem? s.workers i ≡ some (record { tid = tid; pc = pc })
    → way_round pc ≡ some k
    → 4 * (n - length s.taken_tasks) + k ≤ b
    → OnWay (step s (work i)) i n (b - 1)
unfolding worker_turn
own_turn s i n b k tid at_top a short there way less =
    top-OnWay s i n b a (record { tid = tid; there = there; size = refl; open_still = a.is_open })
      (omega (arith, less)) short
own_turn s i n b k tid (got t) a short there way less =
    turn-OnWay s i n b k 2 (got t) (running t)
      (record { tid = tid; there = there; size = refl; open_still = a.is_open }) less refl
      (ground (arith, way)) refl refl
own_turn s i n b k tid (running t) a short there way less =
    turn-OnWay s i n b k 1 (running t) finished
      (record { tid = tid; there = there; size = refl; open_still = a.is_open }) less refl
      (ground (arith, way)) refl refl
own_turn s i n b k tid finished a short there way less =
    turn-OnWay s i n b k 0 finished at_top
      (record { tid = tid; there = there; size = refl; open_still = a.is_open }) less refl
      (ground (arith, way)) refl refl
own_turn s i n b k tid asleep a short there way less = ground (arith, way)
own_turn s i n b k tid retiring a short there way less = ground (arith, way)
own_turn s i n b k tid closing a short there way less = ground (arith, way)
own_turn s i n b k tid retired a short there way less = ground (arith, way)
own_turn s i n b k tid closed a short there way less = ground (arith, way)
own_turn s i n b k tid lost a short there way less = ground (arith, way)

other_turn :
    (s : System) (i n b : ℕ) (e : Event)
    → Spares i e
    → turn_of i e ≡ 0
    → OnWay s i n b
    → OnWay (step s e) i n b
other_turn s i n b e h k o =
    let less = o.enough in
    record {
      tid = o.tid;
      pc = o.pc;
      k = o.k;
      there = worker_stays s i e h k o.there;
      way = o.way;
      enough = omega (arith, less, length-taken_tasks (step-Grows s i e h));
    }

no_turn :
    (s : System) (i n b : ℕ) (e : Event)
    → Spares i e
    → turn_of i e ≡ 0
    → OnWay s i n b
    → OnWay (step s e) i n (b - turn_of i e)
no_turn s i n b e h none_of o =
    subst (OnWay (step s e) i n) {x = b} (omega (arith, none_of)) (other_turn s i n b e h none_of o)

step-OnWay :
    (s : System) (i n b : ℕ) (e : Event)
    → Spares i e
    → Nearing s i n b
    → OnWay s i n b
    → length s.taken_tasks < n
    → OnWay (step s e) i n (b - turn_of i e)
step-OnWay s i n b (work j) h a o short = elim (ℕ_discrete i j) [
  | yes same ↦
      let mine : turn_of i (work j) ≡ 1 = ground (arith, same) in
      let moved = own_turn s i n b o.k o.tid o.pc a short o.there o.way o.enough in
      rw mine (subst (λ l. OnWay (step s (work l)) i n (b - 1)) same moved)
  | no other ↦
      let theirs : turn_of i (work j) ≡ 0 = ground (arith, other) in
      no_turn s i n b (work j) tt theirs o
]
step-OnWay s i n b (add t) h a o short = no_turn s i n b (add t) h refl o
step-OnWay s i n b (task_exits j) h a o short = no_turn s i n b (task_exits j) h refl o
step-OnWay s i n b (manage new_id) h a o short = no_turn s i n b (manage new_id) h refl o
step-OnWay s i n b destroy h a o short = elim h [ ]
step-OnWay s i n b release h a o short = no_turn s i n b release h refl o

step-Nearing :
    (s : System) (i n b : ℕ) (e : Event)
    → Spares i e
    → Nearing s i n b
    → Nearing (step s e) i n (b - turn_of i e)
step-Nearing s i n b e h a =
    let grown = step-Grows s i e h in
    let known = a.known in
    record {
      inv = step-Inv s e a.inv;
      fifo = step-IsFifo s e a.inv a.fifo;
      is_open = grown.open_still ∙ a.is_open;
      known = omega (arith, known, length-submitted grown);
      near = elim (dec_lt (length s.taken_tasks) n) [
        | yes short ↦ elim (a.near) [
          | inl done ↦ inl (omega (arith, done, short))
          | inr o ↦ inr (step-OnWay s i n b e h a o short)
        ]
        | no done ↦ inl (omega (arith, done, length-taken_tasks grown))
      ];
    }

pub run-Nearing :
    (s : System) (i n b : ℕ) (es : List Event)
    → AllSpare i es
    → Nearing s i n b
    → Nearing (run s es) i n (b - turns_of i es)
unfolding run
run-Nearing s i n b [] h a = subst (Nearing s i n) {x = b} (omega arith) a
run-Nearing s i n b (e ∷ es) h a =
    let rest = run-Nearing (step s e) i n (b - turn_of i e) es h.1 (step-Nearing s i n b e h.0 a) in
    subst (Nearing (run (step s e) es) i n) {x = b - turn_of i e - turns_of i es} (omega arith) rest
