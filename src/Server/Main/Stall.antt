-- ===== src/Server/Main/Stall.antt =====
-- The server (`main` of a_cat/server/main/server.c and its pool) once every worker that it may have
-- has been ended by the `pthread_exit` of a closed connection.
use linux_cat.Common.{
  ◌++◌, map, suc, ◌+◌, ◌≤◌, length, length-append, arith, ap, sym, subst, ℕ, ◌≡◌, refl, ◌∙◌, List,
  [], ◌∷◌, Bool-cases, inl, inr, ◌&&◌, ◌==◌, none, some, Option,
}
use linux_cat.Pool.{ThreadPool, Add, waits, refused, added, thread_pool_add}
use linux_cat.Pool.System.{Event, System, add, work, task_exits, manage, step}
use linux_cat.Pool.System.Counts.{Inv, Made, step-Inv}
use linux_cat.Pool.System.Lost.{IsStalled, step-IsStalled}
use linux_cat.Server.Main.{
  epollin, MainPc, polling, handling, adding, exited, Serving, Answer, Happening, works, ends_task,
  manages, goes_on, connection, accept_on, add_on, main_turn, pool_turn, happen, serve_all, begin,
}
use linux_cat.Server.Main.Order.{serve_all-Inv, in_hand, connections_in_order}
use linux_cat.Pool.System.Fifo.{pending}
use linux_cat.Pool.System.Fair.{length-segment}
use linux_cat.Pool.System.Open.{step-capacity, start_capacity}

-- What every step of the pool's threads keeps, the server keeps.
module _ (P : System → Type 0) (keep : (s : System) (e : Event) → P s → P (step s e)) where
  pool_turn_keeps :
      (s : Serving) (pc : MainPc) (e : Event) → P s.system → P (pool_turn s pc e).system
  unfolding pool_turn
  pool_turn_keeps s exited e d = d
  pool_turn_keeps s _ e d = keep s.system e d

  main_turn_keeps :
      (s : Serving) (sockfd : ℕ) (pc : MainPc) (a : Answer)
      → P s.system
      → P (main_turn sockfd s pc a).system
  unfolding main_turn add_on accept_on
  main_turn_keeps s sockfd polling a d = d
  main_turn_keeps s sockfd (handling []) a d = d
  main_turn_keeps s sockfd (handling (r ∷ rs)) a d =
      elim (Bool-cases (r.events == epollin && r.fd == sockfd)) [
        | inl new ↦ rw new (accepts a.cfd)
        | inr old ↦ rw old d
      ]
    where
      accepts : (o : Option ℕ) → P (accept_on s rs o).system
      accepts none = d
      accepts (some cfd) = d
  main_turn_keeps s sockfd (adding cfd rs) a d =
      adds (thread_pool_add s.system.pool (connection cfd))
    where
      adds : (o : Add) → P (add_on s cfd rs o).system
      adds waits = d
      adds refused = keep s.system (add (connection cfd)) d
      adds (added q) = keep s.system (add (connection cfd)) d
  main_turn_keeps s sockfd exited a d = d

  serve_all_keeps :
      (sockfd : ℕ) (s : Serving) (hs : List Happening)
      → P s.system
      → P (serve_all sockfd s hs).system
  unfolding serve_all happen
  serve_all_keeps sockfd s [] d = d
  serve_all_keeps sockfd s (works i ∷ hs) d =
      serve_all_keeps sockfd (pool_turn s s.main (work i)) hs (pool_turn_keeps s s.main (work i) d)
  serve_all_keeps sockfd s (ends_task i ∷ hs) d =
      serve_all_keeps sockfd (pool_turn s s.main (task_exits i)) hs
        (pool_turn_keeps s s.main (task_exits i) d)
  serve_all_keeps sockfd s (manages new_id ∷ hs) d =
      serve_all_keeps sockfd (pool_turn s s.main (manage new_id)) hs
        (pool_turn_keeps s s.main (manage new_id) d)
  serve_all_keeps sockfd s (goes_on a ∷ hs) d =
      serve_all_keeps sockfd (main_turn sockfd s s.main a) hs (main_turn_keeps s sockfd s.main a d)

-- No task has been taken from the queue since `before`, and none will be.
record IsDead (before s : System) : Type 0 where
  counts : Inv s
  stalled : IsStalled s
  same : s.taken_tasks ≡ before.taken_tasks

step-IsDead : (before s : System) (e : Event) → IsDead before s → IsDead before (step s e)
step-IsDead before s e d =
    let (stays, none_taken) = step-IsStalled s e d.counts d.stalled in
    record { counts = step-Inv s e d.counts; stalled = stays; same = none_taken ∙ d.same }

serve_all-append :
    (sockfd : ℕ) (s : Serving) (hs later : List Happening)
    → serve_all sockfd (serve_all sockfd s hs) later ≡ serve_all sockfd s (hs ++ later)
unfolding serve_all
serve_all-append sockfd s [] later = refl
serve_all-append sockfd s (h ∷ hs) later = serve_all-append sockfd (happen sockfd s h) hs later

begin_size :
    {new_id : ℕ → ℕ} {p : ThreadPool}
    → Made 3 10 100 new_id p
    → (begin p new_id).system.pool.queue_capacity ≡ 100
unfolding begin
begin_size m = start_capacity m

-- The ring of the pool that `main` made has 100 places, and holds as many tasks at most.
ring_holds :
    {new_id : ℕ → ℕ} {p : ThreadPool} (sockfd : ℕ) (hs : List Happening)
    → Made 3 10 100 new_id p
    → (serve_all sockfd (begin p new_id) hs).system.pool.queue_size ≤ 100
ring_holds {new_id} {p} sockfd hs m =
    let s = serve_all sockfd (begin p new_id) hs in
    let size : s.system.pool.queue_capacity ≡ 100 =
      serve_all_keeps (λ t. t.pool.queue_capacity ≡ 100) (λ t e h. step-capacity t e ∙ h) sockfd
        (begin p new_id) hs (begin_size m) in
    let valid = (serve_all-Inv sockfd hs m).pool_ok in omega (arith, size, valid.size_in)

length-accepted : (l : List ℕ) → length (map connection l) ≡ length l
length-accepted [] = refl
length-accepted (x ∷ l) = ap suc (length-accepted l)

in_hand-short : (pc : MainPc) → length (in_hand pc) ≤ 1
in_hand-short (adding cfd rs) = omega arith
in_hand-short polling = omega arith
in_hand-short (handling rs) = omega arith
in_hand-short exited = omega arith

-- What `main` has accepted and no worker has taken: at most the ring and the one in hand.
accepted_few :
    {new_id : ℕ → ℕ} {p : ThreadPool} (sockfd : ℕ) (hs : List Happening)
    → Made 3 10 100 new_id p
    → let s = serve_all sockfd (begin p new_id) hs in
      length s.accepted ≤ length s.system.taken_tasks + 101
accepted_few {new_id} {p} sockfd hs m =
    let s = serve_all sockfd (begin p new_id) hs in
    let q = s.system.pool in
    omega (
      arith,
      ap length (connections_in_order sockfd hs m),
      length-accepted s.accepted,
      length-append s.system.taken_tasks (pending q ++ in_hand s.main),
      length-append (pending q) (in_hand s.main),
      length-segment q.task_q q.queue_capacity q.queue_front q.queue_size,
      ring_holds sockfd hs m,
      in_hand-short s.main,
    )

-- From the start of `main`, on the pool that it made: once closed connections have ended as many
-- workers as the pool may have, no order of events has a worker take another connection from the
-- queue; and of all the connections that `main` ever accepts, there are at most 101 more than those that
-- workers have taken: the 100 of the ring, and one in hand.
pub closed_connections_stall :
    {new_id : ℕ → ℕ} {p : ThreadPool} (sockfd : ℕ) (hs later : List Happening)
    → Made 3 10 100 new_id p
    → IsStalled (serve_all sockfd (begin p new_id) hs).system
    → let s = serve_all sockfd (begin p new_id) hs in
      let t = serve_all sockfd s later in
      (t.system.taken_tasks ≡ s.system.taken_tasks)
      × (length t.accepted ≤ length s.system.taken_tasks + 101)
closed_connections_stall {new_id} {p} sockfd hs later m stalled =
    let s = serve_all sockfd (begin p new_id) hs in
    let t = serve_all sockfd s later in
    let dead =
      serve_all_keeps (IsDead s.system) (step-IsDead s.system) sockfd s later
        (record { counts = serve_all-Inv sockfd hs m; stalled = stalled; same = refl }) in
    let few =
      subst (λ u. length u.accepted ≤ length u.system.taken_tasks + 101)
        (sym (serve_all-append sockfd (begin p new_id) hs later))
        (accepted_few sockfd (hs ++ later) m) in
    (dead.same, omega (arith, few, ap length dead.same))
