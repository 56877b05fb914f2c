-- ===== src/Server/Main/Order.antt =====
-- The order in which the connections that `main` (a_cat/server/main/server.c) accepts are taken up.
use linux_cat.Common.{
  ℕ, ◌≡◌, refl, sym, ap, ◌∙◌, false, List, [], ◌∷◌, ◌++◌, map, Option, none, some, append-nil,
  append_assoc, map-append, inl, inr, Bool-cases, ◌&&◌, ◌==◌,
}
use linux_cat.Pool.{Task, ThreadPool, Add, waits, refused, added, thread_pool_add}
use linux_cat.Pool.System.{Event, add, work, task_exits, manage, step}
use linux_cat.Pool.System.Open.{
  Keeps, work-Keeps, exit-Keeps, manage-Keeps, add_opens, add_accepted, start_open,
}
use linux_cat.Pool.System.Counts.{Inv, Made, step-Inv, start-Inv}
use linux_cat.Pool.System.Fifo.{pending, IsFifo, step-IsFifo, start-IsFifo}
use linux_cat.Server.Main.{
  epollin, Ready, MainPc, polling, handling, adding, exited, Serving, Answer, Happening, works,
  ends_task, manages, goes_on, connection, accept_on, add_on, main_turn, pool_turn, happen,
  serve_all, begin,
}

-- The connection that `main` holds and that is not in the pool yet.
abbrev pub in_hand : MainPc → List Task
in_hand (adding cfd rs) = connection cfd ∷ []
in_hand _ = []

record InOrder (s : Serving) : Type 0 where
  counts : Inv s.system
  queue : IsFifo s.system
  open_pool : s.system.pool.shutdown ≡ false
  handed : map connection s.accepted ≡ s.system.submitted ++ in_hand s.main

pool_turn-InOrder :
    (s : Serving) (pc : MainPc) (e : Event)
    → Keeps s.system (step s.system e)
    → InOrder s
    → InOrder (pool_turn s pc e)
unfolding pool_turn
pool_turn-InOrder s exited e k v = v
pool_turn-InOrder s _ e k v = record {
  counts = step-Inv s.system e v.counts;
  queue = step-IsFifo s.system e v.counts v.queue;
  open_pool = k.open_still ∙ v.open_pool;
  handed = v.handed ∙ ap (λ l. l ++ in_hand s.main) (sym k.none_added);
}

add_on-InOrder :
    (s : Serving) (cfd : ℕ) (rs : List Ready) (a : Add)
    → s.main ≡ adding cfd rs
    → thread_pool_add s.system.pool (connection cfd) ≡ a
    → InOrder s
    → InOrder (add_on s cfd rs a)
unfolding add_on
add_on-InOrder s cfd rs waits m e v = v
add_on-InOrder s cfd rs refused m e v =
    absurd (add_accepted s.system.pool (connection cfd) v.open_pool e)
add_on-InOrder s cfd rs (added q) m e v =
    let t = connection cfd in
    let (still_open, one_more) = add_opens s.system t v.open_pool e in
    record {
      counts = step-Inv s.system (add t) v.counts;
      queue = step-IsFifo s.system (add t) v.counts v.queue;
      open_pool = still_open;
      handed =
          v.handed
          ∙ ap (λ pc. s.system.submitted ++ in_hand pc) m
          ∙ sym one_more
          ∙ sym (append-nil _);
    }

accept_on-InOrder :
    (s : Serving) (rs : List Ready) (o : Option ℕ)
    → in_hand s.main ≡ []
    → InOrder s
    → InOrder (accept_on s rs o)
unfolding accept_on
accept_on-InOrder s rs none m v = record {
  counts = v.counts;
  queue = v.queue;
  open_pool = v.open_pool;
  handed = v.handed ∙ ap (◌++◌ s.system.submitted) m;
}
accept_on-InOrder s rs (some cfd) m v = record {
  counts = v.counts;
  queue = v.queue;
  open_pool = v.open_pool;
  handed =
      map-append connection s.accepted (cfd ∷ [])
      ∙ ap (λ l. l ++ (connection cfd ∷ []))
          (v.handed ∙ ap (◌++◌ s.system.submitted) m ∙ append-nil _);
}

moves-InOrder :
    (s : Serving) (pc : MainPc)
    → in_hand s.main ≡ in_hand pc
    → InOrder s
    → InOrder (record s { main = pc })
moves-InOrder s pc m v = record {
  counts = v.counts;
  queue = v.queue;
  open_pool = v.open_pool;
  handed = v.handed ∙ ap (◌++◌ s.system.submitted) m;
}

main_turn-InOrder :
    (s : Serving) (sockfd : ℕ) (pc : MainPc) (a : Answer)
    → s.main ≡ pc
    → InOrder s
    → InOrder (main_turn sockfd s pc a)
unfolding main_turn
main_turn-InOrder s sockfd polling a m v = moves-InOrder s (handling a.ready) (ap in_hand m) v
main_turn-InOrder s sockfd (handling []) a m v = moves-InOrder s polling (ap in_hand m) v
main_turn-InOrder s sockfd (handling (r ∷ rs)) a m v =
    elim (Bool-cases (r.events == epollin && r.fd == sockfd)) [
      | inl new ↦ rw new (accept_on-InOrder s rs a.cfd (ap in_hand m) v)
      | inr old ↦ rw old (moves-InOrder s (handling rs) (ap in_hand m) v)
    ]
main_turn-InOrder s sockfd (adding cfd rs) a m v =
    add_on-InOrder s cfd rs (thread_pool_add s.system.pool (connection cfd)) m refl v
main_turn-InOrder s sockfd exited a m v = v

happen-InOrder :
    (sockfd : ℕ) (s : Serving) (h : Happening) → InOrder s → InOrder (happen sockfd s h)
unfolding happen
happen-InOrder sockfd s (works i) v = pool_turn-InOrder s s.main (work i) (work-Keeps s.system i) v
happen-InOrder sockfd s (ends_task i) v =
    pool_turn-InOrder s s.main (task_exits i) (exit-Keeps s.system i) v
happen-InOrder sockfd s (manages new_id) v =
    pool_turn-InOrder s s.main (manage new_id) (manage-Keeps s.system new_id) v
happen-InOrder sockfd s (goes_on a) v = main_turn-InOrder s sockfd s.main a refl v

serve_all-InOrder :
    (sockfd : ℕ) (s : Serving) (hs : List Happening) → InOrder s → InOrder (serve_all sockfd s hs)
unfolding serve_all
serve_all-InOrder sockfd s [] v = v
serve_all-InOrder sockfd s (h ∷ hs) v =
    serve_all-InOrder sockfd (happen sockfd s h) hs (happen-InOrder sockfd s h v)

begin-InOrder :
    {new_id : ℕ → ℕ} {p : ThreadPool} → Made 3 10 100 new_id p → InOrder (begin p new_id)
unfolding begin
begin-InOrder m = record {
  counts = start-Inv m;
  queue = start-IsFifo m;
  open_pool = (start_open m).0;
  handed = sym (append-nil _ ∙ (start_open m).1);
}

-- From the start of `main`, on the pool that it made, under every order of the events of `epoll_wait`
-- and `accept`, of the workers and of the manager: the connections accepted so far are those that
-- workers have taken up, in the order in which they were taken up, then those waiting in the ring,
-- oldest first, then the one that `main` is still handing over, if it is. So every connection is taken
-- up at most once, in the order in which it was accepted, and none is dropped.
pub connections_in_order :
    {new_id : ℕ → ℕ} {p : ThreadPool} (sockfd : ℕ) (hs : List Happening)
    → Made 3 10 100 new_id p
    → let s = serve_all sockfd (begin p new_id) hs in
      map connection s.accepted ≡ s.system.taken_tasks ++ (pending s.system.pool ++ in_hand s.main)
connections_in_order {new_id} {p} sockfd hs m =
    let v = serve_all-InOrder sockfd (begin p new_id) hs (begin-InOrder m) in
    let s = serve_all sockfd (begin p new_id) hs in
    v.handed
    ∙ ap (λ l. l ++ in_hand s.main) v.queue
    ∙ append_assoc s.system.taken_tasks (pending s.system.pool) (in_hand s.main)

-- The pool's counters and ring are valid in every state of the server.
pub serve_all-Inv :
    {new_id : ℕ → ℕ} {p : ThreadPool} (sockfd : ℕ) (hs : List Happening)
    → Made 3 10 100 new_id p
    → Inv (serve_all sockfd (begin p new_id) hs).system
serve_all-Inv {new_id} {p} sockfd hs m =
    (serve_all-InOrder sockfd (begin p new_id) hs (begin-InOrder m)).counts
