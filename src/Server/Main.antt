-- ===== src/Server/Main.antt =====
-- The loop of `main` in a_cat/server/main/server.c, with the threads of its pool: what `epoll_wait`
-- and `accept` answer is part of the event that lets `main` go on. The pool is not destroyed while
-- the loop runs: no code calls `threadPoolDestroy`.
pub mod Order
pub mod Stall
mod Tests
use linux_cat.Common.{ℕ, ◌&&◌, List, [], ◌∷◌, ◌++◌, Option, none, some, ◌==◌, if◌then◌else◌}
use linux_cat.Pool.{Task, ThreadPool, Add, waits, thread_pool_add}
use linux_cat.Pool.System.{Event, System, add, work, task_exits, manage, step, start, worker_ids}

-- `struct epoll_event`
pub record Ready : Type 0 where
  pub events : ℕ
  pub fd : ℕ

abbrev pub epollin : ℕ
epollin = 1

-- Where `main` stands: in `epoll_wait`, in the `for` with these events left, in `threadPoolAdd` with a
-- new connection, or past `exit`, which ends every thread.
pub data MainPc : Type 0 where
  polling : MainPc
  handling : List Ready → MainPc
  adding : ℕ → List Ready → MainPc
  exited : MainPc

-- `accepted` records the connections that `accept` has returned.
pub record Serving : Type 0 where
  pub system : System
  pub main : MainPc
  pub accepted : List ℕ

-- What `epoll_wait` and `accept` answer, where `main` calls them; `none` is an error.
pub record Answer : Type 0 where
  pub ready : List Ready
  pub cfd : Option ℕ

pub data Happening : Type 0 where
  works : ℕ → Happening
  ends_task : ℕ → Happening
  manages : (ℕ → ℕ) → Happening
  goes_on : Answer → Happening

-- `threadPoolAdd(pool, thread_read, (void*)cfd)`; the code of `thread_read` is the number 1.
abbrev pub connection : ℕ → Task
connection cfd = record { function = 1; arg = cfd }

-- `accept`, for an event on the listening socket
accept_on : Serving → List Ready → Option ℕ → Serving
accept_on s rs none = record s { main = exited }
accept_on s rs (some cfd) = record s { main = adding cfd rs; accepted = s.accepted ++ (cfd ∷ []) }

-- A waiting `threadPoolAdd` tries again when it is woken.
add_on : Serving → ℕ → List Ready → Add → Serving
add_on s cfd rs waits = s
add_on s cfd rs _ = record s { system = step s.system (add (connection cfd)); main = handling rs }

pub main_turn : ℕ → Serving → MainPc → Answer → Serving
unfolding accept_on add_on
main_turn sockfd s polling a = record s { main = handling a.ready }
main_turn sockfd s (handling []) a = record s { main = polling }
main_turn sockfd s (handling (r ∷ rs)) a =
    if r.events == epollin && r.fd == sockfd
    then accept_on s rs a.cfd
    else record s { main = handling rs }
main_turn sockfd s (adding cfd rs) a =
    add_on s cfd rs (thread_pool_add s.system.pool (connection cfd))
main_turn sockfd s exited a = s

pool_turn : Serving → MainPc → Event → Serving
pool_turn s exited e = s
pool_turn s _ e = record s { system = step s.system e }

pub happen : ℕ → Serving → Happening → Serving
unfolding main_turn pool_turn
happen sockfd s (works i) = pool_turn s s.main (work i)
happen sockfd s (ends_task i) = pool_turn s s.main (task_exits i)
happen sockfd s (manages new_id) = pool_turn s s.main (manage new_id)
happen sockfd s (goes_on a) = main_turn sockfd s s.main a

pub serve_all : ℕ → Serving → List Happening → Serving
serve_all sockfd s [] = s
serve_all sockfd s (h ∷ hs) = serve_all sockfd (happen sockfd s h) hs

-- `main` before its first `epoll_wait`: `threadPoolCreate(3, 10, 100)` has made the pool.
pub begin : ThreadPool → (ℕ → ℕ) → Serving
begin pool new_id = record {
  system = start pool (worker_ids 3 0 new_id);
  main = polling;
  accepted = [];
}
