-- ===== src/Pool/System/Destroy.antt =====
-- `threadPoolDestroy` from the call to the freeing of the pool.
use linux_cat.Common.{ℕ, ◌≤◌, ◌≡◌, false, List, [], ◌∷◌, some, true, get_elem?}
use linux_cat.Pool.System.{
  Worker, ManagerPc, checking, sleeping, sized, ready, trimming, stopped, System, Event, manage,
  destroy,
}

-- The turns that the manager has left before it ends, once `shutdown` is set.
abbrev rounds_left : ManagerPc → ℕ
rounds_left checking = 1
rounds_left sleeping = 5
rounds_left (sized queue_size live_num) = 4
rounds_left (ready queue_size live_num busy_num) = 3
rounds_left (trimming live_num busy_num) = 2
rounds_left stopped = 0

-- `threadPoolDestroy` waits for the manager, which has `n` turns left at most, and worker `i` is `w`.
record IsClosing (s : System) (i : ℕ) (w : Worker) (n : ℕ) : Type 0 where
  shut : s.pool.shutdown ≡ true
  held : s.freed ≡ false
  safe : s.use_after_free ≡ false
  there : get_elem? s.workers i ≡ some w
  left : rounds_left s.manager ≤ n

-- What `threadPoolDestroy` does while the manager goes on to its end: set `shutdown`, and wait.
abbrev pub destroys : (ℕ → ℕ) → List Event
destroys new_id =
    destroy ∷ manage new_id ∷ manage new_id ∷ manage new_id ∷ manage new_id ∷ manage new_id ∷ []
