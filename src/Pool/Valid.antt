-- ===== src/Pool/Valid.antt =====
-- The representation invariant of `struct ThreadPool`, one critical section at a time.
use linux_cat.Common.{
  ℕ, ◌+◌, ◌-◌, ◌%◌, ◌≤◌, ◌<◌, ◌≡◌, ◌≢◌, ap, List, [], ◌∷◌, arith, length, length-set, mod-lt,
  mod-add-mod,
}
use linux_cat.Pool.{
  Task, ThreadPool, added, Alloc, created, numbere, thread_pool_create, thread_pool_add,
  worker_pass, worker_wake, thread_exit, grow_from, manager_grow, manager_shrink,
}

-- The ring indices stay inside the array, and the counters inside their bounds.
pub record IsValid (p : ThreadPool) : Type 0 where
  pub cap_pos : 0 < p.queue_capacity
  pub stored : length p.task_q ≡ p.queue_capacity
  pub size_in : p.queue_size ≤ p.queue_capacity
  pub front_in : p.queue_front < p.queue_capacity
  pub rear_at : p.queue_rear ≡ (p.queue_front + p.queue_size) % p.queue_capacity
  pub live_low : p.min_num ≤ p.live_num
  pub live_high : p.live_num ≤ p.max_num
  pub exit_in : p.exit_num ≤ numbere

pub mod-step : (f n c : ℕ) → ((f + n) % c + 1) % c ≡ (f + (n + 1)) % c
mod-step f n c = rw mod-add-mod (ap (λ k. k % c) (omega arith))

-- What `threadPoolCreate` makes of sensible arguments is valid.
pub thread_pool_create-IsValid :
    (a : Alloc) (min max queue_size : ℕ) (junk : List Task) (new_id : ℕ → ℕ) {p : ThreadPool}
    → min ≤ max
    → 0 < queue_size
    → length junk ≡ queue_size
    → thread_pool_create a min max queue_size junk new_id ≡ created p
    → IsValid p
unfolding thread_pool_create
thread_pool_create-IsValid a min max n junk new_id h k l e = ground arith

pub thread_pool_add-IsValid :
    {p q : ThreadPool} (t : Task) → IsValid p → thread_pool_add p t ≡ added q → IsValid q
unfolding thread_pool_add
thread_pool_add-IsValid {p} t v e = ground (
  arith,
  length-set p.task_q p.queue_rear t,
  mod-step p.queue_front p.queue_size p.queue_capacity,
)

mod-back : (f n c : ℕ) → n ≢ 0 → (f + n) % c ≡ ((f + 1) % c + (n - 1)) % c
mod-back f n c h = rw mod-add-mod (ap (λ k. k % c) (omega arith))

pub worker_pass-IsValid : {p : ThreadPool} → IsValid p → IsValid (worker_pass p).1
unfolding worker_pass
worker_pass-IsValid {p} v = ground (
  arith,
  mod-back p.queue_front p.queue_size p.queue_capacity,
  mod-lt (p.queue_front + 1) v.cap_pos,
)

pub worker_wake-IsValid : {p : ThreadPool} → IsValid p → IsValid (worker_wake p).1
unfolding worker_wake
worker_wake-IsValid {p} v = ground (
  arith,
  worker_pass-IsValid {p = p} v,
  worker_pass-IsValid {p = record p { exit_num = p.exit_num - 1 }},
)

pub thread_exit-IsValid : {p : ThreadPool} (tid : ℕ) → IsValid p → IsValid (thread_exit p tid)
unfolding thread_exit
thread_exit-IsValid tid v = omega arith

-- The manager never starts more threads than `maxNum` leaves room for, and at most `NUMBERE`.
pub grow_from_bounds :
    (max : ℕ) (new_id : ℕ → ℕ) (ids : List ℕ) (counter live : ℕ)
    → live ≤ max
    → counter ≤ numbere
    → let g = grow_from max new_id ids counter live in
      (g.live ≤ max)
      × (g.live ≡ live + length g.born)
      × (counter + length g.born ≤ numbere)
      × (length g.slots ≡ length ids)
unfolding grow_from
grow_from_bounds max new_id [] counter live h k = omega arith
grow_from_bounds max new_id (x ∷ xs) counter live h k = ground (
  arith,
  grow_from_bounds max new_id xs counter live,
  grow_from_bounds max new_id xs (counter + 1) (live + 1),
)

pub manager_grow-IsValid :
    {p : ThreadPool} (new_id : ℕ → ℕ) → IsValid p → IsValid (manager_grow p new_id).0
unfolding manager_grow
manager_grow-IsValid {p} new_id v =
    ground (arith, grow_from_bounds p.max_num new_id p.thread_ids 0 p.live_num)

pub manager_shrink-IsValid : {p : ThreadPool} → IsValid p → IsValid (manager_shrink p)
unfolding manager_shrink
manager_shrink-IsValid v = omega arith
