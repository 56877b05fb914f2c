-- ===== src/Client/Handover.antt =====
-- How `thread_read` of a_cat/client/work/work.c hands the messages with action 5 to the threads that
-- run `recv_file`: case 5 fills one variable `omsg`, which each new thread copies, and two semaphores
-- order the two sides. The variable is taken to keep its bytes
-- behind the block that declares it, and `pthread_create` to succeed.
pub mod Phases
pub mod Order
mod Tests
use linux_cat.Common.{
  ℕ, zero, suc, ◌+◌, ◌-◌, List, [], ◌∷◌, ◌++◌, Option, none, some, ◌>>=◌, ◌==◌, if◌then◌else◌,
  get_elem?, set,
}
use linux_cat.Message.{Msg}

-- Where `thread_read` stands: at `recv`, or in case 5 at `sem_wait(&sem[0])`, at the copy, at
-- `sem_post(&sem[1])` or at `pthread_create`.
pub data Reader : Type 0 where
  reading : Reader
  claims : Msg → Reader
  copies : Msg → Reader
  posts : Reader
  creates : Reader

-- Where a thread of `recv_file` stands: at `sem_wait(&sem[1])`, at its copy, at `sem_post(&sem[0])`
-- with its copy, or behind it.
pub data Receiver : Type 0 where
  waits : Receiver
  takes : Receiver
  leaves : Msg → Receiver
  runs : Msg → Receiver

-- `left` are the messages that `recv` is still to hand over, and `omsg` is `none` while it is
-- uninitialised.
pub record Handover : Type 0 where
  pub left : List Msg
  pub reader : Reader
  pub sem0 : ℕ
  pub sem1 : ℕ
  pub omsg : Option Msg
  pub threads : List Receiver

-- `init_sem`
pub init_sem : List Msg → Handover
init_sem left = record {
  left = left;
  reader = reading;
  sem0 = 1;
  sem1 = 0;
  omsg = none;
  threads = [];
}

-- A thread that a semaphore holds stays where it is.
pub reader_turn : Handover → Reader → Handover
reader_turn s reading = elim (s.left) [
  | [] ↦ s
  | m ∷ ms ↦ record s { left = ms; reader = claims m }
]
reader_turn s (claims m) =
    if s.sem0 == 0 then s else record s { sem0 = s.sem0 - 1; reader = copies m }
reader_turn s (copies m) = record s { omsg = some m; reader = posts }
reader_turn s posts = record s { sem1 = s.sem1 + 1; reader = creates }
reader_turn s creates = record s { threads = s.threads ++ (waits ∷ []); reader = reading }

-- `none`: the thread copies an uninitialised variable.
pub receiver_turn : Handover → ℕ → Receiver → Option Handover
receiver_turn s i waits =
    some
      (if s.sem1 == 0 then s else record s { sem1 = s.sem1 - 1; threads = set s.threads i takes })
receiver_turn s i takes = s.omsg >>= λ m. some (record s { threads = set s.threads i (leaves m) })
receiver_turn s i (leaves m) =
    some (record s { sem0 = s.sem0 + 1; threads = set s.threads i (runs m) })
receiver_turn s i (runs m) = some s

-- Who goes on.
pub data Turn : Type 0 where
  reader_goes : Turn
  thread_goes : ℕ → Turn

pub thread_turn : Handover → ℕ → Option Receiver → Option Handover
thread_turn s i none = some s
thread_turn s i (some t) = receiver_turn s i t

pub turn_of : Handover → Turn → Option Handover
turn_of s reader_goes = some (reader_turn s s.reader)
turn_of s (thread_goes i) = thread_turn s i (get_elem? s.threads i)

pub hand_over : Handover → List Turn → Option Handover
unfolding turn_of
hand_over s [] = some s
hand_over s (t ∷ ts) = turn_of s t >>= λ s'. hand_over s' ts
