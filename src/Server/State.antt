-- ===== src/Server/State.antt =====
-- What the threads of a_cat/server/work/work.c share, what a message asks for, and how a message
-- leaves the loop of `thread_read`; the steps that cases 1, 3, 4 and 7 take on the shared state.
use linux_cat.Common.{
  ℕ, zero, suc, ℤ, pos, negsuc, eq_ℤ, List, [], ◌∷◌, Option, none, some, ◌>>=◌, ◌==◌, if◌then◌else◌,
  replicate,
}
use linux_cat.Memory.{c_text, str_eq, str_copy}
use linux_cat.Message.{Msg}
use linux_cat.Server.Online.{Online, Write, to_all}

-- The state that the threads share: the list of users, the ids of transfers that are taken
-- (`addr`), and the database.
pub record Server (Db : Type 0) : Type 0 where
  pub head : List Online
  pub addr : List ℕ
  pub db : Db

-- How a message leaves the thread: at the head of its loop with some messages written, in the
-- search for a receiver's socket (case 5) or for a free place (case -5), in a loop that never ends,
-- or ended.
pub data Outcome (Db : Type 0) : Type 0 where
  done : Server Db → List Write → Outcome Db
  seeks : Server Db → List Write → Outcome Db
  offers : Server Db → Outcome Db
  hangs : Server Db → Outcome Db
  ended : Server Db → Outcome Db

-- What `recv` answers: 0, less than 0, or a whole message.
pub data Received : Type 0 where
  closed : Received
  failed : Received
  got : Msg → Received

-- The labels of the switch.
pub data Request : Type 0 where
  register login say_to file_to say_all file_data file_socket list_users login_manager mute unmute
        history logout other :
      Request

unfoldable pub request_of : ℤ → Request
request_of a =
    if eq_ℤ a (pos 0)
    then register
    else if eq_ℤ a (pos 1)
    then login
    else if eq_ℤ a (pos 2)
    then say_to
    else if eq_ℤ a (pos 3)
    then file_to
    else if eq_ℤ a (pos 4)
    then say_all
    else if eq_ℤ a (pos 5)
    then file_data
    else if eq_ℤ a (negsuc 4)
    then file_socket
    else if eq_ℤ a (pos 6)
    then list_users
    else if eq_ℤ a (pos 7)
    then login_manager
    else if eq_ℤ a (pos 8)
    then mute
    else if eq_ℤ a (negsuc 7)
    then unmute
    else if eq_ℤ a (pos 9)
    then history
    else if eq_ℤ a (pos 10)
    then logout
    else other

abbrev pub reply : ℕ → Msg → List Write
reply fd m = record { to = fd; msg = m } ∷ []

-- `strcpy(new_user->name, pmsg->name)` into 20 fresh bytes, and the rest of the new node.
unfoldable pub new_node : ℕ → Msg → Option Online
new_node cfd m = do
  name ← c_text m.name
  copy ← str_copy (replicate 20 0) name
  some (record { cfd = cfd; say = 0; name = copy })

-- Case 3: `while (addr[i] == 1) i++`, then `addr[i] = 1`. `none` is a read past the array.
unfoldable pub take_id : List ℕ → Option (ℕ × List ℕ)
take_id [] = none
take_id (x ∷ xs) =
    let rest = take_id xs >>= λ r. some (suc r.0, x ∷ r.1) in
    if x == 1 then rest else some (0, 1 ∷ xs)

-- Case 4, for `fuel` rounds of its loop, of which nothing moves `pNode` on. The inner `none` is a loop
-- that has not ended.
unfoldable pub say_loop : ℕ → List Online → ℕ → Msg → Option (Option (List Write))
say_loop zero ns cfd m = some none
say_loop (suc fuel) [] cfd m = some (some [])
say_loop (suc fuel) (n ∷ ns) cfd m = do
  same ← str_eq n.name m.name
  let rest = say_loop fuel (n ∷ ns) cfd m
  if same
      then some
          (some (if n.say == 1 then reply cfd (record m { action = pos 7 }) else to_all (n ∷ ns) m))
      else rest

-- What is left of that loop after any number of rounds, which is what one round leaves.
unfoldable pub say_to_all : List Online → ℕ → Msg → Option (Option (List Write))
say_to_all [] cfd m = some (some [])
say_to_all (n ∷ ns) cfd m = do
  same ← str_eq n.name m.name
  some (
      if same
      then some (if n.say == 1 then reply cfd (record m { action = pos 7 }) else to_all (n ∷ ns) m)
      else none)
