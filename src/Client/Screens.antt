-- ===== src/Client/Screens.antt =====
-- The client's screens: `main` of a_cat/client/main/client.c, the dialogs of a_cat/client/work/work.c
-- that it calls, and what `thread_read` there does with a message that comes in. An event is the next
-- word that a `scanf` hands over, a message from the server, or a spurious return of the
-- `pthread_cond_wait` of `send_file`. What is printed is left out. `none`
-- is a write past an array, or a word other than a number where a number is read.
pub mod Chatting
pub mod Login
pub mod Leave
pub mod Waiting
pub mod Transfer
pub mod Offers
mod Tests
use linux_cat.Common.{
  ℕ, ◌+◌, ◌-◌, ◌*◌, ◌≤◌, ◌<◌, ◌&&◌, ◌||◌, ℤ, pos, negsuc, eq_ℤ, Bool, true, false, List, [], ◌∷◌,
  ◌++◌, Option, none, some, ◌>>=◌, ltb, leb, ◌==◌, if◌then◌else◌, replicate, codes, set, get_elem?,
}
use linux_cat.Memory.{str_copy, bytes_eq}
use linux_cat.Message.{Msg, zeroed}
use linux_cat.Client.Blocks.{blocksize, block_count, last_bs, full_blocks, file_blocks}

-- Where `main` waits: for a word, for the answer to a login, or for the id of a transfer.
pub data Place : Type 0 where
  menu reg_name reg_password log_name log_password waits_login home chat_to chat chat_file awaits_id
        all gone :
      Place

-- An entry of `gconn`: the size of its map, and how many blocks it is to hold.
pub record Conn : Type 0 where
  pub mapped : ℕ
  pub count : ℕ

pub record Client : Type 0 where
  pub place : Place
  pub pmsg : Msg
  pub lognum : ℤ
  pub sfile_id : ℕ
  pub gconn : List Conn

-- To the server, to the threads that send blocks, and to a thread that receives one.
pub data Act : Type 0 where
  writes : Msg → Act
  sends : List Msg → Act
  receives : Msg → Act

pub data Event : Type 0 where
  typed : List ℕ → Event
  comes : Msg → Event
  wakes : Event

decimal_from : ℕ → List ℕ → Option ℕ
decimal_from n [] = some n
decimal_from n (d ∷ ds) =
    let rest = decimal_from (n * 10 + (d - b'0')) ds in
    if leb b'0' d && leb d b'9' then rest else none

-- `scanf("%d", …)` on a word of digits
pub decimal : List ℕ → Option ℕ
unfolding decimal_from
decimal [] = none
decimal (d ∷ ds) = decimal_from 0 (d ∷ ds)

abbrev Result : Type 0
Result = Option (Client × List Act)

-- The head of the loop of `main`
pub to_menu : Client → Client
to_menu c = record c { place = menu; lognum = pos 0 }

-- `view_user`, and the home screen behind it
pub view_user : Client → Client × List Act
view_user c =
    let m = record c.pmsg { action = pos 6 } in (record c { place = home; pmsg = m }, writes m ∷ [])

-- The loop behind `log_user`, which reads `lognum` until it is set.
pub poll : Client → Client × List Act
unfolding to_menu view_user
poll c = elim (c.place) [
  | waits_login ↦
      if eq_ℤ c.lognum (pos 3) || eq_ℤ c.lognum (negsuc 0)
      then (to_menu c, [])
      else if eq_ℤ c.lognum (pos 1)
      then view_user c
      else (c, [])
  | _ ↦ (c, [])
]

-- `send_file` up to the wait for the id: `files` gives the size of a file that can be opened.
pub offer_file : (List ℕ → Option ℕ) → Client → List ℕ → Result
offer_file files c name = do
  filename ← str_copy c.pmsg.filename name
  let named = record c.pmsg { filename = filename }
  some (elim (files name) [
    | none ↦ (record c { place = gone; pmsg = named }, [])
    | some size ↦
        let m = record named {
          action = pos 3;
          filesize = size;
          count = block_count size;
          bs = blocksize;
        } in
        (record c { place = awaits_id; pmsg = m }, writes m ∷ [])
  ])

-- `send_file` once the id is there
pub send_blocks : Client → Client × List Act
send_blocks c =
    let m = record c.pmsg { sfile_id = c.sfile_id; offset = 0 } in
    let full = if last_bs m.filesize == 0 then m.count else m.count - 1 in
    (record c { place = chat; pmsg = (full_blocks full m).1 }, sends (file_blocks m) ∷ [])

-- `reg_user` and `log_user` up to the name
pub read_name : Client → Place → List ℕ → Result
read_name c next w = do
  name ← str_copy c.pmsg.name w
  some (record c { place = next; pmsg = record c.pmsg { name = name } }, [])

-- The rest of `log_user`, and the loop behind it
pub log_user : Client → List ℕ → Result
unfolding poll
log_user c w = do
  password ← str_copy c.pmsg.password w
  let m = record c.pmsg { password = password }
  let (after, acts) = poll (record c { place = waits_login; pmsg = m })
  some (after, writes m ∷ acts)

-- The rest of `reg_user`
reg_user : Client → List ℕ → Result
unfolding to_menu
reg_user c w = do
  password ← str_copy c.pmsg.password w
  let m = record c.pmsg { password = password }
  some (to_menu (record c { pmsg = m }), writes m ∷ [])

-- `chat_user` up to its loop
open_chat : Client → List ℕ → Result
open_chat c w = do
  toname ← str_copy c.pmsg.toname w
  let m = record c.pmsg { toname = toname; action = pos 9 }
  some (record c { place = chat; pmsg = m }, writes m ∷ [])

-- A round of the loop of `chat_user`
pub chat_user : Client → List ℕ → Result
chat_user c w = do
  message ← str_copy (replicate 1024 0) w
  let heard = record c.pmsg { message = message }
  let m = record heard { action = pos 2 }
  some (
      if bytes_eq w (codes "sfile")
      then (record c { place = chat_file; pmsg = heard }, [])
      else if bytes_eq w (codes "quite")
      then (record c { place = home; pmsg = heard }, [])
      else (record c { pmsg = m }, writes m ∷ []))

-- A round of the loop of `all_user`
pub all_user : Client → List ℕ → Result
all_user c w = do
  message ← str_copy (replicate 1024 0) w
  let heard = record c.pmsg { message = message }
  let m = record heard { action = pos 4 }
  some (
      if bytes_eq w (codes "quite")
      then (record c { place = home; pmsg = heard }, [])
      else (record c { pmsg = m }, writes m ∷ []))

-- The menu of `main`
pub at_menu : Client → List ℕ → Result
unfolding to_menu decimal
at_menu c w = do
  num ← decimal w
  some (
      if num == 0
      then (record c { place = gone }, [])
      else if num == 1
      then (record c { place = log_name; pmsg = record zeroed { action = pos 1 } }, [])
      else if num == 2
      then (record c { place = reg_name; pmsg = record zeroed { action = pos 0 } }, [])
      else (to_menu c, []))

-- `all_user` up to its loop
open_all : Client → Result
open_all c = do
  toname ← str_copy c.pmsg.toname (codes "all")
  some (record c { place = all; pmsg = record c.pmsg { toname = toname } }, [])

-- `quite_user`, and the loop of `main` behind it
quite_user : Client → Client × List Act
unfolding to_menu
quite_user c =
    let m = record c.pmsg { action = pos 10 } in (to_menu (record c { pmsg = m }), writes m ∷ [])

-- The home screen of `main`
at_home : Client → List ℕ → Result
unfolding decimal open_all quite_user
at_home c w = do
  num ← decimal w
  let chosen = record c { lognum = pos num }
  let public = open_all chosen
  if num == 1
      then some (record chosen { place = chat_to }, [])
      else if num == 2
      then public
      else if num == 3
      then some (quite_user chosen)
      else some (chosen, [])

-- The word that the next `scanf` hands over, at each place. Where `main` does not read, there is none.
pub typed_at : (List ℕ → Option ℕ) → Client → Place → List ℕ → Result
unfolding at_menu at_home read_name reg_user log_user open_chat chat_user offer_file all_user
typed_at files c menu w = at_menu c w
typed_at files c reg_name w = read_name c reg_password w
typed_at files c reg_password w = reg_user c w
typed_at files c log_name w = read_name c log_password w
typed_at files c log_password w = log_user c w
typed_at files c home w = at_home c w
typed_at files c chat_to w = open_chat c w
typed_at files c chat w = chat_user c w
typed_at files c chat_file w = offer_file files c w
typed_at files c all w = all_user c w
typed_at files c waits_login w = some (c, [])
typed_at files c awaits_id w = some (c, [])
typed_at files c gone w = some (c, [])

-- `pthread_cond_wait(&cond_sfile, &mutex)` returns, which POSIX allows at any time: it stands in no loop
-- over a condition, so `send_file` goes on with the id that is there.
wake : Client → Client × List Act
unfolding send_blocks
wake c = elim (c.place) [ awaits_id ↦ send_blocks c | _ ↦ (c, []) ]

-- A message from the server, as `thread_read` takes it. Action 3 sets the id and wakes `send_file`.
pub take_message : Client → Msg → Result
unfolding wake poll
take_message c m =
    let conn : Conn = record { mapped = m.filesize; count = m.count } in
    let numbered = record c { sfile_id = m.sfile_id } in
    if eq_ℤ m.action (pos 1)
    then some (poll (record c { lognum = pos 1 }))
    else if eq_ℤ m.action (negsuc 0)
    then some (poll (record c { lognum = negsuc 0 }))
    else if eq_ℤ m.action (pos 3)
    then some (wake numbered)
    else if eq_ℤ m.action (negsuc 2)
    then (if ltb m.sfile_id 20
        then some (record c { gconn = set c.gconn m.sfile_id conn }, [])
        else none)
    else if eq_ℤ m.action (pos 5)
    then some (c, receives m ∷ [])
    else some (c, [])

pub step : (List ℕ → Option ℕ) → Client → Event → Result
unfolding typed_at take_message wake
step files c (typed w) = elim (c.place) [ gone ↦ some (c, []) | p ↦ typed_at files c p w ]
step files c (comes m) = elim (c.place) [ gone ↦ some (c, []) | _ ↦ take_message c m ]
step files c wakes = some (wake c)

pub run : (List ℕ → Option ℕ) → Client → List Event → Result
run files c [] = some (c, [])
run files c (e ∷ es) = do
  (c', acts) ← step files c e
  (c'', more) ← run files c' es
  some (c'', acts ++ more)
