-- ===== src/Client/Manager.antt =====
-- The manager's dialogs, `log_manager` and `all_manager` of a_cat/client/work/work.c, which `main` does
-- not call. Each word is the next that a `scanf` hands over; `none` is a write past an array.
pub mod Login
pub mod Orders
mod Tests
use linux_cat.Common.{
  ℕ, ◌<◌, ◌≡◌, refl, pos, negsuc, Bool, true, false, List, [], ◌∷◌, ◌++◌, Option, some, ◌>>=◌,
  if◌then◌else◌, replicate, codes, length, arith,
}
use linux_cat.Memory.{str_copy, bytes_eq}
use linux_cat.Message.{Msg, zeroed}
use linux_cat.Client.Screens.{Act, writes}
use linux_cat.Client.Screens.Chatting.{in_array, str_copy-in_array}

-- `log_manager`: the message that it writes.
unfoldable pub log_manager : List ℕ → List ℕ → Option Msg
log_manager given_name given_password = do
  name ← str_copy zeroed.name given_name
  password ← str_copy zeroed.password given_password
  some (record zeroed { action = pos 7; name = name; password = password })

-- Where the dialog waits: for an order, or for the name of the user to ban or to free.
pub data Order : Type 0 where
  ordering banning freeing left : Order

pub record Desk : Type 0 where
  pub order : Order
  pub pmsg : Msg

-- `memset(pmsg->toname, …)` and the name read into it, which is sent.
name_user : Desk → List ℕ → Option (Desk × List Act)
name_user d w = do
  toname ← str_copy (replicate 20 0) w
  let m = record d.pmsg { toname = toname }
  some (record { order = ordering; pmsg = m }, writes m ∷ [])

pub manager_typed : Desk → Order → List ℕ → Option (Desk × List Act)
unfolding name_user
manager_typed d ordering w = do
  message ← str_copy (replicate 1024 0) w
  toname ← str_copy (replicate 20 0) (codes "all")
  let m = record d.pmsg { message = message }
  let public = record m { toname = toname; action = pos 4 }
  some (
      if bytes_eq w (codes "unable")
      then (record { order = banning; pmsg = record m { action = pos 8 } }, [])
      else if bytes_eq w (codes "capable")
      then (record { order = freeing; pmsg = record m { action = negsuc 7 } }, [])
      else if bytes_eq w (codes "kick")
      then (record { order = ordering; pmsg = record m { action = pos 10 } }, [])
      else if bytes_eq w (codes "quite")
      then (record { order = left; pmsg = m }, [])
      else (record { order = ordering; pmsg = public }, writes public ∷ []))
manager_typed d banning w = name_user d w
manager_typed d freeing w = name_user d w
manager_typed d left w = some (d, [])

pub manager_run : Desk → List (List ℕ) → Option (Desk × List Act)
manager_run d [] = some (d, [])
manager_run d (w ∷ ws) = do
  (d', acts) ← manager_typed d d.order w
  (d'', more) ← manager_run d' ws
  some (d'', acts ++ more)

-- From the order prompt: "unable" or "capable" and a name of fewer than 20 bytes. Just one message
-- goes to the server, with action 8 or -8 and that name as `toname`, and the prompt is back.
pub bans_and_frees :
    (d : Desk) (ban : Bool) (name : List ℕ)
    → d.order ≡ ordering
    → length name < 20
    → let order = if ban then codes "unable" else codes "capable" in
      let m = record d.pmsg {
        message = in_array 1024 order;
        action = if ban then pos 8 else negsuc 7;
        toname = in_array 20 name;
      } in
      manager_run d (order ∷ name ∷ [])
      ≡ some (record { order = ordering; pmsg = m }, writes m ∷ [])
unfolding manager_run manager_typed name_user bytes_eq
bans_and_frees d true name e h = rw e (
    rw
      (
        str_copy-in_array 1024 (codes "unable") (omega arith),
        str_copy-in_array 20 (codes "all") (omega arith),
      )
      (rw (str_copy-in_array 20 name h) refl))
bans_and_frees d false name e h = rw e (
    rw
      (
        str_copy-in_array 1024 (codes "capable") (omega arith),
        str_copy-in_array 20 (codes "all") (omega arith),
      )
      (rw (str_copy-in_array 20 name h) refl))
