-- ===== src/Server/Handler.antt =====
-- `thread_read` of a_cat/server/work/work.c: one function for each case of its switch. A call
-- handles one message from start to end; the searches of cases 5 and -5 for a partner go on in
-- Server/Rendezvous.antt. `none` is undefined behaviour. Files open without error, and `recv`
-- delivers whole messages.
pub mod Chat
pub mod Users
pub mod Safety
pub mod FileIds
pub mod SayLoop
pub mod Register
pub mod Registered
pub mod Listing
pub mod Directory
mod Tests
use linux_cat.Common.{
  ℕ, ℤ, pos, negsuc, Bool, true, false, List, [], ◌∷◌, ◌++◌, Option, none, some, ◌>>=◌,
  if◌then◌else◌,
}
use linux_cat.Memory.{c_text}
use linux_cat.Message.{Msg, zeroed}
use linux_cat.Server.Online.{Online, insert_link, find_fd, get_online, set_say, to_all, remove_user}
use linux_cat.Server.Accounts.{
  Sqlite, queryname, querypassword, query_manager_password, insert_person, insert_data_message,
}
use linux_cat.Server.Texts.{users_text, fill_message, cleared, message_lines, history_query}
use linux_cat.Server.State.{
  Server, Outcome, done, seeks, offers, hangs, ended, Received, closed, failed, got, Request,
  register, login, say_to, file_to, say_all, file_data, file_socket, list_users, login_manager,
  mute, unmute, history, logout, other, request_of, reply, new_node, take_id, say_to_all,
}

module _ (q : Sqlite) where
  open q use {Db, exec}

  abbrev State : Type 0
  State = Server Db

  -- Case 0. `junk` is what the stack holds in the uninitialised buffers of the queries.
  pub handle_register : State → ℕ → List ℕ → Msg → Option (Outcome Db)
  handle_register s cfd junk m = do
    (db, known) ← queryname q s.db junk m
    if known
        then some (done (record s { db = db }) (reply cfd (record m { action = pos 255 })))
        else (insert_person q db m >>= λ db'. some (done (record s { db = db' }) []))

  -- Case 1
  pub handle_login : State → ℕ → List ℕ → Msg → Option (Outcome Db)
  handle_login s cfd junk m = do
    (db, right) ← querypassword q s.db junk m
    if right
        then (new_node cfd m >>= λ node.
            some (done (record s { db = db; head = insert_link node s.head }) (reply cfd m)))
        else some (done (record s { db = db }) (reply cfd (record m { action = negsuc 0 })))

  -- Case 2
  pub handle_say_to : State → ℕ → Msg → Option (Outcome Db)
  handle_say_to s cfd m = do
    db ← insert_data_message q s.db m
    to_fd ← find_fd s.head m.toname
    some (elim to_fd [
      | none ↦ done (record s { db = db }) (reply cfd (record m { action = negsuc 1 }))
      | some fd ↦ done (record s { db = db }) (reply fd m)
    ])

  -- Case 3
  pub handle_file_to : State → ℕ → Msg → Option (Outcome Db)
  handle_file_to s cfd m = do
    to_fd ← find_fd s.head m.toname
    elim to_fd [
      | none ↦ some (done s (reply cfd (record m { action = negsuc 1 })))
      | some fd ↦ do
        (i, addr) ← take_id s.addr
        let given = record m { sfile_id = i }
        some (
            done (record s { addr = addr })
              (reply cfd given ++ reply fd (record given { action = negsuc 2 })))
    ]

  -- Case 4
  pub handle_say_all : State → ℕ → Msg → Option (Outcome Db)
  handle_say_all s cfd m = do
    db ← insert_data_message q s.db m
    said ← say_to_all s.head cfd m
    some (elim said [
      | none ↦ hangs (record s { db = db })
      | some ws ↦ done (record s { db = db }) ws
    ])

  -- Case 5, up to the search for the receiver's socket
  pub handle_file_data : State → ℕ → Msg → Option (Outcome Db)
  handle_file_data s cfd m = do
    to_fd ← find_fd s.head m.toname
    some (elim to_fd [
      | none ↦ done s (reply cfd (record m { action = negsuc 1 }))
      | some fd ↦ seeks s (reply fd m)
    ])

  -- Case 6
  pub handle_list_users : State → Msg → Option (Outcome Db)
  handle_list_users s m = do
    text ← users_text s.head
    message ← fill_message (cleared s.head m.message) text
    some (done s (to_all s.head (record m { message = message })))

  -- Case 7. The test of the password is not followed by a `break`.
  pub handle_login_manager : State → ℕ → List ℕ → Msg → Option (Outcome Db)
  handle_login_manager s cfd junk m = do
    (db, right) ← query_manager_password q s.db junk m
    let checked = if right then m else record m { action = negsuc 0 }
    node ← new_node cfd checked
    some (
        done (record s { db = db; head = insert_link node s.head })
          (reply cfd (record checked { action = pos 1 })))

  -- Cases 8 and -8: `key` is `toname` for the first and `name` for the second.
  pub handle_mark : State → ℕ → Msg → List ℕ → ℕ → Option (Outcome Db)
  handle_mark s cfd m key say = do
    found ← get_online s.head key
    some (elim found [
      | none ↦ done s (reply cfd (record m { action = negsuc 1 }))
      | some i ↦ done (record s { head = set_say s.head i say }) (reply cfd m)
    ])

  -- Case 9
  unfoldable pub handle_history : State → ℕ → Msg → Option (Outcome Db)
  handle_history s cfd m = do
    name ← c_text m.name
    toname ← c_text m.toname
    let (db, rows) = exec s.db (history_query name toname)
    text ← message_lines name toname rows
    message ← fill_message m.message text
    some (done (record s { db = db }) (reply cfd (record m { message = message })))

  -- Case 10
  pub handle_logout : State → Msg → Option (Outcome Db)
  handle_logout s m = do head ← remove_user s.head m.name; some (done (record s { head = head }) [])

  unfoldable pub handle_request : State → ℕ → List ℕ → Msg → Request → Option (Outcome Db)
  handle_request s cfd junk m register = handle_register s cfd junk m
  handle_request s cfd junk m login = handle_login s cfd junk m
  handle_request s cfd junk m say_to = handle_say_to s cfd m
  handle_request s cfd junk m file_to = handle_file_to s cfd m
  handle_request s cfd junk m say_all = handle_say_all s cfd m
  handle_request s cfd junk m file_data = handle_file_data s cfd m
  handle_request s cfd junk m file_socket = some (offers s)
  handle_request s cfd junk m list_users = handle_list_users s m
  handle_request s cfd junk m login_manager = handle_login_manager s cfd junk m
  handle_request s cfd junk m mute = handle_mark s cfd m m.toname 1
  handle_request s cfd junk m unmute = handle_mark s cfd m m.name 0
  handle_request s cfd junk m history = handle_history s cfd m
  handle_request s cfd junk m logout = handle_logout s m
  handle_request s cfd junk m other = some (done s [])

  -- One round of the loop of `thread_read`: a failed `recv` leaves the zeroed message in place.
  pub serve : State → ℕ → List ℕ → Received → Option (Outcome Db)
  unfolding handle_request request_of
  serve s cfd junk closed = some (ended s)
  serve s cfd junk failed = handle_request s cfd junk zeroed (request_of zeroed.action)
  serve s cfd junk (got m) = handle_request s cfd junk m (request_of m.action)
