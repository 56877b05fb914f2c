-- ===== src/Server/Handler/Directory.antt =====
-- What `thread_read` of a_cat/server/work/work.c promises of the users online: a directory, which has
-- for each name the stack of its sessions. It has no order between the names, so the two requests
-- whose answers follow the order of the list, cases 4 and 6, are not requests to it.
pub mod Refines
pub mod Runs
pub mod Defined
mod Tests
use linux_cat.Common.{
  ℕ, pos, negsuc, Bool, true, false, List, [], ◌∷◌, ◌++◌, Option, none, some, ◌>>=◌, if◌then◌else◌,
}
use linux_cat.Memory.{bytes_eq}
use linux_cat.Message.{Msg}
use linux_cat.Server.Online.{Write}
use linux_cat.Server.Online.Laws.{Session, sessions, top_fd, rest_of, mark_top}
use linux_cat.Server.Accounts.{
  Sqlite, queryname, querypassword, query_manager_password, insert_person, message_insert,
}
use linux_cat.Server.Texts.{message_lines, fill_message, history_query}
use linux_cat.Server.State.{
  Server, Outcome, done, seeks, offers, hangs, ended, Request, register, login, say_to, file_to,
  say_all, file_data, file_socket, list_users, login_manager, mute, unmute, history, logout, other,
  reply, take_id,
}

pub record Directory (Db : Type 0) : Type 0 where
  pub stacks : List ℕ → List Session
  pub taken : List ℕ
  pub base : Db

-- How a request leaves its thread.
pub data Way : Type 0 where
  finished seeking offering hanging over : Way

pub record Effect (Db : Type 0) : Type 0 where
  pub after : Directory Db
  pub writes : List Write
  pub way : Way

abbrev pub view : {Db : Type 0} → Server Db → Directory Db
view s = record { stacks = λ k. sessions k s.head; taken = s.addr; base = s.db }

abbrev pub view_outcome : {Db : Type 0} → Outcome Db → Effect Db
view_outcome (done s ws) = record { after = view s; writes = ws; way = finished }
view_outcome (seeks s ws) = record { after = view s; writes = ws; way = seeking }
view_outcome (offers s) = record { after = view s; writes = []; way = offering }
view_outcome (hangs s) = record { after = view s; writes = []; way = hanging }
view_outcome (ended s) = record { after = view s; writes = []; way = over }

abbrev pub push : List ℕ → Session → (List ℕ → List Session) → List ℕ → List Session
push name x stacks k = if bytes_eq name k then x ∷ stacks k else stacks k

abbrev pub pop : List ℕ → (List ℕ → List Session) → List ℕ → List Session
pop name stacks k = if bytes_eq name k then rest_of (stacks name) else stacks k

abbrev pub mark : List ℕ → ℕ → (List ℕ → List Session) → List ℕ → List Session
mark name v stacks k = if bytes_eq name k then mark_top v (stacks name) else stacks k

abbrev pub answers : {Db : Type 0} → Directory Db → List Write → Effect Db
answers d ws = record { after = d; writes = ws; way = finished }

abbrev pub refuse : ℕ → Msg → List Write
refuse cfd m = reply cfd (record m { action = negsuc 1 })

-- Case 3, with the newest session of the receiver.
abbrev pub start_file : {Db : Type 0} → Directory Db → ℕ → Msg → Option ℕ → Option (Effect Db)
start_file d cfd m none = some (answers d (refuse cfd m))
start_file d cfd m (some fd) = take_id d.taken >>= λ r. some (
    answers (record d { taken = r.1 })
      (reply cfd (record m { sfile_id = r.0 })
        ++ reply fd (record m { sfile_id = r.0; action = negsuc 2 })))

-- Case 5
abbrev pub start_block : {Db : Type 0} → Directory Db → ℕ → Msg → Option ℕ → Effect Db
start_block d cfd m none = answers d (refuse cfd m)
start_block d cfd m (some fd) = record { after = d; writes = reply fd m; way = seeking }

-- Cases 8 and -8, with the sessions of the name.
abbrev pub start_mark :
    {Db : Type 0} → Directory Db → ℕ → Msg → List ℕ → ℕ → List Session → Effect Db
start_mark d cfd m name v [] = answers d (refuse cfd m)
start_mark d cfd m name v (x ∷ xs) =
    answers (record d { stacks = mark name v d.stacks }) (reply cfd m)

-- The requests that a directory answers.
abbrev pub is_local : Request → Bool
is_local say_all = false
is_local list_users = false
is_local _ = true

-- What the texts of a message say.
pub record Words : Type 0 where
  pub name : List ℕ
  pub toname : List ℕ
  pub text : List ℕ

module _ (q : Sqlite) (d : Directory q.Db) (cfd : ℕ) (junk : List ℕ) (m : Msg) (w : Words) where
  abbrev pub answer : Request → Option (Effect q.Db)
  answer register = queryname q d.base junk m >>= λ r.
      if r.1
      then some (answers (record d { base = r.0 }) (reply cfd (record m { action = pos 255 })))
      else (insert_person q r.0 m >>= λ db. some (answers (record d { base = db }) []))
  answer login = querypassword q d.base junk m >>= λ r. some (
      if r.1
      then answers
          (record d { base = r.0; stacks = push w.name (record { fd = cfd; said = 0 }) d.stacks })
          (reply cfd m)
      else answers (record d { base = r.0 }) (reply cfd (record m { action = negsuc 0 })))
  answer login_manager = query_manager_password q d.base junk m >>= λ r. some (
      answers
        (record d { base = r.0; stacks = push w.name (record { fd = cfd; said = 0 }) d.stacks })
        (reply cfd (record m { action = pos 1 })))
  answer say_to = some (
      answers (record d { base = (q.exec d.base (message_insert w.name w.toname w.text)).0 })
        (elim (top_fd (d.stacks w.toname)) [ none ↦ refuse cfd m | some fd ↦ reply fd m ]))
  answer file_to = start_file d cfd m (top_fd (d.stacks w.toname))
  answer file_data = some (start_block d cfd m (top_fd (d.stacks w.toname)))
  answer file_socket = some (record { after = d; writes = []; way = offering })
  answer mute = some (start_mark d cfd m w.toname 1 (d.stacks w.toname))
  answer unmute = some (start_mark d cfd m w.name 0 (d.stacks w.name))
  answer history =
      let r = q.exec d.base (history_query w.name w.toname) in
      message_lines w.name w.toname r.1 >>= λ text. fill_message m.message text >>= λ message.
      some (answers (record d { base = r.0 }) (reply cfd (record m { message = message })))
  answer logout = some (answers (record d { stacks = pop w.name d.stacks }) [])
  answer other = some (answers d [])
  answer say_all = none
  answer list_users = none
