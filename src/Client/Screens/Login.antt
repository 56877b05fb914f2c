-- ===== src/Client/Screens/Login.antt =====
-- A user's login, from the words typed at the client's menu to the server's case 1 and back
-- (a_cat/client/main/client.c, a_cat/client/work/work.c and a_cat/server/work/work.c).
use linux_cat.Common.{
  ℕ, ◌<◌, ◌≡◌, ◌≢◌, refl, ◌∙◌, pos, negsuc, true, false, List, [], ◌∷◌, Option, some, length,
  if◌then◌else◌, codes, Bool-cases, inl, inr,
}
use linux_cat.Memory.{is_prefix}
use linux_cat.Message.{Msg}
use linux_cat.Server.Online.{Online}
use linux_cat.Server.Online.Laws.{AreNamed}
use linux_cat.Server.Accounts.{Sqlite, password_query}
use linux_cat.Server.Accounts.Passwords.{IsText}
use linux_cat.Server.State.{Server, done, reply, request_of}
use linux_cat.Server.Handler.{handle_request}
use linux_cat.Server.Handler.Users.{Joins, handle_login_lem}
use linux_cat.Client.Screens.{menu, home, Client, writes, typed, comes, run}
use linux_cat.Client.Screens.Chatting.{login_message, login_session, c_text-in_array}

-- The server's part, on the message that the client sends.
pub login_answered :
    (q : Sqlite) (s : Server q.Db) (cfd : ℕ) (junk name password stored : List ℕ) (db : q.Db)
    → IsText name
    → IsText password
    → length name < 20
    → length password < 20
    → AreNamed s.head
    → IsText stored
    → stored ≢ []
    → length stored < length junk
    → q.exec s.db (password_query name) ≡ (db, (some stored ∷ []) ∷ [])
    → let m = login_message name password in
      (head : List Online) × Joins s.head head name cfd
      × (handle_request q s cfd junk m (request_of m.action)
          ≡ some (
              if is_prefix stored password
              then done (record s { db = db; head = head }) (reply cfd m)
              else done (record s { db = db }) (reply cfd (record m { action = negsuc 0 }))))
unfolding handle_request request_of
login_answered q s cfd junk name password stored db n p short short' named t ne fits e =
    handle_login_lem q s cfd junk (login_message name password) (c_text-in_array name n short) short
      (c_text-in_array password p short') named db stored t ne fits e

-- Let the client be at its menu and not logged in, let the names in the list of users be texts, and let the
-- database answer one password for the name, not empty and shorter than the buffer. The user
-- types "1", a name and a password, both texts of fewer than 20 bytes. If the password begins with
-- the stored one, the server puts a new session of the name, not banned, on top, and its answer brings
-- the client to the home screen, where it asks for the users online; otherwise the server leaves the
-- users as they were, and its answer brings the client back to the menu.
pub login_reaches_home :
    (q : Sqlite) (s : Server q.Db) (cfd : ℕ) (junk name password stored : List ℕ) (db : q.Db)
    (files : List ℕ → Option ℕ) (c : Client)
    → IsText name
    → IsText password
    → length name < 20
    → length password < 20
    → AreNamed s.head
    → IsText stored
    → stored ≢ []
    → length stored < length junk
    → q.exec s.db (password_query name) ≡ (db, (some stored ∷ []) ∷ [])
    → c.place ≡ menu
    → c.lognum ≡ pos 0
    → let m = login_message name password in
      let right = is_prefix stored password in
      (head : List Online) × (answer : Msg) × (after : Client) × Joins s.head head name cfd
      × (handle_request q s cfd junk m (request_of m.action)
          ≡ some (
              done
                (record s { db = db; head = if right then head else s.head })
                (reply cfd answer)))
      × (run files c (typed (codes "1") ∷ typed name ∷ typed password ∷ comes answer ∷ [])
          ≡ some
              (after, writes m ∷ (if right then writes (record m { action = pos 6 }) ∷ [] else [])))
      × (after.place ≡ (if right then home else menu))
login_reaches_home q s cfd junk name password stored db files c n p short short' named t ne fits e
      at_menu out =
    let m = login_message name password in
    let (head, joins, served) =
      login_answered q s cfd junk name password stored db n p short short' named t ne fits e in
    elim (Bool-cases (is_prefix stored password)) [
      | inl right ↦
          let (after, ran, place) =
            login_session files c name password m true at_menu out short short' refl in
          (head, m, after, joins, served ∙ rw right refl, rw right ran, rw right place)
      | inr wrong ↦
          let refused = record m { action = negsuc 0 } in
          let (after, ran, place) =
            login_session files c name password refused false at_menu out short short' refl in
          (head, refused, after, joins, served ∙ rw wrong refl, rw wrong ran, rw wrong place)
    ]
