-- ===== src/Client/Screens/Leave.antt =====
-- A user who logs in and leaves, from the client's screens to the server's list of users and back
-- (a_cat/client/main/client.c, a_cat/client/work/work.c and a_cat/server/work/work.c).
use linux_cat.Common.{
  ℕ, ◌<◌, ◌≡◌, ◌≢◌, refl, ap, ◌∙◌, pos, true, List, [], ◌∷◌, Option, some, length, if◌then◌else◌,
  codes, Bool-cases, inl, inr,
}
use linux_cat.Memory.{is_prefix, bytes_eq}
use linux_cat.Memory.Laws.{bytes_eq_iff}
use linux_cat.Message.{Msg}
use linux_cat.Server.Online.{Online}
use linux_cat.Server.Online.Laws.{AreNamed, sessions, rest_of}
use linux_cat.Server.Accounts.{Sqlite, password_query}
use linux_cat.Server.Accounts.Passwords.{IsText}
use linux_cat.Server.State.{Server, done, reply, request_of}
use linux_cat.Server.Handler.{handle_request}
use linux_cat.Server.Handler.Users.{Joins, handle_logout_lem}
use linux_cat.Client.Screens.{
  menu, Client, writes, typed, comes, run, step, typed_at, take_message, poll, to_menu, decimal,
  at_menu, at_home, open_all, quite_user, read_name, log_user, view_user,
}
use linux_cat.Client.Screens.Chatting.{login_message, c_text-in_array, str_copy-in_array}
use linux_cat.Client.Screens.Login.{login_answered}

-- The message that `quite_user` sends.
abbrev pub logout_message : List ℕ → List ℕ → Msg
logout_message name password = record (login_message name password) { action = pos 10 }

-- What the client does.
leaving_session :
    (files : List ℕ → Option ℕ) (c : Client) (name password : List ℕ) (answer : Msg)
    → c.place ≡ menu
    → c.lognum ≡ pos 0
    → length name < 20
    → length password < 20
    → answer.action ≡ pos 1
    → (after : Client) × (run files c
          (typed (codes "1") ∷ typed name ∷ typed password ∷ comes answer ∷ typed (codes "3") ∷ [])
        ≡ some (
          after,
          writes (login_message name password)
              ∷ writes (record (login_message name password) { action = pos 6 })
              ∷ writes (logout_message name password)
              ∷ [],
        ))
      × (after.place ≡ menu)
unfolding run step typed_at take_message poll to_menu decimal at_menu at_home open_all quite_user
    read_name log_user view_user
leaving_session files c name password answer e l n p a =
    let left = logout_message name password in
    (
      record c { place = menu; pmsg = left; lognum = pos 0 },
      rw (e, l)
          (rw (str_copy-in_array 20 name n) (rw (str_copy-in_array 20 password p) (rw a refl))),
      refl,
    )

-- A name's newest session put on top and taken away again
pushed_popped :
    (name : List ℕ) (cfd : ℕ) (before between after : List Online)
    → Joins before between name cfd
    → ((k : List ℕ)
        → sessions k after
          ≡ (if bytes_eq name k then rest_of (sessions name between) else sessions k between))
    → (k : List ℕ) → sessions k after ≡ sessions k before
pushed_popped name cfd before between after (_, joins) pops k =
    elim (Bool-cases (bytes_eq name k)) [
      | inl same ↦
          let top : sessions name between ≡ record { fd = cfd; said = 0 } ∷ sessions name before =
            joins name ∙ rw ((bytes_eq_iff name name).1 refl) refl in
          let k_is = (bytes_eq_iff name k).0 same in
          pops k ∙ rw same (ap rest_of top ∙ ap (λ j. sessions j before) k_is)
      | inr other ↦ pops k ∙ rw other (joins k ∙ rw other refl)
    ]

-- Let the client be at its menu and not logged in, let the names in the list of users be texts, and let the
-- database answer one password for the name, not empty and shorter than the buffer. A user
-- logs in with that name and a password that begins with the stored one, both texts of fewer than 20
-- bytes, and leaves from the home screen: the client is back at its menu, and the server, which takes the
-- two requests one after the other, has the same sessions of each name as before the login.
pub login_leave_roundtrip :
    (q : Sqlite) (s : Server q.Db) (cfd : ℕ) (junk junk' name password stored : List ℕ) (db : q.Db)
    (files : List ℕ → Option ℕ) (c : Client)
    → IsText name
    → IsText password
    → length name < 20
    → length password < 20
    → AreNamed s.head
    → IsText stored
    → stored ≢ []
    → length stored < length junk
    → q.exec s.db (password_query name) ≡ (db, (some stored ∷ []) ∷ [])
    → is_prefix stored password ≡ true
    → c.place ≡ menu
    → c.lognum ≡ pos 0
    → let m = login_message name password in
      let m' = logout_message name password in
      (between after : List Online) × (end : Client) × (handle_request q s cfd junk m
          (request_of m.action)
        ≡ some (done (record s { db = db; head = between }) (reply cfd m)))
      × (handle_request q (record s { db = db; head = between }) cfd junk' m' (request_of m'.action)
          ≡ some (done (record s { db = db; head = after }) []))
      × (run files c
            (typed (codes "1") ∷ typed name ∷ typed password ∷ comes m ∷ typed (codes "3") ∷ [])
          ≡ some (end, writes m ∷ writes (record m { action = pos 6 }) ∷ writes m' ∷ []))
      × (end.place ≡ menu)
      × AreNamed after
      × ((k : List ℕ) → sessions k after ≡ sessions k s.head)
unfolding handle_request request_of
login_leave_roundtrip q s cfd junk junk' name password stored db files c n p short short' named t ne
      fits e right at_menu out =
    let m = login_message name password in
    let m' = logout_message name password in
    let (between, joins, served) =
      login_answered q s cfd junk name password stored db n p short short' named t ne fits e in
    let (after, named', pops, left) =
      handle_logout_lem q (record s { db = db; head = between }) m' (c_text-in_array name n short)
        joins.0 in
    let (end, ran, place) = leaving_session files c name password m at_menu out short short' refl in
    (
      between,
      after,
      end,
      served ∙ rw right refl,
      left,
      ran,
      place,
      named',
      pushed_popped name cfd s.head between after joins pops,
    )
