-- ===== src/Server/Handler/Users.antt =====
-- Logging in and out, the manager's login, and what a closed connection leaves (cases 0, 1, 7, 10).
use linux_cat.Common.{
  ℕ, ◌<◌, ◌≡◌, ◌≢◌, refl, pos, negsuc, Bool, true, false, List, [], ◌∷◌, some, if◌then◌else◌,
  length, replicate, arith,
}
use linux_cat.Memory.{c_text, bytes_eq, is_prefix}
use linux_cat.Memory.Laws.{c_text-str_copy, str_copy_fits}
use linux_cat.Message.{Msg}
use linux_cat.Server.Online.{Online, insert_link}
use linux_cat.Server.Online.Laws.{
  AreNamed, sessions, top_fd, rest_of, remove_user_lem, sessions-insert_link,
}
use linux_cat.Server.Accounts.{Sqlite, message_insert, password_query, query_manager_password}
use linux_cat.Server.Accounts.Passwords.{IsText, querypassword_lem}
use linux_cat.Server.State.{Server, done, ended, closed, reply, new_node}
use linux_cat.Server.Handler.{
  handle_login, handle_login_manager, handle_logout, handle_say_to, serve,
}
use linux_cat.Server.Handler.Chat.{handle_say_to_lem}

-- A terminated name of fewer than 20 bytes makes a node with that name.
pub new_node_lem :
    (cfd : ℕ) (m : Msg) {name : List ℕ}
    → c_text m.name ≡ some name
    → length name < 20
    → (n : Online) × (new_node cfd m ≡ some n)
      × (n.cfd ≡ cfd)
      × (n.say ≡ 0)
      × (c_text n.name ≡ some name)
unfolding new_node
new_node_lem cfd m {name} e short =
    let (copy, r, _) = str_copy_fits (replicate 20 0) name short in
    (
      record { cfd = cfd; say = 0; name = copy },
      rw (e, r),
      refl,
      refl,
      c_text-str_copy (replicate 20 0) m.name e r,
    )

-- What a new session of a name does to the directory.
abbrev pub Joins : List Online → List Online → List ℕ → ℕ → Type 0
Joins before after name cfd =
    AreNamed after
    × ((k : List ℕ)
        → sessions k after ≡ (
            if bytes_eq name k
            then record { fd = cfd; said = 0 } ∷ sessions k before
            else sessions k before))

pub Joins-insert_link :
    (n : Online) (ns : List Online) (cfd : ℕ) {name : List ℕ}
    → n.cfd ≡ cfd
    → n.say ≡ 0
    → c_text n.name ≡ some name
    → AreNamed ns
    → Joins ns (insert_link n ns) name cfd
Joins-insert_link n ns cfd fd say e named =
    (unfold insert_link in ((_, e), named), λ k. ground (arith, sessions-insert_link k n ns e))

module _ (q : Sqlite) (s : Server q.Db) (cfd : ℕ) (junk : List ℕ) (m : Msg) {name given : List ℕ}
    (name_is : c_text m.name ≡ some name) (short : length name < 20)
    (given_is : c_text m.password ≡ some given) (named : AreNamed s.head) where
  -- Let the names in the list of users be texts, and the message hold a name of fewer than 20 bytes
  -- and a password. When the database answers one password, not empty and shorter than the buffer, a
  -- login whose password begins with it puts a new session of the name, not banned, on top, and is echoed; any
  -- other is answered with action -1 and leaves the users as they were.
  pub handle_login_lem :
      (db : q.Db) (stored : List ℕ)
      → IsText stored
      → stored ≢ []
      → length stored < length junk
      → q.exec s.db (password_query name) ≡ (db, (some stored ∷ []) ∷ [])
      → (head : List Online) × Joins s.head head name cfd
        × (handle_login q s cfd junk m
            ≡ some (
                if is_prefix stored given
                then done (record s { db = db; head = head }) (reply cfd m)
                else done (record s { db = db }) (reply cfd (record m { action = negsuc 0 }))))
  unfolding handle_login
  handle_login_lem db stored t ne fits e =
      let (n, made, fd, say, n_is) = new_node_lem cfd m name_is short in
      (
        insert_link n s.head,
        Joins-insert_link n s.head cfd fd say n_is named,
        rw (querypassword_lem q s.db db junk m name_is given_is stored t ne fits e, made)
            (ground arith),
      )

  -- Let the names in the list of users be texts, and the message hold a name of fewer than 20 bytes
  -- and a password. Whatever the check of the password answers, a manager's login whose check ends puts
  -- a new session of the name, not banned, on top, and is answered with action 1.
  pub handle_login_manager_lem :
      (db : q.Db) (right : Bool)
      → query_manager_password q s.db junk m ≡ some (db, right)
      → (head : List Online) × (out : Msg) × Joins s.head head name cfd
        × (out.action ≡ pos 1)
        × (handle_login_manager q s cfd junk m
            ≡ some (done (record s { db = db; head = head }) (reply cfd out)))
  unfolding handle_login_manager
  handle_login_manager_lem db true e =
      let (n, made, fd, say, n_is) = new_node_lem cfd m name_is short in
      (
        insert_link n s.head,
        record m { action = pos 1 },
        Joins-insert_link n s.head cfd fd say n_is named,
        refl,
        rw (e, made),
      )
  handle_login_manager_lem db false e =
      let (n, made, fd, say, n_is) =
        new_node_lem cfd (record m { action = negsuc 0 }) name_is short in
      (
        insert_link n s.head,
        record m { action = pos 1 },
        Joins-insert_link n s.head cfd fd say n_is named,
        refl,
        rw (e, made),
      )

module _ (q : Sqlite) (s : Server q.Db) (m : Msg) {name : List ℕ}
    (name_is : c_text m.name ≡ some name) (named : AreNamed s.head) where
  -- Let the names in the list of users and the name of the message be texts. Logging out takes away
  -- the newest session of the name and no other, and writes nothing.
  pub handle_logout_lem :
      (head : List Online) × AreNamed head
      × ((k : List ℕ)
          → sessions k head
            ≡ (if bytes_eq name k then rest_of (sessions name s.head) else sessions k s.head))
      × (handle_logout q s m ≡ some (done (record s { head = head }) []))
  unfolding handle_logout
  handle_logout_lem =
      let (head, r, a, each) = remove_user_lem s.head m.name named name_is in (head, a, each, rw r)

module _ (q : Sqlite) (s : Server q.Db) (cfd : ℕ) (junk : List ℕ) (m : Msg) {name to text : List ℕ}
    (name_is : c_text m.name ≡ some name) (to_is : c_text m.toname ≡ some to)
    (text_is : c_text m.message ≡ some text) (named : AreNamed s.head) where
  -- Let the names in the list of users and the texts of the message be terminated. When the connection
  -- of the newest session of `toname` closes, the user stays in the list: a private
  -- message to that name is still written to the closed socket, and no answer -2 is given.
  pub closed_stays_online :
      (fd : ℕ) (out : Server q.Db)
      → top_fd (sessions to s.head) ≡ some fd
      → serve q s fd junk closed ≡ some (ended out)
      → handle_say_to q out cfd m
        ≡ some (done (record s { db = (q.exec s.db (message_insert name to text)).0 }) (reply fd m))
  unfolding serve
  closed_stays_online fd out top h =
      let same : s ≡ out = ground (arith, h) in
      rw (← same, handle_say_to_lem q s cfd m name_is to_is text_is named, top)
