-- ===== src/Client/Manager/Login.antt =====
-- The manager's login, from the client's `log_manager` to the server's case 7
-- (a_cat/client/work/work.c and a_cat/server/work/work.c).
use linux_cat.Common.{
  ℕ, ◌<◌, ◌≡◌, refl, sym, ◌∙◌, pos, Bool, List, [], ◌∷◌, ◌++◌, some, length, subst, arith,
}
use linux_cat.Memory.{c_text}
use linux_cat.Memory.Laws.{c_text-str_copy, str_copy_fits}
use linux_cat.Message.{Msg, zeroed}
use linux_cat.Server.Online.{Online}
use linux_cat.Server.Online.Laws.{AreNamed}
use linux_cat.Server.Accounts.{Sqlite, query_manager_password}
use linux_cat.Server.Accounts.Passwords.{IsText}
use linux_cat.Server.State.{Server, done, reply, request_of}
use linux_cat.Server.Handler.{handle_login_manager, handle_request}
use linux_cat.Server.Handler.Users.{Joins, handle_login_manager_lem}
use linux_cat.Client.Manager.{log_manager}

-- The message holds the words.
log_manager_lem :
    (w p : List ℕ)
    → IsText w
    → IsText p
    → length w < 20
    → length p < 20
    → (m : Msg) × (log_manager w p ≡ some m)
      × (c_text m.name ≡ some w)
      × (c_text m.password ≡ some p)
      × (m.action ≡ pos 7)
unfolding log_manager
log_manager_lem w p clean clean' short short' =
    let (name, e, _) = str_copy_fits zeroed.name w short in
    let (password, f, _) = str_copy_fits zeroed.password p short' in
    (
      record zeroed { action = pos 7; name = name; password = password },
      rw (e, f) refl,
      c_text-str_copy zeroed.name (w ++ (0 ∷ [])) clean e,
      c_text-str_copy zeroed.password (p ++ (0 ∷ [])) clean' f,
      refl,
    )

request_of-login_manager :
    (q : Sqlite) (s : Server q.Db) (cfd : ℕ) (junk : List ℕ) (m : Msg)
    → m.action ≡ pos 7
    → handle_request q s cfd junk m (request_of m.action) ≡ handle_login_manager q s cfd junk m
unfolding handle_request request_of
request_of-login_manager q s cfd junk m h =
    subst (λ a. handle_request q s cfd junk m (request_of a) ≡ handle_login_manager q s cfd junk m)
      (sym h) refl

-- Let the names in the list of users be texts. When a manager types a name and a password, both texts
-- of fewer than 20 bytes, the client sends one message, and the server takes it for a manager's login.
-- Whatever its check of the password answers, if the check ends, a new session of the name, not banned, is
-- put on top, and the answer has action 1.
pub manager_logs_in :
    (q : Sqlite) (s : Server q.Db) (cfd : ℕ) (junk w p : List ℕ) (m : Msg) (db : q.Db)
    (right : Bool)
    → IsText w
    → IsText p
    → length w < 20
    → length p < 20
    → AreNamed s.head
    → log_manager w p ≡ some m
    → query_manager_password q s.db junk m ≡ some (db, right)
    → (head : List Online) × (out : Msg) × Joins s.head head w cfd
      × (out.action ≡ pos 1)
      × (handle_request q s cfd junk m (request_of m.action)
          ≡ some (done (record s { db = db; head = head }) (reply cfd out)))
manager_logs_in q s cfd junk w p m db right clean clean' short short' named sent checked =
    let (m', sent', name_is, given_is, action) = log_manager_lem w p clean clean' short short' in
    let same : m' ≡ m = ground (arith, sent, sent') in
    let (head, out, joins, one, e) =
      handle_login_manager_lem q s cfd junk m (subst (λ x. c_text x.name ≡ some w) same name_is)
        short (subst (λ x. c_text x.password ≡ some p) same given_is) named db right checked in
    let is_login = subst (λ x. x.action ≡ pos 7) same action in
    (head, out, joins, one, request_of-login_manager q s cfd junk m is_login ∙ e)
