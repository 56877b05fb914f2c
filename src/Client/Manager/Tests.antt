-- ===== src/Client/Manager/Tests.antt =====
-- The manager's dialogs at concrete words, with the server's answers.
use linux_cat.Common.{
  suc, ℕ, ◌≡◌, refl, pos, false, List, [], ◌∷◌, ◌++◌, some, replicate, codes, arith,
}
use linux_cat.Memory.{c_text, str_copy, my_strcmp}
use linux_cat.Server.Online.{Online}
use linux_cat.Server.Online.Laws.{AreNamed}
use linux_cat.Server.Accounts.{Sqlite, query_manager_password, copy_rows}
use linux_cat.Server.Accounts.Passwords.{IsText}
use linux_cat.Server.Handler.Users.{Joins}
use linux_cat.Client.Manager.Login.{manager_logs_in}
use linux_cat.Server.State.{Server, Outcome, done, reply, request_of}
use linux_cat.Server.Handler.{handle_request}
use linux_cat.Server.Handler.FileIds.{table}
use linux_cat.Message.{Msg, zeroed}
use linux_cat.Client.Screens.{writes}
use linux_cat.Client.Manager.{log_manager, Desk, ordering, manager_run}
use linux_cat.Client.Manager.Orders.{IsMarked, orders_reach_server}
use linux_cat.Server.Handler.Safety.{state_of}

abbrev counting : Sqlite
counting = record { Db = ℕ; exec = λ db query. (suc db, []) }

-- Bob is online, and twenty ids are taken.
abbrev server : Server ℕ
server = record {
  head = record { cfd = 5; say = 0; name = codes "bob" ++ replicate 17 0 } ∷ [];
  addr = table 20 80;
  db = 0;
}

ann_clean : IsText (codes "ann")
unfolding c_text
ann_clean = refl

pw_clean : IsText (codes "pw")
unfolding c_text
pw_clean = refl

-- What the manager's client sends for these words.
abbrev manager_words : Msg
manager_words = record zeroed {
  action = pos 7;
  name = codes "ann" ++ replicate 17 0;
  password = codes "pw" ++ replicate 18 0;
}

login_sent : log_manager (codes "ann") (codes "pw") ≡ some manager_words
unfolding log_manager str_copy
login_sent = refl

-- The database knows no manager, and what lies in the buffer is another password.
login_refused : query_manager_password counting 0 (replicate 20 7) manager_words ≡ some (1, false)
unfolding query_manager_password copy_rows c_text my_strcmp
login_refused = refl

bob-AreNamed : AreNamed server.head
unfolding c_text
bob-AreNamed = ((codes "bob", refl), tt)

manager_logs_in_example :
    (head : List Online) × (out : Msg) × Joins server.head head (codes "ann") 9
    × (out.action ≡ pos 1)
    × (handle_request counting server 9
          (replicate 20 7)
          manager_words
          (request_of manager_words.action)
        ≡ some (done (record server { db = 1; head = head }) (reply 9 out)))
manager_logs_in_example =
    manager_logs_in counting server 9 (replicate 20 7) (codes "ann") (codes "pw") manager_words 1
      false ann_clean pw_clean (omega arith) (omega arith) bob-AreNamed login_sent login_refused

-- A manager at the order prompt.
abbrev desk : Desk
desk = record { order = ordering; pmsg = record zeroed { name = codes "boss" ++ replicate 16 0 } }

bob_clean : IsText (codes "bob")
unfolding c_text
bob_clean = refl

orders_reach_server_example :
    (m : Msg) × (o : Outcome ℕ) × (manager_run desk (codes "capable" ∷ codes "bob" ∷ [])
      ≡ some (record { order = ordering; pmsg = m }, writes m ∷ []))
    × (handle_request counting server 9 [] m (request_of m.action) ≡ some o)
    × IsMarked (codes "boss") 0 server.head (state_of o).head
unfolding c_text
orders_reach_server_example =
    orders_reach_server counting server 9 [] desk false (codes "boss") (codes "bob")
      ((codes "bob", refl), tt) refl refl bob_clean (omega arith)
