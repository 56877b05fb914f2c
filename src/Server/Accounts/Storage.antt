-- ===== src/Server/Accounts/Storage.antt =====
-- The queries that store messages and accounts.
use linux_cat.Common.{◌≡◌, List, ℕ, some}
use linux_cat.Memory.{c_text}
use linux_cat.Message.{Msg}
use linux_cat.Server.Accounts.{Sqlite, insert_data_message, message_insert}

-- On terminated texts the insertion is one call of the database.
pub insert_data_message_lem :
    (q : Sqlite) (db : q.Db) (m : Msg) {name to text : List ℕ}
    → c_text m.name ≡ some name
    → c_text m.toname ≡ some to
    → c_text m.message ≡ some text
    → insert_data_message q db m ≡ some (q.exec db (message_insert name to text)).0
unfolding insert_data_message
insert_data_message_lem q db m a b c = rw (a, b, c)
