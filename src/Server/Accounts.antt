-- ===== src/Server/Accounts.antt =====
-- Accounts and stored messages: the queries of a_cat/server/work/work.c and their callbacks.
-- SQLite is a parameter: a database, and what `sqlite3_exec` does to it and hands to the callback.
pub mod Passwords
pub mod Storage
use linux_cat.Common.{
  ℕ, ◌≡◌, Bool, true, false, List, [], ◌∷◌, ◌++◌, Option, none, some, ◌>>=◌, get_elem?, codes,
  if◌then◌else◌,
}
use linux_cat.Memory.{c_text, my_strcmp, str_copy}
use linux_cat.Message.{Msg}

-- A row of a result: its columns as texts, `none` for NULL.
abbrev pub Row : Type 0
Row = List (Option (List ℕ))

pub record Sqlite : Type 1 where
  pub Db : Type 0
  pub exec : Db → List ℕ → Db × List Row

-- `columvalue[i]`, which the callbacks do not test for NULL.
unfoldable pub column : Row → ℕ → Option (List ℕ)
column row i = get_elem? row i >>= λ value. value

-- `my_sqlite_callback`, which copies the first column into the caller's buffer.
pub my_sqlite_callback : List ℕ → Row → Option (List ℕ)
unfolding column
my_sqlite_callback para row = column row 0 >>= str_copy para

-- `sqlite3_exec` calls it for each row in turn.
unfoldable pub copy_rows : List ℕ → List Row → Option (List ℕ)
copy_rows para [] = some para
copy_rows para (row ∷ rows) = my_sqlite_callback para row >>= λ para'. copy_rows para' rows

unfoldable pub name_query : List ℕ → List ℕ
name_query name = codes "select name from person where name = '" ++ (name ++ codes "';")

unfoldable pub password_query : List ℕ → List ℕ
password_query name = codes "select password from person where name = '" ++ (name ++ codes "';")

pub manager_query : List ℕ → List ℕ
manager_query name = codes "select password from manager where name = '" ++ (name ++ codes "';")

-- The statement of case 0, where the password stands without quotes.
unfoldable pub person_insert : List ℕ → List ℕ → List ℕ
person_insert name password =
    codes "insert into person(name,password)values('"
    ++ (name ++ (codes "'," ++ (password ++ codes ");")))

pub message_insert : List ℕ → List ℕ → List ℕ → List ℕ
message_insert name toname message =
    codes "insert into storagemessage(fromname,toname,message) values('"
    ++ (name ++ (codes "', '" ++ (toname ++ (codes "', '" ++ (message ++ codes "');")))))

abbrev person_table : List ℕ
person_table =
    codes "create table if not exists person(id integer primary key,name text,password text);"

abbrev manager_table : List ℕ
manager_table =
    codes "create table if not exists manager(id integer primary key,name text,password text);"

abbrev message_table : List ℕ
message_table =
    codes
      "create table if not exists storagemessage(fromname text, toname text,message text, timestamp not NULL default(datetime('now','localtime')));"

module _ (q : Sqlite) where
  open q use {Db, exec}

  -- `queryname`. `junk` is what the uninitialised buffer `name` holds.
  unfoldable pub queryname : Db → List ℕ → Msg → Option (Db × Bool)
  queryname db junk m = do
    name ← c_text m.name
    let (db', rows) = exec db (name_query name)
    buf ← copy_rows junk rows
    same ← my_strcmp buf m.name
    some (db', same)

  -- `createlist`, on the database that it opens.
  pub createlist : Db → Db
  createlist db = (exec (exec (exec db person_table).0 manager_table).0 message_table).0

  -- `querypassword`. `junk` is what the uninitialised buffer `password` holds.
  pub querypassword : Db → List ℕ → Msg → Option (Db × Bool)
  querypassword db junk m = do
    name ← c_text m.name
    let (db', rows) = exec db (password_query name)
    buf ← copy_rows junk rows
    same ← my_strcmp buf m.password
    some (db', same)

  -- `query_manager_password`
  unfoldable pub query_manager_password : Db → List ℕ → Msg → Option (Db × Bool)
  query_manager_password db junk m = do
    name ← c_text m.name
    let (db', rows) = exec db (manager_query name)
    buf ← copy_rows junk rows
    same ← my_strcmp buf m.password
    some (db', same)

  -- The end of case 0, behind `queryname`.
  unfoldable pub insert_person : Db → Msg → Option Db
  insert_person db m = do
    name ← c_text m.name
    password ← c_text m.password
    some (exec db (person_insert name password)).0

  pub insert_data_message : Db → Msg → Option Db
  insert_data_message db m = do
    name ← c_text m.name
    toname ← c_text m.toname
    message ← c_text m.message
    some (exec db (message_insert name toname message)).0
