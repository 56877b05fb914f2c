-- ===== src/Server/Handler/Registered.antt =====
-- A registration, and the login of the new user (cases 0 and 1 of `thread_read`,
-- a_cat/server/work/work.c).
use linux_cat.Common.{ℕ, ◌≤◌, ◌≡◌, ◌≢◌, ◌++◌, codes, List, [], ◌∷◌, some, length}
use linux_cat.Memory.{c_text}
use linux_cat.Message.{Msg}
use linux_cat.Server.Online.{Online}
use linux_cat.Server.Accounts.{Sqlite}
use linux_cat.Server.State.{Server}

-- A message with a name and a password.
pub record Credentials (m : Msg) (name password : List ℕ) : Type 0 where
  pub name_is : c_text m.name ≡ some name
  pub password_is : c_text m.password ≡ some password

-- A text that can stand between single quotes in a statement.
abbrev pub IsQuotable : List ℕ → Type 0
IsQuotable [] = Unit {0}
IsQuotable (b ∷ bs) = (b ≢ b'\'') × IsQuotable bs

abbrev pub AreDigits : List ℕ → Type 0
AreDigits [] = Unit {0}
AreDigits (b ∷ bs) = (b'0' ≤ b) × (b ≤ b'9') × AreDigits bs

-- A number of at most 18 digits as SQLite prints it: it may stand in a statement without quotes, and a
-- column of texts stores it as the text it is. (Another word without quotes makes the statement fail.)
abbrev pub IsNumber : List ℕ → Type 0
IsNumber [] = ⊥
IsNumber (b ∷ bs) = (b ≢ b'0') × AreDigits (b ∷ bs) × (length (b ∷ bs) ≤ 18)

-- What SQLite answers, one statement after the other, around the registration of a new name: no row,
-- then the insertion of the row with this name and this password, then the row that was inserted. The
-- statements are those of SQL, for any name that can be quoted and any number as the password.
pub record NewUser (q : Sqlite) (before asked added known checked : q.Db) (name password : List ℕ)
    : Type 0 where
  pub quotable : IsQuotable name
  pub number : IsNumber password
  pub unknown :
      q.exec before (codes "select name from person where name = '" ++ (name ++ codes "';"))
      ≡ (asked, [])
  pub inserts :
      (q.exec asked (
        codes "insert into person(name,password)values('"
        ++ (name ++ (codes "'," ++ (password ++ codes ");"))))).0
      ≡ added
  pub name_row :
      q.exec added (codes "select name from person where name = '" ++ (name ++ codes "';"))
      ≡ (known, (some name ∷ []) ∷ [])
  pub password_row :
      q.exec known (codes "select password from person where name = '" ++ (name ++ codes "';"))
      ≡ (checked, (some password ∷ []) ∷ [])
