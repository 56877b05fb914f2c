-- ===== src/Server/Handler/Register.antt =====
-- Registration (case 0 of `thread_read`, a_cat/server/work/work.c).
use linux_cat.Common.{ℕ, ◌≡◌, ◌≢◌, refl, pos, List, [], some, if◌then◌else◌, Bool-cases, inl, inr}
use linux_cat.Memory.{c_text, is_prefix}
use linux_cat.Memory.Laws.{my_strcmp-c_text}
use linux_cat.Message.{Msg}
use linux_cat.Server.Accounts.{
  Row, Sqlite, copy_rows, name_query, person_insert, queryname, insert_person,
}
use linux_cat.Server.State.{Server, done, reply}
use linux_cat.Server.Handler.{handle_register}

module _ (q : Sqlite) (s : Server q.Db) (cfd : ℕ) (junk : List ℕ) (m : Msg) {name password : List ℕ}
    (name_is : c_text m.name ≡ some name) (password_is : c_text m.password ≡ some password) where
  -- Let the message hold a name and a password, and let the buffer of `queryname` hold a text that is
  -- not empty once the callback has seen the rows that the database answers; with no row that is what
  -- lay in the buffer before. If the name begins with that text, the answer has action 255 and no one
  -- is inserted; otherwise the name and the password are inserted by one statement, and nothing is
  -- written.
  pub handle_register_lem :
      (db : q.Db) (rows : List Row) (buf found : List ℕ)
      → q.exec s.db (name_query name) ≡ (db, rows)
      → copy_rows junk rows ≡ some buf
      → c_text buf ≡ some found
      → found ≢ []
      → handle_register q s cfd junk m
        ≡ some (
            if is_prefix found name
            then done (record s { db = db }) (reply cfd (record m { action = pos 255 }))
            else done (record s { db = (q.exec db (person_insert name password)).0 }) [])
  unfolding handle_register queryname insert_person
  handle_register_lem db rows buf found answers copied holds ne =
      rw (name_is, answers, copied, my_strcmp-c_text buf m.name holds name_is ne)
        (elim (Bool-cases (is_prefix found name)) [
          | inl known ↦ rw known refl
          | inr free ↦ rw (free, password_is) refl
        ])
