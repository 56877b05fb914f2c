-- ===== src/Server/Accounts/Passwords.antt =====
-- What the checks of names and passwords accept.
use linux_cat.Common.{
  ℕ, ◌<◌, ◌≡◌, ◌≢◌, refl, ◌↔◌, Bool, true, List, [], ◌∷◌, ◌++◌, some, length, ◌>>=◌,
}
use linux_cat.Memory.{c_text, my_strcmp, is_prefix}
use linux_cat.Memory.Laws.{my_strcmp-c_text, c_text-str_copy, str_copy_fits, is_prefix_iff}
use linux_cat.Message.{Msg}
use linux_cat.Server.Accounts.{
  Sqlite, column, my_sqlite_callback, copy_rows, password_query, querypassword,
}

-- A text as SQLite hands it to a callback, in memory of its own.
abbrev pub IsText : List ℕ → Type 0
IsText t = c_text (t ++ (0 ∷ [])) ≡ some t

-- One row with one text that fits the buffer: the buffer then holds that text.
pub copy_rows-one :
    (junk t : List ℕ)
    → IsText t
    → length t < length junk
    → (buf : List ℕ) × (copy_rows junk ((some t ∷ []) ∷ []) ≡ some buf) × (c_text buf ≡ some t)
unfolding copy_rows my_sqlite_callback column
copy_rows-one junk t h k =
    let (buf, e, _) = str_copy_fits junk t k in
    (buf, rw e refl, c_text-str_copy junk (t ++ (0 ∷ [])) h e)

module _ (q : Sqlite) (db db' : q.Db) (junk : List ℕ) (m : Msg) {name given : List ℕ}
    (named : c_text m.name ≡ some name) (typed : c_text m.password ≡ some given) where
  -- When the database answers one password, not empty and shorter than the buffer, `querypassword`
  -- accepts exactly the inputs that begin with it.
  pub querypassword_lem :
      (stored : List ℕ)
      → IsText stored
      → stored ≢ []
      → length stored < length junk
      → q.exec db (password_query name) ≡ (db', (some stored ∷ []) ∷ [])
      → querypassword q db junk m ≡ some (db', is_prefix stored given)
  unfolding querypassword
  querypassword_lem stored t ne fits e =
      let (buf, r, c) = copy_rows-one junk stored t fits in
      rw (named, e, r, my_strcmp-c_text buf m.password c typed ne)

  -- Let the message hold a name and a password. When the database answers one password, not empty and
  -- shorter than the buffer, `querypassword` ends, and answers 1 for exactly the inputs that are that password with any bytes behind it.
  querypassword_accepts :
      (stored : List ℕ)
      → IsText stored
      → stored ≢ []
      → length stored < length junk
      → q.exec db (password_query name) ≡ (db', (some stored ∷ []) ∷ [])
      → (accepts : Bool) × (querypassword q db junk m ≡ some (db', accepts))
        × ((accepts ≡ true) ↔ ((behind : List ℕ) × (given ≡ stored ++ behind)))
  querypassword_accepts stored t ne fits e =
      (is_prefix stored given, querypassword_lem stored t ne fits e, is_prefix_iff stored given)

  -- When it answers no row, the input is compared with what the stack happens to hold.
  querypassword_unknown :
      q.exec db (password_query name) ≡ (db', [])
      → querypassword q db junk m ≡ (my_strcmp junk m.password >>= λ same. some (db', same))
  unfolding querypassword copy_rows
  querypassword_unknown e = rw (named, e)
