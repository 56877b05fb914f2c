-- ===== src/Server/Texts.antt =====
-- The texts that cases 6 and 9 of `thread_read` (a_cat/server/work/work.c) put together in files
-- and copy into a message.
use linux_cat.Common.{
  ℕ, List, [], ◌∷◌, ◌++◌, Option, none, some, ◌>>=◌, ltb, if◌then◌else◌, length, drop, replicate,
  codes,
}
use linux_cat.Memory.{c_text, bytes_eq}
use linux_cat.Server.Online.{Online}
use linux_cat.Server.Accounts.{Row, column}

-- The bytes of "用户名:" in UTF-8.
abbrev pub user_label : List ℕ
user_label = 0xe7 ∷ 0x94 ∷ 0xa8 ∷ 0xe6 ∷ 0x88 ∷ 0xb7 ∷ 0xe5 ∷ 0x90 ∷ 0x8d ∷ 0x3a ∷ []

-- Case 6: the file `user.txt`. The loop reads `pNode->next` of an empty list too.
unfoldable pub users_text : List Online → Option (List ℕ)
users_text [] = none
users_text (n ∷ []) = c_text n.name >>= λ name. some (user_label ++ name)
users_text (n ∷ n' ∷ ns) = do
  name ← c_text n.name
  rest ← users_text (n' ∷ ns)
  some (user_label ++ (name ++ (0x0a ∷ rest)))

-- `memcpy(pmsg->message, buf, strlen(buf))`, where `buf` is 1024 zero bytes into which a file has
-- been read: a text of 1024 bytes leaves `buf` with no NUL.
unfoldable pub fill_message : List ℕ → List ℕ → Option (List ℕ)
fill_message message text =
    if ltb (length text) 1024 then some (text ++ drop (length text) message) else none

-- The loop of case 6 clears the message once for each node but the last.
unfoldable pub cleared : List Online → List ℕ → List ℕ
cleared (n ∷ n' ∷ ns) message = replicate 1024 0
cleared _ message = message

-- The bytes of "我，时间:" and "时间:".
abbrev pub my_label : List ℕ
my_label =
    0xe6 ∷ 0x88 ∷ 0x91 ∷ 0xef ∷ 0xbc ∷ 0x8c ∷ 0xe6 ∷ 0x97 ∷ 0xb6 ∷ 0xe9 ∷ 0x97 ∷ 0xb4 ∷ 0x3a ∷ []

abbrev pub time_label : List ℕ
time_label = 0xe6 ∷ 0x97 ∷ 0xb6 ∷ 0xe9 ∷ 0x97 ∷ 0xb4 ∷ 0x3a ∷ []

-- `my_getmessage_callback`: the line it prints for a stored message, and none for a third party's.
unfoldable pub my_getmessage_callback : List ℕ → List ℕ → Row → Option (List ℕ)
my_getmessage_callback name toname row = do
  from ← column row 0
  let mine = do
    text ← column row 2
    time ← column row 3
    some (text ++ (0x3a ∷ (my_label ++ (time ++ (0x0a ∷ [])))))
  let theirs = do
    text ← column row 2
    time ← column row 3
    some (time_label ++ (time ++ (0x2c ∷ (from ++ (0x3a ∷ (text ++ (0x0a ∷ [])))))))
  if bytes_eq name from then mine else if bytes_eq toname from then theirs else some []

unfoldable pub message_lines : List ℕ → List ℕ → List Row → Option (List ℕ)
message_lines name toname [] = some []
message_lines name toname (row ∷ rows) = do
  line ← my_getmessage_callback name toname row
  rest ← message_lines name toname rows
  some (line ++ rest)

pub history_query : List ℕ → List ℕ → List ℕ
history_query name toname =
    codes "select fromname,toname,message,timestamp from storagemessage where (toname = '"
    ++ (toname
        ++ (codes "' and fromname = '"
            ++ (name
                ++ (codes "') or (fromname = '"
                    ++ (toname
                        ++ (codes "' and toname = '"
                            ++ (name ++ codes "') order by timestamp desc limit 8;")))))))
