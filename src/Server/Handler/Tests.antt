-- ===== src/Server/Handler/Tests.antt =====
-- The theorems on the server's handlers at concrete servers, over a database that counts the
-- statements that it is given and answers each with the same rows.
use linux_cat.Common.{
  ℕ, suc, ◌-◌, ◌≡◌, refl, pos, negsuc, List, [], ◌∷◌, ◌++◌, none, some, if◌then◌else◌, length,
  replicate, ltb, ◌==◌, arith, codes,
}
use linux_cat.Memory.{c_text, str_eq, bytes_eq, is_prefix}
use linux_cat.Message.{Msg, zeroed}
use linux_cat.Server.Online.{Online, remove_user}
use linux_cat.Server.Online.Laws.{AreNamed, sessions, top_fd}
use linux_cat.Server.Accounts.{Row, Sqlite}
use linux_cat.Server.Accounts.Passwords.{IsText}
use linux_cat.Server.State.{Server, done, hangs, ended, closed, got, reply}
use linux_cat.Server.Handler.{
  handle_say_to, handle_say_all, handle_file_to, handle_logout, handle_request, serve,
}
use linux_cat.Server.Handler.Chat.{handle_say_all_lem}
use linux_cat.Server.Handler.Users.{closed_stays_online}
use linux_cat.Server.Handler.FileIds.{table, file_ids_run_out}

abbrev answering : List Row → Sqlite
answering rows = record { Db = ℕ; exec = λ db query. (suc db, rows) }

-- A text in an array of 20 bytes.
abbrev array : List ℕ → List ℕ
array t = t ++ replicate (20 - length t) 0

abbrev ann : List ℕ
ann = codes "ann"

abbrev bob : List ℕ
bob = codes "bob"

abbrev secret : List ℕ
secret = codes "pw"

abbrev junk : List ℕ
junk = replicate 20 7

-- A message from Ann to Bob.
abbrev letter : Msg
letter = record zeroed { name = array ann; toname = array bob; password = array (codes "pwx") }

abbrev one_row : Sqlite
one_row = answering ((some secret ∷ []) ∷ [])

abbrev no_row : Sqlite
no_row = answering []

-- Bob is on top, Ann below.
abbrev users : List Online
users =
    record { cfd = 5; say = 0; name = array bob }
    ∷ record { cfd = 4; say = 1; name = array ann }
    ∷ []

abbrev server : Server ℕ
server = record { head = users; addr = table 3 97; db = 0 }

users-AreNamed : AreNamed users
unfolding c_text
users-AreNamed = ((bob, refl), ((ann, refl), tt))

name_is : c_text letter.name ≡ some ann
unfolding c_text
name_is = refl

to_is : c_text letter.toname ≡ some bob
unfolding c_text
to_is = refl

given_is : c_text letter.password ≡ some (codes "pwx")
unfolding c_text
given_is = refl

text_is : c_text letter.message ≡ some []
unfolding c_text
text_is = refl

secret-IsText : IsText secret
unfolding c_text
secret-IsText = refl

-- Bob is on top of the list, so Ann's public message leaves her thread in its loop.
hangs_behind_bob : handle_say_all no_row server 4 letter ≡ some (hangs (record server { db = 1 }))
unfolding bytes_eq
hangs_behind_bob =
    handle_say_all_lem no_row server 4 letter name_is to_is text_is users-AreNamed
      (record { cfd = 5; say = 0; name = array bob })
      (record { cfd = 4; say = 1; name = array ann } ∷ []) refl to_is

sessions-bob : top_fd (sessions bob users) ≡ some 5
unfolding sessions c_text bytes_eq
sessions-bob = refl

serve_ends : serve no_row server 5 junk closed ≡ some (ended server)
unfolding serve
serve_ends = refl

closed_stays_online_example :
    handle_say_to no_row server 4 letter ≡ some (done (record server { db = 1 }) (reply 5 letter))
closed_stays_online_example =
    closed_stays_online no_row server 4 junk letter name_is to_is text_is users-AreNamed 5 server
      sessions-bob serve_ends

bob_gets_file : handle_file_to no_row server 4 letter ≡ (
    if ltb 3 100
    then some (
        done
          (record server { addr = table 4 96 })
          (reply 4 (record letter { sfile_id = 3 })
            ++ reply 5 (record letter { sfile_id = 3; action = negsuc 2 })))
    else none)
bob_gets_file =
    file_ids_run_out no_row server 4 5 letter 3 to_is users-AreNamed sessions-bob refl (omega arith)

-- Bob logs out.
abbrev farewell : Msg
farewell = record letter { action = pos 10; name = array bob }

farewell_served :
    serve no_row server 5 junk (got farewell)
    ≡ some (done (record server { head = record { cfd = 4; say = 1; name = array ann } ∷ [] }) [])
unfolding serve handle_request remove_user str_eq handle_logout
farewell_served = refl

-- Ann is new, and another name lies in the buffer.
abbrev remains : List ℕ
remains = array (codes "eve")

-- A database with room for one user, Ann, and her password.
abbrev one_user : Sqlite
one_user = record {
  Db = ℕ;
  exec = λ db query.
      if is_prefix (codes "insert") query
      then (1, [])
      else if db == 0
      then (0, [])
      else if is_prefix (codes "select name") query
      then (1, (some ann ∷ []) ∷ [])
      else (1, (some (codes "42") ∷ []) ∷ []);
}

abbrev from_ann : List ℕ → Msg
from_ann given = record zeroed { name = array ann; password = array given }
