-- ===== src/Client/Screens/Tests.antt =====
-- The theorems on the screens at concrete dialogs.
use linux_cat.Common.{
  suc, ℕ, ◌≡◌, refl, pos, negsuc, List, [], ◌∷◌, ◌++◌, map, Option, none, some, if◌then◌else◌,
  length, replicate, codes, arith,
}
use linux_cat.Memory.{bytes_eq, c_text, is_prefix}
use linux_cat.Server.Online.{Online}
use linux_cat.Server.Online.Laws.{AreNamed, sessions}
use linux_cat.Server.Accounts.{Sqlite}
use linux_cat.Server.Accounts.Passwords.{IsText}
use linux_cat.Server.Handler.Users.{Joins}
use linux_cat.Server.State.{Server, done, reply, request_of}
use linux_cat.Server.Handler.{handle_request}
use linux_cat.Server.Handler.FileIds.{table}
use linux_cat.Client.Screens.Offers.{Enters, offer_reaches_both}
use linux_cat.Message.{Msg, zeroed}
use linux_cat.Client.Blocks.Tiling.{Tiles}
use linux_cat.Client.Screens.{
  menu, chat, chat_file, home, wakes, step, awaits_id, Client, Act, writes, sends, typed, comes,
  run,
}
use linux_cat.Client.Screens.Chatting.{spoken, login_message, private_chat_lem}
use linux_cat.Client.Screens.Waiting.{stale_id_sent}
use linux_cat.Client.Screens.Transfer.{AreFor, transfer_session}
use linux_cat.Client.Screens.Login.{login_reaches_home}
use linux_cat.Client.Screens.Leave.{logout_message, login_leave_roundtrip}

-- One file, of 1200 bytes.
abbrev files : List ℕ → Option ℕ
files name = if bytes_eq name (codes "notes") then some 1200 else none

abbrev begun : Client
begun = record {
  place = menu;
  pmsg = zeroed;
  lognum = pos 0;
  sfile_id = 0;
  gconn = replicate 20 (record { mapped = 0; count = 0 });
}

abbrev talking : Client
talking = record begun { place = chat }

abbrev waiting : Client
waiting = record begun {
  place = awaits_id;
  pmsg = record zeroed { filesize = 1200; count = 3 };
  sfile_id = 4;
}

private_chat_lem_example :
    (after : Client) × (run files talking
        (map typed (codes "hi" ∷ codes "bye" ∷ []) ++ (typed (codes "quite") ∷ []))
      ≡ some (after, map (λ w. writes (spoken (pos 2) zeroed w)) (codes "hi" ∷ codes "bye" ∷ [])))
    × (after.place ≡ home)
    × (after.pmsg.name ≡ zeroed.name)
    × (after.pmsg.toname ≡ zeroed.toname)
unfolding bytes_eq
private_chat_lem_example =
    private_chat_lem files talking (codes "hi" ∷ codes "bye" ∷ []) refl
      ((omega arith, refl, refl), ((omega arith, refl, refl), tt))

-- The answer that the user is not online.
abbrev absent : Msg
absent = record zeroed { action = negsuc 1 }

stale_id_sent_example :
    (still stale : Client) × (acts : List Act) × (blocks : List Msg) × (run files waiting
        (map comes (absent ∷ absent ∷ []))
      ≡ some (still, acts))
    × (still.place ≡ awaits_id)
    × (run files waiting (map comes (absent ∷ absent ∷ []) ++ (wakes ∷ []))
        ≡ some (stale, acts ++ (sends blocks ∷ [])))
    × (stale.place ≡ chat)
    × Tiles 0 1200 blocks
    × AreFor zeroed.name zeroed.toname 4 blocks
stale_id_sent_example =
    stale_id_sent files waiting (absent ∷ absent ∷ []) refl
      ((refl, omega arith), ((refl, omega arith), tt))

abbrev numbered : Msg
numbered = record zeroed { action = pos 3; sfile_id = 2 }

transfer_session_example :
    (after : Client) × (head : Msg) × (blocks : List Msg) × (run files talking
        (typed (codes "sfile") ∷ typed (codes "notes") ∷ comes numbered ∷ [])
      ≡ some (after, writes head ∷ sends blocks ∷ []))
    × (after.place ≡ chat)
    × (head.filesize ≡ 1200)
    × (length blocks ≡ head.count)
    × Tiles 0 1200 blocks
    × AreFor zeroed.name zeroed.toname 2 blocks
unfolding bytes_eq
transfer_session_example =
    transfer_session files talking (codes "notes") 1200 numbered refl (omega arith) refl refl

abbrev counting : Sqlite
counting = record { Db = ℕ; exec = λ db query. (suc db, []) }

-- Bob is online, and twenty ids are taken.
abbrev server : Server ℕ
server = record {
  head = record { cfd = 5; say = 0; name = codes "bob" ++ replicate 17 0 } ∷ [];
  addr = table 20 80;
  db = 0;
}

-- Ann chats with Bob, and is about to type the name of the file.
abbrev sending : Client
sending = record begun {
  place = chat_file;
  pmsg = record zeroed { toname = codes "bob" ++ replicate 17 0 };
}

offer_reaches_both_example :
    (head answer offer : Msg) × (paused after : Client) × (blocks : List Msg) × (step files sending
        (typed (codes "notes"))
      ≡ some (paused, writes head ∷ []))
    × (handle_request counting server 4 [] head (request_of head.action)
        ≡ some (done (record server { addr = table 21 79 }) (reply 4 answer ++ reply 5 offer)))
    × (step files paused (comes answer) ≡ some (after, sends blocks ∷ []))
    × Tiles 0 1200 blocks
    × AreFor zeroed.name (codes "bob" ++ replicate 17 0) 20 blocks
    × Enters begun offer 20 1200 (length blocks)
unfolding c_text sessions bytes_eq
offer_reaches_both_example =
    offer_reaches_both counting server 4 5 [] files sending begun (codes "notes") 1200 20 79 refl
      (omega arith) refl refl ((codes "bob", refl), tt) refl refl refl

ann_clean : IsText (codes "ann")
unfolding c_text
ann_clean = refl

pw_clean : IsText (codes "pw")
unfolding c_text
pw_clean = refl

-- The database knows one password.
abbrev one_password : Sqlite
one_password = record { Db = ℕ; exec = λ db query. (suc db, (some (codes "pw") ∷ []) ∷ []) }

login_reaches_home_example :
    (head : List Online) × (answer : Msg) × (after : Client) × Joins server.head head
      (codes "ann")
      9
    × (handle_request one_password server 9
          (replicate 20 7)
          (login_message (codes "ann") (codes "pw"))
          (request_of (login_message (codes "ann") (codes "pw")).action)
        ≡ some (done (record server { db = 1; head = head }) (reply 9 answer)))
    × (run files begun
          (typed (codes "1") ∷ typed (codes "ann") ∷ typed (codes "pw") ∷ comes answer ∷ [])
        ≡ some (
          after,
          writes (login_message (codes "ann") (codes "pw"))
              ∷ writes (record (login_message (codes "ann") (codes "pw")) { action = pos 6 })
              ∷ [],
        ))
    × (after.place ≡ home)
unfolding c_text is_prefix
login_reaches_home_example =
    login_reaches_home one_password server 9 (replicate 20 7) (codes "ann") (codes "pw")
      (codes "pw") 1 files begun ann_clean pw_clean (omega arith) (omega arith)
      ((codes "bob", refl), tt) pw_clean (ground arith) (omega arith) refl refl refl

login_leave_roundtrip_example :
    (between after : List Online) × (end : Client) × (handle_request one_password server 9
        (replicate 20 7)
        (login_message (codes "ann") (codes "pw"))
        (request_of (login_message (codes "ann") (codes "pw")).action)
      ≡ some (
          done
            (record server { db = 1; head = between })
            (reply 9 (login_message (codes "ann") (codes "pw")))))
    × (handle_request one_password
          (record server { db = 1; head = between })
          9
          []
          (logout_message (codes "ann") (codes "pw"))
          (request_of (logout_message (codes "ann") (codes "pw")).action)
        ≡ some (done (record server { db = 1; head = after }) []))
    × (run files begun (
          typed (codes "1")
          ∷ typed (codes "ann")
          ∷ typed (codes "pw")
          ∷ comes (login_message (codes "ann") (codes "pw"))
          ∷ typed (codes "3")
          ∷ [])
        ≡ some (
          end,
          writes (login_message (codes "ann") (codes "pw"))
              ∷ writes (record (login_message (codes "ann") (codes "pw")) { action = pos 6 })
              ∷ writes (logout_message (codes "ann") (codes "pw"))
              ∷ [],
        ))
    × (end.place ≡ menu)
    × AreNamed after
    × ((k : List ℕ) → sessions k after ≡ sessions k server.head)
unfolding c_text is_prefix
login_leave_roundtrip_example =
    login_leave_roundtrip one_password server 9 (replicate 20 7) [] (codes "ann") (codes "pw")
      (codes "pw") 1 files begun ann_clean pw_clean (omega arith) (omega arith)
      ((codes "bob", refl), tt) pw_clean (ground arith) (omega arith) refl refl refl refl
