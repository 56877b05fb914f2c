-- ===== src/Client/Printing/Tests.antt =====
-- What the client shows, at concrete lists of users and stored messages.
use linux_cat.Common.{
  ℤ, pos, ◌==◌, if◌then◌else◌, ℕ, suc, ◌-◌, ◌≡◌, refl, List, [], ◌∷◌, ◌++◌, map, some, length,
  replicate, arith, codes,
}
use linux_cat.Memory.{c_text, bytes_eq}
use linux_cat.Message.{Msg, zeroed}
use linux_cat.Server.Online.{Online, Write}
use linux_cat.Server.Online.Laws.{AreNamed, sessions, top_fd}
use linux_cat.Server.Accounts.{Row, Sqlite, column}
use linux_cat.Server.Texts.{users_text, my_label, time_label, message_lines, my_getmessage_callback}
use linux_cat.Server.State.{Server, done, hangs, reply}
use linux_cat.Server.Handler.{handle_list_users, handle_history, handle_say_to, handle_say_all}
use linux_cat.Client.Printing.Chat.{
  shown_at, private_line, public_line, private_view, private_shown, public_shown,
}
use linux_cat.Client.Printing.{Surroundings, silenced, print_users, print_history}
use linux_cat.Client.Printing.Users.{AreNames, labelled, listing_shown}
use linux_cat.Client.Printing.Lines.{unlines, lines_view}
use linux_cat.Client.Printing.History.{history_shown}

-- A database that counts the statements and answers each with the same rows.
abbrev answering : List Row → Sqlite
answering rows = record { Db = ℕ; exec = λ db query. (suc db, rows) }

abbrev array : List ℕ → List ℕ
array t = t ++ replicate (20 - length t) 0

abbrev ann : List ℕ
ann = codes "ann"

abbrev bob : List ℕ
bob = codes "bob"

abbrev asked : Msg
asked = record zeroed { name = array ann; toname = array bob }

abbrev bob_online : Online
bob_online = record { cfd = 5; say = 0; name = array bob }

abbrev ann_online : Online
ann_online = record { cfd = 4; say = 1; name = array ann }

abbrev server : Server ℕ
server = record { head = bob_online ∷ ann_online ∷ []; addr = replicate 100 0; db = 0 }

abbrev junk : List ℕ
junk = codes "???"

abbrev listing : List ℕ
listing = labelled bob ++ (0x0a ∷ labelled ann)

names-AreNames : AreNames server.head (bob ∷ ann ∷ [])
unfolding c_text
names-AreNames = (
  (refl, (refl, (refl, (refl, tt))), omega arith),
  ((refl, (refl, (refl, (refl, tt))), omega arith), tt),
)

listing_made : users_text server.head ≡ some listing
unfolding users_text c_text
listing_made = refl

listing_shown_example :
    (message : List ℕ) × (handle_list_users (answering []) server asked
      ≡ some (
          done server (
            map
              (λ u. record { to = u.cfd; msg = record asked { message = message } })
              server.head)))
    × (print_users junk (record asked { message = message })
        ≡ some (labelled bob ∷ labelled ann ∷ []))
listing_shown_example =
    listing_shown (answering []) server asked bob_online ann_online [] (bob ∷ ann ∷ []) listing junk
      refl names-AreNames listing_made (omega arith)

abbrev stored : List Row
stored =
    (some bob ∷ some ann ∷ some (codes "hi") ∷ some (codes "9:00") ∷ [])
    ∷ (some ann ∷ some bob ∷ some (codes "hello") ∷ some (codes "8:59") ∷ [])
    ∷ []

abbrev first_line : List ℕ
first_line = time_label ++ (codes "9:00" ++ (0x2c ∷ (bob ++ (0x3a ∷ codes "hi"))))

abbrev second_line : List ℕ
second_line = codes "hello" ++ (0x3a ∷ (my_label ++ codes "8:59"))

lines_made : message_lines ann bob stored ≡ some (unlines (first_line ∷ second_line ∷ []))
unfolding message_lines my_getmessage_callback column bytes_eq
lines_made = refl

-- A buffer that is full of bytes 7 but for a NUL at its end.
abbrev dirty : List ℕ
dirty = replicate 99 7 ++ (0 ∷ [])

history_shown_example :
    (message : List ℕ) × (handle_history (answering stored) server 4 asked
      ≡ some (done (record server { db = 1 }) (reply 4 (record asked { message = message }))))
    × ((ls : List (List ℕ)) × (unlines (first_line ∷ second_line ∷ []) ≡ unlines ls)
        × (print_history dirty 10 (record asked { message = message }) ≡ lines_view dirty ls))
unfolding c_text column
history_shown_example =
    history_shown (answering stored) server 4 asked ann bob
      (unlines (first_line ∷ second_line ∷ [])) dirty refl refl refl
      (
        (
          bob,
          codes "hi",
          codes "9:00",
          refl,
          refl,
          refl,
          (refl, refl, (refl, refl, (refl, refl, tt))),
          (refl, refl, (refl, refl, tt)),
          (refl, refl, (refl, refl, (refl, refl, (refl, refl, tt)))),
        ),
        (
          (
            ann,
            codes "hello",
            codes "8:59",
            refl,
            refl,
            refl,
            (refl, refl, (refl, refl, (refl, refl, tt))),
            (refl, refl, (refl, refl, (refl, refl, (refl, refl, (refl, refl, tt))))),
            (refl, refl, (refl, refl, (refl, refl, (refl, refl, tt)))),
          ),
          tt,
        ),
      )
      lines_made (omega arith)

abbrev here : Surroundings
here = record { now = codes "9:00"; word = junk; buf = dirty; ch = 10 }

-- What Ann says to Bob, or to all.
abbrev spoken : ℤ → Msg
spoken action = record asked { action = action; message = codes "hi" ++ replicate 1022 0 }

server-AreNamed : AreNamed server.head
unfolding c_text
server-AreNamed = ((bob, refl), ((ann, refl), tt))

private_shown_example :
    (ws : List Write) × (handle_say_to (answering []) server 4 (spoken (pos 2))
      ≡ some (done (record server { db = 1 }) ws))
    × (map (shown_at here) ws
        ≡ private_view (top_fd (sessions bob server.head)) 4 (private_line here ann (codes "hi")))
unfolding c_text
private_shown_example =
    private_shown (answering []) server 4 (spoken (pos 2)) here refl refl refl server-AreNamed refl

-- Ann is on top of the list and banned.
abbrev ann_first : Server ℕ
ann_first = record server { head = ann_online ∷ bob_online ∷ [] }

ann_first-AreNamed : AreNamed ann_first.head
unfolding c_text
ann_first-AreNamed = ((ann, refl), ((bob, refl), tt))

public_shown_example :
    (ws : List Write) × (handle_say_all (answering []) ann_first 4 (spoken (pos 4))
      ≡ some (
          if bytes_eq ann ann
          then done (record ann_first { db = 1 }) ws
          else hangs (record ann_first { db = 1 })))
    × (map (shown_at here) ws ≡ (
        if 1 == 1
        then (4, some (silenced ∷ [])) ∷ []
        else map (λ u. (u.cfd, some (public_line ann bob (codes "hi") ∷ []))) ann_first.head))
unfolding c_text
public_shown_example =
    public_shown (answering []) ann_first 4 (spoken (pos 4)) here refl refl refl ann_first-AreNamed
      ann_online (bob_online ∷ []) refl refl refl
