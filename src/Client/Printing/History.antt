-- ===== src/Client/Printing/History.antt =====
-- The stored messages from the server's case 9 to the client's (a_cat/server/work/work.c and
-- a_cat/client/work/work.c).
use linux_cat.Common.{
  ℕ, ◌<◌, ◌≡◌, refl, ap, true, List, [], ◌∷◌, ◌++◌, some, ltb, length, replicate, drop-replicate,
  inl, inr, Bool-cases, arith, append_assoc,
}
use linux_cat.Memory.{c_text, bytes_eq}
use linux_cat.Memory.Texts.{NoBreak, NoBreak-append}
use linux_cat.Message.{Msg}
use linux_cat.Server.Accounts.{Sqlite, Row, column}
use linux_cat.Server.Texts.{
  my_label, time_label, my_getmessage_callback, message_lines, history_query, fill_message,
}
use linux_cat.Server.State.{Server, done, reply}
use linux_cat.Server.Handler.{handle_history}
use linux_cat.Client.Printing.Lines.{
  AreLines, unlines, lines_view, print_lines-unlines, NoBreak-unlines,
}
use linux_cat.Client.Printing.{print_history}

-- Rows of a sender, a text and a time, each without NUL and newline.
abbrev pub AreStored : List Row → Type 0
AreStored [] = Unit {0}
AreStored (row ∷ rows) =
    ((from text time : List ℕ) × (column row 0 ≡ some from)
      × (column row 2 ≡ some text)
      × (column row 3 ≡ some time)
      × NoBreak from
      × NoBreak text
      × NoBreak time)
    × AreStored rows

message_lines-unlines :
    (name toname : List ℕ) (rows : List Row)
    → AreStored rows
    → (ls : List (List ℕ)) × (message_lines name toname rows ≡ some (unlines ls)) × AreLines ls
unfolding message_lines my_getmessage_callback
message_lines-unlines name toname [] h = ([], refl, tt)
message_lines-unlines name toname (row ∷ rows) ((from, text, time, e0, e2, e3, cf, ct, cd), h) =
    let (ls, e, clean) = message_lines-unlines name toname rows h in
    elim (Bool-cases (bytes_eq name from)) [
      | inl mine ↦ (
        (text ++ (0x3a ∷ (my_label ++ time))) ∷ ls,
        rw (e0, mine, e2, e3, e) (ap some (simp append_assoc)),
        (
          NoBreak-append text (0x3a ∷ (my_label ++ time)) ct (
            refl,
            refl,
            (
              refl,
              refl,
              (
                refl,
                refl,
                (
                  refl,
                  refl,
                  (
                    refl,
                    refl,
                    (
                      refl,
                      refl,
                      (
                        refl,
                        refl,
                        (
                          refl,
                          refl,
                          (
                            refl,
                            refl,
                            (
                              refl,
                              refl,
                              (refl, refl, (refl, refl, (refl, refl, (refl, refl, cd)))),
                            ),
                          ),
                        ),
                      ),
                    ),
                  ),
                ),
              ),
            ),
          ),
          clean,
        ),
      )
      | inr no_mine ↦ elim (Bool-cases (bytes_eq toname from)) [
        | inl theirs ↦ (
          (time_label ++ (time ++ (0x2c ∷ (from ++ (0x3a ∷ text))))) ∷ ls,
          rw (e0, no_mine, theirs, e2, e3, e) (ap some (simp append_assoc)),
          (
            (
              refl,
              refl,
              (
                refl,
                refl,
                (
                  refl,
                  refl,
                  (
                    refl,
                    refl,
                    (
                      refl,
                      refl,
                      (
                        refl,
                        refl,
                        (
                          refl,
                          refl,
                          NoBreak-append time (0x2c ∷ (from ++ (0x3a ∷ text))) cd
                              (refl, refl, NoBreak-append from (0x3a ∷ text) cf (refl, refl, ct)),
                        ),
                      ),
                    ),
                  ),
                ),
              ),
            ),
            clean,
          ),
        )
        | inr no_theirs ↦ (ls, rw (e0, no_mine, no_theirs, e) refl, clean)
      ]
    ]

-- Let a request for the stored messages carry texts in its names and an empty message, let the rows
-- that the database returns hold a sender, a text and a time without NUL and newline, and let the text
-- that the server makes of them be shorter than a message's array. Then this text is a list of lines,
-- the server answers the sender, and the client with a newline left in `ch` shows from the answer those
-- lines and an empty one if each but the first has fewer than 100 bytes. What lies in its buffer of 100
-- bytes behind the first line is shown with that line. If a line is longer, or if no NUL lies behind
-- the first, the client runs into undefined behaviour.
pub history_shown :
    (q : Sqlite) (s : Server q.Db) (cfd : ℕ) (m : Msg) (name toname text buf : List ℕ)
    → c_text m.name ≡ some name
    → c_text m.toname ≡ some toname
    → m.message ≡ replicate 1024 0
    → AreStored (q.exec s.db (history_query name toname)).1
    → message_lines name toname (q.exec s.db (history_query name toname)).1 ≡ some text
    → length text < 1024
    → (message : List ℕ) × (handle_history q s cfd m
        ≡ some (
            done
              (record s { db = (q.exec s.db (history_query name toname)).0 })
              (reply cfd (record m { message = message }))))
      × ((ls : List (List ℕ)) × (text ≡ unlines ls)
          × (print_history buf 10 (record m { message = message }) ≡ lines_view buf ls))
unfolding handle_history fill_message print_history
history_shown q s cfd m name toname text buf e f empty stored made short =
    let (ls, made', clean) =
      message_lines-unlines name toname (q.exec s.db (history_query name toname)).1 stored in
    let (tail, zeros) = drop-replicate {A = ℕ} (length text) 1024 0 short in
    let fits : ltb (length text) 1024 ≡ true = ground (arith, short) in
    let same : text ≡ unlines ls = ground (arith, made, made') in
    let shown : c_text (text ++ (0 ∷ tail)) ≡ some (unlines ls) =
      rw same (NoBreak-unlines ls tail clean) in
    (
      text ++ (0 ∷ tail),
      rw (e, f, made, fits, empty, zeros) refl,
      (ls, same, rw shown (print_lines-unlines buf ls clean)),
    )
