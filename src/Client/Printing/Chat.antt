-- ===== src/Client/Printing/Chat.antt =====
-- Private and public messages from the server's cases 2 and 4 to the clients' (a_cat/server/work/work.c
-- and a_cat/client/work/work.c).
use linux_cat.Common.{
  ℕ, ◌≡◌, refl, ap₂, ap, pos, inl, inr, List, [], ◌∷◌, ◌++◌, map, Option, none, some, ◌==◌,
  if◌then◌else◌, Bool-cases,
}
use linux_cat.Memory.{c_text, bytes_eq}
use linux_cat.Message.{Msg}
use linux_cat.Server.Online.{Online, Write}
use linux_cat.Server.Online.Laws.{AreNamed, sessions, top_fd}
use linux_cat.Server.Accounts.{Sqlite, message_insert}
use linux_cat.Server.State.{Server, done, hangs, reply}
use linux_cat.Server.Handler.{handle_say_to, handle_say_all}
use linux_cat.Server.Handler.Chat.{deliver, handle_say_to_lem, handle_say_all_lem}
use linux_cat.Client.Printing.{
  Surroundings, print_message, printf_stea, print_public, offline, silenced, at_time, towards,
}

-- What the client at a connection prints for a message, if every client has the same surroundings.
abbrev pub Shown : Type 0
Shown = ℕ × Option (List (List ℕ))

abbrev pub shown_at : Surroundings → Write → Shown
shown_at here w = (w.to, print_message here w.msg)

abbrev pub private_line : Surroundings → List ℕ → List ℕ → List ℕ
private_line here name text = at_time ++ (here.now ++ (0x2c ∷ (name ++ (0x3a ∷ text))))

abbrev pub public_line : List ℕ → List ℕ → List ℕ → List ℕ
public_line name to text = name ++ (towards ++ (to ++ (0x3a ∷ text)))

-- The line at the newest session of the receiver, or the notice at the sender.
abbrev pub private_view : Option ℕ → ℕ → List ℕ → List Shown
private_view none cfd line = (cfd, some (offline ∷ [])) ∷ []
private_view (some fd) cfd line = (fd, some (line ∷ [])) ∷ []

module _ (q : Sqlite) (s : Server q.Db) (cfd : ℕ) (m : Msg) (here : Surroundings)
    {name to text : List ℕ} (name_is : c_text m.name ≡ some name)
    (to_is : c_text m.toname ≡ some to) (text_is : c_text m.message ≡ some text)
    (named : AreNamed s.head) where
  print_private : m.action ≡ pos 2 → print_message here m ≡ some (private_line here name text ∷ [])
  unfolding print_message printf_stea
  print_private a = rw (a, name_is, text_is) refl

  print_public_lem : m.action ≡ pos 4 → print_message here m ≡ some (public_line name to text ∷ [])
  unfolding print_message print_public
  print_public_lem a = rw (a, name_is, to_is, text_is) refl

  deliver-shown :
      (top : Option ℕ)
      → m.action ≡ pos 2
      → map (shown_at here) (deliver top cfd m) ≡ private_view top cfd (private_line here name text)
  unfolding print_message
  deliver-shown none a = refl
  deliver-shown (some fd) a = ap (λ o. (fd, o) ∷ []) (print_private a)

  -- Let the names in the list of users and the texts of a private message be terminated. It is stored,
  -- and the client at the newest session of the receiver, and no other, prints the time, the sender's
  -- name and the text on one line; if the receiver has no session, the client at the sender's
  -- connection, and no other, prints the notice that the user is offline.
  pub private_shown :
      m.action ≡ pos 2
      → (ws : List Write) × (handle_say_to q s cfd m
          ≡ some (done (record s { db = (q.exec s.db (message_insert name to text)).0 }) ws))
        × (map (shown_at here) ws
            ≡ private_view (top_fd (sessions to s.head)) cfd (private_line here name text))
  private_shown a =
      let top = top_fd (sessions to s.head) in
      (
        deliver top cfd m,
        handle_say_to_lem q s cfd m name_is to_is text_is named,
        deliver-shown top a,
      )

  all_shown :
      (us : List Online)
      → m.action ≡ pos 4
      → map (shown_at here) (map (λ u. record { to = u.cfd; msg = m }) us)
        ≡ map (λ u. (u.cfd, some (public_line name to text ∷ []))) us
  all_shown [] a = refl
  all_shown (u ∷ us) a = ap₂ (λ o l. (u.cfd, o) ∷ l) (print_public_lem a) (all_shown us a)

  -- Let the names in the list of users and the texts of a public message be terminated, and the list not
  -- be empty. The message is stored. If the user at the head of the list is the speaker, the client at
  -- each connection of the list prints the speaker's name, the receiver's and the text on one line, or,
  -- while the speaker is banned, only the client at the speaker's connection prints the notice of the
  -- ban. If the head is another user, the thread never leaves its loop.
  pub public_shown :
      (n : Online) (ns : List Online) {first : List ℕ}
      → m.action ≡ pos 4
      → s.head ≡ n ∷ ns
      → c_text n.name ≡ some first
      → (ws : List Write) × (handle_say_all q s cfd m ≡ (
          let db = (q.exec s.db (message_insert name to text)).0 in
          some (
            if bytes_eq first name
            then done (record s { db = db }) ws
            else hangs (record s { db = db }))))
        × (map (shown_at here) ws ≡ (
            if n.say == 1
            then (cfd, some (silenced ∷ [])) ∷ []
            else map (λ u. (u.cfd, some (public_line name to text ∷ []))) (n ∷ ns)))
  unfolding print_message
  public_shown n ns {first} a e first_is = (
    (if n.say == 1
        then reply cfd (record m { action = pos 7 })
        else map (λ u. record { to = u.cfd; msg = m }) (n ∷ ns)),
    handle_say_all_lem q s cfd m name_is to_is text_is named n ns e first_is,
    elim (Bool-cases (n.say == 1)) [
      | inl banned ↦ rw banned refl
      | inr free ↦ rw free (all_shown (n ∷ ns) a)
    ],
  )
