-- ===== src/Server/Handler/Chat.antt =====
-- Private and public messages, and the ban on speaking (cases 2, 4, 8 and -8).
use linux_cat.Common.{
  ℕ, ◌≡◌, ◌⊎◌, refl, ap, pos, negsuc, false, List, [], ◌∷◌, map, Option, none, some, ◌==◌,
  if◌then◌else◌, arith, inl, inr,
}
use linux_cat.Memory.{c_text, bytes_eq}
use linux_cat.Memory.Laws.{str_eq-c_text}
use linux_cat.Message.{Msg}
use linux_cat.Server.Online.{Online, Write, set_say, to_all}
use linux_cat.Server.Online.Laws.{AreNamed, sessions, top_fd, mark_top, find_fd_lem, get_online_lem}
use linux_cat.Server.Accounts.{Sqlite, message_insert}
use linux_cat.Server.Accounts.Storage.{insert_data_message_lem}
use linux_cat.Server.State.{Server, Outcome, done, hangs, reply, say_to_all, mute, unmute}
use linux_cat.Server.Handler.{handle_say_to, handle_say_all, handle_mark, handle_request}

pub to_all-map :
    (ns : List Online) (m : Msg) → to_all ns m ≡ map (λ u. record { to = u.cfd; msg = m }) ns
unfolding to_all
to_all-map [] m = refl
to_all-map (n ∷ ns) m = ap (λ l. record { to = n.cfd; msg = m } ∷ l) (to_all-map ns m)

-- Where a private message goes: to the session found, or back with action -2.
abbrev pub deliver : Option ℕ → ℕ → Msg → List Write
deliver none cfd m = reply cfd (record m { action = negsuc 1 })
deliver (some fd) cfd m = reply fd m

module _ (q : Sqlite) (s : Server q.Db) (cfd : ℕ) (m : Msg) {name to text : List ℕ}
    (name_is : c_text m.name ≡ some name) (to_is : c_text m.toname ≡ some to)
    (text_is : c_text m.message ≡ some text) (named : AreNamed s.head) where
  -- Let the names in the list of users be texts. A private message between terminated names is stored, and then written to the newest session of
  -- `toname` alone; if that user has no session, it goes back to the sender with action -2. The list
  -- of users does not change.
  pub handle_say_to_lem :
      handle_say_to q s cfd m
      ≡ some (
          done
            (record s { db = (q.exec s.db (message_insert name to text)).0 })
            (deliver (top_fd (sessions to s.head)) cfd m))
  unfolding handle_say_to
  handle_say_to_lem =
      rw
        (
          insert_data_message_lem q s.db m name_is to_is text_is,
          find_fd_lem s.head m.toname named to_is,
        )
        (ground arith)

  -- Let the names in the list of users be texts. A public message between terminated names is stored. If the user at the head of the list is the
  -- speaker, it is then written once to each user online, in the order of the list, or, while the
  -- speaker is banned, back to the speaker alone with action 7. If the head is another user, the
  -- thread never leaves its loop.
  pub handle_say_all_lem :
      (n : Online) (ns : List Online) {first : List ℕ}
      → s.head ≡ n ∷ ns
      → c_text n.name ≡ some first
      → let db = (q.exec s.db (message_insert name to text)).0 in
        handle_say_all q s cfd m
        ≡ some (
            if bytes_eq first name
            then done
                (record s { db = db })
                (if n.say == 1
                  then reply cfd (record m { action = pos 7 })
                  else map (λ u. record { to = u.cfd; msg = m }) (n ∷ ns))
            else hangs (record s { db = db }))
  unfolding handle_say_all say_to_all
  handle_say_all_lem n ns {first} e first_is =
      rw (insert_data_message_lem q s.db m name_is to_is text_is, e)
        (rw (str_eq-c_text n.name m.name first_is name_is) (ground (arith, to_all-map (n ∷ ns) m)))

-- Marking a user: the newest session of the key, and no other session, gets the mark; with no
-- session of the key nothing changes and the answer is -2.
abbrev pub Marks : {Db : Type 0} → Server Db → ℕ → Msg → List ℕ → ℕ → Option (Outcome Db) → Type 0
Marks s cfd m k v out =
    ((sessions k s.head ≡ []) × (out ≡ some (done s (reply cfd (record m { action = negsuc 1 })))))
    ⊎ ((head : List Online) × (out ≡ some (done (record s { head = head }) (reply cfd m)))
        × AreNamed head
        × ((j : List ℕ)
            → sessions j head
              ≡ (if bytes_eq k j then mark_top v (sessions k s.head) else sessions j s.head)))

module _ (q : Sqlite) (s : Server q.Db) (cfd : ℕ) (junk : List ℕ) (m : Msg)
    (named : AreNamed s.head) where
  pub handle_mark_lem :
      (key : List ℕ) (v : ℕ) {k : List ℕ}
      → c_text key ≡ some k
      → Marks s cfd m k v (handle_mark q s cfd m key v)
  unfolding handle_mark
  handle_mark_lem key v e = elim (get_online_lem s.head key v named e) [
    | inl (r, empty) ↦ inl (empty, rw r)
    | inr (i, r, full, a, each) ↦ inr (set_say s.head i v, rw r, a, each)
  ]

  -- Let the names in the list of users and `toname` be texts. Case 8 sets the ban of the newest session
  -- of `toname` and of no other session, and echoes the message; if that user has no session, nothing
  -- changes and the answer has action -2.
  mute_lem :
      {to : List ℕ}
      → c_text m.toname ≡ some to
      → Marks s cfd m to 1 (handle_request q s cfd junk m mute)
  unfolding handle_request
  mute_lem e = handle_mark_lem m.toname 1 e

  -- Let the names in the list of users and the sender's name be texts. Case -8 changes the sessions of
  -- no name but the sender's own, where case 8 sets the ban of `toname`: whoever else is banned stays
  -- so.
  unmute_misses :
      {name : List ℕ} (to : List ℕ) (out : Server q.Db) (ws : List Write)
      → c_text m.name ≡ some name
      → bytes_eq name to ≡ false
      → handle_request q s cfd junk m unmute ≡ some (done out ws)
      → sessions to out.head ≡ sessions to s.head
  unfolding handle_request
  unmute_misses {name} to out ws e other h = elim (handle_mark_lem m.name 0 e) [
    | inl (empty, r) ↦ ground (arith, h, r)
    | inr (head, r, a, each) ↦ ground (arith, h, r, each to)
  ]
