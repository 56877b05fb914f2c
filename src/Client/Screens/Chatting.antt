-- ===== src/Client/Screens/Chatting.antt =====
-- What the client sends while a user logs in and talks (`log_user`, `chat_user` and `all_user` of
-- a_cat/client/work/work.c).
use linux_cat.Common.{
  ℕ, ◌+◌, ◌<◌, ◌≡◌, refl, ℤ, pos, negsuc, Bool, true, false, List, [], ◌∷◌, ◌++◌, Option, some, map,
  if◌then◌else◌, replicate, codes, length, drop, arith, length-replicate,
}
use linux_cat.Memory.{c_text, str_copy, bytes_eq}
use linux_cat.Memory.Laws.{c_text-str_copy}
use linux_cat.Server.Accounts.Passwords.{IsText}
use linux_cat.Message.{Msg, zeroed}
use linux_cat.Client.Screens.{
  menu, home, chat, all, Client, writes, typed, comes, decimal, poll, to_menu, typed_at,
  take_message, step, run, chat_user, all_user, at_menu, read_name, log_user, view_user,
}

-- A text in an array of `n` zero bytes.
abbrev pub in_array : ℕ → List ℕ → List ℕ
in_array n t = t ++ (0 ∷ drop (length t + 1) (replicate n 0))

abbrev nul : ℕ
nul = 0

pub str_copy-in_array :
    (n : ℕ) (t : List ℕ) → length t < n → str_copy (replicate n 0) t ≡ some (in_array n t)
unfolding str_copy
str_copy-in_array n t h = ground (arith, length-replicate n nul)

-- Such a text comes back from the array.
pub c_text-in_array : (t : List ℕ) → IsText t → length t < 20 → c_text (in_array 20 t) ≡ some t
c_text-in_array t clean short =
    c_text-str_copy (replicate 20 0) (t ++ (0 ∷ [])) clean (str_copy-in_array 20 t short)

-- Words that fit a message and are neither of the two commands.
abbrev pub ArePlain : List (List ℕ) → Type 0
ArePlain [] = Unit {0}
ArePlain (w ∷ ws) =
    ((length w < 1024)
      × (bytes_eq w (codes "quite") ≡ false)
      × (bytes_eq w (codes "sfile") ≡ false))
    × ArePlain ws

abbrev pub spoken : ℤ → Msg → List ℕ → Msg
spoken a m w = record m { action = a; message = in_array 1024 w }

chat_says :
    (files : List ℕ → Option ℕ) (c : Client) (w : List ℕ)
    → c.place ≡ chat
    → length w < 1024
    → bytes_eq w (codes "quite") ≡ false
    → bytes_eq w (codes "sfile") ≡ false
    → step files c (typed w)
      ≡ some (record c { pmsg = spoken (pos 2) c.pmsg w }, writes (spoken (pos 2) c.pmsg w) ∷ [])
unfolding step typed_at chat_user
chat_says files c w e h q f = rw e (rw (str_copy-in_array 1024 w h) (rw (f, q) refl))

chat_quits :
    (files : List ℕ → Option ℕ) (c : Client)
    → c.place ≡ chat
    → step files c (typed (codes "quite"))
      ≡ some (
        record c { place = home; pmsg = record c.pmsg { message = in_array 1024 (codes "quite") } },
        [],
      )
unfolding step typed_at chat_user
chat_quits files c e =
    rw e (rw (str_copy-in_array 1024 (codes "quite") (omega arith)) (unfold bytes_eq in refl))

-- In a private chat the words that fit a message and are neither "sfile" nor "quite", up to "quite",
-- go to the server in their order, each as one message with action 2 and the chat's names; then the
-- client is at its home screen with the same names.
pub private_chat_lem :
    (files : List ℕ → Option ℕ) (c : Client) (ws : List (List ℕ))
    → c.place ≡ chat
    → ArePlain ws
    → (after : Client) × (run files c (map typed ws ++ (typed (codes "quite") ∷ []))
        ≡ some (after, map (λ w. writes (spoken (pos 2) c.pmsg w)) ws))
      × (after.place ≡ home)
      × (after.pmsg.name ≡ c.pmsg.name)
      × (after.pmsg.toname ≡ c.pmsg.toname)
unfolding run
private_chat_lem files c [] e p = (
  record c { place = home; pmsg = record c.pmsg { message = in_array 1024 (codes "quite") } },
  rw (chat_quits files c e) refl,
  refl,
  refl,
  refl,
)
private_chat_lem files c (w ∷ ws) e ((h, q, f), p) =
    let (after, r, at_home, names, to_names) =
      private_chat_lem files (record c { pmsg = spoken (pos 2) c.pmsg w }) ws e p in
    (after, rw (chat_says files c w e h q f, r) refl, at_home, names, to_names)

all_says :
    (files : List ℕ → Option ℕ) (c : Client) (w : List ℕ)
    → c.place ≡ all
    → length w < 1024
    → bytes_eq w (codes "quite") ≡ false
    → step files c (typed w)
      ≡ some (record c { pmsg = spoken (pos 4) c.pmsg w }, writes (spoken (pos 4) c.pmsg w) ∷ [])
unfolding step typed_at all_user
all_says files c w e h q = rw e (rw (str_copy-in_array 1024 w h) (rw q refl))

all_quits :
    (files : List ℕ → Option ℕ) (c : Client)
    → c.place ≡ all
    → step files c (typed (codes "quite"))
      ≡ some (
        record c { place = home; pmsg = record c.pmsg { message = in_array 1024 (codes "quite") } },
        [],
      )
unfolding step typed_at all_user
all_quits files c e =
    rw e (rw (str_copy-in_array 1024 (codes "quite") (omega arith)) (unfold bytes_eq in refl))

-- Words that fit a message and do not end the public chat.
abbrev pub AreSpoken : List (List ℕ) → Type 0
AreSpoken [] = Unit {0}
AreSpoken (w ∷ ws) = ((length w < 1024) × (bytes_eq w (codes "quite") ≡ false)) × AreSpoken ws

-- In the public chat the words that fit a message and are not "quite", up to "quite", go to the
-- server in their order, each as one message with action 4, "sfile" too; then the client is at its
-- home screen with the same names.
pub public_chat_lem :
    (files : List ℕ → Option ℕ) (c : Client) (ws : List (List ℕ))
    → c.place ≡ all
    → AreSpoken ws
    → (after : Client) × (run files c (map typed ws ++ (typed (codes "quite") ∷ []))
        ≡ some (after, map (λ w. writes (spoken (pos 4) c.pmsg w)) ws))
      × (after.place ≡ home)
      × (after.pmsg.name ≡ c.pmsg.name)
      × (after.pmsg.toname ≡ c.pmsg.toname)
unfolding run
public_chat_lem files c [] e p = (
  record c { place = home; pmsg = record c.pmsg { message = in_array 1024 (codes "quite") } },
  rw (all_quits files c e) refl,
  refl,
  refl,
  refl,
)
public_chat_lem files c (w ∷ ws) e ((h, q), p) =
    let (after, r, at_home, names, to_names) =
      public_chat_lem files (record c { pmsg = spoken (pos 4) c.pmsg w }) ws e p in
    (after, rw (all_says files c w e h q, r) refl, at_home, names, to_names)

-- The message that a login sends.
abbrev pub login_message : List ℕ → List ℕ → Msg
login_message name password = record zeroed {
  action = pos 1;
  name = in_array 20 name;
  password = in_array 20 password;
}

-- From the menu: "1", a name and a password of fewer than 20 bytes each, and then the server's answer
-- with action 1 or -1. The client sends the name and the password as a login; on 1 it asks for the
-- users online and is at its home screen, on -1 it is back at the menu and sends nothing more.
pub login_session :
    (files : List ℕ → Option ℕ) (c : Client) (name password : List ℕ) (answer : Msg) (right : Bool)
    → c.place ≡ menu
    → c.lognum ≡ pos 0
    → length name < 20
    → length password < 20
    → answer.action ≡ (if right then pos 1 else negsuc 0)
    → (after : Client) × (run files c
          (typed (codes "1") ∷ typed name ∷ typed password ∷ comes answer ∷ [])
        ≡ some (
          after,
          writes (login_message name password)
              ∷ (if right
                  then writes (record (login_message name password) { action = pos 6 }) ∷ []
                  else []),
        ))
      × (after.place ≡ (if right then home else menu))
unfolding run step typed_at take_message poll to_menu decimal at_menu read_name log_user view_user
login_session files c name password answer true e l n p a =
    let logged = record (login_message name password) { action = pos 6 } in
    (
      record c { place = home; pmsg = logged; lognum = pos 1 },
      rw (e, l)
          (rw (str_copy-in_array 20 name n) (rw (str_copy-in_array 20 password p) (rw a refl))),
      refl,
    )
login_session files c name password answer false e l n p a = (
  record c { place = menu; pmsg = login_message name password; lognum = pos 0 },
  rw (e, l) (rw (str_copy-in_array 20 name n) (rw (str_copy-in_array 20 password p) (rw a refl))),
  refl,
)
