-- ===== src/Server/Handler/Listing.antt =====
-- The list of users that case 6 of `thread_read` (a_cat/server/work/work.c) sends round.
use linux_cat.Common.{
  ℕ, ◌<◌, ◌≡◌, refl, ◌∙◌, ap, List, [], ◌∷◌, ◌++◌, map, some, inl, inr, length, drop-replicate,
  arith, append_assoc, ltb, true, subst,
}
use linux_cat.Memory.{c_text}
use linux_cat.Memory.Laws.{c_text-cons, c_text-append}
use linux_cat.Message.{Msg}
use linux_cat.Server.Online.{Online}
use linux_cat.Server.Online.Laws.{AreNamed}
use linux_cat.Server.Accounts.{Sqlite}
use linux_cat.Server.Texts.{user_label, users_text, fill_message, cleared}
use linux_cat.Server.State.{Server, done}
use linux_cat.Server.Handler.{handle_list_users}
use linux_cat.Server.Handler.Chat.{to_all-map}

-- A text without NUL in front of an array is in front of its text.
c_text-behind :
    (a b : List ℕ) {t : List ℕ}
    → c_text (a ++ (0 ∷ [])) ≡ some a
    → c_text b ≡ some t
    → c_text (a ++ b) ≡ some (a ++ t)
unfolding c_text
c_text-behind [] b h k = k
c_text-behind (x ∷ a) b {t} h k = elim (c_text-cons x (a ++ (0 ∷ [])) h) [
  | inl (z, e) ↦ absurd (ground arith)
  | inr (nz, (u, e, f)) ↦
      let same : u ≡ a = ground (arith, f) in
      let rest = c_text-behind a b (e ∙ ap some same) k in ground (arith, nz, rest)
]

-- A text without NUL.
abbrev Clean : List ℕ → Type 0
Clean t = c_text (t ++ (0 ∷ [])) ≡ some t

append-Clean : (a b : List ℕ) → Clean a → Clean b → Clean (a ++ b)
append-Clean a b h k = rw (append_assoc a b (0 ∷ [])) (c_text-behind a (b ++ (0 ∷ [])) h k)

label-Clean : Clean user_label
unfolding c_text
label-Clean = refl

newline-Clean : Clean (0x0a ∷ [])
unfolding c_text
newline-Clean = refl

users_text-Clean :
    (n : Online) (ns : List Online)
    → AreNamed (n ∷ ns)
    → (text : List ℕ) × (users_text (n ∷ ns) ≡ some text) × Clean text
unfolding users_text
users_text-Clean n [] ((t, e), named) =
    (user_label ++ t, rw e refl, append-Clean user_label t label-Clean (c_text-append n.name [] e))
users_text-Clean n (n' ∷ ns) ((t, e), named) =
    let (rest, r, clean) = users_text-Clean n' ns named in
    (
      user_label ++ (t ++ (0x0a ∷ rest)),
      rw (e, r) refl,
      append-Clean user_label (t ++ (0x0a ∷ rest)) label-Clean (
          append-Clean t (0x0a ∷ rest) (c_text-append n.name [] e)
            (append-Clean (0x0a ∷ []) rest newline-Clean clean)),
    )

-- Let the names in the list of users be texts, at least two users online, and the text of the
-- list shorter than the message's array. Then the request for the list is answered to every user
-- online, in the order of the list, with a message that holds just that text.
pub handle_list_users_lem :
    (q : Sqlite) (s : Server q.Db) (m : Msg) (n n' : Online) (ns : List Online) (text : List ℕ)
    → s.head ≡ n ∷ n' ∷ ns
    → AreNamed s.head
    → users_text s.head ≡ some text
    → length text < 1024
    → (message : List ℕ) × (c_text message ≡ some text)
      × (handle_list_users q s m
          ≡ some (
              done s
                (map (λ u. record { to = u.cfd; msg = record m { message = message } }) s.head)))
unfolding handle_list_users fill_message cleared
handle_list_users_lem q s m n n' ns text e named made short =
    let (text', made', clean) = users_text-Clean n (n' ∷ ns) (subst AreNamed e named) in
    let same : text' ≡ text = ground (arith, e, made, made') in
    let (tail, zeros) = drop-replicate {A = ℕ} (length text) 1024 0 short in
    let fits : ltb (length text) 1024 ≡ true = ground (arith, short) in
    (
      text ++ (0 ∷ tail),
      c_text-append (text ++ (0 ∷ [])) tail (subst Clean same clean),
      rw (made, e)
          (rw fits (
            rw (zeros, to_all-map (n ∷ n' ∷ ns) (record m { message = text ++ (0 ∷ tail) })) refl)),
    )
