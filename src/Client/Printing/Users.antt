-- ===== src/Client/Printing/Users.antt =====
-- The list of users from the server's case 6 to the client's (a_cat/server/work/work.c and
-- a_cat/client/work/work.c).
use linux_cat.Common.{
  ℕ, ◌<◌, ◌≡◌, refl, sym, ◌∙◌, ap, true, false, List, [], ◌∷◌, ◌++◌, map, some, ltb, length, arith,
  append_assoc, append-nil, subst,
}
use linux_cat.Memory.{c_text}
use linux_cat.Message.{Msg}
use linux_cat.Server.Online.{Online}
use linux_cat.Server.Online.Laws.{AreNamed}
use linux_cat.Server.Accounts.{Sqlite}
use linux_cat.Server.Texts.{user_label, users_text}
use linux_cat.Server.State.{Server, done}
use linux_cat.Server.Handler.{handle_list_users}
use linux_cat.Server.Handler.Listing.{handle_list_users_lem}
use linux_cat.Client.Printing.{is_space, words_from, print_words, print_read, print_users}

abbrev pub NoSpace : List ℕ → Type 0
NoSpace [] = Unit {0}
NoSpace (b ∷ bs) = (is_space b ≡ false) × NoSpace bs

-- The names in a list of users, as texts of fewer than 20 bytes without a space.
abbrev pub AreNames : List Online → List (List ℕ) → Type 0
AreNames [] [] = Unit {0}
AreNames (n ∷ ns) (t ∷ ts) =
    ((c_text n.name ≡ some t) × NoSpace t × (length t < 20)) × AreNames ns ts
AreNames _ _ = ⊥

abbrev pub labelled : List ℕ → List ℕ
labelled t = user_label ++ t

words_from-append :
    (w x rest : List ℕ) → NoSpace x → words_from w (x ++ rest) ≡ words_from (w ++ x) rest
unfolding words_from
words_from-append w [] rest h = ap (λ l. words_from l rest) (sym (append-nil w))
words_from-append w (b ∷ x) rest h =
    rw (h.0, words_from)
      (words_from-append (w ++ (b ∷ [])) x rest h.1
        ∙ ap (λ l. words_from l rest) (append_assoc w (b ∷ []) x))

words_from-label :
    (t rest : List ℕ)
    → NoSpace t
    → words_from [] (labelled t ++ rest) ≡ words_from (labelled t) rest
words_from-label t rest h =
    words_from-append [] (labelled t) rest
      (refl, (refl, (refl, (refl, (refl, (refl, (refl, (refl, (refl, (refl, h))))))))))

words_of_users :
    (n : Online) (ns : List Online) (ts : List (List ℕ))
    → AreNames (n ∷ ns) ts
    → (text : List ℕ) × (users_text (n ∷ ns) ≡ some text) × (words_from [] text ≡ map labelled ts)
unfolding users_text words_from
words_of_users n [] [] h = elim h [ ]
words_of_users n [] (t ∷ (u ∷ ts)) h = elim h.1 [ ]
words_of_users n (n' ∷ ns) [] h = elim h [ ]
words_of_users n [] (t ∷ []) ((e, clear, _), _) = (
  labelled t,
  rw e refl,
  ap (words_from []) (sym (append-nil (labelled t))) ∙ words_from-label t [] clear,
)
words_of_users n (n' ∷ ns) (t ∷ ts) ((e, clear, _), names) =
    let (rest, r, shown) = words_of_users n' ns ts names in
    (
      user_label ++ (t ++ (0x0a ∷ rest)),
      rw (e, r) refl,
      ap (words_from []) (sym (append_assoc user_label t (0x0a ∷ rest)))
          ∙ words_from-label t (0x0a ∷ rest) clear
          ∙ ap (λ l. labelled t ∷ l) shown,
    )

print_words-labelled :
    (ns : List Online) (ts : List (List ℕ))
    → AreNames ns ts
    → print_words (map labelled ts) ≡ some (map labelled ts)
unfolding print_words
print_words-labelled [] [] h = refl
print_words-labelled [] (t ∷ ts) h = elim h [ ]
print_words-labelled (n ∷ ns) [] h = elim h [ ]
print_words-labelled (n ∷ ns) (t ∷ ts) ((_, _, short), names) =
    let fits : ltb (length (labelled t)) 100 ≡ true = ground (arith, short) in
    rw (print_words-labelled ns ts names, fits) refl

AreNames-AreNamed : (ns : List Online) (ts : List (List ℕ)) → AreNames ns ts → AreNamed ns
AreNames-AreNamed [] ts h = tt
AreNames-AreNamed (n ∷ ns) [] h = elim h [ ]
AreNames-AreNamed (n ∷ ns) (t ∷ ts) ((e, _, _), names) = ((t, e), AreNames-AreNamed ns ts names)

print_read-labelled :
    (junk : List ℕ) (ns : List Online) (ts : List (List ℕ))
    → AreNames ns ts
    → 0 < length ts
    → print_read junk (map labelled ts) ≡ some (map labelled ts)
unfolding print_read
print_read-labelled junk ns [] h some_names = absurd (ground (arith, some_names))
print_read-labelled junk ns (t ∷ ts) h some_names = print_words-labelled ns (t ∷ ts) h

-- Let the names in the list of users be texts of fewer than 20 bytes without a space, at least two
-- users online, and the text of the list shorter than the message's array. A request for the list is
-- answered to every user online with one message, and a client that gets it prints just the names,
-- each behind its label on a line of its own, in the order of the server's list, whatever lay in its
-- buffer.
pub listing_shown :
    (q : Sqlite) (s : Server q.Db) (m : Msg) (n n' : Online) (ns : List Online)
    (names : List (List ℕ)) (text junk : List ℕ)
    → s.head ≡ n ∷ n' ∷ ns
    → AreNames s.head names
    → users_text s.head ≡ some text
    → length text < 1024
    → (message : List ℕ) × (handle_list_users q s m
        ≡ some (
            done s (map (λ u. record { to = u.cfd; msg = record m { message = message } }) s.head)))
      × (print_users junk (record m { message = message }) ≡ some (map labelled names))
unfolding print_users
listing_shown q s m n n' ns names text junk e are made short =
    let named = AreNames-AreNamed s.head names are in
    let (message, holds, sent) = handle_list_users_lem q s m n n' ns text e named made short in
    let here = subst (λ l. AreNames l names) e are in
    let (text', made', words) = words_of_users n (n' ∷ ns) names here in
    let same : text' ≡ text = ground (arith, e, made, made') in
    let words' : words_from [] text ≡ map labelled names =
      subst (λ l. words_from [] l ≡ map labelled names) same words in
    let shown = print_read-labelled junk (n ∷ n' ∷ ns) names here (some_names names here) in
    (message, sent, rw (holds, words') shown)
  where
    some_names : (ts : List (List ℕ)) → AreNames (n ∷ n' ∷ ns) ts → 0 < length ts
    some_names [] h = elim h [ ]
    some_names (t ∷ ts) h = ground arith
