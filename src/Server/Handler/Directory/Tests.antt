-- ===== src/Server/Handler/Directory/Tests.antt =====
-- Runs of the server against the directory, at concrete users and messages.
use linux_cat.Common.{
  ℕ, ℤ, suc, ◌-◌, ◌≡◌, refl, pos, negsuc, false, List, [], ◌∷◌, ◌++◌, some, length, replicate,
  arith, codes, Bool-cases, subst, inl, inr,
}
use linux_cat.Memory.{c_text, bytes_eq}
use linux_cat.Memory.Laws.{bytes_eq_iff}
use linux_cat.Message.{Msg, zeroed}
use linux_cat.Server.Online.{Online, Write}
use linux_cat.Server.Online.Laws.{AreNamed, sessions}
use linux_cat.Server.Accounts.{Sqlite}
use linux_cat.Server.State.{Server, Received, closed, failed, got, request_of}
use linux_cat.Server.Handler.Directory.{view}
use linux_cat.Server.Handler.Directory.Refines.{Says}
use linux_cat.Server.Handler.Directory.Runs.{
  Said, AllLocal, server_run, observed, directory_run, server_run-directory_run, order_hidden,
}
use linux_cat.Server.Handler.Directory.Defined.{AllSure, server_run_defined}

abbrev counting : Sqlite
counting = record { Db = ℕ; exec = λ db query. (suc db, (some (codes "pw") ∷ []) ∷ []) }

abbrev array : List ℕ → List ℕ
array t = t ++ replicate (20 - length t) 0

abbrev ann : List ℕ
ann = codes "ann"

abbrev bob : List ℕ
bob = codes "bob"

abbrev ann_online : Online
ann_online = record { cfd = 4; say = 0; name = array ann }

abbrev bob_online : Online
bob_online = record { cfd = 5; say = 1; name = array bob }

abbrev server : List Online → Server ℕ
server users = record { head = users; addr = replicate 100 0; db = 0 }

-- A message from Ann to Bob.
abbrev letter : ℤ → Msg
letter action = record zeroed {
  action = action;
  name = array ann;
  toname = array bob;
  password = array (codes "pw");
}

abbrev said : ℤ → Said
said action = record {
  who = 4;
  junk = replicate 20 7;
  what = got (letter action);
  words = record { name = ann; toname = bob; text = [] };
}

letter-Says : (action : ℤ) → Says (letter action) (said action).words
unfolding c_text
letter-Says action = record {
  name_is = refl;
  toname_is = refl;
  text_is = refl;
  short = omega arith;
}

-- What happens at a connection without a message.
abbrev silent : Received → Said
silent r = record {
  who = 4;
  junk = codes "none" ++ (0 ∷ []);
  what = r;
  words = record { name = []; toname = []; text = [] };
}

zeroed-Says : Says zeroed (silent failed).words
unfolding c_text
zeroed-Says = record { name_is = refl; toname_is = refl; text_is = refl; short = omega arith }

-- Ann logs in, writes to Bob, offers him a file, frees herself, reads her messages and logs out; then
-- her connection fails once and is closed.
abbrev morning : List Said
morning =
    said (pos 1)
    ∷ said (pos 2)
    ∷ said (pos 3)
    ∷ said (negsuc 7)
    ∷ said (pos 9)
    ∷ said (pos 10)
    ∷ silent failed
    ∷ silent closed
    ∷ []

morning-AllLocal : AllLocal morning
unfolding request_of
morning-AllLocal = (
  (letter-Says (pos 1), refl),
  (
    (letter-Says (pos 2), refl),
    (
      (letter-Says (pos 3), refl),
      (
        (letter-Says (negsuc 7), refl),
        ((letter-Says (pos 9), refl), ((letter-Says (pos 10), refl), (zeroed-Says, (tt, tt)))),
      ),
    ),
  ),
)

bob_first-AreNamed : AreNamed (bob_online ∷ ann_online ∷ [])
unfolding c_text
bob_first-AreNamed = ((bob, refl), ((ann, refl), tt))

ann_first-AreNamed : AreNamed (ann_online ∷ bob_online ∷ [])
unfolding c_text
ann_first-AreNamed = ((ann, refl), ((bob, refl), tt))

same_sessions :
    (k : List ℕ)
    → sessions k (bob_online ∷ ann_online ∷ []) ≡ sessions k (ann_online ∷ bob_online ∷ [])
unfolding sessions c_text bytes_eq
same_sessions k = elim (Bool-cases (bytes_eq bob k)) [
  | inl is_bob ↦
      let not_ann : bytes_eq ann k ≡ false =
        subst (λ n. bytes_eq ann n ≡ false) ((bytes_eq_iff bob k).0 is_bob) refl in
      rw (is_bob, not_ann) refl
  | inr not_bob ↦ rw not_bob refl
]

server_run-directory_run_example :
    observed counting (server (bob_online ∷ ann_online ∷ [])) morning
    ≡ directory_run counting (view (server (bob_online ∷ ann_online ∷ []))) morning
server_run-directory_run_example =
    server_run-directory_run counting (server (bob_online ∷ ann_online ∷ [])) morning
      bob_first-AreNamed morning-AllLocal

order_hidden_example :
    observed counting (server (bob_online ∷ ann_online ∷ [])) morning
    ≡ observed counting (server (ann_online ∷ bob_online ∷ [])) morning
order_hidden_example =
    order_hidden counting (server (bob_online ∷ ann_online ∷ []))
      (server (ann_online ∷ bob_online ∷ [])) morning bob_first-AreNamed ann_first-AreNamed
      same_sessions refl refl morning-AllLocal

-- Ann writes, bans Bob, sends him a block, logs out and leaves.
abbrev short_day : List Said
short_day = said (pos 2) ∷ said (pos 8) ∷ said (pos 5) ∷ said (pos 10) ∷ silent closed ∷ []

short_day-AllSure : AllSure short_day
unfolding request_of
short_day-AllSure = (
  (letter-Says (pos 2), refl),
  (
    (letter-Says (pos 8), refl),
    ((letter-Says (pos 5), refl), ((letter-Says (pos 10), refl), (tt, tt))),
  ),
)

server_run_defined_example :
    (t : Server ℕ) × (ws : List Write) × (server_run counting
        (server (bob_online ∷ ann_online ∷ []))
        short_day
      ≡ some (t, ws))
    × AreNamed t.head
server_run_defined_example =
    server_run_defined counting (server (bob_online ∷ ann_online ∷ [])) short_day bob_first-AreNamed
      short_day-AllSure
