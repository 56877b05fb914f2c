-- ===== src/Server/Handler/Safety.antt =====
-- The list of users (`head` of a_cat/server/work/work.c) from one message of `thread_read` to the next.
use linux_cat.Common.{
  ℕ, zero, suc, ◌≡◌, refl, negsuc, Bool, true, false, List, [], ◌∷◌, Option, none, some,
  if◌then◌else◌, replicate, arith, ◌>>=◌, >>=-eq-some, subst,
}
use linux_cat.Memory.{c_text, str_eq, str_copy}
use linux_cat.Memory.Laws.{c_text-str_copy}
use linux_cat.Message.{Msg, zeroed}
use linux_cat.Server.Online.{Online, find_fd, get_online, set_say, insert_link, remove_user}
use linux_cat.Server.Online.Laws.{AreNamed}
use linux_cat.Server.Accounts.{
  Sqlite, queryname, querypassword, query_manager_password, insert_person, insert_data_message,
}
use linux_cat.Server.Texts.{users_text, fill_message, cleared, message_lines, history_query}
use linux_cat.Server.State.{
  Server, Outcome, done, seeks, offers, hangs, ended, Received, closed, failed, got, Request,
  register, login, say_to, file_to, say_all, file_data, file_socket, list_users, login_manager,
  mute, unmute, history, logout, other, request_of, new_node, take_id, say_to_all,
}
use linux_cat.Server.Handler.{
  handle_register, handle_login, handle_say_to, handle_file_to, handle_say_all, handle_file_data,
  handle_list_users, handle_login_manager, handle_mark, handle_history, handle_logout,
  handle_request, serve,
}

abbrev pub state_of : {Db : Type 0} → Outcome Db → Server Db
state_of (done s ws) = s
state_of (seeks s ws) = s
state_of (offers s) = s
state_of (hangs s) = s
state_of (ended s) = s

-- Holds of a result, if there is one.
abbrev pub Ensures : {A : Type 0} → Option A → (A → Type 0) → Type 0
Ensures none P = Unit {0}
Ensures (some a) P = P a

pub bind-Ensures :
    {A B : Type 0} (o : Option A) (f : A → Option B) (P : B → Type 0)
    → ((a : A) → o ≡ some a → Ensures (f a) P)
    → Ensures (o >>= f) P
bind-Ensures none f P h = tt
bind-Ensures (some a) f P h = h a refl

new_node-named :
    (cfd : ℕ) (m : Msg) (n : Online)
    → new_node cfd m ≡ some n
    → (t : List ℕ) × (c_text n.name ≡ some t)
unfolding new_node
new_node-named cfd m n h =
    let (name, e, f) = >>=-eq-some (c_text m.name) _ h in
    let (copy, g, k) = >>=-eq-some (str_copy (replicate 20 0) name) _ f in
    (
      name,
      subst (λ c. c_text c ≡ some name) (some_name k) (c_text-str_copy (replicate 20 0) m.name e g),
    )
  where
    some_name : {c : List ℕ} → some (record { cfd = cfd; say = 0; name = c }) ≡ some n → c ≡ n.name
    some_name k = ground arith

set_say-named : (ns : List Online) (i v : ℕ) → AreNamed ns → AreNamed (set_say ns i v)
unfolding set_say
set_say-named [] i v h = tt
set_say-named (n ∷ ns) zero v h = h
set_say-named (n ∷ ns) (suc i) v h = (h.0, set_say-named ns i v h.1)

pub if-Ensures :
    {A : Type 0} (b : Bool) (x y : Option A) (P : A → Type 0)
    → Ensures x P
    → Ensures y P
    → Ensures (if b then x else y) P
if-Ensures true x y P a b = a
if-Ensures false x y P a b = b

pub option_cases :
    {A B : Type 0} (P : B → Type 0) (o : Option A) (x : B) (f : A → B)
    → P x
    → ((a : A) → P (f a))
    → P (elim o [ none ↦ x | some a ↦ f a ])
option_cases P none x f p g = p
option_cases P (some a) x f p g = g a

remove_user-named :
    (ns : List Online) (key : List ℕ) → AreNamed ns → Ensures (remove_user ns key) AreNamed
unfolding remove_user
remove_user-named [] key h = tt
remove_user-named (n ∷ ns) key h = bind-Ensures (str_eq n.name key) _ AreNamed λ same e.
    if-Ensures same _ _ AreNamed h.1 (
      bind-Ensures (remove_user ns key) _ AreNamed
        λ ns' r. (h.0, subst (λ o. Ensures o AreNamed) r (remove_user-named ns key h.1)))

module _ (q : Sqlite) (s : Server q.Db) (cfd : ℕ) (junk : List ℕ) (m : Msg)
    (named : AreNamed s.head) where
  -- The users of the state behind an outcome are named.
  abbrev Keeps : Outcome q.Db → Type 0
  Keeps o = AreNamed (state_of o).head

  register-Keeps : Ensures (handle_register q s cfd junk m) Keeps
  unfolding handle_register
  register-Keeps = bind-Ensures (queryname q s.db junk m) _ Keeps λ r e.
      if-Ensures r.1 _ _ Keeps named (bind-Ensures (insert_person q r.0 m) _ Keeps λ db' e'. named)

  login-Keeps : Ensures (handle_login q s cfd junk m) Keeps
  unfolding handle_login insert_link
  login-Keeps = bind-Ensures (querypassword q s.db junk m) _ Keeps λ r e.
      if-Ensures r.1 _ _ Keeps
        (bind-Ensures (new_node cfd m) _ Keeps λ n e'. (new_node-named cfd m n e', named)) named

  say_to-Keeps : Ensures (handle_say_to q s cfd m) Keeps
  unfolding handle_say_to
  say_to-Keeps = bind-Ensures (insert_data_message q s.db m) _ Keeps λ db e.
      bind-Ensures (find_fd s.head m.toname) _ Keeps
        λ to_fd e'. option_cases Keeps to_fd _ _ named (λ fd. named)

  file_to-Keeps : Ensures (handle_file_to q s cfd m) Keeps
  unfolding handle_file_to
  file_to-Keeps = bind-Ensures (find_fd s.head m.toname) _ Keeps λ to_fd e.
      option_cases (λ o. Ensures o Keeps) to_fd _ _ named
        (λ fd. bind-Ensures (take_id s.addr) _ Keeps λ r e'. named)

  say_all-Keeps : Ensures (handle_say_all q s cfd m) Keeps
  unfolding handle_say_all
  say_all-Keeps = bind-Ensures (insert_data_message q s.db m) _ Keeps λ db e.
      bind-Ensures (say_to_all s.head cfd m) _ Keeps
        λ said e'. option_cases Keeps said _ _ named (λ ws. named)

  file_data-Keeps : Ensures (handle_file_data q s cfd m) Keeps
  unfolding handle_file_data
  file_data-Keeps =
      bind-Ensures (find_fd s.head m.toname) _ Keeps
        λ to_fd e. option_cases Keeps to_fd _ _ named (λ fd. named)

  list_users-Keeps : Ensures (handle_list_users q s m) Keeps
  unfolding handle_list_users
  list_users-Keeps = bind-Ensures (users_text s.head) _ Keeps λ text e.
      bind-Ensures (fill_message (cleared s.head m.message) text) _ Keeps λ message e'. named

  login_manager-Keeps : Ensures (handle_login_manager q s cfd junk m) Keeps
  unfolding handle_login_manager insert_link
  login_manager-Keeps = bind-Ensures (query_manager_password q s.db junk m) _ Keeps λ r e.
      let checked = if r.1 then m else record m { action = negsuc 0 } in
      bind-Ensures (new_node cfd checked) _ Keeps λ n e'. (new_node-named cfd checked n e', named)

  mark-Keeps : (key : List ℕ) (v : ℕ) → Ensures (handle_mark q s cfd m key v) Keeps
  unfolding handle_mark
  mark-Keeps key v =
      bind-Ensures (get_online s.head key) _ Keeps
        λ found e. option_cases Keeps found _ _ named (λ i. set_say-named s.head i v named)

  history-Keeps : Ensures (handle_history q s cfd m) Keeps
  unfolding handle_history
  history-Keeps = bind-Ensures (c_text m.name) _ Keeps λ name e.
      bind-Ensures (c_text m.toname) _ Keeps λ toname f.
        let r = q.exec s.db (history_query name toname) in
        bind-Ensures (message_lines name toname r.1) _ Keeps
          λ text g. bind-Ensures (fill_message m.message text) _ Keeps λ message h. named

  logout-Keeps : Ensures (handle_logout q s m) Keeps
  unfolding handle_logout
  logout-Keeps =
      bind-Ensures (remove_user s.head m.name) _ Keeps
        λ head e. subst (λ o. Ensures o AreNamed) e (remove_user-named s.head m.name named)

  request-Keeps : (r : Request) → Ensures (handle_request q s cfd junk m r) Keeps
  unfolding handle_request
  request-Keeps register = register-Keeps
  request-Keeps login = login-Keeps
  request-Keeps say_to = say_to-Keeps
  request-Keeps file_to = file_to-Keeps
  request-Keeps say_all = say_all-Keeps
  request-Keeps file_data = file_data-Keeps
  request-Keeps file_socket = named
  request-Keeps list_users = list_users-Keeps
  request-Keeps login_manager = login_manager-Keeps
  request-Keeps mute = mark-Keeps m.toname 1
  request-Keeps unmute = mark-Keeps m.name 0
  request-Keeps history = history-Keeps
  request-Keeps logout = logout-Keeps
  request-Keeps other = named

serve-Ensures :
    (q : Sqlite) (s : Server q.Db) (cfd : ℕ) (junk : List ℕ) (r : Received)
    → AreNamed s.head
    → Ensures (serve q s cfd junk r) (λ o. AreNamed (state_of o).head)
unfolding serve
serve-Ensures q s cfd junk closed named = named
serve-Ensures q s cfd junk failed named =
    request-Keeps q s cfd junk zeroed named (request_of zeroed.action)
serve-Ensures q s cfd junk (got m) named = request-Keeps q s cfd junk m named (request_of m.action)

-- Whatever arrives at a connection: if the round of `thread_read` meets no undefined behaviour, the
-- names in the list of users are texts behind it, as they were before.
pub serve-AreNamed :
    (q : Sqlite) (s : Server q.Db) (cfd : ℕ) (junk : List ℕ) (r : Received) {o : Outcome q.Db}
    → AreNamed s.head
    → serve q s cfd junk r ≡ some o
    → AreNamed (state_of o).head
serve-AreNamed q s cfd junk r named h =
    subst (λ x. Ensures x (λ p. AreNamed (state_of p).head)) h (serve-Ensures q s cfd junk r named)
