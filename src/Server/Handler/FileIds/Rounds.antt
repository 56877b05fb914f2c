-- ===== src/Server/Handler/FileIds/Rounds.antt =====
-- The ids of file transfers (`addr` of a_cat/server/work/work.c) in one round of `thread_read`.
use linux_cat.Common.{
  ℕ, zero, suc, ◌≡◌, refl, sym, ◌∙◌, ap, ◌==◌, negsuc, false, List, [], ◌∷◌, ◌++◌, Option, none,
  some, if◌then◌else◌, arith, ◌>>=◌, >>=-eq-some, subst,
}
use linux_cat.Memory.{c_text, str_eq}
use linux_cat.Message.{Msg}
use linux_cat.Server.Online.{Online, Write, find_fd, get_online, remove_user}
use linux_cat.Server.Accounts.{
  Sqlite, queryname, querypassword, query_manager_password, insert_person, insert_data_message,
}
use linux_cat.Server.Texts.{users_text, fill_message, cleared, message_lines, history_query}
use linux_cat.Server.State.{
  Server, Outcome, done, hangs, Request, register, login, say_to, file_to, say_all, file_data,
  file_socket, list_users, login_manager, mute, unmute, history, logout, other, reply, new_node,
  take_id, say_to_all,
}
use linux_cat.Server.Handler.{
  handle_register, handle_login, handle_say_to, handle_file_to, handle_say_all, handle_file_data,
  handle_list_users, handle_login_manager, handle_mark, handle_history, handle_logout,
  handle_request,
}
use linux_cat.Server.Handler.Safety.{state_of, Ensures, bind-Ensures, if-Ensures, option_cases}
use linux_cat.Server.Handler.Directory.Runs.{writes_of}
use linux_cat.Server.Handler.FileIds.Offered.{
  offered, is_offer, Offers, offered_plain, offered-to_all, either_plain,
}
use linux_cat.Server.Handler.FileIds.{table, take_id-table, take_id-full}

module _ (q : Sqlite) (s : Server q.Db) (cfd : ℕ) (junk : List ℕ) (m : Msg) (k n : ℕ)
    (sofar : s.addr ≡ table k n) where
  -- What a round keeps of the ids.
  abbrev Keeps : Outcome q.Db → Type 0
  Keeps o = Offers k n (state_of o).addr (offered (writes_of o))

  pub quiet : (l : List ℕ) → l ≡ [] → Offers k n s.addr l
  quiet l h = (0, n, omega arith, sofar ∙ ap (λ x. table x n) (omega arith), h)

  module _ (plain : is_offer m.action ≡ false) where
    same : (fd : ℕ) (m' : Msg) → m'.action ≡ m.action → Offers k n s.addr (offered (reply fd m'))
    same fd m' e =
        quiet (offered (reply fd m'))
          (offered_plain m'.action m'.sfile_id [] (ap is_offer e ∙ plain) refl)

    register-Keeps : Ensures (handle_register q s cfd junk m) Keeps
    unfolding handle_register
    register-Keeps = bind-Ensures (queryname q s.db junk m) _ Keeps λ r e.
        if-Ensures r.1 _ _ Keeps (quiet _ refl)
          (bind-Ensures (insert_person q r.0 m) _ Keeps λ db' e'. quiet [] refl)

    login-Keeps : Ensures (handle_login q s cfd junk m) Keeps
    unfolding handle_login
    login-Keeps = bind-Ensures (querypassword q s.db junk m) _ Keeps λ r e.
        if-Ensures r.1 _ _ Keeps (bind-Ensures (new_node cfd m) _ Keeps λ node e'. same cfd m refl)
          (quiet _ refl)

    say_to-Keeps : Ensures (handle_say_to q s cfd m) Keeps
    unfolding handle_say_to
    say_to-Keeps = bind-Ensures (insert_data_message q s.db m) _ Keeps λ db e.
        bind-Ensures (find_fd s.head m.toname) _ Keeps
          λ to_fd e'. option_cases Keeps to_fd _ _ (quiet _ refl) (λ fd. same fd m refl)

    -- Case 4 writes the message as it came, or under the label 7.
    said_plain :
        (ns : List Online) (ws : List Write)
        → say_to_all ns cfd m ≡ some (some ws)
        → offered ws ≡ []
    unfolding say_to_all
    said_plain [] ws h = ground arith
    said_plain (n ∷ ns) ws h =
        let (same_name, e, f) = >>=-eq-some (str_eq n.name m.name) _ h in
        either_plain same_name (n.say == 1) _ _ refl (offered-to_all (n ∷ ns) m plain) f

    said-Keeps :
        (db : q.Db) (said : Option (List Write))
        → say_to_all s.head cfd m ≡ some said
        → Keeps (elim said [
          | none ↦ hangs (record s { db = db })
          | some ws ↦ done (record s { db = db }) ws
        ])
    said-Keeps db none h = quiet _ refl
    said-Keeps db (some ws) h = quiet _ (said_plain s.head ws h)

    say_all-Keeps : Ensures (handle_say_all q s cfd m) Keeps
    unfolding handle_say_all
    say_all-Keeps =
        bind-Ensures (insert_data_message q s.db m) _ Keeps
          λ db e. bind-Ensures (say_to_all s.head cfd m) _ Keeps λ said e'. said-Keeps db said e'

    file_data-Keeps : Ensures (handle_file_data q s cfd m) Keeps
    unfolding handle_file_data
    file_data-Keeps =
        bind-Ensures (find_fd s.head m.toname) _ Keeps
          λ to_fd e. option_cases Keeps to_fd _ _ (quiet _ refl) (λ fd. same fd m refl)

    list_users-Keeps : Ensures (handle_list_users q s m) Keeps
    unfolding handle_list_users
    list_users-Keeps = bind-Ensures (users_text s.head) _ Keeps λ text e.
        bind-Ensures (fill_message (cleared s.head m.message) text) _ Keeps
          λ message e'. quiet _ (offered-to_all s.head _ plain)

    login_manager-Keeps : Ensures (handle_login_manager q s cfd junk m) Keeps
    unfolding handle_login_manager
    login_manager-Keeps = bind-Ensures (query_manager_password q s.db junk m) _ Keeps λ r e.
        bind-Ensures (new_node cfd (if r.1 then m else record m { action = negsuc 0 })) _ Keeps
          λ node e'. quiet _ refl

    mark-Keeps : (key : List ℕ) (v : ℕ) → Ensures (handle_mark q s cfd m key v) Keeps
    unfolding handle_mark
    mark-Keeps key v =
        bind-Ensures (get_online s.head key) _ Keeps
          λ found e. option_cases Keeps found _ _ (quiet _ refl) (λ i. same cfd m refl)

    history-Keeps : Ensures (handle_history q s cfd m) Keeps
    unfolding handle_history
    history-Keeps = bind-Ensures (c_text m.name) _ Keeps λ name e.
        bind-Ensures (c_text m.toname) _ Keeps λ toname f.
          let r = q.exec s.db (history_query name toname) in
          bind-Ensures (message_lines name toname r.1) _ Keeps λ text g.
            bind-Ensures (fill_message m.message text) _ Keeps
              λ message h. same cfd (record m { message = message }) refl

    logout-Keeps : Ensures (handle_logout q s m) Keeps
    unfolding handle_logout
    logout-Keeps = bind-Ensures (remove_user s.head m.name) _ Keeps λ head e. quiet [] refl

    abbrev granted : (fd : ℕ) → ℕ × List ℕ → Outcome q.Db
    granted fd r =
        done (record s { addr = r.1 })
          (reply cfd (record m { sfile_id = r.0 })
            ++ reply fd (record m { sfile_id = r.0; action = negsuc 2 }))

    granted-Keeps :
        (fd : ℕ) (r : ℕ) → r ≡ n → Ensures (take_id s.addr >>= λ x. some (granted fd x)) Keeps
    granted-Keeps fd zero full =
        let none_left = ap take_id (sofar ∙ ap (table k) (sym full)) ∙ take_id-full k in
        subst (λ o. Ensures (o >>= λ x. some (granted fd x)) Keeps) (sym none_left) tt
    granted-Keeps fd (suc r) more =
        let first_free = ap take_id (sofar ∙ ap (table k) (sym more)) ∙ take_id-table k r in
        subst (λ o. Ensures (o >>= λ x. some (granted fd x)) Keeps) (sym first_free)
          (1, r, omega (arith, more), ap (λ x. table x r) {x = suc k} (omega arith), rw plain refl)

    file_to-Keeps : Ensures (handle_file_to q s cfd m) Keeps
    unfolding handle_file_to
    file_to-Keeps = bind-Ensures (find_fd s.head m.toname) _ Keeps λ to_fd e.
        option_cases (λ o. Ensures o Keeps) to_fd _ _ (quiet _ refl) (λ fd. granted-Keeps fd n refl)

    pub request-Keeps : (r : Request) → Ensures (handle_request q s cfd junk m r) Keeps
    unfolding handle_request
    request-Keeps register = register-Keeps
    request-Keeps login = login-Keeps
    request-Keeps say_to = say_to-Keeps
    request-Keeps file_to = file_to-Keeps
    request-Keeps say_all = say_all-Keeps
    request-Keeps file_data = file_data-Keeps
    request-Keeps file_socket = quiet [] refl
    request-Keeps list_users = list_users-Keeps
    request-Keeps login_manager = login_manager-Keeps
    request-Keeps mute = mark-Keeps m.toname 1
    request-Keeps unmute = mark-Keeps m.name 0
    request-Keeps history = history-Keeps
    request-Keeps logout = logout-Keeps
    request-Keeps other = quiet [] refl
