-- ===== src/Server/Handler/Directory/Refines.antt =====
-- Each request to the users online is a request to the directory (cases 0 to 3, 5, -5 and 7 to 10 of
-- `thread_read`, a_cat/server/work/work.c).
use linux_cat.Common.{
  ℕ, ◌<◌, ◌≡◌, ◌≢◌, refl, ap, fun_ext, pos, negsuc, true, List, [], ◌∷◌, Option, some, ◌>>=◌,
  length, inl, inr, Option-cases, Bool-cases, arith,
}
use linux_cat.Memory.{c_text}
use linux_cat.Message.{Msg}
use linux_cat.Server.Online.{Write, insert_link}
use linux_cat.Server.Online.Laws.{
  AreNamed, Session, sessions, top_fd, find_fd_lem, remove_user_lem, get_online_lem,
}
use linux_cat.Server.Accounts.{
  Sqlite, queryname, querypassword, query_manager_password, insert_person,
}
use linux_cat.Server.Accounts.Storage.{insert_data_message_lem}
use linux_cat.Server.Texts.{message_lines, fill_message, history_query}
use linux_cat.Server.State.{
  Server, Outcome, done, Request, register, login, say_to, file_to, say_all, file_data, file_socket,
  list_users, login_manager, mute, unmute, history, logout, other, reply, take_id, new_node,
}
use linux_cat.Server.Handler.{
  handle_register, handle_login, handle_say_to, handle_file_to, handle_file_data,
  handle_login_manager, handle_mark, handle_history, handle_logout, handle_request,
}
use linux_cat.Server.Handler.Users.{new_node_lem, Joins-insert_link}
use linux_cat.Server.Handler.Directory.{
  Directory, Effect, view, view_outcome, answers, answer, is_local, Words, push, mark, start_mark,
}

-- What the directory sees of a result.
abbrev pub seen : {Db : Type 0} → Option (Outcome Db) → Option (Effect Db)
seen o = o >>= λ x. some (view_outcome x)

-- The message's texts, of which the name is short enough for a node.
pub record Says (m : Msg) (w : Words) : Type 0 where
  pub name_is : c_text m.name ≡ some w.name
  pub toname_is : c_text m.toname ≡ some w.toname
  pub text_is : c_text m.message ≡ some w.text
  pub short : length w.name < 20

-- Directories with the same stacks.
same_stacks :
    {Db : Type 0} (f g : List ℕ → List Session) (taken : List ℕ) (db : Db) (ws : List Write)
    → ((k : List ℕ) → f k ≡ g k)
    → some (answers (record { stacks = f; taken = taken; base = db }) ws)
      ≡ some (answers (record { stacks = g; taken = taken; base = db }) ws)
same_stacks f g taken db ws each =
    ap (λ h. some (answers (record { stacks = h; taken = taken; base = db }) ws)) (fun_ext each)

start_mark-full :
    {Db : Type 0} (d : Directory Db) (cfd : ℕ) (m : Msg) (name : List ℕ) (v : ℕ) (xs : List Session)
    → xs ≢ []
    → start_mark d cfd m name v xs
      ≡ answers (record d { stacks = mark name v d.stacks }) (reply cfd m)
start_mark-full d cfd m name v [] full = absurd (full refl)
start_mark-full d cfd m name v (x ∷ xs) full = refl

module _ (q : Sqlite) (s : Server q.Db) (cfd : ℕ) (junk : List ℕ) (m : Msg) (w : Words)
    (says : Says m w) (named : AreNamed s.head) where
  abbrev Meets : Request → Option (Outcome q.Db) → Type 0
  Meets r o = seen o ≡ answer q (view s) cfd junk m w r

  register-Meets : Meets register (handle_register q s cfd junk m)
  unfolding handle_register
  register-Meets = elim (Option-cases (queryname q s.db junk m)) [
    | inl e ↦ rw e refl
    | inr (r, e) ↦ elim (Bool-cases r.1) [
      | inl known ↦ rw (e, known) refl
      | inr free ↦ elim (Option-cases (insert_person q r.0 m)) [
        | inl f ↦ rw (e, free, f) refl
        | inr (db, f) ↦ rw (e, free, f) refl
      ]
    ]
  ]

  login-Meets : Meets login (handle_login q s cfd junk m)
  unfolding handle_login
  login-Meets = elim (Option-cases (querypassword q s.db junk m)) [
    | inl e ↦ rw e refl
    | inr (r, e) ↦ elim (Bool-cases r.1) [
      | inl right ↦
          let (n, made, fd, say, n_is) = new_node_lem cfd m says.name_is says.short in
          let (_, each) = Joins-insert_link n s.head cfd fd say n_is named in
          rw (e, right, made) (same_stacks _ _ s.addr r.0 (reply cfd m) each)
      | inr wrong ↦ rw (e, wrong) refl
    ]
  ]

  say_to-Meets : Meets say_to (handle_say_to q s cfd m)
  unfolding handle_say_to
  say_to-Meets =
      rw
        (
          insert_data_message_lem q s.db m says.name_is says.toname_is says.text_is,
          find_fd_lem s.head m.toname named says.toname_is,
        )
        (elim (Option-cases (top_fd (sessions w.toname s.head))) [
          | inl e ↦ rw e refl
          | inr (fd, e) ↦ rw e refl
        ])

  file_to-Meets : Meets file_to (handle_file_to q s cfd m)
  unfolding handle_file_to
  file_to-Meets =
      rw (find_fd_lem s.head m.toname named says.toname_is)
        (elim (Option-cases (top_fd (sessions w.toname s.head))) [
          | inl e ↦ rw e refl
          | inr (fd, e) ↦
              rw e (elim (Option-cases (take_id s.addr)) [
                | inl f ↦ rw f refl
                | inr (r, f) ↦ rw f refl
              ])
        ])

  file_data-Meets : Meets file_data (handle_file_data q s cfd m)
  unfolding handle_file_data
  file_data-Meets =
      rw (find_fd_lem s.head m.toname named says.toname_is)
        (elim (Option-cases (top_fd (sessions w.toname s.head))) [
          | inl e ↦ rw e refl
          | inr (fd, e) ↦ rw e refl
        ])

  logout-Meets : Meets logout (handle_logout q s m)
  unfolding handle_logout
  logout-Meets =
      let (head, r, _, each) = remove_user_lem s.head m.name named says.name_is in
      rw r (same_stacks _ _ s.addr s.db [] each)

  login_manager-Meets : Meets login_manager (handle_login_manager q s cfd junk m)
  unfolding handle_login_manager
  login_manager-Meets = elim (Option-cases (query_manager_password q s.db junk m)) [
    | inl e ↦ rw e refl
    | inr (r, e) ↦ rw e (elim (Bool-cases r.1) [
      | inl right ↦ rw right (joins r.0 m says.name_is)
      | inr wrong ↦ rw wrong (joins r.0 (record m { action = negsuc 0 }) says.name_is)
    ])
  ]
    where
      joins :
          (db : q.Db) (checked : Msg)
          → c_text checked.name ≡ some w.name
          → seen (
              new_node cfd checked >>= λ node. some (
                done
                  (record { head = insert_link node s.head; addr = s.addr; db = db })
                  (reply cfd (record checked { action = pos 1 }))))
            ≡ some (
                answers
                  (record {
                    stacks = push w.name (record { fd = cfd; said = 0 }) (λ k. sessions k s.head);
                    taken = s.addr;
                    base = db;
                  })
                  (reply cfd (record checked { action = pos 1 })))
      joins db checked e =
          let (n, made, fd, say, n_is) = new_node_lem cfd checked e says.short in
          let (_, each) = Joins-insert_link n s.head cfd fd say n_is named in
          rw made (same_stacks _ _ s.addr db (reply cfd (record checked { action = pos 1 })) each)

  handle_mark-Meets :
      (key : List ℕ) (v : ℕ) {k : List ℕ}
      → c_text key ≡ some k
      → seen (handle_mark q s cfd m key v)
        ≡ some (start_mark (view s) cfd m k v (sessions k s.head))
  unfolding handle_mark
  handle_mark-Meets key v {k} e = elim (get_online_lem s.head key v named e) [
    | inl (r, empty) ↦ rw (r, empty) refl
    | inr (i, r, full, _, each) ↦
        rw (r, start_mark-full (view s) cfd m k v (sessions k s.head) full)
          (same_stacks _ _ s.addr s.db (reply cfd m) each)
  ]

  history-Meets : Meets history (handle_history q s cfd m)
  unfolding handle_history
  history-Meets =
      let r = q.exec s.db (history_query w.name w.toname) in
      rw (says.name_is, says.toname_is)
        (elim (Option-cases (message_lines w.name w.toname r.1)) [
          | inl e ↦ rw e refl
          | inr (text, e) ↦ rw e (elim (Option-cases (fill_message m.message text)) [
            | inl f ↦ rw f refl
            | inr (message, f) ↦ rw f refl
          ])
        ])

  -- Let the names in the list of users be texts, and let the message hold texts, of which the name has
  -- fewer than 20 bytes. On every request but a public message and the list of users, the server does
  -- to its list of users what the directory does, writes the same messages to the same sockets, leaves
  -- the thread at the same place, and runs into undefined behaviour when the directory does.
  pub handle_request-Meets :
      (r : Request) → is_local r ≡ true → Meets r (handle_request q s cfd junk m r)
  unfolding handle_request
  handle_request-Meets register h = register-Meets
  handle_request-Meets login h = login-Meets
  handle_request-Meets say_to h = say_to-Meets
  handle_request-Meets file_to h = file_to-Meets
  handle_request-Meets say_all h = absurd (ground (arith, h))
  handle_request-Meets file_data h = file_data-Meets
  handle_request-Meets file_socket h = refl
  handle_request-Meets list_users h = absurd (ground (arith, h))
  handle_request-Meets login_manager h = login_manager-Meets
  handle_request-Meets mute h = handle_mark-Meets m.toname 1 says.toname_is
  handle_request-Meets unmute h = handle_mark-Meets m.name 0 says.name_is
  handle_request-Meets history h = history-Meets
  handle_request-Meets logout h = logout-Meets
  handle_request-Meets other h = refl
