-- ===== src/Server/Handler/FileIds/Runs.antt =====
-- The ids of file transfers (`addr` of a_cat/server/work/work.c) over a whole run of the server.
use linux_cat.Common.{
  ℕ, zero, suc, ◌+◌, ◌≡◌, refl, sym, ◌∙◌, ap, ap₂, negsuc, List, [], ◌∷◌, ◌++◌, Option, none, some,
  arith, subst, Bool-cases, inl, inr,
}
use linux_cat.Memory.{c_text}
use linux_cat.Message.{Msg, zeroed}
use linux_cat.Server.Online.{Write}
use linux_cat.Server.Accounts.{Sqlite}
use linux_cat.Server.State.{Server, Outcome, done, Received, closed, failed, got, request_of, reply}
use linux_cat.Server.Handler.{handle_file_to, handle_request, serve}
use linux_cat.Server.Handler.Safety.{state_of, serve-AreNamed, Ensures, bind-Ensures}
use linux_cat.Server.Handler.Directory.Runs.{Said, server_run, writes_of}
use linux_cat.Server.Handler.FileIds.{table, take_id-full, handle_file_to_lem}
use linux_cat.Server.Handler.FileIds.Offered.{
  is_offer, offered, ids, Offers, offered-append, ids_append, offer_other,
}
use linux_cat.Server.Handler.FileIds.Rounds.{quiet, request-Keeps}
use linux_cat.Server.Online.Laws.{AreNamed, sessions, top_fd, find_fd_lem}

serve-Offers :
    (q : Sqlite) (s : Server q.Db) (cfd : ℕ) (junk : List ℕ) (r : Received) (k n : ℕ)
    → s.addr ≡ table k n
    → Ensures (serve q s cfd junk r) (λ o. Offers k n (state_of o).addr (offered (writes_of o)))
unfolding serve handle_request
serve-Offers q s cfd junk closed k n sofar = quiet q s cfd junk zeroed k n sofar [] refl
serve-Offers q s cfd junk failed k n sofar =
    request-Keeps q s cfd junk zeroed k n sofar refl (request_of zeroed.action)
serve-Offers q s cfd junk (got m) k n sofar = elim (Bool-cases (is_offer m.action)) [
  | inl offer ↦
      subst
        (λ r.
          Ensures (handle_request q s cfd junk m r)
            (λ o. Offers k n (state_of o).addr (offered (writes_of o))))
        (sym (offer_other m.action offer)) (quiet q s cfd junk m k n sofar [] refl)
  | inr plain ↦ request-Keeps q s cfd junk m k n sofar plain (request_of m.action)
]

run-Offers :
    (q : Sqlite) (s : Server q.Db) (es : List Said) (k n : ℕ)
    → s.addr ≡ table k n
    → Ensures (server_run q s es) (λ r. Offers k n r.0.addr (offered r.1))
run-Offers q s [] k n sofar = quiet q s 0 [] zeroed k n sofar [] refl
run-Offers q s (e ∷ es) k n sofar = bind-Ensures (serve q s e.who e.junk e.what) _ _ λ o served.
    let (j, l, sum, addr, offs) =
      subst (λ x. Ensures x (λ o. Offers k n (state_of o).addr (offered (writes_of o)))) served
        (serve-Offers q s e.who e.junk e.what k n sofar) in
    bind-Ensures (server_run q (state_of o) es) _ _ λ r ran.
      let (j', l', sum', addr', offs') =
        subst (λ x. Ensures x (λ r. Offers (j + k) l r.0.addr (offered r.1))) ran
          (run-Offers q (state_of o) es (j + k) l addr) in
      (
        j + j',
        l',
        omega (arith, sum, sum'),
        addr' ∙ ap (λ x. table x l') {x = j' + (j + k)} (omega arith),
        offered-append (writes_of o) r.1 ∙ ap₂ (◌++◌) offs offs' ∙ ids_append k j j',
      )

-- The users stay texts over a run.
run-AreNamed :
    (q : Sqlite) (s : Server q.Db) (es : List Said)
    → AreNamed s.head
    → Ensures (server_run q s es) (λ r. AreNamed r.0.head)
run-AreNamed q s [] named = named
run-AreNamed q s (e ∷ es) named = bind-Ensures (serve q s e.who e.junk e.what) _ _ λ o served.
    let named' = serve-AreNamed q s e.who e.junk e.what named served in
    bind-Ensures (server_run q (state_of o) es) _ _ λ r ran.
      subst (λ x. Ensures x (λ r. AreNamed r.0.head)) ran (run-AreNamed q (state_of o) es named')

-- What a request for a file to `fd` gets when `i` ids are taken and `r` are free: the id `i` for both
-- sides, or a read past the end of `addr`.
abbrev pub grant : {Db : Type 0} → Server Db → ℕ → ℕ → Msg → ℕ → ℕ → Option (Outcome Db)
grant t cfd fd m i zero = none
grant t cfd fd m i (suc r) = some (
    done (record t { addr = table (suc i) r })
      (reply cfd (record m { sfile_id = i })
        ++ reply fd (record m { sfile_id = i; action = negsuc 2 })))

handle_file_to-grant :
    (q : Sqlite) (t : Server q.Db) (cfd fd : ℕ) (m : Msg) {to : List ℕ} (i r : ℕ)
    → c_text m.toname ≡ some to
    → AreNamed t.head
    → top_fd (sessions to t.head) ≡ some fd
    → t.addr ≡ table i r
    → handle_file_to q t cfd m ≡ grant t cfd fd m i r
unfolding handle_file_to
handle_file_to-grant q t cfd fd m i zero to_is named top free =
    rw (find_fd_lem t.head m.toname named to_is, top, free, take_id-full i) refl
handle_file_to-grant q t cfd fd m i (suc r) to_is named top free =
    handle_file_to_lem q t cfd fd m i r to_is named top free

-- Let the names in the list of users be texts, with the first `k` ids taken and `n` free. Whatever
-- messages, closings and failures of `recv` the server goes through without undefined behaviour, from
-- any connections: the messages written with the label -3 carry the ids `k`, `k + 1` and so on, each
-- once, and no id is ever free again. So behind such a run with `j` of them, a request for a file to a
-- user online gets the id `j + k` as long as `j` is below `n`, and reads past the end of `addr` when
-- it is `n`.
pub ids_over_run :
    (q : Sqlite) (s : Server q.Db) (es : List Said) (k n cfd fd : ℕ) (m : Msg) {t : Server q.Db}
    {ws : List Write} {to : List ℕ}
    → s.addr ≡ table k n
    → AreNamed s.head
    → server_run q s es ≡ some (t, ws)
    → c_text m.toname ≡ some to
    → top_fd (sessions to t.head) ≡ some fd
    → (j : ℕ) × (r : ℕ) × (j + r ≡ n)
      × (offered ws ≡ ids k j)
      × (handle_file_to q t cfd m ≡ grant t cfd fd m (j + k) r)
ids_over_run q s es k n cfd fd m {t = t} sofar named ran to_is top =
    let named' = subst (λ x. Ensures x (λ r. AreNamed r.0.head)) ran (run-AreNamed q s es named) in
    let (j, r, sum, addr, offs) =
      subst (λ x. Ensures x (λ r. Offers k n r.0.addr (offered r.1))) ran
        (run-Offers q s es k n sofar) in
    (j, r, sum, offs, handle_file_to-grant q t cfd fd m (j + k) r to_is named' top addr)
