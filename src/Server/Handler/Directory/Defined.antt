-- ===== src/Server/Handler/Directory/Defined.antt =====
-- The requests on which the server meets no undefined behaviour, whatever its list of users and its
-- database (`thread_read` of a_cat/server/work/work.c).
use linux_cat.Common.{
  ℕ, ◌≡◌, refl, Bool, true, false, List, [], ◌∷◌, ◌++◌, Option, none, some, arith, ◌∙◌,
}
use linux_cat.Message.{Msg}
use linux_cat.Server.Online.{Write}
use linux_cat.Server.Online.Laws.{AreNamed}
use linux_cat.Server.Accounts.{Sqlite}
use linux_cat.Server.State.{
  Server, Outcome, Received, closed, failed, got, Request, register, login, say_to, file_to,
  say_all, file_data, file_socket, list_users, login_manager, mute, unmute, history, logout, other,
  request_of,
}
use linux_cat.Server.Handler.{serve}
use linux_cat.Server.Handler.Safety.{state_of, serve-AreNamed}
use linux_cat.Server.Handler.Directory.{Directory, Effect, view, answer, is_local, Words}
use linux_cat.Server.Handler.Directory.Refines.{seen, Says}
use linux_cat.Server.Handler.Directory.Runs.{
  Said, server_run, IsLocal, serve-arrive, arrive, writes_of,
}

-- The requests that read no row of the database into an array, walk no text longer than a name and
-- take no id.
abbrev pub is_sure : Request → Bool
is_sure say_to = true
is_sure file_data = true
is_sure file_socket = true
is_sure mute = true
is_sure unmute = true
is_sure logout = true
is_sure other = true
is_sure _ = false

abbrev pub IsSure : Received → Words → Type 0
IsSure closed w = Unit {0}
IsSure failed w = ⊥
IsSure (got m) w = Says m w × (is_sure (request_of m.action) ≡ true)

abbrev pub AllSure : List Said → Type 0
AllSure [] = Unit {0}
AllSure (e ∷ es) = IsSure e.what e.words × AllSure es

sure-local : (r : Request) → is_sure r ≡ true → is_local r ≡ true
sure-local say_all h = absurd (ground (arith, h))
sure-local list_users h = absurd (ground (arith, h))
sure-local _ h = refl

sure_answer :
    (q : Sqlite) (d : Directory q.Db) (cfd : ℕ) (junk : List ℕ) (m : Msg) (w : Words) (r : Request)
    → is_sure r ≡ true
    → (f : Effect q.Db) × (answer q d cfd junk m w r ≡ some f)
sure_answer q d cfd junk m w say_to h = (_, refl)
sure_answer q d cfd junk m w file_data h = (_, refl)
sure_answer q d cfd junk m w file_socket h = (_, refl)
sure_answer q d cfd junk m w mute h = (_, refl)
sure_answer q d cfd junk m w unmute h = (_, refl)
sure_answer q d cfd junk m w logout h = (_, refl)
sure_answer q d cfd junk m w other h = (_, refl)
sure_answer q d cfd junk m w register h = absurd (ground (arith, h))
sure_answer q d cfd junk m w login h = absurd (ground (arith, h))
sure_answer q d cfd junk m w file_to h = absurd (ground (arith, h))
sure_answer q d cfd junk m w say_all h = absurd (ground (arith, h))
sure_answer q d cfd junk m w list_users h = absurd (ground (arith, h))
sure_answer q d cfd junk m w login_manager h = absurd (ground (arith, h))
sure_answer q d cfd junk m w history h = absurd (ground (arith, h))

sure-IsLocal : (r : Received) (w : Words) → IsSure r w → IsLocal r w
sure-IsLocal closed w h = tt
sure-IsLocal failed w h = elim h [ ]
sure-IsLocal (got m) w (says, h) = (says, sure-local (request_of m.action) h)

sure_arrival :
    (q : Sqlite) (d : Directory q.Db) (cfd : ℕ) (junk : List ℕ) (w : Words) (r : Received)
    → IsSure r w
    → (f : Effect q.Db) × (arrive q d cfd junk w r ≡ some f)
sure_arrival q d cfd junk w closed h = (_, refl)
sure_arrival q d cfd junk w failed h = elim h [ ]
sure_arrival q d cfd junk w (got m) (says, h) = sure_answer q d cfd junk m w (request_of m.action) h

-- What the server answers, seen from the directory, is an answer of the server.
seen-some :
    {Db : Type 0} (o : Option (Outcome Db)) {f : Effect Db}
    → seen o ≡ some f
    → (x : Outcome Db) × (o ≡ some x)
seen-some none h = ground (arith, h)
seen-some (some x) h = (x, refl)

sure_round :
    (q : Sqlite) (s : Server q.Db) (cfd : ℕ) (junk : List ℕ) (w : Words) (r : Received)
    → AreNamed s.head
    → IsSure r w
    → (o : Outcome q.Db) × (serve q s cfd junk r ≡ some o)
sure_round q s cfd junk w r named h =
    let meets = serve-arrive q s cfd junk w r named (sure-IsLocal r w h) in
    let (f, e) = sure_arrival q (view s) cfd junk w r h in
    seen-some (serve q s cfd junk r) (meets ∙ e)

-- Let the names in the list of users be texts. Take any sequence of closings and of messages, from any
-- connections, that ask for a private message, a block of a file, a socket for one, a ban or its end,
-- a logout or nothing that the switch knows, and whose texts end in their arrays with a name of fewer
-- than 20 bytes. Whatever the database answers, each round of the switch ends without undefined behaviour (for a
-- block or a socket of a file, up to the search for its partner), and the names in the list of users
-- are texts behind them all.
pub server_run_defined :
    (q : Sqlite) (s : Server q.Db) (es : List Said)
    → AreNamed s.head
    → AllSure es
    → (t : Server q.Db) × (ws : List Write) × (server_run q s es ≡ some (t, ws)) × AreNamed t.head
server_run_defined q s [] named h = (s, [], refl, named)
server_run_defined q s (e ∷ es) named (sure, h) =
    let (o, served) = sure_round q s e.who e.junk e.words e.what named sure in
    let named' = serve-AreNamed q s e.who e.junk e.what named served in
    let (t, ws, ran, last) = server_run_defined q (state_of o) es named' h in
    (t, writes_of o ++ ws, rw (served, ran) refl, last)
