-- ===== src/Server/Handler/Directory/Runs.antt =====
-- Messages from any connections, one after the other, against the directory (`thread_read` of
-- a_cat/server/work/work.c).
use linux_cat.Common.{
  ℕ, ◌≡◌, refl, ap, ◌∙◌, sym, fun_ext, true, List, [], ◌∷◌, ◌++◌, Option, some, ◌>>=◌, inl, inr,
  Option-cases,
}
use linux_cat.Message.{zeroed}
use linux_cat.Server.Online.{Write}
use linux_cat.Server.Online.Laws.{AreNamed, sessions}
use linux_cat.Server.Accounts.{Sqlite}
use linux_cat.Server.State.{
  Server, Outcome, done, seeks, offers, hangs, ended, Received, closed, failed, got, request_of,
}
use linux_cat.Server.Handler.{serve}
use linux_cat.Server.Handler.Safety.{state_of, serve-AreNamed}
use linux_cat.Server.Handler.Directory.{
  Directory, Effect, over, view, view_outcome, answer, is_local, Words,
}
use linux_cat.Server.Handler.Directory.Refines.{seen, Says, handle_request-Meets}

-- What `recv` answers at a connection, what the stack of its thread holds, and the texts of the message.
pub record Said : Type 0 where
  pub who : ℕ
  pub junk : List ℕ
  pub what : Received
  pub words : Words

abbrev pub writes_of : {Db : Type 0} → Outcome Db → List Write
writes_of (done s ws) = ws
writes_of (seeks s ws) = ws
writes_of (offers s) = []
writes_of (hangs s) = []
writes_of (ended s) = []

-- The connection is closed, or the message is one that the directory answers, with its texts. A `recv`
-- that fails leaves the zeroed message, whose texts are empty.
abbrev pub IsLocal : Received → Words → Type 0
IsLocal closed w = Unit {0}
IsLocal failed w = Says zeroed w
IsLocal (got m) w = Says m w × (is_local (request_of m.action) ≡ true)

abbrev pub AllLocal : List Said → Type 0
AllLocal [] = Unit {0}
AllLocal (e ∷ es) = IsLocal e.what e.words × AllLocal es

module _ (q : Sqlite) where
  abbrev pub server_run : Server q.Db → List Said → Option (Server q.Db × List Write)
  server_run s [] = some (s, [])
  server_run s (e ∷ es) = serve q s e.who e.junk e.what >>= λ o.
      server_run (state_of o) es >>= λ r. some (r.0, writes_of o ++ r.1)

  abbrev pub arrive : Directory q.Db → ℕ → List ℕ → Words → Received → Option (Effect q.Db)
  arrive d who junk w closed = some (record { after = d; writes = []; way = over })
  arrive d who junk w failed = answer q d who junk zeroed w (request_of zeroed.action)
  arrive d who junk w (got m) = answer q d who junk m w (request_of m.action)

  abbrev pub directory_run : Directory q.Db → List Said → Option (Directory q.Db × List Write)
  directory_run d [] = some (d, [])
  directory_run d (e ∷ es) = arrive d e.who e.junk e.words e.what >>= λ f.
      directory_run f.after es >>= λ r. some (r.0, f.writes ++ r.1)

  -- What the directory sees of a run.
  abbrev pub observed : Server q.Db → List Said → Option (Directory q.Db × List Write)
  observed s es = server_run s es >>= λ r. some (view r.0, r.1)

view_outcome-after : {Db : Type 0} (o : Outcome Db) → (view_outcome o).after ≡ view (state_of o)
view_outcome-after (done s ws) = refl
view_outcome-after (seeks s ws) = refl
view_outcome-after (offers s) = refl
view_outcome-after (hangs s) = refl
view_outcome-after (ended s) = refl

view_outcome-writes : {Db : Type 0} (o : Outcome Db) → (view_outcome o).writes ≡ writes_of o
view_outcome-writes (done s ws) = refl
view_outcome-writes (seeks s ws) = refl
view_outcome-writes (offers s) = refl
view_outcome-writes (hangs s) = refl
view_outcome-writes (ended s) = refl

-- A round of `thread_read` is a step of the directory.
pub serve-arrive :
    (q : Sqlite) (s : Server q.Db) (cfd : ℕ) (junk : List ℕ) (w : Words) (r : Received)
    → AreNamed s.head
    → IsLocal r w
    → seen (serve q s cfd junk r) ≡ arrive q (view s) cfd junk w r
unfolding serve request_of
serve-arrive q s cfd junk w closed named h = refl
serve-arrive q s cfd junk w failed named says =
    handle_request-Meets q s cfd junk zeroed w says named (request_of zeroed.action) refl
serve-arrive q s cfd junk w (got m) named (says, is_one) =
    handle_request-Meets q s cfd junk m w says named (request_of m.action) is_one

-- Let the names in the list of users be texts. Take any sequence of messages, closings and failures of
-- `recv`, from any connections, in which no message asks for a public message or the list of users, and
-- the texts of each message end in their arrays with a name of fewer than 20 bytes. It does to the server what it
-- does to a directory of stacks of sessions: the same messages are written in the same order, the
-- sessions, the taken ids and the database are the same behind it, and the one meets undefined
-- behaviour when the other does.
pub server_run-directory_run :
    (q : Sqlite) (s : Server q.Db) (es : List Said)
    → AreNamed s.head
    → AllLocal es
    → observed q s es ≡ directory_run q (view s) es
server_run-directory_run q s [] named h = refl
server_run-directory_run q s (e ∷ es) named (is_one, h) =
    let meets = serve-arrive q s e.who e.junk e.words e.what named is_one in
    elim (Option-cases (serve q s e.who e.junk e.what)) [
      | inl fault ↦ let fault' = sym meets ∙ ap seen fault in rw (fault, fault') refl
      | inr (o, done_it) ↦
          let done' = sym meets ∙ ap seen done_it in
          let next =
            server_run-directory_run q (state_of o) es
              (serve-AreNamed q s e.who e.junk e.what named done_it) h in
          rw (done_it, done', view_outcome-after o, view_outcome-writes o, ← next)
            (elim (Option-cases (server_run q (state_of o) es)) [
              | inl f ↦ rw f refl
              | inr (r', f) ↦ rw f refl
            ])
    ]

-- Let the names in two lists of users be texts, with the same sessions of each name, the same ids taken
-- and the same database. The order of the users of different names is hidden: any sequence of messages,
-- closings and failures of `recv` that asks for no public message and no list of users, and whose texts
-- end in their arrays with a name of fewer than 20 bytes, is answered by the same messages, and leaves the same sessions of each name,
-- the same ids and the same database, or meets undefined behaviour in both.
pub order_hidden :
    (q : Sqlite) (s s' : Server q.Db) (es : List Said)
    → AreNamed s.head
    → AreNamed s'.head
    → ((k : List ℕ) → sessions k s.head ≡ sessions k s'.head)
    → s.addr ≡ s'.addr
    → s.db ≡ s'.db
    → AllLocal es
    → observed q s es ≡ observed q s' es
order_hidden q s s' es named named' each addr db h =
    server_run-directory_run q s es named h
    ∙ ap (λ d. directory_run q d es) same
    ∙ sym (server_run-directory_run q s' es named' h)
  where
    same : view s ≡ view s'
    same = rw (fun_ext each, addr, db) refl
