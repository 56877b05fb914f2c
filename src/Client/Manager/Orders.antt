-- ===== src/Client/Manager/Orders.antt =====
-- The manager's orders, from the client's `all_manager` to the server's cases 8 and -8
-- (a_cat/client/work/work.c and a_cat/server/work/work.c).
use linux_cat.Common.{
  ℕ, ◌<◌, ◌≡◌, refl, sym, ap, ◌∙◌, pos, negsuc, Bool, true, false, List, [], ◌∷◌, Option, some,
  length, inl, inr, codes, if◌then◌else◌, Bool-cases,
}
use linux_cat.Memory.{c_text, bytes_eq}
use linux_cat.Memory.Laws.{bytes_eq_iff}
use linux_cat.Message.{Msg}
use linux_cat.Server.Online.{Online}
use linux_cat.Server.Online.Laws.{AreNamed, sessions, mark_top}
use linux_cat.Server.Accounts.{Sqlite}
use linux_cat.Server.Accounts.Passwords.{IsText}
use linux_cat.Server.State.{Server, Outcome, done, request_of}
use linux_cat.Server.Handler.{handle_request}
use linux_cat.Server.Handler.Safety.{state_of}
use linux_cat.Server.Handler.Chat.{Marks, handle_mark_lem}
use linux_cat.Client.Screens.{writes}
use linux_cat.Client.Screens.Chatting.{in_array, c_text-in_array}
use linux_cat.Client.Manager.{Desk, ordering, manager_run, bans_and_frees}

-- The newest session of `k` has the mark `v`, and nothing else has changed.
abbrev pub IsMarked : List ℕ → ℕ → List Online → List Online → Type 0
IsMarked k v head head' =
    (j : List ℕ)
    → sessions j head' ≡ (if bytes_eq k j then mark_top v (sessions k head) else sessions j head)

Marks-IsMarked :
    {Db : Type 0} {s : Server Db} {cfd : ℕ} {m : Msg} (k : List ℕ) (v : ℕ)
    {out : Option (Outcome Db)}
    → Marks s cfd m k v out
    → (o : Outcome Db) × (out ≡ some o) × IsMarked k v s.head (state_of o).head
Marks-IsMarked {s = s} k v (inl (empty, e)) = (
  done s _,
  e,
  λ j. elim (Bool-cases (bytes_eq k j)) [
    | inl same ↦
        let j_is = (bytes_eq_iff k j).0 same in
        rw (same, empty) (sym (ap (λ x. sessions x s.head) j_is) ∙ empty)
    | inr other ↦ rw other refl
  ],
)
Marks-IsMarked {s = s} k v (inr (head, e, named, each)) =
    (done (record s { head = head }) _, e, each)

-- Let the names in the list of users be texts, let the manager's message have a text as its name, and
-- let the name typed be a text of fewer than 20 bytes. From the order prompt, "unable" and a name send
-- just one message, on which the server bans the newest session of that name and changes no
-- other. "capable" and a name also send one message, but on it the server frees the newest session of
-- the manager's own name, and changes no session of any other name, the one typed included.
pub orders_reach_server :
    (q : Sqlite) (s : Server q.Db) (cfd : ℕ) (junk : List ℕ) (d : Desk) (ban : Bool)
    (own name : List ℕ)
    → AreNamed s.head
    → d.order ≡ ordering
    → c_text d.pmsg.name ≡ some own
    → IsText name
    → length name < 20
    → (m : Msg) × (o : Outcome q.Db) × (manager_run d
          ((if ban then codes "unable" else codes "capable") ∷ name ∷ [])
        ≡ some (record { order = ordering; pmsg = m }, writes m ∷ []))
      × (handle_request q s cfd junk m (request_of m.action) ≡ some o)
      × IsMarked (if ban then name else own) (if ban then 1 else 0) s.head (state_of o).head
unfolding handle_request request_of
orders_reach_server q s cfd junk d true own name named at_prompt own_is clean short =
    let m : Msg = record d.pmsg {
      message = in_array 1024 (codes "unable");
      action = pos 8;
      toname = in_array 20 name;
    } in
    let (o, e, marked) =
      Marks-IsMarked name 1
        (handle_mark_lem q s cfd junk m named m.toname 1 (c_text-in_array name clean short)) in
    (m, o, bans_and_frees d true name at_prompt short, e, marked)
orders_reach_server q s cfd junk d false own name named at_prompt own_is clean short =
    let m : Msg = record d.pmsg {
      message = in_array 1024 (codes "capable");
      action = negsuc 7;
      toname = in_array 20 name;
    } in
    let (o, e, marked) =
      Marks-IsMarked own 0 (handle_mark_lem q s cfd junk m named m.name 0 own_is) in
    (m, o, bans_and_frees d false name at_prompt short, e, marked)
