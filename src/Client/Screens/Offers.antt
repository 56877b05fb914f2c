-- ===== src/Client/Screens/Offers.antt =====
-- The offer of a file, from the name that its sender types over the server's case 3 to the blocks and to
-- the table of the receiver (a_cat/server/work/work.c and a_cat/client/work/work.c).
use linux_cat.Common.{
  ℕ, suc, ◌<◌, ◌≤◌, ◌≡◌, ◌⊎◌, inl, inr, refl, pos, negsuc, true, false, List, [], ◌∷◌, ◌++◌, Option,
  none, some, ltb, if◌then◌else◌, set, length, get_elem?, arith, dec_lt, ◌==◌, ℕ_discrete, subst,
  get_elem?-set_self, get_elem?-set_ne, sym,
}
use linux_cat.Memory.{c_text}
use linux_cat.Memory.Laws.{str_copy_fits}
use linux_cat.Message.{Msg}
use linux_cat.Server.Online.Laws.{AreNamed, sessions, top_fd}
use linux_cat.Server.Accounts.{Sqlite}
use linux_cat.Server.State.{Server, done, reply, request_of}
use linux_cat.Server.Handler.{handle_request}
use linux_cat.Server.Handler.FileIds.{table, handle_file_to_lem}
use linux_cat.Client.Blocks.{block_count, blocksize, file_blocks}
use linux_cat.Client.Blocks.Tiling.{Tiles, file_blocks-Tiles, length-file_blocks}
use linux_cat.Client.Screens.{
  chat_file, awaits_id, Client, Conn, writes, sends, typed, comes, send_blocks, take_message, step,
  typed_at,
}
use linux_cat.Client.Screens.Transfer.{AreFor, file_blocks-AreFor, offers, id_comes}

-- The offer enters a file of this size and number of blocks under id `k` in the client's table and
-- changes nothing else, or writes past the table's 20 entries.
abbrev pub Enters : Client → Msg → (k size count : ℕ) → Type 0
Enters c offer k size count =
    ((k < 20)
      × (entries : List Conn) × (take_message c offer ≡ some (record c { gconn = entries }, []))
      × ((j : ℕ)
          → get_elem? entries j ≡ (
              if j == k
              then some (record { mapped = size; count = count })
              else get_elem? c.gconn j)))
    ⊎ ((20 ≤ k) × (take_message c offer ≡ none))

get_elem?-set_lem :
    (l : List Conn) (k : ℕ) (v : Conn)
    → k < length l
    → (j : ℕ) → get_elem? (set l k v) j ≡ (if j == k then some v else get_elem? l j)
get_elem?-set_lem l k v h j = elim (ℕ_discrete j k) [
  | yes same ↦
      let is_k : (j == k) ≡ true = ground (arith, same) in
      rw is_k
        (subst (λ i. get_elem? (set l k v) i ≡ some v) (sym same) (get_elem?-set_self l k v h))
  | no other ↦
      let not_k : (j == k) ≡ false = ground (arith, other) in
      rw not_k (get_elem?-set_ne l k j v (λ e. other (sym e)))
]

enters :
    (c : Client) (offer : Msg) (k : ℕ)
    → length c.gconn ≡ 20
    → offer.action ≡ negsuc 2
    → offer.sfile_id ≡ k
    → Enters c offer k offer.filesize offer.count
unfolding take_message
enters c offer k twenty a is_k = elim (dec_lt k 20) [
  | yes p ↦
      let fits : ltb k 20 ≡ true = ground (arith, p) in
      inl (
        p,
        set c.gconn k (record { mapped = offer.filesize; count = offer.count }),
        rw (a, is_k, fits) refl,
        get_elem?-set_lem c.gconn k _ (omega (arith, p, twenty)),
      )
  | no p ↦
      let past : ltb k 20 ≡ false = ground (arith, p) in
      inr (omega (arith, p), rw (a, is_k, past) refl)
]

-- Let a client in a private chat type the name, which fits, of a file that can be opened; let the names in
-- the server's list of users and the chat's partner be texts, the partner be online, and `k` ids be taken, with one
-- free at least; let the receiver's table have its 20 entries. The client announces the file; the server
-- answers it and the partner with one message each. The answer makes the client send blocks that
-- cover the file end to end, under the chat's names and the id `k`; the offer enters the file's size and the number of
-- just those blocks under `k` in the receiver's table if `k` is less than 20, and writes past the table otherwise.
pub offer_reaches_both :
    (q : Sqlite) (s : Server q.Db) (cfd fd : ℕ) (junk : List ℕ) (files : List ℕ → Option ℕ)
    (sender receiver : Client) (name : List ℕ) (size k n : ℕ) {to : List ℕ}
    → sender.place ≡ chat_file
    → length name < length sender.pmsg.filename
    → files name ≡ some size
    → c_text sender.pmsg.toname ≡ some to
    → AreNamed s.head
    → top_fd (sessions to s.head) ≡ some fd
    → s.addr ≡ table k (suc n)
    → length receiver.gconn ≡ 20
    → (head answer offer : Msg) × (waiting after : Client) × (blocks : List Msg) × (step files
          sender
          (typed name)
        ≡ some (waiting, writes head ∷ []))
      × (handle_request q s cfd junk head (request_of head.action)
          ≡ some (done (record s { addr = table (suc k) n }) (reply cfd answer ++ reply fd offer)))
      × (step files waiting (comes answer) ≡ some (after, sends blocks ∷ []))
      × Tiles 0 size blocks
      × AreFor sender.pmsg.name sender.pmsg.toname k blocks
      × Enters receiver offer k size (length blocks)
unfolding step typed_at handle_request request_of send_blocks
offer_reaches_both q s cfd fd junk files sender receiver name size k n at fits opens to_is named top
      free twenty =
    let (filename, copied, _) = str_copy_fits sender.pmsg.filename name fits in
    let head = record sender.pmsg {
      filename = filename;
      action = pos 3;
      filesize = size;
      count = block_count size;
      bs = blocksize;
    } in
    let waiting = record sender { place = awaits_id; pmsg = head } in
    let given = record head { sfile_id = k; offset = 0 } in
    let offer = record head { sfile_id = k; action = negsuc 2 } in
    (
      head,
      record head { sfile_id = k },
      offer,
      waiting,
      (send_blocks (record waiting { sfile_id = k })).0,
      file_blocks given,
      rw (at, offers files sender name size copied opens) refl,
      handle_file_to_lem q s cfd fd head k n to_is named top free,
      id_comes files waiting (record head { sfile_id = k }) refl refl,
      file_blocks-Tiles given,
      file_blocks-AreFor given,
      rw (length-file_blocks given) (enters receiver offer k twenty refl refl),
    )
