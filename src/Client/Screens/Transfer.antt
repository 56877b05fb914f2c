-- ===== src/Client/Screens/Transfer.antt =====
-- A file sent from a private chat: `chat_user` and `send_file` of a_cat/client/work/work.c, from the
-- command to the blocks.
use linux_cat.Common.{
  ℕ, zero, suc, ◌+◌, ◌-◌, ◌<◌, ◌≡◌, refl, pos, List, [], ◌∷◌, ◌++◌, Option, some, length, codes,
  arith, Bool-cases, inl, inr, ◌==◌,
}
use linux_cat.Memory.{str_copy, bytes_eq}
use linux_cat.Memory.Laws.{str_copy_fits}
use linux_cat.Message.{Msg}
use linux_cat.Client.Blocks.{
  block_count, blocksize, last_bs, full_blocks, new_fb_head, last_block, file_blocks,
}
use linux_cat.Client.Blocks.Tiling.{Tiles, file_blocks-Tiles, length-file_blocks}
use linux_cat.Client.Screens.{
  chat, chat_file, awaits_id, Client, writes, sends, typed, comes, offer_file, send_blocks,
  typed_at, take_message, step, run, chat_user,
}
use linux_cat.Client.Screens.Chatting.{in_array, str_copy-in_array}

-- Blocks with these names and this id.
abbrev pub AreFor : List ℕ → List ℕ → ℕ → List Msg → Type 0
AreFor name toname id [] = Unit {0}
AreFor name toname id (b ∷ bs) =
    ((b.name ≡ name) × (b.toname ≡ toname) × (b.sfile_id ≡ id)) × AreFor name toname id bs

AreFor-append :
    (name toname : List ℕ) (id : ℕ) (a b : List Msg)
    → AreFor name toname id a
    → AreFor name toname id b
    → AreFor name toname id (a ++ b)
AreFor-append name toname id [] b h k = k
AreFor-append name toname id (x ∷ a) b h k = (h.0, AreFor-append name toname id a b h.1 k)

module _ (name toname : List ℕ) (id : ℕ) where
  full_blocks-AreFor :
      (n : ℕ) (p : Msg)
      → p.name ≡ name
      → p.toname ≡ toname
      → p.sfile_id ≡ id
      → AreFor name toname id (full_blocks n p).0
        × ((full_blocks n p).1.name ≡ name)
        × ((full_blocks n p).1.toname ≡ toname)
        × ((full_blocks n p).1.sfile_id ≡ id)
  unfolding full_blocks new_fb_head
  full_blocks-AreFor zero p h k l = (tt, h, k, l)
  full_blocks-AreFor (suc n) p h k l =
      let rest = full_blocks-AreFor n (record p { offset = p.offset + blocksize }) h k l in
      (((h, k, l), rest.0), rest.1, rest.2, rest.3)

pub file_blocks-AreFor : (m : Msg) → AreFor m.name m.toname m.sfile_id (file_blocks m)
unfolding file_blocks last_block
file_blocks-AreFor m =
    let start = record m { offset = 0 } in
    elim (Bool-cases (last_bs m.filesize == 0)) [
      | inl even ↦
          rw even
            (full_blocks-AreFor m.name m.toname m.sfile_id (block_count m.filesize) start refl refl
              refl).0
      | inr odd ↦
          let n = block_count m.filesize - 1 in
          let full = full_blocks-AreFor m.name m.toname m.sfile_id n start refl refl refl in
          let last = last_block (full_blocks n start).1 (last_bs m.filesize) in
          rw odd (
            AreFor-append m.name m.toname m.sfile_id (full_blocks n start).0 (last ∷ []) full.0
              ((full.1, full.2, full.3), tt))
    ]

pub offers :
    (files : List ℕ → Option ℕ) (c : Client) (name : List ℕ) (size : ℕ) {filename : List ℕ}
    → str_copy c.pmsg.filename name ≡ some filename
    → files name ≡ some size
    → let m = record c.pmsg {
      filename = filename;
      action = pos 3;
      filesize = size;
      count = block_count size;
      bs = blocksize;
    } in
      offer_file files c name ≡ some (record c { place = awaits_id; pmsg = m }, writes m ∷ [])
unfolding offer_file
offers files c name size e f = rw (e, f) refl

asks_name :
    (files : List ℕ → Option ℕ) (c : Client)
    → c.place ≡ chat
    → step files c (typed (codes "sfile"))
      ≡ some (
        record c {
          place = chat_file;
          pmsg = record c.pmsg { message = in_array 1024 (codes "sfile") };
        },
        [],
      )
unfolding step typed_at chat_user
asks_name files c e =
    rw e (rw (str_copy-in_array 1024 (codes "sfile") (omega arith)) (unfold bytes_eq in refl))

pub id_comes :
    (files : List ℕ → Option ℕ) (c : Client) (answer : Msg)
    → c.place ≡ awaits_id
    → answer.action ≡ pos 3
    → step files c (comes answer) ≡ some (send_blocks (record c { sfile_id = answer.sfile_id }))
unfolding step take_message
id_comes files c answer e a = rw e (rw a refl)

-- From a private chat: "sfile", the name of a file that can be opened and whose name fits, and the
-- server's answer with action 3. The client announces the file with its size and the number of its
-- blocks, and then sends just that many blocks, which cover the file end to end in its order and carry
-- the chat's names and the id of the answer; then it is in the chat again.
pub transfer_session :
    (files : List ℕ → Option ℕ) (c : Client) (name : List ℕ) (size : ℕ) (answer : Msg)
    → c.place ≡ chat
    → length name < length c.pmsg.filename
    → files name ≡ some size
    → answer.action ≡ pos 3
    → (after : Client) × (head : Msg) × (blocks : List Msg) × (run files c
          (typed (codes "sfile") ∷ typed name ∷ comes answer ∷ [])
        ≡ some (after, writes head ∷ sends blocks ∷ []))
      × (after.place ≡ chat)
      × (head.filesize ≡ size)
      × (length blocks ≡ head.count)
      × Tiles 0 size blocks
      × AreFor c.pmsg.name c.pmsg.toname answer.sfile_id blocks
unfolding run step typed_at send_blocks
transfer_session files c name size answer e fits f a =
    let (filename, copied, _) = str_copy_fits c.pmsg.filename name fits in
    let heard = record c.pmsg { message = in_array 1024 (codes "sfile") } in
    let head = record heard {
      filename = filename;
      action = pos 3;
      filesize = size;
      count = block_count size;
      bs = blocksize;
    } in
    let asked = record c { place = chat_file; pmsg = heard } in
    let waiting = record c { place = awaits_id; pmsg = head } in
    let given = record head { sfile_id = answer.sfile_id; offset = 0 } in
    (
      (send_blocks (record waiting { sfile_id = answer.sfile_id })).0,
      head,
      file_blocks given,
      rw
          (
            asks_name files c e,
            offers files asked name size copied f,
            id_comes files waiting answer refl a,
          )
          refl,
      refl,
      refl,
      length-file_blocks given,
      file_blocks-Tiles given,
      file_blocks-AreFor given,
    )
