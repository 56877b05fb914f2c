-- ===== src/Client/Screens/Waiting.antt =====
-- The wait of `send_file` (a_cat/client/work/work.c) for the id of a transfer.
use linux_cat.Common.{
  ℕ, ◌<◌, ◌≡◌, refl, pos, negsuc, eq_ℤ, true, false, List, [], ◌∷◌, ◌++◌, Option, some, ltb, arith,
  Bool-cases, inl, inr, set, map, append_assoc, subst,
}
use linux_cat.Message.{Msg}
use linux_cat.Client.Blocks.{file_blocks}
use linux_cat.Client.Blocks.Tiling.{Tiles, file_blocks-Tiles}
use linux_cat.Client.Screens.Transfer.{AreFor, file_blocks-AreFor}
use linux_cat.Client.Screens.{
  awaits_id, chat, Client, Conn, Act, receives, sends, comes, wakes, wake, poll, take_message, step,
  run, send_blocks,
}

-- Messages other than the one with the id; the ids of offered files are below 20.
abbrev pub AreOther : List Msg → Type 0
AreOther [] = Unit {0}
AreOther (m ∷ ms) = ((eq_ℤ m.action (pos 3) ≡ false) × (m.sfile_id < 20)) × AreOther ms

-- `send_file` waits, with the message and the id as they were.
abbrev Waits : (before after : Client) → Type 0
Waits c after = (after.place ≡ awaits_id) × (after.pmsg ≡ c.pmsg) × (after.sfile_id ≡ c.sfile_id)

other-Waits :
    (files : List ℕ → Option ℕ) (c : Client) (m : Msg)
    → c.place ≡ awaits_id
    → eq_ℤ m.action (pos 3) ≡ false
    → m.sfile_id < 20
    → (after : Client) × (acts : List Act) × (step files c (comes m) ≡ some (after, acts))
      × Waits c after
unfolding step take_message poll
other-Waits files c m e no_id small =
    let waits : Waits c c = (e, refl, refl) in
    let fits : ltb m.sfile_id 20 ≡ true = ground (arith, small) in
    let conn : Conn = record { mapped = m.filesize; count = m.count } in
    elim (Bool-cases (eq_ℤ m.action (pos 1))) [
      | inl a ↦ (record c { lognum = pos 1 }, [], rw e (rw a refl), waits)
      | inr a ↦ elim (Bool-cases (eq_ℤ m.action (negsuc 0))) [
        | inl b ↦ (record c { lognum = negsuc 0 }, [], rw e (rw (a, b) refl), waits)
        | inr b ↦ elim (Bool-cases (eq_ℤ m.action (negsuc 2))) [
          | inl d ↦ (
            record c { gconn = set c.gconn m.sfile_id conn },
            [],
            rw e (rw (a, b, no_id, d, fits) refl),
            waits,
          )
          | inr d ↦ elim (Bool-cases (eq_ℤ m.action (pos 5))) [
            | inl f ↦ (c, receives m ∷ [], rw e (rw (a, b, no_id, d, f) refl), waits)
            | inr f ↦ (c, [], rw e (rw (a, b, no_id, d, f) refl), waits)
          ]
        ]
      ]
    ]

spurious :
    (files : List ℕ → Option ℕ) (c : Client)
    → c.place ≡ awaits_id
    → step files c wakes ≡ some (send_blocks c)
unfolding step wake
spurious files c e = rw e refl

-- While `send_file` waits for the id of its file, no other message ends the wait, the answer -2 for
-- a user who is not online among them; but a spurious return of `pthread_cond_wait`, which stands in no
-- loop, does: the client then sends the blocks of the whole file under the id that it had
-- before. The ids in the other messages are taken to be below 20.
pub stale_id_sent :
    (files : List ℕ → Option ℕ) (c : Client) (ms : List Msg)
    → c.place ≡ awaits_id
    → AreOther ms
    → (waiting after : Client) × (acts : List Act) × (blocks : List Msg) × (run files c
          (map comes ms)
        ≡ some (waiting, acts))
      × (waiting.place ≡ awaits_id)
      × (run files c (map comes ms ++ (wakes ∷ [])) ≡ some (after, acts ++ (sends blocks ∷ [])))
      × (after.place ≡ chat)
      × Tiles 0 c.pmsg.filesize blocks
      × AreFor c.pmsg.name c.pmsg.toname c.sfile_id blocks
unfolding run send_blocks
stale_id_sent files c [] e o =
    let m = record c.pmsg { sfile_id = c.sfile_id; offset = 0 } in
    (
      c,
      (send_blocks c).0,
      [],
      file_blocks m,
      refl,
      e,
      rw (spurious files c e) refl,
      refl,
      file_blocks-Tiles m,
      file_blocks-AreFor m,
    )
stale_id_sent files c (m ∷ ms) e ((no_id, small), o) =
    let (mid, first, r, (waits, same, id)) = other-Waits files c m e no_id small in
    let (waiting, after, more, blocks, r', still, r'', end, tiles, are_for) =
      stale_id_sent files mid ms waits o in
    (
      waiting,
      after,
      first ++ more,
      blocks,
      rw (r, r') refl,
      still,
      rw (r, r'', append_assoc first more (sends blocks ∷ [])) refl,
      end,
      subst (λ p. Tiles 0 p.filesize blocks) same tiles,
      subst (λ i. AreFor c.pmsg.name c.pmsg.toname i blocks) id
          (subst (λ p. AreFor p.name p.toname mid.sfile_id blocks) same are_for),
    )
