-- ===== src/Client/Copy/Whole.antt =====
-- What a transfer leaves at the receiver, block by block and as a whole.
use mathlib.Core.List.{Perm}
use linux_cat.Common.{
  length-append, length-replicate, replicate, ℕ, suc, ◌+◌, ◌-◌, ◌≤◌, ◌<◌, ◌≡◌, ◌⊎◌, inl, inr, refl,
  sym, ◌∙◌, ap, subst, List, [], ◌∷◌, some, if◌then◌else◌, ltb, leb, ◌&&◌, length, take, drop,
  get_elem?, arith, length-take, length-drop, get_elem?-take, get_elem?-drop, get_elem?-none,
  list_ext, dec_lt, true, total, total-perm, Bool-cases,
}
use linux_cat.Message.{Msg}
use linux_cat.Server.Relay.{relayed, send_file}
use linux_cat.Server.Relay.Laws.{send_file_lem}
use linux_cat.Client.Blocks.{file_blocks}
use linux_cat.Client.Blocks.Tiling.{Tiles, file_blocks-Tiles}
use linux_cat.Client.Sender.Laws.{send_filedata_lem}
use linux_cat.Client.Receiver.Laws.{Spliced, recv_file_lem}
use linux_cat.Client.Copy.{Net, copy_block, copy_blocks, create_file}

-- How often a byte of the file lies in a block of a list, and how many blocks reach past `n`.
abbrev pub coverage : ℕ → List Msg → ℕ
coverage j = total λ b. if leb b.offset j && ltb j (b.offset + b.bs) then 1 else 0

abbrev pub overhang : ℕ → List Msg → ℕ
overhang n = total λ b. if leb (b.offset + b.bs) n then 0 else 1

Tiles-coverage :
    (lo hi j : ℕ) (bs : List Msg) → Tiles lo hi bs → lo ≤ j → j < hi → 0 < coverage j bs
Tiles-coverage lo hi j [] t h k = absurd (omega arith)
Tiles-coverage lo hi j (b ∷ bs) t h k = ground (arith, Tiles-coverage (lo + b.bs) hi j bs t.3)

Tiles-le : (lo hi : ℕ) (bs : List Msg) → Tiles lo hi bs → lo ≤ hi
Tiles-le lo hi [] t = omega arith
Tiles-le lo hi (b ∷ bs) t = omega (arith, Tiles-le (lo + b.bs) hi bs t.3)

Tiles-overhang : (lo hi : ℕ) (bs : List Msg) → Tiles lo hi bs → overhang hi bs ≡ 0
Tiles-overhang lo hi [] t = refl
Tiles-overhang lo hi (b ∷ bs) t =
    ground (arith, Tiles-overhang (lo + b.bs) hi bs t.3, Tiles-le (lo + b.bs) hi bs t.3)

-- What a list of blocks, copied one after the other, leaves in the map.
record Copied (file map : List ℕ) (bs : List Msg) (after : List ℕ) : Type 0 where
  same_size : length after ≡ length file
  new : (j : ℕ) → 0 < coverage j bs → get_elem? after j ≡ get_elem? file j
  kept : (j : ℕ) → get_elem? map j ≡ get_elem? file j → get_elem? after j ≡ get_elem? file j

module _ (net : Net) (file : List ℕ) where
  copy_block_lem :
      (map : List ℕ) (b : Msg)
      → length map ≡ length file
      → b.offset + b.bs ≤ length file
      → (after : List ℕ) × (copy_block net file map b ≡ some after)
        × Spliced map b.offset (take b.bs (drop b.offset file)) after
  unfolding copy_block
  copy_block_lem map b size fits =
      let bytes = take b.bs (drop b.offset file) in
      let sent = send_filedata_lem net.accepts file b.offset b.bs net.accepts_all in
      let len : length bytes ≡ b.bs =
        omega (arith, length-take b.bs (drop b.offset file), length-drop b.offset file) in
      let relays : send_file (suc (length bytes)) net.server_recv b.bs bytes ≡ relayed bytes =
        ap (λ n. send_file (suc (length bytes)) net.server_recv n bytes) (sym len)
        ∙ send_file_lem net.server_recv bytes in
      let (after, r, s) =
        recv_file_lem map b.offset (net.split bytes) (net.split_full bytes)
          (omega (arith, ap length (net.split_all bytes))) in
      (
        after,
        rw (sent, relays) r,
        subst (λ l. Spliced map b.offset l after) (net.split_all bytes) s,
      )

  -- A byte that the block holds comes from the file; any other is left.
  block_byte :
      (map after : List ℕ) (b : Msg) (j : ℕ)
      → b.offset + b.bs ≤ length file
      → Spliced map b.offset (take b.bs (drop b.offset file)) after
      → ((leb b.offset j && ltb j (b.offset + b.bs)) ≡ true) ⊎ (get_elem? map j ≡ get_elem? file j)
      → get_elem? after j ≡ get_elem? file j
  block_byte map after b j fits s h =
      elim (Bool-cases (leb b.offset j && ltb j (b.offset + b.bs))) [
        | inl inside ↦
            let low : b.offset ≤ j = ground (arith, inside) in
            let high : j < b.offset + b.bs = ground (arith, inside) in
            s.inside j (j - b.offset) (omega arith) (omega (arith, len))
            ∙ get_elem?-take (drop b.offset file) b.bs (j - b.offset) (omega arith)
            ∙ get_elem?-drop file b.offset (j - b.offset) j (omega arith)
        | inr outside ↦ elim (dec_lt j b.offset) [
          | yes p ↦ ground (arith, s.below j p)
          | no p ↦ ground (arith, s.above j, len)
        ]
      ]
    where
      len : length (take b.bs (drop b.offset file)) ≡ b.bs
      len = omega (arith, length-take b.bs (drop b.offset file), length-drop b.offset file)

  copy_blocks_lem :
      (map : List ℕ) (bs : List Msg)
      → length map ≡ length file
      → overhang (length file) bs ≡ 0
      → (after : List ℕ) × (copy_blocks net file map bs ≡ some after) × Copied file map bs after
  unfolding copy_blocks
  copy_blocks_lem map [] size none_over =
      (map, refl, record { same_size = size; new = λ j h. absurd (omega arith); kept = λ j h. h })
  copy_blocks_lem map (b ∷ bs) size none_over =
      let fits : b.offset + b.bs ≤ length file = ground (arith, none_over) in
      let (mid, r, s) = copy_block_lem map b size fits in
      let (after, r', c) =
        copy_blocks_lem mid bs (s.same_size ∙ size) (ground (arith, none_over)) in
      (
        after,
        rw r r',
        record {
          same_size = c.same_size;
          new = λ j h. elim (Bool-cases (leb b.offset j && ltb j (b.offset + b.bs))) [
            | inl inside ↦ c.kept j (block_byte map mid b j fits s (inl inside))
            | inr outside ↦ c.new j (ground (arith, h, outside))
          ];
          kept = λ j h. c.kept j (block_byte map mid b j fits s (inr h));
        },
      )

  every_byte :
      (map after : List ℕ) (order : List Msg) (m : Msg)
      → Perm order (file_blocks m)
      → Tiles 0 (length file) (file_blocks m)
      → Copied file map order after
      → (j : ℕ) → get_elem? after j ≡ get_elem? file j
  every_byte map after order m perm tiles c j = elim (dec_lt j (length file)) [
    | yes p ↦
        let covered = Tiles-coverage 0 (length file) j (file_blocks m) tiles (omega arith) p in
        let same =
          total-perm (λ (b : Msg). if leb b.offset j && ltb j (b.offset + b.bs) then 1 else 0)
            perm in
        c.new j (omega (arith, covered, same))
    | no p ↦
        get_elem?-none after j (omega (arith, c.same_size))
        ∙ sym (get_elem?-none file j (omega arith))
  ]

  -- Sent in any order into a map of the file's size, the blocks of the file leave the file there.
  copy_blocks-file :
      (m : Msg) (map : List ℕ) (order : List Msg)
      → m.filesize ≡ length file
      → length map ≡ length file
      → Perm order (file_blocks m)
      → copy_blocks net file map order ≡ some file
  copy_blocks-file m map order size map_size perm =
      let tiles = subst (λ n. Tiles 0 n (file_blocks m)) size (file_blocks-Tiles m) in
      let over =
        total-perm (λ (b : Msg). if leb (b.offset + b.bs) (length file) then 0 else 1) perm
        ∙ Tiles-overhang 0 (length file) (file_blocks m) tiles in
      let (after, r, c) = copy_blocks_lem map order map_size over in
      r ∙ ap some (list_ext after file (every_byte map after order m perm tiles c))

  -- Let the receiver make its file with the size that the offer names, over whatever a file of that
  -- name held. The blocks that `send_file` makes for the sender's file, sent through the server's relay
  -- and received in any order into the map of the receiver's file, leave the sender's file there: every
  -- block gets through, and the map is the file byte for byte. The network is taken to deliver what is
  -- written: each `write` takes all it is given, and the receiver's `recv` fills its buffer until a
  -- block's last bytes.
  pub copy_blocks-create_file :
      (m : Msg) (old : List ℕ) (order : List Msg)
      → m.filesize ≡ length file
      → Perm order (file_blocks m)
      → copy_blocks net file (create_file old m.filesize) order ≡ some file
  unfolding create_file
  copy_blocks-create_file m old order size perm =
      let made : length (create_file old m.filesize) ≡ length file = omega (
        arith,
        size,
        length-append (take m.filesize old) (replicate {A = ℕ} (m.filesize - length old) 0),
        length-take m.filesize old,
        length-replicate {A = ℕ} (m.filesize - length old) 0,
      ) in
      copy_blocks-file m (create_file old m.filesize) order size made perm
