-- ===== src/Client/Blocks/Tiling.antt =====
-- Where the blocks of `send_file` (a_cat/client/work/work.c) lie in the file.
use linux_cat.Common.{
  ℕ, zero, suc, ◌+◌, ◌-◌, ◌*◌, ◌/◌, ◌%◌, ◌≤◌, ◌<◌, ◌≡◌, ◌≢◌, refl, ap, List, [], ◌∷◌, ◌++◌, ◌==◌,
  length, arith, length-append, false, ℕ_discrete,
}
use linux_cat.Message.{Msg}
use linux_cat.Client.Blocks.{blocksize, block_count, last_bs, full_blocks, last_block, file_blocks}

-- Blocks that follow one another from `lo` to `hi`, none empty or larger than `BLOCKSIZE`.
abbrev pub Tiles : ℕ → ℕ → List Msg → Type 0
Tiles lo hi [] = lo ≡ hi
Tiles lo hi (b ∷ bs) = (b.offset ≡ lo) × (0 < b.bs) × (b.bs ≤ blocksize) × Tiles (lo + b.bs) hi bs

Tiles-append :
    (lo mid hi : ℕ) (bs cs : List Msg) → Tiles lo mid bs → Tiles mid hi cs → Tiles lo hi (bs ++ cs)
Tiles-append lo mid hi [] cs h k = rw h k
Tiles-append lo mid hi (b ∷ bs) cs h k =
    (h.0, h.1, h.2, Tiles-append (lo + b.bs) mid hi bs cs h.3 k)

full_blocks-Tiles :
    (n hi : ℕ) (p : Msg)
    → p.offset + n * blocksize ≡ hi
    → Tiles p.offset hi (full_blocks n p).0 × ((full_blocks n p).1.offset ≡ hi)
unfolding full_blocks
full_blocks-Tiles zero hi p e = omega arith
full_blocks-Tiles (suc n) hi p e =
    let rest = full_blocks-Tiles n hi (record p { offset = p.offset + blocksize }) (omega arith) in
    ((refl, omega arith, omega arith, rest.0), rest.1)

even_file :
    (size : ℕ) → size % blocksize ≡ 0 → (block_count size ≡ size / blocksize) × (last_bs size ≡ 0)
unfolding block_count last_bs
even_file size z = ground arith

odd_file :
    (size : ℕ)
    → size % blocksize ≢ 0
    → (block_count size ≡ size / blocksize + 1) × (last_bs size ≡ size % blocksize)
unfolding block_count last_bs
odd_file size nz = ground arith

-- The blocks that `send_file` makes for a file lie end to end from offset 0 to the file's size, each
-- with at least one byte and at most `BLOCKSIZE`.
pub file_blocks-Tiles : (m : Msg) → Tiles 0 m.filesize (file_blocks m)
unfolding file_blocks last_block
file_blocks-Tiles m = elim (ℕ_discrete (m.filesize % blocksize) 0) [
  | yes z ↦
      let (counts, rest) = even_file m.filesize z in
      rw (rest, counts)
        (full_blocks-Tiles (m.filesize / blocksize) m.filesize (record m { offset = 0 })
          (omega arith)).0
  | no nz ↦
      let (counts, rest) = odd_file m.filesize nz in
      let start = record m { offset = 0 } in
      let whole = m.filesize / blocksize * blocksize in
      let some_left : (last_bs m.filesize == 0) ≡ false = ground (arith, rest) in
      let n_is : block_count m.filesize - 1 ≡ m.filesize / blocksize = omega (arith, counts) in
      let full = full_blocks-Tiles (m.filesize / blocksize) whole start (omega arith) in
      rw (some_left, n_is)
        (Tiles-append 0 whole m.filesize (full_blocks (m.filesize / blocksize) start).0 _ full.0
          (full.1, omega (arith, rest), omega (arith, rest), omega (arith, rest)))
]

length-full_blocks : (n : ℕ) (p : Msg) → length (full_blocks n p).0 ≡ n
unfolding full_blocks
length-full_blocks zero p = refl
length-full_blocks (suc n) p =
    ap suc (length-full_blocks n (record p { offset = p.offset + blocksize }))

-- There are as many blocks as the message sent ahead announces.
pub length-file_blocks : (m : Msg) → length (file_blocks m) ≡ block_count m.filesize
unfolding file_blocks
length-file_blocks m = elim (ℕ_discrete (m.filesize % blocksize) 0) [
  | yes z ↦
      let (counts, rest) = even_file m.filesize z in
      rw rest (length-full_blocks (block_count m.filesize) (record m { offset = 0 }))
  | no nz ↦
      let (counts, rest) = odd_file m.filesize nz in
      let some_left : (last_bs m.filesize == 0) ≡ false = ground (arith, rest) in
      let before = length-full_blocks (block_count m.filesize - 1) (record m { offset = 0 }) in
      rw some_left (
        omega (
          arith,
          counts,
          before,
          length-append {0} (full_blocks (block_count m.filesize - 1) (record m { offset = 0 })).0 (
              last_block (full_blocks (block_count m.filesize - 1) (record m { offset = 0 })).1
                (last_bs m.filesize)
              ∷ []),
        ))
]
