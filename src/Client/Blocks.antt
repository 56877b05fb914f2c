-- ===== src/Client/Blocks.antt =====
-- `send_file` and `new_fb_head` of a_cat/client/work/work.c: how a file is cut into blocks. Sizes are
-- those of files that an `int` can hold.
pub mod Tiling
use linux_cat.Common.{
  ℕ, zero, suc, ◌+◌, ◌-◌, ◌*◌, ◌/◌, ◌%◌, List, [], ◌∷◌, ◌++◌, ◌==◌, if◌then◌else◌,
}
use linux_cat.Message.{Msg, zeroed}

-- `BLOCKSIZE`
abbrev pub blocksize : ℕ
blocksize = 500

-- `count`, the number of blocks, and `last_bs`, the size of a last block that is not full.
unfoldable pub block_count : ℕ → ℕ
block_count filesize =
    if filesize % blocksize == 0 then filesize / blocksize else filesize / blocksize + 1

unfoldable pub last_bs : ℕ → ℕ
last_bs filesize =
    if filesize % blocksize == 0 then 0 else filesize - blocksize * (filesize / blocksize)

-- `new_fb_head`: the message for the next block, and `p_msg` with its offset moved on.
unfoldable pub new_fb_head : Msg → Msg × Msg
new_fb_head p_msg = (
  record zeroed {
    filename = p_msg.filename;
    name = p_msg.name;
    toname = p_msg.toname;
    sfile_id = p_msg.sfile_id;
    offset = p_msg.offset;
    bs = blocksize;
  },
  record p_msg { offset = p_msg.offset + blocksize },
)

-- The `for` that makes `n` full blocks; the message of the caller comes out with its new offset.
unfoldable pub full_blocks : ℕ → Msg → List Msg × Msg
unfolding new_fb_head
full_blocks zero p_msg = ([], p_msg)
full_blocks (suc n) p_msg =
    let (block, after) = new_fb_head p_msg in
    let (blocks, end) = full_blocks n after in (block ∷ blocks, end)

-- The last block, where it is not full.
unfoldable pub last_block : Msg → ℕ → Msg
last_block p_msg size = record zeroed {
  filename = p_msg.filename;
  name = p_msg.name;
  toname = p_msg.toname;
  sfile_id = p_msg.sfile_id;
  offset = p_msg.offset;
  bs = size;
}

-- The messages that `send_file` hands to its threads, for the message that it sent ahead.
unfoldable pub file_blocks : Msg → List Msg
file_blocks pmsg =
    let count = block_count pmsg.filesize in
    let rest = last_bs pmsg.filesize in
    let start = record pmsg { offset = 0 } in
    if rest == 0
    then (full_blocks count start).0
    else (let (blocks, end) = full_blocks (count - 1) start in blocks ++ (last_block end rest ∷ []))
