-- ===== src/Client/Copy.antt =====
-- A whole transfer: the sender's threads (Client/Sender.antt), the server's relay of each block
-- (Server/Relay.antt) and the receiver's threads (Client/Receiver.antt), the blocks in any order.
pub mod Whole
use mathlib.Core.List.{Perm}
use linux_cat.Common.{
  ℕ, zero, suc, ◌+◌, ◌-◌, ◌≤◌, ◌<◌, ◌≡◌, ◌≢◌, ◌⊎◌, inl, inr, refl, sym, ◌∙◌, ap, List, [], ◌∷◌,
  ◌++◌, Option, none, some, ◌==◌, if◌then◌else◌, ltb, leb, ◌&&◌, length, take, drop, replicate,
  get_elem?, arith, ◌>>=◌, length-append, length-take, length-drop, get_elem?-take, get_elem?-drop,
  get_elem?-none, list_ext, dec_lt, Bool, true, false, total, total-perm,
}
use linux_cat.Message.{Msg}
use linux_cat.Server.Relay.{Recv, Relay, relayed, spinning, overrun, send_file}
use linux_cat.Server.Relay.Laws.{send_file_lem}
use linux_cat.Client.Blocks.{blocksize, file_blocks}
use linux_cat.Client.Blocks.Tiling.{Tiles, file_blocks-Tiles}
use linux_cat.Client.Sender.{send_filedata}
use linux_cat.Client.Sender.Laws.{send_filedata_lem}
use linux_cat.Client.Receiver.{recv_file}
use linux_cat.Client.Receiver.Laws.{Spliced, joined, AreFull, recv_file_lem}

-- The network: `write` takes all it is given; `recv` at the server is some `Recv`; and `recv` at the
-- receiver hands over the bytes of a block in chunks that fill the buffer, but for the last.
pub record Net : Type 0 where
  pub accepts : ℕ → ℕ → ℕ
  pub accepts_all : (k n : ℕ) → accepts k n ≡ n
  pub server_recv : Recv
  pub split : List ℕ → List (List ℕ)
  pub split_all : (bytes : List ℕ) → joined (split bytes) ≡ bytes
  pub split_full : (bytes : List ℕ) → AreFull (split bytes)

-- What the relay has passed on, if its loop has ended.
passed : Relay → Option (List ℕ)
passed (relayed bytes) = some bytes
passed spinning = none
passed overrun = none

-- One block from the file into the receiver's map.
pub copy_block : Net → List ℕ → List ℕ → Msg → Option (List ℕ)
unfolding passed
copy_block net file map block = do
  let sent = send_filedata net.accepts file block.offset block.bs
  bytes ← passed (send_file (suc (length sent)) net.server_recv block.bs sent)
  recv_file map block.offset (net.split bytes)

pub copy_blocks : Net → List ℕ → List ℕ → List Msg → Option (List ℕ)
copy_blocks net file map [] = some map
copy_blocks net file map (b ∷ bs) =
    copy_block net file map b >>= λ map'. copy_blocks net file map' bs

-- `createfile`, over what a file of that name held: `ftruncate` cuts it off or adds zeros.
-- The calls are taken to succeed.
pub create_file : List ℕ → ℕ → List ℕ
create_file old size = take size old ++ replicate (size - length old) 0
