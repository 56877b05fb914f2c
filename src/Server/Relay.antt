-- ===== src/Server/Relay.antt =====
-- `send_file` of a_cat/server/work/work.c: the bytes of one block, from the sender's socket to the
-- receiver's. What the sender's side will send before it closes is a list of bytes. Each `write`
-- takes all it is given, and `recv` does not fail.
pub mod Laws
mod Tests
use linux_cat.Common.{
  ℕ, zero, suc, ◌+◌, ◌-◌, ◌*◌, ◌%◌, ◌≤◌, ◌<◌, ◌≡◌, Bool, true, false, List, [], ◌∷◌, ◌++◌, Option,
  none, some, ltb, leb, ◌==◌, if◌then◌else◌, length, take, drop, min,
}

-- `RECVBUF_SIZE`
abbrev pub recvbuf_size : ℕ
recvbuf_size = 100

-- `recv` without flags: how many bytes of a stream it hands over when asked for `n`.
pub record Recv : Type 0 where
  pub amount : ℕ → List ℕ → ℕ
  pub at_most : (n : ℕ) (s : List ℕ) → amount n s ≤ min n (length s)
  pub some_byte : (n : ℕ) (s : List ℕ) → 0 < n → 0 < length s → 0 < amount n s

-- `relayed`: the loop has ended, with these bytes written. `spinning`: the rounds have run out.
-- `overrun`: more than the block has come, and the next `recv` is given a negative length.
pub data Relay : Type 0 where
  relayed : List ℕ → Relay
  spinning : Relay
  overrun : Relay

-- The loop: `remain` is `remain_size`, `err` its test value, `sent` what has been written.
pub relay : ℕ → Recv → ℕ → ℕ → List ℕ → List ℕ → Relay
relay zero r err remain stream sent = spinning
relay (suc fuel) r err remain stream sent =
    let size = min recvbuf_size (length stream) in  -- `recv` with MSG_WAITALL
    let got = take size stream in
    let left = drop size stream in
    let remain' = remain - size in
    let size' = r.amount remain' left in
    let last =
      relay fuel r err (remain' - size') (drop size' left) (sent ++ (got ++ take size' left)) in
    let more = relay fuel r err remain' left (sent ++ got) in
    if remain == 0
    then relayed sent
    else if ltb remain size
    then overrun
    else if leb remain' err
    then last
    else more

-- `bs` is `pmsg->bs`, the size of the block.
pub send_file : ℕ → Recv → ℕ → List ℕ → Relay
unfolding relay
send_file fuel r bs stream = relay fuel r (bs % recvbuf_size) bs stream []
