-- ===== src/Message/Wire.antt =====
-- `Msg` as the bytes that `write` and `recv` move, and the loops of the two `thread_read` over a
-- stream of them (a_cat/server/work/work.c and a_cat/client/work/work.c). The layout is that of an x86-64
-- Linux: an `int` has 4 bytes and a `long` 8, the low byte first, in two's complement, and the fields lie
-- behind each other without a gap.
pub mod Layout
pub mod Stream
mod Tests
use linux_cat.Common.{
  ℕ, zero, suc, ◌+◌, ◌-◌, ◌*◌, ◌/◌, ◌%◌, ℤ, pos, negsuc, List, [], ◌∷◌, ◌++◌, ltb, if◌then◌else◌,
  length, take, drop, replicate,
}
use linux_cat.Message.{Msg}

-- The low `n` bytes of a number
unfoldable pub le : ℕ → ℕ → List ℕ
le zero v = []
le (suc n) v = v % 256 ∷ le n (v / 256)

unfoldable pub un_le : List ℕ → ℕ
un_le [] = 0
un_le (b ∷ bs) = b + 256 * un_le bs

-- The bits of an `int`
unfoldable pub int_bits : ℤ → ℕ
int_bits (pos n) = n
int_bits (negsuc n) = 4294967295 - n

unfoldable pub int_of : ℕ → ℤ
int_of v = if ltb v 2147483648 then pos v else negsuc (4294967295 - v)

-- `sizeof(Msg)`
abbrev pub msg_size : ℕ
msg_size = 1168

-- The bytes of the fields, in the order of the struct
abbrev pub fields : Msg → List (List ℕ)
fields m =
    le 4 (int_bits m.action)
    ∷ le 4 m.sfile_id
    ∷ le 4 m.filesize
    ∷ le 4 m.count
    ∷ le 4 m.bs
    ∷ le 4 m.offset
    ∷ le 8 m.cfd
    ∷ m.name
    ∷ m.password
    ∷ m.toname
    ∷ m.filename
    ∷ m.message
    ∷ m.now_time
    ∷ []

abbrev pub join : List (List ℕ) → List ℕ
join [] = []
join (p ∷ ps) = p ++ join ps

unfoldable pub msg_bytes : Msg → List ℕ
msg_bytes m = join (fields m)

-- The `n` bytes from offset `k` on
unfoldable pub slice : ℕ → ℕ → List ℕ → List ℕ
slice k n bs = take n (drop k bs)

-- The fields at their offsets. A size, a count or an offset below 0 is not among the messages here: its
-- bits are read as a number.
unfoldable pub bytes_msg : List ℕ → Msg
bytes_msg bytes = record {
  action = int_of (un_le (slice 0 4 bytes));
  sfile_id = un_le (slice 4 4 bytes);
  filesize = un_le (slice 8 4 bytes);
  count = un_le (slice 12 4 bytes);
  bs = un_le (slice 16 4 bytes);
  offset = un_le (slice 20 4 bytes);
  cfd = un_le (slice 24 8 bytes);
  name = slice 32 20 bytes;
  password = slice 52 20 bytes;
  toname = slice 72 20 bytes;
  filename = slice 92 20 bytes;
  message = slice 112 1024 bytes;
  now_time = slice 1136 32 bytes;
}

-- `memset(pmsg, 0, sizeof(Msg))`, and what `recv` then puts there
unfoldable pub received : List ℕ → Msg
received bs = bytes_msg (bs ++ replicate (msg_size - length bs) 0)

-- A round of either loop: `recv` answers 0, and the thread ends, or hands over some bytes.
unfoldable pub read_round : List ℕ → List Msg → List Msg
read_round [] rest = []
read_round (b ∷ got) rest = received (b ∷ got) ∷ rest

-- The messages that the loop of the client's `thread_read` finds in a stream that the other side then
-- closes: with MSG_WAITALL, `recv` hands over fewer than `sizeof(Msg)` bytes only at the end. `rounds`
-- bounds the rounds of the loop.
unfoldable pub client_reads : ℕ → List ℕ → List Msg
client_reads zero bs = []
client_reads (suc rounds) bs =
    read_round (take msg_size bs) (client_reads rounds (drop msg_size bs))

-- The messages that the loop of the server's `thread_read` finds: without that flag, `recv` hands
-- over as many bytes as it likes, here the numbers of a list.
unfoldable pub server_reads : List ℕ → List ℕ → List Msg
server_reads bs [] = []
server_reads bs (size ∷ sizes) = read_round (take size bs) (server_reads (drop size bs) sizes)
