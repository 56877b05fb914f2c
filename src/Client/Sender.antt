-- ===== src/Client/Sender.antt =====
-- `send_filedata` of a_cat/client/work/work.c: the bytes of one block on their way into a socket.
-- The mapped file is a list of bytes.
pub mod Laws
use linux_cat.Common.{
  ℕ, zero, suc, ◌+◌, ◌-◌, ◌/◌, List, [], ◌∷◌, ◌++◌, ◌==◌, if◌then◌else◌, take, drop,
}

-- `SEND_SIZE`
abbrev pub send_size : ℕ
send_size = 100

-- The `for` of `send_filedata` and the `write` behind it: `rounds` are left, `fp` is the position in
-- the file, `bs` what is left of `omsg->bs`. `accepts k n` is how many bytes of `n` the k-th `write`
-- takes. Only a `write` of all `SEND_SIZE` bytes moves on.
pub send_rounds : (ℕ → ℕ → ℕ) → List ℕ → ℕ → ℕ → ℕ → ℕ → List ℕ
send_rounds accepts file zero k fp bs = take (accepts k bs) (drop fp file)
send_rounds accepts file (suc rounds) k fp bs =
    let wrote = accepts k send_size in
    let whole = wrote == send_size in
    take wrote (drop fp file)
    ++ send_rounds accepts file rounds (k + 1) (if whole then fp + send_size else fp)
        (if whole then bs - send_size else bs)

-- What the connection of a block carries, behind its message.
pub send_filedata : (ℕ → ℕ → ℕ) → List ℕ → ℕ → ℕ → List ℕ
unfolding send_rounds
send_filedata accepts file offset bs = send_rounds accepts file (bs / send_size) 0 offset bs
