-- ===== src/Client/Receiver.antt =====
-- `recv_file` of a_cat/client/work/work.c: the bytes of one block, from a socket into the mapped file.
pub mod Laws
use linux_cat.Common.{
  ℕ, ◌+◌, List, [], ◌∷◌, ◌++◌, Option, none, some, ◌>>=◌, leb, ◌==◌, if◌then◌else◌, length, take,
  drop,
}

-- `RECVBUF_SIZE`
abbrev pub recvbuf_size : ℕ
recvbuf_size = 100

-- `recv` into the map at a position: `none` if the bytes do not fit behind it.
pub store : List ℕ → ℕ → List ℕ → Option (List ℕ)
store map pos bytes =
    if leb (pos + length bytes) (length map)
    then some (take pos map ++ (bytes ++ drop (pos + length bytes) map))
    else none

-- The loop: the list holds what `recv` hands over, call by call; an empty chunk is the end of the
-- connection. A chunk of less than `RECVBUF_SIZE` ends it.
pub recv_chunks : List ℕ → ℕ → List (List ℕ) → Option (List ℕ)
recv_chunks map pos [] = some map
recv_chunks map pos (c ∷ cs) = store map pos c >>= λ map'.
    if length c == recvbuf_size then recv_chunks map' (pos + recvbuf_size) cs else some map'

-- The block at an offset of the file whose map is given.
pub recv_file : List ℕ → ℕ → List (List ℕ) → Option (List ℕ)
unfolding recv_chunks
recv_file mbegin offset chunks = recv_chunks mbegin offset chunks
