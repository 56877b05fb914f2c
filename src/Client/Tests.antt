-- ===== src/Client/Tests.antt =====
-- The client's theorems at a concrete file, and its copy through a network that delivers a block's
-- bytes by a hundred.
use mathlib.Core.List.{Perm}
use mathlib.Core.List.Perm
use linux_cat.Common.{
  ℕ, true, zero, suc, ◌≡◌, inl, inr, refl, ap, List, [], ◌∷◌, ◌++◌, some, if◌then◌else◌, leb,
  length, take, drop, replicate, min, arith, Bool-cases, append-nil, length-take, take-append-drop,
}
use linux_cat.Message.{Msg, zeroed}
use linux_cat.Client.Blocks.{
  file_blocks, full_blocks, new_fb_head, last_block, block_count, last_bs,
}
use linux_cat.Client.Receiver.{recvbuf_size, recv_file}
use linux_cat.Client.Receiver.Laws.{joined, AreFull, Spliced, recv_file_cut}
use linux_cat.Client.Copy.{Net, copy_blocks, create_file}
use linux_cat.Client.Copy.Whole.{copy_blocks-create_file}

-- The bytes by a hundred; with as much fuel as there are bytes, the last chunk is what is left.
by_hundred : ℕ → List ℕ → List (List ℕ)
by_hundred zero bytes = bytes ∷ []
by_hundred (suc fuel) bytes =
    let rest = by_hundred fuel (drop recvbuf_size bytes) in
    if leb recvbuf_size (length bytes) then take recvbuf_size bytes ∷ rest else bytes ∷ []

joined-by_hundred : (fuel : ℕ) (bytes : List ℕ) → joined (by_hundred fuel bytes) ≡ bytes
unfolding by_hundred
joined-by_hundred zero bytes = append-nil bytes
joined-by_hundred (suc fuel) bytes =
    let more =
      ap (λ l. take recvbuf_size bytes ++ l) (joined-by_hundred fuel (drop recvbuf_size bytes)) in
    ground (arith, more, take-append-drop recvbuf_size bytes, append-nil bytes)

length-take_full :
    (n : ℕ) (bytes : List ℕ) → leb n (length bytes) ≡ true → length (take n bytes) ≡ n
length-take_full n bytes h = ground (arith, length-take n bytes)

by_hundred-AreFull : (fuel : ℕ) (bytes : List ℕ) → AreFull (by_hundred fuel bytes)
unfolding by_hundred
by_hundred-AreFull zero bytes = (inr refl, tt)
by_hundred-AreFull (suc fuel) bytes = elim (Bool-cases (leb recvbuf_size (length bytes))) [
  | inl full ↦
      let size : length (take recvbuf_size bytes) ≡ recvbuf_size =
        length-take_full recvbuf_size bytes full in
      rw full (inl size, by_hundred-AreFull fuel (drop recvbuf_size bytes))
  | inr part ↦ rw part (inr refl, tt)
]

abbrev net : Net
net = record {
  accepts = λ k n. n;
  accepts_all = λ k n. refl;
  server_recv = record {
    amount = λ n s. min n (length s);
    at_most = λ n s. omega arith;
    some_byte = λ n s h k. omega arith;
  };
  split = λ bytes. by_hundred (length bytes) bytes;
  split_all = λ bytes. joined-by_hundred (length bytes) bytes;
  split_full = λ bytes. by_hundred-AreFull (length bytes) bytes;
}

abbrev file : List ℕ
file = replicate 500 1 ++ replicate 100 2

abbrev head : Msg
head = record zeroed { filesize = 600 }

abbrev blank : List ℕ
blank = replicate 600 0

recv_file_cut_example :
    (after : List ℕ) × (recv_file blank 0
        ((replicate 100 3 ∷ []) ++ (replicate 40 3 ∷ replicate 100 4 ∷ []))
      ≡ some after)
    × Spliced blank 0 (joined (replicate 100 3 ∷ []) ++ replicate 40 3) after
recv_file_cut_example =
    recv_file_cut blank 0 (replicate 100 3 ∷ []) (replicate 40 3) (replicate 100 4 ∷ []) (refl, tt)
      (omega arith) (omega arith)

abbrev first : Msg
first = record zeroed { bs = 500 }

abbrev second : Msg
second = record zeroed { offset = 500; bs = 100 }

-- The second block comes before the first.
order_is_blocks : Perm (second ∷ first ∷ []) (file_blocks head)
unfolding file_blocks full_blocks new_fb_head last_block block_count last_bs
order_is_blocks = Perm.swap first second []

-- The receiver had a longer file of that name.
copy_blocks-create_file_example :
    copy_blocks net file (create_file (replicate 700 9) 600) (second ∷ first ∷ []) ≡ some file
copy_blocks-create_file_example =
    copy_blocks-create_file net file head (replicate 700 9) (second ∷ first ∷ []) refl
      order_is_blocks
