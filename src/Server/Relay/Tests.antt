-- ===== src/Server/Relay/Tests.antt =====
-- The relay's theorems at a concrete `recv`, which hands over at most seven bytes at a time.
use linux_cat.Common.{ℕ, ◌≡◌, List, length, replicate, min, arith}
use linux_cat.Server.Relay.{Recv, relayed, spinning, send_file}
use linux_cat.Server.Relay.Laws.{send_file_outcome}

abbrev by_seven : Recv
by_seven = record {
  amount = λ n s. min (min 7 n) (length s);
  at_most = λ n s. omega arith;
  some_byte = λ n s h k. omega arith;
}

abbrev block : List ℕ
block = replicate 230 5

send_file_outcome_example : send_file 231 by_seven 230 block ≡ relayed block
send_file_outcome_example = send_file_outcome 231 by_seven 230 block (omega arith) (omega arith)

-- A sender that has closed behind 230 of 500 bytes.
block_cut_off : send_file 1000 by_seven 500 block ≡ spinning
block_cut_off = send_file_outcome 1000 by_seven 500 block (omega arith) (omega arith)
