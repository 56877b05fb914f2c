-- ===== src/Message/Wire/Tests.antt =====
-- Two messages in a stream.
use linux_cat.Common.{◌≡◌, refl, pos, negsuc, ℤ, [], ◌∷◌, ◌++◌, drop, replicate, arith, codes}
use linux_cat.Message.{Msg, zeroed}
use linux_cat.Message.Wire.{le, int_bits, msg_bytes, msg_size, client_reads, server_reads}
use linux_cat.Message.Wire.Layout.{IsInt, FitsMsg}
use linux_cat.Message.Wire.Stream.{stream, messages_arrive, split_message}

abbrev from_ann : ℤ → Msg
from_ann action = record zeroed { action = action; name = codes "ann" ++ replicate 17 0 }

from_ann-FitsMsg : (action : ℤ) → IsInt action → FitsMsg (from_ann action)
from_ann-FitsMsg action fits = record {
  action_fits = fits;
  sfile_id_fits = omega arith;
  filesize_fits = omega arith;
  count_fits = omega arith;
  bs_fits = omega arith;
  offset_fits = omega arith;
  cfd_fits = omega arith;
  name_long = refl;
  password_long = refl;
  toname_long = refl;
  filename_long = refl;
  message_long = refl;
  now_time_long = refl;
}

-- The action -8 in two's complement
minus_eight : le 4 (int_bits (negsuc 7)) ≡ 248 ∷ 255 ∷ 255 ∷ 255 ∷ []
unfolding le int_bits
minus_eight = refl

messages_arrive_example :
    (client_reads 3 (stream (from_ann (pos 1) ∷ from_ann (negsuc 7) ∷ []))
      ≡ from_ann (pos 1) ∷ from_ann (negsuc 7) ∷ [])
    × (server_reads
          (stream (from_ann (pos 1) ∷ from_ann (negsuc 7) ∷ []))
          (msg_size ∷ msg_size ∷ [])
        ≡ from_ann (pos 1) ∷ from_ann (negsuc 7) ∷ [])
messages_arrive_example =
    messages_arrive (from_ann (pos 1) ∷ from_ann (negsuc 7) ∷ [])
      (from_ann-FitsMsg (pos 1) (omega arith), (from_ann-FitsMsg (negsuc 7) (omega arith), tt))

split_message_example :
    (first : Msg) × (server_reads (msg_bytes (from_ann (pos 1)) ++ []) (32 ∷ msg_size ∷ [])
      ≡ first ∷ server_reads (drop 32 (msg_bytes (from_ann (pos 1))) ++ []) (msg_size ∷ []))
    × (first.action ≡ pos 1)
    × (first.name ≡ zeroed.name)
    × (first.password ≡ zeroed.password)
    × (first.toname ≡ zeroed.toname)
    × (first.message ≡ zeroed.message)
split_message_example =
    split_message (from_ann (pos 1)) [] 32 (msg_size ∷ []) (from_ann-FitsMsg (pos 1) (omega arith))
      (omega arith) (omega arith)
