-- ===== src/Message.antt =====
-- `struct messgae`, the one message of a_cat/server/include/server_w.h and
-- a_cat/client/include/work.h, which both sides read and write whole. Its char arrays are the lists
-- of their bytes. Sizes, counts and offsets are taken to be no less than 0.
pub mod Wire
use linux_cat.Common.{ℕ, ℤ, pos, List, replicate}

pub record Msg : Type 0 where
  pub action : ℤ
  pub sfile_id : ℕ
  pub filesize : ℕ
  pub count : ℕ
  pub bs : ℕ
  pub offset : ℕ
  pub cfd : ℕ
  pub name : List ℕ
  pub password : List ℕ
  pub toname : List ℕ
  pub filename : List ℕ
  pub message : List ℕ
  pub now_time : List ℕ

-- `memset(pmsg, 0, sizeof(Msg))`
abbrev pub zeroed : Msg
zeroed = record {
  action = pos 0;
  sfile_id = 0;
  filesize = 0;
  count = 0;
  bs = 0;
  offset = 0;
  cfd = 0;
  name = replicate 20 0;
  password = replicate 20 0;
  toname = replicate 20 0;
  filename = replicate 20 0;
  message = replicate 1024 0;
  now_time = replicate 32 0;
}
