-- ===== src/Server/Handler/FileIds.antt =====
-- The ids of file transfers (case 3): the table `addr`, of which no code ever resets an entry.
pub mod Offered
pub mod Rounds
pub mod Runs
mod Tests
use linux_cat.Common.{
  ℕ, zero, suc, ◌-◌, ◌≤◌, ◌≡◌, refl, ◌∙◌, ap, negsuc, true, false, List, ◌++◌, Option, none, some,
  if◌then◌else◌, replicate, arith, ltb, dec_lt, subst, ◌>>=◌,
}
use linux_cat.Memory.{c_text}
use linux_cat.Message.{Msg}
use linux_cat.Server.Online.Laws.{AreNamed, sessions, top_fd, find_fd_lem}
use linux_cat.Server.Accounts.{Sqlite}
use linux_cat.Server.State.{Server, Outcome, done, reply, take_id}
use linux_cat.Server.Handler.{handle_file_to}

-- The table when `k` ids are taken and `n` are free.
abbrev pub table : ℕ → ℕ → List ℕ
table k n = replicate k 1 ++ replicate n 0

pub take_id-table : (k n : ℕ) → take_id (table k (suc n)) ≡ some (k, table (suc k) n)
unfolding take_id
take_id-table zero n = refl
take_id-table (suc k) n = rw (take_id-table k n)

pub take_id-full : (k : ℕ) → take_id (table k 0) ≡ none
unfolding take_id
take_id-full zero = refl
take_id-full (suc k) = rw (take_id-full k)

-- A request to send a file to a user online is answered to both sides with the first free id.
pub handle_file_to_lem :
    (q : Sqlite) (s : Server q.Db) (cfd fd : ℕ) (m : Msg) {to : List ℕ} (k n : ℕ)
    → c_text m.toname ≡ some to
    → AreNamed s.head
    → top_fd (sessions to s.head) ≡ some fd
    → s.addr ≡ table k (suc n)
    → handle_file_to q s cfd m
      ≡ some (
          done
            (record s { addr = table (suc k) n })
            (reply cfd (record m { sfile_id = k })
              ++ reply fd (record m { sfile_id = k; action = negsuc 2 })))
unfolding handle_file_to
handle_file_to_lem q s cfd fd m k n to_is named top free =
    rw (find_fd_lem s.head m.toname named to_is, top, free, take_id-table k n)

-- Let the names in the list of users and `toname` be texts. With the first `k` of the 100 ids taken, a
-- request to send a file to a user online is answered to both sides
-- with id `k`, as long as one is free; behind the last free id it reads past the end of `addr`.
pub file_ids_run_out :
    (q : Sqlite) (s : Server q.Db) (cfd fd : ℕ) (m : Msg) {to : List ℕ} (k : ℕ)
    → c_text m.toname ≡ some to
    → AreNamed s.head
    → top_fd (sessions to s.head) ≡ some fd
    → s.addr ≡ table k (100 - k)
    → k ≤ 100
    → handle_file_to q s cfd m ≡ (
        if ltb k 100
        then some (
            done
              (record s { addr = table (suc k) (99 - k) })
              (reply cfd (record m { sfile_id = k })
                ++ reply fd (record m { sfile_id = k; action = negsuc 2 })))
        else none)
unfolding handle_file_to
file_ids_run_out q s cfd fd m k to_is named top free le = elim (dec_lt k 100) [
  | yes p ↦
      let below : ltb k 100 ≡ true = ground (arith, p) in
      rw below (
        handle_file_to_lem q s cfd fd m k (99 - k) to_is named top
          (free ∙ ap (table k) {y = suc (99 - k)} (omega arith)))
  | no p ↦
      let full : 100 ≡ k = omega (arith, p, le) in
      let above : ltb k 100 ≡ false = ground (arith, p) in
      rw (above, find_fd_lem s.head m.toname named to_is, top, free)
        (subst (λ n. (take_id (table n (100 - n)) >>= λ r. done_with r) ≡ none) full
          (rw (take_id-full 100)))
]
  where
    done_with : ℕ × List ℕ → Option (Outcome q.Db)
    done_with r = some (
        done (record s { addr = r.1 })
          (reply cfd (record m { sfile_id = r.0 })
            ++ reply fd (record m { sfile_id = r.0; action = negsuc 2 })))
