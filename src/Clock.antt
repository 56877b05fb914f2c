-- ===== src/Clock.antt =====
-- The texts of the time: `get_time` of a_cat/server/work/work.c and a_cat/client/work/work.c, and
-- `LOG_PrintLogTime` of a_cat/server/log/log.c. What the clock and `localtime` answer is an argument.
pub mod Fits
pub mod Digits
mod Tests
use linux_cat.Common.{
  ℕ, zero, suc, ◌+◌, ◌-◌, ◌/◌, ◌%◌, List, [], ◌∷◌, ◌++◌, Option, none, some, ◌>>=◌, ltb, leb,
  if◌then◌else◌, length, take, drop, replicate,
}
use linux_cat.Memory.{str_copy}

-- `struct tm`, as far as it is printed: its years count from 1900, its months from 0.
pub record Tm : Type 0 where
  pub tm_year : ℕ
  pub tm_mon : ℕ
  pub tm_mday : ℕ
  pub tm_hour : ℕ
  pub tm_min : ℕ
  pub tm_sec : ℕ

-- The digits of a number, with as much fuel as it has digits behind its first, or more.
pub digits : ℕ → ℕ → List ℕ
digits zero n = (b'0' + n % 10) ∷ []
digits (suc fuel) n =
    let front = digits fuel (n / 10) in
    if ltb n 10 then (b'0' + n) ∷ [] else front ++ ((b'0' + n % 10) ∷ [])

-- `%d`
pub decimal : ℕ → List ℕ
decimal n = digits n n

-- `%0wd`
pub padded : ℕ → ℕ → List ℕ
padded w n = replicate (w - length (decimal n)) b'0' ++ decimal n

-- `"%d-%d-%d %d:%d:%d"`
pub time_text : Tm → List ℕ
time_text t =
    decimal (t.tm_year + 1900)
    ++ (b'-'
        ∷ (decimal (t.tm_mon + 1)
            ++ (b'-'
                ∷ (decimal t.tm_mday
                    ++ (b' '
                        ∷ (decimal t.tm_hour
                            ++ (b':' ∷ (decimal t.tm_min ++ (b':' ∷ decimal t.tm_sec)))))))))

-- `get_time`. `memset` clears as many bytes as a pointer has, 8.
pub get_time : Tm → List ℕ → Option (List ℕ)
get_time t now_time =
    if leb 8 (length now_time)
    then str_copy (replicate 8 0 ++ drop 8 now_time) (time_text t)
    else none

-- `"%04d-%02d-%02d %02d:%02d:%02d %03ldms"`
pub log_time_text : Tm → ℕ → List ℕ
log_time_text t usec =
    padded 4 (t.tm_year + 1900)
    ++ (b'-'
        ∷ (padded 2 (t.tm_mon + 1)
            ++ (b'-'
                ∷ (padded 2 t.tm_mday
                    ++ (b' '
                        ∷ (padded 2 t.tm_hour
                            ++ (b':'
                                ∷ (padded 2 t.tm_min
                                    ++ (b':'
                                        ∷ (padded 2 t.tm_sec
                                            ++ (b' '
                                                ∷ (padded 3 (usec / 1000)
                                                    ++ (b'm' ∷ b's' ∷ [])))))))))))))

-- `LOG_PrintLogTime` with an array, which is not NULL, of `buf_len` bytes, at least 2; `snprintf` writes at most `buf_len - 2` bytes of
-- the text and a NUL.
pub log_print_log_time : Tm → ℕ → List ℕ → ℕ → Option (List ℕ)
log_print_log_time t usec uc_time buf_len =
    str_copy uc_time (take (buf_len - 2) (log_time_text t usec))
