-- ===== src/Clock/Tests.antt =====
-- The texts of one time.
use linux_cat.Common.{ℕ, ◌≡◌, refl, List, some, replicate, arith, codes}
use linux_cat.Memory.{c_text}
use linux_cat.Clock.{
  Tm, digits, decimal, padded, time_text, get_time, log_time_text, log_print_log_time,
}
use linux_cat.Clock.Fits.{InRange, times_fit}

abbrev morning : Tm
morning = record { tm_year = 123; tm_mon = 4; tm_mday = 9; tm_hour = 7; tm_min = 8; tm_sec = 30 }

morning-InRange : InRange morning
morning-InRange = record {
  year = omega arith;
  mon = omega arith;
  mday = omega arith;
  hour = omega arith;
  min = omega arith;
  sec = omega arith;
}

times_fit_example :
    ((buf : List ℕ) × (get_time morning (replicate 32 7) ≡ some buf)
      × (c_text buf ≡ some (time_text morning)))
    × ((buf : List ℕ) × (log_print_log_time morning 5999 (replicate 128 0) 128 ≡ some buf)
        × (c_text buf ≡ some (log_time_text morning 5999)))
times_fit_example =
    times_fit morning morning-InRange 5999 (replicate 32 7) (replicate 128 0) (omega arith) refl
      refl

time_of_morning : time_text morning ≡ codes "2023-5-9 7:8:30"
unfolding time_text decimal digits
time_of_morning = refl

log_time_of_morning : log_time_text morning 5999 ≡ codes "2023-05-09 07:08:30 005ms"
unfolding log_time_text padded decimal digits
log_time_of_morning = refl
