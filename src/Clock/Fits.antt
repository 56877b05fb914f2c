-- ===== src/Clock/Fits.antt =====
-- The lengths of the texts of the time (`get_time`, `LOG_PrintLogTime`).
use linux_cat.Common.{
  ℕ, zero, suc, ◌+◌, ◌-◌, ◌*◌, ◌/◌, ◌%◌, ◌≤◌, ◌<◌, ◌≡◌, refl, List, [], ◌∷◌, ◌++◌, some, ltb, leb,
  true, false, length, drop, replicate, arith, length-append, length-replicate, length-drop,
  take_all, dec_lt,
}
use linux_cat.Memory.{c_text, str_copy}
use linux_cat.Memory.Laws.{c_text-str_copy, str_copy_fits}
use linux_cat.Memory.Texts.{NoBreak, NoBreak-append, c_text-NoBreak_end}
use linux_cat.Clock.{
  Tm, digits, decimal, padded, time_text, get_time, log_time_text, log_print_log_time,
}

abbrev tens : ℕ → ℕ
tens zero = 1
tens (suc k) = 10 * tens k

length-digits : (k fuel n : ℕ) → n < tens (suc k) → length (digits fuel n) ≤ suc k
unfolding digits
length-digits k zero n h = omega arith
length-digits zero (suc fuel) n h =
    let small : ltb n 10 ≡ true = ground (arith, h) in rw small (omega arith)
length-digits (suc k) (suc fuel) n h = elim (dec_lt n 10) [
  | yes p ↦ let small : ltb n 10 ≡ true = ground (arith, p) in rw small (omega arith)
  | no p ↦
      let large : ltb n 10 ≡ false = ground (arith, p) in
      rw large (
        omega (
          arith,
          length-append (digits fuel (n / 10)) ((b'0' + n % 10) ∷ []),
          length-digits k fuel (n / 10) (omega (arith, h)),
        ))
]

digits-NoBreak : (fuel n : ℕ) → NoBreak (digits fuel n)
unfolding digits
digits-NoBreak zero n = (ground arith, ground arith, tt)
digits-NoBreak (suc fuel) n = elim (dec_lt n 10) [
  | yes p ↦
      let small : ltb n 10 ≡ true = ground (arith, p) in rw small ((ground arith, ground arith, tt))
  | no p ↦
      let large : ltb n 10 ≡ false = ground (arith, p) in
      rw large (
        NoBreak-append (digits fuel (n / 10)) ((b'0' + n % 10) ∷ []) (digits-NoBreak fuel (n / 10))
          (ground arith, ground arith, tt))
]

-- A field, a sign and the fields behind it.
length-field :
    (a : List ℕ) (x : ℕ) (b : List ℕ) (i j : ℕ)
    → length a ≤ i
    → length b ≤ j
    → length (a ++ (x ∷ b)) ≤ i + suc j
length-field a x b i j h k = omega (arith, length-append a (x ∷ b))

length-field_eq :
    (a : List ℕ) (x : ℕ) (b : List ℕ) (i j : ℕ)
    → length a ≡ i
    → length b ≡ j
    → length (a ++ (x ∷ b)) ≡ i + suc j
length-field_eq a x b i j h k = omega (arith, length-append a (x ∷ b))

length-decimal : (k n : ℕ) → n < tens (suc k) → length (decimal n) ≤ suc k
unfolding decimal
length-decimal k n h = length-digits k n n h

decimal-NoBreak : (n : ℕ) → NoBreak (decimal n)
unfolding decimal
decimal-NoBreak n = digits-NoBreak n n

length-padded : (k n : ℕ) → n < tens (suc k) → length (padded (suc k) n) ≡ suc k
unfolding padded
length-padded k n h = omega (
  arith,
  length-decimal k n h,
  length-append (replicate (suc k - length (decimal n)) b'0') (decimal n),
  length-replicate {A = ℕ} (suc k - length (decimal n)) b'0',
)

zeros-NoBreak : (n : ℕ) → NoBreak (replicate n b'0')
zeros-NoBreak zero = tt
zeros-NoBreak (suc n) = (refl, refl, zeros-NoBreak n)

padded-NoBreak : (w n : ℕ) → NoBreak (padded w n)
unfolding padded
padded-NoBreak w n =
    NoBreak-append (replicate (w - length (decimal n)) b'0') (decimal n)
      (zeros-NoBreak (w - length (decimal n))) (decimal-NoBreak n)

-- What `strcpy` leaves of a text without NUL that is shorter than its array.
str_copy-NoBreak :
    (buf text : List ℕ)
    → NoBreak text
    → length text < length buf
    → (buf' : List ℕ) × (str_copy buf text ≡ some buf') × (c_text buf' ≡ some text)
str_copy-NoBreak buf text clean short =
    let (buf', e, _) = str_copy_fits buf text short in
    (buf', e, c_text-str_copy buf (text ++ (0 ∷ [])) (c_text-NoBreak_end text [] clean) e)

-- A time as `localtime` gives it, before the year 10000.
pub record InRange (t : Tm) : Type 0 where
  pub year : t.tm_year + 1900 < 10000
  pub mon : t.tm_mon < 12
  pub mday : t.tm_mday < 32
  pub hour : t.tm_hour < 24
  pub min : t.tm_min < 60
  pub sec : t.tm_sec < 62

module _ (t : Tm) (r : InRange t) where
  length-time_text : length (time_text t) ≤ 19
  unfolding time_text
  length-time_text =
      length-field (decimal (t.tm_year + 1900)) b'-' _ 4 14
        (length-decimal 3 _ (omega (arith, r.year)))
        (length-field (decimal (t.tm_mon + 1)) b'-' _ 2 11
          (length-decimal 1 _ (omega (arith, r.mon)))
          (length-field (decimal t.tm_mday) b' ' _ 2 8 (length-decimal 1 _ (omega (arith, r.mday)))
            (length-field (decimal t.tm_hour) b':' _ 2 5
              (length-decimal 1 _ (omega (arith, r.hour)))
              (length-field (decimal t.tm_min) b':' _ 2 2
                (length-decimal 1 _ (omega (arith, r.min)))
                (length-decimal 1 _ (omega (arith, r.sec)))))))

  length-log_time_text : (usec : ℕ) → usec < 1000000 → length (log_time_text t usec) ≡ 25
  unfolding log_time_text
  length-log_time_text usec h =
      length-field_eq (padded 4 (t.tm_year + 1900)) b'-' _ 4 20
        (length-padded 3 _ (omega (arith, r.year)))
        (length-field_eq (padded 2 (t.tm_mon + 1)) b'-' _ 2 17
          (length-padded 1 _ (omega (arith, r.mon)))
          (length-field_eq (padded 2 t.tm_mday) b' ' _ 2 14
            (length-padded 1 _ (omega (arith, r.mday)))
            (length-field_eq (padded 2 t.tm_hour) b':' _ 2 11
              (length-padded 1 _ (omega (arith, r.hour)))
              (length-field_eq (padded 2 t.tm_min) b':' _ 2 8
                (length-padded 1 _ (omega (arith, r.min)))
                (length-field_eq (padded 2 t.tm_sec) b' ' _ 2 5
                  (length-padded 1 _ (omega (arith, r.sec)))
                  (length-field_eq (padded 3 (usec / 1000)) b'm' (b's' ∷ []) 3 1
                    (length-padded 2 _ (omega (arith, h))) refl))))))

  time_text-NoBreak : NoBreak (time_text t)
  unfolding time_text
  time_text-NoBreak = NoBreak-append (decimal (t.tm_year + 1900)) _ (decimal-NoBreak _) (
    refl,
    refl,
    NoBreak-append (decimal (t.tm_mon + 1)) _ (decimal-NoBreak _) (
      refl,
      refl,
      NoBreak-append (decimal t.tm_mday) _ (decimal-NoBreak _) (
        refl,
        refl,
        NoBreak-append (decimal t.tm_hour) _ (decimal-NoBreak _) (
          refl,
          refl,
          NoBreak-append (decimal t.tm_min) _ (decimal-NoBreak _) (refl, refl, decimal-NoBreak _),
        ),
      ),
    ),
  )

  log_time_text-NoBreak : (usec : ℕ) → NoBreak (log_time_text t usec)
  unfolding log_time_text
  log_time_text-NoBreak usec = NoBreak-append (padded 4 (t.tm_year + 1900)) _ (padded-NoBreak 4 _) (
    refl,
    refl,
    NoBreak-append (padded 2 (t.tm_mon + 1)) _ (padded-NoBreak 2 _) (
      refl,
      refl,
      NoBreak-append (padded 2 t.tm_mday) _ (padded-NoBreak 2 _) (
        refl,
        refl,
        NoBreak-append (padded 2 t.tm_hour) _ (padded-NoBreak 2 _) (
          refl,
          refl,
          NoBreak-append (padded 2 t.tm_min) _ (padded-NoBreak 2 _) (
            refl,
            refl,
            NoBreak-append (padded 2 t.tm_sec) _ (padded-NoBreak 2 _) (
              refl,
              refl,
              NoBreak-append (padded 3 (usec / 1000)) _ (padded-NoBreak 3 _)
                  (refl, refl, (refl, refl, tt)),
            ),
          ),
        ),
      ),
    ),
  )

  -- For a time as `localtime` gives it, before the year 10000, and any bytes in the arrays: `get_time`
  -- fits its text and the NUL into the 32 bytes that its callers have, and `LOG_PrintLogTime` its
  -- text into the 128 bytes that `LOG_PrintLog` has, without cutting it off.
  pub times_fit :
      (usec : ℕ) (now_time uc_time : List ℕ)
      → usec < 1000000
      → length now_time ≡ 32
      → length uc_time ≡ 128
      → ((buf : List ℕ) × (get_time t now_time ≡ some buf) × (c_text buf ≡ some (time_text t)))
        × ((buf : List ℕ) × (log_print_log_time t usec uc_time 128 ≡ some buf)
            × (c_text buf ≡ some (log_time_text t usec)))
  unfolding get_time log_print_log_time
  times_fit usec now_time uc_time h size size' =
      let cleared : length (replicate 8 0 ++ drop 8 now_time) ≡ 32 =
        omega (arith, size, length-drop 8 now_time) in
      let room : leb 8 (length now_time) ≡ true = ground (arith, size) in
      let long = length-log_time_text usec h in
      let whole = take_all 126 (log_time_text t usec) (omega (arith, long)) in
      (
        rw room (
            str_copy-NoBreak (replicate 8 0 ++ drop 8 now_time) (time_text t) time_text-NoBreak
              (omega (arith, cleared, length-time_text))),
        rw whole (
            str_copy-NoBreak uc_time (log_time_text t usec) (log_time_text-NoBreak usec)
              (omega (arith, long, size'))),
      )
