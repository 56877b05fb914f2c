-- ===== src/Clock/Digits.antt =====
-- What the digits of a number are worth (`%d` in `get_time` of a_cat/server/work/work.c).
use linux_cat.Common.{
  ℕ, zero, suc, ◌+◌, ◌-◌, ◌*◌, ◌/◌, ◌%◌, ◌≤◌, ◌≡◌, refl, List, [], ◌∷◌, ◌++◌, ltb, true, false,
  arith, dec_lt,
}
use linux_cat.Clock.{digits, decimal}

-- The number that a text of digits stands for, behind a number read so far.
abbrev worth : ℕ → List ℕ → ℕ
worth n [] = n
worth n (d ∷ ds) = worth (n * 10 + (d - b'0')) ds

worth-append : (n d : ℕ) (ds : List ℕ) → worth n (ds ++ (d ∷ [])) ≡ worth n ds * 10 + (d - b'0')
worth-append n d [] = refl
worth-append n d (x ∷ ds) = worth-append (n * 10 + (x - b'0')) d ds

worth-digits : (fuel n : ℕ) → n ≤ fuel → worth 0 (digits fuel n) ≡ n
unfolding digits
worth-digits zero n h = omega (arith, h)
worth-digits (suc fuel) n h = elim (dec_lt n 10) [
  | yes p ↦ let small : ltb n 10 ≡ true = ground (arith, p) in rw small (omega arith)
  | no p ↦
      let large : ltb n 10 ≡ false = ground (arith, p) in
      let front = worth-digits fuel (n / 10) (omega (arith, h, p)) in
      rw large (omega (arith, worth-append 0 (b'0' + n % 10) (digits fuel (n / 10)), front))
]

-- The digits of a number are worth the number: the number itself is fuel enough for them.
worth-decimal : (n : ℕ) → worth 0 (decimal n) ≡ n
unfolding decimal
worth-decimal n = worth-digits n n (omega arith)
