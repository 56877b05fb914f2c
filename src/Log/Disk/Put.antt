-- ===== src/Log/Disk/Put.antt =====
-- A line that goes into an open log file (`LOG_PrintLog` of a_cat/server/log/log.c).
use linux_cat.Common.{
  ℕ, ◌+◌, ◌<◌, ◌≤◌, ◌≡◌, ◌≢◌, refl, sym, Bool, List, Option, none, some, leb, length, length-take,
  arith, subst, codes, ◌++◌, Bool-cases, inl, inr,
}
use linux_cat.Memory.{bytes_eq}
use linux_cat.Memory.Laws.{bytes_eq_iff}
use linux_cat.Log.{Log, log_line, put_line}
use linux_cat.Log.Disk.{Disk, size_of, set_size, perform}

abbrev pub IsBelow : Disk → ℕ → Option (List ℕ) → Type 0
IsBelow d limit none = Unit {0}
IsBelow d limit (some p) = size_of (d p) < limit

-- The log is stored in files, the number of the current one is below 3, none has more than 1021 bytes
-- above the limit, and the open one is below the limit.
pub record IsBounded (limit : ℕ) (g : Log) (d : Disk) : Type 0 where
  pub stored : g.print_log_place_flag ≢ 1
  pub limit_is : g.file_size ≡ limit
  pub number : g.file_no < 3
  pub sizes : (p : List ℕ) → size_of (d p) ≤ limit + 1021
  pub open_below : IsBelow d limit g.p_file

pub line-short : (time label info : List ℕ) → length (log_line time label info) ≤ 1022
unfolding log_line
line-short time label info =
    let whole = codes "[" ++ (time ++ (codes "] [" ++ (label ++ (codes "] " ++ info)))) in
    omega (arith, length-take 1022 whole)

pub set_size_self : (d : Disk) (p : List ℕ) (n : ℕ) → set_size d p n p ≡ some n
unfolding set_size
set_size_self d p n = rw ((bytes_eq_iff p p).1 refl) refl

pub set_size-small :
    (d : Disk) (p : List ℕ) (n bound : ℕ)
    → n ≤ bound
    → ((q : List ℕ) → size_of (d q) ≤ bound)
    → (q : List ℕ) → size_of (set_size d p n q) ≤ bound
unfolding set_size
set_size-small d p n bound h small q = elim (Bool-cases (bytes_eq p q)) [
  | inl same ↦ rw same h
  | inr other ↦ rw other (small q)
]

-- The line goes into the open file, which is then closed if it has reached the limit.
pub put-IsBounded :
    (limit n told : ℕ) (g : Log) (d : Disk) (ok : Bool) (p line : List ℕ)
    → IsBounded limit g d
    → g.p_file ≡ some p
    → size_of (d p) ≡ n
    → n < limit
    → told ≡ n + length line
    → length line ≤ 1022
    → IsBounded limit
        (put_line g line told (some p)).0
        (perform ok (some p) (put_line g line told (some p)).1 d)
unfolding put_line perform
put-IsBounded limit n told g d ok p line b open_is now below told_is short =
    let size = size_of (d p) + length line in
    let fits : size ≤ limit + 1021 = omega (arith, now, below, short) in
    let small = set_size-small d p size (limit + 1021) fits b.sizes in
    let limit_is = b.limit_is in
    elim (Bool-cases (leb g.file_size told)) [
      | inl full ↦ rw full (record {
        stored = b.stored;
        limit_is = limit_is;
        number = omega arith;
        sizes = small;
        open_below = tt;
      })
      | inr room ↦
          let under : size < limit = ground (arith, room, limit_is, told_is, now) in
          let kept : IsBelow (set_size d p size) limit (some p) = rw set_size_self under in
          rw room (record {
            stored = b.stored;
            limit_is = limit_is;
            number = b.number;
            sizes = small;
            open_below = subst (IsBelow (set_size d p size) limit) (sym open_is) kept;
          })
    ]
