-- ===== src/Log/Disk/Bounds.antt =====
-- How large the log files get, whatever is logged (`LOG_PrintLog` of a_cat/server/log/log.c).
use linux_cat.Common.{
  ℕ, ◌+◌, ◌<◌, ◌≤◌, ◌≡◌, ◌≢◌, refl, ap, Bool, true, false, ◌&&◌, List, [], ◌∷◌, none, some, ltb,
  ◌==◌, if◌then◌else◌, get_or, length, arith, subst, Option-cases, Bool-cases, inl, inr,
}
use linux_cat.Log.{
  Log, boot, log_init, log_set_print_log_place_flag, get_file_size, log_open_log_file, log_line,
  put_line, log_print_log,
}
use linux_cat.Log.Disk.{Disk, size_of, set_size, perform, held, Line, store_line, log_run}
use linux_cat.Log.Disk.Put.{
  IsBelow, IsBounded, line-short, set_size_self, set_size-small, put-IsBounded,
}

abbrev line_of : Line → List ℕ
line_of e = log_line e.time e.label e.info

-- What `put_line` leaves of the log and, through its effects, of the disk
abbrev put_on : Log → Disk → Bool → List ℕ → List ℕ → ℕ → Log × Disk
put_on g d ok p line told =
    let r = put_line g line told (some p) in (r.0, perform ok (some p) r.1 d)

to_file : (g : Log) → g.print_log_place_flag ≢ 1 → (g.print_log_place_flag == 1) ≡ false
to_file g h = ground (arith, h)

store_line-open :
    (g : Log) (d : Disk) (e : Line) (p : List ℕ)
    → g.print_log_place_flag ≢ 1
    → g.p_file ≡ some p
    → store_line (g, d) e ≡ put_on g d e.fopen_ok p (line_of e) (size_of (d p) + length (line_of e))
unfolding store_line log_print_log log_open_log_file held
store_line-open g d e p h open_is = rw (to_file g h, open_is) refl

abbrev next_path : Log → List ℕ
next_path g = get_or g.file_names g.file_no []

-- Whether the next file is appended to
abbrev appends_to : Log → Disk → Bool
appends_to g d = let len = size_of (d (next_path g)) in ltb 0 len && ltb len g.file_size

store_line-fails :
    (g : Log) (d : Disk) (e : Line)
    → g.print_log_place_flag ≢ 1
    → g.p_file ≡ none
    → e.fopen_ok ≡ false
    → store_line (g, d) e ≡ (g, d)
unfolding store_line log_print_log log_open_log_file held get_file_size put_line perform
store_line-fails g d e h closed fails = elim (Option-cases (d (next_path g))) [
  | inl new ↦ rw (to_file g h, closed, new, fails) refl
  | inr (len, old) ↦ rw (to_file g h, closed, old, fails) refl
]

store_line-opens :
    (g : Log) (d : Disk) (e : Line)
    → g.print_log_place_flag ≢ 1
    → g.p_file ≡ none
    → e.fopen_ok ≡ true
    → store_line (g, d) e
      ≡ put_on
          (record g { p_file = some (next_path g) })
          (if appends_to g d then d else set_size d (next_path g) 0)
          true
          (next_path g)
          (line_of e)
          ((if appends_to g d then size_of (d (next_path g)) else 0) + length (line_of e))
unfolding store_line log_print_log log_open_log_file held get_file_size perform
store_line-opens g d e h closed yes_ok = elim (Option-cases (d (next_path g))) [
  | inl new ↦ rw (to_file g h, closed, new, yes_ok) refl
  | inr (len, old) ↦ rw (to_file g h, closed, old, yes_ok) refl
]

-- The next file is opened, at its end or emptied, and gets the line.
opened-IsBounded :
    (limit : ℕ) (g : Log) (d : Disk) (line : List ℕ)
    → 0 < limit
    → length line ≤ 1022
    → IsBounded limit g d
    → let r =
        put_on
          (record g { p_file = some (next_path g) })
          (if appends_to g d then d else set_size d (next_path g) 0)
          true
          (next_path g)
          line
          ((if appends_to g d then size_of (d (next_path g)) else 0) + length line) in
      IsBounded limit r.0 r.1
opened-IsBounded limit g d line some_limit short b =
    let path = next_path g in
    let limit_is = b.limit_is in
    elim (Bool-cases (appends_to g d)) [
      | inl appends ↦
          let below : size_of (d path) < limit = ground (arith, appends, limit_is) in
          rw appends (
            put-IsBounded limit (size_of (d path)) (size_of (d path) + length line)
              (record g { p_file = some path }) d true path line
              (record {
                stored = b.stored;
                limit_is = limit_is;
                number = b.number;
                sizes = b.sizes;
                open_below = below;
              })
              refl refl below refl short)
      | inr empties ↦
          let none_held : size_of (set_size d path 0 path) ≡ 0 =
            ap size_of (set_size_self d path 0) in
          let below : size_of (set_size d path 0 path) < limit =
            omega (arith, none_held, some_limit) in
          rw empties (
            put-IsBounded limit 0 (0 + length line) (record g { p_file = some path })
              (set_size d path 0) true path line
              (record {
                stored = b.stored;
                limit_is = limit_is;
                number = b.number;
                sizes = set_size-small d path 0 (limit + 1021) (omega arith) b.sizes;
                open_below = below;
              })
              refl none_held some_limit refl short)
    ]

-- An entry keeps the files bounded.
store_line-IsBounded :
    (limit : ℕ) (g : Log) (d : Disk) (e : Line)
    → 0 < limit
    → IsBounded limit g d
    → IsBounded limit (store_line (g, d) e).0 (store_line (g, d) e).1
store_line-IsBounded limit g d e some_limit b =
    let line = line_of e in
    let short = line-short e.time e.label e.info in
    elim (Option-cases g.p_file) [
      | inr (p, open_is) ↦
          let below : size_of (d p) < limit = subst (IsBelow d limit) open_is b.open_below in
          let kept =
            put-IsBounded limit (size_of (d p)) (size_of (d p) + length line) g d e.fopen_ok p line
              b open_is refl below refl short in
          rw (store_line-open g d e p b.stored open_is) kept
      | inl closed ↦ elim (Bool-cases e.fopen_ok) [
        | inr fails ↦ rw (store_line-fails g d e b.stored closed fails) b
        | inl opens_it ↦
            rw (store_line-opens g d e b.stored closed opens_it)
              (opened-IsBounded limit g d line some_limit short b)
      ]
    ]

-- The log that files are written for: `LOG_Init` names the files while the flag is 1, and the flag is
-- set to another value behind it.
abbrev pub filed_log : List ℕ → ℕ → ℕ → Log
filed_log name limit flag =
    log_set_print_log_place_flag (log_init (log_set_print_log_place_flag boot 1) name limit).0 flag

-- Let the log be stored in files, with a limit above 0 and the number of the current file below 3; let
-- the open file, if there is one, be below the limit, and no file on the disk have more than 1021 bytes
-- above it. Whatever is then logged, and whichever calls of `fopen` fail, that stays so: no file gets
-- more than 1021 bytes above the limit, and the file left open is below it.
pub log_run-IsBounded :
    (limit : ℕ) (g : Log) (d : Disk) (es : List Line)
    → 0 < limit
    → IsBounded limit g d
    → IsBounded limit (log_run (g, d) es).0 (log_run (g, d) es).1
unfolding log_run
log_run-IsBounded limit g d [] some_limit b = b
log_run-IsBounded limit g d (e ∷ es) some_limit b =
    let (g', d') = store_line (g, d) e in
    log_run-IsBounded limit g' d' es some_limit (store_line-IsBounded limit g d e some_limit b)
