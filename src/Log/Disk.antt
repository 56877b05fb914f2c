-- ===== src/Log/Disk.antt =====
-- The log files on a disk: what a run of `LOG_PrintLog` (a_cat/server/log/log.c) leaves of them.
pub mod Put
pub mod Bounds
use linux_cat.Common.{
  ℕ, ◌+◌, ◌<◌, ◌≤◌, ◌≡◌, ◌≢◌, refl, sym, ap, ◌∙◌, Bool, true, false, ◌&&◌, List, [], ◌∷◌, Option,
  none, some, ltb, leb, ◌==◌, if◌then◌else◌, get_or, length, take, length-take, arith, subst, codes,
  ◌++◌, Option-cases, Bool-cases, inl, inr,
}
use linux_cat.Memory.{bytes_eq}
use linux_cat.Memory.Laws.{bytes_eq_iff}
use linux_cat.Log.{
  Log, Effect, prints, opens, puts, closes, Answers, get_file_size, log_open_log_file, log_line,
  put_line, log_print_log,
}

-- The size of the file at a path; `none` if there is no file.
abbrev pub Disk : Type 0
Disk = List ℕ → Option ℕ

abbrev pub size_of : Option ℕ → ℕ
size_of none = 0
size_of (some n) = n

unfoldable pub set_size : Disk → List ℕ → ℕ → Disk
set_size d p n q = if bytes_eq p q then some n else d q

abbrev pub is_there : Option ℕ → Bool
is_there none = false
is_there (some n) = true

-- What the effects of an entry do to the disk. `ok` is whether `fopen` succeeds, `file` the open file.
unfoldable pub perform : Bool → Option (List ℕ) → List Effect → Disk → Disk
perform ok file [] d = d
perform ok file (prints line ∷ es) d = perform ok file es d
perform ok file (opens p appends ∷ es) d =
    let opened = perform ok (some p) es (if appends then d else set_size d p 0) in
    let failed = perform ok file es d in if ok then opened else failed
perform ok (some p) (puts line ∷ es) d =
    perform ok (some p) es (set_size d p (size_of (d p) + length line))
perform ok none (puts line ∷ es) d = perform ok none es d
perform ok file (closes ∷ es) d = perform ok none es d

-- How much the file holds into which the entry will go, once it is open
unfoldable pub held : Log → Disk → Option (List ℕ) → ℕ
held g d (some p) = size_of (d p)
held g d none =
    let len = size_of (d (get_or g.file_names g.file_no [])) in
    if ltb 0 len && ltb len g.file_size then len else 0

pub record Line : Type 0 where
  pub time : List ℕ
  pub label : List ℕ
  pub info : List ℕ
  pub fopen_ok : Bool

-- What `access`, `stat` and `ftell` answer about the disk
abbrev pub disk_answers : Log → Disk → Line → Answers
disk_answers g d e =
    let here = d (get_or g.file_names g.file_no []) in
    record {
      time = e.time;
      exists = is_there here;
      size = here;
      opened = e.fopen_ok;
      told = held g d g.p_file + length (log_line e.time e.label e.info);
    }

unfoldable pub store_line : Log × Disk → Line → Log × Disk
store_line (g, d) e =
    let (g', es) = log_print_log g (disk_answers g d e) e.label e.info in
    (g', perform e.fopen_ok g.p_file es d)

unfoldable pub log_run : Log × Disk → List Line → Log × Disk
log_run s [] = s
log_run s (e ∷ es) = log_run (store_line s e) es
