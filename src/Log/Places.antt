-- ===== src/Log/Places.antt =====
-- Where the entries of the log go (`LOG_PrintLog` of a_cat/server/log/log.c): the terminal or the
-- three files in turn.
use linux_cat.Common.{ℕ, ◌+◌, ◌%◌, ◌<◌, ◌≡◌, ◌≢◌, ◌⊎◌, refl, List, [], ◌∷◌, ◌++◌, none, arith}
use linux_cat.Log.{
  Log, Answers, Effect, prints, opens, puts, closes, boot, log_set_print_log_place_flag,
  log_set_print_debug_log_flag, log_init, log_info, log_print_log, log_open_log_file, put_line,
}

-- The start of `main`: debug entries wanted, the place flag 1, the name and size of the files.
abbrev pub started : List ℕ → ℕ → Log
started name size =
    (log_init (log_set_print_log_place_flag (log_set_print_debug_log_flag boot 1) 1) name size).0

-- One use of `LOG_INFO`: what the system answers, the type, its label and the text.
pub record Entry : Type 0 where
  pub answers : Answers
  pub type : ℕ
  pub label : List ℕ
  pub text : List ℕ

pub log_entries : Log → List Entry → Log × List Effect
log_entries g [] = (g, [])
log_entries g (e ∷ es) =
    let (g₁, xs) = log_info g e.answers e.type e.label e.text in
    let (g₂, ys) = log_entries g₁ es in (g₂, xs ++ ys)

pub OnlyPrints : List Effect → Type 0
OnlyPrints [] = Unit {0}
OnlyPrints (prints t ∷ es) = OnlyPrints es
OnlyPrints (opens p b ∷ es) = ⊥
OnlyPrints (puts t ∷ es) = ⊥
OnlyPrints (closes ∷ es) = ⊥

OnlyPrints-append : (a b : List Effect) → OnlyPrints a → OnlyPrints b → OnlyPrints (a ++ b)
unfolding OnlyPrints
OnlyPrints-append [] b u v = v
OnlyPrints-append (prints t ∷ a) b u v = OnlyPrints-append a b u v
OnlyPrints-append (opens p c ∷ a) b u v = absurd u
OnlyPrints-append (puts t ∷ a) b u v = absurd u
OnlyPrints-append (closes ∷ a) b u v = absurd u

info_prints :
    (g : Log) (a : Answers) (type : ℕ) (label text : List ℕ)
    → g.print_log_place_flag ≡ 1
    → ((log_info g a type label text).0 ≡ g) × OnlyPrints (log_info g a type label text).1
unfolding log_info log_print_log OnlyPrints
info_prints g a type label text one = ground arith

entries_print :
    (g : Log) (es : List Entry)
    → g.print_log_place_flag ≡ 1
    → ((log_entries g es).0 ≡ g) × OnlyPrints (log_entries g es).1
unfolding log_entries OnlyPrints
entries_print g [] one = (refl, tt)
entries_print g (e ∷ es) one =
    let (same, p) = info_prints g e.answers e.type e.label e.text one in
    let (still, p') = entries_print g es one in
    rw same (
      still,
      OnlyPrints-append (log_info g e.answers e.type e.label e.text).1 (log_entries g es).1 p p',
    )

-- After the start of `main`, with any name and size of the files and whatever the entries, nothing is opened or written but the terminal, and
-- the log stays as it was.
pub entries_never_stored :
    (name : List ℕ) (size : ℕ) (es : List Entry)
    → ((log_entries (started name size) es).0 ≡ started name size)
      × OnlyPrints (log_entries (started name size) es).1
unfolding log_init log_set_print_log_place_flag log_set_print_debug_log_flag
entries_never_stored name size es = entries_print (started name size) es (ground arith)

-- With a place flag other than 1 and a file number below 3, an entry leaves a file open only when that file is still below the limit,
-- and keeps the number of the current file below 3.
log_print_log_rolls :
    (g : Log) (a : Answers) (label info : List ℕ)
    → g.print_log_place_flag ≢ 1
    → g.file_no < 3
    → ((log_print_log g a label info).0.file_no < 3)
      × (((log_print_log g a label info).0.p_file ≡ none) ⊎ (a.told < g.file_size))
unfolding log_print_log put_line log_open_log_file
log_print_log_rolls g a label info other small =
    let next : (g.file_no + 1) % 3 < 3 = omega arith in ground (arith, next)
