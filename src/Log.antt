-- ===== src/Log.antt =====
-- The log of a_cat/server/log/log.c and include/log.h. What the system answers to a call (time, stat,
-- fopen, ftell) is an argument; what a call does outside the program is a list of effects.
pub mod Labels
pub mod Places
pub mod Disk
mod Tests
use linux_cat.Common.{
  ℕ, zero, suc, ◌+◌, ◌-◌, ◌%◌, ℤ, pos, negsuc, Bool, true, false, not, ◌&&◌, ◌||◌, List, [], ◌∷◌,
  ◌++◌, Option, none, some, ltb, leb, ◌==◌, if◌then◌else◌, take, drop, replicate, get_or, codes,
}

-- The file-scope variables. `p_file` is the path of the open file.
pub record Log : Type 0 where
  pub file_names : List (List ℕ)
  pub file_no : ℕ
  pub print_log_place_flag : ℕ
  pub print_debug_log_flag : ℕ
  pub file_size : ℕ
  pub p_file : Option (List ℕ)
  pub init_flag : ℕ

-- The state before any call.
abbrev pub boot : Log
boot = record {
  file_names = [] ∷ [] ∷ [] ∷ [];
  file_no = 0;
  print_log_place_flag = 0;
  print_debug_log_flag = 0;
  file_size = 0;
  p_file = none;
  init_flag = 0;
}

abbrev pub max_log_file_num : ℕ
max_log_file_num = 3

pub data Effect : Type 0 where
  prints : List ℕ → Effect  -- to the terminal
  opens : List ℕ → Bool → Effect  -- the path, and whether it appends
  puts : List ℕ → Effect  -- to the open file
  closes : Effect

-- What the system answers while one entry is written. `size` is what `stat` gives, `none` if it fails.
pub record Answers : Type 0 where
  pub time : List ℕ
  pub exists : Bool
  pub size : Option ℕ
  pub opened : Bool
  pub told : ℕ

pub log_set_print_log_place_flag : Log → ℕ → Log
log_set_print_log_place_flag g flag = record g { print_log_place_flag = flag }

pub log_set_print_debug_log_flag : Log → ℕ → Log
log_set_print_debug_log_flag g flag = record g { print_debug_log_flag = flag }

-- `strncpy(buf, t, n)`, which pads with NULs
pub strncpy : List ℕ → List ℕ → ℕ → List ℕ
strncpy buf t n = take n (t ++ replicate n 0) ++ drop n buf

-- The texts that the switch of `LOG_LogTypeToStr` copies, one after the other: only the first two
-- labels have a `break`.
pub labels : ℕ → List (List ℕ)
labels type =
    if type == 0
    then codes "DEBUG" ∷ []
    else if type == 1
    then codes "ERROR" ∷ []
    else if type == 2
    then codes "WARNING" ∷ codes "ACTION" ∷ codes "SYSTEM" ∷ codes "UNKNOWN" ∷ []
    else if type == 3
    then codes "ACTION" ∷ codes "SYSTEM" ∷ codes "UNKNOWN" ∷ []
    else if type == 4
    then codes "SYSTEM" ∷ codes "UNKNOWN" ∷ []
    else codes "UNKNOWN" ∷ []

pub copy_labels : ℕ → List ℕ → List (List ℕ) → List ℕ
copy_labels n buf [] = buf
copy_labels n buf (t ∷ ts) = copy_labels n (strncpy buf t n) ts

pub log_log_type_to_str : ℕ → List ℕ → ℕ → List ℕ
unfolding copy_labels labels
log_log_type_to_str type buf buf_len = copy_labels (buf_len - 1) buf (labels type)

-- `get_file_size`, by what `stat` answers
pub get_file_size : Option ℕ → ℤ
get_file_size none = negsuc 0
get_file_size (some st_size) = pos st_size

-- `LOG_OpenLogFile`
pub log_open_log_file : Log → Answers → Log × List Effect
unfolding get_file_size
log_open_log_file g a =
    let path = get_or g.file_names g.file_no [] in
    let open_with = λ (len : ℕ).
      let appends = ltb 0 len && ltb len g.file_size in
      if a.opened
      then (record g { p_file = some path }, opens path appends ∷ [])
      else (g, opens path appends ∷ []) in
    elim g.p_file [
      | some p ↦ (g, [])
      | none ↦
          if a.exists
          then elim (get_file_size a.size) [ negsuc _ ↦ (g, []) | pos len ↦ open_with len ]
          else open_with 0
    ]

-- The line that `LOG_PrintLog` makes, at most 1022 bytes of it.
pub log_line : List ℕ → List ℕ → List ℕ → List ℕ
log_line time label info =
    take 1022 (codes "[" ++ (time ++ (codes "] [" ++ (label ++ (codes "] " ++ info)))))

-- The end of `LOG_PrintLog`, once the file has been opened or not: `ftell` decides on the next file.
pub put_line : Log → List ℕ → ℕ → Option (List ℕ) → Log × List Effect
put_line g line told none = (g, [])
put_line g line told (some p) =
    if leb g.file_size told
    then (
      record g { p_file = none; file_no = (g.file_no + 1) % max_log_file_num },
      puts line ∷ closes ∷ [],
    )
    else (g, puts line ∷ [])

-- `LOG_PrintLog` with the label text of its type; the text is not NULL.
pub log_print_log : Log → Answers → List ℕ → List ℕ → Log × List Effect
unfolding log_line put_line log_open_log_file
log_print_log g a label info =
    let line = log_line a.time label info in
    if g.print_log_place_flag == 1
    then (g, prints line ∷ [])
    else (let (opened, es) = log_open_log_file g a in
        let (after, es') = put_line opened line a.told opened.p_file in (after, es ++ es'))

-- The macro `LOG_INFO`, for the text that its arguments format to.
pub log_info : Log → Answers → ℕ → List ℕ → List ℕ → Log × List Effect
unfolding log_print_log
log_info g a type label text =
    if g.print_log_place_flag == 1
    then (if g.print_debug_log_flag == 0 && type == 0
        then (g, [])
        else log_print_log g a label (take 1022 text))
    else log_print_log g a label (take 126 text)

-- `"%s_%02d"`, for the three files
pub log_name : List ℕ → ℕ → List ℕ
log_name name i = take 126 (name ++ (b'_' ∷ b'0' ∷ (b'0' + i) ∷ []))

-- `LOG_Init`; the name is not NULL. The Boolean says whether it answers 0.
pub log_init : Log → List ℕ → ℕ → Log × Bool
unfolding log_name
log_init g name file_size =
    if not (ltb 0 file_size)
    then (g, false)
    else if not (g.print_log_place_flag == 1) || not (g.init_flag == 0)
    then (g, true)
    else (
      record g {
        init_flag = 1;
        file_names = log_name name 0 ∷ log_name name 1 ∷ log_name name 2 ∷ [];
        file_size = file_size;
      },
      true,
    )

pub log_destroy : Log → Log × List Effect
log_destroy g = elim g.p_file [
  | none ↦ (g, [])
  | some p ↦ (record g { p_file = none }, closes ∷ [])
]
