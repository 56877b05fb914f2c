-- ===== src/Log/Tests.antt =====
-- The log's theorems at concrete logs, and runs of its code.
use linux_cat.Common.{ℕ, ◌≡◌, refl, List, [], ◌∷◌, some, true, false, codes, replicate}
use linux_cat.Log.{Log, Answers, boot, log_print_log, put_line, log_open_log_file}
use linux_cat.Log.Places.{Entry, started, log_entries, OnlyPrints, entries_never_stored}
use linux_cat.Log.Disk.{Line}

abbrev array : List ℕ
array = replicate 128 0

abbrev answers : Answers
answers = record { time = codes "12:00"; exists = true; size = some 40; opened = true; told = 64 }

abbrev error_entry : Entry
error_entry = record { answers = answers; type = 1; label = codes "ERROR"; text = codes "bind" }

entries_never_stored_example :
    ((log_entries (started (codes "info") 8000) (error_entry ∷ error_entry ∷ [])).0
      ≡ started (codes "info") 8000)
    × OnlyPrints (log_entries (started (codes "info") 8000) (error_entry ∷ error_entry ∷ [])).1
entries_never_stored_example =
    entries_never_stored (codes "info") 8000 (error_entry ∷ error_entry ∷ [])

-- A log that does write to its files, the second of which is nearly full.
abbrev filing : Log
filing = record boot {
  file_names = codes "a" ∷ codes "b" ∷ codes "c" ∷ [];
  file_no = 2;
  file_size = 60;
}

abbrev bind_error : Line
bind_error = record {
  time = codes "12:00";
  label = codes "ERROR";
  info = replicate 40 98;
  fopen_ok = true;
}

abbrev three_errors : List Line
three_errors = bind_error ∷ record bind_error { fopen_ok = false } ∷ bind_error ∷ []

third_rolls_to_first : (log_print_log filing answers (codes "ERROR") (codes "bind")).0.file_no ≡ 0
unfolding log_print_log log_open_log_file put_line
third_rolls_to_first = refl
