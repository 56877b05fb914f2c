-- ===== src/Client/Printing/Lines.antt =====
-- The rounds of case 9 of `thread_read` (a_cat/client/work/work.c) over a text of lines.
use linux_cat.Common.{
  ℕ, ◌≡◌, refl, sym, ◌∙◌, ap, true, false, List, [], ◌∷◌, ◌++◌, Option, none, some, ◌>>=◌, ltb, leb,
  Bool, ◌&&◌, if◌then◌else◌, length, drop, replicate, drop-replicate, drop_all, Option-cases,
  fun_ext, inl, inr, Bool-cases, arith, append_assoc, append-nil, dec_lt,
}
use linux_cat.Memory.{c_text}
use linux_cat.Memory.Texts.{NoBreak, c_text-NoBreak}
use linux_cat.Client.Printing.{fill_buffer, print_lines}

abbrev pub AreLines : List (List ℕ) → Type 0
AreLines [] = Unit {0}
AreLines (l ∷ ls) = NoBreak l × AreLines ls

abbrev pub unlines : List (List ℕ) → List ℕ
unlines [] = []
unlines (l ∷ ls) = l ++ (10 ∷ unlines ls)

abbrev pub all_short : List (List ℕ) → Bool
all_short [] = true
all_short (l ∷ ls) = ltb (length l) 100 && all_short ls

-- What the client shows of lines, when its buffer holds `buf` at first: what lies in the buffer behind
-- the first line is shown with it, every other line is shown as it is, and an empty line at the end.
abbrev pub lines_view : List ℕ → List (List ℕ) → Option (List (List ℕ))
lines_view buf [] = c_text buf >>= λ junk. some (junk ∷ [])
lines_view buf (l ∷ ls) = c_text (drop (length l) buf) >>= λ junk.
    if all_short ls then some ((l ++ junk) ∷ (ls ++ ([] ∷ []))) else none

c_text-filled :
    (buf l : List ℕ) (k : List ℕ → Option (List (List ℕ)))
    → NoBreak l
    → (fill_buffer buf l >>= λ filled. (c_text filled >>= k))
      ≡ (c_text (drop (length l) buf) >>= λ j. k (l ++ j))
unfolding fill_buffer c_text
c_text-filled buf l k h = elim (dec_lt (length buf) (length l)) [
  | yes over ↦
      let empty = drop_all (length l) buf (omega (arith, over)) in
      let long : leb (length l) (length buf) ≡ false = ground (arith, over) in rw (empty, long) refl
  | no fits ↦
      let short : leb (length l) (length buf) ≡ true = ground (arith, fits) in
      rw (short, c_text-NoBreak l (drop (length l) buf) h)
        (elim (Option-cases (c_text (drop (length l) buf))) [
          | inl e ↦ rw e refl
          | inr (t, e) ↦ rw e refl
        ])
]

print_lines-line :
    (ch : ℕ) (buf line x rest : List ℕ)
    → NoBreak x
    → print_lines ch buf line (x ++ rest) ≡ print_lines ch buf (line ++ x) rest
unfolding print_lines
print_lines-line ch buf line [] rest h = ap (λ l. print_lines ch buf l rest) (sym (append-nil line))
print_lines-line ch buf line (b ∷ x) rest h =
    rw (h.1, print_lines)
      (print_lines-line ch buf (line ++ (b ∷ [])) x rest h.2
        ∙ ap (λ l. print_lines ch buf l rest) (append_assoc line (b ∷ []) x))

abbrev nul : ℕ
nul = 0

lines_view-zeros :
    (ls : List (List ℕ))
    → lines_view (replicate 100 0) ls ≡ (if all_short ls then some (ls ++ ([] ∷ [])) else none)
unfolding c_text
lines_view-zeros [] = refl
lines_view-zeros (l ∷ ls) = elim (dec_lt (length l) 100) [
  | yes short ↦
      let (tail, e) = drop-replicate {A = ℕ} (length l) 100 0 short in
      let fits : ltb (length l) 100 ≡ true = ground (arith, short) in
      rw (e, fits, append-nil l) refl
  | no long ↦
      let e = drop_all (length l) (replicate 100 nul) (omega (arith, long)) in
      let over : ltb (length l) 100 ≡ false = ground (arith, long) in rw (e, over) refl
]

pub print_lines-unlines :
    (buf : List ℕ) (ls : List (List ℕ))
    → AreLines ls
    → print_lines 10 buf [] (unlines ls) ≡ lines_view buf ls
unfolding print_lines
print_lines-unlines buf [] h = refl
print_lines-unlines buf (l ∷ ls) h =
    print_lines-line 10 buf [] l (10 ∷ unlines ls) h.0
    ∙ c_text-filled buf l
        (λ shown. print_lines 10 (replicate 100 0) [] (unlines ls) >>= λ rest. some (shown ∷ rest))
        h.0
    ∙ rw (print_lines-unlines (replicate 100 0) ls h.1, lines_view-zeros ls)
        (ap (λ f. c_text (drop (length l) buf) >>= f)
          (fun_ext
            (λ j. elim (Bool-cases (all_short ls)) [ inl e ↦ rw e refl | inr e ↦ rw e refl ])))

pub NoBreak-unlines :
    (ls : List (List ℕ)) (d : List ℕ)
    → AreLines ls
    → c_text (unlines ls ++ (0 ∷ d)) ≡ some (unlines ls)
unfolding c_text
NoBreak-unlines [] d h = refl
NoBreak-unlines (l ∷ ls) d h =
    rw
      (
        append_assoc l (10 ∷ unlines ls) (0 ∷ d),
        c_text-NoBreak l (10 ∷ (unlines ls ++ (0 ∷ d))) h.0,
        NoBreak-unlines ls d h.1,
      )
      refl
