-- ===== src/Client/Printing.antt =====
-- What `thread_read` of a_cat/client/work/work.c prints for a message that comes in, and the ways that
-- cases 6 and 9 go through a file to print it line by line. `none` is undefined behaviour.
pub mod Users
pub mod Chat
pub mod Lines
pub mod History
mod Tests
use linux_cat.Common.{
  ℕ, suc, ◌+◌, ◌≤◌, Bool, true, false, ◌||◌, ◌&&◌, pos, negsuc, eq_ℤ, List, [], ◌∷◌, ◌++◌, Option,
  none, some, ◌>>=◌, ltb, leb, ◌==◌, if◌then◌else◌, length, drop, replicate,
}
use linux_cat.Memory.{c_text}
use linux_cat.Message.{Msg}

-- The characters that `%s` of `scanf` takes for a gap.
abbrev pub is_space : ℕ → Bool
is_space b = b == 32 || (leb 9 b && leb b 13)

-- The words that `fscanf(fp, "%s", buf)` reads one after the other, behind the part `w` of a word. The
-- last is what it has at the end of the file, which is no word if the file ends with a gap.
pub words_from : List ℕ → List ℕ → List (List ℕ)
words_from w [] = w ∷ []
words_from w (b ∷ bs) = elim (is_space b) [
  | false ↦ words_from (w ++ (b ∷ [])) bs
  | true ↦ elim w [ [] ↦ words_from [] bs | x ∷ xs ↦ (x ∷ xs) ∷ words_from [] bs ]
]

-- Each word is printed on a line, from a buffer of 100 bytes that is cleared behind it.
pub print_words : List (List ℕ) → Option (List (List ℕ))
print_words [] = some []
print_words (w ∷ ws) =
    print_words ws >>= λ lines. if ltb (length w) 100 then some (w ∷ lines) else none

-- The loop prints before it looks whether the file has ended, so a file of no words prints `junk`, the
-- text in the uninitialised buffer.
pub print_read : List ℕ → List (List ℕ) → Option (List (List ℕ))
print_read junk ([] ∷ []) = some (junk ∷ [])
print_read junk ([] ∷ (w ∷ ws)) = print_words ([] ∷ w ∷ ws)
print_read junk ((b ∷ w) ∷ ws) = print_words ((b ∷ w) ∷ ws)
print_read junk [] = some []

-- Case 6
pub print_users : List ℕ → Msg → Option (List (List ℕ))
print_users junk m = c_text m.message >>= λ text. print_read junk (words_from [] text)

-- What is in `buf` once a line has been put at its start: `none` if it does not fit.
pub fill_buffer : List ℕ → List ℕ → Option (List ℕ)
fill_buffer buf line =
    if leb (length line) (length buf) then some (line ++ drop (length line) buf) else none

-- The rounds of case 9 over the rest of a file, with the part `line` of a line read. Behind the last
-- line the next `fread` reads nothing and leaves `ch` as it was: `ch` is uninitialised there, and any
-- byte but a newline is written again and again past the end of `buf`.
pub print_lines : ℕ → List ℕ → List ℕ → List ℕ → Option (List (List ℕ))
unfolding fill_buffer
print_lines ch buf line [] = elim line [
  | [] ↦ if ch == 10 then (c_text buf >>= λ shown. some (shown ∷ [])) else none
  | x ∷ xs ↦ none
]
print_lines ch buf line (b ∷ bs) = elim (b == 10) [
  | false ↦ print_lines ch buf (line ++ (b ∷ [])) bs
  | true ↦ do
    filled ← fill_buffer buf line
    shown ← c_text filled
    rest ← print_lines ch (replicate 100 0) [] bs
    some (shown ∷ rest)
]

-- Case 9. `buf` and `ch` are what the stack holds in them.
pub print_history : List ℕ → ℕ → Msg → Option (List (List ℕ))
unfolding print_lines
print_history buf ch m = c_text m.message >>= λ text. print_lines ch buf [] text

-- "注册失败"
abbrev registered_not : List ℕ
registered_not =
    0xe6 ∷ 0xb3 ∷ 0xa8 ∷ 0xe5 ∷ 0x86 ∷ 0x8c ∷ 0xe5 ∷ 0xa4 ∷ 0xb1 ∷ 0xe8 ∷ 0xb4 ∷ 0xa5 ∷ []

-- "未上线"
abbrev offline : List ℕ
offline = 0xe6 ∷ 0x9c ∷ 0xaa ∷ 0xe4 ∷ 0xb8 ∷ 0x8a ∷ 0xe7 ∷ 0xba ∷ 0xbf ∷ []

-- "你被禁言了！"
abbrev silenced : List ℕ
silenced =
    0xe4 ∷ 0xbd ∷ 0xa0 ∷ 0xe8 ∷ 0xa2 ∷ 0xab ∷ 0xe7 ∷ 0xa6 ∷ 0x81 ∷ 0xe8 ∷ 0xa8 ∷ 0x80 ∷ 0xe4 ∷ 0xba
    ∷ 0x86 ∷ 0xef ∷ 0xbc ∷ 0x81 ∷ []

-- "禁言成功！"
abbrev silencing : List ℕ
silencing =
    0xe7 ∷ 0xa6 ∷ 0x81 ∷ 0xe8 ∷ 0xa8 ∷ 0x80 ∷ 0xe6 ∷ 0x88 ∷ 0x90 ∷ 0xe5 ∷ 0x8a ∷ 0x9f ∷ 0xef ∷ 0xbc
    ∷ 0x81 ∷ []

-- "解除禁言！"
abbrev freeing : List ℕ
freeing =
    0xe8 ∷ 0xa7 ∷ 0xa3 ∷ 0xe9 ∷ 0x99 ∷ 0xa4 ∷ 0xe7 ∷ 0xa6 ∷ 0x81 ∷ 0xe8 ∷ 0xa8 ∷ 0x80 ∷ 0xef ∷ 0xbc
    ∷ 0x81 ∷ []

-- "时间"
abbrev at_time : List ℕ
at_time = 0xe6 ∷ 0x97 ∷ 0xb6 ∷ 0xe9 ∷ 0x97 ∷ 0xb4 ∷ []

-- "对"
abbrev towards : List ℕ
towards = 0xe5 ∷ 0xaf ∷ 0xb9 ∷ []

-- `printf_stea`, with the text of the time
pub printf_stea : List ℕ → Msg → Option (List ℕ)
printf_stea now m = do
  name ← c_text m.name
  message ← c_text m.message
  some (at_time ++ (now ++ (0x2c ∷ (name ++ (0x3a ∷ message)))))

-- Case 4
pub print_public : Msg → Option (List ℕ)
print_public m = do
  name ← c_text m.name
  toname ← c_text m.toname
  message ← c_text m.message
  some (name ++ (towards ++ (toname ++ (0x3a ∷ message))))

-- What the stack and the clock hold when a message comes.
pub record Surroundings : Type 0 where
  pub now : List ℕ
  pub word : List ℕ
  pub buf : List ℕ
  pub ch : ℕ

-- The lines that the switch prints.
pub print_message : Surroundings → Msg → Option (List (List ℕ))
unfolding print_users print_history printf_stea print_public
print_message s m =
    if eq_ℤ m.action (pos 255)
    then some (registered_not ∷ [])
    else if eq_ℤ m.action (pos 2)
    then (printf_stea s.now m >>= λ line. some (line ∷ []))
    else if eq_ℤ m.action (negsuc 1)
    then some (offline ∷ [])
    else if eq_ℤ m.action (pos 4)
    then (print_public m >>= λ line. some (line ∷ []))
    else if eq_ℤ m.action (pos 6)
    then print_users s.word m
    else if eq_ℤ m.action (pos 7)
    then some (silenced ∷ [])
    else if eq_ℤ m.action (pos 8)
    then some (silencing ∷ [])
    else if eq_ℤ m.action (negsuc 7)
    then some (freeing ∷ [])
    else if eq_ℤ m.action (pos 9)
    then print_history s.buf s.ch m
    else some []
