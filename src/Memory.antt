-- ===== src/Memory.antt =====
-- C strings in byte arrays, as the client and the server use them. An array is the list of its
-- bytes; an access past its end is undefined, and makes the result `none`.
pub mod Laws
pub mod Texts
use linux_cat.Common.{
  ℕ, zero, suc, ◌+◌, ◌≤◌, Bool, true, false, ◌&&◌, List, [], ◌∷◌, ◌++◌, Option, none, some, ltb,
  leb, ◌==◌, if◌then◌else◌, length, drop,
}

abbrev pub prepend : ℕ → Option (List ℕ) → Option (List ℕ)
prepend b none = none
prepend b (some t) = some (b ∷ t)

-- The text in an array: the bytes before the first NUL.
unfoldable pub c_text : List ℕ → Option (List ℕ)
c_text [] = none
c_text (b ∷ bs) = if b == 0 then some [] else prepend b (c_text bs)

-- `strcmp(a, b) == 0`
unfoldable pub str_eq : List ℕ → List ℕ → Option Bool
str_eq [] _ = none
str_eq (a ∷ as') [] = none
str_eq (a ∷ as') (b ∷ bs) =
    let rest = str_eq as' bs in if a == b then (if a == 0 then some true else rest) else some false

-- `strcpy` of a text into an array: `none` if the text and its NUL do not fit.
unfoldable pub str_copy : List ℕ → List ℕ → Option (List ℕ)
str_copy buf t =
    if ltb (length t) (length buf) then some (t ++ (0 ∷ drop (length t + 1) buf)) else none

unfoldable pub bytes_eq : List ℕ → List ℕ → Bool
bytes_eq [] [] = true
bytes_eq (x ∷ xs) (y ∷ ys) = x == y && bytes_eq xs ys
bytes_eq _ _ = false

unfoldable pub is_prefix : List ℕ → List ℕ → Bool
is_prefix [] ys = true
is_prefix (x ∷ xs) [] = false
is_prefix (x ∷ xs) (y ∷ ys) = x == y && is_prefix xs ys

-- `my_strcmp` of a_cat/server/work/work.c: it steps on while the bytes agree, and answers 1 when
-- the next byte of `dest` is NUL, whatever `src` holds there.
unfoldable pub my_strcmp : List ℕ → List ℕ → Option Bool
my_strcmp [] _ = none
my_strcmp (d ∷ ds) [] = none
my_strcmp (d ∷ []) (s ∷ ss) = if d == s then none else some false
my_strcmp (d ∷ e ∷ ds) (s ∷ ss) =
    let rest = my_strcmp (e ∷ ds) ss in
    if d == s then (if e == 0 then some true else rest) else some false
