-- ===== src/Server/Files.antt =====
-- `createfile` of a_cat/server/work/work.c, which nothing calls. The calls are taken to succeed, but that
-- `lseek` refuses an offset below 0.
use linux_cat.Common.{
  ℕ, ◌+◌, ◌-◌, ◌<◌, ◌≡◌, refl, List, [], ◌∷◌, ◌++◌, Option, none, some, true, ltb, if◌then◌else◌,
  length, take, drop, replicate, max, arith, length-append, length-take, length-drop,
  length-replicate,
}

-- A byte at an offset of a file, with zeroes up to it.
unfoldable pub put_byte : List ℕ → ℕ → ℕ → List ℕ
put_byte old p b = take p (old ++ replicate (p - length old) 0) ++ (b ∷ drop (p + 1) old)

-- `filesize` is a text, of which `*filesize` is the first `char`, a signed byte; `old` is what the file
-- holds, nothing if it is new.
unfoldable pub createfile : List ℕ → List ℕ → Option (List ℕ)
createfile [] old = none
createfile (c ∷ filesize) old = some (put_byte old (if ltb c 128 then c - 1 else 0) 32)

length-put_byte : (old : List ℕ) (p b : ℕ) → length (put_byte old p b) ≡ max (length old) (p + 1)
unfolding put_byte
length-put_byte old p b =
    let zeros = replicate {A = ℕ} (p - length old) 0 in
    omega (
      arith,
      length-append (take p (old ++ zeros)) (b ∷ drop (p + 1) old),
      length-take p (old ++ zeros),
      length-append old zeros,
      length-replicate {A = ℕ} (p - length old) 0,
      length-drop (p + 1) old,
    )

-- The code of the first digit, and not the number, decides on the size: a new file for a size that is
-- written with a first digit `d` has 48 + d bytes.
createfile-digit :
    (d : ℕ) (digits : List ℕ)
    → d < 10
    → (file : List ℕ) × (createfile ((48 + d) ∷ digits) [] ≡ some file) × (length file ≡ 48 + d)
unfolding createfile
createfile-digit d digits h =
    let small : ltb (48 + d) 128 ≡ true = ground (arith, h) in
    (put_byte [] (48 + d - 1) 32, rw small refl, omega (arith, length-put_byte [] (48 + d - 1) 32))
