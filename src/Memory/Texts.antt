-- ===== src/Memory/Texts.antt =====
-- Texts without NUL and newline.
use linux_cat.Common.{
  ℕ, ◌≡◌, refl, false, List, [], ◌∷◌, ◌++◌, some, ◌>>=◌, ◌==◌, Option-cases, inl, inr, append-nil,
  ◌∙◌, ap,
}
use linux_cat.Memory.{c_text}

abbrev pub NoBreak : List ℕ → Type 0
NoBreak [] = Unit {0}
NoBreak (b ∷ bs) = ((b == 0) ≡ false) × ((b == 10) ≡ false) × NoBreak bs

pub NoBreak-append : (a b : List ℕ) → NoBreak a → NoBreak b → NoBreak (a ++ b)
NoBreak-append [] b h k = k
NoBreak-append (x ∷ a) b h k = (h.0, h.1, NoBreak-append a b h.2 k)

pub c_text-NoBreak :
    (l d : List ℕ) → NoBreak l → c_text (l ++ d) ≡ (c_text d >>= λ j. some (l ++ j))
unfolding c_text
c_text-NoBreak [] d h = elim (Option-cases (c_text d)) [
  | inl e ↦ rw e refl
  | inr (t, e) ↦ rw e refl
]
c_text-NoBreak (x ∷ l) d h =
    rw (h.0, c_text-NoBreak l d h.2)
      (elim (Option-cases (c_text d)) [ inl e ↦ rw e refl | inr (t, e) ↦ rw e refl ])

-- Such a text is what `c_text` finds in front of a NUL.
pub c_text-NoBreak_end : (l d : List ℕ) → NoBreak l → c_text (l ++ (0 ∷ d)) ≡ some l
unfolding c_text
c_text-NoBreak_end l d h = c_text-NoBreak l (0 ∷ d) h ∙ ap some (append-nil l)
