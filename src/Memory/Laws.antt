-- ===== src/Memory/Laws.antt =====
-- What the comparisons and copies of C strings mean on the texts in the arrays.
use linux_cat.Common.{
  ℕ, ◌+◌, ◌<◌, ◌≡◌, refl, ◌↔◌, ◌⊎◌, ℕ_discrete, length-append, length-drop, true, List, [], ◌∷◌,
  ◌++◌, some, length, drop, arith, Option-cases, inl, inr, ◌≢◌,
}
use linux_cat.Memory.{c_text, str_eq, str_copy, bytes_eq, is_prefix, my_strcmp}

-- How a text begins.
pub c_text-cons :
    (x : ℕ) (a : List ℕ) {v : List ℕ}
    → c_text (x ∷ a) ≡ some v
    → ((x ≡ 0) × (v ≡ [])) ⊎ ((x ≢ 0) × ((t : List ℕ) × (c_text a ≡ some t) × (v ≡ x ∷ t)))
unfolding c_text
c_text-cons x a h = elim (ℕ_discrete x 0) [
  | yes z ↦ inl (z, ground arith)
  | no nz ↦ elim (Option-cases (c_text a)) [
    | inl e ↦ absurd (ground arith)
    | inr (t, e) ↦ inr (nz, (t, e, ground arith))
  ]
]

-- On two arrays that hold texts, `strcmp` compares the texts.
pub str_eq-c_text :
    (a b : List ℕ) {v w : List ℕ}
    → c_text a ≡ some v
    → c_text b ≡ some w
    → str_eq a b ≡ some (bytes_eq v w)
unfolding c_text str_eq bytes_eq
str_eq-c_text [] b h k = ground arith
str_eq-c_text (x ∷ a) [] h k = ground arith
str_eq-c_text (x ∷ a) (y ∷ b) h k = elim (c_text-cons x a h) [
  | inl (x0, ev) ↦ elim (c_text-cons y b k) [
    | inl (y0, ew) ↦ ground arith
    | inr (ny, (u, f, ew)) ↦ ground arith
  ]
  | inr (nx, (t, e, ev)) ↦ elim (c_text-cons y b k) [
    | inl (y0, ew) ↦ ground arith
    | inr (ny, (u, f, ew)) ↦ ground (arith, str_eq-c_text a b e f)
  ]
]

pub bytes_eq_iff : (v w : List ℕ) → (bytes_eq v w ≡ true) ↔ (v ≡ w)
unfolding bytes_eq
bytes_eq_iff [] [] = (λ _. refl, λ _. refl)
bytes_eq_iff [] (y ∷ w) = ground arith
bytes_eq_iff (x ∷ v) [] = ground arith
bytes_eq_iff (x ∷ v) (y ∷ w) = ground (arith, bytes_eq_iff v w)

is_prefix_sound : (v w : List ℕ) → is_prefix v w ≡ true → (u : List ℕ) × (w ≡ v ++ u)
unfolding is_prefix
is_prefix_sound [] w h = (w, refl)
is_prefix_sound (x ∷ v) [] h = ground arith
is_prefix_sound (x ∷ v) (y ∷ w) h =
    let (u, e) = is_prefix_sound v w (ground arith) in (u, ground arith)

pub is_prefix-append : (v u : List ℕ) → is_prefix v (v ++ u) ≡ true
unfolding is_prefix
is_prefix-append [] u = refl
is_prefix-append (x ∷ v) u = ground (arith, is_prefix-append v u)

pub is_prefix_iff : (v w : List ℕ) → (is_prefix v w ≡ true) ↔ ((u : List ℕ) × (w ≡ v ++ u))
is_prefix_iff v w = (is_prefix_sound v w, λ p. rw p.1 (is_prefix-append v p.0))

-- `my_strcmp` on a text that is not empty answers 1 exactly when it begins the other text.
pub my_strcmp-c_text :
    (d s : List ℕ) {v w : List ℕ}
    → c_text d ≡ some v
    → c_text s ≡ some w
    → v ≢ []
    → my_strcmp d s ≡ some (is_prefix v w)
unfolding my_strcmp c_text is_prefix
my_strcmp-c_text [] s h k n = ground arith
my_strcmp-c_text (x ∷ d) [] h k n = ground arith
my_strcmp-c_text (x ∷ []) (y ∷ s) h k n = ground arith
my_strcmp-c_text (x ∷ e ∷ d) (y ∷ s) h k n = elim (c_text-cons x (e ∷ d) h) [
  | inl (x0, ev) ↦ absurd (n ev)
  | inr (nx, (t, et, ev)) ↦ elim (c_text-cons y s k) [
    | inl (y0, ew) ↦ ground arith
    | inr (ny, (u, eu, ew)) ↦ elim (c_text-cons e d et) [
      | inl (e0, e') ↦ ground arith
      | inr (ne, (t', et', e')) ↦ ground (arith, my_strcmp-c_text (e ∷ d) s et eu)
    ]
  ]
]

pub c_text-append : (a b : List ℕ) {t : List ℕ} → c_text a ≡ some t → c_text (t ++ (0 ∷ b)) ≡ some t
unfolding c_text
c_text-append [] b h = ground arith
c_text-append (x ∷ a) b {t} h = elim (c_text-cons x a h) [
  | inl (z, e) ↦ rw e refl
  | inr (nz, (u, e, f)) ↦ rw f (ground (arith, c_text-append a b e))
]

-- A text that `strcpy` has put into an array is what the array holds.
pub c_text-str_copy :
    (buf a : List ℕ) {t buf' : List ℕ}
    → c_text a ≡ some t
    → str_copy buf t ≡ some buf'
    → c_text buf' ≡ some t
unfolding str_copy
c_text-str_copy buf a {t} h k = ground (arith, c_text-append a (drop (length t + 1) buf) h)

-- `strcpy` succeeds exactly when the text and its NUL fit, and keeps the array's size.
pub str_copy_fits :
    (buf t : List ℕ)
    → length t < length buf
    → (buf' : List ℕ) × (str_copy buf t ≡ some buf') × (length buf' ≡ length buf)
unfolding str_copy
str_copy_fits buf t h = (
  t ++ (0 ∷ drop (length t + 1) buf),
  ground arith,
  omega (arith, length-append t (0 ∷ drop (length t + 1) buf), length-drop (length t + 1) buf),
)
