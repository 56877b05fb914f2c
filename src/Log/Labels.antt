-- ===== src/Log/Labels.antt =====
-- What the type of a log entry is printed as (`LOG_LogTypeToStr` of a_cat/server/log/log.c).
use linux_cat.Common.{
  ℕ, zero, suc, ◌-◌, ◌≤◌, ◌≡◌, refl, ap, List, [], ◌∷◌, ◌++◌, ◌==◌, if◌then◌else◌, length, take,
  drop, replicate, arith, codes, length-append, length-replicate,
}
use linux_cat.Log.{strncpy, labels, copy_labels, log_log_type_to_str}

drop-take-append : (n : ℕ) (a b : List ℕ) → n ≤ length a → drop n (take n a ++ b) ≡ b
drop-take-append zero a b h = refl
drop-take-append (suc n) [] b h = absurd (omega arith)
drop-take-append (suc n) (x ∷ a) b h = drop-take-append n a b (omega arith)

abbrev nul : ℕ
nul = 0

-- A second `strncpy` of the same size leaves nothing of the first.
strncpy-strncpy : (buf t u : List ℕ) (n : ℕ) → strncpy (strncpy buf t n) u n ≡ strncpy buf u n
unfolding strncpy
strncpy-strncpy buf t u n =
    ap (λ l. take n (u ++ replicate n 0) ++ l)
      (drop-take-append n (t ++ replicate n 0) (drop n buf)
        (omega (arith, length-append t (replicate n 0), length-replicate n nul)))

-- What the reader of a log sees of a type: `LOG_WARNING`, `LOG_ACTION` and `LOG_SYSTEM` fall through
-- to the default.
abbrev pub label : ℕ → List ℕ
label type =
    if type == 0 then codes "DEBUG" else if type == 1 then codes "ERROR" else codes "UNKNOWN"

-- Every type but debug (0) and error (1) is labelled UNKNOWN, warnings, actions and system entries too.
pub log_log_type_to_str_lem :
    (type : ℕ) (buf : List ℕ) (buf_len : ℕ)
    → log_log_type_to_str type buf buf_len ≡ strncpy buf (label type) (buf_len - 1)
unfolding log_log_type_to_str labels copy_labels
log_log_type_to_str_lem type buf buf_len =
    let n = buf_len - 1 in
    ground (
      arith,
      strncpy-strncpy buf (codes "WARNING") (codes "ACTION") n,
      strncpy-strncpy buf (codes "ACTION") (codes "SYSTEM") n,
      strncpy-strncpy buf (codes "SYSTEM") (codes "UNKNOWN") n,
    )
