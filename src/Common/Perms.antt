-- ===== src/Common/Perms.antt =====
-- Sums over the permutations of a list.
use Prim.Native.Nat.{ℕ}
use mathlib.Core.Path.{◌≡◌, refl, ◌∙◌}
use mathlib.Core.Logic.{∥∥₁_elim}
use mathlib.Core.List.{List, Perm, Permᴰ}
use native.Mathlib.Nat.{ℕ_set}
use native.Mathlib.Omega.{arith}
use linux_cat.Common.Lists.{total}

module _ {ℓ} {A : Type ℓ} (w : A → ℕ) where
  total-Permᴰ : {xs ys : List A} → Permᴰ xs ys → total w xs ≡ total w ys
  total-Permᴰ Permᴰ.nil = refl
  total-Permᴰ (Permᴰ.cons e p) = ground (arith, e, total-Permᴰ p)
  total-Permᴰ (Permᴰ.swap e f) = ground (arith, e, f)
  total-Permᴰ (Permᴰ.trans p q) = total-Permᴰ p ∙ total-Permᴰ q

  pub total-perm : {xs ys : List A} → Perm xs ys → total w xs ≡ total w ys
  total-perm {xs} {ys} p = ∥∥₁_elim p (ℕ_set (total w xs) (total w ys)) total-Permᴰ
