-- ===== src/Server/Handler/SayLoop.antt =====
-- The loop of case 4 of `thread_read` (a_cat/server/work/work.c), which ends in its first round or never.
use linux_cat.Common.{
  ℕ, zero, suc, ◌≡◌, refl, ◌∙◌, List, [], ◌∷◌, Option-cases, Bool-cases, inl, inr,
}
use linux_cat.Memory.{str_eq}
use linux_cat.Message.{Msg}
use linux_cat.Server.Online.{Online}
use linux_cat.Server.State.{say_loop, say_to_all}

-- However many rounds the loop is given, one at least: it has ended with the same messages, has not
-- ended, or has met undefined behaviour, as `say_to_all` says.
say_loop-say_to_all :
    (fuel : ℕ) (ns : List Online) (cfd : ℕ) (m : Msg)
    → say_loop (suc fuel) ns cfd m ≡ say_to_all ns cfd m
unfolding say_loop say_to_all
say_loop-say_to_all fuel [] cfd m = refl
say_loop-say_to_all zero (n ∷ ns) cfd m = elim (Option-cases (str_eq n.name m.name)) [
  | inl fault ↦ rw fault refl
  | inr (same, e) ↦ elim (Bool-cases same) [
    | inl is_it ↦ rw (e, is_it) refl
    | inr other ↦ rw (e, other) refl
  ]
]
say_loop-say_to_all (suc fuel) (n ∷ ns) cfd m = elim (Option-cases (str_eq n.name m.name)) [
  | inl fault ↦ rw fault refl
  | inr (same, e) ↦ elim (Bool-cases same) [
    | inl is_it ↦ rw (e, is_it) refl
    | inr other ↦
        let again : say_loop (suc (suc fuel)) (n ∷ ns) cfd m ≡ say_loop (suc fuel) (n ∷ ns) cfd m =
          rw (e, other) refl in
        again ∙ say_loop-say_to_all fuel (n ∷ ns) cfd m
  ]
]
