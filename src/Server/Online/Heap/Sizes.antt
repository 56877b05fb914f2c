-- ===== src/Server/Online/Heap/Sizes.antt =====
-- How long the list of users can be after a use.
use linux_cat.Common.{
  ℕ, zero, suc, ◌≤◌, ◌≡◌, inl, inr, refl, ◌∙◌, sym, ap, List, [], ◌∷◌, Option, none, some, length,
  arith, some-injective, >>=-eq-some, true, false, Option-cases,
}
use linux_cat.Memory.{str_eq}
use linux_cat.Server.Online.{Online, insert_link, find_fd, get_online, set_say, remove_user}
use linux_cat.Server.Online.Heap.{Use, joins, seeks, tells, marks, leaves, Seen, mark_on, list_use}
use linux_cat.Server.Online.Heap.Chain.{Place, users}

pub length-users : (cs : List Place) → length (users cs) ≡ length cs
length-users [] = refl
length-users (c ∷ cs) = ap suc (length-users cs)

length-set_say : (ns : List Online) (i v : ℕ) → length (set_say ns i v) ≡ length ns
unfolding set_say
length-set_say [] i v = refl
length-set_say (n ∷ ns) zero v = refl
length-set_say (n ∷ ns) (suc i) v = ap suc (length-set_say ns i v)

-- A fallible step has one result.
one_result : {A : Type 0} {m : Option A} {a b : A} → m ≡ some a → m ≡ some b → a ≡ b
one_result e k = some-injective _ _ (sym e ∙ k)

remove_user-length :
    (ns : List Online) (name : List ℕ) {left : List Online}
    → remove_user ns name ≡ some left
    → length left ≤ length ns
unfolding remove_user
remove_user-length [] name e = omega (arith, ap length (some-injective _ _ e))
remove_user-length (n ∷ ns) name {left} e = elim (Option-cases (str_eq n.name name)) [
  | inl fault ↦ absurd (ground arith)
  | inr (true, same) ↦ omega (arith, ap length (one_result {b = ns} e (ground (arith, same))))
  | inr (false, other) ↦ elim (Option-cases (remove_user ns name)) [
    | inl fault ↦ absurd (ground arith)
    | inr (ns', e') ↦
        let le = remove_user-length ns name e' in
        omega (arith, le, ap length (one_result {b = n ∷ ns'} e (ground (arith, other, e'))))
  ]
]

length-mark_on : (ns : List Online) (v : ℕ) (g : Option ℕ) → length (mark_on ns v g).1 ≡ length ns
unfolding mark_on
length-mark_on ns v none = refl
length-mark_on ns v (some i) = length-set_say ns i v

length-one_result : {x r : Seen × List Online} → some x ≡ some r → length r.1 ≡ length x.1
length-one_result e = ap (λ y. length y.1) (some-injective _ _ (sym e))

-- A use adds at most one user.
pub list_use-length :
    (ns : List Online) (u : Use) {r : Seen × List Online}
    → list_use ns u ≡ some r
    → length r.1 ≤ suc (length ns)
unfolding list_use insert_link
list_use-length ns (joins n) e = omega (arith, length-one_result e)
list_use-length ns (seeks name) e =
    let (fd, found_fd, e') = >>=-eq-some (find_fd ns name) _ e in
    omega (arith, length-one_result e')
list_use-length ns (tells m) e = omega (arith, length-one_result e)
list_use-length ns (marks name v) e =
    let (g, got, e') = >>=-eq-some (get_online ns name) _ e in
    omega (arith, length-one_result e', length-mark_on ns v g)
list_use-length ns (leaves name) e =
    let (left, removed, e') = >>=-eq-some (remove_user ns name) _ e in
    omega (arith, length-one_result e', remove_user-length ns name removed)
