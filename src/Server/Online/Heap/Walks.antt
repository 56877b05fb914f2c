-- ===== src/Server/Online/Heap/Walks.antt =====
-- What the loops of a_cat/server/work/work.c that walk the nodes find there, and the change of a mark.
use linux_cat.Common.{
  ℕ, zero, suc, ◌<◌, ◌≡◌, ◌≢◌, ◌⊎◌, inl, inr, refl, ◌∙◌, ap, List, [], ◌∷◌, Option, none, some,
  length, arith, true, false, Option-cases,
}
use linux_cat.Memory.{str_eq}
use linux_cat.Message.{Msg}
use linux_cat.Server.Online.{find_fd, get_online, set_say, to_all}
use linux_cat.Server.Online.Heap.{
  Node, Cell, load_node, store_node, find_fd_at, get_online_at, set_say_at, to_all_at,
}
use linux_cat.Server.Online.Heap.Chain.{
  Place, users, at_of, IsFresh, Chain, load_node-store_node_ne, load_node-store_node_self,
  store_node-Chain,
}

pub find_fd_at_lem :
    (fuel : ℕ) (h : List Cell) (cs : List Place) (key : List ℕ)
    → Chain h cs
    → length cs < fuel
    → find_fd_at fuel h (at_of cs) key ≡ find_fd (users cs) key
unfolding find_fd_at find_fd
find_fd_at_lem zero h cs key l f = absurd (omega (arith, f))
find_fd_at_lem (suc fuel) h [] key l f = refl
find_fd_at_lem (suc fuel) h (c ∷ cs) key (real, (cell, (own, l))) f =
    let rest = find_fd_at_lem fuel h cs key l (omega (arith, f)) in ground (arith, real, cell, rest)

pub to_all_at_lem :
    (fuel : ℕ) (h : List Cell) (cs : List Place) (m : Msg)
    → Chain h cs
    → length cs < fuel
    → to_all_at fuel h (at_of cs) m ≡ some (to_all (users cs) m)
unfolding to_all_at to_all
to_all_at_lem zero h cs m l f = absurd (omega (arith, f))
to_all_at_lem (suc fuel) h [] m l f = refl
to_all_at_lem (suc fuel) h (c ∷ cs) m (real, (cell, (own, l))) f =
    let rest = to_all_at_lem fuel h cs m l (omega (arith, f)) in ground (arith, real, cell, rest)

-- The address of the user at index `i`
abbrev pub place_at : List Place → ℕ → ℕ
place_at [] i = 0
place_at (c ∷ cs) zero = c.at
place_at (c ∷ cs) (suc i) = place_at cs i

place_at-ne : (cs : List Place) (i p : ℕ) → i < length cs → IsFresh p cs → place_at cs i ≢ p
place_at-ne [] i p b f = absurd (omega (arith, b))
place_at-ne (c ∷ cs) zero p b (ne, f) = ne
place_at-ne (c ∷ cs) (suc i) p b (ne, f) = place_at-ne cs i p (omega (arith, b)) f

pub place_at-real :
    (h : List Cell) (cs : List Place) (i : ℕ) → i < length cs → Chain h cs → place_at cs i ≢ 0
place_at-real h [] i b l = absurd (omega (arith, b))
place_at-real h (c ∷ cs) zero b (real, l) = real
place_at-real h (c ∷ cs) (suc i) b (real, (cell, (own, l))) =
    place_at-real h cs i (omega (arith, b)) l

-- `get_online` points to the node of the user that the list of values answers.
pub get_online_at_lem :
    (fuel : ℕ) (h : List Cell) (cs : List Place) (key : List ℕ) {g : Option ℕ}
    → Chain h cs
    → length cs < fuel
    → get_online (users cs) key ≡ some g
    → ((g ≡ none) × (get_online_at fuel h (at_of cs) key ≡ some 0))
      ⊎ ((i : ℕ) × (g ≡ some i)
          × (i < length cs)
          × (get_online_at fuel h (at_of cs) key ≡ some (place_at cs i)))
unfolding get_online_at get_online
get_online_at_lem zero h cs key l f e = absurd (omega (arith, f))
get_online_at_lem (suc fuel) h [] key l f e = inl (ground arith, refl)
get_online_at_lem (suc fuel) h (c ∷ cs) key (real, (cell, (own, l))) f e =
    elim (Option-cases (str_eq c.user.name key)) [
      | inl fault ↦ absurd (ground arith)
      | inr (true, same) ↦ inr (0, ground arith, omega arith, ground (arith, real, cell, same))
      | inr (false, other) ↦ elim (Option-cases (get_online (users cs) key)) [
        | inl fault ↦ absurd (ground arith)
        | inr (g', e') ↦ elim (get_online_at_lem fuel h cs key l (omega (arith, f)) e') [
          | inl (nobody, at_end) ↦ inl (ground arith, ground (arith, real, cell, other, at_end))
          | inr (i, it, there, at_c) ↦
              inr
                (suc i, ground arith, omega (arith, there), ground (arith, real, cell, other, at_c))
        ]
      ]
    ]

abbrev pub mark_place : List Place → ℕ → ℕ → List Place
mark_place [] i v = []
mark_place (c ∷ cs) zero v = record c { user = record c.user { say = v } } ∷ cs
mark_place (c ∷ cs) (suc i) v = c ∷ mark_place cs i v

pub users-mark_place :
    (cs : List Place) (i v : ℕ) → users (mark_place cs i v) ≡ set_say (users cs) i v
unfolding set_say
users-mark_place [] i v = refl
users-mark_place (c ∷ cs) zero v = refl
users-mark_place (c ∷ cs) (suc i) v = ap (λ ns. c.user ∷ ns) (users-mark_place cs i v)

pub at_of-mark_place : (cs : List Place) (i v : ℕ) → at_of (mark_place cs i v) ≡ at_of cs
at_of-mark_place [] i v = refl
at_of-mark_place (c ∷ cs) zero v = refl
at_of-mark_place (c ∷ cs) (suc i) v = refl

mark_place-IsFresh :
    (p : ℕ) (cs : List Place) (i v : ℕ) → IsFresh p cs → IsFresh p (mark_place cs i v)
mark_place-IsFresh p [] i v f = tt
mark_place-IsFresh p (c ∷ cs) zero v f = f
mark_place-IsFresh p (c ∷ cs) (suc i) v (ne, f) = (ne, mark_place-IsFresh p cs i v f)

-- `set_say_at` changes the node of that user, and nothing else.
pub set_say_at_lem :
    (h : List Cell) (cs : List Place) (i v : ℕ)
    → Chain h cs
    → i < length cs
    → (h' : List Cell) × (set_say_at h (place_at cs i) v ≡ some h')
      × Chain h' (mark_place cs i v)
      × ((p : ℕ) → place_at cs i ≢ p → load_node h' p ≡ load_node h p)
unfolding set_say_at
set_say_at_lem h [] i v l b = absurd (omega (arith, b))
set_say_at_lem h (x ∷ cs) zero v (real, (cell, (own, l))) b =
    let n : Node = record { user = record x.user { say = v }; next = at_of cs } in
    (
      store_node h x.at n,
      rw cell refl,
      (real, (load_node-store_node_self h x.at n, (own, store_node-Chain h x.at n cs own l))),
      λ p ne. load_node-store_node_ne h x.at p n ne,
    )
set_say_at_lem h (x ∷ cs) (suc i) v (real, (cell, (own, l))) b =
    let inside : i < length cs = omega (arith, b) in
    let (h', stored, l', others) = set_say_at_lem h cs i v l inside in
    let kept = others x.at (place_at-ne cs i x.at inside own) ∙ cell in
    (
      h',
      stored,
      (real, (rw at_of-mark_place kept, (mark_place-IsFresh x.at cs i v own, l'))),
      others,
    )
