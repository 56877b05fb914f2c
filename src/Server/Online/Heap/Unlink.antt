-- ===== src/Server/Online/Heap/Unlink.antt =====
-- Case 10 on the nodes: the unlinked node is freed, and the others stay linked.
use linux_cat.Common.{
  ℕ, zero, suc, ◌<◌, ◌≡◌, inl, inr, refl, ◌∙◌, ap, List, [], ◌∷◌, Option, some, length, arith, true,
  false, Option-cases,
}
use linux_cat.Memory.{str_eq}
use linux_cat.Server.Online.{Online, remove_user}
use linux_cat.Server.Online.Heap.{
  Node, Cell, load_node, store_node, free_node, Store, unlink, remove_user_at,
}
use linux_cat.Server.Online.Heap.Chain.{
  Place, users, at_of, IsFresh, Chain, Holds, load_node-store_node_ne, load_node-store_node_self,
  load_node-free_node_ne, store_node-Chain, free_node-Chain,
}

-- What the loop leaves that has come to `cs` behind the node of `t`.
record Removed (s : Store) (t : Place) (cs : List Place) (left : List Online) (r : Option Store)
    : Type 0 where
  heap : List Cell
  stays : List Place
  result : r ≡ some (record s { heap = heap })
  chain : Chain heap (t ∷ stays)
  values : users stays ≡ left
  others : (p : ℕ) → IsFresh p (t ∷ cs) → (load_node heap p ≡ load_node s.heap p) × IsFresh p stays

unlink-Removed :
    (s : Store) (t c : Place) (cs : List Place)
    → Chain s.heap (t ∷ c ∷ cs)
    → Removed s t
        (c ∷ cs)
        (users cs)
        (unlink s t.at c.at (record { user = c.user; next = at_of cs }))
unfolding unlink
unlink-Removed s t c cs (t_real, (t_cell, ((ne, t_own), (real, (cell, (own, l)))))) =
    let n : Node = record { user = t.user; next = at_of cs } in
    let h = store_node s.heap t.at n in
    record {
      heap = free_node h c.at;
      stays = cs;
      result = ground (arith, t_real, t_cell);
      chain = (
        t_real,
        (
          load_node-free_node_ne h c.at t.at ne ∙ load_node-store_node_self s.heap t.at n,
          (t_own, free_node-Chain h c.at cs own (store_node-Chain s.heap t.at n cs t_own l)),
        ),
      );
      values = refl;
      others = λ p (t_ne, (c_ne, fresh)). (
        load_node-free_node_ne h c.at p c_ne ∙ load_node-store_node_ne s.heap t.at p n t_ne,
        fresh,
      );
    }

to_Removed :
    {s : Store} {t : Place} {cs : List Place} {left left' : List Online} {r r' : Option Store}
    → r' ≡ r
    → left ≡ left'
    → Removed s t cs left r
    → Removed s t cs left' r'
to_Removed e k a = record {
  heap = a.heap;
  stays = a.stays;
  result = e ∙ a.result;
  chain = a.chain;
  values = a.values ∙ k;
  others = a.others;
}

-- The node of `c` stays, and is the one to link on from.
passed-Removed :
    {s : Store} {t c : Place} {cs : List Place} {left : List Online} {r : Option Store}
    → Chain s.heap (t ∷ c ∷ cs)
    → Removed s c cs left r
    → Removed s t (c ∷ cs) (c.user ∷ left) r
passed-Removed {t = t} {c = c} (t_real, (t_cell, ((ne, t_own), l))) a =
    let (same, fresh) = a.others t.at (ne, t_own) in
    record {
      heap = a.heap;
      stays = c ∷ a.stays;
      result = a.result;
      chain = (t_real, (same ∙ t_cell, ((ne, fresh), a.chain)));
      values = ap (λ ns. c.user ∷ ns) a.values;
      others = λ p (t_ne, (c_ne, f)).
          let (same', fresh') = a.others p (c_ne, f) in (same', (c_ne, fresh'));
    }

remove_behind :
    (fuel : ℕ) (s : Store) (t : Place) (cs : List Place) (name : List ℕ) {left : List Online}
    → Chain s.heap (t ∷ cs)
    → length cs < fuel
    → remove_user (users cs) name ≡ some left
    → Removed s t cs left (remove_user_at fuel s t.at (at_of cs) name)
unfolding remove_user_at remove_user
remove_behind zero s t cs name l f e = absurd (omega (arith, f))
remove_behind (suc fuel) s t [] name l f e = record {
  heap = s.heap;
  stays = [];
  result = refl;
  chain = l;
  values = ground arith;
  others = λ p fresh. (refl, tt);
}
remove_behind (suc fuel) s t (c ∷ cs) name whole f e =
    let (t_real, (t_cell, (t_own, (real, (cell, (own, l)))))) = whole in
    elim (Option-cases (str_eq c.user.name name)) [
      | inl fault ↦ absurd (ground arith)
      | inr (true, same) ↦
          to_Removed (ground (arith, real, cell, same)) (ground (arith, same))
            (unlink-Removed s t c cs whole)
      | inr (false, other) ↦ elim (Option-cases (remove_user (users cs) name)) [
        | inl fault ↦ absurd (ground arith)
        | inr (left', e') ↦
            let r = remove_behind fuel s c cs name (real, (cell, (own, l))) (omega (arith, f)) e' in
            to_Removed (ground (arith, real, cell, other)) (ground (arith, other, e'))
              (passed-Removed whole r)
      ]
    ]

-- A loop that starts at `head` leaves the list that `remove_user` answers.
pub remove_user_at_lem :
    (fuel : ℕ) (s : Store) (cs : List Place) (name : List ℕ) {left : List Online}
    → Holds s cs
    → length cs < fuel
    → remove_user (users cs) name ≡ some left
    → (t : Store) × (stays : List Place) × (remove_user_at fuel s 0 s.head name ≡ some t)
      × Holds t stays
      × (users stays ≡ left)
unfolding remove_user_at remove_user unlink
remove_user_at_lem zero s cs name a f e = absurd (omega (arith, f))
remove_user_at_lem (suc fuel) s [] name a f e = (s, [], ground (arith, a.first), a, ground arith)
remove_user_at_lem (suc fuel) s (c ∷ cs) name a f e =
    let (real, (cell, (own, l))) = a.nodes in
    let at_head = a.first in
    elim (Option-cases (str_eq c.user.name name)) [
      | inl fault ↦ absurd (ground arith)
      | inr (true, same) ↦ (
        record { heap = free_node s.heap c.at; head = at_of cs },
        cs,
        rw at_head (ground (arith, real, cell, same)),
        record { first = refl; nodes = free_node-Chain s.heap c.at cs own l },
        ground (arith, same),
      )
      | inr (false, other) ↦ elim (Option-cases (remove_user (users cs) name)) [
        | inl fault ↦ absurd (ground arith)
        | inr (left', e') ↦
            let r = remove_behind fuel s c cs name a.nodes (omega (arith, f)) e' in
            (
              record s { heap = r.heap },
              c ∷ r.stays,
              rw at_head (ground (arith, real, cell, other, r.result)),
              record { first = at_head; nodes = r.chain },
              ap (λ ns. c.user ∷ ns) r.values ∙ ground (arith, other, e'),
            )
      ]
    ]
