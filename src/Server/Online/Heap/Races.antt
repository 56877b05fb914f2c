-- ===== src/Server/Online/Heap/Races.antt =====
-- Two threads of the pool on the list of users at once: `head` has no lock.
use linux_cat.Common.{
  ℕ, zero, suc, ◌≡◌, ◌≢◌, refl, ◌∙◌, subst, some-injective, List, [], ◌∷◌, Option, none, some,
  ◌>>=◌, arith, true, false, Option-cases, inl, inr, ℕ_discrete,
}
use linux_cat.Memory.{str_eq}
use linux_cat.Server.Online.Heap.{
  Node, load_node, store_node, free_node, Store, find_fd_at, get_online_at, set_say_at, unlink,
  remove_user_at,
}
use linux_cat.Server.Online.Heap.Chain.{
  Place, IsFresh, Holds, new-Chain, load_node-store_node_ne, load_node-free_node_self,
  store_node-Chain,
}

-- Where a thread stands in `insert_link`.
pub data Inserting : Type 0 where
  linking : Inserting  -- before `new_user->next = head`
  publishing : Inserting  -- before `head = new_user`
  inserted : Inserting

-- One of its two assignments
unfoldable pub insert_turn : Store → ℕ → Inserting → Option (Store × Inserting)
insert_turn s new_user linking = do
  n ← load_node s.heap new_user
  some (record s { heap = store_node s.heap new_user (record n { next = s.head }) }, publishing)
insert_turn s new_user publishing = some (record s { head = new_user }, inserted)
insert_turn s new_user inserted = some (s, inserted)

-- Two threads, with a new node each.
pub data Thread : Type 0 where
  one : Thread
  two : Thread

pub record Racing : Type 0 where
  pub memory : Store
  pub first : Inserting
  pub second : Inserting

race_turn : ℕ → ℕ → Racing → Thread → Option Racing
unfolding insert_turn
race_turn p q r one = do
  (s, pc) ← insert_turn r.memory p r.first
  some (record r { memory = s; first = pc })
race_turn p q r two = do
  (s, pc) ← insert_turn r.memory q r.second
  some (record r { memory = s; second = pc })

unfoldable pub race : ℕ → ℕ → Racing → List Thread → Option Racing
unfolding race_turn
race p q r [] = some r
race p q r (t ∷ ts) = race_turn p q r t >>= λ r'. race p q r' ts

abbrev pub racing : Store → Racing
racing s = record { memory = s; first = linking; second = linking }

-- What a race leaves: both threads are through, and the store holds the list.
pub record Leaves (r : Option Racing) (cs : List Place) : Type 0 where
  pub memory : Store
  pub result : r ≡ some (record { memory = memory; first = inserted; second = inserted })
  pub holds : Holds memory cs

-- Two threads insert a node each into the list that the store holds, both nodes new and at addresses
-- of their own. One after the other, both users are in the list. If the second links its node before
-- the first publishes its own, the list has only the user of the thread that publishes last, and the
-- other is lost.
pub inserts_race :
    (s : Store) (cs : List Place) (p q : Place) {old_p old_q : ℕ}
    → Holds s cs
    → p.at ≢ 0
    → q.at ≢ 0
    → p.at ≢ q.at
    → IsFresh p.at cs
    → IsFresh q.at cs
    → load_node s.heap p.at ≡ some (record { user = p.user; next = old_p })
    → load_node s.heap q.at ≡ some (record { user = q.user; next = old_q })
    → Leaves (race p.at q.at (racing s) (one ∷ one ∷ two ∷ two ∷ [])) (q ∷ p ∷ cs)
      × Leaves (race p.at q.at (racing s) (one ∷ two ∷ one ∷ two ∷ [])) (q ∷ cs)
      × Leaves (race p.at q.at (racing s) (one ∷ two ∷ two ∷ one ∷ [])) (p ∷ cs)
unfolding race race_turn insert_turn
inserts_race s cs p q a p_real q_real ne p_own q_own p_cell q_cell =
    let m : Node = record { user = p.user; next = s.head } in
    let h = store_node s.heap p.at m in
    let q_cell' = load_node-store_node_ne s.heap p.at q.at m ne ∙ q_cell in
    let n : Node = record { user = q.user; next = s.head } in
    let behind = new-Chain s.heap cs p s.head a.first p_real p_own a.nodes in
    let beside = store_node-Chain s.heap p.at m cs p_own a.nodes in
    let last : Node = record { user = q.user; next = p.at } in
    (
      record {
        memory = record { heap = store_node h q.at last; head = q.at };
        result = rw (p_cell, q_cell') refl;
        holds = record {
          first = refl;
          nodes = new-Chain h (p ∷ cs) q p.at refl q_real (ne, q_own) behind;
        };
      },
      record {
        memory = record { heap = store_node h q.at n; head = q.at };
        result = rw (p_cell, q_cell') refl;
        holds = record {
          first = refl;
          nodes = new-Chain h cs q s.head a.first q_real q_own beside;
        };
      },
      record {
        memory = record { heap = store_node h q.at n; head = p.at };
        result = rw (p_cell, q_cell') refl;
        holds = record {
          first = refl;
          nodes = store_node-Chain h q.at n (p ∷ cs) (ne, q_own) behind;
        };
      },
    )

load_node-none :
    {s t : Store} (p : ℕ) → some s ≡ some t → load_node s.heap p ≡ none → load_node t.heap p ≡ none
load_node-none p e = subst (λ x. load_node x.heap p ≡ none) (some-injective _ _ e)

freed-by-unlink :
    (s t : Store) (temp p : ℕ) (n : Node) → unlink s temp p n ≡ some t → load_node t.heap p ≡ none
unfolding unlink
freed-by-unlink s t temp p n e = elim (ℕ_discrete temp 0) [
  | yes at_head ↦
      let e' : some (record { heap = free_node s.heap p; head = n.next }) ≡ some t = ground arith in
      load_node-none p e' (load_node-free_node_self s.heap p)
  | no real ↦ elim (Option-cases (load_node s.heap temp)) [
    | inl fault ↦ absurd (ground arith)
    | inr (m, cell) ↦
        let h = store_node s.heap temp (record m { next = n.next }) in
        let e' : some (record s { heap = free_node h p }) ≡ some t = ground arith in
        load_node-none p e' (load_node-free_node_self h p)
  ]
]

freed-by-remove :
    (fuel : ℕ) (s t : Store) (temp here : ℕ) (name : List ℕ) (p : ℕ)
    → get_online_at fuel s.heap here name ≡ some p
    → p ≢ 0
    → remove_user_at fuel s temp here name ≡ some t
    → load_node t.heap p ≡ none
unfolding get_online_at remove_user_at unlink
freed-by-remove zero s t temp here name p e ne r = absurd (ground (arith, e))
freed-by-remove (suc fuel) s t temp here name p e ne r = elim (ℕ_discrete here 0) [
  | yes at_end ↦ absurd (ground arith)
  | no real ↦ elim (Option-cases (load_node s.heap here)) [
    | inl fault ↦ absurd (ground arith)
    | inr (n, cell) ↦ elim (Option-cases (str_eq n.user.name name)) [
      | inl fault ↦ absurd (ground arith)
      | inr (true, same) ↦
          let here_is : here ≡ p = ground arith in
          subst (λ x. load_node t.heap x ≡ none) here_is
            (freed-by-unlink s t temp here n (ground arith))
      | inr (false, other) ↦
          freed-by-remove fuel s t here n.next name p (ground arith) ne (ground arith)
    ]
  ]
]

-- One thread has the address of a user's node from `get_online`, and another then logs that user out,
-- in a loop from `head` that ends: the node is freed under the first thread. Going on with the loop of
-- `find_fd` from there, and setting `say` there, are accesses to freed memory.
pub freed_under_reader :
    (fuel : ℕ) (s t : Store) (name : List ℕ) (p n v : ℕ) (toname : List ℕ)
    → get_online_at fuel s.heap s.head name ≡ some p
    → p ≢ 0
    → remove_user_at fuel s 0 s.head name ≡ some t
    → (load_node t.heap p ≡ none)
      × (find_fd_at n t.heap p toname ≡ none)
      × (set_say_at t.heap p v ≡ none)
unfolding find_fd_at set_say_at
freed_under_reader fuel s t name p n v toname e ne r =
    let gone = freed-by-remove fuel s t 0 s.head name p e ne r in
    (gone, reader_faults n, rw gone refl)
  where
    reader_faults : (k : ℕ) → find_fd_at k t.heap p toname ≡ none
    reader_faults zero = refl
    reader_faults (suc k) = ground (arith, ne, freed-by-remove fuel s t 0 s.head name p e ne r)
