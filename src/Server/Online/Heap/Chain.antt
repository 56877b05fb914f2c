-- ===== src/Server/Online/Heap/Chain.antt =====
-- When the nodes from an address on are a list of users, and what keeps them one.
use linux_cat.Common.{ℕ, ◌≡◌, ◌≢◌, refl, ◌∙◌, sym, ap, List, [], ◌∷◌, none, some, arith}
use linux_cat.Server.Online.{Online}
use linux_cat.Server.Online.Heap.{Node, Cell, load_node, store_node, free_node, Store}

-- A user, and the address of the node.
pub record Place : Type 0 where
  pub at : ℕ
  pub user : Online

abbrev pub users : List Place → List Online
users [] = []
users (c ∷ cs) = c.user ∷ users cs

abbrev pub at_of : List Place → ℕ
at_of [] = 0
at_of (c ∷ cs) = c.at

abbrev pub IsFresh : ℕ → List Place → Type 0
IsFresh p [] = Unit {0}
IsFresh p (c ∷ cs) = (c.at ≢ p) × IsFresh p cs

-- The nodes of `cs` lie at their addresses, each linked to the next, no two at one address.
abbrev pub Chain : List Cell → List Place → Type 0
Chain h [] = Unit {0}
Chain h (c ∷ cs) =
    (c.at ≢ 0)
    × ((load_node h c.at ≡ some (record { user = c.user; next = at_of cs }))
        × (IsFresh c.at cs × Chain h cs))

-- The store holds the list of `cs`.
pub record Holds (s : Store) (cs : List Place) : Type 0 where
  pub first : s.head ≡ at_of cs
  pub nodes : Chain s.heap cs

pub load_node-store_node_ne :
    (h : List Cell) (p q : ℕ) (n : Node) → p ≢ q → load_node (store_node h p n) q ≡ load_node h q
unfolding load_node
load_node-store_node_ne h p q n ne = ground (arith, ne)

pub load_node-store_node_self :
    (h : List Cell) (p : ℕ) (n : Node) → load_node (store_node h p n) p ≡ some n
unfolding load_node
load_node-store_node_self h p n = ground arith

pub load_node-free_node_ne :
    (h : List Cell) (p q : ℕ) → p ≢ q → load_node (free_node h p) q ≡ load_node h q
unfolding load_node free_node
load_node-free_node_ne [] p q ne = refl
load_node-free_node_ne (c ∷ h) p q ne = ground (arith, ne, load_node-free_node_ne h p q ne)

pub load_node-free_node_self : (h : List Cell) (p : ℕ) → load_node (free_node h p) p ≡ none
unfolding load_node free_node
load_node-free_node_self [] p = refl
load_node-free_node_self (c ∷ h) p = ground (arith, load_node-free_node_self h p)

pub store_node-Chain :
    (h : List Cell) (p : ℕ) (n : Node) (cs : List Place)
    → IsFresh p cs
    → Chain h cs
    → Chain (store_node h p n) cs
store_node-Chain h p n [] f l = tt
store_node-Chain h p n (c ∷ cs) (ne, f) (real, (cell, (own, l))) = (
  real,
  (
    load_node-store_node_ne h p c.at n (λ e. ne (sym e)) ∙ cell,
    (own, store_node-Chain h p n cs f l),
  ),
)

pub free_node-Chain :
    (h : List Cell) (p : ℕ) (cs : List Place) → IsFresh p cs → Chain h cs → Chain (free_node h p) cs
free_node-Chain h p [] f l = tt
free_node-Chain h p (c ∷ cs) (ne, f) (real, (cell, (own, l))) = (
  real,
  (load_node-free_node_ne h p c.at (λ e. ne (sym e)) ∙ cell, (own, free_node-Chain h p cs f l)),
)

-- A node that is linked in front of the list.
pub new-Chain :
    (h : List Cell) (cs : List Place) (p : Place) (next : ℕ)
    → next ≡ at_of cs
    → p.at ≢ 0
    → IsFresh p.at cs
    → Chain h cs
    → Chain (store_node h p.at (record { user = p.user; next = next })) (p ∷ cs)
new-Chain h cs p next e real own l =
    let n : Node = record { user = p.user; next = next } in
    let cell =
      load_node-store_node_self h p.at n ∙ ap (λ q. some (record { user = p.user; next = q })) e in
    (real, (cell, (own, store_node-Chain h p.at n cs own l)))

-- An address without a node is not that of a user.
pub unused-IsFresh :
    (h : List Cell) (p : ℕ) (cs : List Place) → load_node h p ≡ none → Chain h cs → IsFresh p cs
unused-IsFresh h p [] e l = tt
unused-IsFresh h p (c ∷ cs) e (real, (cell, (own, l))) =
    (λ same. ground (arith, ap (load_node h) same ∙ e, cell), unused-IsFresh h p cs e l)
