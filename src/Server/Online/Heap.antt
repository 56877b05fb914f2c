-- ===== src/Server/Online/Heap.antt =====
-- The list of users online as it lies in memory: `struct online` nodes at addresses, linked by
-- `next`, and the loops of a_cat/server/work/work.c that walk and change them. An access to an
-- address that holds no node makes the result `none`. Each loop has fuel; `none` is also a loop that
-- has used it up.
pub mod Chain
pub mod Walks
pub mod Unlink
pub mod Sizes
pub mod Refines
pub mod Races
mod Tests
use linux_cat.Common.{
  ℕ, zero, suc, Bool, true, false, List, [], ◌∷◌, Option, none, some, ◌>>=◌, ◌==◌, if◌then◌else◌,
}
use linux_cat.Memory.{str_eq}
use linux_cat.Message.{Msg}
use linux_cat.Server.Online.{
  Online, Write, insert_link, find_fd, get_online, set_say, to_all, remove_user,
}

-- `struct online`: the user, and the address of the next node. 0 is NULL.
pub record Node : Type 0 where
  pub user : Online
  pub next : ℕ

pub record Cell : Type 0 where
  pub at : ℕ
  pub node : Node

unfoldable pub load_node : List Cell → ℕ → Option Node
load_node [] p = none
load_node (c ∷ h) p = let rest = load_node h p in if c.at == p then some c.node else rest

abbrev pub store_node : List Cell → ℕ → Node → List Cell
store_node h p n = record { at = p; node = n } ∷ h

unfoldable pub free_node : List Cell → ℕ → List Cell
free_node [] p = []
free_node (c ∷ h) p = let rest = free_node h p in if c.at == p then rest else c ∷ rest

-- The memory, and the global `head`.
pub record Store : Type 0 where
  pub heap : List Cell
  pub head : ℕ

-- `new_user->next = head; head = new_user;`
unfoldable pub insert_link_at : Store → ℕ → Option Store
insert_link_at s new_user = do
  n ← load_node s.heap new_user
  some (record { heap = store_node s.heap new_user (record n { next = s.head }); head = new_user })

-- The loop of `find_fd` from `temp` on
unfoldable pub find_fd_at : ℕ → List Cell → ℕ → List ℕ → Option (Option ℕ)
find_fd_at zero h temp toname = none
find_fd_at (suc fuel) h temp toname =
    let rest = λ (n : ℕ). find_fd_at fuel h n toname in
    if temp == 0
    then some none
    else (load_node h temp >>= λ n.
        str_eq n.user.name toname >>= λ same. if same then some (some n.user.cfd) else rest n.next)

-- The loop of `get_online`
unfoldable pub get_online_at : ℕ → List Cell → ℕ → List ℕ → Option ℕ
get_online_at zero h p name = none
get_online_at (suc fuel) h p name =
    let rest = λ (n : ℕ). get_online_at fuel h n name in
    if p == 0
    then some 0
    else (load_node h p >>= λ n.
        str_eq n.user.name name >>= λ same. if same then some p else rest n.next)

-- `pNode->say = v`
unfoldable pub set_say_at : List Cell → ℕ → ℕ → Option (List Cell)
set_say_at h p v = do
  n ← load_node h p
  some (store_node h p (record n { user = record n.user { say = v } }))

-- The loop that writes a message to every user
unfoldable pub to_all_at : ℕ → List Cell → ℕ → Msg → Option (List Write)
to_all_at zero h p m = none
to_all_at (suc fuel) h p m =
    let rest = λ (n : ℕ). to_all_at fuel h n m in
    if p == 0
    then some []
    else (load_node h p >>= λ n.
        rest n.next >>= λ ws. some (record { to = n.user.cfd; msg = m } ∷ ws))

-- `temp->next = pNode->next`, or `head = pNode->next`, and `free(pNode)`
unfoldable pub unlink : Store → (temp p : ℕ) → Node → Option Store
unlink s temp p n =
    if temp == 0
    then some (record { heap = free_node s.heap p; head = n.next })
    else (load_node s.heap temp >>= λ t.
        some
          (record s { heap = free_node (store_node s.heap temp (record t { next = n.next })) p }))

-- The loop of case 10
unfoldable pub remove_user_at : ℕ → Store → (temp p : ℕ) → List ℕ → Option Store
remove_user_at zero s temp p name = none
remove_user_at (suc fuel) s temp p name =
    let rest = λ (n : ℕ). remove_user_at fuel s p n name in
    if p == 0
    then some s
    else (load_node s.heap p >>= λ n.
        str_eq n.user.name name >>= λ same. if same then unlink s temp p n else rest n.next)

-- What the cases of `thread_read` do with the list.
pub data Use : Type 0 where
  joins : Online → Use  -- cases 1 and 7
  seeks : List ℕ → Use  -- cases 2, 3 and 5
  tells : Msg → Use  -- case 4
  marks : List ℕ → ℕ → Use  -- cases 8 and -8
  leaves : List ℕ → Use  -- case 10

pub data Seen : Type 0 where
  nothing : Seen
  found : Option ℕ → Seen
  told : List Write → Seen
  marked : Bool → Seen

mark_on : List Online → ℕ → Option ℕ → Seen × List Online
mark_on ns v none = (marked false, ns)
mark_on ns v (some i) = (marked true, set_say ns i v)

-- The uses on the list of values
unfoldable pub list_use : List Online → Use → Option (Seen × List Online)
unfolding mark_on
list_use ns (joins n) = some (nothing, insert_link n ns)
list_use ns (seeks name) = find_fd ns name >>= λ fd. some (found fd, ns)
list_use ns (tells m) = some (told (to_all ns m), ns)
list_use ns (marks name v) = get_online ns name >>= λ i. some (mark_on ns v i)
list_use ns (leaves name) = remove_user ns name >>= λ ns'. some (nothing, ns')

unfoldable pub list_uses : List Online → List Use → Option (List Seen × List Online)
list_uses ns [] = some ([], ns)
list_uses ns (u ∷ us) = list_use ns u >>= λ r. list_uses r.1 us >>= λ rs. some (r.0 ∷ rs.0, rs.1)

-- Cases 8 and -8: whether `get_online` has found a node, and the memory with its `say` set
unfoldable pub mark_at : ℕ → Store → List ℕ → ℕ → Option (Bool × Store)
mark_at fuel s name v = get_online_at fuel s.heap s.head name >>= λ p.
    if p == 0
    then some (false, s)
    else (set_say_at s.heap p v >>= λ h. some (true, record s { heap = h }))

-- `malloc` answers an address; what lies there, `junk`, is the link until `insert_link` sets it.
module _ (malloc : List Cell → ℕ) (junk : ℕ) where
  -- Cases 1 and 7: the new node, with its fields set, is linked.
  unfoldable pub join_at : Store → Online → Option Store
  join_at s n =
      let new_user = malloc s.heap in
      let filled = store_node s.heap new_user (record { user = n; next = junk }) in
      insert_link_at (record s { heap = filled }) new_user

  -- The uses on the nodes
  unfoldable pub heap_use : ℕ → Store → Use → Option (Seen × Store)
  heap_use fuel s (joins n) = join_at s n >>= λ t. some (nothing, t)
  heap_use fuel s (seeks name) = find_fd_at fuel s.heap s.head name >>= λ fd. some (found fd, s)
  heap_use fuel s (tells m) = to_all_at fuel s.heap s.head m >>= λ ws. some (told ws, s)
  heap_use fuel s (marks name v) = mark_at fuel s name v >>= λ r. some (marked r.0, r.1)
  heap_use fuel s (leaves name) = remove_user_at fuel s 0 s.head name >>= λ t. some (nothing, t)

  unfoldable pub heap_uses : ℕ → Store → List Use → Option (List Seen × Store)
  heap_uses fuel s [] = some ([], s)
  heap_uses fuel s (u ∷ us) =
      heap_use fuel s u >>= λ r. heap_uses fuel r.1 us >>= λ rs. some (r.0 ∷ rs.0, rs.1)
