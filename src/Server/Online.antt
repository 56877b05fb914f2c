-- ===== src/Server/Online.antt =====
-- The list of users online, `struct online *head`. Its nodes are reached only through the list, so
-- it is a list of their values.
pub mod Laws
pub mod Heap
use linux_cat.Common.{
  ℕ, zero, suc, ◌+◌, Bool, true, false, List, [], ◌∷◌, Option, none, some, ◌>>=◌, map, set,
  if◌then◌else◌,
}
use linux_cat.Memory.{str_eq}
use linux_cat.Message.{Msg}

-- `struct online`, less its link
pub record Online : Type 0 where
  pub cfd : ℕ
  pub say : ℕ
  pub name : List ℕ

-- `write(to, pmsg, sizeof(Msg))`
pub record Write : Type 0 where
  pub to : ℕ
  pub msg : Msg

unfoldable pub insert_link : Online → List Online → List Online
insert_link new_user head = new_user ∷ head

-- `find_fd`: the inner `none` is its -1.
unfoldable pub find_fd : List Online → List ℕ → Option (Option ℕ)
find_fd [] toname = some none
find_fd (n ∷ ns) toname =
    let rest = find_fd ns toname in
    str_eq n.name toname >>= λ same. if same then some (some n.cfd) else rest

-- `get_online`: the position of the node that it points to.
unfoldable pub get_online : List Online → List ℕ → Option (Option ℕ)
get_online [] name = some none
get_online (n ∷ ns) name =
    let rest =
      get_online ns name >>= λ found. some (elim found [ none ↦ none | some i ↦ some (suc i) ]) in
    str_eq n.name name >>= λ same. if same then some (some 0) else rest

-- `pNode->say = v` at a position of the list
unfoldable pub set_say : List Online → ℕ → ℕ → List Online
set_say [] i v = []
set_say (n ∷ ns) zero v = record n { say = v } ∷ ns
set_say (n ∷ ns) (suc i) v = n ∷ set_say ns i v

unfoldable pub to_all : List Online → Msg → List Write
to_all [] m = []
to_all (n ∷ ns) m = record { to = n.cfd; msg = m } ∷ to_all ns m

-- Case 10 of `thread_read`: the first node with the name is unlinked and freed.
unfoldable pub remove_user : List Online → List ℕ → Option (List Online)
remove_user [] name = some []
remove_user (n ∷ ns) name =
    let rest = remove_user ns name >>= λ ns'. some (n ∷ ns') in
    str_eq n.name name >>= λ same. if same then some ns else rest
