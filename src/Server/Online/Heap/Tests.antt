-- ===== src/Server/Online/Heap/Tests.antt =====
-- The nodes of three users in a small memory.
use linux_cat.Common.{ℕ, suc, ◌≡◌, ◌≢◌, ◌<◌, refl, List, [], ◌∷◌, none, some, arith, max, true}
use linux_cat.Memory.{str_eq}
use linux_cat.Server.Online.{Online, insert_link, find_fd, get_online, set_say, remove_user}
use linux_cat.Server.Online.Heap.{
  Cell, load_node, free_node, Store, find_fd_at, get_online_at, set_say_at, remove_user_at, unlink,
  Use, joins, seeks, marks, leaves, Seen, nothing, found, marked, list_uses, list_use, heap_uses,
}
use linux_cat.Server.Online.Heap.Chain.{Place, users, Holds}
use linux_cat.Server.Online.Heap.Refines.{heap_uses-list_uses}
use linux_cat.Server.Online.Heap.Races.{
  one, two, racing, race, Leaves, inserts_race, freed_under_reader,
}

abbrev user : ℕ → ℕ → Online
user cfd letter = record { cfd = cfd; say = 0; name = letter ∷ 0 ∷ [] }

abbrev ann : Online
ann = user 4 97

abbrev bob : Online
bob = user 5 98

abbrev cid : Online
cid = user 6 99

-- A `malloc` that answers the address behind all the nodes
top : List Cell → ℕ
top [] = 0
top (c ∷ h) = max c.at (top h)

behind : List Cell → ℕ
unfolding top
behind h = suc (top h)

load_node-behind : (h : List Cell) (p : ℕ) → top h < p → load_node h p ≡ none
unfolding top load_node
load_node-behind [] p b = refl
load_node-behind (c ∷ h) p b = ground (arith, load_node-behind h p (omega (arith, b)))

behind-new : (h : List Cell) → (behind h ≢ 0) × (load_node h (behind h) ≡ none)
unfolding behind
behind-new h = (omega arith, load_node-behind h (suc (top h)) (omega arith))

abbrev empty : Store
empty = record { heap = []; head = 0 }

abbrev a_day : List Use
a_day =
    joins ann
    ∷ joins bob
    ∷ joins cid
    ∷ marks bob.name 1
    ∷ leaves bob.name
    ∷ seeks bob.name
    ∷ seeks ann.name
    ∷ leaves cid.name
    ∷ []

abbrev seen_that_day : List Seen
seen_that_day =
    nothing ∷ nothing ∷ nothing ∷ marked true ∷ nothing ∷ found none ∷ found (some 4) ∷ nothing ∷ []

heap_uses-list_uses_example :
    (t : Store) × (ds : List Place) × (heap_uses behind 77 9 empty a_day ≡ some (seen_that_day, t))
    × Holds t ds
    × (users ds ≡ ann ∷ [])
unfolding list_uses list_use get_online insert_link str_eq remove_user set_say find_fd
heap_uses-list_uses_example =
    heap_uses-list_uses behind 77 9 empty [] a_day {want = (seen_that_day, ann ∷ [])} behind-new
      (record { first = refl; nodes = tt }) (omega arith) refl

abbrev two_new : Store
two_new = record {
  heap =
      record { at = 8; node = record { user = ann; next = 77 } }
      ∷ record { at = 9; node = record { user = bob; next = 77 } }
      ∷ [];
  head = 0;
}

abbrev ann_at : Place
ann_at = record { at = 8; user = ann }

abbrev bob_at : Place
bob_at = record { at = 9; user = bob }

inserts_race_example :
    Leaves (race 8 9 (racing two_new) (one ∷ one ∷ two ∷ two ∷ [])) (bob_at ∷ ann_at ∷ [])
    × Leaves (race 8 9 (racing two_new) (one ∷ two ∷ one ∷ two ∷ [])) (bob_at ∷ [])
    × Leaves (race 8 9 (racing two_new) (one ∷ two ∷ two ∷ one ∷ [])) (ann_at ∷ [])
unfolding load_node
inserts_race_example =
    inserts_race two_new [] ann_at bob_at (record { first = refl; nodes = tt }) (omega arith)
      (omega arith) (omega arith) tt tt refl refl

-- Both are linked, and bob logs out.
abbrev both_in : Store
both_in = record {
  heap =
      record { at = 8; node = record { user = ann; next = 0 } }
      ∷ record { at = 9; node = record { user = bob; next = 8 } }
      ∷ [];
  head = 9;
}

abbrev bob_out : Store
bob_out = record { heap = record { at = 8; node = record { user = ann; next = 0 } } ∷ []; head = 8 }

freed_under_reader_example :
    (load_node bob_out.heap 9 ≡ none)
    × (find_fd_at 3 bob_out.heap 9 ann.name ≡ none)
    × (set_say_at bob_out.heap 9 1 ≡ none)
unfolding get_online_at remove_user_at load_node str_eq unlink free_node
freed_under_reader_example =
    freed_under_reader 3 both_in bob_out bob.name 9 3 1 ann.name refl (omega arith) refl
