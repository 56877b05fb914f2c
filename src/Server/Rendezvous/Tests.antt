-- ===== src/Server/Rendezvous/Tests.antt =====
-- The theorem on the table at a concrete interleaving: a receiver's socket and a sender's block meet.
use linux_cat.Common.{refl, [], ◌∷◌, replicate}
use linux_cat.Memory.{c_text, str_copy}
use linux_cat.Server.Rendezvous.{
  Place, seeking, offering, paired, placed, seek_at, offer_at, turn, Table, go, Reach, here, next,
  IsBalanced, Reach-IsBalanced,
}

abbrev empty_place : Place
empty_place = record { cfd = 0; in_use = 0; offset = 0; filename = replicate 20 0 }

abbrev waiting : Place
waiting = record { cfd = 9; in_use = 1; offset = 500; filename = replicate 20 0 }

-- The sender of the block at 500 finds the receiver's socket 9 on its second round.
abbrev before : Table
before = record {
  places = replicate 20 empty_place;
  threads = seeking 500 0 ∷ offering 9 500 (replicate 20 0) 1 ∷ [];
}

abbrev after : Table
after = record {
  places = empty_place ∷ record waiting { in_use = 0 } ∷ replicate 18 empty_place;
  threads = paired 500 9 ∷ placed 9 500 ∷ [];
}

meeting : Reach before after
unfolding turn seek_at offer_at c_text str_copy
meeting = next (next (next here (go 0 refl)) (go 1 refl)) (go 0 refl)

before-IsBalanced : IsBalanced before
before-IsBalanced c o = refl

Reach-IsBalanced_example : IsBalanced after
Reach-IsBalanced_example = Reach-IsBalanced before-IsBalanced meeting
