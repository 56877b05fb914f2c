-- ===== src/Client/Handover/Tests.antt =====
-- The hand-over of two block messages.
use linux_cat.Common.{◌≡◌, ◌⊎◌, refl, List, [], ◌∷◌, ◌++◌, map, some}
use linux_cat.Message.{Msg, zeroed}
use linux_cat.Client.Handover.{
  Handover, reading, init_sem, Turn, reader_goes, thread_goes, runs, reader_turn, receiver_turn,
  thread_turn, turn_of, hand_over,
}
use linux_cat.Client.Handover.Order.{copied, GoesOn, blocks_handed_on}

abbrev first : Msg
first = record zeroed { offset = 0; bs = 500 }

abbrev second : Msg
second = record zeroed { offset = 500; bs = 20 }

-- The reader has gone ahead as far as it can, and the first thread has not started to copy.
abbrev half : List Turn
half =
    reader_goes
    ∷ reader_goes
    ∷ reader_goes
    ∷ reader_goes
    ∷ reader_goes
    ∷ reader_goes
    ∷ reader_goes
    ∷ thread_goes 0
    ∷ []

blocks_handed_on_example :
    (s : Handover) × (hand_over (init_sem (first ∷ second ∷ [])) half ≡ some s)
    × ((later : List Msg) × (copied s.threads ++ later ≡ first ∷ second ∷ []))
    × ((s.threads ≡ map runs (first ∷ second ∷ [])) ⊎ GoesOn s)
blocks_handed_on_example = blocks_handed_on (first ∷ second ∷ []) half

-- With the rest of the turns both messages have their threads.
handed_on :
    hand_over (init_sem (first ∷ second ∷ [])) (
      half
      ++ (thread_goes 0
          ∷ thread_goes 0
          ∷ reader_goes
          ∷ reader_goes
          ∷ reader_goes
          ∷ reader_goes
          ∷ thread_goes 1
          ∷ thread_goes 1
          ∷ thread_goes 1
          ∷ []))
    ≡ some (record {
      left = [];
      reader = reading;
      sem0 = 1;
      sem1 = 0;
      omsg = some second;
      threads = runs first ∷ runs second ∷ [];
    })
unfolding hand_over init_sem turn_of thread_turn reader_turn receiver_turn
handed_on = refl
