-- ===== src/Client/Handover/Order.antt =====
-- Every block message reaches one receiving thread, in order (`thread_read` and `recv_file` of
-- a_cat/client/work/work.c).
use linux_cat.Common.{
  ℕ, ◌+◌, ◌*◌, ◌<◌, ◌≡◌, ◌⊎◌, inl, inr, refl, sym, ap, ◌∙◌, List, [], ◌∷◌, ◌++◌, map, Option, none,
  some, ◌==◌, length, arith, total, total-append, Bool-cases, append_assoc, append-nil, map-append,
}
use linux_cat.Message.{Msg}
use linux_cat.Client.Handover.{
  Reader, reading, claims, copies, posts, creates, Receiver, waits, takes, leaves, runs, Handover,
  init_sem, Turn, reader_goes, thread_goes, turn_of, hand_over,
}
use linux_cat.Client.Handover.Phases.{
  Phase, free, claimed, filled, announced, awaited, taken, left_behind, View, concrete, shape,
  advance, reads, receives, reads-concrete, receives-concrete, turn_of-concrete,
}

-- The messages that the threads have copied, in the order of the threads.
abbrev pub copied : List Receiver → List Msg
copied [] = []
copied (waits ∷ ts) = copied ts
copied (takes ∷ ts) = copied ts
copied (leaves m ∷ ts) = m ∷ copied ts
copied (runs m ∷ ts) = m ∷ copied ts

abbrev reader_steps : Reader → ℕ
reader_steps reading = 0
reader_steps (claims m) = 7
reader_steps (copies m) = 6
reader_steps posts = 5
reader_steps creates = 4

abbrev thread_steps : Receiver → ℕ
thread_steps waits = 3
thread_steps takes = 2
thread_steps (leaves m) = 1
thread_steps (runs m) = 0

-- How many turns are left until every message is handed on.
abbrev pub steps_left : Handover → ℕ
steps_left s = 8 * length s.left + reader_steps s.reader + total thread_steps s.threads

abbrev held_list : Option Msg → List Msg
held_list none = []
held_list (some m) = m ∷ []

abbrev pending : Phase → List Msg
pending (free held o) = held_list held
pending (claimed o m) = m ∷ []
pending (filled m) = m ∷ []
pending (announced m) = m ∷ []
pending (awaited held m) = m ∷ held_list held
pending (taken held m) = m ∷ held_list held
pending (left_behind held m) = m ∷ held_list held

abbrev all_of : View → List Msg
all_of v = v.handed ++ (pending v.phase ++ v.rest)

reads-all : (p : Phase) (ms rest : List Msg) → all_of (reads p ms rest) ≡ ms ++ (pending p ++ rest)
reads-all (free none o) ms [] = refl
reads-all (free none o) ms (m ∷ rest) = refl
reads-all (free (some m) o) ms rest = refl
reads-all (claimed o m) ms rest = refl
reads-all (filled m) ms rest = refl
reads-all (announced m) ms rest = refl
reads-all (awaited none m) ms [] = refl
reads-all (awaited none m) ms (x ∷ rest) = refl
reads-all (awaited (some x) m) ms rest = refl
reads-all (taken none m) ms [] = refl
reads-all (taken none m) ms (x ∷ rest) = refl
reads-all (taken (some x) m) ms rest = refl
reads-all (left_behind none m) ms [] = refl
reads-all (left_behind none m) ms (x ∷ rest) = refl
reads-all (left_behind (some x) m) ms rest = refl

receives-all :
    (p : Phase) (ms rest : List Msg) → all_of (receives p ms rest) ≡ ms ++ (pending p ++ rest)
receives-all (free held o) ms rest = refl
receives-all (claimed o m) ms rest = refl
receives-all (filled m) ms rest = refl
receives-all (announced m) ms rest = refl
receives-all (awaited held m) ms rest = refl
receives-all (taken held m) ms rest = refl
receives-all (left_behind held m) ms rest = append_assoc ms (m ∷ []) (held_list held ++ rest)

advance-all : (v : View) (t : Turn) → all_of (advance v t) ≡ all_of v
advance-all v reader_goes = reads-all v.phase v.handed v.rest
advance-all v (thread_goes i) = elim (Bool-cases (i == length v.handed)) [
  | inl hit ↦ rw hit (receives-all v.phase v.handed v.rest)
  | inr miss ↦ rw miss refl
]

hand_over-concrete :
    (v : View) (ts : List Turn)
    → (w : View) × (hand_over (concrete v) ts ≡ some (concrete w)) × (all_of w ≡ all_of v)
unfolding hand_over
hand_over-concrete v [] = (v, refl, refl)
hand_over-concrete v (t ∷ ts) =
    let (w, e, same) = hand_over-concrete (advance v t) ts in
    (w, rw (turn_of-concrete v t) e, same ∙ advance-all v t)

copied-runs : (ms : List Msg) (ts : List Receiver) → copied (map runs ms ++ ts) ≡ ms ++ copied ts
copied-runs [] ts = refl
copied-runs (m ∷ ms) ts = ap (λ l. m ∷ l) (copied-runs ms ts)

copied_all : (ms : List Msg) → copied (map runs ms) ≡ ms
copied_all [] = refl
copied_all (m ∷ ms) = ap (λ l. m ∷ l) (copied_all ms)

-- What the threads have copied begins all the messages.
copied-shape :
    (p : Phase) (ms rest : List Msg)
    → (later : List Msg) × (copied (shape p ms rest).threads ++ later ≡ ms ++ (pending p ++ rest))
copied-shape (free held o) ms rest = (held_list held ++ rest, rw (copied_all ms) refl)
copied-shape (claimed o m) ms rest = (m ∷ rest, rw (copied_all ms) refl)
copied-shape (filled m) ms rest = (m ∷ rest, rw (copied_all ms) refl)
copied-shape (announced m) ms rest = (m ∷ rest, rw (copied_all ms) refl)
copied-shape (awaited held m) ms rest =
    (m ∷ (held_list held ++ rest), rw (copied-runs ms (waits ∷ []), append-nil ms) refl)
copied-shape (taken held m) ms rest =
    (m ∷ (held_list held ++ rest), rw (copied-runs ms (takes ∷ []), append-nil ms) refl)
copied-shape (left_behind held m) ms rest = (
  held_list held ++ rest,
  rw (copied-runs ms (leaves m ∷ [])) (append_assoc ms (m ∷ []) (held_list held ++ rest)),
)

-- Some turn brings a state nearer to its end.
abbrev pub GoesOn : Handover → Type 0
GoesOn s = (t : Turn) × (s' : Handover) × (turn_of s t ≡ some s') × (steps_left s' < steps_left s)

reads-GoesOn :
    (p : Phase) (ms rest : List Msg)
    → steps_left (concrete (reads p ms rest)) < steps_left (shape p ms rest)
    → GoesOn (shape p ms rest)
reads-GoesOn p ms rest less =
    (reader_goes, concrete (reads p ms rest), reads-concrete p ms rest, less)

receives-GoesOn :
    (p : Phase) (ms rest : List Msg)
    → steps_left (concrete (receives p ms rest)) < steps_left (shape p ms rest)
    → GoesOn (shape p ms rest)
receives-GoesOn p ms rest less =
    (thread_goes (length ms), concrete (receives p ms rest), receives-concrete p ms rest, less)

shape-GoesOn :
    (p : Phase) (ms rest : List Msg)
    → ((pending p ++ rest ≡ []) × ((shape p ms rest).threads ≡ map runs ms))
      ⊎ GoesOn (shape p ms rest)
shape-GoesOn (free none o) ms [] = inl (refl, refl)
shape-GoesOn (free none o) ms (m ∷ rest) =
    inr (reads-GoesOn (free none o) ms (m ∷ rest) (omega arith))
shape-GoesOn (free (some m) o) ms rest = inr (reads-GoesOn (free (some m) o) ms rest (omega arith))
shape-GoesOn (claimed o m) ms rest = inr (reads-GoesOn (claimed o m) ms rest (omega arith))
shape-GoesOn (filled m) ms rest = inr (reads-GoesOn (filled m) ms rest (omega arith))
shape-GoesOn (announced m) ms rest = inr (
    reads-GoesOn (announced m) ms rest
      (omega (arith, total-append thread_steps (map runs ms) (waits ∷ []))))
shape-GoesOn (awaited held m) ms rest = inr (
    receives-GoesOn (awaited held m) ms rest (
      omega (
        arith,
        total-append thread_steps (map runs ms) (waits ∷ []),
        total-append thread_steps (map runs ms) (takes ∷ []),
      )))
shape-GoesOn (taken held m) ms rest = inr (
    receives-GoesOn (taken held m) ms rest (
      omega (
        arith,
        total-append thread_steps (map runs ms) (takes ∷ []),
        total-append thread_steps (map runs ms) (leaves m ∷ []),
      )))
shape-GoesOn (left_behind held m) ms rest = inr (
    receives-GoesOn (left_behind held m) ms rest (
      omega (
        arith,
        total-append thread_steps (map runs ms) (leaves m ∷ []),
        ap (total thread_steps) (map-append runs ms (m ∷ [])),
        total-append thread_steps (map runs ms) (runs m ∷ []),
      )))

-- Whatever order the threads go on in: no thread copies `omsg` before it is filled, and what the
-- receiving threads have copied, in the order of the threads, is the beginning of the messages with
-- action 5 that have come, each once. Unless each of the messages has a thread that is past the
-- hand-over with it, some turn of a thread goes on, and leaves fewer turns to the end.
pub blocks_handed_on :
    (ms : List Msg) (ts : List Turn)
    → (s : Handover) × (hand_over (init_sem ms) ts ≡ some s)
      × ((later : List Msg) × (copied s.threads ++ later ≡ ms))
      × ((s.threads ≡ map runs ms) ⊎ GoesOn s)
unfolding init_sem
blocks_handed_on ms ts =
    let begin : View = record { phase = free none none; handed = []; rest = ms } in
    let (w, e, same) = hand_over-concrete begin ts in
    let (later, copied_is) = copied-shape w.phase w.handed w.rest in
    (
      concrete w,
      e,
      (later, copied_is ∙ same),
      elim (shape-GoesOn w.phase w.handed w.rest) [
        | inl (empty, done) ↦ inl (
            done
            ∙ ap (map runs)
                (sym (append-nil w.handed) ∙ ap (λ l. w.handed ++ l) (sym empty) ∙ same))
        | inr on ↦ inr on
      ],
    )
